-- ===== src/Services/Pipeline/Advance/Effects.antt =====
-- A relation that every elementary effect keeps is kept by a whole run of `advance_case`.
use ai_revenue_recovery_agen.Prelude.{ℕ, zero, suc, Bool, true, false}
use ai_revenue_recovery_agen.Format.{plain}
use ai_revenue_recovery_agen.Domain.Fsm.{is_terminal}
use ai_revenue_recovery_agen.Outside.{Env}
use ai_revenue_recovery_agen.Work.{Work, Action, pure}
use ai_revenue_recovery_agen.Work.Keeps.{Keeps, Post, Preorder, Keeps-bind, Keeps-pure, Keeps-if}
use ai_revenue_recovery_agen.Verification.{close_unrecovered}
use ai_revenue_recovery_agen.Executors.{ExecutorDeps}
use ai_revenue_recovery_agen.Services.Pipeline.Step.{step}
use ai_revenue_recovery_agen.Services.Pipeline.Step.Stable.{Stable}
use ai_revenue_recovery_agen.Services.Pipeline.Step.Effects.{step-Keeps}
use ai_revenue_recovery_agen.Services.Pipeline.Advance.{drive, finish, advance_case, max_steps}

module _ (env : Env) (deps : ExecutorDeps) {R : Work → Work → Type 0} (order : Preorder R) where
  goes_on :
      (left : ℕ) (moved : Bool)
      → Keeps R (drive env deps left)
      → Keeps R (elim moved [ true ↦ drive env deps left | false ↦ pure tt ])
  goes_on left true h = h
  goes_on left false h = Keeps-pure order tt

  unless_terminal :
      {A : Type 0} (b : Bool) (m n : Action A) (w : Work)
      → Keeps R m
      → Keeps R n
      → Post (R w) (elim b [ true ↦ m w | false ↦ n w ])
  unless_terminal true m n w km kn = km.at w
  unless_terminal false m n w km kn = kn.at w

  drive-Keeps : Keeps R (step env deps) → (left : ℕ) → Keeps R (drive env deps left)
  unfolding drive
  drive-Keeps s zero = record { at = (Keeps-pure order tt).at }
  drive-Keeps s (suc left) =
      let rest = drive-Keeps s left in
      record {
        at = λ w.
            unless_terminal (is_terminal w.case.status) (pure tt) _ w (Keeps-pure order tt)
              (Keeps-bind order (step env deps) _ s (λ moved. goes_on left moved rest));
      }

  finish-Keeps :
      Keeps R (close_unrecovered env (plain "step budget exhausted")) → Keeps R (finish env deps)
  unfolding finish
  finish-Keeps c = record {
    at = λ w. Keeps-if (is_terminal w.case.status) _ _ w (Keeps-pure order tt) c;
  }

  -- The relation is kept by a step and by the close at the end.
  pub run-Keeps :
      Keeps R (step env deps)
      → Keeps R (close_unrecovered env (plain "step budget exhausted"))
      → Keeps R (advance_case env deps)
  unfolding advance_case
  run-Keeps s c = Keeps-bind order _ _ (drive-Keeps s max_steps) λ _. finish-Keeps c

pub advance_case-Keeps :
    {env : Env} {deps : ExecutorDeps} {R : Work → Work → Type 0}
    → Stable env deps R
    → Keeps R (advance_case env deps)
advance_case-Keeps {env} {deps} s =
    run-Keeps env deps s.order (step-Keeps s) (s.closes (plain "step budget exhausted"))
