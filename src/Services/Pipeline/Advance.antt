-- ===== src/Services/Pipeline/Advance.antt =====
-- `advance_case` of pipeline.py: steps until the case is terminal, cannot go on, or the budget of
-- `MAX_STEPS` is spent.
pub mod Effects
pub mod Walks
pub mod Money
pub mod Chain
pub mod Actions
pub mod Ends
pub mod Budget
use ai_revenue_recovery_agen.Prelude.{ℕ, zero, suc, Bool, true, false, not, if◌then◌else◌}
use ai_revenue_recovery_agen.Format.{plain}
use ai_revenue_recovery_agen.Domain.Fsm.{is_terminal}
use ai_revenue_recovery_agen.Outside.{Env}
use ai_revenue_recovery_agen.Work.{Work, Action, pure, ◌>>=◌, ◌>>◌}
use ai_revenue_recovery_agen.Verification.{close_unrecovered}
use ai_revenue_recovery_agen.Executors.{ExecutorDeps}
use ai_revenue_recovery_agen.Services.Pipeline.Step.{step}

abbrev pub max_steps : ℕ
max_steps = 32

module _ (env : Env) (deps : ExecutorDeps) where
  -- The `while` loop with the steps left.
  unfoldable pub drive : ℕ → Action Unit
  drive zero w = pure tt w
  drive (suc left) w = elim (is_terminal w.case.status) [
    | true ↦ pure tt w
    | false ↦ (step env deps >>= λ moved. elim moved [ true ↦ drive left | false ↦ pure tt ]) w
  ]

  finish : Action Unit
  finish w =
      if is_terminal w.case.status
      then pure tt w
      else close_unrecovered env (plain "step budget exhausted") w

  unfoldable pub advance_case : Action Unit
  unfolding finish
  advance_case = do drive max_steps; finish
