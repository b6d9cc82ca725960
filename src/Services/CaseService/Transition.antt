-- ===== src/Services/CaseService/Transition.antt =====
-- Where a guarded transition ends.
use ai_revenue_recovery_agen.Prelude.{◌≡◌, refl, true, false, Bool-cases, inl, inr}
use ai_revenue_recovery_agen.Result.{Error, ok, err}
use ai_revenue_recovery_agen.Format.{Reason}
use ai_revenue_recovery_agen.Db.Enums.{CaseStatus, Actor}
use ai_revenue_recovery_agen.Domain.Fsm.{can_transition, assert_transition}
use ai_revenue_recovery_agen.Outside.{Env}
use ai_revenue_recovery_agen.Work.{Work, modify, pure, ◌>>◌}
use ai_revenue_recovery_agen.Work.Keeps.{Post, Post-bind}
use ai_revenue_recovery_agen.Services.CaseService.{transition, set_status, log}

module _ (env : Env) (to : CaseStatus) (actor : Actor) (reason : Reason) where
  -- A transition that returns ends at the status asked for.
  pub lands : (w : Work) → Post (λ v. v.case.status ≡ to) (transition env to actor reason w)
  unfolding transition assert_transition modify set_status log
  lands w = elim (Bool-cases (can_transition w.case.status to)) [
    | inl y ↦ rw y refl
    | inr n ↦ rw n tt
  ]

  -- What holds of every work at the status holds after the transition, with an answer behind it.
  pub answers :
      {A : Type 0} (Q : Work → Type 0) (a : A) (w : Work)
      → ((v : Work) → v.case.status ≡ to → Q v)
      → Post Q ((do transition env to actor reason; pure a) w)
  unfolding pure
  answers Q a w h =
      Post-bind (λ v. v.case.status ≡ to) Q (transition env to actor reason) _ w (lands w)
        (λ b v e. h v e)

  -- An allowed transition writes the status and logs it; another one raises.
  pub transition_ok :
      (w : Work)
      → can_transition w.case.status to ≡ true
      → transition env to actor reason w ≡ ok (tt, set_status env to actor reason w)
  unfolding transition assert_transition modify
  transition_ok w y = rw y refl

  pub transition_err :
      (w : Work)
      → can_transition w.case.status to ≡ false
      → transition env to actor reason w ≡ err (Error.illegal_transition w.case.status to)
  unfolding transition assert_transition
  transition_err w n = rw n refl
