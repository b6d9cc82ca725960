-- ===== src/Services/Pipeline/Advance/Ends.antt =====
-- Where a call of `advance_case` ends.
use ai_revenue_recovery_agen.Prelude.{
  ℕ, zero, suc, All, ◌≡◌, refl, ap, ◌∙◌, true, false, arith, Bool-cases, inl, inr, ◌+◌, ◌*◌,
}
use ai_revenue_recovery_agen.Result.{Result, Error, ok, err}
use ai_revenue_recovery_agen.Format.{Reason, plain}
use ai_revenue_recovery_agen.Db.Enums.{CaseStatus, Actor, status_eq}
use ai_revenue_recovery_agen.Domain.Fsm.{is_terminal, can_transition}
use ai_revenue_recovery_agen.Outside.{Env}
use ai_revenue_recovery_agen.Work.{Work, pure}
use ai_revenue_recovery_agen.Work.Keeps.{Post, Post-bind, Post-modify, bind-err, bind-ok}
use ai_revenue_recovery_agen.Services.CaseService.{transition, set_status, log}
use ai_revenue_recovery_agen.Services.CaseService.Transition.{lands, transition_err}
use ai_revenue_recovery_agen.Verification.{close_unrecovered}
use ai_revenue_recovery_agen.Executors.{ExecutorDeps}
use ai_revenue_recovery_agen.Services.Pipeline.Context.{advance_minutes}
use ai_revenue_recovery_agen.Services.Pipeline.Escalation.{expire_open_escalations}
use ai_revenue_recovery_agen.Services.Pipeline.Escalation.Expiry.{
  IsSettled, expire_open_escalations-IsSettled,
}
use ai_revenue_recovery_agen.Services.Pipeline.Step.{step}
use ai_revenue_recovery_agen.Services.Pipeline.Step.Gate.{step_parked, step_window, window_passed}
use ai_revenue_recovery_agen.Services.Pipeline.Advance.{drive, finish, advance_case, max_steps}

abbrev pub Over : Work → Type 0
Over w = is_terminal w.case.status ≡ true

module _ (env : Env) (deps : ExecutorDeps) where
  Over-close : (reason : Reason) (w : Work) → Post Over (close_unrecovered env reason w)
  unfolding close_unrecovered log pure is_terminal
  Over-close reason w = elim (Bool-cases (status_eq w.case.status CaseStatus.closed_unrecovered)) [
    | inl y ↦ rw y (closed w.case.status y)
    | inr n ↦ rw n (
        Post-modify (λ v. v.case.status ≡ CaseStatus.closed_unrecovered) Over
          (transition env CaseStatus.closed_unrecovered Actor.system reason) _ _ (lands env _ _ _ _)
          (λ v e. ap is_terminal e))
  ]
    where
      closed :
          (s : CaseStatus) → status_eq s CaseStatus.closed_unrecovered ≡ true → is_terminal s ≡ true
      closed CaseStatus.closed_unrecovered h = refl
      closed _ h = grind arith

  Over-finish : (w : Work) → Post Over (finish env deps w)
  unfolding finish pure
  Over-finish w = elim (Bool-cases (is_terminal w.case.status)) [
    | inl y ↦ rw y y
    | inr n ↦ rw n (Over-close (plain "step budget exhausted") w)
  ]

  -- A call of `advance_case` that returns leaves the case at a terminal status.
  pub advance_case-is_terminal : (w : Work) → Post Over (advance_case env deps w)
  unfolding advance_case
  advance_case-is_terminal w =
      Post-bind (λ v. Unit {0}) Over (drive env deps max_steps) _ w
        (anything (drive env deps max_steps w)) (λ a v h. Over-finish v)
    where
      anything : (r : Result (Unit {0} × Work)) → Post (λ v. Unit {0}) r
      anything (ok (a, v)) = tt
      anything (err e) = tt

  -- One round of the loop, by what its step answers.
  drive_stop :
      (n : ℕ) (w v : Work)
      → is_terminal w.case.status ≡ false
      → step env deps w ≡ ok (false, v)
      → drive env deps (suc n) w ≡ ok (tt, v)
  unfolding drive pure
  drive_stop n w v t h = rw (t, drive) (bind-ok _ _ _ _ _ h)

  drive_on :
      (n : ℕ) (w v : Work)
      → is_terminal w.case.status ≡ false
      → step env deps w ≡ ok (true, v)
      → drive env deps (suc n) w ≡ drive env deps n v
  unfolding drive
  drive_on n w v t h = rw (t, drive) (bind-ok _ _ _ _ _ h)

  drive-Over : (n : ℕ) (w : Work) → Over w → drive env deps n w ≡ ok (tt, w)
  unfolding drive pure
  drive-Over zero w t = refl
  drive-Over (suc n) w t = rw (t, drive) refl

  finish-Over : (w : Work) → Over w → finish env deps w ≡ ok (tt, w)
  unfolding finish pure
  finish-Over w t = rw t refl

  -- `finish` after a loop that ended at `v`.
  finished :
      (w v : Work)
      → drive env deps max_steps w ≡ ok (tt, v)
      → advance_case env deps w ≡ finish env deps v
  unfolding advance_case
  finished w v h = bind-ok _ _ _ _ _ h

  parked :
      (w : Work) → w.case.status ≡ CaseStatus.awaiting_approval → is_terminal w.case.status ≡ false
  unfolding is_terminal
  parked w e = ap is_terminal e

  finish_parked :
      (w : Work)
      → w.case.status ≡ CaseStatus.awaiting_approval
      → finish env deps w
        ≡ err (Error.illegal_transition CaseStatus.awaiting_approval CaseStatus.closed_unrecovered)
  unfolding finish close_unrecovered can_transition is_terminal
  finish_parked w e =
      rw (parked w e, not_closed)
        (bind-err _ _ _ _ (
            transition_err env CaseStatus.closed_unrecovered Actor.system
              (plain "step budget exhausted") _ refused)
          ∙ ap (λ s. err (Error.illegal_transition s CaseStatus.closed_unrecovered)) e)
    where
      not_closed : status_eq w.case.status CaseStatus.closed_unrecovered ≡ false
      not_closed = ap (λ s. status_eq s CaseStatus.closed_unrecovered) e

      refused : can_transition w.case.status CaseStatus.closed_unrecovered ≡ false
      refused = ap (λ s. can_transition s CaseStatus.closed_unrecovered) e

  -- In live mode, `advance_case` on a case that awaits approval raises: the loop stops at once, and the
  -- close behind it is an illegal transition.
  pub advance_case_parked :
      (w : Work)
      → deps.fast_forward ≡ false
      → w.case.status ≡ CaseStatus.awaiting_approval
      → advance_case env deps w
        ≡ err (Error.illegal_transition CaseStatus.awaiting_approval CaseStatus.closed_unrecovered)
  advance_case_parked w live e =
      finished w w (drive_stop 31 w w (parked w e) (step_parked env deps w live e))
      ∙ finish_parked w e

  -- In batch mode, `advance_case` on a case that awaits approval returns: the clock is 48 hours later, the
  -- case is ESCALATED, and no escalation of the case is open.
  pub advance_case_window :
      (w : Work)
      → deps.fast_forward ≡ true
      → w.case.status ≡ CaseStatus.awaiting_approval
      → (v : Work) × (advance_case env deps w ≡ ok (tt, v))
        × (v.case.status ≡ CaseStatus.escalated)
        × (v.clock ≡ w.clock + 48 * 3600)
        × All (IsSettled v.case.id) v.session.escalations
  unfolding expire_open_escalations set_status log advance_minutes is_terminal
  advance_case_window w batch e =
      let v = window_passed env deps w in
      (
        v,
        finished w v
              (drive_on 31 w v (parked w e) (step_window env deps w batch e) ∙ drive-Over 31 v over)
            ∙ finish-Over v over,
        refl,
        refl,
        settled,
      )
    where
      over : Over (window_passed env deps w)
      over = refl

      settled : All (IsSettled w.case.id) (window_passed env deps w).session.escalations
      settled = expire_open_escalations-IsSettled env (
          set_status env CaseStatus.escalated Actor.human (plain "approval window elapsed (batch)")
            (advance_minutes (48 * 60) w))
