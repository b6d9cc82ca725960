-- ===== src/Services/Pipeline/Step/Returns.antt =====
-- When a step returns, over all statuses.
use mathlib.Core.Path.{subst}
use ai_revenue_recovery_agen.Prelude.{
  ◌≡◌, refl, sym, ap, Bool, true, false, Option, none, some, String, [], ◌*◌, inl, inr, Bool-cases,
  if◌then◌else◌,
}
use ai_revenue_recovery_agen.Result.{ok}
use ai_revenue_recovery_agen.Format.{plain}
use ai_revenue_recovery_agen.Db.Enums.{CaseStatus, Actor, ExecutionMode, status_eq}
use ai_revenue_recovery_agen.Db.Models.{AgentDecision}
use ai_revenue_recovery_agen.Domain.Fsm.{can_transition}
use ai_revenue_recovery_agen.Policy.Rules.{is_captured}
use ai_revenue_recovery_agen.Outside.{Env}
use ai_revenue_recovery_agen.Work.{Work, Action, pure, modify}
use ai_revenue_recovery_agen.Work.Keeps.{Sure, Sure-bind, returned}
use ai_revenue_recovery_agen.Services.CaseService.{transition, set_status, log}
use ai_revenue_recovery_agen.Verification.{record_capture, close_unrecovered}
use ai_revenue_recovery_agen.Executors.{ExecutorDeps, execute_for_strategy}
use ai_revenue_recovery_agen.Executors.Total.{IsAt, IsCaptured, Sure-transition, Sure-capture}
use ai_revenue_recovery_agen.Services.Pipeline.Context.{latest_decision, advance_minutes}
use ai_revenue_recovery_agen.Services.Pipeline.Escalation.{
  force_escalation_decision, expire_open_escalations,
}
use ai_revenue_recovery_agen.Services.Pipeline.Step.{
  step_planned, step_policy_check, execute_decision, step_approved, step_executing, reenter,
  override, close, ladder, step_verifying, approval_window, by_status, step,
}
use ai_revenue_recovery_agen.Services.Pipeline.Step.Gate.{step_at}
use ai_revenue_recovery_agen.Services.Pipeline.Step.Total.{
  IsComparable, Returns, legal, leaves, goes, step_detected-Returns, step_analyzing-Returns,
  step_diagnosed-Returns, check_policy-Returns, await_human-Returns, strategy-Returns,
}

module _ (env : Env) (deps : ExecutorDeps) where
  close-Returns :
      (reason : String) (w : Work)
      → IsAt CaseStatus.verifying w
      → Sure Returns (close env deps reason w)
  unfolding close close_unrecovered pure can_transition set_status log modify
  close-Returns reason w e =
      Sure-bind (λ a v. Unit {0}) Returns (close_unrecovered env (plain reason)) _ w
        (rw other (
          Sure-bind (λ a v. Unit {0}) (λ a v. Unit {0})
            (transition env CaseStatus.closed_unrecovered Actor.system (plain reason)) _ _
            (Sure-transition env CaseStatus.closed_unrecovered _ _ _ _ allowed tt) (λ a v h. tt)))
        (λ a v h. tt)
    where
      other : status_eq w.case.status CaseStatus.closed_unrecovered ≡ false
      other = ap (λ s. status_eq s CaseStatus.closed_unrecovered) e

      allowed : can_transition w.case.status CaseStatus.closed_unrecovered ≡ true
      allowed = ap (λ s. can_transition s CaseStatus.closed_unrecovered) e

  override-Returns : (w : Work) → IsAt CaseStatus.verifying w → Sure Returns (override env deps w)
  unfolding override can_transition force_escalation_decision log
  override-Returns w e = goes env deps CaseStatus.verifying _ CaseStatus.diagnosed _ _ w e refl

  reenter-Returns :
      (b : Bool) (w : Work) → IsAt CaseStatus.verifying w → Sure Returns (reenter env deps b w)
  unfolding reenter can_transition advance_minutes pure
  reenter-Returns true w e = goes env deps CaseStatus.verifying _ CaseStatus.diagnosed _ _ w e refl
  reenter-Returns false w e = tt

  either :
      (b : Bool) (m n : Action Bool) (w : Work)
      → Sure Returns (m w)
      → Sure Returns (n w)
      → Sure Returns ((if b then m else n) w)
  either true m n w hm hn = hm
  either false m n w hm hn = hn

  ladder-Returns : (w : Work) → IsAt CaseStatus.verifying w → Sure Returns (ladder env deps w w)
  unfolding ladder
  ladder-Returns w e = search (either, close-Returns, override-Returns, reenter-Returns)

  verifying-Returns :
      (w : Work) → IsAt CaseStatus.verifying w → Sure Returns (step_verifying env deps w)
  unfolding step_verifying pure can_transition
  verifying-Returns w e = elim (Bool-cases (is_captured w.payment.status)) [
    | inl y ↦ rw y (
        Sure-bind (λ a v. IsCaptured v) Returns
          (record_capture env none ExecutionMode.simulated "verifier_poll") _ w
          (Sure-capture env CaseStatus.verifying _ _ _ w e refl refl) (λ a v h. tt))
    | inr n ↦ rw n (ladder-Returns w e)
  ]

  window-Returns :
      (b : Bool) (w : Work)
      → IsAt CaseStatus.awaiting_approval w
      → Sure Returns (approval_window env deps b w)
  unfolding approval_window pure can_transition modify advance_minutes
  window-Returns false w e = tt
  window-Returns true w e =
      Sure-bind (λ a v. IsAt CaseStatus.awaiting_approval v) Returns
        (modify (advance_minutes (48 * 60))) _ w e
        λ a v h.
          Sure-bind (λ b u. Unit {0}) Returns (transition env CaseStatus.escalated _ _) _ v
            (Sure-transition env CaseStatus.escalated _ _ v _
              (legal env deps CaseStatus.awaiting_approval CaseStatus.escalated v h refl) tt)
            λ b u k.
              Sure-bind (λ c x. Unit {0}) Returns (modify (expire_open_escalations env)) _ u tt
                (λ c x l. tt)

  module _ (simulated : deps.real ≡ false) where
    execute-Returns :
        (d : Option AgentDecision) (w : Work)
        → IsAt CaseStatus.executing w
        → Sure Returns (execute_decision env deps d w)
    unfolding execute_decision execute_for_strategy
    execute-Returns none w e = await_human-Returns env deps w e
    execute-Returns (some d) w e = strategy-Returns env deps simulated d.strategy_id d.rationale w e

    approved-Returns :
        (w : Work) → IsAt CaseStatus.approved w → Sure Returns (step_approved env deps w)
    unfolding step_approved can_transition set_status log
    approved-Returns w e =
        Sure-bind (λ a v. IsAt CaseStatus.executing v) Returns
          (transition env CaseStatus.executing Actor.executor []) _ w
          (Sure-transition env CaseStatus.executing _ _ w _
            (legal env deps CaseStatus.approved CaseStatus.executing w e refl) refl)
          (λ a v h. execute-Returns _ v h)

    at_status :
        (c : CaseStatus) (w : Work)
        → IsAt c w
        → (c ≡ CaseStatus.policy_check
            → IsComparable (latest_decision w.case.id w.session.decisions))
        → Sure Returns (by_status env deps c w)
    unfolding by_status step_planned step_executing step_policy_check can_transition pure
    at_status CaseStatus.detected w e d = step_detected-Returns env deps w e
    at_status CaseStatus.analyzing w e d = step_analyzing-Returns env deps w e
    at_status CaseStatus.diagnosed w e d = step_diagnosed-Returns env deps w e
    at_status CaseStatus.planned w e d =
        leaves env deps CaseStatus.planned CaseStatus.policy_check _ _ true w e refl
    at_status CaseStatus.policy_check w e d = check_policy-Returns env deps _ w (d refl) e
    at_status CaseStatus.approved w e d = approved-Returns w e
    at_status CaseStatus.executing w e d =
        leaves env deps CaseStatus.executing CaseStatus.verifying _ _ true w e refl
    at_status CaseStatus.verifying w e d = verifying-Returns w e
    at_status CaseStatus.awaiting_approval w e d = window-Returns deps.fast_forward w e
    at_status _ w e d = tt

  -- Without a Razorpay adapter, a step returns an answer and a work on every status, in batch and in live
  -- mode, if a case at POLICY_CHECK has a decision, whose delay is absent or a number.
  pub step-Returns :
      (w : Work)
      → deps.real ≡ false
      → (w.case.status ≡ CaseStatus.policy_check
          → IsComparable (latest_decision w.case.id w.session.decisions))
      → (moved : Bool) × (v : Work) × (step env deps w ≡ ok (moved, v))
  step-Returns w simulated d = returned Returns _ (
      subst (λ r. Sure Returns r) (sym (step_at env deps w.case.status w refl))
        (at_status simulated w.case.status w refl d))
