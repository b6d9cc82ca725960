-- ===== src/Executors/Total.antt =====
-- The executors return when no Razorpay adapter is there: no step of theirs is an illegal transition.
use mathlib.Core.Path.{subst}
use ai_revenue_recovery_agen.Prelude.{
  ◌≡◌, refl, sym, Bool, true, false, not, Option, none, some, String, ◌⊎◌, inl, inr, Bool-cases,
}
use ai_revenue_recovery_agen.Result.{Result, ok, err}
use ai_revenue_recovery_agen.Format.{Reason}
use ai_revenue_recovery_agen.Db.Enums.{
  CaseStatus, Actor, ActionStatus, ActionType, ExecutionMode, status_eq,
}
use ai_revenue_recovery_agen.Db.Models.{RecoveryAction}
use ai_revenue_recovery_agen.Domain.Fsm.{can_transition}
use ai_revenue_recovery_agen.Policy.Config.{PolicyConfig}
use ai_revenue_recovery_agen.Policy.Rules.{is_captured}
use ai_revenue_recovery_agen.Outside.{Env, PaymentLinkResult}
use ai_revenue_recovery_agen.Work.{Work, Action, pure, gets, modify, run, ◌>>=◌, ◌>>◌}
use ai_revenue_recovery_agen.Work.Keeps.{Sure, Sure-bind}
use ai_revenue_recovery_agen.Services.CaseService.{transition, set_status, log}
use ai_revenue_recovery_agen.Services.CaseService.Transition.{transition_ok}
use ai_revenue_recovery_agen.Verification.{record_capture}
use ai_revenue_recovery_agen.Executors.{
  new_action, fresh_action, finish_action, charge_simulated, capture_if, execute_retry_charge,
  queue_notifications, add_notification, ask_payment, make_link, collect, link_sent, after_link,
  execute_send_link, add_escalation, execute_escalation, some_action, is_instrument_invalid,
}

abbrev pub IsAt : CaseStatus → Work → Type 0
IsAt s w = w.case.status ≡ s

abbrev pub IsCaptured : Work → Type 0
IsCaptured w = is_captured w.payment.status ≡ true

abbrev Running : {A : Type 0} → A → Work → Type 0
Running a w = IsAt CaseStatus.executing w

-- After an executor: the case is still executing, or the payment is captured and the action did not fail.
abbrev pub Executed : RecoveryAction → Work → Type 0
Executed a w = IsAt CaseStatus.executing w ⊎ (IsCaptured w × (a.status ≡ ActionStatus.succeeded))

module _ (env : Env) where
  pub Sure-transition :
      (to : CaseStatus) (actor : Actor) (reason : Reason) (w : Work) (Q : Unit → Work → Type 0)
      → can_transition w.case.status to ≡ true
      → Q tt (set_status env to actor reason w)
      → Sure Q (transition env to actor reason w)
  Sure-transition to actor reason w Q h q =
      subst (λ r. Sure Q r) (sym (transition_ok env to actor reason w h)) q

  pub Sure-capture :
      (s : CaseStatus) (g : Option Reason) (mode : ExecutionMode) (source : String) (w : Work)
      → IsAt s w
      → status_eq s CaseStatus.recovered ≡ false
      → can_transition s CaseStatus.recovered ≡ true
      → Sure (λ a v. IsCaptured v) (record_capture env g mode source w)
  unfolding record_capture set_status log modify
  Sure-capture s g mode source w e n y = rw (other) (
      Sure-bind (λ a v. IsCaptured v) (λ a v. IsCaptured v)
        (transition env CaseStatus.recovered Actor.verifier _) _ _
        (Sure-transition CaseStatus.recovered _ _ _ _ legal refl) (λ a v h. h))
    where
      other : status_eq w.case.status CaseStatus.recovered ≡ false
      other = subst (λ x. status_eq x CaseStatus.recovered ≡ false) (sym e) n

      legal : can_transition w.case.status CaseStatus.recovered ≡ true
      legal = subst (λ x. can_transition x CaseStatus.recovered ≡ true) (sym e) y

  captures :
      (b : Bool) (g : Option Reason) (source : String) (w : Work)
      → IsAt CaseStatus.executing w
      → Sure (λ a v. IsAt CaseStatus.executing v ⊎ IsCaptured v) (capture_if env b g source w)
  unfolding capture_if pure can_transition
  captures false g source w e = inl e
  captures true g source w e =
      weaken _ (Sure-capture CaseStatus.executing g ExecutionMode.simulated source w e refl refl)
    where
      weaken :
          (r : Result (Unit {0} × Work))
          → Sure (λ a v. IsCaptured v) r
          → Sure (λ a v. IsAt CaseStatus.executing v ⊎ IsCaptured v) r
      weaken (ok (a, v)) h = inr h
      weaken (err x) h = h

  -- A finished action after a capture or none.
  closing :
      (d : RecoveryAction) (v : Work)
      → d.status ≡ ActionStatus.succeeded
      → IsAt CaseStatus.executing v ⊎ IsCaptured v
      → Executed d v
  closing d v k (inl e) = inl e
  closing d v k (inr c) = inr (c, k)

  pub retry_charge-Executed :
      (w : Work) → IsAt CaseStatus.executing w → Sure Executed (execute_retry_charge env w)
  unfolding execute_retry_charge run pure new_action fresh_action charge_simulated finish_action log
  retry_charge-Executed w e =
      Sure-bind Running Executed
        (run (new_action env ActionType.retry_charge ExecutionMode.simulated)) _ w e
        λ a v h. Sure-bind Running Executed (run (charge_simulated env)) _ v h λ res u k.
          Sure-bind (λ d x. IsAt CaseStatus.executing x × (d.status ≡ ActionStatus.succeeded))
            Executed (run (finish_action env a true _ _ _)) _ u (k, refl)
            λ d x p.
              Sure-bind (λ o y. IsAt CaseStatus.executing y ⊎ IsCaptured y) Executed
                (capture_if env _ _ _) _ x (captures _ _ _ x p.0) λ o y q. closing d y p.1 q

  after_collect :
      (d : RecoveryAction) (w : Work)
      → IsAt CaseStatus.executing w
      → d.status ≡ ActionStatus.succeeded
      → Sure Executed ((collect env false >> pure d) w)
  unfolding collect pure ask_payment run
  after_collect d w e k =
      Sure-bind (λ o y. IsAt CaseStatus.executing y ⊎ IsCaptured y) Executed (collect env false) _ w
        (Sure-bind Running (λ o y. IsAt CaseStatus.executing y ⊎ IsCaptured y)
          (run (ask_payment env)) _ w e (λ paid v h. captures _ _ _ v h))
        (λ o y q. closing d y k q)

  link_sent-Executed :
      (a : RecoveryAction) (res : PaymentLinkResult) (b : Bool) (w : Work)
      → IsAt CaseStatus.executing w
      → Sure Executed (link_sent env false a res b w)
  unfolding link_sent run modify finish_action queue_notifications add_notification log
  link_sent-Executed a res b w e =
      Sure-bind Running Executed (modify (queue_notifications env a b)) _ w e λ o v h.
        Sure-bind (λ d x. IsAt CaseStatus.executing x × (d.status ≡ ActionStatus.succeeded))
          Executed (run (finish_action env a true _ _ _)) _ v (h, refl)
          λ d x p. after_collect d x p.0 p.1

  after_link-Executed :
      (a : RecoveryAction) (res : PaymentLinkResult) (w : Work)
      → IsAt CaseStatus.executing w
      → Sure Executed (after_link env false a res w)
  unfolding after_link run finish_action log
  after_link-Executed a res w e = elim (Bool-cases (not res.success)) [
    | inl y ↦ rw y (inl e)
    | inr n ↦ rw n (link_sent-Executed a res (is_instrument_invalid w.case.diagnosis_class) w e)
  ]

  pub send_link-Executed :
      (w : Work) → IsAt CaseStatus.executing w → Sure Executed (execute_send_link env false w)
  unfolding execute_send_link run new_action fresh_action make_link pure log
  send_link-Executed w e =
      Sure-bind Running Executed
        (run (new_action env ActionType.send_recovery_link ExecutionMode.simulated)) _ w e
        λ a v h.
          Sure-bind Running Executed (make_link env false) _ v h
            λ res u k. after_link-Executed a res u k

  pub Running-escalation :
      (cfg : PolicyConfig) (note : Reason) (w : Work)
      → IsAt CaseStatus.executing w
      → Sure Running (execute_escalation env cfg note w)
  unfolding execute_escalation run gets new_action fresh_action add_escalation finish_action log
      ◌>>=◌
  Running-escalation cfg note w e = e

  -- What a strategy with a side effect leaves for `after_execution`.
  abbrev pub Done : Option RecoveryAction → Work → Type 0
  Done none w = IsAt CaseStatus.executing w
  Done (some a) w = Executed a w

  pub some_action-Done :
      (m : Action RecoveryAction) (w : Work) → Sure Executed (m w) → Sure Done (some_action env m w)
  unfolding some_action pure
  some_action-Done m w h = Sure-bind Executed Done m _ w h (λ a v k. k)
