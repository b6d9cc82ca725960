-- ===== src/Verification.antt =====
-- app/verification/service.py: the only writer of a recovered amount.
use ai_revenue_recovery_agen.Prelude.{
  ℕ, Option, none, some, List, [], ◌∷◌, String, str_eq, ◌==◌, if◌then◌else◌, find_first,
}
use ai_revenue_recovery_agen.Format.{Reason, text}
use ai_revenue_recovery_agen.Db.Enums.{
  CaseStatus, CaseOutcome, ExecutionMode, PaymentStatus, Actor, status_eq,
}
use ai_revenue_recovery_agen.Db.Models.{RecoveryCase, Payment, Detail}
use ai_revenue_recovery_agen.Db.Session.{Session}
use ai_revenue_recovery_agen.Outside.{Env}
use ai_revenue_recovery_agen.Work.{Work, Action, pure, modify, on_case, ◌>>◌}
use ai_revenue_recovery_agen.Services.CaseService.{log, transition}

-- The value of an `ExecutionMode`.
abbrev pub mode_text : ExecutionMode → String
mode_text ExecutionMode.real_rzp = "REAL_RZP"
mode_text ExecutionMode.simulated = "SIMULATED"
mode_text ExecutionMode.outbox = "OUTBOX"

-- The three writes before the transition.
mark_captured : String → Work → Work
mark_captured source w = record w {
  payment = record w.payment { status = PaymentStatus.captured };
  case = record w.case {
    recovered_amount_minor = w.payment.amount_minor;
    outcome = some (
        if str_eq source "webhook_self_heal"
        then CaseOutcome.self_healed
        else CaseOutcome.recovered);
  };
}

module _ (env : Env) where
  stamp_closed : Work → Work
  stamp_closed w = on_case (λ c. record c { closed_at = some (env.utcnow w.session.next_id) }) w

  unfoldable pub record_capture : Option Reason → ExecutionMode → String → Action Unit
  unfolding mark_captured stamp_closed
  record_capture gateway_ref mode source w =
      let marked = mark_captured source w in
      let done = transition env CaseStatus.recovered Actor.verifier (
        text "capture observed via "
        ∷ text source
        ∷ text " ("
        ∷ text (mode_text mode)
        ∷ text ")"
        ∷ []) in
      let confirm = λ (v : Work).
        log env Actor.verifier "CAPTURE_CONFIRMED"
          (Detail.capture_confirmed gateway_ref mode source v.payment.amount_minor)
          (stamp_closed v) in
      if status_eq w.case.status CaseStatus.recovered
      then pure tt w
      else (done >> modify confirm) marked

  unfoldable pub close_unrecovered : Reason → Action Unit
  unfolding stamp_closed
  close_unrecovered reason w =
      let marked = on_case (λ c. record c { outcome = some CaseOutcome.unrecovered }) w in
      let done = transition env CaseStatus.closed_unrecovered Actor.system reason in
      let confirm = λ (v : Work).
        log env Actor.system "CASE_CLOSED" (Detail.case_closed CaseOutcome.unrecovered reason)
          (stamp_closed v) in
      if status_eq w.case.status CaseStatus.closed_unrecovered
      then pure tt w
      else (done >> modify confirm) marked

payment_id_of : String → List Payment → Option ℕ
payment_id_of rzp_payment_id [] = none
payment_id_of rzp_payment_id (p ∷ ps) =
    if str_eq p.rzp_payment_id rzp_payment_id then some p.id else payment_id_of rzp_payment_id ps

-- The join of the cases with their payments.
unfoldable pub find_case_by_rzp_payment : String → Session → Option RecoveryCase
unfolding payment_id_of
find_case_by_rzp_payment rzp_payment_id s = elim (payment_id_of rzp_payment_id s.payments) [
  | none ↦ none
  | some id ↦ find_first (λ c. c.payment_id == id) s.cases
]
