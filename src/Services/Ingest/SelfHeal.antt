-- ===== src/Services/Ingest/SelfHeal.antt =====
-- A capture that comes by webhook for a payment that has a case.
use ai_revenue_recovery_agen.Prelude.{◌≡◌, refl, true, false, Option, none, some, String, arith}
use ai_revenue_recovery_agen.Result.{Error, ok, err}
use ai_revenue_recovery_agen.Format.{Reason, plain}
use ai_revenue_recovery_agen.Db.Enums.{
  CaseStatus, CaseOutcome, DiagnosisClass, ExecutionMode, PaymentStatus, status_eq,
}
use ai_revenue_recovery_agen.Db.Models.{Payment, RecoveryCase}
use ai_revenue_recovery_agen.Db.Session.{Session}
use ai_revenue_recovery_agen.Domain.Fsm.{is_terminal, can_transition}
use ai_revenue_recovery_agen.Domain.Strategies.{StrategyId}
use ai_revenue_recovery_agen.Outside.{Env}
use ai_revenue_recovery_agen.Work.{Work, modify}
use ai_revenue_recovery_agen.Work.Keeps.{Sure, Sure-bind, returned_with, bind-err}
use ai_revenue_recovery_agen.Verification.{record_capture}
use ai_revenue_recovery_agen.Services.Loading.{flushed}
use ai_revenue_recovery_agen.Services.CaseService.{transition, set_status, log, get_case_by_payment}
use ai_revenue_recovery_agen.Executors.Total.{Sure-transition}
use ai_revenue_recovery_agen.Services.CaseService.Transition.{transition_err}
use ai_revenue_recovery_agen.Services.Ingest.{at_work, self_heal, on_captured, ingested}
use ai_revenue_recovery_agen.Services.Ingest.Payload.{Entity}

-- A status that is not terminal is not RECOVERED and may become it.
active_recovers :
    (s : CaseStatus)
    → is_terminal s ≡ false
    → (status_eq s CaseStatus.recovered ≡ false) × (can_transition s CaseStatus.recovered ≡ true)
unfolding is_terminal can_transition
active_recovers CaseStatus.detected h = (refl, refl)
active_recovers _ h = grind arith

-- Another terminal status may not.
ended_stays :
    (s : CaseStatus)
    → is_terminal s ≡ true
    → status_eq s CaseStatus.recovered ≡ false
    → can_transition s CaseStatus.recovered ≡ false
unfolding is_terminal can_transition
ended_stays CaseStatus.blocked h n = refl
ended_stays _ h n = grind arith

module _ (env : Env) (event_id : String) (ent : Entity) (p : Payment) (c : RecoveryCase)
    (s : Session) where
  stamped : Work
  stamped =
      at_work s
        (record c {
          diagnosis_class = some DiagnosisClass.duplicate_self_healed;
          strategy_id = some StrategyId.s6_stop_recovery;
        })
        p

  -- The case that a capture by webhook leaves.
  pub record Healed (v : Work) : Type 0 where
    pub same : v.case.id ≡ c.id
    pub status : v.case.status ≡ CaseStatus.recovered
    pub diagnosis_class : v.case.diagnosis_class ≡ some DiagnosisClass.duplicate_self_healed
    pub outcome : v.case.outcome ≡ some CaseOutcome.self_healed
    pub amount : v.case.recovered_amount_minor ≡ p.amount_minor
    pub payment : v.payment.status ≡ PaymentStatus.captured

  captured_active :
      (g : Option Reason)
      → is_terminal c.status ≡ false
      → Sure
          (λ a v. Healed v)
          (record_capture env g ExecutionMode.simulated "webhook_self_heal" stamped)
  unfolding record_capture stamped set_status log modify
  captured_active g h =
      let (other, legal) = active_recovers c.status h in
      rw other (
        Sure-bind (λ a v. Healed v) (λ a v. Healed v) (transition env CaseStatus.recovered _ _) _ _
          (Sure-transition env CaseStatus.recovered _ _ _ _ legal (record {
            same = refl;
            status = refl;
            diagnosis_class = refl;
            outcome = refl;
            amount = refl;
            payment = refl;
          }))
          (λ a v q. record {
            same = q.same;
            status = q.status;
            diagnosis_class = q.diagnosis_class;
            outcome = q.outcome;
            amount = q.amount;
            payment = q.payment;
          }))

  captured_ended :
      (g : Option Reason)
      → is_terminal c.status ≡ true
      → status_eq c.status CaseStatus.recovered ≡ false
      → record_capture env g ExecutionMode.simulated "webhook_self_heal" stamped
        ≡ err (Error.illegal_transition c.status CaseStatus.recovered)
  unfolding record_capture stamped
  captured_ended g h n =
      rw n (
        bind-err _ _ _ _ (transition_err env CaseStatus.recovered _ _ _ (ended_stays c.status h n)))

  abbrev gateway_ref : Option Reason
  gateway_ref = elim ent.id [ none ↦ none | some id ↦ some (plain id) ]

  -- The session has a case for the payment.
  module _ (found : get_case_by_payment p.id s.cases ≡ some c) where
    on_captured_active :
        is_terminal c.status ≡ false
        → (v : Work) × (on_captured env event_id ent p s
            ≡ ok (ingested event_id true (some c.case_ref) "self-healed", flushed v))
          × Healed v
    unfolding on_captured self_heal stamped
    on_captured_active h =
        let (a, v, e, q) = returned_with (λ a v. Healed v) _ (captured_active gateway_ref h) in
        (v, rw (found, e) refl, q)

    on_captured_ended :
        is_terminal c.status ≡ true
        → status_eq c.status CaseStatus.recovered ≡ false
        → on_captured env event_id ent p s
          ≡ err (Error.illegal_transition c.status CaseStatus.recovered)
    unfolding on_captured self_heal stamped
    on_captured_ended h n = let e = captured_ended gateway_ref h n in rw (found, e) refl

    -- A capture by webhook for a payment that has a case: if the case is active, it returns, and the case is
    -- RECOVERED with the outcome SELF_HEALED, the diagnosis DUPLICATE_SELF_HEALED and the whole amount of
    -- the payment, and the payment is captured; if the case ended otherwise than RECOVERED, it raises the
    -- illegal transition.
    pub on_captured_lem :
        (is_terminal c.status ≡ false
          → (v : Work) × (on_captured env event_id ent p s
              ≡ ok (ingested event_id true (some c.case_ref) "self-healed", flushed v))
            × Healed v)
        × (is_terminal c.status ≡ true
            → status_eq c.status CaseStatus.recovered ≡ false
            → on_captured env event_id ent p s
              ≡ err (Error.illegal_transition c.status CaseStatus.recovered))
    on_captured_lem = (on_captured_active, on_captured_ended)
