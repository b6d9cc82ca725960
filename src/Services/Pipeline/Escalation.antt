-- ===== src/Services/Pipeline/Escalation.antt =====
-- The escalation rows that pipeline.py writes: when a case parks, when the ladder ends, and when the
-- approval window closes.
pub mod Expiry
use ai_revenue_recovery_agen.Prelude.{
  ℕ, ◌+◌, Bool, true, false, ◌&&◌, Option, none, some, List, [], ◌∷◌, String, ltb, leb, ◌==◌,
  if◌then◌else◌, get_or, map,
}
use ai_revenue_recovery_agen.Format.{Ref, Reason, plain}
use ai_revenue_recovery_agen.Db.Enums.{
  DiagnosisClass, DecisionOrigin, EscalationReasonCode, EscalationStatus, Actor,
}
use ai_revenue_recovery_agen.Db.Models.{AgentDecision, Escalation, Detail, RecoveryCase}
use ai_revenue_recovery_agen.Db.Session.{Session}
use ai_revenue_recovery_agen.Domain.Strategies.{StrategyId, no_params}
use ai_revenue_recovery_agen.Policy.Config.{PolicyConfig}
use ai_revenue_recovery_agen.Executors.{is_unknown, add_escalation}
use ai_revenue_recovery_agen.Outside.{Env}
use ai_revenue_recovery_agen.Work.{Work, on_session, on_case}
use ai_revenue_recovery_agen.Services.CaseService.{log, next_ref}

unfoldable pub has_escalation : ℕ → List Escalation → Bool
has_escalation case_id [] = false
has_escalation case_id (e ∷ es) =
    let rest = has_escalation case_id es in if e.case_id == case_id then true else rest

-- `(case.agent_confidence or 1.0) < floor`: None and 0.0 count as 1.0.
abbrev pub or_one : Option ℕ → ℕ
or_one none = 10000
or_one (some c) = if c == 0 then 10000 else c

parking_code : Work → PolicyConfig → EscalationReasonCode
parking_code w cfg =
    if leb cfg.approval_limit_minor w.payment.amount_minor
    then EscalationReasonCode.amount_ceiling
    else if is_unknown w.case.diagnosis_class
    then EscalationReasonCode.unknown_diagnosis
    else if ltb (or_one w.case.agent_confidence) cfg.confidence_floor
    then EscalationReasonCode.low_confidence
    else if leb cfg.max_retries w.case.retry_count
    then EscalationReasonCode.max_retries_exhausted
    else EscalationReasonCode.low_confidence

-- `case.agent_confidence or 0.5`: None and 0.0 count as 0.5.
abbrev or_half : Option ℕ → ℕ
or_half none = 5000
or_half (some c) = if c == 0 then 5000 else c

abbrev pub is_open : EscalationStatus → Bool
is_open EscalationStatus.open_status = true
is_open _ = false

module _ (env : Env) where
  park : EscalationReasonCode → Reason → Work → Work
  park code reason w =
      let (escalation_ref, w') = add_escalation env code reason w in
      log env Actor.system "ESCALATION_CREATED" (Detail.escalation_created escalation_ref code) w'

  -- `_ensure_escalation`
  unfoldable pub ensure_escalation : Reason → PolicyConfig → Work → Work
  unfolding park parking_code
  ensure_escalation reason cfg w =
      if has_escalation w.case.id w.session.escalations
      then w
      else park (parking_code w cfg) reason w

  -- `_force_escalation_decision`
  unfoldable pub force_escalation_decision : String → Work → Work
  force_escalation_decision reason w =
      let (decision_ref, s) = next_ref "decision_ref" "DEC" w.session in
      let decision : AgentDecision = record {
        id = s.next_id;
        case_id = w.case.id;
        decision_ref = decision_ref;
        origin = DecisionOrigin.fallback;
        diagnosis_class = get_or w.case.diagnosis_class DiagnosisClass.unknown;
        diagnosis_confidence = or_half w.case.agent_confidence;
        strategy_id = StrategyId.s5_human_escalation;
        strategy_confidence = 9000;
        params = no_params;
        rationale = plain reason;
        iterations_used = some 1;
        latency_ms = none;
      } in
      log env Actor.system "LADDER_OVERRIDE"
        (Detail.ladder_override StrategyId.s5_human_escalation (plain reason))
        (record w {
          session = record s { next_id = s.next_id + 1; decisions = decision ∷ s.decisions };
          case = record w.case { strategy_id = some StrategyId.s5_human_escalation };
        })

  expire_row : ℕ → ℕ → Escalation → Escalation
  expire_row now case_id e =
      if e.case_id == case_id && is_open e.status
      then record e {
        status = EscalationStatus.expired;
        decided_by = some "timeout";
        decision_note = some "48h window elapsed (batch fast-forward)";
        decided_at = some now;
      }
      else e

  -- `_expire_open_escalations`
  unfoldable pub expire_open_escalations : Work → Work
  unfolding expire_row
  expire_open_escalations w =
      on_session
        (λ s. record s {
          escalations = map (expire_row (env.utcnow s.next_id) w.case.id) s.escalations;
        })
        w
