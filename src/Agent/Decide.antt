-- ===== src/Agent/Decide.antt =====
-- app/agent/decide.py: the model proposes, the code validates, the table decides otherwise.
pub mod Laws
use ai_revenue_recovery_agen.Prelude.{
  ℕ, zero, suc, ◌+◌, Bool, true, false, ◌&&◌, Option, none, some, List, [], ◌∷◌, String, str_eq,
  leb, if◌then◌else◌,
}
use ai_revenue_recovery_agen.Format.{Ref, plain}
use ai_revenue_recovery_agen.Db.Enums.{DiagnosisClass, DecisionOrigin, Actor}
use ai_revenue_recovery_agen.Db.Models.{AgentDecision, Payment, Detail}
use ai_revenue_recovery_agen.Db.Session.{Session}
use ai_revenue_recovery_agen.Domain.Diagnosis.{diagnose}
use ai_revenue_recovery_agen.Domain.Strategies.{StrategyId, StrategyChoice, select_strategy}
use ai_revenue_recovery_agen.Policy.Config.{PolicyConfig}
use ai_revenue_recovery_agen.Outside.{Env, RawOutput}
use ai_revenue_recovery_agen.Work.{Work, on_case}
use ai_revenue_recovery_agen.Services.CaseService.{log, next_ref}

abbrev pub max_llm_attempts : ℕ
max_llm_attempts = 2

pub record CaseContext : Type 0 where
  pub age_seconds : ℕ
  pub downtime_active : Bool
  pub notify_count : ℕ
  pub has_token : Bool

-- A decision before it is persisted: what the two ways to decide fill in.
pub record Draft : Type 0 where
  pub origin : DecisionOrigin
  pub diagnosis_class : DiagnosisClass
  pub diagnosis_confidence : ℕ
  pub choice : StrategyChoice

unfoldable pub fallback_decision : Payment → CaseContext → PolicyConfig → ℕ → Draft
fallback_decision payment ctx cfg retry_count =
    let (d, d_conf) = diagnose payment.error_reason payment.error_code payment.error_source in
    record {
      origin = DecisionOrigin.fallback;
      diagnosis_class = d;
      diagnosis_confidence = d_conf;
      choice = select_strategy (record {
        diagnosis = d;
        retry_count = retry_count;
        has_token = ctx.has_token;
        amount_minor = payment.amount_minor;
        confidence = d_conf;
        age_seconds = ctx.age_seconds;
        downtime_active = ctx.downtime_active;
        approval_limit_minor = cfg.approval_limit_minor;
        confidence_floor = cfg.confidence_floor;
      });
    }

-- `DiagnosisClass(text)`
unfoldable pub parse_diagnosis : String → Option DiagnosisClass
parse_diagnosis t =
    if str_eq t "INSUFFICIENT_FUNDS"
    then some DiagnosisClass.insufficient_funds
    else if str_eq t "CUSTOMER_AUTH_REQUIRED"
    then some DiagnosisClass.customer_auth_required
    else if str_eq t "INSTRUMENT_INVALID"
    then some DiagnosisClass.instrument_invalid
    else if str_eq t "NETWORK_INFRA"
    then some DiagnosisClass.network_infra
    else if str_eq t "BANK_DOWNTIME"
    then some DiagnosisClass.bank_downtime
    else if str_eq t "DUPLICATE_SELF_HEALED"
    then some DiagnosisClass.duplicate_self_healed
    else if str_eq t "UNKNOWN"
    then some DiagnosisClass.unknown
    else none

-- The text is one of `ALL_STRATEGIES`.
unfoldable pub parse_strategy : String → Option StrategyId
parse_strategy t =
    if str_eq t "S1_IMMEDIATE_RETRY"
    then some StrategyId.s1_immediate_retry
    else if str_eq t "S2_DELAYED_RETRY"
    then some StrategyId.s2_delayed_retry
    else if str_eq t "S3_NOTIFY_WITH_LINK"
    then some StrategyId.s3_notify_with_link
    else if str_eq t "S4_ALT_PAYMENT_FLOW"
    then some StrategyId.s4_alt_payment_flow
    else if str_eq t "S5_HUMAN_ESCALATION"
    then some StrategyId.s5_human_escalation
    else if str_eq t "S6_STOP_RECOVERY"
    then some StrategyId.s6_stop_recovery
    else none

infixl 5 ◌>>=◌
abbrev ◌>>=◌ : {A B : Type 0} → Option A → (A → Option B) → Option B
none >>= f = none
some a >>= f = f a

-- A confidence in [0, 1].
pub in_unit : Option ℕ → Option ℕ
in_unit none = none
in_unit (some v) = if leb v 10000 then some v else none

-- `_validate_llm_output`, with the two confidences that it has read.
unfoldable pub validate_llm_output : RawOutput → Option (DiagnosisClass × StrategyId × ℕ × ℕ)
unfolding in_unit parse_diagnosis parse_strategy
validate_llm_output raw = do
  diagnosis ← raw.diagnosis
  d ← parse_diagnosis diagnosis
  strategy ← raw.strategy_id
  s ← parse_strategy strategy
  c ← in_unit raw.diagnosis_confidence
  sc ← in_unit raw.strategy_confidence
  some (d, s, c, sc)

-- `t[:n]`
abbrev pub first_chars : ℕ → String → String
first_chars zero t = ""
first_chars (suc n) String.[] = ""
first_chars (suc n) (String.◌∷◌ c t) = String.◌∷◌ c (first_chars n t)

-- One round of the loop: an answer that validates, as a draft.
draft_of : Option RawOutput → Option Draft
draft_of none = none
draft_of (some raw) = do
  (d, s, c, sc) ← validate_llm_output raw
  params ← raw.params
  some (record {
    origin = DecisionOrigin.llm;
    diagnosis_class = d;
    diagnosis_confidence = c;
    choice = record {
      strategy_id = s;
      confidence = sc;
      params = params;
      reason = first_chars 500 raw.rationale;
    };
  })

module _ (env : Env) where
  -- The loop over the attempts: the first valid answer counts.
  attempts : ℕ → ℕ → ℕ → Payment → Option Draft
  unfolding draft_of
  attempts zero k now payment = none
  attempts (suc n) k now payment = elim (draft_of (env.call_llm now payment k)) [
    | some d ↦ some d
    | none ↦ attempts n (k + 1) now payment
  ]

  llm_draft : Bool → ℕ → Payment → Option Draft
  unfolding attempts
  llm_draft true now payment = attempts max_llm_attempts 0 now payment
  llm_draft false now payment = none

  or_fallback : Option Draft → Draft → Draft
  or_fallback (some d) f = d
  or_fallback none f = f

  unfoldable pub draft : CaseContext → PolicyConfig → ℕ → Work → Draft
  unfolding llm_draft or_fallback
  draft ctx cfg retry_count w =
      or_fallback (llm_draft env.llm_configured w.session.next_id w.payment)
        (fallback_decision w.payment ctx cfg retry_count)

  -- The row of a decision.
  row : ℕ → ℕ → Ref → Draft → AgentDecision
  row id case_id decision_ref d = record {
    id = id;
    case_id = case_id;
    decision_ref = decision_ref;
    origin = d.origin;
    diagnosis_class = d.diagnosis_class;
    diagnosis_confidence = d.diagnosis_confidence;
    strategy_id = d.choice.strategy_id;
    strategy_confidence = d.choice.confidence;
    params = d.choice.params;
    rationale = plain d.choice.reason;
    iterations_used = some 1;
    latency_ms = some 0;
  }

  -- The decision is inserted, the case stamped, and the log told.
  unfoldable pub persist : Draft → ℕ → Work → AgentDecision × Work
  unfolding row
  persist d retry_count w =
      let (decision_ref, s) = next_ref "decision_ref" "DEC" w.session in
      let decision = row s.next_id w.case.id decision_ref d in
      let inserted = record w {
        session = record s { next_id = s.next_id + 1; decisions = decision ∷ s.decisions };
        case = record w.case {
          diagnosis_class = some d.diagnosis_class;
          strategy_id = some d.choice.strategy_id;
          agent_confidence = some d.diagnosis_confidence;
        };
      } in
      (
        decision,
        log env Actor.agent "DECISION_RECORDED"
            (Detail.decision_recorded decision_ref d.origin d.diagnosis_class d.choice.strategy_id
              d.diagnosis_confidence retry_count)
            inserted,
      )

  unfoldable pub decide_and_persist : CaseContext → PolicyConfig → ℕ → Work → AgentDecision × Work
  decide_and_persist ctx cfg retry_count w = persist (draft ctx cfg retry_count w) retry_count w
