-- ===== src/Tests/Samples.antt =====
-- Sample rows, and an outside world of constants.
use ai_revenue_recovery_agen.Prelude.{◌+◌, Bool, true, false, none, some, [], ◌∷◌}
use ai_revenue_recovery_agen.Result.{Error, err}
use ai_revenue_recovery_agen.Format.{plain}
use ai_revenue_recovery_agen.Db.Enums.{
  CaseStatus, PaymentStatus, DiagnosisClass, ActionType, ExecutionMode, ActionStatus,
  DecisionOrigin, EscalationReasonCode, EscalationStatus,
}
use ai_revenue_recovery_agen.Db.Models.{
  Payment, RecoveryCase, AgentDecision, RecoveryAction, Escalation,
}
use ai_revenue_recovery_agen.Db.Session.{Session, empty_session}
use ai_revenue_recovery_agen.Domain.Strategies.{StrategyId, Situation, no_params}
use ai_revenue_recovery_agen.Policy.Config.{default_policy_config}
use ai_revenue_recovery_agen.Policy.Rules.{PolicyContext}
use ai_revenue_recovery_agen.Risk.Engine.{RiskInput}
use ai_revenue_recovery_agen.Outside.{Env}
use ai_revenue_recovery_agen.Work.{Work}
use ai_revenue_recovery_agen.Executors.{ExecutorDeps}
use ai_revenue_recovery_agen.Agent.Decide.{CaseContext}

abbrev pub payment : Payment
payment = record {
  id = 1;
  merchant_id = 1;
  customer_id = none;
  rzp_payment_id = "pay_1";
  rzp_order_id = none;
  status = PaymentStatus.failed;
  amount_minor = 150000;
  currency = "INR";
  method = some "card";
  error_code = none;
  error_source = none;
  error_step = none;
  error_reason = some "insufficient_funds";
  error_description = none;
  bank = none;
  card_last4 = none;
  is_simulated = true;
  rzp_created_at = none;
  created_at = 1000;
}

abbrev pub case_at : CaseStatus → RecoveryCase
case_at s = record {
  id = 2;
  case_ref = record { prefix = "RC"; value = 1 };
  merchant_id = 1;
  payment_id = 1;
  customer_id = none;
  status = s;
  risk_score = none;
  risk_band = none;
  diagnosis_class = none;
  strategy_id = none;
  agent_confidence = none;
  retry_count = 0;
  last_attempt_at = none;
  recovered_amount_minor = 0;
  outcome = none;
  closed_at = none;
  sla_deadline_at = none;
  ground_truth = none;
  created_at = 1000;
}

abbrev pub decision : AgentDecision
decision = record {
  id = 3;
  case_id = 2;
  decision_ref = record { prefix = "DEC"; value = 1 };
  origin = DecisionOrigin.fallback;
  diagnosis_class = DiagnosisClass.insufficient_funds;
  diagnosis_confidence = 9000;
  strategy_id = StrategyId.s3_notify_with_link;
  strategy_confidence = 9000;
  params = no_params;
  rationale = plain "no token";
  iterations_used = some 1;
  latency_ms = none;
}

abbrev pub action : RecoveryAction
action = record {
  id = 4;
  action_ref = record { prefix = "ACT"; value = 1 };
  case_id = 2;
  action_type = ActionType.retry_charge;
  attempt_no = 1;
  idempotency_key = (2, ActionType.retry_charge, 1);
  execution_mode = ExecutionMode.simulated;
  gateway_ref = none;
  status = ActionStatus.succeeded;
  result = none;
  error = none;
  executed_at = none;
}

abbrev pub escalation : Escalation
escalation = record {
  id = 5;
  escalation_ref = record { prefix = "ESC"; value = 1 };
  case_id = 2;
  reason_code = EscalationReasonCode.unknown_diagnosis;
  note = plain "unknown cause";
  status = EscalationStatus.open_status;
  decided_by = none;
  decision_note = none;
  decided_at = none;
}

abbrev pub session : Session
session = record empty_session {
  next_id = 10;
  decisions = decision ∷ [];
  actions = action ∷ [];
  escalations = escalation ∷ [];
}

abbrev pub work_at : CaseStatus → Work
work_at s = record {
  session = session;
  case = case_at s;
  payment = payment;
  customer = none;
  clock = 4600;
  simulator = record { rolls = []; drawn = 0 };
}

-- No language model, no Razorpay, even rolls and a hash that is the type of the event.
abbrev pub env : Env
env = record {
  sha256 = λ prev case_id actor event_type detail. event_type;
  sha_text = λ t. t;
  log_ratio = λ amount. 5000;
  random = λ k. 5000;
  utcnow = λ k. 4600 + k;
  llm_configured = false;
  call_llm = λ now p k. none;
  create_payment_link = λ amount r. err Error.http_error;
}

abbrev pub deps : Bool → ExecutorDeps
deps b = record { real = false; cfg = default_policy_config; fast_forward = b }

abbrev pub situation : DiagnosisClass → Bool → Situation
situation d token = record {
  diagnosis = d;
  retry_count = 0;
  has_token = token;
  amount_minor = 150000;
  confidence = 9000;
  age_seconds = 3600;
  downtime_active = false;
  approval_limit_minor = 2500000;
  confidence_floor = 6000;
}

abbrev pub ctx : PolicyContext
ctx = record {
  case_status = CaseStatus.policy_check;
  payment_status = PaymentStatus.failed;
  captured_for_order = false;
  amount_minor = 150000;
  retry_count = 1;
  last_attempt_at = some 1000;
  diagnosis_class = some DiagnosisClass.network_infra;
  diagnosis_confidence = 9000;
  strategy_confidence = 9000;
  contact_count_7d = 0;
  downtime_active = false;
  age_seconds = 3600;
  simulation_budget_remaining = 10;
  proposed_action = ActionType.retry_charge;
  proposed_delay_minutes = some 60;
  link_amount_minor = none;
  channel = none;
  existing_action = false;
  config = default_policy_config;
  now = 4600;
}

abbrev pub risk : RiskInput
risk = record {
  amount_minor = 150000;
  diagnosis = DiagnosisClass.network_infra;
  lifetime_value_minor = 500000;
  tenure_days = 400;
  prior_recoveries_90d = 1;
  retry_count = 0;
  age_seconds = 3600;
}

abbrev pub case_context : CaseContext
case_context = record {
  age_seconds = 3600;
  downtime_active = false;
  notify_count = 0;
  has_token = true;
}
