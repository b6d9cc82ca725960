-- ===== src/Db/Models.antt =====
-- The rows of app/db/models.py. An id is a number, a time is a number of seconds since the epoch, an
-- amount a number of paise, a confidence a number of ten-thousandths. `updated_at` is left out: the
-- ORM stamps it and no code reads it.
use ai_revenue_recovery_agen.Prelude.{ℕ, Bool, Option, List, String}
use ai_revenue_recovery_agen.Format.{Ref, Reason}
use ai_revenue_recovery_agen.Db.Enums.{
  CaseStatus, RiskBand, DiagnosisClass, PaymentStatus, ActionType, ExecutionMode, ActionStatus,
  DecisionOrigin, PolicyVerdict, NotificationChannel, NotificationStatus, EscalationReasonCode,
  EscalationStatus, CaseOutcome, Actor,
}
use ai_revenue_recovery_agen.Domain.Strategies.{StrategyId, Params}
use ai_revenue_recovery_agen.Policy.Config.{Overrides}
use ai_revenue_recovery_agen.Policy.Rules.{RuleId, RuleHit}

pub record Merchant : Type 0 where
  pub id : ℕ
  pub name : String
  pub rzp_key_id : String
  pub policy_config : Overrides

pub record Customer : Type 0 where
  pub id : ℕ
  pub merchant_id : ℕ
  pub rzp_customer_id : Option String
  pub masked_name : String
  pub contact_hash : String
  pub email_masked : Option String
  pub tenure_days : ℕ
  pub lifetime_value_minor : ℕ
  pub prior_failures_90d : ℕ
  pub prior_recoveries_90d : ℕ
  pub successful_payments : ℕ
  pub has_saved_token : Bool
  pub mandate_status : Option String

pub record Payment : Type 0 where
  pub id : ℕ
  pub merchant_id : ℕ
  pub customer_id : Option ℕ
  pub rzp_payment_id : String
  pub rzp_order_id : Option String
  pub status : PaymentStatus
  pub amount_minor : ℕ
  pub currency : String
  pub method : Option String
  pub error_code : Option String
  pub error_source : Option String
  pub error_step : Option String
  pub error_reason : Option String
  pub error_description : Option String
  pub bank : Option String
  pub card_last4 : Option String
  pub is_simulated : Bool
  pub rzp_created_at : Option ℕ
  pub created_at : ℕ

-- The customer block of a case's ground truth: each key may be absent.
pub record TruthCustomer : Type 0 where
  pub name : Option String
  pub contact : Option String
  pub email : Option String
  pub rzp_customer_id : Option String
  pub masked_name : Option String
  pub email_masked : Option String
  pub tenure_days : Option ℕ
  pub lifetime_value_minor : Option ℕ
  pub prior_failures_90d : Option ℕ
  pub prior_recoveries_90d : Option ℕ
  pub successful_payments : Option ℕ
  pub has_saved_token : Option Bool
  pub mandate_status : Option String

pub record GroundTruth : Type 0 where
  pub scenario : Option String
  pub case_key : Option String
  pub recoverable : Option Bool
  pub simulated_capture_probability : Option ℕ
  pub expected_diagnosis : Option String
  pub expected_strategy : Option String
  pub customer : Option TruthCustomer

pub record RecoveryCase : Type 0 where
  pub id : ℕ
  pub case_ref : Ref
  pub merchant_id : ℕ
  pub payment_id : ℕ
  pub customer_id : Option ℕ
  pub status : CaseStatus
  pub risk_score : Option ℕ
  pub risk_band : Option RiskBand
  pub diagnosis_class : Option DiagnosisClass
  pub strategy_id : Option StrategyId
  pub agent_confidence : Option ℕ
  pub retry_count : ℕ
  pub last_attempt_at : Option ℕ
  pub recovered_amount_minor : ℕ
  pub outcome : Option CaseOutcome
  pub closed_at : Option ℕ
  pub sla_deadline_at : Option ℕ
  pub ground_truth : Option GroundTruth
  pub created_at : ℕ

pub record AgentDecision : Type 0 where
  pub id : ℕ
  pub case_id : ℕ
  pub decision_ref : Ref
  pub origin : DecisionOrigin
  pub diagnosis_class : DiagnosisClass
  pub diagnosis_confidence : ℕ
  pub strategy_id : StrategyId
  pub strategy_confidence : ℕ
  pub params : Params
  pub rationale : Reason
  pub iterations_used : Option ℕ
  pub latency_ms : Option ℕ

pub record PolicyDecision : Type 0 where
  pub id : ℕ
  pub case_id : ℕ
  pub decision_id : Option ℕ
  pub proposed_action : Option ActionType
  pub verdict : PolicyVerdict
  pub rule_results : List RuleHit
  pub triggered : Option RuleId
  pub config_snapshot : Overrides

-- The result dict of an action, by the executor that writes it.
pub data ActionResult : Type 0 where
  empty : ActionResult
  charge : Bool → String → Bool → ActionResult
  link : Option Reason → Option Reason → Bool → ActionResult
  escalation : Ref → EscalationReasonCode → ActionResult

pub record RecoveryAction : Type 0 where
  pub id : ℕ
  pub action_ref : Ref
  pub case_id : ℕ
  pub action_type : ActionType
  pub attempt_no : ℕ
  pub idempotency_key : ℕ × ActionType × ℕ
  pub execution_mode : ExecutionMode
  pub gateway_ref : Option Reason
  pub status : ActionStatus
  pub result : Option ActionResult
  pub error : Option String
  pub executed_at : Option ℕ

pub record Notification : Type 0 where
  pub id : ℕ
  pub case_id : ℕ
  pub action_id : Option ℕ
  pub channel : NotificationChannel
  pub rendered_subject : Reason
  pub rendered_body : Reason
  pub status : NotificationStatus

pub record Escalation : Type 0 where
  pub id : ℕ
  pub escalation_ref : Ref
  pub case_id : ℕ
  pub reason_code : EscalationReasonCode
  pub note : Reason
  pub status : EscalationStatus
  pub decided_by : Option String
  pub decision_note : Option String
  pub decided_at : Option ℕ

pub record WebhookEvent : Type 0 where
  pub id : ℕ
  pub provider : String
  pub event_id : String
  pub event_type : String
  pub signature_valid : Bool

-- The detail dicts that the code passes to `append_event`.
pub data Detail : Type 0 where
  case_created : Ref → CaseStatus → Detail
  state_transition : CaseStatus → CaseStatus → Reason → Detail
  risk_scored : ℕ → RiskBand → List ℕ → Detail
  decision_recorded : Ref → DecisionOrigin → DiagnosisClass → StrategyId → ℕ → ℕ → Detail
  policy_evaluated : PolicyVerdict → Option RuleId → Detail
  escalation_created : Ref → EscalationReasonCode → Detail
  ladder_override : StrategyId → Reason → Detail
  action_started : Ref → ActionType → ExecutionMode → Detail
  action_finished : Ref → Bool → ActionResult → Option String → Detail
  notifications_queued : Ref → String → ℕ → Detail
  capture_confirmed : Option Reason → ExecutionMode → String → ℕ → Detail
  case_closed : CaseOutcome → Reason → Detail
  webhook_rejected : String → String → Detail

pub record AuditEvent : Type 0 where
  pub id : ℕ
  pub case_id : Option ℕ
  pub actor : Actor
  pub event_type : String
  pub detail : Detail
  pub prev_event_hash : Option String
  pub event_hash : String

-- A row of `counters`.
pub record Counter : Type 0 where
  pub name : String
  pub value : ℕ
