-- ===== src/Db/Enums.antt =====
-- The closed enums of app/db/enums.py. Each Python member is a constructor of the same name.
use ai_revenue_recovery_agen.Prelude.{ℕ, Bool, true, false, ◌==◌}

pub data CaseStatus : Type 0 where
  detected analyzing diagnosed planned policy_check awaiting_approval : CaseStatus
  approved executing verifying recovered closed_unrecovered blocked : CaseStatus
  escalated expired cancelled failed : CaseStatus

-- The declaration index of a member: two members are equal when their indices are.
abbrev pub status_index : CaseStatus → ℕ
status_index CaseStatus.detected = 0
status_index CaseStatus.analyzing = 1
status_index CaseStatus.diagnosed = 2
status_index CaseStatus.planned = 3
status_index CaseStatus.policy_check = 4
status_index CaseStatus.awaiting_approval = 5
status_index CaseStatus.approved = 6
status_index CaseStatus.executing = 7
status_index CaseStatus.verifying = 8
status_index CaseStatus.recovered = 9
status_index CaseStatus.closed_unrecovered = 10
status_index CaseStatus.blocked = 11
status_index CaseStatus.escalated = 12
status_index CaseStatus.expired = 13
status_index CaseStatus.cancelled = 14
status_index CaseStatus.failed = 15

abbrev pub status_eq : CaseStatus → CaseStatus → Bool
status_eq a b = status_index a == status_index b

-- `TERMINAL_CASE_STATUSES`, as the test `status in TERMINAL_CASE_STATUSES`.
abbrev pub in_terminal_case_statuses : CaseStatus → Bool
in_terminal_case_statuses CaseStatus.recovered = true
in_terminal_case_statuses CaseStatus.closed_unrecovered = true
in_terminal_case_statuses CaseStatus.expired = true
in_terminal_case_statuses CaseStatus.cancelled = true
in_terminal_case_statuses CaseStatus.blocked = true
in_terminal_case_statuses CaseStatus.escalated = true
in_terminal_case_statuses CaseStatus.failed = true
in_terminal_case_statuses _ = false

-- `ACTIVE_CASE_STATUSES`, what a worker may claim.
abbrev pub in_active_case_statuses : CaseStatus → Bool
in_active_case_statuses CaseStatus.detected = true
in_active_case_statuses CaseStatus.analyzing = true
in_active_case_statuses CaseStatus.diagnosed = true
in_active_case_statuses CaseStatus.planned = true
in_active_case_statuses CaseStatus.policy_check = true
in_active_case_statuses CaseStatus.awaiting_approval = true
in_active_case_statuses CaseStatus.approved = true
in_active_case_statuses CaseStatus.executing = true
in_active_case_statuses CaseStatus.verifying = true
in_active_case_statuses _ = false

pub data RiskBand : Type 0 where
  critical high medium low : RiskBand

pub data DiagnosisClass : Type 0 where
  insufficient_funds customer_auth_required instrument_invalid network_infra : DiagnosisClass
  bank_downtime duplicate_self_healed unknown : DiagnosisClass

pub data PaymentStatus : Type 0 where
  created authorized captured failed : PaymentStatus

pub data ActionType : Type 0 where
  retry_charge send_recovery_link notify_customer create_escalation : ActionType

pub data ExecutionMode : Type 0 where
  real_rzp simulated outbox : ExecutionMode

pub data ActionStatus : Type 0 where
  pending gated executing succeeded failed superseded : ActionStatus

pub data DecisionOrigin : Type 0 where
  llm fallback : DecisionOrigin

pub data PolicyVerdict : Type 0 where
  allow block escalate wait : PolicyVerdict

pub data NotificationChannel : Type 0 where
  sms email : NotificationChannel

pub data NotificationStatus : Type 0 where
  queued simulated_sent suppressed : NotificationStatus

pub data EscalationReasonCode : Type 0 where
  max_retries_exhausted amount_ceiling low_confidence : EscalationReasonCode
  unknown_diagnosis executor_error policy_double_block : EscalationReasonCode

pub data EscalationStatus : Type 0 where
  open_status approved rejected expired : EscalationStatus

pub data CaseOutcome : Type 0 where
  recovered self_healed unrecovered : CaseOutcome

pub data Actor : Type 0 where
  system agent policy executor verifier human : Actor

pub data WebhookEventType : Type 0 where
  payment_failed payment_captured downtime_started downtime_resolved other : WebhookEventType
