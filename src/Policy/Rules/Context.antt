-- ===== src/Policy/Rules/Context.antt =====
-- What the rules of app/policy/rules.py read and answer: the ids, the sets of states and actions, the
-- context of a decision and the hit of a rule.
use ai_revenue_recovery_agen.Prelude.{
  ℕ, ◌*◌, ◌^◌, min, max, Bool, true, false, Option, some, String,
}
use ai_revenue_recovery_agen.Format.{Reason}
use ai_revenue_recovery_agen.Db.Enums.{CaseStatus, PaymentStatus, DiagnosisClass, ActionType}
use ai_revenue_recovery_agen.Policy.Config.{PolicyConfig}

pub data RuleId : Type 0 where
  p01 p02 p03 p04 p05 p06 p07 p08 p09 p10 p11 p12 p13 p14 : RuleId

-- `ELIGIBLE_STATES`
unfoldable pub in_eligible_states : CaseStatus → Bool
in_eligible_states CaseStatus.diagnosed = true
in_eligible_states CaseStatus.planned = true
in_eligible_states CaseStatus.policy_check = true
in_eligible_states CaseStatus.approved = true
in_eligible_states CaseStatus.awaiting_approval = true
in_eligible_states _ = false

-- `RETRY_ACTIONS`
unfoldable pub in_retry_actions : ActionType → Bool
in_retry_actions ActionType.retry_charge = true
in_retry_actions _ = false

-- `CONTACT_ACTIONS`
unfoldable pub in_contact_actions : ActionType → Bool
in_contact_actions ActionType.send_recovery_link = true
in_contact_actions ActionType.notify_customer = true
in_contact_actions _ = false

-- `RETRY_FORBIDDEN_DIAGNOSES`; None is in no set.
unfoldable pub in_retry_forbidden : Option DiagnosisClass → Bool
in_retry_forbidden (some DiagnosisClass.instrument_invalid) = true
in_retry_forbidden (some DiagnosisClass.duplicate_self_healed) = true
in_retry_forbidden _ = false

abbrev pub is_failed : PaymentStatus → Bool
is_failed PaymentStatus.failed = true
is_failed _ = false

abbrev pub is_captured : PaymentStatus → Bool
is_captured PaymentStatus.captured = true
is_captured _ = false

abbrev pub is_escalation : ActionType → Bool
is_escalation ActionType.create_escalation = true
is_escalation _ = false

pub record PolicyContext : Type 0 where
  pub case_status : CaseStatus
  pub payment_status : PaymentStatus
  pub captured_for_order : Bool
  pub amount_minor : ℕ
  pub retry_count : ℕ
  pub last_attempt_at : Option ℕ
  pub diagnosis_class : Option DiagnosisClass
  pub diagnosis_confidence : ℕ
  pub strategy_confidence : ℕ
  pub contact_count_7d : ℕ
  pub downtime_active : Bool
  pub age_seconds : ℕ
  pub simulation_budget_remaining : ℕ
  pub proposed_action : ActionType
  pub proposed_delay_minutes : Option ℕ
  pub link_amount_minor : Option ℕ
  pub channel : Option String
  pub existing_action : Bool
  pub config : PolicyConfig
  pub now : ℕ

pub record RuleHit : Type 0 where
  pub rule_id : RuleId
  pub passed : Bool
  pub reason : Reason
  pub evaluated : Bool

-- `_cooldown_minutes`
unfoldable pub cooldown_minutes : PolicyConfig → ℕ → ℕ
cooldown_minutes config attempt_no =
    let raw = config.cooldown_base_min * 2 ^ attempt_no in
    max config.cooldown_base_min (min raw (24 * 60))

-- `_rule`
abbrev pub rule : RuleId → Bool → Reason → RuleHit
rule r p why = record { rule_id = r; passed = p; reason = why; evaluated = true }
