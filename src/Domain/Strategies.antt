-- ===== src/Domain/Strategies.antt =====
-- app/domain/strategies.py: the closed catalog and the deterministic decision table. Ages are in
-- seconds, amounts in paise, confidences in ten-thousandths.
pub mod Safety
use ai_revenue_recovery_agen.Prelude.{
  ℕ, zero, suc, ◌*◌, Bool, true, false, Option, none, some, String, ltb, leb, if◌then◌else◌, List,
  [], ◌∷◌, min, max, ◌-◌, length,
}
use ai_revenue_recovery_agen.Db.Enums.{DiagnosisClass, ActionType}

-- The identifiers S1 to S6. The code passes them as texts; every text that it accepts is one of
-- `ALL_STRATEGIES`.
pub data StrategyId : Type 0 where
  s1_immediate_retry s2_delayed_retry s3_notify_with_link : StrategyId
  s4_alt_payment_flow s5_human_escalation s6_stop_recovery : StrategyId

-- The "action" of `STRATEGY_CATALOG`.
unfoldable pub catalog_action : StrategyId → Option ActionType
catalog_action StrategyId.s1_immediate_retry = some ActionType.retry_charge
catalog_action StrategyId.s2_delayed_retry = some ActionType.retry_charge
catalog_action StrategyId.s3_notify_with_link = some ActionType.send_recovery_link
catalog_action StrategyId.s4_alt_payment_flow = some ActionType.send_recovery_link
catalog_action StrategyId.s5_human_escalation = some ActionType.create_escalation
catalog_action StrategyId.s6_stop_recovery = none

abbrev pub delayed_retry_minutes : ℕ
delayed_retry_minutes = 240

abbrev pub cooldown_schedule : List ℕ
cooldown_schedule = 30 ∷ 120 ∷ 480 ∷ []

-- `xs[i]`; the index below is in range.
abbrev index : List ℕ → ℕ → ℕ
index [] i = 0
index (x ∷ xs) zero = x
index (x ∷ xs) (suc i) = index xs i

-- `attempt_no` is a natural number here, so `max(0, …)` has nothing to do.
unfoldable pub cooldown_minutes : ℕ → ℕ
cooldown_minutes attempt_no =
    index cooldown_schedule (max 0 (min attempt_no (length cooldown_schedule - 1)))

-- What stands under "delay_minutes": a whole number, or a value that Python does not compare with one.
pub data Delay : Type 0 where
  whole : ℕ → Delay
  incomparable : Delay

-- The parameters of a strategy that later code reads; None and a missing key are `none`.
pub record Params : Type 0 where
  pub delay_minutes : Option Delay
  pub notify_purpose : Option String

abbrev pub no_params : Params
no_params = record { delay_minutes = none; notify_purpose = none }

pub record StrategyChoice : Type 0 where
  pub strategy_id : StrategyId
  pub confidence : ℕ
  pub params : Params
  pub reason : String

pub record Situation : Type 0 where
  pub diagnosis : DiagnosisClass
  pub retry_count : ℕ
  pub has_token : Bool
  pub amount_minor : ℕ
  pub confidence : ℕ
  pub age_seconds : ℕ
  pub downtime_active : Bool
  pub approval_limit_minor : ℕ
  pub confidence_floor : ℕ

abbrev choice : StrategyId → ℕ → Params → String → StrategyChoice
choice s c p r = record { strategy_id = s; confidence = c; params = p; reason = r }

abbrev delay : ℕ → Params
delay m = record no_params { delay_minutes = some (Delay.whole m) }

abbrev is_duplicate : DiagnosisClass → Bool
is_duplicate DiagnosisClass.duplicate_self_healed = true
is_duplicate _ = false

abbrev is_unknown : DiagnosisClass → Bool
is_unknown DiagnosisClass.unknown = true
is_unknown _ = false

-- The rows of the table below the guards, one for each diagnosis.
by_diagnosis : DiagnosisClass → Bool → Bool → ℕ → StrategyChoice
by_diagnosis DiagnosisClass.bank_downtime has_token downtime_active c =
    if downtime_active
    then choice StrategyId.s2_delayed_retry c (delay 60) "Bank downtime active; wait then retry."
    else choice StrategyId.s1_immediate_retry c no_params "Downtime resolved; immediate retry."
by_diagnosis DiagnosisClass.insufficient_funds has_token downtime_active c =
    if has_token
    then choice StrategyId.s2_delayed_retry c (delay delayed_retry_minutes)
        "Salary-cycle timing favors a delayed retry."
    else choice StrategyId.s3_notify_with_link c no_params "No saved token; notify with link."
by_diagnosis DiagnosisClass.network_infra has_token downtime_active c =
    if has_token
    then choice StrategyId.s1_immediate_retry c no_params "Transient fault; immediate retry."
    else choice StrategyId.s3_notify_with_link c no_params "No saved token; notify with link."
by_diagnosis DiagnosisClass.customer_auth_required has_token downtime_active c =
    choice StrategyId.s3_notify_with_link c no_params "Customer action required; notify with link."
by_diagnosis DiagnosisClass.instrument_invalid has_token downtime_active c =
    choice StrategyId.s3_notify_with_link c
      (record no_params { notify_purpose = some "update_method" })
      "Invalid instrument; ask customer to update payment method."
by_diagnosis _ has_token downtime_active c =
    choice StrategyId.s5_human_escalation c no_params "No safe automated path; escalate."

unfoldable pub select_strategy : Situation → StrategyChoice
unfolding by_diagnosis
select_strategy s =
    if is_duplicate diagnosis
    then choice StrategyId.s6_stop_recovery confidence no_params "Payment already captured; stop."
    else if ltb (48 * 3600) age_seconds
    then choice StrategyId.s6_stop_recovery confidence no_params
        "Failure is stale (>48h); stop recovery."
    else if leb approval_limit_minor amount_minor
    then choice StrategyId.s5_human_escalation confidence no_params
        "Amount at/above approval ceiling; escalate."
    else if ltb confidence confidence_floor
    then choice StrategyId.s5_human_escalation confidence no_params
        "Confidence below floor; escalate."
    else if is_unknown diagnosis
    then choice StrategyId.s5_human_escalation confidence no_params "Unknown diagnosis; escalate."
    else if leb 2 retry_count
    then choice StrategyId.s5_human_escalation confidence no_params
        "Repeated failures; escalate for review."
    else by_diagnosis diagnosis has_token downtime_active confidence
  where
    open s use {
      diagnosis, retry_count, has_token, amount_minor, confidence, age_seconds, downtime_active,
      approval_limit_minor, confidence_floor,
    }
