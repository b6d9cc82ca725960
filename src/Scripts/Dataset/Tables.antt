-- ===== src/Scripts/Dataset/Tables.antt =====
-- The constants of scripts/generate_dataset.py. Probabilities are ten-thousandths, amounts paise.
use ai_revenue_recovery_agen.Prelude.{
  ℕ, Bool, true, false, Option, none, some, List, [], ◌∷◌, String,
}
use ai_revenue_recovery_agen.Db.Enums.{DiagnosisClass}
use ai_revenue_recovery_agen.Db.Enums.DiagnosisClass.{
  insufficient_funds, customer_auth_required, instrument_invalid, network_infra, bank_downtime,
  duplicate_self_healed, unknown,
}
use ai_revenue_recovery_agen.Domain.Strategies.{StrategyId}
use ai_revenue_recovery_agen.Domain.Strategies.StrategyId.{
  s1_immediate_retry, s2_delayed_retry, s3_notify_with_link, s5_human_escalation, s6_stop_recovery,
}

pub data Scenario : Type 0 where
  s01 s02 s03 s04 s05 s06 s07 s08 s09 s10 s11 : Scenario

unfoldable pub scenario_text : Scenario → String
scenario_text Scenario.s01 = "S01"
scenario_text Scenario.s02 = "S02"
scenario_text Scenario.s03 = "S03"
scenario_text Scenario.s04 = "S04"
scenario_text Scenario.s05 = "S05"
scenario_text Scenario.s06 = "S06"
scenario_text Scenario.s07 = "S07"
scenario_text Scenario.s08 = "S08"
scenario_text Scenario.s09 = "S09"
scenario_text Scenario.s10 = "S10"
scenario_text Scenario.s11 = "S11"

-- `SCENARIOS`
abbrev pub scenarios : List (Scenario × ℕ)
scenarios =
    (Scenario.s01, 22)
    ∷ (Scenario.s02, 14)
    ∷ (Scenario.s03, 12)
    ∷ (Scenario.s04, 10)
    ∷ (Scenario.s05, 10)
    ∷ (Scenario.s06, 8)
    ∷ (Scenario.s07, 8)
    ∷ (Scenario.s08, 8)
    ∷ (Scenario.s09, 8)
    ∷ (Scenario.s10, 6)
    ∷ (Scenario.s11, 14)
    ∷ []

pub record Profile : Type 0 where
  pub code : String
  pub source : String
  pub step : String
  pub reason : String
  pub description : String

-- `ERROR_PROFILES`; the key DUPLICATE_SELF_HEALED is absent.
unfoldable pub error_profile : DiagnosisClass → Option Profile
error_profile insufficient_funds = some (record {
  code = "BAD_REQUEST_ERROR";
  source = "bank";
  step = "payment_authorization";
  reason = "insufficient_funds";
  description = "The issuing bank declined the payment due to insufficient funds.";
})
error_profile network_infra = some (record {
  code = "GATEWAY_ERROR";
  source = "network";
  step = "payment_authorization";
  reason = "gateway_error";
  description = "A network error occurred while the gateway processed the payment.";
})
error_profile customer_auth_required = some (record {
  code = "BAD_REQUEST_ERROR";
  source = "customer";
  step = "payment_authentication";
  reason = "authentication_failed";
  description = "The customer failed authentication (incorrect PIN / OTP timeout).";
})
error_profile instrument_invalid = some (record {
  code = "BAD_REQUEST_ERROR";
  source = "bank";
  step = "payment_authorization";
  reason = "card_expired";
  description = "The card has expired.";
})
error_profile bank_downtime = some (record {
  code = "GATEWAY_ERROR";
  source = "bank";
  step = "payment_authorization";
  reason = "bank_error";
  description = "The acquiring bank is experiencing an outage.";
})
error_profile unknown = some (record {
  code = "UNKNOWN_ERROR";
  source = "unknown";
  step = "unknown";
  reason = "unknown_failure";
  description = "Conflicting failure signals received from the gateway.";
})
error_profile duplicate_self_healed = none

pub record Meta : Type 0 where
  pub diag : Option DiagnosisClass
  pub strategy : StrategyId
  pub prob : ℕ
  pub token : Bool
  pub method : String

abbrev entry : Option DiagnosisClass → StrategyId → ℕ → Bool → String → Meta
entry diag strategy prob token method = record {
  diag = diag;
  strategy = strategy;
  prob = prob;
  token = token;
  method = method;
}

-- `SCENARIO_META`
unfoldable pub scenario_meta : Scenario → Meta
scenario_meta Scenario.s01 = entry (some insufficient_funds) s2_delayed_retry 6500 true "card"
scenario_meta Scenario.s02 = entry (some network_infra) s1_immediate_retry 8000 true "card"
scenario_meta Scenario.s03 =
    entry (some customer_auth_required) s3_notify_with_link 4500 false "upi"
scenario_meta Scenario.s04 = entry (some instrument_invalid) s3_notify_with_link 0 false "card"
scenario_meta Scenario.s05 = entry none s5_human_escalation 2500 true "card"
scenario_meta Scenario.s06 = entry none s5_human_escalation 5500 true "card"
scenario_meta Scenario.s07 = entry (some bank_downtime) s1_immediate_retry 7500 true "netbanking"
scenario_meta Scenario.s08 = entry (some duplicate_self_healed) s6_stop_recovery 0 false "upi"
scenario_meta Scenario.s09 = entry (some insufficient_funds) s2_delayed_retry 6500 true "card"
scenario_meta Scenario.s10 = entry (some unknown) s5_human_escalation 0 false "card"
scenario_meta Scenario.s11 = entry none s6_stop_recovery 0 false "card"

-- `VARIES_DIAGNOSES`
abbrev pub varies_diagnoses : List DiagnosisClass
varies_diagnoses = insufficient_funds ∷ network_infra ∷ customer_auth_required ∷ []

abbrev pub banks : List String
banks = "HDFC" ∷ "ICICI" ∷ "SBI" ∷ "Axis" ∷ "Kotak" ∷ "Yes" ∷ []

abbrev pub first_names : List String
first_names =
    "Priya" ∷ "Aarav" ∷ "Meera" ∷ "Rohan" ∷ "Ananya" ∷ "Vikram" ∷ "Sneha" ∷ "Karthik" ∷ "Divya"
    ∷ "Aditya" ∷ "Pooja" ∷ "Rahul" ∷ "Neha" ∷ "Arjun" ∷ "Isha" ∷ "Sahil" ∷ "Riya" ∷ "Amit" ∷ "Kavya"
    ∷ "Nikhil" ∷ []

abbrev pub domains : List String
domains = "gmail.com" ∷ "yahoo.in" ∷ "outlook.com" ∷ "hotmail.com" ∷ []
