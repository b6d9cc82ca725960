-- ===== src/Risk/Engine.antt =====
-- app/risk/engine.py. A score is built from fractions of points, here whole numbers of `unit`-ths of a
-- point: the divisors of the source (500_000_00 / 10, 365 and 48 hours in seconds / 10) all divide
-- `unit`, so only the logarithm is not exact. It is a parameter: `log_ratio a` stands for
-- `math.log(1 + a / 100_000) / math.log(1 + 25_000_000 / 100_000)` in `unit`-ths. Rounding errors of
-- floating point are not modelled.
pub mod Bounds
use ai_revenue_recovery_agen.Prelude.{
  ℕ, zero, suc, ◌+◌, ◌-◌, ◌*◌, ◌/◌, ◌%◌, min, max, List, [], ◌∷◌, ltb, leb, ◌==◌, if◌then◌else◌,
}
use ai_revenue_recovery_agen.Db.Enums.{DiagnosisClass, RiskBand}

abbrev pub unit : ℕ
unit = 19710000000

pub record RiskComponents : Type 0 where
  pub amount : ℕ
  pub reversibility : ℕ
  pub customer_value : ℕ
  pub retry_history : ℕ
  pub time_sensitivity : ℕ

-- What `compute_risk` is given. Ages are in seconds.
pub record RiskInput : Type 0 where
  pub amount_minor : ℕ
  pub diagnosis : DiagnosisClass
  pub lifetime_value_minor : ℕ
  pub tenure_days : ℕ
  pub prior_recoveries_90d : ℕ
  pub retry_count : ℕ
  pub age_seconds : ℕ

-- `REVERSIBILITY_POINTS`
reversibility_points : DiagnosisClass → ℕ
reversibility_points DiagnosisClass.network_infra = 25
reversibility_points DiagnosisClass.bank_downtime = 22
reversibility_points DiagnosisClass.insufficient_funds = 20
reversibility_points DiagnosisClass.customer_auth_required = 16
reversibility_points DiagnosisClass.duplicate_self_healed = 25
reversibility_points DiagnosisClass.instrument_invalid = 6
reversibility_points DiagnosisClass.unknown = 10

reversibility_component : DiagnosisClass → ℕ
unfolding reversibility_points
reversibility_component d = reversibility_points d * unit

-- 10 * min(1, ltv / 500_000_00) and 6 * min(1, days / 365), and 4 points for an earlier recovery.
customer_value_component : ℕ → ℕ → ℕ → ℕ
customer_value_component lifetime_value_minor tenure_days prior_recoveries_90d =
    let ltv = min (10 * unit) (lifetime_value_minor * 3942) in
    let tenure = min (6 * unit) (tenure_days * 324000000) in
    let recovered = if ltb 0 prior_recoveries_90d then 4 * unit else 0 in ltv + tenure + recovered

-- `RETRY_HISTORY_POINTS`, and nothing from the third attempt on.
retry_history_component : ℕ → ℕ
retry_history_component zero = 15 * unit
retry_history_component (suc zero) = 12 * unit
retry_history_component (suc (suc zero)) = 8 * unit
retry_history_component _ = 0

-- 10 * max(0, 1 - age / 48 hours); the subtraction stops at 0.
time_sensitivity_component : ℕ → ℕ
time_sensitivity_component age_seconds = 10 * unit - age_seconds * 1140625

-- Python's `round`: to the nearest whole number, and to the even one from the middle.
pub round : ℕ → ℕ
round x =
    let q = x / unit in
    let r = x % unit in
    if ltb (2 * r) unit then q else if ltb unit (2 * r) then q + 1 else q + q % 2

unfoldable pub band_for_score : ℕ → RiskBand
band_for_score score =
    if leb 75 score
    then RiskBand.critical
    else if leb 55 score
    then RiskBand.high
    else if leb 35 score
    then RiskBand.medium
    else RiskBand.low

-- `sum(vars(comps).values())`
abbrev pub raw_score : RiskComponents → ℕ
raw_score c = c.amount + c.reversibility + c.customer_value + c.retry_history + c.time_sensitivity

module _ (log_ratio : ℕ → ℕ) where
  amount_component : ℕ → ℕ
  amount_component amount_minor = 30 * min unit (log_ratio amount_minor)

  pub components : RiskInput → RiskComponents
  components i = record {
    amount = amount_component i.amount_minor;
    reversibility = reversibility_component i.diagnosis;
    customer_value =
        customer_value_component i.lifetime_value_minor i.tenure_days i.prior_recoveries_90d;
    retry_history = retry_history_component i.retry_count;
    time_sensitivity = time_sensitivity_component i.age_seconds;
  }

  pub compute_risk : RiskInput → ℕ × RiskBand × RiskComponents
  compute_risk i =
      let comps = components i in
      let score = max 0 (min 100 (round (raw_score comps))) in (score, band_for_score score, comps)
