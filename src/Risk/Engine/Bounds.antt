-- ===== src/Risk/Engine/Bounds.antt =====
-- The range of the risk score, and how it moves with its inputs.
use ai_revenue_recovery_agen.Prelude.{ℕ, zero, suc, ◌+◌, ◌*◌, ◌≤◌, ◌<◌, ◌≡◌, arith}
use native.Mathlib.Nat.{add-zero, add-suc}
use ai_revenue_recovery_agen.Db.Enums.{DiagnosisClass, RiskBand}
use ai_revenue_recovery_agen.Risk.Engine.{
  unit, RiskInput, reversibility_points, reversibility_component, customer_value_component,
  retry_history_component, time_sensitivity_component, round, band_for_score, raw_score,
  amount_component, components, compute_risk,
}

reversibility_points-le :
    (d : DiagnosisClass) → (6 ≤ reversibility_points d) × (reversibility_points d ≤ 25)
unfolding reversibility_points
reversibility_points-le d = ground arith

reversibility-le : (d : DiagnosisClass) → reversibility_component d ≤ 25 * unit
unfolding reversibility_component
reversibility-le d = omega (arith, reversibility_points-le d)

customer_value-le : (v d r : ℕ) → customer_value_component v d r ≤ 20 * unit
unfolding customer_value_component
customer_value-le v d r = ground arith

retry_history-le : (n : ℕ) → retry_history_component n ≤ 15 * unit
unfolding retry_history_component
retry_history-le zero = omega arith
retry_history-le (suc zero) = omega arith
retry_history-le (suc (suc zero)) = omega arith
retry_history-le (suc (suc (suc n))) = omega arith

retry_history_antitone : (n : ℕ) → retry_history_component (suc n) ≤ retry_history_component n
unfolding retry_history_component
retry_history_antitone zero = omega arith
retry_history_antitone (suc zero) = omega arith
retry_history_antitone (suc (suc zero)) = omega arith
retry_history_antitone (suc (suc (suc n))) = omega arith

round_mono : (x y : ℕ) → x ≤ y → round x ≤ round y
unfolding round
round_mono x y h = ground arith

round-le : (x : ℕ) → x ≤ 100 * unit → round x ≤ 100
unfolding round
round-le x h = ground arith

-- The interval of scores that a band stands for.
abbrev pub IsBand : ℕ → RiskBand → Type 0
IsBand score RiskBand.critical = 75 ≤ score
IsBand score RiskBand.high = (55 ≤ score) × (score < 75)
IsBand score RiskBand.medium = (35 ≤ score) × (score < 55)
IsBand score RiskBand.low = score < 35

band_for_score-IsBand : (score : ℕ) → IsBand score (band_for_score score)
unfolding band_for_score
band_for_score-IsBand score = ground arith

retry_history_down : (n more : ℕ) → retry_history_component (n + more) ≤ retry_history_component n
retry_history_down n zero = rw add-zero (omega arith)
retry_history_down n (suc more) =
    rw add-suc (omega (arith, retry_history_down n more, retry_history_antitone (n + more)))

module _ (log_ratio : ℕ → ℕ) where
  amount-le : (a : ℕ) → amount_component log_ratio a ≤ 30 * unit
  unfolding amount_component
  amount-le a = omega arith

  raw-le : (i : RiskInput) → raw_score (components log_ratio i) ≤ 100 * unit
  unfolding components time_sensitivity_component
  raw-le i = omega (
    arith,
    amount-le i.amount_minor,
    reversibility-le i.diagnosis,
    customer_value-le i.lifetime_value_minor i.tenure_days i.prior_recoveries_90d,
    retry_history-le i.retry_count,
  )

  score-le : (i : RiskInput) → round (raw_score (components log_ratio i)) ≤ 100
  score-le i = round-le (raw_score (components log_ratio i)) (raw-le i)

  clamped :
      (i : RiskInput) → (compute_risk log_ratio i).0 ≡ round (raw_score (components log_ratio i))
  unfolding compute_risk
  clamped i = omega (arith, score-le i)

  -- The clamp of `compute_risk` never cuts: the score is the rounded sum of the components, at most
  -- 100, and its band is the one of the thresholds 75, 55 and 35.
  pub compute_risk_lem :
      (i : RiskInput)
      → let (score, band, comps) = compute_risk log_ratio i in
        (score ≡ round (raw_score comps)) × (score ≤ 100) × IsBand score band
  unfolding compute_risk
  compute_risk_lem i = (
    clamped i,
    omega (arith, score-le i, clamped i),
    band_for_score-IsBand (compute_risk log_ratio i).0,
  )

  raw_antitone :
      (i : RiskInput) (age more : ℕ)
      → i.age_seconds ≤ age
      → raw_score (
          components log_ratio (record i { age_seconds = age; retry_count = i.retry_count + more }))
        ≤ raw_score (components log_ratio i)
  unfolding components time_sensitivity_component
  raw_antitone i age more h = omega (arith, retry_history_down i.retry_count more)

  -- A failure that is older or has more retries, all else equal, never scores higher.
  pub compute_risk_antitone :
      (i : RiskInput) (age more : ℕ)
      → i.age_seconds ≤ age
      → (compute_risk log_ratio
          (record i { age_seconds = age; retry_count = i.retry_count + more })).0
        ≤ (compute_risk log_ratio i).0
  compute_risk_antitone i age more h =
      let j = record i { age_seconds = age; retry_count = i.retry_count + more } in
      omega (
        arith,
        clamped i,
        clamped j,
        round_mono (raw_score (components log_ratio j)) (raw_score (components log_ratio i))
            (raw_antitone i age more h),
      )
