-- ===== src/Scripts/Dataset/Cases/Table.antt =====
-- The strategy table on the cases that the generator makes.
use ai_revenue_recovery_agen.Prelude.{
  ℕ, zero, suc, ◌+◌, ◌-◌, ◌*◌, ◌≤◌, ◌≡◌, ◌≢◌, refl, true, false, ltb, leb, arith, max, min,
}
use ai_revenue_recovery_agen.Db.Enums.{DiagnosisClass}
use ai_revenue_recovery_agen.Domain.Diagnosis.{diagnose}
use ai_revenue_recovery_agen.Domain.Strategies.{StrategyId, select_strategy, Situation}
use ai_revenue_recovery_agen.Batch.Runs.{base_epoch}
use ai_revenue_recovery_agen.Scripts.Dataset.Tables.{
  Scenario, scenario_meta, error_profile, varies_diagnoses,
}
use ai_revenue_recovery_agen.Scripts.Dataset.Rows.{
  Draw, age_bounds, amount_bounds, amount_log_uniform, diag_of, profile_key, prior_attempts_of,
  created_at_of, of_profile, pick,
}

-- The draws are within their bounds.
pub record IsDrawn (s : Scenario) (d : Draw) : Type 0 where
  pub oldest : d.age_hours ≤ (age_bounds s).1
  pub youngest : (age_bounds s).0 ≤ d.age_hours
  pub seconds : d.seconds ≤ 3000

-- The age of the failure at the dataset's start, in seconds.
abbrev pub age_of : Draw → ℕ
age_of d = d.age_hours * 3600 + d.seconds

pub age_at_start :
    (d : Draw) → d.age_hours ≤ 70 → d.seconds ≤ 3000 → base_epoch - created_at_of d ≡ age_of d
unfolding created_at_of
age_at_start d h k = omega arith

pub at_most_70 : (s : Scenario) (d : Draw) → IsDrawn s d → d.age_hours ≤ 70
at_most_70 Scenario.s11 d h = omega (arith, h.oldest)
at_most_70 Scenario.s05 d h = omega (arith, h.oldest)
at_most_70 _ d h = omega (arith, h.oldest)

-- The error profiles mirror the tables of the diagnosis.
pub mirrored :
    (key : DiagnosisClass)
    → key ≢ DiagnosisClass.duplicate_self_healed
    → let p = error_profile key in
      diagnose
        (of_profile (λ q. q.reason) p)
        (of_profile (λ q. q.code) p)
        (of_profile (λ q. q.source) p)
      ≡ (key, 9000)
unfolding error_profile diagnose
mirrored DiagnosisClass.duplicate_self_healed h = absurd (h refl)
mirrored DiagnosisClass.insufficient_funds h = refl
mirrored _ h = refl

-- What the table sees of a generated case, for its diagnosis.
abbrev pub seen_as : Scenario → DiagnosisClass → ℕ → ℕ → Situation
seen_as s key amount age = record {
  diagnosis = key;
  retry_count = prior_attempts_of s;
  has_token = (scenario_meta s).token;
  amount_minor = amount;
  confidence = 9000;
  age_seconds = age;
  downtime_active = false;
  approval_limit_minor = 2500000;
  confidence_floor = 6000;
}

-- What holds of the three diagnoses holds of the one that is drawn.
of_varies :
    (P : DiagnosisClass → Type 0)
    → P DiagnosisClass.insufficient_funds
    → P DiagnosisClass.network_infra
    → P DiagnosisClass.customer_auth_required
    → (i : ℕ) → P (pick DiagnosisClass.insufficient_funds i varies_diagnoses)
unfolding pick
of_varies P a b c zero = a
of_varies P a b c (suc zero) = b
of_varies P a b c (suc (suc zero)) = c
of_varies P a b c (suc (suc (suc i))) = a

young : (d : Draw) → d.age_hours ≤ 24 → d.seconds ≤ 3000 → ltb 172800 (age_of d) ≡ false
young d h k = let l : age_of d ≤ 172800 = omega arith in ground arith

stale : (d : Draw) → 48 ≤ d.age_hours → age_of d ≢ 172800 → ltb 172800 (age_of d) ≡ true
stale d h n = let l : suc 172800 ≤ age_of d = omega arith in ground arith

small : (rounded : ℕ) → leb 2500000 (amount_log_uniform rounded (29900, 2499900)) ≡ false
unfolding amount_log_uniform
small rounded = let l : max 29900 (min 2499900 rounded) ≤ 2499900 = omega arith in ground arith

large : (rounded : ℕ) → leb 2500000 (amount_log_uniform rounded (2500000, 25000000)) ≡ true
unfolding amount_log_uniform
large rounded = let l : 2500000 ≤ max 2500000 (min 25000000 rounded) = omega arith in ground arith

abbrev pub Chooses : Scenario → Draw → DiagnosisClass → Type 0
Chooses s d key =
    (select_strategy
      (seen_as s key (amount_log_uniform d.amount (amount_bounds s)) (age_of d))).strategy_id
    ≡ (scenario_meta s).strategy

-- The strategy of the ground truth, where the failure is not exactly 48 hours old.
pub chosen :
    (s : Scenario) (d : Draw)
    → IsDrawn s d
    → s ≢ Scenario.s08
    → age_of d ≢ 172800
    → Chooses s d (diag_of s d.diag)
unfolding select_strategy scenario_meta diag_of
chosen Scenario.s05 d h n e =
    let y = young d h.oldest h.seconds in
    let m = small d.amount in
    of_varies (Chooses Scenario.s05 d) (rw (y, m) refl) (rw (y, m) refl) (rw (y, m) refl) d.diag
chosen Scenario.s06 d h n e =
    let y = young d h.oldest h.seconds in
    let m = large d.amount in
    of_varies (Chooses Scenario.s06 d) (rw (y, m) refl) (rw (y, m) refl) (rw (y, m) refl) d.diag
chosen Scenario.s08 d h n e = absurd (n refl)
chosen Scenario.s11 d h n e =
    let y = stale d h.youngest e in
    of_varies (Chooses Scenario.s11 d) (rw y refl) (rw y refl) (rw y refl) d.diag
chosen _ d h n e = let y = young d h.oldest h.seconds in let m = small d.amount in rw (y, m) refl

-- At exactly 48 hours the table still proposes a link.
pub at_boundary :
    (d : Draw)
    → age_of d ≡ 172800
    → (select_strategy (
        seen_as Scenario.s11
          (diag_of Scenario.s11 d.diag)
          (amount_log_uniform d.amount (amount_bounds Scenario.s11))
          172800)).strategy_id
      ≡ StrategyId.s3_notify_with_link
unfolding select_strategy scenario_meta diag_of amount_log_uniform
at_boundary d e =
    let l : max 29900 (min 200000 d.amount) ≤ 200000 = omega arith in
    let m : leb 2500000 (max 29900 (min 200000 d.amount)) ≡ false = ground arith in
    of_varies
      (λ key.
        (select_strategy
          (seen_as Scenario.s11 key (max 29900 (min 200000 d.amount)) 172800)).strategy_id
        ≡ StrategyId.s3_notify_with_link)
      (rw m refl) (rw m refl) (rw m refl) d.diag

pub not_duplicate :
    (s : Scenario) (i : ℕ) → s ≢ Scenario.s08 → diag_of s i ≢ DiagnosisClass.duplicate_self_healed
unfolding diag_of scenario_meta
not_duplicate Scenario.s05 i n =
    of_varies (λ k. k ≢ DiagnosisClass.duplicate_self_healed) (λ e. cc) (λ e. cc) (λ e. cc) i
not_duplicate Scenario.s06 i n =
    of_varies (λ k. k ≢ DiagnosisClass.duplicate_self_healed) (λ e. cc) (λ e. cc) (λ e. cc) i
not_duplicate Scenario.s08 i n = absurd (n refl)
not_duplicate Scenario.s11 i n =
    of_varies (λ k. k ≢ DiagnosisClass.duplicate_self_healed) (λ e. cc) (λ e. cc) (λ e. cc) i
not_duplicate _ i n = λ e. cc

pub same_key :
    (key : DiagnosisClass) → key ≢ DiagnosisClass.duplicate_self_healed → profile_key key ≡ key
same_key DiagnosisClass.duplicate_self_healed n = absurd (n refl)
same_key DiagnosisClass.unknown n = refl
same_key _ n = refl
