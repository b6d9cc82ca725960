-- ===== src/Scripts/Dataset/Rows.antt =====
-- The customers, events and ground truth of scripts/generate_dataset.py. An entity has the keys that the ingestion
-- reads; the draws of the random generator are arguments, and so are `str.lower` and SHA-256.
use Prim.Native.String.{◌++◌}
use ai_revenue_recovery_agen.Prelude.{
  ℕ, zero, suc, ◌+◌, ◌-◌, ◌*◌, ◌/◌, ◌%◌, min, max, Bool, false, ◌||◌, Option, none, some, List, [],
  ◌∷◌, String, str_eq, ltb, ◌==◌, if◌then◌else◌, get_or,
}
use ai_revenue_recovery_agen.Prelude.Texts.{last_of, partition_at}
use ai_revenue_recovery_agen.Db.Enums.{DiagnosisClass}
use ai_revenue_recovery_agen.Db.Models.{TruthCustomer}
use ai_revenue_recovery_agen.Services.Ingest.Payload.{Entity, Event, Seed}
use ai_revenue_recovery_agen.Batch.Score.{diagnosis_text, strategy_text}
use ai_revenue_recovery_agen.Batch.Runs.{base_epoch}
use ai_revenue_recovery_agen.Scripts.Dataset.Tables.{
  Scenario, scenario_text, Profile, error_profile, scenario_meta, varies_diagnoses, banks,
  first_names, domains,
}

-- `rng.choice`: the entry that was drawn.
unfoldable pub pick : {A : Type 0} → A → ℕ → List A → A
pick d i [] = d
pick d zero (x ∷ xs) = x
pick d (suc i) (x ∷ xs) = pick d i xs

abbrev digit_texts : List String
digit_texts = "0" ∷ "1" ∷ "2" ∷ "3" ∷ "4" ∷ "5" ∷ "6" ∷ "7" ∷ "8" ∷ "9" ∷ []

-- The digits of a number, without leading zeros; as many rounds as the number are enough.
unfoldable pub digits : ℕ → ℕ → String
digits zero n = ""
digits (suc fuel) n =
    let rest = digits fuel (n / 10) in if n == 0 then "" else rest ++ pick "" (n % 10) digit_texts

-- A number with at least so many digits: `f"{n:03d}"` for three of them.
unfoldable pub padded : ℕ → ℕ → String
unfolding digits
padded zero n = digits n n
padded (suc width) n = padded width (n / 10) ++ pick "" (n % 10) digit_texts

-- `mask_name`; it is called with a name that is not empty, where the source does not raise.
unfoldable pub mask_name : String → Option String
mask_name String.[] = none
mask_name (String.◌∷◌ c rest) = some (String.◌∷◌ c ("***" ++ String.◌∷◌ (last_of c rest) String.[]))

abbrev mask_parts : String → String → Option String
mask_parts String.[] domain = none
mask_parts (String.◌∷◌ c rest) domain = some (String.◌∷◌ c ("***@" ++ domain))

-- `mask_email`; the part before the first @ is not empty, where the source does not raise.
unfoldable pub mask_email : String → Option String
mask_email email = elim (partition_at email) [
  | none ↦ mask_parts email ""
  | some (before, domain) ↦ mask_parts before domain
]

unfoldable pub case_key_of : String → Scenario → ℕ → String
unfolding padded
case_key_of separator s n = scenario_text s ++ separator ++ padded 3 n

pub record CustomerDraw : Type 0 where
  pub name : ℕ
  pub domain : ℕ
  pub phone : String
  pub tenure_days : ℕ
  pub lifetime_value_minor : ℕ
  pub prior_failures : ℕ
  pub prior_recoveries : ℕ
  pub successful : ℕ

pub record PoolCustomer : Type 0 where
  pub email : String
  pub contact : String
  pub contact_hash : String
  pub truth : TruthCustomer

pub record Draw : Type 0 where
  pub customer : ℕ
  pub diag : ℕ
  pub amount : ℕ
  pub age_hours : ℕ
  pub seconds : ℕ
  pub bank : ℕ
  pub capture_delay : ℕ

-- The bounds of `rng.randint` for the age.
abbrev pub age_bounds : Scenario → ℕ × ℕ
age_bounds Scenario.s11 = (48, 70)
age_bounds Scenario.s05 = (2, 24)
age_bounds _ = (0, 24)

-- The bounds of the amount, in paise.
abbrev pub amount_bounds : Scenario → ℕ × ℕ
amount_bounds Scenario.s06 = (2500000, 25000000)
amount_bounds Scenario.s11 = (29900, 200000)
amount_bounds _ = (29900, 2499900)

-- `amount_log_uniform`, for the rounded value of the exponential.
unfoldable pub amount_log_uniform : ℕ → ℕ × ℕ → ℕ
amount_log_uniform rounded (lo, hi) = max lo (min hi rounded)

-- The diagnosis of the ground truth, and the profile of the failed event.
unfoldable pub diag_of : Scenario → ℕ → DiagnosisClass
diag_of s i =
    get_or (scenario_meta s).diag (pick DiagnosisClass.insufficient_funds i varies_diagnoses)

abbrev pub profile_key : DiagnosisClass → DiagnosisClass
profile_key DiagnosisClass.duplicate_self_healed = DiagnosisClass.network_infra
profile_key d = d

abbrev pub has_bank : String → Bool
has_bank method = str_eq method "card" || str_eq method "netbanking"

abbrev pub prior_attempts_of : Scenario → ℕ
prior_attempts_of Scenario.s05 = 2
prior_attempts_of _ = 0

unfoldable pub created_at_of : Draw → ℕ
created_at_of d = base_epoch - d.age_hours * 3600 - d.seconds

-- A key of the profile; the key of the source is there for every diagnosis of the table.
abbrev pub of_profile : (Profile → String) → Option Profile → Option String
of_profile f none = none
of_profile f (some p) = some (f p)

module _ (lower sha256_hex : String → String) where
  -- The i-th customer of `make_customer_pool`.
  unfoldable pub pool_customer : ℕ → CustomerDraw → PoolCustomer
  unfolding padded mask_name mask_email
  pool_customer i d =
      let name = pick "" d.name first_names in
      let email = lower name ++ padded 3 i ++ "@" ++ pick "" d.domain domains in
      let phone = "+91" ++ d.phone in
      record {
        email = email;
        contact = phone;
        contact_hash = sha256_hex phone;
        truth = record {
          name = some name;
          contact = some phone;
          email = some email;
          rzp_customer_id = some ("cust_" ++ padded 4 i);
          masked_name = mask_name name;
          email_masked = mask_email email;
          tenure_days = some d.tenure_days;
          lifetime_value_minor = some d.lifetime_value_minor;
          prior_failures_90d = some d.prior_failures;
          prior_recoveries_90d = some d.prior_recoveries;
          successful_payments = some d.successful;
          has_saved_token = some false;
          mandate_status = none;
        };
      }

-- The copy of the customer for a case.
unfoldable pub customer_for : Scenario → PoolCustomer → TruthCustomer
customer_for s c = record c.truth {
  has_saved_token = some (scenario_meta s).token;
  mandate_status = if (scenario_meta s).token then some "ACTIVE" else none;
  prior_failures_90d = some (max (get_or c.truth.prior_failures_90d 0) (prior_attempts_of s));
}

unfoldable pub failed_payment : Scenario → ℕ → PoolCustomer → Draw → Entity
unfolding case_key_of
failed_payment s n c d =
    let profile = error_profile (profile_key (diag_of s d.diag)) in
    let method = (scenario_meta s).method in
    record {
      id = some ("pay_" ++ case_key_of "_" s n);
      order_id = some ("order_" ++ case_key_of "_" s n);
      status = some "failed";
      amount = some (amount_log_uniform d.amount (amount_bounds s));
      currency = some "INR";
      method = some method;
      error_code = of_profile (λ p. p.code) profile;
      error_source = of_profile (λ p. p.source) profile;
      error_step = of_profile (λ p. p.step) profile;
      error_reason = of_profile (λ p. p.reason) profile;
      error_description = of_profile (λ p. p.description) profile;
      bank = if has_bank method then some (pick "" d.bank banks) else none;
      card_id = some ("card_" ++ case_key_of "_" s n);
      created_at = some (created_at_of d);
      contact = some c.contact;
      email = some c.email;
      customer_id = c.truth.rzp_customer_id;
    }

-- `build_captured_payment`
unfoldable pub captured_payment : Entity → ℕ → Entity
captured_payment payment created_at = record payment {
  status = some "captured";
  created_at = some created_at;
  error_code = none;
  error_description = none;
  error_source = none;
  error_step = none;
  error_reason = none;
}

-- A line of the dataset.
pub record Body : Type 0 where
  pub event : Event
  pub created_at : ℕ

unfoldable pub webhook_body : String → String → Entity → ℕ → Body
webhook_body event_id event_type payment created_at = record {
  event = record { id = some event_id; event = some event_type; entity = some payment };
  created_at = created_at;
}

unfoldable pub ground_truth : Scenario → ℕ → PoolCustomer → Draw → Seed
ground_truth s n c d = record {
  truth = record {
    scenario = some (scenario_text s);
    case_key = some (case_key_of "-" s n);
    recoverable = some (ltb 0 (scenario_meta s).prob);
    simulated_capture_probability = some (scenario_meta s).prob;
    expected_diagnosis = some (diagnosis_text (diag_of s d.diag));
    expected_strategy = some (strategy_text (scenario_meta s).strategy);
    customer = some (customer_for s c);
  };
  prior_attempts = some (prior_attempts_of s);
}

abbrev pub failed_body : Scenario → ℕ → PoolCustomer → Draw → Body
failed_body s n c d =
    webhook_body ("evt_" ++ case_key_of "_" s n) "payment.failed" (failed_payment s n c d)
      (created_at_of d)

abbrev pub captured_body : Scenario → ℕ → PoolCustomer → Draw → Body
captured_body s n c d =
    webhook_body ("evt_captured_" ++ case_key_of "_" s n) "payment.captured"
      (captured_payment (failed_payment s n c d) (created_at_of d + d.capture_delay))
      (created_at_of d + d.capture_delay)

-- The events of a case: S08 adds a capture, S09 two deliveries of the same event.
unfoldable pub case_bodies : Scenario → ℕ → PoolCustomer → Draw → List Body
unfolding webhook_body failed_payment captured_payment created_at_of
case_bodies Scenario.s08 n c d =
    failed_body Scenario.s08 n c d ∷ captured_body Scenario.s08 n c d ∷ []
case_bodies Scenario.s09 n c d =
    let failed = failed_body Scenario.s09 n c d in failed ∷ failed ∷ failed ∷ []
case_bodies s n c d = failed_body s n c d ∷ []
