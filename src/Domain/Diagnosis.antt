-- ===== src/Domain/Diagnosis.antt =====
-- app/domain/diagnosis.py: the deterministic prior of the failure's cause. Confidences are numbers
-- of ten-thousandths: 9000 stands for 0.90.
use ai_revenue_recovery_agen.Prelude.{
  ℕ, ◌≡◌, refl, ◌≢◌, ◌⊎◌, inl, inr, Option, none, some, List, [], ◌∷◌, String, str_eq,
  if◌then◌else◌, arith, All, Bool-cases,
}
use mathlib.Core.Path.{subst}
use mathlib.Core.Option.{some-injective}
use ai_revenue_recovery_agen.Db.Enums.{DiagnosisClass}
use ai_revenue_recovery_agen.Db.Enums.DiagnosisClass.{
  insufficient_funds, customer_auth_required, instrument_invalid, network_infra, bank_downtime,
  duplicate_self_healed, unknown,
}

abbrev pub Table : Type 0
Table = List (String × DiagnosisClass)

-- `REASON_MAP`
abbrev pub reason_map : Table
reason_map =
    ("insufficient_funds", insufficient_funds)
    ∷ ("gateway_error", network_infra)
    ∷ ("network_error", network_infra)
    ∷ ("timeout_error", network_infra)
    ∷ ("timeout", network_infra)
    ∷ ("authentication_failed", customer_auth_required)
    ∷ ("wrong_pin", customer_auth_required)
    ∷ ("pin_error", customer_auth_required)
    ∷ ("otp_timeout", customer_auth_required)
    ∷ ("card_expired", instrument_invalid)
    ∷ ("invalid_card", instrument_invalid)
    ∷ ("card_declined", instrument_invalid)
    ∷ ("bank_error", bank_downtime)
    ∷ ("bank_down", bank_downtime)
    ∷ ("downtime", bank_downtime)
    ∷ ("insufficient_balance", insufficient_funds)
    ∷ ("unknown_failure", unknown)
    ∷ []

-- `CODE_MAP`
abbrev code_map : Table
code_map =
    ("GATEWAY_ERROR", network_infra)
    ∷ ("TIMEOUT_ERROR", network_infra)
    ∷ ("BAD_REQUEST_ERROR", unknown)
    ∷ ("SERVER_ERROR", network_infra)
    ∷ ("UNKNOWN_ERROR", unknown)
    ∷ []

abbrev pub base_confidence_reason : ℕ
base_confidence_reason = 9000

abbrev pub base_confidence_code : ℕ
base_confidence_code = 7000

abbrev pub base_confidence_unknown : ℕ
base_confidence_unknown = 4000

lookup : String → Table → Option DiagnosisClass
lookup k [] = none
lookup k ((j, d) ∷ t) = if str_eq j k then some d else lookup k t

-- `field and field in MAP`, with the value found; None and the empty text are false.
pub prior : Option String → Table → Option DiagnosisClass
unfolding lookup
prior none t = none
prior (some k) t = if str_eq k "" then none else lookup k t

choose : Option DiagnosisClass → Option DiagnosisClass → DiagnosisClass × ℕ
choose (some d) c = (d, base_confidence_reason)
choose none (some d) = (d, base_confidence_code)
choose none none = (unknown, base_confidence_unknown)

-- `error_source` is accepted and not read.
unfoldable pub diagnose : Option String → Option String → Option String → DiagnosisClass × ℕ
unfolding prior choose
diagnose error_reason error_code error_source =
    choose (prior error_reason reason_map) (prior error_code code_map)

lookup-All :
    (P : DiagnosisClass → Type 0) (k : String) (t : Table) {d : DiagnosisClass}
    → All (λ (e : String × DiagnosisClass). P e.1) t
    → lookup k t ≡ some d
    → P d
unfolding lookup
lookup-All P k [] h e = cc
lookup-All P k ((j, c) ∷ t) h e = elim (Bool-cases (str_eq j k)) [
  | inl y ↦ subst P (some-injective _ _ (rw y at e)) h.0
  | inr n ↦ lookup-All P k t h.1 (rw n at e)
]

-- A class that is not for payments captured meanwhile.
abbrev Named : DiagnosisClass → Type 0
Named d = d ≢ duplicate_self_healed

reason_map-Named : All (λ (e : String × DiagnosisClass). Named e.1) reason_map
reason_map-Named = ground arith

code_map-Named : All (λ (e : String × DiagnosisClass). Named e.1) code_map
code_map-Named = ground arith

prior-Named :
    (o : Option String) (t : Table) {d : DiagnosisClass}
    → All (λ (e : String × DiagnosisClass). Named e.1) t
    → prior o t ≡ some d
    → Named d
unfolding prior
prior-Named none t h e = cc
prior-Named (some k) t h e = elim (Bool-cases (str_eq k "")) [
  | inl y ↦ λ q. cc (rw y at e)
  | inr n ↦ lookup-All Named k t h (rw n at e)
]

choose_lem :
    (r c : Option DiagnosisClass)
    → ((d : DiagnosisClass) → r ≡ some d → Named d)
    → ((d : DiagnosisClass) → c ≡ some d → Named d)
    → let (d, conf) = choose r c in
      Named d
      × ((conf ≡ base_confidence_reason)
          ⊎ (conf ≡ base_confidence_code)
          ⊎ (conf ≡ base_confidence_unknown) × (d ≡ unknown))
unfolding choose
choose_lem (some d) c hr hc = (hr d refl, inl refl)
choose_lem none (some d) hr hc = (hc d refl, inr (inl refl))
choose_lem none none hr hc = (λ e. cc, inr (inr (refl, refl)))

-- `diagnose` never answers DUPLICATE_SELF_HEALED, its confidence is 0.90, 0.70 or 0.40, and at 0.40
-- the answer is UNKNOWN. A reason that is in `REASON_MAP` decides alone, whatever the code and the
-- source are.
pub diagnose_lem :
    (reason code source : Option String)
    → let (d, conf) = diagnose reason code source in
      (d ≢ duplicate_self_healed)
      × ((conf ≡ base_confidence_reason)
          ⊎ (conf ≡ base_confidence_code)
          ⊎ (conf ≡ base_confidence_unknown) × (d ≡ unknown))
      × ((e : DiagnosisClass)
          → prior reason reason_map ≡ some e
          → diagnose reason code source ≡ (e, base_confidence_reason))
unfolding diagnose
diagnose_lem reason code source =
    let (named, conf) =
      choose_lem (prior reason reason_map) (prior code code_map)
        (λ d e. prior-Named reason reason_map reason_map-Named e)
        (λ d e. prior-Named code code_map code_map-Named e) in
    (named, conf, λ e p. rw p)
