-- ===== src/Result.antt =====
-- A Python call that may raise: its value, or the exception. The constructors of `Error` are the
-- exceptions that the modelled code raises itself.
use ai_revenue_recovery_agen.Db.Enums.{CaseStatus}

pub data Error : Type 0 where
  illegal_transition : CaseStatus → CaseStatus → Error
  missing_decision : Error
  -- a comparison of a number with another value
  type_error : Error
  http_error : Error
  -- a key that the code subscripts is not there
  missing_key : Error
  -- no member of an enum has this value
  bad_value : Error
  -- the database refuses a row that repeats a unique one
  integrity_error : Error
  -- `scalar_one_or_none` on several rows
  multiple_results : Error

pub data Result {ℓ} (A : Type ℓ) : Type ℓ where
  ok : A → Result A
  err : Error → Result A

infixl 5 ◌>>=◌
-- An exception skips what comes after it.
abbrev pub ◌>>=◌ {ℓ κ} : {A : Type ℓ} {B : Type κ} → Result A → (A → Result B) → Result B
◌>>=◌ r next = elim r [ ok a ↦ next a | err e ↦ err e ]
