-- ===== src/Outside.antt =====
-- What the program takes from code that is not its own, as parameters without laws: SHA-256 over the
-- JSON payload or a text, the logarithm, the random numbers of the simulator, the wall clock, the language model and the
-- Razorpay REST service.
use ai_revenue_recovery_agen.Prelude.{ℕ, Bool, Option, String}
use ai_revenue_recovery_agen.Result.{Result}
use ai_revenue_recovery_agen.Format.{Ref, Reason}
use ai_revenue_recovery_agen.Db.Enums.{Actor}
use ai_revenue_recovery_agen.Db.Models.{Detail, Payment}
use ai_revenue_recovery_agen.Domain.Strategies.{Params}

-- The JSON object that the language model answers with. A confidence is `none` where the key is
-- missing, `float` refuses it or it is below 0: the validation rejects all of these alike.
pub record RawOutput : Type 0 where
  pub diagnosis : Option String
  pub diagnosis_confidence : Option ℕ
  pub strategy_id : Option String
  pub strategy_confidence : Option ℕ
  -- what `dict(params or {})` gives; `none` where it raises
  pub params : Option Params
  -- `str(rationale)`, empty where the key is missing
  pub rationale : String

pub record PaymentLinkResult : Type 0 where
  pub success : Bool
  pub link_id : Option Reason
  pub short_url : Option Reason
  pub simulated : Bool
  pub error : Option String

pub record Env : Type 0 where
  -- `hashlib.sha256(json.dumps({…}))` of the previous hash and the event's fields
  pub sha256 : Option String → Option ℕ → Actor → String → Detail → String
  -- `hashlib.sha256(text).hexdigest()`
  pub sha_text : String → String
  -- the fraction of logarithms of `amount_component` (see Risk/Engine)
  pub log_ratio : ℕ → ℕ
  -- the k-th value of `rng.random()`, rounded down to ten-thousandths
  pub random : ℕ → ℕ
  -- `datetime.now(UTC)`, read when the session has handed out so many ids
  pub utcnow : ℕ → ℕ
  -- `get_settings().llm_configured`
  pub llm_configured : Bool
  -- the answer to the k-th attempt for a payment; `none` for a refusal or an exception
  pub call_llm : ℕ → Payment → ℕ → Option RawOutput
  -- `RazorpayAdapter.create_payment_link` for an amount and a reference; it may raise
  pub create_payment_link : ℕ → Ref → Result PaymentLinkResult
