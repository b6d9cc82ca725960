-- ===== src/Services/Ingest/Payload.antt =====
-- The webhook payloads of app/services/ingest.py, and what its helpers make of their texts.
use Prim.Native.String.{count, ◌++◌}
use ai_revenue_recovery_agen.Prelude.{
  ℕ, Bool, Option, none, some, String, str_eq, leb, if◌then◌else◌,
}
use ai_revenue_recovery_agen.Prelude.Texts.{partition_at, last_of, last_four}
use ai_revenue_recovery_agen.Db.Enums.{PaymentStatus, WebhookEventType}
use ai_revenue_recovery_agen.Format.{Ref}
use ai_revenue_recovery_agen.Db.Models.{GroundTruth}

-- The keys that the code reads from a payment entity: `none` where the key is absent.
pub record Entity : Type 0 where
  pub id : Option String
  pub order_id : Option String
  pub status : Option String
  pub amount : Option ℕ
  pub currency : Option String
  pub method : Option String
  pub error_code : Option String
  pub error_source : Option String
  pub error_step : Option String
  pub error_reason : Option String
  pub error_description : Option String
  pub bank : Option String
  pub card_id : Option String
  pub created_at : Option ℕ
  pub contact : Option String
  pub email : Option String
  pub customer_id : Option String

-- A delivery; `entity` is `event["payload"]["payment"]["entity"]`.
pub record Event : Type 0 where
  pub id : Option String
  pub event : Option String
  pub entity : Option Entity

-- The `ground_truth` argument.
pub record Seed : Type 0 where
  pub truth : GroundTruth
  pub prior_attempts : Option ℕ

pub record IngestResult : Type 0 where
  pub event_id : String
  pub processed : Bool
  pub duplicated : Bool
  pub case_ref : Option Ref
  pub note : String

-- `_mask_email`
abbrev masked : Option (String × String) → Option String
masked none = none
masked (some (String.[], domain)) = none
masked (some (String.◌∷◌ c rest, domain)) = some (String.◌∷◌ c ("***@" ++ domain))

unfoldable pub mask_email : Option String → Option String
mask_email none = none
mask_email (some email) = masked (partition_at email)

-- `_mask_name`
unfoldable pub mask_name : Option String → String
mask_name none = "C***r"
mask_name (some String.[]) = "C***r"
mask_name (some (String.◌∷◌ c rest)) =
    if leb 2 (count rest)
    then String.◌∷◌ c ("***" ++ String.◌∷◌ (last_of c rest) String.[])
    else String.◌∷◌ c "***"

-- `_classify`
unfoldable pub classify : String → WebhookEventType
classify event_name =
    if str_eq event_name "payment.failed"
    then WebhookEventType.payment_failed
    else if str_eq event_name "payment.captured"
    then WebhookEventType.payment_captured
    else if str_eq event_name "payment.downtime.started"
    then WebhookEventType.downtime_started
    else if str_eq event_name "payment.downtime.resolved"
    then WebhookEventType.downtime_resolved
    else WebhookEventType.other

-- `PaymentStatus(text)`
unfoldable pub payment_status : String → Option PaymentStatus
payment_status t =
    if str_eq t "created"
    then some PaymentStatus.created
    else if str_eq t "authorized"
    then some PaymentStatus.authorized
    else if str_eq t "captured"
    then some PaymentStatus.captured
    else if str_eq t "failed"
    then some PaymentStatus.failed
    else none

-- `(card_id or "")[-4:] or None`
abbrev some_text : String → Option String
some_text String.[] = none
some_text (String.◌∷◌ c s) = some (String.◌∷◌ c s)

unfoldable pub card_last4 : Option String → Option String
card_last4 none = none
card_last4 (some card_id) = some_text (last_four card_id)
