-- ===== src/Services/Ingest.antt =====
-- app/services/ingest.py: `ingest_event`, from a delivery to a case.
pub mod Payload
pub mod Rows
pub mod Effects
pub mod Capture
pub mod Parts
pub mod Payments
pub mod Replay
pub mod SelfHeal
pub mod Customers
use Prim.Native.String.{◌++◌}
use ai_revenue_recovery_agen.Prelude.{
  ℕ, ◌+◌, Bool, true, false, Option, none, some, List, [], ◌∷◌, String, str_eq, ◌==◌, if◌then◌else◌,
  find_first, any, get_or, map,
}
use ai_revenue_recovery_agen.Result.{Error, Result, ok, err, ◌>>=◌}
use ai_revenue_recovery_agen.Format.{Ref, plain}
use ai_revenue_recovery_agen.Db.Enums.{DiagnosisClass, ExecutionMode, WebhookEventType, Actor}
use ai_revenue_recovery_agen.Db.Models.{
  Merchant, Customer, Payment, RecoveryCase, GroundTruth, TruthCustomer, WebhookEvent, Detail,
}
use ai_revenue_recovery_agen.Db.Session.{Session}
use ai_revenue_recovery_agen.Domain.Strategies.{StrategyId}
use ai_revenue_recovery_agen.Outside.{Env}
use ai_revenue_recovery_agen.Work.{Work}
use ai_revenue_recovery_agen.Verification.{record_capture}
use ai_revenue_recovery_agen.Services.Loading.{replace_case, flushed}
use ai_revenue_recovery_agen.Services.Audit.{append_event}
use ai_revenue_recovery_agen.Services.CaseService.{create_case, get_case_by_payment}
use ai_revenue_recovery_agen.Services.Ingest.Payload.{Entity, Event, Seed, IngestResult, classify}
use ai_revenue_recovery_agen.Services.Ingest.Rows.{
  get_or_create_demo_merchant, upsert_customer, upsert_payment, required,
}

abbrev pub seen : String → List WebhookEvent → Bool
seen event_id = any (λ (w : WebhookEvent). str_eq w.event_id event_id)

unfoldable pub add_webhook : String → String → Bool → Session → Session
add_webhook event_id event_name signature_valid s = record s {
  next_id = s.next_id + 1;
  webhook_events =
      record {
        id = s.next_id;
        provider = "razorpay";
        event_id = event_id;
        event_type = event_name;
        signature_valid = signature_valid;
      }
      ∷ s.webhook_events;
}

-- An `IngestResult` of a delivery that is new.
abbrev pub ingested : String → Bool → Option Ref → String → IngestResult
ingested event_id processed case_ref note = record {
  event_id = event_id;
  processed = processed;
  duplicated = false;
  case_ref = case_ref;
  note = note;
}

abbrev pub duplicate : String → IngestResult
duplicate event_id = record {
  event_id = event_id;
  processed = false;
  duplicated = true;
  case_ref = none;
  note = "duplicate delivery skipped";
}

-- A case and its payment at work outside the pipeline, where no clock and no simulator is read.
abbrev pub at_work : Session → RecoveryCase → Payment → Work
at_work s c p = record {
  session = s;
  case = c;
  payment = p;
  customer = none;
  clock = 0;
  simulator = record { rolls = []; drawn = 0 };
}

abbrev pub customer_id_of : Option Customer → Option ℕ
customer_id_of none = none
customer_id_of (some c) = some c.id

abbrev pub seed_customer : Option Seed → Option TruthCustomer
seed_customer none = none
seed_customer (some g) = g.truth.customer

abbrev no_truth : GroundTruth
no_truth = record {
  scenario = none;
  case_key = none;
  recoverable = none;
  simulated_capture_probability = none;
  expected_diagnosis = none;
  expected_strategy = none;
  customer = none;
}

abbrev pub seed_truth : Option Seed → GroundTruth
seed_truth none = no_truth
seed_truth (some g) = g.truth

abbrev seed_attempts : Option Seed → ℕ
seed_attempts none = 0
seed_attempts (some g) = get_or g.prior_attempts 0

module _ (env : Env) where
  -- The diagnosis and the strategy of a case whose capture comes by webhook, then the capture.
  unfoldable pub self_heal :
      String → Entity → Payment → RecoveryCase → Session → Result (IngestResult × Session)
  unfolding flushed
  self_heal event_id ent payment case s =
      let stamped : RecoveryCase = record case {
        diagnosis_class = some DiagnosisClass.duplicate_self_healed;
        strategy_id = some StrategyId.s6_stop_recovery;
      } in
      record_capture env (elim ent.id [ none ↦ none | some id ↦ some (plain id) ])
        ExecutionMode.simulated "webhook_self_heal" (at_work s stamped payment)
      >>= λ (u, w). ok (ingested event_id true (some stamped.case_ref) "self-healed", flushed w)

  abbrev pub captured_for :
      Option RecoveryCase → String → Entity → Payment → Session → Result (IngestResult × Session)
  captured_for none event_id ent payment s =
      ok (ingested event_id true none "capture for unknown case recorded", s)
  captured_for (some case) event_id ent payment s = self_heal event_id ent payment case s

  -- `payment.captured`
  unfoldable pub on_captured : String → Entity → Payment → Session → Result (IngestResult × Session)
  on_captured event_id ent payment s =
      captured_for (get_case_by_payment payment.id s.cases) event_id ent payment s

  -- The new case, whose `retry_count` is set after `create_case`.
  unfoldable pub open_case :
      Merchant → Option ℕ → Payment → Option ℕ → Option Seed → Session → RecoveryCase × Session
  open_case merchant customer_id payment created_at ground_truth s =
      let (case, s') =
        create_case env merchant.id payment.id customer_id created_at
          (some (seed_truth ground_truth)) s in
      let counted = record case { retry_count = seed_attempts ground_truth } in
      (counted, record s' { cases = map (replace_case counted) s'.cases })

  abbrev pub failed_for :
      Option RecoveryCase → String → RecoveryCase × Session → Session → IngestResult × Session
  failed_for (some case) event_id new s =
      (ingested event_id true (some case.case_ref) "case already open", s)
  failed_for none event_id (case, s') s =
      (ingested event_id true (some case.case_ref) "case created", s')

  -- `payment.failed`: exactly one case per payment.
  unfoldable pub on_failed :
      String
      → Merchant
      → Option ℕ
      → Payment
      → Option ℕ
      → Option Seed
      → Session
      → IngestResult × Session
  on_failed event_id merchant customer_id payment created_at ground_truth s =
      failed_for (get_case_by_payment payment.id s.cases) event_id
        (open_case merchant customer_id payment created_at ground_truth s) s

  abbrev pub by_type :
      Bool
      → String
      → Entity
      → Merchant
      → Option ℕ
      → Payment
      → Option Seed
      → Session
      → Result (IngestResult × Session)
  by_type true event_id ent merchant customer_id payment ground_truth s =
      on_captured event_id ent payment s
  by_type false event_id ent merchant customer_id payment ground_truth s =
      ok (on_failed event_id merchant customer_id payment ent.created_at ground_truth s)

  -- A payment event, by whether it is a capture.
  unfoldable pub on_payment :
      Bool → String → Event → Option Seed → Bool → Session → Result (IngestResult × Session)
  on_payment captured event_id event ground_truth is_simulated s =
      get_or_create_demo_merchant s >>= λ (merchant, s1).
      required Error.missing_key event.entity >>= λ ent.
      upsert_customer env merchant ent (seed_customer ground_truth) s1 >>= λ (customer, s2).
      upsert_payment env merchant ent (customer_id_of customer) is_simulated s2 >>= λ (payment, s3).
      by_type captured event_id ent merchant (customer_id_of customer) payment ground_truth s3

  -- A delivery whose signature is valid.
  abbrev pub by_class :
      WebhookEventType
      → String
      → String
      → Event
      → Option Seed
      → Bool
      → Session
      → Result (IngestResult × Session)
  by_class WebhookEventType.payment_failed event_id event_name = on_payment false event_id
  by_class WebhookEventType.payment_captured event_id event_name = on_payment true event_id
  by_class _ event_id event_name = λ event ground_truth is_simulated s.
      ok (ingested event_id true none (event_name ++ " recorded only"), s)

  unfoldable pub ingest_event :
      Event → Bool → Option Seed → Bool → Session → Result (IngestResult × Session)
  unfolding add_webhook
  ingest_event event signature_valid ground_truth is_simulated s =
      required Error.missing_key event.id >>= λ event_id.
      let event_name = get_or event.event "other" in
      let received = add_webhook event_id event_name signature_valid s in
      if seen event_id s.webhook_events
      then ok (duplicate event_id, s)
      else if signature_valid
      then by_class (classify event_name) event_id event_name event ground_truth is_simulated
          received
      else ok (
        ingested event_id false none "invalid signature",
        append_event env none Actor.system "WEBHOOK_REJECTED"
            (Detail.webhook_rejected event_id "invalid signature") received,
      )
