-- ===== src/Tests/Intake.antt =====
-- The theorems on deliveries, decisions, ticks and requests, each at a concrete input.
use ai_revenue_recovery_agen.Prelude.{
  ℕ, ◌+◌, ◌*◌, ◌≤◌, ◌<◌, ◌^◌, ◌≡◌, refl, true, false, Option, none, some, [], ◌∷◌, String, arith,
  find_first, any, filter,
}
use ai_revenue_recovery_agen.Result.{Error, Result, ok, err}
use ai_revenue_recovery_agen.Format.{Ref}
use ai_revenue_recovery_agen.Db.Enums.{CaseStatus, EscalationStatus, status_eq}
use ai_revenue_recovery_agen.Db.Models.{Merchant, Customer}
use ai_revenue_recovery_agen.Db.Session.{Session, empty_session}
use ai_revenue_recovery_agen.Domain.Fsm.{is_terminal, can_transition}
use ai_revenue_recovery_agen.Policy.Config.{no_overrides}
use ai_revenue_recovery_agen.Work.{Work, Simulator}
use ai_revenue_recovery_agen.Services.CaseService.{
  get_case_by_payment, create_case, next_ref, counter_value,
}
use ai_revenue_recovery_agen.Services.Audit.{append_event, validate_chain}
use ai_revenue_recovery_agen.Services.Loading.{
  flushed, load_case_full, case_by_id, payment_by_id, work_of,
}
use ai_revenue_recovery_agen.Services.Ingest.{
  ingest_event, ingested, duplicate, on_captured, on_payment, on_failed, open_case, add_webhook,
}
use ai_revenue_recovery_agen.Services.Ingest.Payload.{
  Entity, Event, IngestResult, classify, payment_status, card_last4,
}
use ai_revenue_recovery_agen.Services.Ingest.Rows.{
  upsert_customer, new_customer, insert_customer, upsert_payment, store_payment, payment_row,
  required, get_or_create_demo_merchant, insert_merchant,
}
use ai_revenue_recovery_agen.Services.Ingest.Effects.{IsKeyed, Holds}
use ai_revenue_recovery_agen.Services.Ingest.Replay.{
  ingest_event_replay, ingest_event-IsKeyed, forged_blocks,
}
use ai_revenue_recovery_agen.Services.Ingest.SelfHeal.{Healed, on_captured_lem}
use ai_revenue_recovery_agen.Services.Ingest.Customers.{upsert_customer_twice}
use ai_revenue_recovery_agen.Api.{
  Reply, sent, crashed, boolean, Secrets, is_admin, as_bool, is_escalation, verify_signature,
  razorpay_webhook, decide_escalation,
}
use ai_revenue_recovery_agen.Api.Webhooks.{Untouched, razorpay_webhook_unsigned}
use ai_revenue_recovery_agen.Api.Decisions.{Recorded, Moved, decide_escalation_lem}
use ai_revenue_recovery_agen.Worker.{claimed, active_ids, tick, polls}
use ai_revenue_recovery_agen.Worker.Ticks.{IsDone, tick-IsDone}
use ai_revenue_recovery_agen.Worker.Starvation.{polls_parked}
use ai_revenue_recovery_agen.Integrations.Razorpay.{Wire, timeout, breaker_open, raised, request}
use ai_revenue_recovery_agen.Integrations.Razorpay.Breaker.{CircuitBreaker, new_breaker}
use ai_revenue_recovery_agen.Integrations.Razorpay.Requests.{
  calls, seconds, Ends, request-IsBounded, request_open,
}
use ai_revenue_recovery_agen.Tests.Samples.{payment, case_at, escalation, env, deps}

abbrev pub entity : Entity
entity = record {
  id = some "pay_1";
  order_id = none;
  status = some "failed";
  amount = some 150000;
  currency = none;
  method = some "card";
  error_code = none;
  error_source = none;
  error_step = none;
  error_reason = some "insufficient_funds";
  error_description = none;
  bank = none;
  card_id = none;
  created_at = some 1000;
  contact = some "+911";
  email = none;
  customer_id = none;
}

abbrev pub event : Event
event = record { id = some "evt_1"; event = some "payment.failed"; entity = some entity }

abbrev simulator : Simulator
simulator = record { rolls = []; drawn = 0 }

abbrev with_case : CaseStatus → Session
with_case s = record empty_session {
  next_id = 10;
  payments = payment ∷ [];
  cases = case_at s ∷ [];
  escalations = escalation ∷ [];
}

abbrev session_of : {A : Type 0} → Result (A × Session) → Session
session_of (ok (a, s)) = s
session_of (err e) = empty_session

abbrev first_delivery : Result (IngestResult × Session)
first_delivery = ingest_event env event true none false empty_session

abbrev outcome : IngestResult
outcome = ingested "evt_1" true (some (record { prefix = "RC"; value = 1 })) "case created"

first_returns : first_delivery ≡ ok (outcome, session_of first_delivery)
unfolding ingest_event required add_webhook any classify on_payment get_or_create_demo_merchant
    insert_merchant filter upsert_customer new_customer insert_customer upsert_payment store_payment
    payment_row payment_status find_first on_failed open_case create_case next_ref append_event
    get_case_by_payment card_last4 counter_value
first_returns = refl

ingest_event_replay_example :
    ingest_event env event false none true (session_of first_delivery)
    ≡ ok (duplicate "evt_1", session_of first_delivery)
ingest_event_replay_example =
    ingest_event_replay env event true none false empty_session (session_of first_delivery) "evt_1"
      outcome event false none true refl refl first_returns

ingest_event-IsKeyed_example :
    (IsKeyed empty_session → IsKeyed (session_of first_delivery))
    × ((case_id : ℕ)
        → validate_chain env case_id empty_session ≡ true
        → validate_chain env case_id (session_of first_delivery) ≡ true)
ingest_event-IsKeyed_example =
    ingest_event-IsKeyed env event true none false empty_session (session_of first_delivery) "evt_1"
      outcome refl first_returns

forged_blocks_example :
    (t : Session) × (ingest_event env event false none false empty_session
      ≡ ok (ingested "evt_1" false none "invalid signature", t))
    × (t.payments ≡ [])
    × (t.cases ≡ [])
    × (ingest_event env event true none false t ≡ ok (duplicate "evt_1", t))
unfolding any
forged_blocks_example =
    forged_blocks env event event none false empty_session "evt_1" refl refl refl

on_captured_lem_example :
    (is_terminal CaseStatus.verifying ≡ false
      → (v : Work) × (on_captured env "evt_2" entity payment (with_case CaseStatus.verifying)
          ≡ ok (
            ingested "evt_2" true (some (record { prefix = "RC"; value = 1 })) "self-healed",
            flushed v,
          ))
        × Healed env "evt_2" entity payment
            (case_at CaseStatus.verifying)
            (with_case CaseStatus.verifying)
            v)
    × (is_terminal CaseStatus.verifying ≡ true
        → status_eq CaseStatus.verifying CaseStatus.recovered ≡ false
        → on_captured env "evt_2" entity payment (with_case CaseStatus.verifying)
          ≡ err (Error.illegal_transition CaseStatus.verifying CaseStatus.recovered))
unfolding get_case_by_payment find_first
on_captured_lem_example =
    on_captured_lem env "evt_2" entity payment (case_at CaseStatus.verifying)
      (with_case CaseStatus.verifying) refl

abbrev merchant : Merchant
merchant = record { id = 1; name = "m"; rzp_key_id = "k"; policy_config = no_overrides }

abbrev first_customer : Result (Option Customer × Session)
first_customer = upsert_customer env merchant entity none empty_session

upsert_customer_twice_example :
    upsert_customer env merchant entity none (session_of first_customer) ≡ err Error.integrity_error
unfolding upsert_customer insert_customer new_customer any
upsert_customer_twice_example =
    upsert_customer_twice env merchant _ "911" entity entity empty_session
      (session_of first_customer) (some (new_customer env 0 merchant entity none)) (refl, refl)
      (refl, refl) refl

abbrev secrets : Secrets
secrets = record { admin_api_key = "key"; digest = λ raw. raw; loads = λ raw. some event }

abbrev demo : String
demo = "demo"

razorpay_webhook_unsigned_example :
    Untouched
      (with_case CaseStatus.verifying)
      (razorpay_webhook env secrets "body" (some "x") (with_case CaseStatus.verifying)).1
unfolding verify_signature
razorpay_webhook_unsigned_example =
    razorpay_webhook_unsigned env secrets "body" (some "x") (with_case CaseStatus.verifying) refl

abbrev parked : Session
parked = with_case CaseStatus.awaiting_approval

abbrev parked_work : Work
parked_work = work_of 0 simulator parked (case_at CaseStatus.awaiting_approval) payment

abbrev esc_ref : Ref
esc_ref = record { prefix = "ESC"; value = 1 }

abbrev decision_reply : Reply EscalationStatus × Session
decision_reply = decide_escalation env secrets esc_ref (boolean true) none (some "key") parked

decide_escalation_lem_example :
    (can_transition CaseStatus.awaiting_approval CaseStatus.approved ≡ true
      → (decision_reply.0 ≡ sent EscalationStatus.approved)
        × Recorded esc_ref true none (env.utcnow 10) escalation parked decision_reply.1
        × Moved escalation.case_id CaseStatus.approved decision_reply.1)
    × (can_transition CaseStatus.awaiting_approval CaseStatus.approved ≡ false
        → (decision_reply.0
            ≡ crashed (Error.illegal_transition CaseStatus.awaiting_approval CaseStatus.approved))
          × (decision_reply.1 ≡ parked))
unfolding is_admin as_bool is_escalation find_first load_case_full case_by_id payment_by_id
decide_escalation_lem_example =
    decide_escalation_lem env secrets esc_ref (boolean true) none (some "key") parked true
      escalation parked_work refl refl refl refl

tick-IsDone_example :
    Holds
      (IsDone env (with_case CaseStatus.verifying))
      (tick env (deps false) (λ k. 4600) (with_case CaseStatus.verifying) simulator)
tick-IsDone_example =
    tick-IsDone env (deps false) (λ k. 4600) (with_case CaseStatus.verifying) simulator

polls_parked_example :
    (polls env (deps false) (λ k j. 4600 + 5 * k) (λ k. simulator) 3 0 parked simulator).0 ≡ parked
unfolding claimed active_ids any case_by_id find_first
polls_parked_example =
    polls_parked env (deps false) (λ k j. 4600 + 5 * k) (λ k. simulator) 2
      (case_at CaseStatus.awaiting_approval) parked refl refl refl refl 3 0 simulator

abbrev silent : Wire
silent = record { answer = λ k. timeout; before = λ k. 100 + k; after = λ k. 100 + k }

request-IsBounded_example :
    let t = request silent 2 (new_breaker 5) in
    (calls t.0 ≤ 2 + 1) × (seconds t.0 < 2 ^ (2 + 1)) × Ends t.1 t.2
request-IsBounded_example = request-IsBounded silent 2 (new_breaker 5)

abbrev opened : CircuitBreaker
opened = record { threshold = 5; cooldown_s = 60; failures = 5; opened_at = some 90 }

request_open_example : request silent 2 opened ≡ ([], raised breaker_open, opened)
request_open_example = request_open silent 2 opened 90 refl (omega arith)
