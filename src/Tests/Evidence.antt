-- ===== src/Tests/Evidence.antt =====
-- The theorems on the audit log, the views and the scripts, each at a concrete input.
use text.Mathlib.TextEquality.{eq_iff}
use ai_revenue_recovery_agen.Prelude.{
  ℕ, suc, ◌/◌, ◌≡◌, ◌≢◌, refl, true, false, none, some, [], ◌∷◌, String, length, map, min, All,
  filter, arith, take, str_eq, any,
}
use ai_revenue_recovery_agen.Db.Enums.{CaseStatus, Actor, PaymentStatus, status_eq}
use ai_revenue_recovery_agen.Db.Models.{Detail}
use ai_revenue_recovery_agen.Db.Session.{Session, empty_session}
use ai_revenue_recovery_agen.Domain.Strategies.{StrategyId}
use ai_revenue_recovery_agen.Work.{Work}
use ai_revenue_recovery_agen.Services.Audit.{append_event, validate_chain}
use ai_revenue_recovery_agen.Services.Audit.Tamper.{
  content, events_of, validate_chain_anchored, validate_chain_truncated,
}
use ai_revenue_recovery_agen.Services.Ingest.{ingest_event, ingested, duplicate, add_webhook}
use ai_revenue_recovery_agen.Services.Ingest.Payload.{Event, classify}
use ai_revenue_recovery_agen.Services.Ingest.Rows.{payment_row, required}
use ai_revenue_recovery_agen.Api.{Secrets, sent, scoped, dashboard, razorpay_webhook}
use ai_revenue_recovery_agen.Api.Views.{CaseRow, list_cases}
use ai_revenue_recovery_agen.Api.Views.Lists.{list_cases-dashboard}
use ai_revenue_recovery_agen.Batch.Score.{diagnosis_text, strategy_text}
use ai_revenue_recovery_agen.Batch.Runs.{base_epoch}
use ai_revenue_recovery_agen.Scripts.Replay.{sign, via_api}
use ai_revenue_recovery_agen.Scripts.Replay.Once.{replicate, razorpay_webhook-sign, via_api_once}
use ai_revenue_recovery_agen.Scripts.Dataset.Tables.{Scenario}
use ai_revenue_recovery_agen.Scripts.Dataset.Counts.{total, counts_for}
use ai_revenue_recovery_agen.Scripts.Dataset.Counts.Sums.{IsNearest, total-counts_for}
use ai_revenue_recovery_agen.Scripts.Dataset.Rows.{
  PoolCustomer, Draw, pool_customer, created_at_of, failed_payment, ground_truth,
}
use ai_revenue_recovery_agen.Scripts.Dataset.Cases.Agrees.{
  IsIngested, first_draft, first_draft_expected, first_draft_boundary,
}
use ai_revenue_recovery_agen.Tests.Samples.{env, case_at, work_at}

abbrev noted : String → Session → Session
noted t s = append_event env (some 2) Actor.system t (Detail.webhook_rejected "evt_1" t) s

-- Two events of a case, and the same with an event of another case between them.
abbrev first_log : Session
first_log = noted "CLOSED" (noted "OPENED" empty_session)

abbrev second_log : Session
second_log = noted "CLOSED" (
    append_event env (some 7) Actor.system "OTHER" (Detail.webhook_rejected "evt_2" "OTHER")
      (noted "OPENED" empty_session))

apart : (a b : String) → str_eq a b ≡ false → a ≢ b
apart a b n e = let t = (eq_iff a b).1 e in cc

validate_chain_anchored_example :
    map content (events_of 2 first_log.audit_events)
    ≡ map content (events_of 2 second_log.audit_events)
unfolding append_event validate_chain filter
validate_chain_anchored_example =
    validate_chain_anchored env 2 first_log second_log refl refl refl (
      ((λ h. (refl, refl)), ((λ h. absurd (apart "CLOSED" "OPENED" refl h)), tt)),
      (((λ h. absurd (apart "OPENED" "CLOSED" refl h)), ((λ h. (refl, refl)), tt)), tt),
    )

validate_chain_truncated_example :
    validate_chain env 2
      (record first_log { audit_events = (noted "OPENED" empty_session).audit_events })
    ≡ true
unfolding append_event validate_chain
validate_chain_truncated_example =
    validate_chain_truncated env 2 first_log (take 1 first_log.audit_events)
      (noted "OPENED" empty_session).audit_events refl refl

abbrev downtime : Event
downtime = record { id = some "evt_9"; event = some "payment.downtime.started"; entity = none }

abbrev secrets : Secrets
secrets = record { admin_api_key = "key"; digest = λ raw. "abc"; loads = λ raw. some downtime }

abc_text : secrets.digest "{}" ≢ ""
abc_text = apart "abc" "" refl

razorpay_webhook-sign_example :
    razorpay_webhook env secrets "{}" (some (sign secrets "{}")) empty_session
    ≡ scoped empty_session (ingest_event env downtime true none false empty_session)
razorpay_webhook-sign_example =
    razorpay_webhook-sign env secrets "{}" downtime empty_session abc_text refl

via_api_once_example : via_api env secrets (suc 2) "{}" empty_session ≡ (
  sent (ingested "evt_9" true none "payment.downtime.started recorded only")
      ∷ replicate 2 (sent (duplicate "evt_9")),
  add_webhook "evt_9" "payment.downtime.started" true empty_session,
)
unfolding ingest_event required add_webhook classify any
via_api_once_example =
    via_api_once env downtime "evt_9" refl secrets "{}" abc_text refl 2 empty_session _ _ refl

some_cases : Session
some_cases = record empty_session {
  cases =
      case_at CaseStatus.recovered
      ∷ case_at CaseStatus.escalated
      ∷ case_at CaseStatus.recovered
      ∷ [];
}

list_cases-dashboard_example :
    (length (list_cases (some CaseStatus.recovered) 50 some_cases)
      ≡ min (min 50 200) ((dashboard some_cases).cases_by_status CaseStatus.recovered))
    × All
        (λ (r : CaseRow). status_eq r.status CaseStatus.recovered ≡ true)
        (list_cases (some CaseStatus.recovered) 50 some_cases)
list_cases-dashboard_example = list_cases-dashboard CaseStatus.recovered 50 some_cases

-- Half of the cases of the specification: every product is even, so a half is exact or rounded.
halved : IsNearest (λ c. c / 2) 60
halved = record { above = λ c. omega arith; below = λ c. omega arith }

total-counts_for_example : total (counts_for (λ c. c / 2) 60) ≡ 60
total-counts_for_example = total-counts_for (λ c. c / 2) 60 halved

abbrev customer : PoolCustomer
customer =
    pool_customer (λ t. t) (λ t. t) 1
      (record {
        name = 0;
        domain = 0;
        phone = "7000000000";
        tenure_days = 100;
        lifetime_value_minor = 500000;
        prior_failures = 1;
        prior_recoveries = 1;
        successful = 5;
      })

abbrev drawn : ℕ → Draw
drawn hours = record {
  customer = 0;
  diag = 1;
  amount = 100000;
  age_hours = hours;
  seconds = 0;
  bank = 2;
  capture_delay = 60;
}

abbrev ingested_work : Scenario → ℕ → Work
ingested_work s hours = record (work_at CaseStatus.analyzing) {
  clock = base_epoch;
  payment =
      payment_row 1 1000 1 none "pay_S01_001" PaymentStatus.failed (created_at_of (drawn hours))
        true (failed_payment s 1 customer (drawn hours));
  case = record (case_at CaseStatus.analyzing) {
    ground_truth = some (ground_truth s 1 customer (drawn hours)).truth;
  };
}

is_ingested :
    (s : Scenario) (hours : ℕ)
    → (ground_truth s 1 customer (drawn hours)).prior_attempts ≡ some 0
    → IsIngested s 1 customer (drawn hours) (ingested_work s hours)
is_ingested s hours a = record {
  id = 1;
  created = 1000;
  merchant_id = 1;
  customer_id = none;
  rzp_id = "pay_S01_001";
  status = PaymentStatus.failed;
  is_simulated = true;
  payment = refl;
  truth = refl;
  attempts = rw a refl;
  clock = refl;
}

first_draft_expected_example :
    let expected = (ground_truth Scenario.s01 1 customer (drawn 5)).truth in
    let draft = first_draft (ingested_work Scenario.s01 5) in
    (expected.expected_diagnosis ≡ some (diagnosis_text draft.diagnosis_class))
    × (expected.expected_strategy ≡ some (strategy_text draft.choice.strategy_id))
unfolding ground_truth
first_draft_expected_example =
    first_draft_expected Scenario.s01 1 customer (drawn 5) (λ e. grind arith)
      (record { oldest = omega arith; youngest = omega arith; seconds = omega arith })
      (ingested_work Scenario.s01 5) (is_ingested Scenario.s01 5 refl) (λ e. omega arith)

first_draft_boundary_example :
    ((first_draft (ingested_work Scenario.s11 48)).choice.strategy_id
      ≡ StrategyId.s3_notify_with_link)
    × ((ground_truth Scenario.s11 1 customer (drawn 48)).truth.expected_strategy
        ≡ some "S6_STOP_RECOVERY")
unfolding ground_truth
first_draft_boundary_example =
    first_draft_boundary 1 customer (drawn 48) (ingested_work Scenario.s11 48)
      (record { oldest = omega arith; youngest = omega arith; seconds = omega arith }) (omega arith)
      (is_ingested Scenario.s11 48 refl)
