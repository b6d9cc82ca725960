-- ===== src/Services/CaseService.antt =====
-- app/services/case_service.py: references, creation, guarded transitions, queries.
pub mod Transition
use ai_revenue_recovery_agen.Prelude.{
  ℕ, ◌+◌, Bool, true, false, ◌&&◌, Option, none, some, List, [], ◌∷◌, String, str_eq, ◌==◌,
  if◌then◌else◌, find_first, get_or,
}
use ai_revenue_recovery_agen.Result
use ai_revenue_recovery_agen.Format.{Ref, Reason}
use ai_revenue_recovery_agen.Db.Enums.{CaseStatus, DiagnosisClass, Actor, status_eq}
use ai_revenue_recovery_agen.Db.Models.{RecoveryCase, Counter, GroundTruth, Detail}
use ai_revenue_recovery_agen.Db.Session.{Session}
use ai_revenue_recovery_agen.Domain.Fsm.{assert_transition}
use ai_revenue_recovery_agen.Domain.Strategies.{StrategyId}
use ai_revenue_recovery_agen.Outside.{Env}
use ai_revenue_recovery_agen.Work.{Work, Action, modify, on_session, on_case, ◌>>=◌, ◌>>◌}
use ai_revenue_recovery_agen.Services.Audit.{append_event}

unfoldable pub counter_value : String → List Counter → Option ℕ
counter_value kind [] = none
counter_value kind (c ∷ cs) = if str_eq c.name kind then some c.value else counter_value kind cs

pub set_counter : String → ℕ → List Counter → List Counter
set_counter kind v [] = record { name = kind; value = v } ∷ []
set_counter kind v (c ∷ cs) =
    if str_eq c.name kind then record c { value = v } ∷ cs else c ∷ set_counter kind v cs

-- A counter that is not there is inserted with 0; then it is raised by one.
unfoldable pub next_ref : String → String → Session → Ref × Session
next_ref kind prefix s =
    let value = get_or (counter_value kind s.counters) 0 + 1 in
    (
      record { prefix = prefix; value = value },
      record s { counters = set_counter kind value s.counters },
    )

unfoldable pub get_case_by_ref : Ref → List RecoveryCase → Option RecoveryCase
get_case_by_ref r =
    find_first (λ c. str_eq c.case_ref.prefix r.prefix && c.case_ref.value == r.value)

unfoldable pub get_case_by_payment : ℕ → List RecoveryCase → Option RecoveryCase
get_case_by_payment payment_id = find_first (λ c. c.payment_id == payment_id)

-- `order_by(created_at).limit(1)`: the oldest, that is the last of the table, with such a status.
unfoldable pub claim_next_case : (CaseStatus → Bool) → List RecoveryCase → Option RecoveryCase
claim_next_case from_statuses [] = none
claim_next_case from_statuses (c ∷ cs) =
    let older = claim_next_case from_statuses cs in
    elim older [ some o ↦ some o | none ↦ (if from_statuses c.status then some c else none) ]

module _ (env : Env) where
  new_case : Ref → ℕ → ℕ → Option ℕ → Option ℕ → Option GroundTruth → Session → RecoveryCase
  new_case case_ref merchant_id payment_id customer_id sla_deadline_at ground_truth s = record {
    id = s.next_id;
    case_ref = case_ref;
    merchant_id = merchant_id;
    payment_id = payment_id;
    customer_id = customer_id;
    status = CaseStatus.detected;
    risk_score = none;
    risk_band = none;
    diagnosis_class = none;
    strategy_id = none;
    agent_confidence = none;
    retry_count = 0;
    last_attempt_at = none;
    recovered_amount_minor = 0;
    outcome = none;
    closed_at = none;
    sla_deadline_at = sla_deadline_at;
    ground_truth = ground_truth;
    created_at = env.utcnow s.next_id;
  }

  unfoldable pub create_case :
      ℕ → ℕ → Option ℕ → Option ℕ → Option GroundTruth → Session → RecoveryCase × Session
  unfolding new_case
  create_case merchant_id payment_id customer_id sla_deadline_at ground_truth s =
      let (case_ref, s') = next_ref "case_ref" "RC" s in
      let case =
        new_case case_ref merchant_id payment_id customer_id sla_deadline_at ground_truth s' in
      (
        case,
        append_event env (some case.id) Actor.system "CASE_CREATED"
            (Detail.case_created case_ref CaseStatus.detected)
            (record s' { next_id = s'.next_id + 1; cases = case ∷ s'.cases }),
      )

  -- An audit event of the case at work.
  unfoldable pub log : Actor → String → Detail → Work → Work
  log actor event_type detail w =
      on_session (append_event env (some w.case.id) actor event_type detail) w

  unfoldable pub set_status : CaseStatus → Actor → Reason → Work → Work
  unfolding log
  set_status to actor reason w =
      log actor "STATE_TRANSITION" (Detail.state_transition w.case.status to reason)
        (record w { case = record w.case { status = to } })

  unfoldable pub transition : CaseStatus → Actor → Reason → Action Unit
  unfolding set_status
  transition to actor reason w =
      Result.◌>>=◌ (assert_transition w.case.status to) (λ _. modify (set_status to actor reason) w)

  unfoldable pub set_diagnosis : DiagnosisClass → StrategyId → ℕ → Work → Work
  set_diagnosis diagnosis_class strategy_id confidence = on_case λ c. record c {
    diagnosis_class = some diagnosis_class;
    strategy_id = some strategy_id;
    agent_confidence = some confidence;
  }
