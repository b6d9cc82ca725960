-- ===== src/Batch/Report.antt =====
-- The report of `run` of app/batch/run_eval.py: the counts of tables and the safety invariants that `_score`
-- adds to the score, and the row of each case. Rates and rupees are arithmetic of the report.
pub mod Groups
pub mod Clean
use ai_revenue_recovery_agen.Prelude.{
  ℕ, ◌+◌, Bool, true, false, ◌&&◌, Option, List, [], ◌∷◌, String, ◌==◌, if◌then◌else◌, length, map,
  count_if, ltb,
}
use ai_revenue_recovery_agen.Result.{Result, ok, ◌>>=◌}
use ai_revenue_recovery_agen.Db.Enums.{CaseStatus, ActionType, ExecutionMode, status_eq}
use ai_revenue_recovery_agen.Db.Models.{RecoveryCase, RecoveryAction, AgentDecision}
use ai_revenue_recovery_agen.Db.Session.{Session}
use ai_revenue_recovery_agen.Outside.{Env}
use ai_revenue_recovery_agen.Executors.{action_eq}
use ai_revenue_recovery_agen.Services.Audit.{validate_chain}
use ai_revenue_recovery_agen.Services.Ingest.Payload.{Event, Seed}
use ai_revenue_recovery_agen.Batch.Runs.{run_phases}
use ai_revenue_recovery_agen.Batch.Score.{
  Score, score, text_of, diagnosis_text, strategy_text, expected_of, or_strategy, first_decision,
}

pub record EvalCaseResult : Type 0 where
  pub case_id : ℕ
  pub expected_diagnosis : Option String
  pub actual_diagnosis : Option String
  pub expected_strategy : Option String
  pub actual_strategy : Option String
  pub outcome : CaseStatus
  pub recovered_amount_minor : ℕ

unfoldable pub case_result : List AgentDecision → RecoveryCase → EvalCaseResult
case_result decisions c = record {
  case_id = c.id;
  expected_diagnosis = expected_of (λ gt. gt.expected_diagnosis) c.ground_truth;
  actual_diagnosis = text_of diagnosis_text c.diagnosis_class;
  expected_strategy = expected_of (λ gt. gt.expected_strategy) c.ground_truth;
  actual_strategy =
      text_of strategy_text (or_strategy (first_decision c.id decisions) c.strategy_id);
  outcome = c.status;
  recovered_amount_minor = c.recovered_amount_minor;
}

-- `status_counts`: how many cases have a status.
unfoldable pub status_count : List RecoveryCase → CaseStatus → ℕ
status_count cases s = count_if (λ (c : RecoveryCase). status_eq c.status s) cases

-- The loop that sets `chain_ok` to False where a chain does not validate.
unfoldable pub chain_ok : Env → Session → List RecoveryCase → Bool
chain_ok env s [] = true
chain_ok env s (c ∷ cs) =
    let rest = chain_ok env s cs in if validate_chain env c.id s then rest else false

abbrev pub Key : Type 0
Key = ℕ × ActionType × ℕ

abbrev pub key_eq : Key → Key → Bool
key_eq a b = a.0 == b.0 && action_eq a.1 b.1 && a.2 == b.2

-- One row more of a group of `GROUP BY idempotency_key`.
unfoldable pub add_to_group : Key → List (Key × ℕ) → List (Key × ℕ)
add_to_group k [] = (k, 1) ∷ []
add_to_group k ((j, n) ∷ g) =
    let rest = add_to_group k g in if key_eq j k then (j, n + 1) ∷ g else (j, n) ∷ rest

unfoldable pub groups : List RecoveryAction → List (Key × ℕ)
unfolding add_to_group
groups [] = []
groups (a ∷ rest) = add_to_group a.idempotency_key (groups rest)

-- `HAVING count(*) > 1`
unfoldable pub dup_groups : List RecoveryAction → ℕ
unfolding groups
dup_groups actions = count_if (λ (g : Key × ℕ). ltb 1 g.1) (groups actions)

abbrev pub is_simulated : RecoveryAction → Bool
is_simulated a = elim a.execution_mode [ ExecutionMode.simulated ↦ true | _ ↦ false ]

pub record Report : Type 0 where
  pub events_total : ℕ
  pub duplicate_deliveries_skipped : ℕ
  pub cases_created : ℕ
  pub score : Score
  pub results : List EvalCaseResult
  pub status_counts : CaseStatus → ℕ
  pub audit_chain_valid_all_cases : Bool
  pub idempotency_violations : ℕ
  pub actions_total : ℕ
  pub actions_simulated : ℕ
  pub policy_decisions : ℕ

unfoldable pub report_of : Env → List Event → ℕ × ℕ × Session → Report
unfolding chain_ok dup_groups status_count case_result
report_of env events (skipped, created, s) = record {
  events_total = length events;
  duplicate_deliveries_skipped = skipped;
  cases_created = created;
  score = score s.decisions s.cases;
  results = map (case_result s.decisions) s.cases;
  status_counts = status_count s.cases;
  audit_chain_valid_all_cases = chain_ok env s s.cases;
  idempotency_violations = dup_groups s.actions;
  actions_total = length s.actions;
  actions_simulated = count_if is_simulated s.actions;
  policy_decisions = length s.policy_decisions;
}

unfoldable pub run : Env → (String → Option Seed) → Bool → Session → List Event → Result Report
unfolding report_of
run env gt keep_db s events =
    run_phases env gt keep_db s events >>= λ r. ok (report_of env events r)
