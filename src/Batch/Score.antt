-- ===== src/Batch/Score.antt =====
-- The counts of `_score` of app/batch/run_eval.py. The rates, the rupees and the difference between the recovered
-- and the self-healed cases are arithmetic of the report.
use ai_revenue_recovery_agen.Prelude.{
  ℕ, ◌+◌, ◌≤◌, ◌≡◌, Bool, true, false, Option, none, some, List, [], ◌∷◌, String, str_eq, ◌==◌,
  if◌then◌else◌, arith, Bool-cases, inl, inr, All,
}
use ai_revenue_recovery_agen.Prelude.Texts.{text_or}
use ai_revenue_recovery_agen.Db.Enums.{CaseStatus, CaseOutcome, DiagnosisClass, status_eq}
use ai_revenue_recovery_agen.Db.Models.{RecoveryCase, AgentDecision, GroundTruth}
use ai_revenue_recovery_agen.Domain.Strategies.{StrategyId}

-- The value of a `DiagnosisClass`.
abbrev pub diagnosis_text : DiagnosisClass → String
diagnosis_text DiagnosisClass.insufficient_funds = "INSUFFICIENT_FUNDS"
diagnosis_text DiagnosisClass.customer_auth_required = "CUSTOMER_AUTH_REQUIRED"
diagnosis_text DiagnosisClass.instrument_invalid = "INSTRUMENT_INVALID"
diagnosis_text DiagnosisClass.network_infra = "NETWORK_INFRA"
diagnosis_text DiagnosisClass.bank_downtime = "BANK_DOWNTIME"
diagnosis_text DiagnosisClass.duplicate_self_healed = "DUPLICATE_SELF_HEALED"
diagnosis_text DiagnosisClass.unknown = "UNKNOWN"

abbrev pub strategy_text : StrategyId → String
strategy_text StrategyId.s1_immediate_retry = "S1_IMMEDIATE_RETRY"
strategy_text StrategyId.s2_delayed_retry = "S2_DELAYED_RETRY"
strategy_text StrategyId.s3_notify_with_link = "S3_NOTIFY_WITH_LINK"
strategy_text StrategyId.s4_alt_payment_flow = "S4_ALT_PAYMENT_FLOW"
strategy_text StrategyId.s5_human_escalation = "S5_HUMAN_ESCALATION"
strategy_text StrategyId.s6_stop_recovery = "S6_STOP_RECOVERY"

-- A text of an optional value.
abbrev pub text_of : {A : Type 0} → (A → String) → Option A → Option String
text_of f none = none
text_of f (some a) = some (f a)

-- `a == b`, where None equals None.
abbrev same_option : Option String → Option String → Bool
same_option none none = true
same_option (some a) (some b) = str_eq a b
same_option _ _ = false

abbrev pub expected_of : (GroundTruth → Option String) → Option GroundTruth → Option String
expected_of f none = none
expected_of f (some gt) = f gt

-- The oldest decision of the case, the last of the table.
unfoldable pub first_decision : ℕ → List AgentDecision → Option StrategyId
first_decision case_id [] = none
first_decision case_id (d ∷ ds) =
    let older = first_decision case_id ds in
    elim older [
      | some s ↦ some s
      | none ↦ (if d.case_id == case_id then some d.strategy_id else none)
    ]

abbrev pub or_strategy : Option StrategyId → Option StrategyId → Option StrategyId
or_strategy none strategy_id = strategy_id
or_strategy (some s) strategy_id = some s

unfoldable pub diagnosis_ok : RecoveryCase → Bool
diagnosis_ok c =
    same_option (text_of diagnosis_text c.diagnosis_class)
      (expected_of (λ gt. gt.expected_diagnosis) c.ground_truth)

unfoldable pub strategy_ok : List AgentDecision → RecoveryCase → Bool
unfolding first_decision
strategy_ok decisions c =
    same_option (text_of strategy_text (or_strategy (first_decision c.id decisions) c.strategy_id))
      (expected_of (λ gt. gt.expected_strategy) c.ground_truth)

unfoldable pub scenario_of : RecoveryCase → String
scenario_of c = text_or (expected_of (λ gt. gt.scenario) c.ground_truth) "?"

abbrev pub is_self_healed : Option CaseOutcome → Bool
is_self_healed (some CaseOutcome.self_healed) = true
is_self_healed _ = false

pub record ScenarioScore : Type 0 where
  pub n : ℕ
  pub diag_ok : ℕ
  pub strat_ok : ℕ
  pub recovered : ℕ

pub record Score : Type 0 where
  pub cases_total : ℕ
  pub diag_correct : ℕ
  pub strat_correct : ℕ
  pub recovered_cases : ℕ
  pub self_healed_cases : ℕ
  pub unrecovered_cases : ℕ
  pub escalated_cases : ℕ
  pub recovered_amount_minor : ℕ
  pub per_scenario : String → ScenarioScore

-- A Boolean as Python adds it.
abbrev pub one : Bool → ℕ
one true = 1
one false = 0

abbrev pub recovered : RecoveryCase → Bool
recovered c = status_eq c.status CaseStatus.recovered

-- The entry of a scenario after one more case of it.
unfoldable pub add_scenario : List AgentDecision → RecoveryCase → ScenarioScore → ScenarioScore
add_scenario decisions c e = record {
  n = 1 + e.n;
  diag_ok = one (diagnosis_ok c) + e.diag_ok;
  strat_ok = one (strategy_ok decisions c) + e.strat_ok;
  recovered = one (recovered c) + e.recovered;
}

-- The loop over the cases; its order does not matter.
unfoldable pub score : List AgentDecision → List RecoveryCase → Score
unfolding add_scenario
score decisions [] = record {
  cases_total = 0;
  diag_correct = 0;
  strat_correct = 0;
  recovered_cases = 0;
  self_healed_cases = 0;
  unrecovered_cases = 0;
  escalated_cases = 0;
  recovered_amount_minor = 0;
  per_scenario = λ scen. record { n = 0; diag_ok = 0; strat_ok = 0; recovered = 0 };
}
score decisions (c ∷ cs) =
    let r = score decisions cs in
    record {
      cases_total = 1 + r.cases_total;
      diag_correct = one (diagnosis_ok c) + r.diag_correct;
      strat_correct = one (strategy_ok decisions c) + r.strat_correct;
      recovered_cases = one (recovered c) + r.recovered_cases;
      self_healed_cases = one (is_self_healed c.outcome) + r.self_healed_cases;
      unrecovered_cases =
          one (status_eq c.status CaseStatus.closed_unrecovered) + r.unrecovered_cases;
      escalated_cases = one (status_eq c.status CaseStatus.escalated) + r.escalated_cases;
      recovered_amount_minor =
          (if recovered c then c.recovered_amount_minor else 0) + r.recovered_amount_minor;
      per_scenario = λ scen.
          if str_eq (scenario_of c) scen
          then add_scenario decisions c (r.per_scenario scen)
          else r.per_scenario scen;
    }

one_below : (b : Bool) → one b ≤ 1
one_below true = omega arith
one_below false = omega arith

-- A case has one status.
exclusive :
    (s : CaseStatus)
    → one (status_eq s CaseStatus.recovered)
        + one (status_eq s CaseStatus.closed_unrecovered)
        + one (status_eq s CaseStatus.escalated)
      ≤ 1
exclusive CaseStatus.detected = omega arith
exclusive _ = omega arith

-- A case is SELF_HEALED only if it is RECOVERED.
abbrev pub HealsHonestly : RecoveryCase → Type 0
HealsHonestly c = is_self_healed c.outcome ≡ true → recovered c ≡ true

healed_below :
    (c : RecoveryCase) → HealsHonestly c → one (is_self_healed c.outcome) ≤ one (recovered c)
healed_below c h = elim (Bool-cases (is_self_healed c.outcome)) [
  | inl y ↦ let r = h y in rw (y, r) (omega arith)
  | inr n ↦ rw n (omega arith)
]

pub record IsConsistent (s : Score) : Type 0 where
  pub diagnoses : s.diag_correct ≤ s.cases_total
  pub strategies : s.strat_correct ≤ s.cases_total
  pub statuses : s.recovered_cases + s.unrecovered_cases + s.escalated_cases ≤ s.cases_total
  pub heals : s.self_healed_cases ≤ s.recovered_cases
  pub in_scenario :
      (scen : String)
      → ((s.per_scenario scen).recovered ≤ (s.per_scenario scen).n)
        × ((s.per_scenario scen).n ≤ s.cases_total)

-- If a case is SELF_HEALED only when it is RECOVERED, the score is consistent: no more correct diagnoses or
-- strategies than cases, no more recovered, unrecovered and escalated cases together than cases, no more
-- self-healed than recovered cases, and in each scenario no more recovered cases than cases, and no more of
-- these than in all.
pub score-IsConsistent :
    (decisions : List AgentDecision) (cases : List RecoveryCase)
    → All HealsHonestly cases
    → IsConsistent (score decisions cases)
unfolding score
score-IsConsistent decisions [] h = record {
  diagnoses = omega arith;
  strategies = omega arith;
  statuses = omega arith;
  heals = omega arith;
  in_scenario = λ scen. (omega arith, omega arith);
}
score-IsConsistent decisions (c ∷ cs) (p, h) =
    let i = score-IsConsistent decisions cs h in
    record {
      diagnoses = omega (arith, i.diagnoses, one_below (diagnosis_ok c));
      strategies = omega (arith, i.strategies, one_below (strategy_ok decisions c));
      statuses = omega (arith, i.statuses, exclusive c.status);
      heals = omega (arith, i.heals, healed_below c p);
      in_scenario = λ scen.
          let (a, b) = i.in_scenario scen in
          elim (Bool-cases (str_eq (scenario_of c) scen)) [
            | inl y ↦ rw y (omega (arith, a, one_below (recovered c)), omega (arith, b))
            | inr n ↦ rw n (a, omega (arith, b))
          ];
    }
