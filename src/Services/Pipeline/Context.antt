-- ===== src/Services/Pipeline/Context.antt =====
-- What a step of pipeline.py reads: ages, tokens, counts, the latest decision and the policy context.
use ai_revenue_recovery_agen.Prelude.{
  ℕ, ◌+◌, ◌-◌, ◌*◌, Bool, false, ◌&&◌, ◌||◌, Option, none, some, List, [], ◌∷◌, ◌==◌, if◌then◌else◌,
  count_if, get_or, map,
}
use ai_revenue_recovery_agen.Db.Enums.{ActionType, ExecutionMode, RiskBand, Actor}
use ai_revenue_recovery_agen.Db.Models.{
  RecoveryAction, RecoveryCase, AgentDecision, Customer, Detail, TruthCustomer,
}
use ai_revenue_recovery_agen.Db.Session.{Session}
use ai_revenue_recovery_agen.Domain.Diagnosis.{diagnose}
use ai_revenue_recovery_agen.Domain.Strategies.{Delay, catalog_action}
use ai_revenue_recovery_agen.Policy.Config.{PolicyConfig}
use ai_revenue_recovery_agen.Policy.Rules.{PolicyContext}
use ai_revenue_recovery_agen.Policy.Engine.{PolicyResult}
use ai_revenue_recovery_agen.Risk.Engine.{RiskInput, compute_risk, round}
use ai_revenue_recovery_agen.Agent.Decide.{CaseContext}
use ai_revenue_recovery_agen.Executors.{action_eq}
use ai_revenue_recovery_agen.Outside.{Env}
use ai_revenue_recovery_agen.Work.{Work, on_session, on_case}
use ai_revenue_recovery_agen.Services.CaseService.{log}

-- `SLA_HOURS_BY_BAND`
unfoldable pub sla_hours : RiskBand → ℕ
sla_hours RiskBand.critical = 2
sla_hours RiskBand.high = 6
sla_hours RiskBand.medium = 24
sla_hours RiskBand.low = 48

-- Every action is simulated.
unfoldable pub action_mode : RecoveryCase → ExecutionMode
action_mode case = ExecutionMode.simulated

-- `VirtualClock.advance_minutes`
unfoldable pub advance_minutes : ℕ → Work → Work
advance_minutes minutes w = record w { clock = w.clock + minutes * 60 }

-- `max(0, now - ref)`: the subtraction stops at 0.
unfoldable pub age_seconds : Work → ℕ
age_seconds w = w.clock - get_or w.payment.rzp_created_at w.payment.created_at

customer_token : Option Customer → Bool
customer_token none = false
customer_token (some c) = c.has_saved_token

truth_token : Option TruthCustomer → Option Bool
truth_token none = none
truth_token (some c) = c.has_saved_token

truth_customer : RecoveryCase → Option TruthCustomer
truth_customer c = elim c.ground_truth [ none ↦ none | some gt ↦ gt.customer ]

unfoldable pub has_token : RecoveryCase → Option Customer → Bool
unfolding customer_token truth_token truth_customer
has_token case customer = get_or (truth_token (truth_customer case)) (customer_token customer)

-- The rows that `_notify_count` counts.
abbrev pub is_contact_of : ℕ → RecoveryAction → Bool
is_contact_of case_id a =
    a.case_id == case_id
    && (action_eq a.action_type ActionType.send_recovery_link
        || action_eq a.action_type ActionType.notify_customer)

unfoldable pub notify_count : ℕ → List RecoveryAction → ℕ
notify_count case_id actions = count_if (is_contact_of case_id) actions

-- The case of an action belongs to the merchant.
abbrev of_merchant : ℕ → List RecoveryCase → RecoveryAction → Bool
of_merchant merchant_id [] a = false
of_merchant merchant_id (c ∷ cs) a =
    c.id == a.case_id && c.merchant_id == merchant_id || of_merchant merchant_id cs a

unfoldable pub retry_actions_used : ℕ → Session → ℕ
retry_actions_used merchant_id s =
    count_if
      (λ (a : RecoveryAction).
        action_eq a.action_type ActionType.retry_charge && of_merchant merchant_id s.cases a)
      s.actions

-- The newest decision of the case.
unfoldable pub latest_decision : ℕ → List AgentDecision → Option AgentDecision
latest_decision case_id [] = none
latest_decision case_id (d ∷ ds) =
    let older = latest_decision case_id ds in if d.case_id == case_id then some d else older

unfoldable pub case_context : Work → CaseContext
case_context w = record {
  age_seconds = age_seconds w;
  downtime_active = false;
  notify_count = notify_count w.case.id w.session.actions;
  has_token = has_token w.case w.customer;
}

-- The customer's numbers, 0 where there is no customer.
customer_number : (Customer → ℕ) → Option Customer → ℕ
customer_number f none = 0
customer_number f (some c) = f c

risk_input : Work → RiskInput
unfolding customer_number
risk_input w = record {
  amount_minor = w.payment.amount_minor;
  diagnosis =
      get_or w.case.diagnosis_class
        (diagnose w.payment.error_reason w.payment.error_code w.payment.error_source).0;
  lifetime_value_minor = customer_number (λ c. c.lifetime_value_minor) w.customer;
  tenure_days = customer_number (λ c. c.tenure_days) w.customer;
  prior_recoveries_90d = customer_number (λ c. c.prior_recoveries_90d) w.customer;
  retry_count = w.case.retry_count;
  age_seconds = age_seconds w;
}

-- `round(v, 2)` of a component, as a number of hundredths of a point.
abbrev hundredths : ℕ → ℕ
hundredths v = round (v * 100)

-- `_risk_enrich`; the log gets the components rounded to two decimals.
unfoldable pub risk_enrich : Env → Work → Work
unfolding risk_input
risk_enrich env w =
    let (score, band, comps) = compute_risk env.log_ratio (risk_input w) in
    log env Actor.system "RISK_SCORED"
      (Detail.risk_scored score band (
        map hundredths (
          comps.amount ∷ comps.reversibility ∷ comps.customer_value ∷ comps.retry_history
          ∷ comps.time_sensitivity ∷ [])))
      (on_case
        (λ c. record c {
          risk_score = some score;
          risk_band = some band;
          sla_deadline_at = some (w.clock + sla_hours band * 3600);
        })
        w)

-- `_persist_policy_decision` for a decision that is there.
unfoldable pub persist_policy_decision : Env → AgentDecision → PolicyResult → Work → Work
persist_policy_decision env decision result w =
    log env Actor.policy "POLICY_EVALUATED"
      (Detail.policy_evaluated result.verdict result.triggered_rule_id)
      (on_session
        (λ s. record s {
          next_id = s.next_id + 1;
          policy_decisions =
              record {
                id = s.next_id;
                case_id = w.case.id;
                decision_id = some decision.id;
                proposed_action = catalog_action decision.strategy_id;
                verdict = result.verdict;
                rule_results = result.rule_results;
                triggered = result.triggered_rule_id;
                config_snapshot = result.config_snapshot;
              }
              ∷ s.policy_decisions;
        })
        w)

-- The delay that P13 can compare.
abbrev whole_minutes : Option Delay → Option ℕ
whole_minutes (some (Delay.whole m)) = some m
whole_minutes _ = none

-- `_build_policy_ctx`; a strategy without an action is checked as an escalation.
unfoldable pub build_policy_ctx : AgentDecision → PolicyConfig → ℕ → ℕ → Work → PolicyContext
build_policy_ctx decision cfg contact_count budget_used w = record {
  case_status = w.case.status;
  payment_status = w.payment.status;
  captured_for_order = false;
  amount_minor = w.payment.amount_minor;
  retry_count = w.case.retry_count;
  last_attempt_at = w.case.last_attempt_at;
  diagnosis_class = w.case.diagnosis_class;
  diagnosis_confidence = decision.diagnosis_confidence;
  strategy_confidence = decision.strategy_confidence;
  contact_count_7d = contact_count;
  downtime_active = false;
  age_seconds = age_seconds w;
  simulation_budget_remaining = cfg.simulation_budget - budget_used;
  proposed_action = get_or (catalog_action decision.strategy_id) ActionType.create_escalation;
  proposed_delay_minutes = whole_minutes decision.params.delay_minutes;
  link_amount_minor = none;
  channel = none;
  existing_action = false;
  config = cfg;
  now = w.clock;
}
