-- ===== src/Tests.antt =====
-- Each theorem with a hypothesis at a concrete input.
pub mod Samples
pub mod Intake
pub mod Evaluation
pub mod Evidence
use ai_revenue_recovery_agen.Prelude.{
  ◌+◌, ◌*◌, ◌≤◌, max, ◌≡◌, refl, ◌≢◌, ◌↔◌, ◌⊎◌, Bool, true, false, not, none, some, [], ◌∷◌, All,
  arith, count_if, count_if_hit,
}
use ai_revenue_recovery_agen.Result.{Error, ok, err}
use ai_revenue_recovery_agen.Format.{plain}
use ai_revenue_recovery_agen.Db.Enums.{
  CaseStatus, PaymentStatus, DiagnosisClass, ActionType, ExecutionMode, ActionStatus,
  DecisionOrigin, EscalationReasonCode, EscalationStatus, PolicyVerdict, Actor,
  in_active_case_statuses, in_terminal_case_statuses,
}
use ai_revenue_recovery_agen.Db.Models.{
  Payment, RecoveryCase, AgentDecision, RecoveryAction, Escalation, Detail,
}
use ai_revenue_recovery_agen.Db.Session.{Session, empty_session}
use ai_revenue_recovery_agen.Domain.Fsm.{assert_transition, in_non_terminal, is_terminal, is_active}
use ai_revenue_recovery_agen.Domain.Fsm.Graph.{
  Meets, terminal_immutable, executing_needs_policy_check,
}
use ai_revenue_recovery_agen.Domain.Diagnosis.{
  diagnose, diagnose_lem, prior, reason_map, base_confidence_reason, base_confidence_code,
  base_confidence_unknown,
}
use ai_revenue_recovery_agen.Domain.Strategies
use ai_revenue_recovery_agen.Domain.Strategies.{
  StrategyId, Situation, no_params, catalog_action, select_strategy,
}
use ai_revenue_recovery_agen.Domain.Strategies.Safety.{
  IsOver, NeedsHuman, IsRetryable, HasTableDelay, stop_iff, escalate_iff, retry_safe,
  cooldown_minutes-bounds,
}
use ai_revenue_recovery_agen.Policy.Config.{default_policy_config, no_overrides, from_dict, to_dict}
use ai_revenue_recovery_agen.Policy.Rules
use ai_revenue_recovery_agen.Policy.Rules.{PolicyContext, p04_cooldown, rule_order}
use ai_revenue_recovery_agen.Policy.Rules.Bounds.{cooldown_elapses}
use ai_revenue_recovery_agen.Policy.Engine.{evaluate}
use ai_revenue_recovery_agen.Policy.Engine.Trace.{first_failing, due, evaluate_trace}
use ai_revenue_recovery_agen.Policy.Engine.Gate.{Permitted, allow_iff}
use ai_revenue_recovery_agen.Risk.Engine.{RiskInput, round, raw_score, compute_risk}
use ai_revenue_recovery_agen.Risk.Engine.Bounds.{IsBand, compute_risk_lem, compute_risk_antitone}
use ai_revenue_recovery_agen.Outside.{Env}
use ai_revenue_recovery_agen.Work.{Work}
use ai_revenue_recovery_agen.Work.Keeps.{Post}
use ai_revenue_recovery_agen.Services.Audit.{append_event, validate_chain}
use ai_revenue_recovery_agen.Services.Audit.Chain.{append_event-valid}
use ai_revenue_recovery_agen.Integrations.Simulated.{latent, latent_once}
use ai_revenue_recovery_agen.Executors.{ExecutorDeps, same_kind, new_action}
use ai_revenue_recovery_agen.Executors.Rows.{Numbered, inserted, new_action-Numbered}
use ai_revenue_recovery_agen.Agent.Decide.{CaseContext, draft, fallback_decision, max_llm_attempts}
use ai_revenue_recovery_agen.Agent.Decide.Laws.{AllRefused, Answered, draft_lem}
use ai_revenue_recovery_agen.Services.Pipeline.Escalation.Expiry.{IsSettled}
use ai_revenue_recovery_agen.Services.Pipeline.Context.{latest_decision}
use ai_revenue_recovery_agen.Services.Pipeline.Step.{step}
use ai_revenue_recovery_agen.Services.Pipeline.Step.Returns.{step-Returns}
use ai_revenue_recovery_agen.Services.Pipeline.Step.Gate.{IsApproved, Passed, step-IsApproved}
use ai_revenue_recovery_agen.Services.Pipeline.Advance.{advance_case}
use ai_revenue_recovery_agen.Services.Pipeline.Advance.Walks.{Walks, advance_case-Walks}
use ai_revenue_recovery_agen.Services.Pipeline.Advance.Money.{Stays, advance_case-Honest}
use ai_revenue_recovery_agen.Services.Pipeline.Step.Budget.{Budgeted}
use ai_revenue_recovery_agen.Services.Pipeline.Context.{notify_count}
use ai_revenue_recovery_agen.Services.Pipeline.Step.Stable.{charging, contacting}
use ai_revenue_recovery_agen.Services.Pipeline.Advance.Budget.{
  advance_case_retries, advance_case_contacts,
}
use ai_revenue_recovery_agen.Services.Pipeline.Advance.Chain.{Kept, advance_case-validate_chain}
use ai_revenue_recovery_agen.Services.Pipeline.Advance.Ends.{
  Over, advance_case-is_terminal, advance_case_parked, advance_case_window,
}
use ai_revenue_recovery_agen.Tests.Samples.{
  payment, case_at, decision, action, escalation, session, work_at, env, deps, situation, ctx, risk,
  case_context,
}

valid_session : validate_chain env 2 session ≡ true
unfolding validate_chain
valid_session = refl

numbered : 1 ≤ count_if (same_kind 2 ActionType.retry_charge) (action ∷ [])
numbered = rw (count_if_hit (same_kind 2 ActionType.retry_charge) action [] refl) (omega arith)

step-IsApproved_example :
    Post
      (λ v. IsApproved v → Passed env (deps true) (work_at CaseStatus.policy_check))
      (step env (deps true) (work_at CaseStatus.policy_check))
step-IsApproved_example = step-IsApproved env (deps true) (work_at CaseStatus.policy_check) refl

allow_iff_example : ((evaluate ctx).verdict ≡ PolicyVerdict.allow) ↔ Permitted ctx
allow_iff_example = allow_iff ctx

advance_case-Walks_example :
    Post
      (Walks (work_at CaseStatus.policy_check))
      (advance_case env (deps true) (work_at CaseStatus.policy_check))
    × Post
        (Walks (work_at CaseStatus.policy_check))
        (step env (deps true) (work_at CaseStatus.policy_check))
advance_case-Walks_example = advance_case-Walks env (deps true) (work_at CaseStatus.policy_check)

advance_case-Honest_example :
    Post
      (Stays (work_at CaseStatus.detected))
      (advance_case env (deps true) (work_at CaseStatus.detected))
advance_case-Honest_example = advance_case-Honest env (deps true) (work_at CaseStatus.detected)

-- The case waits for a charge, and has two of three retries behind it.
abbrev retried_work : Work
retried_work =
    let w = work_at CaseStatus.approved in record w { case = record w.case { retry_count = 2 } }

advance_case_retries_example :
    Post (λ v. Budgeted v.case.retry_count 3 charging v) (advance_case env (deps true) retried_work)
advance_case_retries_example =
    advance_case_retries env (deps true) retried_work (omega arith, λ a y. omega arith)

advance_case_contacts_example :
    Post
      (λ v. Budgeted (notify_count v.case.id v.session.actions) 3 contacting v)
      (advance_case env (deps true) (work_at CaseStatus.approved))
unfolding notify_count count_if
advance_case_contacts_example =
    advance_case_contacts env (deps true) (work_at CaseStatus.approved)
      (omega arith, λ a y. omega arith)

advance_case-is_terminal_example :
    Post Over (advance_case env (deps true) (work_at CaseStatus.detected))
advance_case-is_terminal_example =
    advance_case-is_terminal env (deps true) (work_at CaseStatus.detected)

advance_case-validate_chain_example :
    Post
      (Kept 2 env (work_at CaseStatus.detected))
      (advance_case env (deps true) (work_at CaseStatus.detected))
advance_case-validate_chain_example =
    advance_case-validate_chain 2 env (deps true) (work_at CaseStatus.detected)

advance_case_window_example :
    (v : Work) × (advance_case env (deps true) (work_at CaseStatus.awaiting_approval) ≡ ok (tt, v))
    × (v.case.status ≡ CaseStatus.escalated)
    × (v.clock ≡ 4600 + 48 * 3600)
    × All (IsSettled v.case.id) v.session.escalations
advance_case_window_example =
    advance_case_window env (deps true) (work_at CaseStatus.awaiting_approval) refl refl

advance_case_parked_example :
    advance_case env (deps false) (work_at CaseStatus.awaiting_approval)
    ≡ err (Error.illegal_transition CaseStatus.awaiting_approval CaseStatus.closed_unrecovered)
advance_case_parked_example =
    advance_case_parked env (deps false) (work_at CaseStatus.awaiting_approval) refl refl

draft_lem_example :
    ((draft env case_context default_policy_config 0 (work_at CaseStatus.analyzing)
        ≡ fallback_decision payment case_context default_policy_config 0)
      × ((false ≡ false) ⊎ AllRefused env 10 payment 0 max_llm_attempts))
    ⊎ ((false ≡ true)
        × Answered env 10 payment 0 max_llm_attempts
            (draft env case_context default_policy_config 0 (work_at CaseStatus.analyzing)))
draft_lem_example =
    draft_lem env case_context default_policy_config 0 (work_at CaseStatus.analyzing)

evaluate_trace_example :
    ((evaluate ctx).triggered_rule_id ≡ first_failing ctx rule_order)
    × ((evaluate ctx).rule_results ≡ due ctx false rule_order)
evaluate_trace_example = evaluate_trace ctx

terminal_immutable_example :
    (is_terminal CaseStatus.blocked ≡ true
      → assert_transition CaseStatus.blocked CaseStatus.planned ≡ ok tt
      → CaseStatus.planned ≡ CaseStatus.blocked)
    × (is_active CaseStatus.blocked ≡ not (is_terminal CaseStatus.blocked))
    × (in_non_terminal CaseStatus.blocked ≡ is_active CaseStatus.blocked)
    × (in_active_case_statuses CaseStatus.blocked ≡ is_active CaseStatus.blocked)
    × (in_terminal_case_statuses CaseStatus.blocked ≡ is_terminal CaseStatus.blocked)
terminal_immutable_example = terminal_immutable CaseStatus.blocked CaseStatus.planned

retry_safe_example :
    ((catalog_action (select_strategy (situation DiagnosisClass.network_infra true)).strategy_id
        ≡ some ActionType.retry_charge)
      ↔ ((¬ IsOver (situation DiagnosisClass.network_infra true))
          × (¬ NeedsHuman (situation DiagnosisClass.network_infra true))
          × IsRetryable (situation DiagnosisClass.network_infra true)))
    × HasTableDelay (situation DiagnosisClass.network_infra true)
retry_safe_example = retry_safe (situation DiagnosisClass.network_infra true)

compute_risk_lem_example :
    let (score, band, comps) = compute_risk env.log_ratio risk in
    (score ≡ round (raw_score comps)) × (score ≤ 100) × IsBand score band
compute_risk_lem_example = compute_risk_lem env.log_ratio risk

executing_needs_policy_check_example : Meets CaseStatus.policy_check (
    CaseStatus.analyzing ∷ CaseStatus.diagnosed ∷ CaseStatus.planned ∷ CaseStatus.policy_check
    ∷ CaseStatus.approved ∷ CaseStatus.executing ∷ [])
unfolding assert_transition
executing_needs_policy_check_example =
    executing_needs_policy_check
      (CaseStatus.analyzing ∷ CaseStatus.diagnosed ∷ CaseStatus.planned ∷ CaseStatus.policy_check
        ∷ CaseStatus.approved ∷ CaseStatus.executing ∷ [])
      (refl, (refl, (refl, (refl, (refl, (refl, tt)))))) refl

step-Returns_example :
    (moved : Bool) × (v : Work) × (step env (deps true) (work_at CaseStatus.policy_check)
      ≡ ok (moved, v))
unfolding latest_decision
step-Returns_example =
    step-Returns env (deps true) (work_at CaseStatus.policy_check) refl (λ h e. grind arith)
