-- ===== src/Services/Pipeline/Step.antt =====
-- `_step` of pipeline.py, one action for each status. A step answers False when the case cannot go on
-- now.
pub mod Stable
pub mod Effects
pub mod Gate
pub mod Total
pub mod Returns
pub mod Gauge
pub mod Budget
pub mod Retries
pub mod Contacts
use ai_revenue_recovery_agen.Prelude.{
  ℕ, ◌+◌, ◌*◌, ◌^◌, ◌<◌, max, Bool, true, false, ◌&&◌, ◌||◌, not, Option, none, some, List, [], ◌∷◌,
  String, ltb, leb, if◌then◌else◌, get_or, take,
}
use ai_revenue_recovery_agen.Result.{Error, err}
use ai_revenue_recovery_agen.Format.{Reason, text, num, plain}
use ai_revenue_recovery_agen.Db.Enums.{
  CaseStatus, DiagnosisClass, DecisionOrigin, PolicyVerdict, PaymentStatus, ActionStatus,
  ExecutionMode, Actor,
}
use ai_revenue_recovery_agen.Db.Models.{AgentDecision, RecoveryAction}
use ai_revenue_recovery_agen.Domain.Strategies
use ai_revenue_recovery_agen.Domain.Strategies.{StrategyId, Delay}
use ai_revenue_recovery_agen.Policy.Rules.{RuleId, PolicyContext, RuleHit, is_captured, rule_order}
use ai_revenue_recovery_agen.Policy.Engine.{PolicyResult, evaluate}
use ai_revenue_recovery_agen.Outside.{Env}
use ai_revenue_recovery_agen.Work.{Work, Action, pure, gets, modify, run, on_case, ◌>>=◌, ◌>>◌}
use ai_revenue_recovery_agen.Services.CaseService.{transition}
use ai_revenue_recovery_agen.Verification.{record_capture, close_unrecovered}
use ai_revenue_recovery_agen.Executors.{ExecutorDeps, execute_for_strategy, is_instrument_invalid}
use ai_revenue_recovery_agen.Agent.Decide.{decide_and_persist}
use ai_revenue_recovery_agen.Services.Pipeline.Context.{
  advance_minutes, notify_count, retry_actions_used, latest_decision, case_context, risk_enrich,
  persist_policy_decision, build_policy_ctx,
}
use ai_revenue_recovery_agen.Services.Pipeline.Escalation.{
  ensure_escalation, force_escalation_decision, expire_open_escalations,
}

-- The text of a rule id.
rule_text : RuleId → String
rule_text RuleId.p01 = "P01"
rule_text RuleId.p02 = "P02"
rule_text RuleId.p03 = "P03"
rule_text RuleId.p04 = "P04"
rule_text RuleId.p05 = "P05"
rule_text RuleId.p06 = "P06"
rule_text RuleId.p07 = "P07"
rule_text RuleId.p08 = "P08"
rule_text RuleId.p09 = "P09"
rule_text RuleId.p10 = "P10"
rule_text RuleId.p11 = "P11"
rule_text RuleId.p12 = "P12"
rule_text RuleId.p13 = "P13"
rule_text RuleId.p14 = "P14"

rule_or : Option RuleId → String → String
unfolding rule_text
rule_or none t = t
rule_or (some r) t = rule_text r

abbrev pub is_llm : DecisionOrigin → Bool
is_llm DecisionOrigin.llm = true
is_llm DecisionOrigin.fallback = false

abbrev pub action_failed : Option RecoveryAction → Bool
action_failed none = false
action_failed (some a) = elim a.status [ ActionStatus.failed ↦ true | _ ↦ false ]

abbrev error_or : Option RecoveryAction → String → String
error_or none t = t
error_or (some a) t = get_or a.error t

-- `case.last_attempt_at = clock.now()`
unfoldable pub stamp_attempt : Work → Work
stamp_attempt w = on_case (λ c. record c { last_attempt_at = some w.clock }) w

-- Every one of the rules passes.
abbrev pub passes_all : PolicyContext → List (RuleId × (PolicyContext → RuleHit)) → Bool
passes_all ctx [] = true
passes_all ctx ((r, fn) ∷ rules) = (fn ctx).passed && passes_all ctx rules

-- A value that is no number stands under "delay_minutes".
abbrev pub is_incomparable : Option Delay → Bool
is_incomparable (some Delay.incomparable) = true
is_incomparable _ = false

module _ (env : Env) (deps : ExecutorDeps) where
  -- A new decision in the present situation.
  unfoldable pub decide : Work → Work
  decide w = (decide_and_persist env (case_context w) deps.cfg w.case.retry_count w).1

  pub step_detected : Action Bool
  step_detected = do
    transition env CaseStatus.analyzing Actor.system (plain "worker claimed")
    modify (risk_enrich env)
    pure true

  pub step_analyzing : Action Bool
  unfolding decide
  step_analyzing = do modify decide; transition env CaseStatus.diagnosed Actor.system []; pure true

  -- A retry already ran: decide again.
  redecide : Work → Work
  unfolding decide
  redecide w = if ltb 0 w.case.retry_count then decide w else w

  pub step_diagnosed : Action Bool
  unfolding redecide
  step_diagnosed = do modify redecide; transition env CaseStatus.planned Actor.system []; pure true

  step_planned : Action Bool
  step_planned = do transition env CaseStatus.policy_check Actor.system []; pure true

  -- BLOCK: another decision if the model made this one, else the end.
  blocked : Bool → Option RuleId → Action Bool
  unfolding decide rule_or
  blocked true rule = do
    modify decide
    transition env CaseStatus.planned Actor.policy
        (text "blocked by " ∷ text (rule_or rule "None") ∷ text "; fallback" ∷ [])
    pure true
  blocked false rule = do
    transition env CaseStatus.blocked Actor.policy
        (text "blocked by " ∷ text (rule_or rule "None") ∷ [])
    pure true

  -- WAIT: in batch mode the clock is advanced past the cooldown.
  waiting : Bool → Action Bool
  waiting false w = pure false w
  waiting true w =
      let cd = deps.cfg.cooldown_base_min * 2 ^ w.case.retry_count in
      (do
        modify (advance_minutes (max cd 1))
        transition env CaseStatus.planned Actor.policy
            (text "wait; fast-forwarded " ∷ num cd ∷ text "m" ∷ [])
        pure true)
        w

  -- The branches on the verdict.
  pub by_verdict : PolicyVerdict → Option RuleId → Bool → Action Bool
  unfolding blocked waiting rule_or
  by_verdict PolicyVerdict.allow rule from_llm = do
    transition env CaseStatus.approved Actor.policy []
    pure true
  by_verdict PolicyVerdict.escalate rule from_llm = do
    modify (
        ensure_escalation env (text "policy escalate: " ∷ text (rule_or rule "None") ∷ []) deps.cfg)
    transition env CaseStatus.awaiting_approval Actor.policy (text (rule_or rule "") ∷ [])
    pure true
  by_verdict PolicyVerdict.wait rule from_llm = waiting deps.fast_forward
  by_verdict PolicyVerdict.block rule from_llm = blocked from_llm rule

  pub policy_result : AgentDecision → Work → PolicyResult
  policy_result decision w = evaluate (
      build_policy_ctx decision deps.cfg (notify_count w.case.id w.session.actions)
        (retry_actions_used w.case.merchant_id w.session) w)

  pub by_gate : AgentDecision → Action Bool
  unfolding by_verdict policy_result
  by_gate decision w =
      let result = policy_result decision w in
      by_verdict result.verdict result.triggered_rule_id (is_llm decision.origin)
        (persist_policy_decision env decision result w)

  -- The rules before P13 pass, so `evaluate` comes to P13.
  pub reaches_p13 : AgentDecision → Work → Bool
  reaches_p13 decision w =
      let ctx =
        build_policy_ctx decision deps.cfg (notify_count w.case.id w.session.actions)
          (retry_actions_used w.case.merchant_id w.session) w in
      passes_all ctx (take 12 rule_order)

  -- P13 compares the delay with 15 and raises where it is no number.
  pub p13_raises : AgentDecision → Work → Bool
  unfolding reaches_p13
  p13_raises decision w = is_incomparable decision.params.delay_minutes && reaches_p13 decision w

  -- A case with no decision raises: the source reads `decision.strategy_id`.
  pub check_policy : Option AgentDecision → Action Bool
  unfolding by_gate p13_raises
  check_policy none w = err Error.missing_decision
  check_policy (some decision) w =
      if p13_raises decision w then err Error.type_error else by_gate decision w

  pub step_policy_check : Action Bool
  unfolding check_policy
  step_policy_check w = check_policy (latest_decision w.case.id w.session.decisions) w

  -- After an executor with a side effect: failure, capture, or on to the verifier.
  after_execution : Option RecoveryAction → Action Bool
  after_execution action w =
      if action_failed action
      then (do
        transition env CaseStatus.failed Actor.executor (plain (error_or action "execution failed"))
        pure true)
          w
      else if is_captured w.payment.status
      then pure true w
      else (do
        modify stamp_attempt
        transition env CaseStatus.verifying Actor.executor []
        pure true)
          w

  pub await_human : Action Bool
  await_human = do
    transition env CaseStatus.awaiting_approval Actor.executor
        (plain "escalation created; awaiting human")
    pure true

  pub after_strategy : StrategyId → Option RecoveryAction → Action Bool
  unfolding after_execution await_human
  after_strategy StrategyId.s5_human_escalation action = await_human
  after_strategy StrategyId.s6_stop_recovery action = do
    transition env CaseStatus.verifying Actor.executor (plain "no-op strategy")
    pure true
  after_strategy _ action = after_execution action

  pub execute_decision : Option AgentDecision → Action Bool
  unfolding after_strategy await_human
  execute_decision none = await_human
  execute_decision (some decision) = do
    action ← execute_for_strategy env decision deps
    after_strategy decision.strategy_id action

  pub step_approved : Action Bool
  unfolding execute_decision
  step_approved w =
      (do
        transition env CaseStatus.executing Actor.executor []
        execute_decision (latest_decision w.case.id w.session.decisions))
        w

  step_executing : Action Bool
  step_executing = do transition env CaseStatus.verifying Actor.executor []; pure true

  abbrev is_stop : Option AgentDecision → Bool
  is_stop none = false
  is_stop (some d) = elim d.strategy_id [ StrategyId.s6_stop_recovery ↦ true | _ ↦ false ]

  -- The attempt was not captured: wait for the cooldown and go round the ladder again.
  reenter : Bool → Action Bool
  reenter false w = pure false w
  reenter true w =
      (do
        modify (advance_minutes (Strategies.cooldown_minutes w.case.retry_count))
        transition env CaseStatus.diagnosed Actor.system (plain "attempt not captured; re-diagnose")
        pure true)
        w

  override : Action Bool
  override = do
    modify (force_escalation_decision env "contact cap reached; ladder escalates to human")
    transition env CaseStatus.diagnosed Actor.system (plain "ladder re-entry")
    pure true

  close : String → Action Bool
  close reason = do close_unrecovered env (plain reason); pure true

  -- The terminations of the ladder, in order.
  ladder : Work → Action Bool
  unfolding reenter override close
  ladder w =
      let contacts = notify_count w.case.id w.session.actions in
      if is_stop (latest_decision w.case.id w.session.decisions)
      then close "S6 stop: no further recovery value"
      else if is_instrument_invalid w.case.diagnosis_class && ltb 0 contacts
      then close "invalid instrument; customer notified once (S4->S6)"
      else if leb deps.cfg.contact_cap_7d contacts
      then override
      else reenter deps.fast_forward

  step_verifying : Action Bool
  unfolding ladder
  step_verifying w =
      if is_captured w.payment.status
      then (do record_capture env none ExecutionMode.simulated "verifier_poll"; pure true) w
      else ladder w w

  pub approval_window : Bool → Action Bool
  approval_window false = pure false
  approval_window true = do
    modify (advance_minutes (48 * 60))
    transition env CaseStatus.escalated Actor.human (plain "approval window elapsed (batch)")
    modify (expire_open_escalations env)
    pure true

  pub by_status : CaseStatus → Action Bool
  unfolding approval_window
  by_status CaseStatus.detected = step_detected
  by_status CaseStatus.analyzing = step_analyzing
  by_status CaseStatus.diagnosed = step_diagnosed
  by_status CaseStatus.planned = step_planned
  by_status CaseStatus.policy_check = step_policy_check
  by_status CaseStatus.approved = step_approved
  by_status CaseStatus.executing = step_executing
  by_status CaseStatus.verifying = step_verifying
  by_status CaseStatus.awaiting_approval = approval_window deps.fast_forward
  by_status _ = pure false

  pub step : Action Bool
  unfolding by_status
  step w = by_status w.case.status w
