-- ===== src/Services/Pipeline/Step/Effects.antt =====
-- A relation that every elementary effect of the pipeline keeps is kept by every step. The relations
-- of the other modules are instances.
use ai_revenue_recovery_agen.Prelude.{
  ◌≡◌, refl, Bool, true, false, Option, none, some, [], String, ltb, if◌then◌else◌,
}
use ai_revenue_recovery_agen.Result.{Error}
use ai_revenue_recovery_agen.Format.{Reason}
use ai_revenue_recovery_agen.Db.Enums.{CaseStatus, ActionType, Actor, status_eq, PolicyVerdict}
use ai_revenue_recovery_agen.Db.Models.{AgentDecision, RecoveryAction}
use ai_revenue_recovery_agen.Domain.Strategies.{StrategyId}
use ai_revenue_recovery_agen.Policy.Rules.{RuleId, is_captured}
use ai_revenue_recovery_agen.Outside.{Env}
use ai_revenue_recovery_agen.Work.{Work, Action, pure, modify, ◌>>=◌, ◌>>◌}
use ai_revenue_recovery_agen.Work.Keeps.{
  Post-unless, Keeps, Keeps-bind, Keeps-pure, Keeps-modify, Keeps-run, Keeps-if,
}
use ai_revenue_recovery_agen.Services.CaseService.{transition}
use ai_revenue_recovery_agen.Executors.{ExecutorDeps, execute_for_strategy, dispatch}
use ai_revenue_recovery_agen.Services.Pipeline.Context.{persist_policy_decision}
use ai_revenue_recovery_agen.Services.Pipeline.Step.{
  is_llm, policy_result, decide, redecide, action_failed, step_detected, step_analyzing,
  step_diagnosed, step_planned, blocked, waiting, by_verdict, check_policy, step_policy_check,
  by_gate, p13_raises, after_execution, await_human, after_strategy, execute_decision,
  step_approved, step_executing, reenter, override, close, ladder, step_verifying, approval_window,
  by_status, step,
}
use ai_revenue_recovery_agen.Services.Pipeline.Step.Stable.{Quiet, Stable, quiet, dispatch-Keeps}

module _ {env : Env} {deps : ExecutorDeps} {R : Work → Work → Type 0} (s : Quiet env deps R) where
  bind :
      {A B : Type 0} (m : Action A) (f : A → Action B)
      → Keeps R m
      → ((a : A) → Keeps R (f a))
      → Keeps R (m >>= f)
  bind = Keeps-bind s.order

  ret : {A : Type 0} (a : A) → Keeps R (pure a)
  ret = Keeps-pure s.order

  -- A transition to another status than RECOVERED and APPROVED, with the answer True behind it.
  go :
      (to : CaseStatus) (actor : Actor) (reason : Reason)
      → status_eq to CaseStatus.recovered ≡ false
      → status_eq to CaseStatus.approved ≡ false
      → Keeps R (do transition env to actor reason; pure true)
  go to actor reason h n = bind _ _ (s.moves to actor reason h n) λ _. ret true

  -- The same after a change of the work.
  then_go :
      (f : Work → Work) (to : CaseStatus) (actor : Actor) (reason : Reason)
      → ((w : Work) → R w (f w))
      → status_eq to CaseStatus.recovered ≡ false
      → status_eq to CaseStatus.approved ≡ false
      → Keeps R (do modify f; transition env to actor reason; pure true)
  then_go f to actor reason r h n = bind _ _ (Keeps-modify f r) λ _. go to actor reason h n

  detected-Keeps : Keeps R (step_detected env deps)
  unfolding step_detected
  detected-Keeps =
      bind _ _ (s.moves CaseStatus.analyzing _ _ refl refl)
        λ _. bind _ _ (Keeps-modify _ s.enriches) λ _. ret true

  analyzing-Keeps : Keeps R (step_analyzing env deps)
  unfolding step_analyzing
  analyzing-Keeps = then_go _ CaseStatus.diagnosed _ _ s.decides refl refl

  unless : (b : Bool) (w v : Work) → R w v → R w (if b then v else w)
  unless true w v h = h
  unless false w v h = s.order.stays w

  redecides : (w : Work) → R w (redecide env deps w)
  unfolding redecide
  redecides w = unless (ltb 0 w.case.retry_count) w (decide env deps w) (s.decides w)

  diagnosed-Keeps : Keeps R (step_diagnosed env deps)
  unfolding step_diagnosed
  diagnosed-Keeps = then_go _ CaseStatus.planned _ _ redecides refl refl

  blocked-Keeps : (b : Bool) (rule : Option RuleId) → Keeps R (blocked env deps b rule)
  unfolding blocked
  blocked-Keeps true rule = then_go _ CaseStatus.planned _ _ s.decides refl refl
  blocked-Keeps false rule = go CaseStatus.blocked _ _ refl refl

  waiting-Keeps : (b : Bool) → Keeps R (waiting env deps b)
  unfolding waiting
  waiting-Keeps true = record {
    at = λ w. (then_go _ CaseStatus.planned _ _ (s.ticks _) refl refl).at w;
  }
  waiting-Keeps false = record { at = (ret false).at }

  -- The transition of an ALLOW verdict.
  abbrev Approves : Type 0
  Approves = Keeps R (transition env CaseStatus.approved Actor.policy [])

  pub by_verdict-Keeps :
      (v : PolicyVerdict) (rule : Option RuleId) (b : Bool)
      → (v ≡ PolicyVerdict.allow → Approves)
      → Keeps R (by_verdict env deps v rule b)
  unfolding by_verdict
  by_verdict-Keeps PolicyVerdict.allow rule b a = bind _ _ (a refl) λ _. ret true
  by_verdict-Keeps PolicyVerdict.escalate rule b a =
      then_go _ CaseStatus.awaiting_approval _ _ (s.parks _) refl refl
  by_verdict-Keeps PolicyVerdict.wait rule b a = waiting-Keeps deps.fast_forward
  by_verdict-Keeps PolicyVerdict.block rule b a = blocked-Keeps b rule

  by_gate-Keeps : (d : AgentDecision) → Approves → Keeps R (by_gate env deps d)
  unfolding by_gate ◌>>=◌
  by_gate-Keeps d a = record {
    at = λ w.
        (bind (modify (persist_policy_decision env d (policy_result env deps d w)))
            (λ _.
              by_verdict env deps (policy_result env deps d w).verdict
                (policy_result env deps d w).triggered_rule_id (is_llm d.origin))
            (Keeps-modify _ (s.gates d (policy_result env deps d w)))
            (λ _. by_verdict-Keeps _ _ _ (λ _. a))).at
          w;
  }

  check_policy-Keeps : (d : Option AgentDecision) → Approves → Keeps R (check_policy env deps d)
  unfolding check_policy
  check_policy-Keeps none a = record { at = λ w. tt }
  check_policy-Keeps (some d) a = record {
    at = λ w.
        Post-unless (R w) (p13_raises env deps d w) Error.type_error _ ((by_gate-Keeps d a).at w);
  }

  after_execution-Keeps : (a : Option RecoveryAction) → Keeps R (after_execution env deps a)
  unfolding after_execution
  after_execution-Keeps a = record {
    at = λ w.
        Keeps-if (action_failed a) _ (λ v. if is_captured v.payment.status then _ else _) w
          (go CaseStatus.failed _ _ refl refl)
          (record {
            at = λ v.
                Keeps-if (is_captured v.payment.status) _ _ v (ret true)
                  (then_go _ CaseStatus.verifying _ _ s.stamps refl refl);
          });
  }

  pub await_human-Keeps : Keeps R (await_human env deps)
  unfolding await_human
  await_human-Keeps = go CaseStatus.awaiting_approval _ _ refl refl

  pub after_strategy-Keeps :
      (id : StrategyId) (a : Option RecoveryAction) → Keeps R (after_strategy env deps id a)
  unfolding after_strategy
  after_strategy-Keeps StrategyId.s5_human_escalation a = await_human-Keeps
  after_strategy-Keeps StrategyId.s6_stop_recovery a = go CaseStatus.verifying _ _ refl refl
  after_strategy-Keeps _ a = after_execution-Keeps a

  -- A dispatch of the strategy of a decision.
  abbrev pub Dispatches : Option AgentDecision → Type 0
  Dispatches none = Unit
  Dispatches (some d) = Keeps R (dispatch env d.strategy_id deps d.rationale)

  pub execute_decision-Keeps :
      (d : Option AgentDecision) → Dispatches d → Keeps R (execute_decision env deps d)
  unfolding execute_decision execute_for_strategy
  execute_decision-Keeps none c = await_human-Keeps
  execute_decision-Keeps (some d) c = bind _ _ c (after_strategy-Keeps d.strategy_id)

  approved-Keeps : ((d : Option AgentDecision) → Dispatches d) → Keeps R (step_approved env deps)
  unfolding step_approved
  approved-Keeps c = record {
    at = λ w.
        (bind _ _ (s.moves CaseStatus.executing _ _ refl refl)
            λ _. execute_decision-Keeps _ (c _)).at
          w;
  }

  close-Keeps : (reason : String) → Keeps R (close env deps reason)
  unfolding close
  close-Keeps reason = bind _ _ (s.closes _) λ _. ret true

  override-Keeps : Keeps R (override env deps)
  unfolding override
  override-Keeps = then_go _ CaseStatus.diagnosed _ _ (s.overrides _) refl refl

  reenter-Keeps : (b : Bool) → Keeps R (reenter env deps b)
  unfolding reenter
  reenter-Keeps true = record {
    at = λ w. (then_go _ CaseStatus.diagnosed _ _ (s.ticks _) refl refl).at w;
  }
  reenter-Keeps false = record { at = (ret false).at }

  either :
      {A : Type 0} (b : Bool) (m n : Action A)
      → Keeps R m
      → Keeps R n
      → Keeps R (if b then m else n)
  either true m n km kn = km
  either false m n km kn = kn

  ladder-Keeps : (w : Work) → Keeps R (ladder env deps w)
  unfolding ladder
  ladder-Keeps w = search (either, close-Keeps, override-Keeps, reenter-Keeps)

  verifying-Keeps : Keeps R (step_verifying env deps)
  unfolding step_verifying
  verifying-Keeps = record {
    at = λ w.
        Keeps-if (is_captured w.payment.status) _ _ w (bind _ _ (s.captures _ _ _) λ _. ret true)
          (ladder-Keeps w);
  }

  window-Keeps : (b : Bool) → Keeps R (approval_window env deps b)
  unfolding approval_window
  window-Keeps true = bind _ _ (Keeps-modify _ (s.ticks _)) λ _.
      bind _ _ (s.moves CaseStatus.escalated _ _ refl refl)
        λ _. bind _ _ (Keeps-modify _ s.expires) λ _. ret true
  window-Keeps false = ret false

  policy_check-Keeps : Approves → Keeps R (step_policy_check env deps)
  unfolding step_policy_check
  policy_check-Keeps a = record { at = λ w. (check_policy-Keeps _ a).at w }

  -- A step from APPROVED needs the relation across a dispatch, and one from POLICY_CHECK across an approval.
  pub by_status-Keeps :
      (c : CaseStatus)
      → (c ≡ CaseStatus.policy_check → Approves)
      → (c ≡ CaseStatus.approved → (d : Option AgentDecision) → Dispatches d)
      → Keeps R (by_status env deps c)
  unfolding by_status step_planned step_executing
  by_status-Keeps CaseStatus.detected a x = detected-Keeps
  by_status-Keeps CaseStatus.analyzing a x = analyzing-Keeps
  by_status-Keeps CaseStatus.diagnosed a x = diagnosed-Keeps
  by_status-Keeps CaseStatus.planned a x = go CaseStatus.policy_check _ _ refl refl
  by_status-Keeps CaseStatus.policy_check a x = policy_check-Keeps (a refl)
  by_status-Keeps CaseStatus.approved a x = approved-Keeps (x refl)
  by_status-Keeps CaseStatus.executing a x = go CaseStatus.verifying _ _ refl refl
  by_status-Keeps CaseStatus.verifying a x = verifying-Keeps
  by_status-Keeps CaseStatus.awaiting_approval a x = window-Keeps deps.fast_forward
  by_status-Keeps _ a x = ret false

pub step-Keeps :
    {env : Env} {deps : ExecutorDeps} {R : Work → Work → Type 0}
    → Stable env deps R
    → Keeps R (step env deps)
unfolding step
step-Keeps {env} {deps} {R} s = record {
  at = λ w.
      (by_status-Keeps (quiet s) w.case.status
          (λ _. s.moves CaseStatus.approved Actor.policy [] refl) (λ _. dispatches)).at
        w;
}
  where
    dispatches : (d : Option AgentDecision) → Dispatches (quiet s) d
    dispatches none = tt
    dispatches (some d) =
        dispatch-Keeps (quiet s) d.strategy_id d.rationale (λ _. Keeps-run _ s.charges)
          (λ _ mode. Keeps-run _ (s.starts ActionType.send_recovery_link mode))
