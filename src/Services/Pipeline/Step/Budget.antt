-- ===== src/Services/Pipeline/Step/Budget.antt =====
-- A step stays within a budget that the policy gate guards.
use ai_revenue_recovery_agen.Prelude.{
  ℕ, ◌+◌, ◌≤◌, ◌<◌, ◌≡◌, refl, Bool, true, false, Option, none, some, arith, inl, inr, Bool-cases,
  [],
}
use mathlib.Core.Path.{subst}
use ai_revenue_recovery_agen.Result.{Error}
use ai_revenue_recovery_agen.Format.{Reason}
use ai_revenue_recovery_agen.Db.Enums.{CaseStatus, Actor, PolicyVerdict}
use ai_revenue_recovery_agen.Db.Models.{AgentDecision}
use ai_revenue_recovery_agen.Domain.Fsm.{can_transition, assert_transition}
use ai_revenue_recovery_agen.Domain.Strategies.{StrategyId}
use ai_revenue_recovery_agen.Policy.Rules.{RuleId}
use ai_revenue_recovery_agen.Policy.Engine.{evaluate}
use ai_revenue_recovery_agen.Outside.{Env}
use ai_revenue_recovery_agen.Work.{Work, pure, modify, ◌>>◌}
use ai_revenue_recovery_agen.Work.Keeps.{Post-unless, Keeps, Post, Post-bind, Post-map}
use ai_revenue_recovery_agen.Services.Audit.{append_event}
use ai_revenue_recovery_agen.Services.CaseService.{transition, log, set_status}
use ai_revenue_recovery_agen.Executors.{ExecutorDeps, dispatch, execute_for_strategy}
use ai_revenue_recovery_agen.Services.Pipeline.Context.{latest_decision, persist_policy_decision}
use ai_revenue_recovery_agen.Services.Pipeline.Step.{
  by_verdict, policy_result, by_gate, p13_raises, check_policy, step_policy_check, step_approved,
  execute_decision, by_status, step,
}
use ai_revenue_recovery_agen.Services.Pipeline.Step.Stable.{by_decision}
use ai_revenue_recovery_agen.Services.Pipeline.Step.Effects.{
  Dispatches, by_verdict-Keeps, execute_decision-Keeps, after_strategy-Keeps, by_status-Keeps,
}
use ai_revenue_recovery_agen.Services.Pipeline.Step.Gate.{IsApproved, gate_ctx}
use ai_revenue_recovery_agen.Services.Pipeline.Step.Gauge.{
  Gauge, level, Same, Spent, carry, entered, unmoved,
}

pub within : {k r m : ℕ} {P Q : Type 0} → k ≤ m → r ≡ k → ¬ P → (r ≤ m) × (P → Q)
within h e n = (omega arith, λ a. absurd (n a))

-- A number is within the limit, and below it when the case is approved and its latest decision has a
-- strategy that uses one more.
abbrev pub Budgeted : ℕ → ℕ → (StrategyId → Bool) → Work → Type 0
Budgeted number limit uses w =
    (number ≤ limit)
    × (IsApproved w
        → by_decision uses (latest_decision w.case.id w.session.decisions) ≡ true
        → number < limit)

-- A number that a strategy which uses it moves by one, where the gate has seen it below the limit.
pub record Meter (env : Env) (deps : ExecutorDeps) : Type 0 where
  pub gauge : Gauge env
  pub uses : StrategyId → Bool
  pub limit : ℕ
  pub room :
      (d : AgentDecision) (w : Work)
      → (evaluate (gate_ctx deps d w)).verdict ≡ PolicyVerdict.allow
      → uses d.strategy_id ≡ true
      → level gauge w < limit
  pub spares :
      (id : StrategyId) (note : Reason)
      → uses id ≡ false
      → Keeps (Same gauge) (dispatch env id deps note)
  pub takes :
      (id : StrategyId) (note : Reason) (k : ℕ) (w : Work)
      → uses id ≡ true
      → Spent gauge k w
      → Post (Spent gauge (k + 1)) (dispatch env id deps note w)

module _ {env : Env} {deps : ExecutorDeps} (meter : Meter env deps) where
  -- The number of the case.
  abbrev pub used : Work → ℕ
  used w = level meter.gauge w

  abbrev pub Within : Work → Type 0
  Within w = Budgeted (used w) meter.limit meter.uses w

  spent : (k : ℕ) (v : Work) → k ≤ meter.limit → Spent meter.gauge k v → Within v
  spent k v h (e, n) = within h e n

  -- The transition of an ALLOW verdict leaves the case and its decisions as they are.
  approval :
      (w : Work)
      → used w ≤ meter.limit
      → (by_decision meter.uses (latest_decision w.case.id w.session.decisions) ≡ true
          → used w < meter.limit)
      → Post (Within) (transition env CaseStatus.approved Actor.policy [] w)
  unfolding transition assert_transition modify set_status log append_event
  approval w h r = elim (Bool-cases (can_transition w.case.status CaseStatus.approved)) [
    | inl y ↦ rw y (h, λ a. r)
    | inr n ↦ rw n tt
  ]

  approves :
      (w : Work)
      → used w ≤ meter.limit
      → (by_decision meter.uses (latest_decision w.case.id w.session.decisions) ≡ true
          → used w < meter.limit)
      → Post (Within) ((do transition env CaseStatus.approved Actor.policy []; pure true) w)
  unfolding pure
  approves w h r =
      Post-bind (Within) (Within) (transition env CaseStatus.approved Actor.policy []) _ w
        (approval w h r) (λ a v p. p)

  checked :
      (v : PolicyVerdict) (rule : Option RuleId) (b : Bool) (w : Work)
      → Spent meter.gauge (used w) w
      → used w ≤ meter.limit
      → (v ≡ PolicyVerdict.allow
          → by_decision meter.uses (latest_decision w.case.id w.session.decisions) ≡ true
          → used w < meter.limit)
      → Post (Within) (by_verdict env deps v rule b w)
  unfolding by_verdict
  checked PolicyVerdict.allow rule b w s h r = approves w h (r refl)
  checked v rule b w s h r =
      Post-map _ (Within) _ (λ u. spent _ u h)
        (carry meter.gauge (used w) w
          (by_verdict-Keeps (unmoved meter.gauge deps) v rule b (λ e. grind arith)) s)

  gated :
      (d : Option AgentDecision) (w : Work)
      → latest_decision w.case.id w.session.decisions ≡ d
      → w.case.status ≡ CaseStatus.policy_check
      → used w ≤ meter.limit
      → Post (Within) (check_policy env deps d w)
  unfolding check_policy by_gate policy_result persist_policy_decision log append_event
  gated none w e s h = tt
  gated (some d) w e s h = Post-unless (Within) (p13_raises env deps d w) Error.type_error _ (
      checked _ _ _ (persist_policy_decision env d (policy_result env deps d w) w)
        (refl, λ k. grind arith) h
        (λ a y. meter.room d w a (subst (λ x. by_decision meter.uses x ≡ true) e y)))

  spared :
      (d : Option AgentDecision)
      → by_decision meter.uses d ≡ false
      → Dispatches (unmoved meter.gauge deps) d
  spared none n = tt
  spared (some d) n = meter.spares d.strategy_id d.rationale n

  -- A decision that uses one adds one.
  executed :
      (k : ℕ) (d : AgentDecision) (w : Work)
      → meter.uses d.strategy_id ≡ true
      → Spent meter.gauge k w
      → Post (Spent meter.gauge (k + 1)) (execute_decision env deps (some d) w)
  unfolding execute_decision execute_for_strategy
  executed k d w y h =
      Post-bind (Spent meter.gauge (k + 1)) (Spent meter.gauge (k + 1)) _ _ w
        (meter.takes d.strategy_id d.rationale k w y h)
        (λ a v p.
          carry meter.gauge (k + 1) v
            (after_strategy-Keeps (unmoved meter.gauge deps) d.strategy_id a) p)

  -- After the transition to EXECUTING, a decision that uses one takes what is left.
  charges :
      (d : Option AgentDecision) (w : Work)
      → used w ≤ meter.limit
      → (by_decision meter.uses d ≡ true → used w < meter.limit)
      → Post (Within) (
          (do transition env CaseStatus.executing Actor.executor []; execute_decision env deps d) w)
  charges d w h r =
      Post-bind (Spent meter.gauge (used w)) (Within)
        (transition env CaseStatus.executing Actor.executor []) _ w
        (entered meter.gauge CaseStatus.executing _ _ w refl) (λ a v s. ran d v r s)
    where
      quietly :
          (d : Option AgentDecision) (v : Work)
          → by_decision meter.uses d ≡ false
          → Spent meter.gauge (used w) v
          → Post (Within) (execute_decision env deps d v)
      quietly d v n s =
          Post-map _ (Within) _ (λ u. spent _ u h)
            (carry meter.gauge (used w) v
              (execute_decision-Keeps (unmoved meter.gauge deps) d (spared d n)) s)

      ran :
          (d : Option AgentDecision) (v : Work)
          → (by_decision meter.uses d ≡ true → used w < meter.limit)
          → Spent meter.gauge (used w) v
          → Post (Within) (execute_decision env deps d v)
      ran none v r s = quietly none v refl s
      ran (some d) v r s = elim (Bool-cases (meter.uses d.strategy_id)) [
        | inl y ↦
            let room = r y in
            Post-map _ (Within) _ (λ u. spent _ u (omega arith)) (executed (used w) d v y s)
        | inr n ↦ quietly (some d) v n s
      ]

  from :
      (c : CaseStatus) (w : Work)
      → w.case.status ≡ c
      → Within w
      → Post (Within) (by_status env deps c w)
  unfolding by_status step_policy_check step_approved
  from CaseStatus.policy_check w e (h, r) = gated _ w refl e h
  from CaseStatus.approved w e (h, r) = charges _ w h (r e)
  from c w e (h, r) =
      Post-map _ (Within) _ (λ u. spent _ u h)
        (carry meter.gauge (used w) w
          (by_status-Keeps (unmoved meter.gauge deps) c (λ k. grind arith) (λ k. grind arith))
          (refl, λ k. grind arith))

  -- A step from a case within the budget ends within it.
  pub step-Within : (w : Work) → Within w → Post (Within) (step env deps w)
  unfolding step
  step-Within w h = from w.case.status w refl h
