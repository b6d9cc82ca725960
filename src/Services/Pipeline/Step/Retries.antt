-- ===== src/Services/Pipeline/Step/Retries.antt =====
-- The retries of a case: only a charge of the simulated gateway moves their number, and P03 guards it.
use ai_revenue_recovery_agen.Prelude.{ℕ, ◌+◌, ◌<◌, ◌≡◌, refl, ap, true, false, arith, get_or}
use ai_revenue_recovery_agen.Format.{Reason}
use ai_revenue_recovery_agen.Db.Enums.{ActionType, PolicyVerdict}
use ai_revenue_recovery_agen.Db.Models.{AgentDecision}
use ai_revenue_recovery_agen.Domain.Strategies.{StrategyId, catalog_action}
use ai_revenue_recovery_agen.Policy.Engine.{evaluate}
use ai_revenue_recovery_agen.Policy.Engine.Gate.{allow_iff}
use ai_revenue_recovery_agen.Outside.{Env}
use ai_revenue_recovery_agen.Work.{Work, pure, run}
use ai_revenue_recovery_agen.Work.Keeps.{Keeps, Post, Keeps-bind, Keeps-pure, Keeps-run, Post-bind}
use ai_revenue_recovery_agen.Services.Audit.{append_event}
use ai_revenue_recovery_agen.Services.CaseService.{log, next_ref}
use ai_revenue_recovery_agen.Executors.{
  ExecutorDeps, new_action, fresh_action, charge_simulated, execute_retry_charge, some_action,
  dispatch,
}
use ai_revenue_recovery_agen.Services.Pipeline.Context.{build_policy_ctx}
use ai_revenue_recovery_agen.Services.Pipeline.Step.Stable.{
  charging, capture_if-Keeps, dispatch-Keeps,
}
use ai_revenue_recovery_agen.Services.Pipeline.Step.Gate.{gate_ctx}
use ai_revenue_recovery_agen.Services.Pipeline.Step.Gauge.{
  Gauge, Same, Spent, order, carry, unmoved,
}
use ai_revenue_recovery_agen.Services.Pipeline.Step.Budget.{Meter}

abbrev pub gauge : (env : Env) → Gauge env
gauge env = record {
  count = λ case_id retry_count actions. retry_count;
  starts = λ a case_id retry_count actions n. refl;
  ends = λ a case_id retry_count actions. refl;
}

-- The catalog knows a strategy that charges as one.
proposes :
    (id : StrategyId)
    → charging id ≡ true
    → get_or (catalog_action id) ActionType.create_escalation ≡ ActionType.retry_charge
unfolding catalog_action
proposes StrategyId.s1_immediate_retry y = refl
proposes StrategyId.s2_delayed_retry y = refl
proposes _ y = grind arith

module _ (env : Env) where
  module _ (deps : ExecutorDeps) (k : ℕ) where
    charged :
        (w : Work)
        → Spent (gauge env) k w
        → Post (Spent (gauge env) (k + 1)) (run (charge_simulated env) w)
    unfolding charge_simulated run
    charged w (e, n) = (ap (λ x. x + 1) e, n)

    -- One attempt charges once.
    attempted :
        (w : Work)
        → Spent (gauge env) k w
        → Post (Spent (gauge env) (k + 1)) (execute_retry_charge env w)
    unfolding execute_retry_charge
    attempted w h =
        let q = unmoved (gauge env) deps in
        Post-bind (Spent (gauge env) k) (Spent (gauge env) (k + 1)) _ _ w
          (carry (gauge env) k w (Keeps-run _ (λ u. q.starts _ _ u refl)) h)
          (λ a v p.
            Post-bind (Spent (gauge env) (k + 1)) (Spent (gauge env) (k + 1)) _ _ v (charged v p)
              (λ res u r.
                carry (gauge env) (k + 1) u
                  (Keeps-bind (order (gauge env)) _ _ (Keeps-run _ (q.ends _ _ _ _ _)) λ _.
                    Keeps-bind (order (gauge env)) _ _ (capture_if-Keeps q _ _ _)
                      λ _. Keeps-pure (order (gauge env)) _)
                  r))

    some_attempt :
        (w : Work)
        → Spent (gauge env) k w
        → Post (Spent (gauge env) (k + 1)) (some_action env (execute_retry_charge env) w)
    unfolding some_action pure
    some_attempt w h =
        Post-bind (Spent (gauge env) (k + 1)) (Spent (gauge env) (k + 1)) (execute_retry_charge env)
          _ w (attempted w h) (λ a v p. p)

    pub dispatched :
        (id : StrategyId) (note : Reason) (w : Work)
        → charging id ≡ true
        → Spent (gauge env) k w
        → Post (Spent (gauge env) (k + 1)) (dispatch env id deps note w)
    unfolding dispatch
    dispatched StrategyId.s1_immediate_retry note w y h = some_attempt w h
    dispatched StrategyId.s2_delayed_retry note w y h = some_attempt w h
    dispatched _ note w y h = grind arith

  pub room :
      (deps : ExecutorDeps) (d : AgentDecision) (w : Work)
      → (evaluate (gate_ctx deps d w)).verdict ≡ PolicyVerdict.allow
      → charging d.strategy_id ≡ true
      → w.case.retry_count < deps.cfg.max_retries
  unfolding build_policy_ctx
  room deps d w a y =
      (((allow_iff (gate_ctx deps d w)).0 a).charge (proposes d.strategy_id y)).budget

  pub spares :
      (deps : ExecutorDeps) (id : StrategyId) (note : Reason)
      → charging id ≡ false
      → Keeps (Same (gauge env)) (dispatch env id deps note)
  unfolding new_action fresh_action log append_event next_ref
  spares deps id note n =
      dispatch-Keeps (unmoved (gauge env) deps) id note (λ y. grind arith)
        (λ _ mode. Keeps-run _ (λ w. (refl, λ k. k)))

  unfoldable pub retries : (deps : ExecutorDeps) → Meter env deps
  retries deps = record {
    gauge = gauge env;
    uses = charging;
    limit = deps.cfg.max_retries;
    room = room deps;
    spares = spares deps;
    takes = λ id note k w y h. dispatched deps k id note w y h;
  }
