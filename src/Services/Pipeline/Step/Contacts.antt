-- ===== src/Services/Pipeline/Step/Contacts.antt =====
-- The contacts of a case, the action rows that reach the customer: only the row of a recovery link adds
-- one, and P08 guards their number.
use ai_revenue_recovery_agen.Prelude.{
  ℕ, ◌+◌, ◌<◌, ◌≡◌, refl, ◌∙◌, ap, Bool, true, false, List, [], ◌∷◌, ◌==◌, arith, get_or, inl, inr,
  Bool-cases, count_if,
}
use ai_revenue_recovery_agen.Format.{Reason}
use ai_revenue_recovery_agen.Db.Enums.{ActionType, ExecutionMode, PolicyVerdict}
use ai_revenue_recovery_agen.Db.Models.{AgentDecision, RecoveryAction}
use ai_revenue_recovery_agen.Domain.Strategies.{StrategyId, catalog_action}
use ai_revenue_recovery_agen.Policy.Engine.{evaluate}
use ai_revenue_recovery_agen.Policy.Engine.Gate.{allow_iff}
use ai_revenue_recovery_agen.Outside.{Env}
use ai_revenue_recovery_agen.Work.{Work, pure, run}
use ai_revenue_recovery_agen.Work.Keeps.{Keeps, Post, Keeps-bind, Keeps-run, Post-bind}
use ai_revenue_recovery_agen.Services.Audit.{append_event}
use ai_revenue_recovery_agen.Services.CaseService.{log, next_ref}
use ai_revenue_recovery_agen.Executors.{
  ExecutorDeps, new_action, fresh_action, set_row, charge_simulated, execute_send_link, some_action,
  dispatch,
}
use ai_revenue_recovery_agen.Services.Pipeline.Context.{build_policy_ctx, notify_count}
use ai_revenue_recovery_agen.Services.Pipeline.Step.Stable.{
  is_contact, contacting, make_link-Keeps, after_link-Keeps, dispatch-Keeps,
}
use ai_revenue_recovery_agen.Services.Pipeline.Step.Gate.{gate_ctx}
use ai_revenue_recovery_agen.Services.Pipeline.Step.Gauge.{
  Gauge, Same, Spent, order, carry, unmoved,
}
use ai_revenue_recovery_agen.Services.Pipeline.Step.Budget.{Meter}

pub other_kind :
    (a : RecoveryAction) (case_id : ℕ) (actions : List RecoveryAction)
    → is_contact a.action_type ≡ false
    → notify_count case_id (a ∷ actions) ≡ notify_count case_id actions
unfolding notify_count count_if
other_kind a case_id actions n = grind arith

-- A contact row of the case counts.
one_more :
    (a : RecoveryAction) (case_id : ℕ) (actions : List RecoveryAction)
    → is_contact a.action_type ≡ true
    → a.case_id ≡ case_id
    → notify_count case_id (a ∷ actions) ≡ notify_count case_id actions + 1
unfolding notify_count count_if
one_more a case_id actions y e = grind arith

pub finished :
    (a : RecoveryAction) (case_id : ℕ) (actions : List RecoveryAction)
    → notify_count case_id (set_row a actions) ≡ notify_count case_id actions
unfolding notify_count set_row count_if
finished a case_id [] = refl
finished a case_id (b ∷ rest) =
    let ih = finished a case_id rest in
    elim (Bool-cases (b.id == a.id)) [ inl y ↦ rw y refl | inr n ↦ rw (n, ih) refl ]

abbrev pub gauge : (env : Env) → Gauge env
gauge env = record {
  count = λ case_id retry_count actions. notify_count case_id actions;
  starts = λ a case_id retry_count actions n. other_kind a case_id actions n;
  ends = λ a case_id retry_count actions. finished a case_id actions;
}

-- The catalog knows a strategy that contacts the customer as one.
proposes :
    (id : StrategyId)
    → contacting id ≡ true
    → get_or (catalog_action id) ActionType.create_escalation ≡ ActionType.send_recovery_link
unfolding catalog_action
proposes StrategyId.s3_notify_with_link y = refl
proposes StrategyId.s4_alt_payment_flow y = refl
proposes _ y = grind arith

module _ (env : Env) (deps : ExecutorDeps) where
  pub room :
      (d : AgentDecision) (w : Work)
      → (evaluate (gate_ctx deps d w)).verdict ≡ PolicyVerdict.allow
      → contacting d.strategy_id ≡ true
      → notify_count w.case.id w.session.actions < deps.cfg.contact_cap_7d
  unfolding build_policy_ctx
  room d w a y = ((allow_iff (gate_ctx deps d w)).0 a).contact_ok (inl (proposes d.strategy_id y))

  pub spares :
      (id : StrategyId) (note : Reason)
      → contacting id ≡ false
      → Keeps (Same (gauge env)) (dispatch env id deps note)
  unfolding charge_simulated
  spares id note n =
      dispatch-Keeps (unmoved (gauge env) deps) id note (λ _. Keeps-run _ (λ w. (refl, λ k. k)))
        (λ y. grind arith)

  module _ (k : ℕ) where
    contacted :
        (mode : ExecutionMode) (w : Work)
        → Spent (gauge env) k w
        → Post
            (Spent (gauge env) (k + 1))
            (run (new_action env ActionType.send_recovery_link mode) w)
    unfolding new_action fresh_action log append_event next_ref run
    contacted mode w (e, n) =
        (one_more _ w.case.id w.session.actions refl refl ∙ ap (λ x. x + 1) e, n)

    linked :
        (real : Bool) (w : Work)
        → Spent (gauge env) k w
        → Post (Spent (gauge env) (k + 1)) (execute_send_link env real w)
    unfolding execute_send_link
    linked real w h =
        let q = unmoved (gauge env) deps in
        Post-bind (Spent (gauge env) (k + 1)) (Spent (gauge env) (k + 1)) _ _ w (contacted _ w h)
          (λ a v p.
            carry (gauge env) (k + 1) v
              (Keeps-bind (order (gauge env)) _ _ (make_link-Keeps q real)
                λ res. after_link-Keeps q real a res)
              p)

    some_link :
        (w : Work)
        → Spent (gauge env) k w
        → Post (Spent (gauge env) (k + 1)) (some_action env (execute_send_link env deps.real) w)
    unfolding some_action pure
    some_link w h =
        Post-bind (Spent (gauge env) (k + 1)) (Spent (gauge env) (k + 1))
          (execute_send_link env deps.real) _ w (linked deps.real w h) (λ a v p. p)

    pub dispatched :
        (id : StrategyId) (note : Reason) (w : Work)
        → contacting id ≡ true
        → Spent (gauge env) k w
        → Post (Spent (gauge env) (k + 1)) (dispatch env id deps note w)
    unfolding dispatch
    dispatched StrategyId.s3_notify_with_link note w y h = some_link w h
    dispatched StrategyId.s4_alt_payment_flow note w y h = some_link w h
    dispatched _ note w y h = grind arith

  unfoldable pub contacts : Meter env deps
  contacts = record {
    gauge = gauge env;
    uses = contacting;
    limit = deps.cfg.contact_cap_7d;
    room = room;
    spares = spares;
    takes = λ id note k w y h. dispatched k id note w y h;
  }
