-- ===== src/Services/Pipeline/Step/Stable.antt =====
-- The elementary effects of the pipeline, and the executors made of them: a relation that each effect
-- keeps is kept by an executor.
use ai_revenue_recovery_agen.Prelude.{
  ℕ, ◌≡◌, refl, Bool, true, false, not, ◌||◌, Option, none, some, String,
}
use ai_revenue_recovery_agen.Result
use ai_revenue_recovery_agen.Result.{Result, ok, err}
use ai_revenue_recovery_agen.Format.{Reason}
use ai_revenue_recovery_agen.Db.Enums.{
  CaseStatus, ActionType, ExecutionMode, EscalationReasonCode, Actor, status_eq,
}
use ai_revenue_recovery_agen.Db.Models.{AgentDecision, RecoveryAction, ActionResult}
use ai_revenue_recovery_agen.Domain.Strategies.{StrategyId}
use ai_revenue_recovery_agen.Policy.Engine.{PolicyResult}
use ai_revenue_recovery_agen.Outside.{Env, PaymentLinkResult}
use ai_revenue_recovery_agen.Work.{Work, Action, pure, gets, modify, run, ◌>>=◌}
use ai_revenue_recovery_agen.Work.Keeps.{
  Keeps, Preorder, Post, Keeps-bind, Keeps-pure, Keeps-gets, Keeps-modify, Keeps-run, Keeps-if,
}
use ai_revenue_recovery_agen.Services.CaseService.{transition}
use ai_revenue_recovery_agen.Verification.{record_capture, close_unrecovered}
use ai_revenue_recovery_agen.Executors.{
  ExecutorDeps, new_action, finish_action, charge_simulated, capture_if, execute_retry_charge,
  queue_notifications, ask_payment, make_link, collect, link_sent, after_link, execute_send_link,
  add_escalation, execute_escalation, dispatch, some_action, is_instrument_invalid, action_eq,
}
use ai_revenue_recovery_agen.Services.Pipeline.Context.{
  advance_minutes, risk_enrich, persist_policy_decision,
}
use ai_revenue_recovery_agen.Services.Pipeline.Escalation.{
  ensure_escalation, force_escalation_decision, expire_open_escalations,
}
use ai_revenue_recovery_agen.Services.Pipeline.Step.{decide, stamp_attempt}

-- The types of the actions that reach the customer.
abbrev pub is_contact : ActionType → Bool
is_contact t = action_eq t ActionType.send_recovery_link || action_eq t ActionType.notify_customer

-- The relation holds across each elementary effect but a charge, a contact and an approval.
pub record Quiet (env : Env) (deps : ExecutorDeps) (R : Work → Work → Type 0) : Type 0 where
  pub order : Preorder R
  pub moves :
      (to : CaseStatus) (actor : Actor) (reason : Reason)
      → status_eq to CaseStatus.recovered ≡ false
      → status_eq to CaseStatus.approved ≡ false
      → Keeps R (transition env to actor reason)
  pub captures :
      (gateway_ref : Option Reason) (mode : ExecutionMode) (source : String)
      → Keeps R (record_capture env gateway_ref mode source)
  pub closes : (reason : Reason) → Keeps R (close_unrecovered env reason)
  pub enriches : (w : Work) → R w (risk_enrich env w)
  pub decides : (w : Work) → R w (decide env deps w)
  pub ticks : (minutes : ℕ) (w : Work) → R w (advance_minutes minutes w)
  pub gates :
      (decision : AgentDecision) (result : PolicyResult) (w : Work)
      → R w (persist_policy_decision env decision result w)
  pub parks : (reason : Reason) (w : Work) → R w (ensure_escalation env reason deps.cfg w)
  pub overrides : (reason : String) (w : Work) → R w (force_escalation_decision env reason w)
  pub expires : (w : Work) → R w (expire_open_escalations env w)
  pub starts :
      (t : ActionType) (mode : ExecutionMode) (w : Work)
      → is_contact t ≡ false
      → R w (new_action env t mode w).1
  pub ends :
      (a : RecoveryAction) (ok : Bool) (result : ActionResult) (r : Option Reason)
      (e : Option String) (w : Work)
      → R w (finish_action env a ok result r e w).1
  pub notifies : (a : RecoveryAction) (b : Bool) (w : Work) → R w (queue_notifications env a b w)
  pub asks : (w : Work) → R w (ask_payment env w).1
  pub escalates :
      (code : EscalationReasonCode) (note : Reason) (w : Work)
      → R w (add_escalation env code note w).1
  pub stamps : (w : Work) → R w (stamp_attempt w)

-- The relation holds across each elementary effect.
pub record Stable (env : Env) (deps : ExecutorDeps) (R : Work → Work → Type 0) : Type 0 where
  pub order : Preorder R
  pub moves :
      (to : CaseStatus) (actor : Actor) (reason : Reason)
      → status_eq to CaseStatus.recovered ≡ false
      → Keeps R (transition env to actor reason)
  pub captures :
      (gateway_ref : Option Reason) (mode : ExecutionMode) (source : String)
      → Keeps R (record_capture env gateway_ref mode source)
  pub closes : (reason : Reason) → Keeps R (close_unrecovered env reason)
  pub enriches : (w : Work) → R w (risk_enrich env w)
  pub decides : (w : Work) → R w (decide env deps w)
  pub ticks : (minutes : ℕ) (w : Work) → R w (advance_minutes minutes w)
  pub gates :
      (decision : AgentDecision) (result : PolicyResult) (w : Work)
      → R w (persist_policy_decision env decision result w)
  pub parks : (reason : Reason) (w : Work) → R w (ensure_escalation env reason deps.cfg w)
  pub overrides : (reason : String) (w : Work) → R w (force_escalation_decision env reason w)
  pub expires : (w : Work) → R w (expire_open_escalations env w)
  pub starts : (t : ActionType) (mode : ExecutionMode) (w : Work) → R w (new_action env t mode w).1
  pub ends :
      (a : RecoveryAction) (ok : Bool) (result : ActionResult) (r : Option Reason)
      (e : Option String) (w : Work)
      → R w (finish_action env a ok result r e w).1
  pub charges : (w : Work) → R w (charge_simulated env w).1
  pub notifies : (a : RecoveryAction) (b : Bool) (w : Work) → R w (queue_notifications env a b w)
  pub asks : (w : Work) → R w (ask_payment env w).1
  pub escalates :
      (code : EscalationReasonCode) (note : Reason) (w : Work)
      → R w (add_escalation env code note w).1
  pub stamps : (w : Work) → R w (stamp_attempt w)

pub quiet :
    {env : Env} {deps : ExecutorDeps} {R : Work → Work → Type 0}
    → Stable env deps R
    → Quiet env deps R
quiet s = record {
  order = s.order;
  moves = λ to actor reason h _. s.moves to actor reason h;
  captures = s.captures;
  closes = s.closes;
  enriches = s.enriches;
  decides = s.decides;
  ticks = s.ticks;
  gates = s.gates;
  parks = s.parks;
  overrides = s.overrides;
  expires = s.expires;
  starts = λ t mode w _. s.starts t mode w;
  ends = s.ends;
  notifies = s.notifies;
  asks = s.asks;
  escalates = s.escalates;
  stamps = s.stamps;
}

-- The effects of a strategy that are left out above.
abbrev pub Charges : (env : Env) (R : Work → Work → Type 0) → Type 0
Charges env R = Keeps R (run (charge_simulated env))

abbrev pub Contacts : (env : Env) (R : Work → Work → Type 0) → Type 0
Contacts env R =
    (mode : ExecutionMode) → Keeps R (run (new_action env ActionType.send_recovery_link mode))

-- The strategies that charge the instrument, and those that contact the customer.
abbrev pub charging : StrategyId → Bool
charging StrategyId.s1_immediate_retry = true
charging StrategyId.s2_delayed_retry = true
charging _ = false

abbrev pub contacting : StrategyId → Bool
contacting StrategyId.s3_notify_with_link = true
contacting StrategyId.s4_alt_payment_flow = true
contacting _ = false

abbrev pub by_decision : (StrategyId → Bool) → Option AgentDecision → Bool
by_decision f none = false
by_decision f (some d) = f d.strategy_id

module _ {env : Env} {deps : ExecutorDeps} {R : Work → Work → Type 0} (s : Quiet env deps R) where
  bind :
      {A B : Type 0} (m : Action A) (f : A → Action B)
      → Keeps R m
      → ((a : A) → Keeps R (f a))
      → Keeps R (m >>= f)
  bind = Keeps-bind s.order

  ret : {A : Type 0} (a : A) → Keeps R (pure a)
  ret = Keeps-pure s.order

  reads : {A : Type 0} (f : Work → A) → Keeps R (gets f)
  reads = Keeps-gets s.order

  start :
      (t : ActionType) (mode : ExecutionMode)
      → is_contact t ≡ false
      → Keeps R (run (new_action env t mode))
  start t mode n = Keeps-run _ (λ w. s.starts t mode w n)

  -- The rows of a charge and of an escalation.
  start_charge :
      (mode : ExecutionMode) → Keeps R (run (new_action env ActionType.retry_charge mode))
  start_charge mode = start ActionType.retry_charge mode refl

  start_escalation :
      (mode : ExecutionMode) → Keeps R (run (new_action env ActionType.create_escalation mode))
  start_escalation mode = start ActionType.create_escalation mode refl

  end :
      (a : RecoveryAction) (b : Bool) (result : ActionResult) (r : Option Reason)
      (e : Option String)
      → Keeps R (run (finish_action env a b result r e))
  end a b result r e = Keeps-run _ (s.ends a b result r e)

  ask : Keeps R (run (ask_payment env))
  ask = Keeps-run _ s.asks

  escalate :
      (code : EscalationReasonCode) (note : Reason) → Keeps R (run (add_escalation env code note))
  escalate code note = Keeps-run _ (s.escalates code note)

  notify : (a : RecoveryAction) (b : Bool) → Keeps R (modify (queue_notifications env a b))
  notify a b = Keeps-modify _ (s.notifies a b)

  pub capture_if-Keeps :
      (b : Bool) (r : Option Reason) (source : String) → Keeps R (capture_if env b r source)
  unfolding capture_if
  capture_if-Keeps true r source = s.captures r ExecutionMode.simulated source
  capture_if-Keeps false r source = ret tt

  ruleset kept = (
    bind, ret, reads, start_charge, start_escalation, end, ask, escalate, notify, capture_if-Keeps,
  )

  retry_charge-Keeps : Keeps R (run (charge_simulated env)) → Keeps R (execute_retry_charge env)
  unfolding execute_retry_charge
  retry_charge-Keeps charge = search kept

  linked :
      (w : Work) (r : Result PaymentLinkResult) → Post (R w) (Result.◌>>=◌ r (λ res. pure res w))
  unfolding pure
  linked w (ok a) = s.order.stays w
  linked w (err e) = tt

  pub make_link-Keeps : (real : Bool) → Keeps R (make_link env real)
  unfolding make_link pure
  make_link-Keeps true = record {
    at = λ w. linked w (env.create_payment_link w.payment.amount_minor w.case.case_ref);
  }
  make_link-Keeps false = record { at = λ w. s.order.stays w }

  collect-Keeps : (real : Bool) → Keeps R (collect env real)
  unfolding collect
  collect-Keeps true = ret tt
  collect-Keeps false = search kept

  link_sent-Keeps :
      (real : Bool) (a : RecoveryAction) (res : PaymentLinkResult) (b : Bool)
      → Keeps R (link_sent env real a res b)
  unfolding link_sent
  link_sent-Keeps real a res b = search (kept, collect-Keeps)

  pub after_link-Keeps :
      (real : Bool) (a : RecoveryAction) (res : PaymentLinkResult)
      → Keeps R (after_link env real a res)
  unfolding after_link
  after_link-Keeps real a res = record {
    at = λ w.
        Keeps-if (not res.success) _ _ w (end a false ActionResult.empty none res.error)
          (link_sent-Keeps real a res (is_instrument_invalid w.case.diagnosis_class));
  }

  send_link-Keeps : (real : Bool) → Contacts env R → Keeps R (execute_send_link env real)
  unfolding execute_send_link
  send_link-Keeps real contact = search (kept, make_link-Keeps, after_link-Keeps)

  escalation-Keeps : (note : Reason) → Keeps R (execute_escalation env deps.cfg note)
  unfolding execute_escalation
  escalation-Keeps note = search kept

  some_action-Keeps : (m : Action RecoveryAction) → Keeps R m → Keeps R (some_action env m)
  unfolding some_action
  some_action-Keeps m h = search kept

  -- A strategy that charges needs the relation across a charge, and one that contacts across a contact.
  pub dispatch-Keeps :
      (id : StrategyId) (note : Reason)
      → (charging id ≡ true → Charges env R)
      → (contacting id ≡ true → Contacts env R)
      → Keeps R (dispatch env id deps note)
  unfolding dispatch
  dispatch-Keeps StrategyId.s6_stop_recovery note c l = ret none
  dispatch-Keeps StrategyId.s5_human_escalation note c l =
      some_action-Keeps _ (escalation-Keeps note)
  dispatch-Keeps StrategyId.s1_immediate_retry note c l =
      some_action-Keeps _ (retry_charge-Keeps (c refl))
  dispatch-Keeps StrategyId.s2_delayed_retry note c l =
      some_action-Keeps _ (retry_charge-Keeps (c refl))
  dispatch-Keeps StrategyId.s3_notify_with_link note c l =
      some_action-Keeps _ (send_link-Keeps deps.real (l refl))
  dispatch-Keeps StrategyId.s4_alt_payment_flow note c l =
      some_action-Keeps _ (send_link-Keeps deps.real (l refl))
