-- ===== src/Executors.antt =====
-- app/executors/actions.py: the only code with side effects outside the database.
pub mod Actions
pub mod Rows
pub mod Keys
pub mod Total
use ai_revenue_recovery_agen.Prelude.{
  ℕ, ◌+◌, ◌≡◌, Bool, true, false, not, ◌&&◌, Option, none, some, List, [], ◌∷◌, String, ltb, leb,
  ◌==◌, if◌then◌else◌, count_if, get_or,
}
use ai_revenue_recovery_agen.Result
use ai_revenue_recovery_agen.Format.{Ref, Reason, text, decimal, ref}
use ai_revenue_recovery_agen.Db.Enums.{
  DiagnosisClass, ActionType, ExecutionMode, ActionStatus, NotificationChannel, NotificationStatus,
  EscalationReasonCode, EscalationStatus, Actor,
}
use ai_revenue_recovery_agen.Db.Models.{
  RecoveryAction, RecoveryCase, AgentDecision, Notification, Escalation, ActionResult, Detail,
}
use ai_revenue_recovery_agen.Db.Session.{Session}
use ai_revenue_recovery_agen.Domain.Strategies.{StrategyId}
use ai_revenue_recovery_agen.Policy.Config.{PolicyConfig}
use ai_revenue_recovery_agen.Outside.{Env, PaymentLinkResult}
use ai_revenue_recovery_agen.Integrations.Simulated.{
  ChargeResult, default_probability, retry_charge, create_payment_link, simulate_link_payment,
}
use ai_revenue_recovery_agen.Work.{
  Work, Action, pure, gets, modify, run, on_session, on_case, ◌>>=◌, ◌>>◌,
}
use ai_revenue_recovery_agen.Services.CaseService.{log, next_ref}
use ai_revenue_recovery_agen.Verification.{record_capture}
unfoldable pub use ai_revenue_recovery_agen.Executors.Actions.{
  truth_probability, capture_probability, action_index, action_eq, same_kind, next_attempt_no,
  set_row, is_unknown, is_instrument_invalid, below, escalation_reason, fresh_action, new_action,
  finish_action,
}

-- `real` says whether a Razorpay adapter is there.
pub record ExecutorDeps : Type 0 where
  pub real : Bool
  pub cfg : PolicyConfig
  pub fast_forward : Bool

module _ (env : Env) where
  unfoldable pub charge_simulated : Work → ChargeResult × Work
  charge_simulated w =
      let (res, sim) =
        retry_charge env w.payment.rzp_payment_id (capture_probability w.case) w.simulator in
      (
        res,
        record w { simulator = sim; case = record w.case { retry_count = w.case.retry_count + 1 } },
      )

  -- `if res.success: await verification.record_capture(…)`
  unfoldable pub capture_if : Bool → Option Reason → String → Action Unit
  capture_if true gateway_ref source = record_capture env gateway_ref ExecutionMode.simulated source
  capture_if false gateway_ref source = pure tt

  unfoldable pub execute_retry_charge : Action RecoveryAction
  unfolding charge_simulated capture_if
  execute_retry_charge = do
    action ← run (new_action env ActionType.retry_charge ExecutionMode.simulated)
    res ← run charge_simulated
    done ← run (
        finish_action env action true (ActionResult.charge res.success res.status res.simulated)
          res.gateway_ref (if res.success then none else res.error_reason))
    capture_if res.success res.gateway_ref "executor_retry"
    pure done

  unfoldable pub notification : RecoveryAction → NotificationChannel → Reason → Work → Notification
  notification action channel body w = record {
    id = w.session.next_id;
    case_id = w.case.id;
    action_id = some action.id;
    channel = channel;
    rendered_subject = text "Payment recovery (" ∷ ref w.case.case_ref ∷ text ")" ∷ [];
    rendered_body = body;
    status = NotificationStatus.simulated_sent;
  }

  unfoldable pub add_notification : RecoveryAction → NotificationChannel → Reason → Work → Work
  unfolding notification
  add_notification action channel body w =
      on_session
        (λ s. record s {
          next_id = s.next_id + 1;
          notifications = notification action channel body w ∷ s.notifications;
        })
        w

  -- The f-string prints the amount in rupees with two decimals and separators of thousands.
  unfoldable pub queue_notifications : RecoveryAction → Bool → Work → Work
  unfolding add_notification
  queue_notifications action update_method w =
      let body =
        text "Your payment of Rs "
        ∷ decimal w.payment.amount_minor 100 2
        ∷ text " failed. "
        ∷ text (if update_method then "Please update your payment method. " else "")
        ∷ text "Complete it here: {link}"
        ∷ [] in
      let sms = add_notification action NotificationChannel.sms body w in
      let both = add_notification action NotificationChannel.email body sms in
      log env Actor.executor "NOTIFICATIONS_QUEUED"
        (Detail.notifications_queued action.action_ref
          (if update_method then "update_method" else "recover") 2)
        both

  unfoldable pub ask_payment : Work → ChargeResult × Work
  ask_payment w =
      let (paid, sim) =
        simulate_link_payment env w.payment.rzp_payment_id (capture_probability w.case)
          w.simulator in
      (paid, record w { simulator = sim })

  -- The link comes from the Razorpay adapter, which may raise, or from the simulator.
  unfoldable pub make_link : Bool → Action PaymentLinkResult
  make_link true w =
      Result.◌>>=◌ (env.create_payment_link w.payment.amount_minor w.case.case_ref)
        (λ res. pure res w)
  make_link false w = pure (create_payment_link env w.case.case_ref) w

  -- Fast-forward: the customer pays the simulated link, or not.
  unfoldable pub collect : Bool → Action Unit
  unfolding ask_payment capture_if
  collect true = pure tt
  collect false = do
    paid ← run ask_payment
    capture_if paid.success paid.gateway_ref "executor_link"

  unfoldable pub link_sent :
      Bool → RecoveryAction → PaymentLinkResult → Bool → Action RecoveryAction
  unfolding collect
  link_sent real action res update_method = do
    modify (queue_notifications action update_method)
    done ← run (
        finish_action env action true (ActionResult.link res.link_id res.short_url res.simulated)
          res.link_id none)
    collect real
    pure done

  unfoldable pub after_link : Bool → RecoveryAction → PaymentLinkResult → Action RecoveryAction
  unfolding link_sent
  after_link real action res w =
      if not res.success
      then run (finish_action env action false ActionResult.empty none res.error) w
      else link_sent real action res (is_instrument_invalid w.case.diagnosis_class) w

  unfoldable pub execute_send_link : Bool → Action RecoveryAction
  unfolding make_link after_link
  execute_send_link real = do
    action ← run (
        new_action env ActionType.send_recovery_link
          (if real then ExecutionMode.real_rzp else ExecutionMode.simulated))
    res ← make_link real
    after_link real action res

  -- The row that an executor or the pipeline inserts.
  unfoldable pub add_escalation : EscalationReasonCode → Reason → Work → Ref × Work
  add_escalation code note w =
      let (escalation_ref, s) = next_ref "escalation_ref" "ESC" w.session in
      let esc : Escalation = record {
        id = s.next_id;
        escalation_ref = escalation_ref;
        case_id = w.case.id;
        reason_code = code;
        note = note;
        status = EscalationStatus.open_status;
        decided_by = none;
        decision_note = none;
        decided_at = none;
      } in
      (
        escalation_ref,
        record w {
          session = record s { next_id = s.next_id + 1; escalations = esc ∷ s.escalations };
        },
      )

  unfoldable pub execute_escalation : PolicyConfig → Reason → Action RecoveryAction
  execute_escalation cfg reason = do
    action ← run (new_action env ActionType.create_escalation ExecutionMode.outbox)
    code ← gets (λ w.
        escalation_reason w.case.diagnosis_class w.case.agent_confidence w.payment.amount_minor
          w.case.retry_count cfg)
    escalation_ref ← run (add_escalation code reason)
    run (finish_action env action true (ActionResult.escalation escalation_ref code) none none)

  unfoldable pub some_action : Action RecoveryAction → Action (Option RecoveryAction)
  some_action m = do a ← m; pure (some a)

  -- Every strategy is one of the six, so the final `raise` of the source is not reached.
  unfoldable pub dispatch : StrategyId → ExecutorDeps → Reason → Action (Option RecoveryAction)
  unfolding some_action
  dispatch StrategyId.s6_stop_recovery deps rationale = pure none
  dispatch StrategyId.s5_human_escalation deps rationale =
      some_action (execute_escalation deps.cfg rationale)
  dispatch StrategyId.s1_immediate_retry deps rationale = some_action execute_retry_charge
  dispatch StrategyId.s2_delayed_retry deps rationale = some_action execute_retry_charge
  dispatch StrategyId.s3_notify_with_link deps rationale = some_action (execute_send_link deps.real)
  dispatch StrategyId.s4_alt_payment_flow deps rationale = some_action (execute_send_link deps.real)

  unfoldable pub execute_for_strategy :
      AgentDecision → ExecutorDeps → Action (Option RecoveryAction)
  unfolding dispatch
  execute_for_strategy decision deps = dispatch decision.strategy_id deps decision.rationale
