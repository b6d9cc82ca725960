-- ===== src/Services/Pipeline/Step/Total.antt =====
-- A step returns: no transition that it asks for is illegal.
use mathlib.Core.Path.{subst}
use ai_revenue_recovery_agen.Prelude.{
  ◌≡◌, refl, sym, Bool, true, false, Option, none, some, inl, inr, Bool-cases, ltb, arith, ◌≢◌,
}
use ai_revenue_recovery_agen.Format.{Reason}
use ai_revenue_recovery_agen.Db.Enums.{CaseStatus, Actor, PolicyVerdict}
use ai_revenue_recovery_agen.Db.Models.{AgentDecision, RecoveryAction}
use ai_revenue_recovery_agen.Domain.Fsm.{can_transition}
use ai_revenue_recovery_agen.Domain.Strategies.{StrategyId, Delay}
use ai_revenue_recovery_agen.Policy.Rules.{RuleId, is_captured}
use ai_revenue_recovery_agen.Outside.{Env}
use ai_revenue_recovery_agen.Work.{Work, pure, modify, ◌>>=◌, ◌>>◌}
use ai_revenue_recovery_agen.Work.Keeps.{Sure, Sure-bind}
use ai_revenue_recovery_agen.Services.CaseService.{transition, log}
use ai_revenue_recovery_agen.Executors.{
  ExecutorDeps, add_escalation, execute_send_link, execute_escalation, some_action, dispatch,
}
use ai_revenue_recovery_agen.Executors.Total.{
  IsAt, Executed, Done, Sure-transition, retry_charge-Executed, send_link-Executed,
  Running-escalation, some_action-Done,
}
use ai_revenue_recovery_agen.Services.Pipeline.Context.{
  persist_policy_decision, advance_minutes, risk_enrich,
}
use ai_revenue_recovery_agen.Services.Pipeline.Escalation.{has_escalation, ensure_escalation}
use ai_revenue_recovery_agen.Agent.Decide.{decide_and_persist, persist}
use ai_revenue_recovery_agen.Services.Pipeline.Step.{
  action_failed, stamp_attempt, decide, redecide, step_detected, step_analyzing, step_diagnosed,
  blocked, waiting, by_verdict, check_policy, by_gate, p13_raises, is_incomparable, after_execution,
  await_human, after_strategy,
}

-- There is a decision, with no delay or with a number for one.
abbrev pub IsComparable : Option AgentDecision → Type 0
IsComparable none = ⊥
IsComparable (some d) = d.params.delay_minutes ≢ some Delay.incomparable

calm : (o : Option Delay) → o ≢ some Delay.incomparable → is_incomparable o ≡ false
calm none h = refl
calm (some (Delay.whole m)) h = refl
calm (some Delay.incomparable) h = absurd (h refl)

abbrev pub Returns : {A : Type 0} → A → Work → Type 0
Returns a w = Unit

module _ (env : Env) (deps : ExecutorDeps) where
  pub legal :
      (s to : CaseStatus) (w : Work)
      → IsAt s w
      → can_transition s to ≡ true
      → can_transition w.case.status to ≡ true
  legal s to w e y = subst (λ x. can_transition x to ≡ true) (sym e) y

  pub leaves :
      {A : Type 0} (s to : CaseStatus) (actor : Actor) (reason : Reason) (a : A) (w : Work)
      → IsAt s w
      → can_transition s to ≡ true
      → Sure Returns ((do transition env to actor reason; pure a) w)
  unfolding pure
  leaves s to actor reason a w e y =
      Sure-bind (λ o v. Unit {0}) Returns (transition env to actor reason) _ w
        (Sure-transition env to actor reason w _ (legal s to w e y) tt) (λ o v h. tt)

  pub goes :
      (s : CaseStatus) (f : Work → Work) (to : CaseStatus) (actor : Actor) (reason : Reason)
      (w : Work)
      → IsAt s (f w)
      → can_transition s to ≡ true
      → Sure Returns ((do modify f; transition env to actor reason; pure true) w)
  unfolding modify
  goes s f to actor reason w e y =
      Sure-bind (λ o v. IsAt s v) Returns (modify f) _ w e
        (λ o v h. leaves s to actor reason true v h y)

  pub step_detected-Returns :
      (w : Work) → IsAt CaseStatus.detected w → Sure Returns (step_detected env deps w)
  unfolding step_detected modify pure can_transition
  step_detected-Returns w e =
      Sure-bind (λ o v. Unit {0}) Returns (transition env CaseStatus.analyzing Actor.system _) _ w
        (Sure-transition env CaseStatus.analyzing _ _ w _
          (legal CaseStatus.detected CaseStatus.analyzing w e refl) tt)
        (λ o v h.
          Sure-bind (λ x u. Unit {0}) Returns (modify (risk_enrich env)) _ v tt (λ x u k. tt))

  same_status : (w : Work) → (decide env deps w).case.status ≡ w.case.status
  unfolding decide decide_and_persist persist log
  same_status w = refl

  pub step_analyzing-Returns :
      (w : Work) → IsAt CaseStatus.analyzing w → Sure Returns (step_analyzing env deps w)
  unfolding step_analyzing can_transition decide decide_and_persist persist log
  step_analyzing-Returns w e = goes CaseStatus.analyzing _ CaseStatus.diagnosed _ _ w e refl

  redecided :
      (w : Work) → IsAt CaseStatus.diagnosed w → IsAt CaseStatus.diagnosed (redecide env deps w)
  unfolding redecide decide decide_and_persist persist log
  redecided w e = elim (Bool-cases (ltb 0 w.case.retry_count)) [ inl y ↦ rw y e | inr n ↦ rw n e ]

  pub step_diagnosed-Returns :
      (w : Work) → IsAt CaseStatus.diagnosed w → Sure Returns (step_diagnosed env deps w)
  unfolding step_diagnosed can_transition
  step_diagnosed-Returns w e =
      goes CaseStatus.diagnosed _ CaseStatus.planned _ _ w (redecided w e) refl

  blocked-Returns :
      (b : Bool) (rule : Option RuleId) (w : Work)
      → IsAt CaseStatus.policy_check w
      → Sure Returns (blocked env deps b rule w)
  unfolding blocked can_transition decide decide_and_persist persist log
  blocked-Returns true rule w e = goes CaseStatus.policy_check _ CaseStatus.planned _ _ w e refl
  blocked-Returns false rule w e =
      leaves CaseStatus.policy_check CaseStatus.blocked _ _ true w e refl

  waiting-Returns :
      (b : Bool) (w : Work) → IsAt CaseStatus.policy_check w → Sure Returns (waiting env deps b w)
  unfolding waiting can_transition advance_minutes pure
  waiting-Returns true w e = goes CaseStatus.policy_check _ CaseStatus.planned _ _ w e refl
  waiting-Returns false w e = tt

  parked_status :
      (s : CaseStatus) (reason : Reason) (w : Work)
      → IsAt s w
      → IsAt s (ensure_escalation env reason deps.cfg w)
  unfolding ensure_escalation log add_escalation
  parked_status s reason w e = elim (Bool-cases (has_escalation w.case.id w.session.escalations)) [
    | inl y ↦ rw y e
    | inr n ↦ rw n e
  ]

  by_verdict-Returns :
      (v : PolicyVerdict) (rule : Option RuleId) (b : Bool) (w : Work)
      → IsAt CaseStatus.policy_check w
      → Sure Returns (by_verdict env deps v rule b w)
  unfolding by_verdict can_transition
  by_verdict-Returns PolicyVerdict.allow rule b w e =
      leaves CaseStatus.policy_check CaseStatus.approved _ _ true w e refl
  by_verdict-Returns PolicyVerdict.escalate rule b w e =
      goes CaseStatus.policy_check _ CaseStatus.awaiting_approval _ _ w (parked_status _ _ w e) refl
  by_verdict-Returns PolicyVerdict.wait rule b w e = waiting-Returns deps.fast_forward w e
  by_verdict-Returns PolicyVerdict.block rule b w e = blocked-Returns b rule w e

  pub check_policy-Returns :
      (d : Option AgentDecision) (w : Work)
      → IsComparable d
      → IsAt CaseStatus.policy_check w
      → Sure Returns (check_policy env deps d w)
  unfolding check_policy by_gate p13_raises persist_policy_decision log
  check_policy-Returns none w h e = absurd h
  check_policy-Returns (some d) w h e =
      rw (calm d.params.delay_minutes h) (by_verdict-Returns _ _ _ _ e)

  after_execution-Returns :
      (a : Option RecoveryAction) (w : Work)
      → Done env a w
      → Sure Returns (after_execution env deps a w)
  unfolding after_execution pure stamp_attempt can_transition
  after_execution-Returns a w h = elim (Bool-cases (action_failed a)) [
    | inl y ↦
        rw y (leaves CaseStatus.executing CaseStatus.failed _ _ true w (failed_runs a y h) refl)
    | inr n ↦ elim (Bool-cases (is_captured w.payment.status)) [
      | inl c ↦ rw (n, c) tt
      | inr o ↦
          rw (n, o) (goes CaseStatus.executing _ CaseStatus.verifying _ _ w (open_runs a o h) refl)
    ]
  ]
    where
      failed_runs :
          (a : Option RecoveryAction)
          → action_failed a ≡ true
          → Done env a w
          → IsAt CaseStatus.executing w
      failed_runs none y h = h
      failed_runs (some a) y (inl e) = e
      failed_runs (some a) y (inr (c, k)) = grind arith

      open_runs :
          (a : Option RecoveryAction)
          → is_captured w.payment.status ≡ false
          → Done env a w
          → IsAt CaseStatus.executing w
      open_runs none o h = h
      open_runs (some a) o (inl e) = e
      open_runs (some a) o (inr (c, k)) = grind arith

  pub await_human-Returns :
      (w : Work) → IsAt CaseStatus.executing w → Sure Returns (await_human env deps w)
  unfolding await_human can_transition
  await_human-Returns w e =
      leaves CaseStatus.executing CaseStatus.awaiting_approval _ _ true w e refl

  link :
      (b : Bool) (w : Work)
      → b ≡ false
      → IsAt CaseStatus.executing w
      → Sure Executed (execute_send_link env b w)
  link true w n e = grind arith
  link false w n e = send_link-Executed env w e

  escalated :
      (note : Reason) (w : Work)
      → IsAt CaseStatus.executing w
      → Sure
          (λ a v. IsAt CaseStatus.executing v)
          (some_action env (execute_escalation env deps.cfg note) w)
  unfolding some_action pure
  escalated note w e =
      Sure-bind (λ a v. IsAt CaseStatus.executing v) (λ a v. IsAt CaseStatus.executing v) _ _ w
        (Running-escalation env deps.cfg note w e) (λ a v h. h)

  module _ (simulated : deps.real ≡ false) where
    pub strategy-Returns :
        (id : StrategyId) (note : Reason) (w : Work)
        → IsAt CaseStatus.executing w
        → Sure Returns ((dispatch env id deps note >>= after_strategy env deps id) w)
    unfolding dispatch after_strategy pure can_transition
    strategy-Returns StrategyId.s1_immediate_retry note w e =
        Sure-bind (Done env) Returns _ _ w
          (some_action-Done env _ w (retry_charge-Executed env w e)) after_execution-Returns
    strategy-Returns StrategyId.s2_delayed_retry note w e =
        Sure-bind (Done env) Returns _ _ w
          (some_action-Done env _ w (retry_charge-Executed env w e)) after_execution-Returns
    strategy-Returns StrategyId.s3_notify_with_link note w e =
        Sure-bind (Done env) Returns _ _ w (some_action-Done env _ w (link deps.real w simulated e))
          after_execution-Returns
    strategy-Returns StrategyId.s4_alt_payment_flow note w e =
        Sure-bind (Done env) Returns _ _ w (some_action-Done env _ w (link deps.real w simulated e))
          after_execution-Returns
    strategy-Returns StrategyId.s5_human_escalation note w e =
        Sure-bind (λ a v. IsAt CaseStatus.executing v) Returns _ _ w (escalated note w e)
          (λ a v h. await_human-Returns v h)
    strategy-Returns StrategyId.s6_stop_recovery note w e =
        Sure-bind (λ a v. IsAt CaseStatus.executing v) Returns (pure none) _ w e
          (λ a v h. leaves CaseStatus.executing CaseStatus.verifying _ _ true v h refl)
