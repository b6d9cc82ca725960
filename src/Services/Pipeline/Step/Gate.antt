-- ===== src/Services/Pipeline/Step/Gate.antt =====
-- What a step out of POLICY_CHECK guarantees, and the steps of a case that waits for a human.
use ai_revenue_recovery_agen.Prelude.{
  ◌≡◌, refl, sym, ◌∙◌, ◌≢◌, ap, Bool, true, false, Option, none, some, arith, ◌*◌,
}
use mathlib.Core.Path.{subst}
use ai_revenue_recovery_agen.Result.{Error, Result, ok, err}
use ai_revenue_recovery_agen.Format.{Reason, plain}
use ai_revenue_recovery_agen.Db.Enums.{CaseStatus, Actor, PolicyVerdict}
use ai_revenue_recovery_agen.Db.Models.{AgentDecision}
use ai_revenue_recovery_agen.Domain.Fsm.{can_transition}
use ai_revenue_recovery_agen.Policy.Rules.{RuleId, PolicyContext}
use ai_revenue_recovery_agen.Policy.Engine.{evaluate}
use ai_revenue_recovery_agen.Policy.Engine.Gate.{Permitted, allow_iff}
use ai_revenue_recovery_agen.Outside.{Env}
use ai_revenue_recovery_agen.Work.{Work, pure, modify, ◌>>=◌, ◌>>◌}
use ai_revenue_recovery_agen.Work.Keeps.{Post, Post-bind, Post-unless}
use ai_revenue_recovery_agen.Services.CaseService.{transition, set_status, log}
use ai_revenue_recovery_agen.Services.CaseService.Transition.{answers, transition_ok}
use ai_revenue_recovery_agen.Executors.{ExecutorDeps}
use ai_revenue_recovery_agen.Services.Pipeline.Context.{
  advance_minutes, build_policy_ctx, notify_count, retry_actions_used, latest_decision,
  persist_policy_decision,
}
use ai_revenue_recovery_agen.Services.Pipeline.Escalation.{expire_open_escalations}
use ai_revenue_recovery_agen.Services.Pipeline.Step.{
  blocked, waiting, by_verdict, policy_result, by_gate, p13_raises, check_policy, step_policy_check,
  approval_window, by_status, step,
}

abbrev pub IsApproved : Work → Type 0
IsApproved w = w.case.status ≡ CaseStatus.approved

-- The context that the gate sees for a decision.
abbrev pub gate_ctx : ExecutorDeps → AgentDecision → Work → PolicyContext
gate_ctx deps d w =
    build_policy_ctx d deps.cfg (notify_count w.case.id w.session.actions)
      (retry_actions_used w.case.merchant_id w.session) w

module _ (env : Env) (deps : ExecutorDeps) where
  -- A write and a transition to another status than APPROVED do not approve the case.
  elsewhere :
      (P : Type 0) (f : Work → Work) (to : CaseStatus) (actor : Actor) (reason : Reason) (w : Work)
      → to ≢ CaseStatus.approved
      → Post (λ v. IsApproved v → P) ((do modify f; transition env to actor reason; pure true) w)
  unfolding modify
  elsewhere P f to actor reason w n =
      Post-bind (λ v. Unit {0}) _ (modify f) _ w tt
        (λ a u h. answers env to actor reason _ true u (λ v e k. absurd (n (sym e ∙ k))))

  declined :
      (P : Type 0) (b : Bool) (rule : Option RuleId) (w : Work)
      → Post (λ v. IsApproved v → P) (blocked env deps b rule w)
  unfolding blocked
  declined P true rule w = elsewhere P _ CaseStatus.planned _ _ w (λ e. grind arith)
  declined P false rule w = answers env CaseStatus.blocked _ _ _ true w (λ v e k. grind arith)

  postponed :
      (P : Type 0) (b : Bool) (w : Work)
      → (IsApproved w → P)
      → Post (λ v. IsApproved v → P) (waiting env deps b w)
  unfolding waiting pure
  postponed P true w h = elsewhere P _ CaseStatus.planned _ _ w (λ e. grind arith)
  postponed P false w h = h

  approves_on_allow :
      (v : PolicyVerdict) (rule : Option RuleId) (b : Bool) (w : Work)
      → (IsApproved w → v ≡ PolicyVerdict.allow)
      → Post (λ u. IsApproved u → v ≡ PolicyVerdict.allow) (by_verdict env deps v rule b w)
  unfolding by_verdict
  approves_on_allow PolicyVerdict.allow rule b w h =
      answers env CaseStatus.approved _ _ _ true w (λ v e k. refl)
  approves_on_allow PolicyVerdict.escalate rule b w h =
      elsewhere _ _ CaseStatus.awaiting_approval _ _ w (λ e. grind arith)
  approves_on_allow PolicyVerdict.wait rule b w h = postponed _ deps.fast_forward w h
  approves_on_allow PolicyVerdict.block rule b w h = declined _ b rule w

  -- The latest decision passed the gate.
  abbrev pub Passed : Work → Type 0
  Passed w =
      (d : AgentDecision) × (latest_decision w.case.id w.session.decisions ≡ some d)
      × Permitted (gate_ctx deps d w)

  passes :
      (w : Work) (d : Option AgentDecision)
      → w.case.status ≢ CaseStatus.approved
      → Post
          (λ v. IsApproved v → (e : AgentDecision) × (d ≡ some e) × Permitted (gate_ctx deps e w))
          (check_policy env deps d w)
  unfolding check_policy by_gate policy_result persist_policy_decision log
  passes w none n = tt
  passes w (some d) n =
      Post-unless
        (λ v.
          IsApproved v → (e : AgentDecision) × (some d ≡ some e) × Permitted (gate_ctx deps e w))
        (p13_raises env deps d w) Error.type_error _
        (weaken _
          (approves_on_allow (evaluate (gate_ctx deps d w)).verdict _ _ _ (λ e. absurd (n e))))
    where
      weaken :
          (r : Result (Bool × Work))
          → Post
              (λ v. IsApproved v → (evaluate (gate_ctx deps d w)).verdict ≡ PolicyVerdict.allow)
              r
          → Post
              (λ v.
                IsApproved v
                → (e : AgentDecision) × (some d ≡ some e) × Permitted (gate_ctx deps e w))
              r
      weaken (ok (b, v)) h = λ k. (d, refl, (allow_iff (gate_ctx deps d w)).0 (h k))
      weaken (err e) h = tt

  pub step_at :
      (c : CaseStatus) (w : Work) → w.case.status ≡ c → step env deps w ≡ by_status env deps c w
  unfolding step
  step_at c w e = ap (λ s. by_status env deps s w) e

  -- A step that takes a case from POLICY_CHECK to APPROVED had a latest decision, and the context of this
  -- decision is permitted.
  pub step-IsApproved :
      (w : Work)
      → w.case.status ≡ CaseStatus.policy_check
      → Post (λ v. IsApproved v → Passed w) (step env deps w)
  unfolding by_status step_policy_check
  step-IsApproved w e =
      subst (λ r. Post (λ v. IsApproved v → Passed w) r) (sym (step_at CaseStatus.policy_check w e))
        (passes w (latest_decision w.case.id w.session.decisions) (λ k. grind arith))

  pub window_at :
      (b : Bool) (w : Work)
      → deps.fast_forward ≡ b
      → w.case.status ≡ CaseStatus.awaiting_approval
      → step env deps w ≡ approval_window env deps b w
  unfolding by_status
  window_at b w h e =
      step_at CaseStatus.awaiting_approval w e ∙ ap (λ x. approval_window env deps x w) h

  -- In live mode the window of a parked case does not move it.
  pub step_parked :
      (w : Work)
      → deps.fast_forward ≡ false
      → w.case.status ≡ CaseStatus.awaiting_approval
      → step env deps w ≡ ok (false, w)
  unfolding approval_window pure
  step_parked w live e = window_at false w live e

  -- In batch mode the window passes: 48 hours later the case is ESCALATED.
  abbrev pub window_passed : Work → Work
  window_passed w = expire_open_escalations env (
      set_status env CaseStatus.escalated Actor.human (plain "approval window elapsed (batch)")
        (advance_minutes (48 * 60) w))

  pub step_window :
      (w : Work)
      → deps.fast_forward ≡ true
      → w.case.status ≡ CaseStatus.awaiting_approval
      → step env deps w ≡ ok (true, window_passed w)
  unfolding approval_window pure ◌>>=◌ modify advance_minutes can_transition
  step_window w batch e =
      window_at true w batch e
      ∙ ap (λ r. ◌>>=◌ (λ v. r) (λ a. modify (expire_open_escalations env) >> pure true) w)
          (transition_ok env CaseStatus.escalated Actor.human
            (plain "approval window elapsed (batch)") (advance_minutes (48 * 60) w)
            (ap (λ s. can_transition s CaseStatus.escalated) e))
