-- ===== src/Services/Pipeline/Step/Gauge.antt =====
-- A number of a case through the pipeline that only charges and contacts move.
use ai_revenue_recovery_agen.Prelude.{
  ℕ, ◌≡◌, refl, ◌∙◌, ◌≢◌, false, Option, String, List, ◌∷◌, arith, inl, inr, Bool-cases,
}
use ai_revenue_recovery_agen.Format.{Reason}
use ai_revenue_recovery_agen.Db.Enums.{CaseStatus, Actor, ExecutionMode, status_eq}
use ai_revenue_recovery_agen.Db.Models.{RecoveryAction}
use ai_revenue_recovery_agen.Domain.Fsm.{can_transition, assert_transition}
use ai_revenue_recovery_agen.Policy.Config.{PolicyConfig}
use ai_revenue_recovery_agen.Outside.{Env}
use ai_revenue_recovery_agen.Work.{Work, Action, modify, ◌>>◌}
use ai_revenue_recovery_agen.Work.Keeps.{
  Keeps, Post, Preorder, Keeps-bind, Keeps-pure, Keeps-modify, Post-map,
}
use ai_revenue_recovery_agen.Services.Audit.{append_event}
use ai_revenue_recovery_agen.Services.CaseService.{transition, log, set_status, next_ref}
use ai_revenue_recovery_agen.Verification.{record_capture, close_unrecovered}
use ai_revenue_recovery_agen.Executors.{
  ExecutorDeps, new_action, fresh_action, set_row, finish_action, queue_notifications,
  add_notification, ask_payment, add_escalation,
}
use ai_revenue_recovery_agen.Agent.Decide.{decide_and_persist, persist}
use ai_revenue_recovery_agen.Services.Pipeline.Context.{
  advance_minutes, risk_enrich, persist_policy_decision,
}
use ai_revenue_recovery_agen.Services.Pipeline.Escalation.{
  has_escalation, ensure_escalation, force_escalation_decision, expire_open_escalations,
}
use ai_revenue_recovery_agen.Services.Pipeline.Step.{decide, stamp_attempt}
use ai_revenue_recovery_agen.Services.Pipeline.Step.Stable.{Quiet, is_contact}
use ai_revenue_recovery_agen.Services.Pipeline.Step.Gate.{IsApproved}

other : (to : CaseStatus) → status_eq to CaseStatus.approved ≡ false → to ≢ CaseStatus.approved
other to n e = grind arith

-- A number that is read off a case and the actions, and that no row of a charge or an escalation moves.
pub record Gauge (env : Env) : Type 0 where
  pub count : ℕ → ℕ → List RecoveryAction → ℕ
  pub starts :
      (a : RecoveryAction) (case_id retry_count : ℕ) (actions : List RecoveryAction)
      → is_contact a.action_type ≡ false
      → count case_id retry_count (a ∷ actions) ≡ count case_id retry_count actions
  pub ends :
      (a : RecoveryAction) (case_id retry_count : ℕ) (actions : List RecoveryAction)
      → count case_id retry_count (set_row a actions) ≡ count case_id retry_count actions

module _ {env : Env} (gauge : Gauge env) where
  abbrev pub level : Work → ℕ
  level w = gauge.count w.case.id w.case.retry_count w.session.actions

  -- The number stays, and the case is not approved on the way.
  abbrev pub Same : Work → Work → Type 0
  Same u v = (level v ≡ level u) × (IsApproved v → IsApproved u)

  pub order : Preorder Same
  order = record {
    stays = λ w. (refl, λ k. k);
    follows = λ u v w (e, f) (e', g). (e' ∙ e, λ k. f (g k));
  }

  -- The case has the number `k` and is not approved.
  abbrev pub Spent : ℕ → Work → Type 0
  Spent k w = (level w ≡ k) × (w.case.status ≢ CaseStatus.approved)

  pub carry :
      {A : Type 0} {m : Action A} (k : ℕ) (w : Work)
      → Keeps Same m
      → Spent k w
      → Post (Spent k) (m w)
  carry {A} {m} k w h (e, n) =
      Post-map (Same w) (Spent k) (m w) (λ v (f, g). (f ∙ e, λ a. n (g a))) (h.at w)

  pub entered :
      (to : CaseStatus) (actor : Actor) (reason : Reason) (w : Work)
      → status_eq to CaseStatus.approved ≡ false
      → Post (Spent (level w)) (transition env to actor reason w)
  unfolding transition assert_transition modify set_status log append_event
  entered to actor reason w n = elim (Bool-cases (can_transition w.case.status to)) [
    | inl y ↦ rw y (refl, other to n)
    | inr f ↦ rw f tt
  ]

  moves :
      (to : CaseStatus) (actor : Actor) (reason : Reason)
      → status_eq to CaseStatus.approved ≡ false
      → Keeps Same (transition env to actor reason)
  moves to actor reason n = record {
    at = λ w.
        Post-map (Spent (level w)) (Same w) (transition env to actor reason w)
          (λ v (e, f). (e, λ k. absurd (f k))) (entered to actor reason w n);
  }

  sealed :
      (to : CaseStatus) (actor : Actor) (reason : Reason) (f : Work → Work)
      → status_eq to CaseStatus.approved ≡ false
      → ((w : Work) → Same w (f w))
      → Keeps Same (transition env to actor reason >> modify f)
  sealed to actor reason f n h =
      Keeps-bind order _ _ (moves to actor reason n) λ _. Keeps-modify f h

  captures :
      (gateway_ref : Option Reason) (mode : ExecutionMode) (source : String)
      → Keeps Same (record_capture env gateway_ref mode source)
  unfolding record_capture log append_event
  captures gateway_ref mode source = record {
    at = λ w. elim (Bool-cases (status_eq w.case.status CaseStatus.recovered)) [
      | inl y ↦ rw y ((Keeps-pure order tt).at w)
      | inr n ↦ rw n ((sealed CaseStatus.recovered _ _ _ refl (λ v. (refl, λ k. k))).at _)
    ];
  }

  closes : (reason : Reason) → Keeps Same (close_unrecovered env reason)
  unfolding close_unrecovered log append_event
  closes reason = record {
    at = λ w. elim (Bool-cases (status_eq w.case.status CaseStatus.closed_unrecovered)) [
      | inl y ↦ rw y ((Keeps-pure order tt).at w)
      | inr n ↦ rw n ((sealed CaseStatus.closed_unrecovered _ _ _ refl (λ v. (refl, λ k. k))).at _)
    ];
  }

  parks :
      (reason : Reason) (cfg : PolicyConfig) (w : Work)
      → Same w (ensure_escalation env reason cfg w)
  unfolding ensure_escalation log append_event add_escalation next_ref
  parks reason cfg w = elim (Bool-cases (has_escalation w.case.id w.session.escalations)) [
    | inl y ↦ rw y (refl, λ k. k)
    | inr n ↦ rw n (refl, λ k. k)
  ]

  pub unmoved : (deps : ExecutorDeps) → Quiet env deps Same
  unfolding risk_enrich decide decide_and_persist persist advance_minutes persist_policy_decision
      force_escalation_decision expire_open_escalations new_action finish_action queue_notifications
      add_notification ask_payment add_escalation stamp_attempt log append_event fresh_action
      next_ref
  unmoved deps = record {
    order = order;
    moves = λ to actor reason h n. moves to actor reason n;
    captures = captures;
    closes = closes;
    enriches = λ w. (refl, λ k. k);
    decides = λ w. (refl, λ k. k);
    ticks = λ minutes w. (refl, λ k. k);
    gates = λ d r w. (refl, λ k. k);
    parks = λ reason w. parks reason deps.cfg w;
    overrides = λ reason w. (refl, λ k. k);
    expires = λ w. (refl, λ k. k);
    starts = λ t mode w n. (gauge.starts _ _ _ _ n, λ k. k);
    ends = λ a b result r e w. (gauge.ends _ _ _ _, λ k. k);
    notifies = λ a b w. (refl, λ k. k);
    asks = λ w. (refl, λ k. k);
    escalates = λ code note w. (refl, λ k. k);
    stamps = λ w. (refl, λ k. k);
  }
