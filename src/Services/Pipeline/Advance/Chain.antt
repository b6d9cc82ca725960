-- ===== src/Services/Pipeline/Advance/Chain.antt =====
-- The audit chain of every case stays valid through the pipeline.
use ai_revenue_recovery_agen.Prelude.{ℕ, ◌≡◌, refl, true, Option, String, inl, inr, Bool-cases}
use ai_revenue_recovery_agen.Format.{Reason}
use ai_revenue_recovery_agen.Db.Enums.{CaseStatus, Actor, ExecutionMode, status_eq}
use ai_revenue_recovery_agen.Domain.Fsm.{can_transition, assert_transition}
use ai_revenue_recovery_agen.Policy.Config.{PolicyConfig}
use ai_revenue_recovery_agen.Db.Models.{Detail}
use ai_revenue_recovery_agen.Db.Session.{Session}
use ai_revenue_recovery_agen.Services.Audit.{append_event, validate_chain}
use ai_revenue_recovery_agen.Services.Audit.Chain.{append_event-valid}
use ai_revenue_recovery_agen.Outside.{Env}
use ai_revenue_recovery_agen.Work.{Work, modify, ◌>>◌}
use ai_revenue_recovery_agen.Work.Keeps.{
  Keeps, Post, Preorder, Keeps-bind, Keeps-pure, Keeps-modify,
}
use ai_revenue_recovery_agen.Services.CaseService.{transition, next_ref, log, set_status}
use ai_revenue_recovery_agen.Verification.{record_capture, close_unrecovered}
use ai_revenue_recovery_agen.Executors.{
  ExecutorDeps, new_action, finish_action, charge_simulated, queue_notifications, add_notification,
  ask_payment, add_escalation,
}
use ai_revenue_recovery_agen.Agent.Decide.{decide_and_persist, persist}
use ai_revenue_recovery_agen.Services.Pipeline.Context.{
  advance_minutes, risk_enrich, persist_policy_decision,
}
use ai_revenue_recovery_agen.Services.Pipeline.Escalation.{
  has_escalation, ensure_escalation, force_escalation_decision, expire_open_escalations,
}
use ai_revenue_recovery_agen.Services.Pipeline.Step.{decide, stamp_attempt}
use ai_revenue_recovery_agen.Services.Pipeline.Step.Stable.{Stable}
use ai_revenue_recovery_agen.Services.Pipeline.Advance.{advance_case}
use ai_revenue_recovery_agen.Services.Pipeline.Advance.Effects.{advance_case-Keeps}

module _ (id : ℕ) (env : Env) where
  abbrev pub Kept : Work → Work → Type 0
  Kept u v = validate_chain env id u.session ≡ true → validate_chain env id v.session ≡ true

  order : Preorder Kept
  order = record { stays = λ w h. h; follows = λ u v w f g h. g (f h) }

  same :
      (u v : Session)
      → v.audit_events ≡ u.audit_events
      → validate_chain env id u ≡ true
      → validate_chain env id v ≡ true
  unfolding validate_chain
  same u v e h = rw e h

  -- Tables other than the log do not matter.
  logs :
      (c : Option ℕ) (actor : Actor) (event_type : String) (detail : Detail) (u v : Session)
      → v.audit_events ≡ u.audit_events
      → validate_chain env id u ≡ true
      → validate_chain env id (append_event env c actor event_type detail v) ≡ true
  logs c actor event_type detail u v e h =
      append_event-valid env id c actor event_type detail v (same u v e h)

  moves :
      (to : CaseStatus) (actor : Actor) (reason : Reason)
      → Keeps Kept (transition env to actor reason)
  unfolding transition assert_transition modify set_status log
  moves to actor reason = record {
    at = λ w. elim (Bool-cases (can_transition w.case.status to)) [
      | inl y ↦ rw y (logs _ _ _ _ w.session _ refl)
      | inr f ↦ rw f tt
    ];
  }

  sealed :
      (to : CaseStatus) (actor : Actor) (reason : Reason) (f : Work → Work)
      → ((w : Work) → Kept w (f w))
      → Keeps Kept (transition env to actor reason >> modify f)
  sealed to actor reason f h = Keeps-bind order _ _ (moves to actor reason) λ _. Keeps-modify f h

  captures :
      (gateway_ref : Option Reason) (mode : ExecutionMode) (source : String)
      → Keeps Kept (record_capture env gateway_ref mode source)
  unfolding record_capture log
  captures gateway_ref mode source = record {
    at = λ w. elim (Bool-cases (status_eq w.case.status CaseStatus.recovered)) [
      | inl y ↦ rw y ((Keeps-pure order tt).at w)
      | inr n ↦ rw n ((sealed CaseStatus.recovered _ _ _ (λ v. logs _ _ _ _ v.session _ refl)).at _)
    ];
  }

  closes : (reason : Reason) → Keeps Kept (close_unrecovered env reason)
  unfolding close_unrecovered log
  closes reason = record {
    at = λ w. elim (Bool-cases (status_eq w.case.status CaseStatus.closed_unrecovered)) [
      | inl y ↦ rw y ((Keeps-pure order tt).at w)
      | inr n ↦
          rw n
            ((sealed CaseStatus.closed_unrecovered _ _ _ (λ v. logs _ _ _ _ v.session _ refl)).at _)
    ];
  }

  parks :
      (reason : Reason) (cfg : PolicyConfig) (w : Work)
      → Kept w (ensure_escalation env reason cfg w)
  unfolding ensure_escalation add_escalation next_ref log
  parks reason cfg w = elim (Bool-cases (has_escalation w.case.id w.session.escalations)) [
    | inl y ↦ rw y (λ h. h)
    | inr n ↦ rw n (logs _ _ _ _ w.session _ refl)
  ]

  effects : (deps : ExecutorDeps) → Stable env deps Kept
  unfolding risk_enrich decide decide_and_persist persist advance_minutes persist_policy_decision
      force_escalation_decision expire_open_escalations new_action finish_action charge_simulated
      queue_notifications add_notification ask_payment add_escalation stamp_attempt next_ref log
  effects deps = record {
    order = order;
    moves = λ to actor reason h. moves to actor reason;
    captures = captures;
    closes = closes;
    enriches = λ w. logs _ _ _ _ w.session _ refl;
    decides = λ w. logs _ _ _ _ w.session _ refl;
    ticks = λ minutes w h. h;
    gates = λ d r w. logs _ _ _ _ w.session _ refl;
    parks = λ reason w. parks reason deps.cfg w;
    overrides = λ reason w. logs _ _ _ _ w.session _ refl;
    expires = λ w. same w.session _ refl;
    starts = λ t mode w. logs _ _ _ _ w.session _ refl;
    ends = λ a b result r e w. logs _ _ _ _ w.session _ refl;
    charges = λ w h. h;
    notifies = λ a b w. logs _ _ _ _ w.session _ refl;
    asks = λ w h. h;
    escalates = λ code note w. same w.session _ refl;
    stamps = λ w h. h;
  }

-- If the chain of a case validates, it still does after a call of `advance_case`, for this case or
-- another, that returns.
pub advance_case-validate_chain :
    (id : ℕ) (env : Env) (deps : ExecutorDeps) (w : Work)
    → Post (Kept id env w) (advance_case env deps w)
advance_case-validate_chain id env deps = (advance_case-Keeps (effects id env deps)).at
