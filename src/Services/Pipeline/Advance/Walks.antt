-- ===== src/Services/Pipeline/Advance/Walks.antt =====
-- The status of a case moves along the arrows of Domain/Fsm/Graph only.
use ai_revenue_recovery_agen.Prelude.{Option, String, ◌≡◌, true, ◌⊎◌, inl, inr, Bool-cases}
use mathlib.Core.Path.{subst}
use ai_revenue_recovery_agen.Format.{Reason}
use ai_revenue_recovery_agen.Db.Enums.{CaseStatus, Actor, ExecutionMode, status_eq}
use ai_revenue_recovery_agen.Domain.Fsm.{can_transition, assert_transition}
use ai_revenue_recovery_agen.Domain.Fsm.Graph.{Walk, here, next, Edge, can_transition_iff}
use ai_revenue_recovery_agen.Outside.{Env}
use ai_revenue_recovery_agen.Work.{Work, modify, ◌>>◌}
use ai_revenue_recovery_agen.Work.Keeps.{
  Keeps, Post, Preorder, Keeps-bind, Keeps-pure, Keeps-modify,
}
use ai_revenue_recovery_agen.Policy.Config.{PolicyConfig}
use ai_revenue_recovery_agen.Services.CaseService.{transition, log, set_status}
use ai_revenue_recovery_agen.Verification.{record_capture, close_unrecovered}
use ai_revenue_recovery_agen.Executors.{
  ExecutorDeps, new_action, finish_action, charge_simulated, queue_notifications, add_notification,
  ask_payment, add_escalation,
}
use ai_revenue_recovery_agen.Agent.Decide.{decide_and_persist, persist}
use ai_revenue_recovery_agen.Services.Pipeline.Context.{
  advance_minutes, risk_enrich, persist_policy_decision,
}
use ai_revenue_recovery_agen.Services.Pipeline.Escalation.{
  has_escalation, ensure_escalation, force_escalation_decision, expire_open_escalations,
}
use ai_revenue_recovery_agen.Services.Pipeline.Step.{decide, stamp_attempt, step}
use ai_revenue_recovery_agen.Services.Pipeline.Step.Stable.{Stable}
use ai_revenue_recovery_agen.Services.Pipeline.Step.Effects.{step-Keeps}
use ai_revenue_recovery_agen.Services.Pipeline.Advance.{advance_case}
use ai_revenue_recovery_agen.Services.Pipeline.Advance.Effects.{advance_case-Keeps}

abbrev pub Walks : Work → Work → Type 0
Walks u v = Walk u.case.status v.case.status

join : {a b c : CaseStatus} → Walk a b → Walk b c → Walk a c
join here w = w
join (next e v) w = next e (join v w)

allowed : (a b : CaseStatus) → can_transition a b ≡ true → Walk a b
allowed a b h = along ((can_transition_iff a b).0.0 h)
  where
    along : (a ≡ b) ⊎ Edge a b → Walk a b
    along (inl e) = subst (λ x. Walk a x) e here
    along (inr e) = next e here

order : Preorder Walks
order = record { stays = λ w. here; follows = λ u v w. join }

module _ (env : Env) where
  moves :
      (to : CaseStatus) (actor : Actor) (reason : Reason)
      → Keeps Walks (transition env to actor reason)
  unfolding transition assert_transition modify set_status log
  moves to actor reason = record {
    at = λ w. elim (Bool-cases (can_transition w.case.status to)) [
      | inl y ↦ rw y (entered w y)
      | inr n ↦ rw n tt
    ];
  }
    where
      entered :
          (w : Work)
          → can_transition w.case.status to ≡ true
          → Post (Walks w) (modify (set_status env to actor reason) w)
      entered w y = allowed w.case.status to y

  -- A transition and a write that leaves the status alone.
  sealed :
      (to : CaseStatus) (actor : Actor) (reason : Reason) (f : Work → Work)
      → ((w : Work) → Walks w (f w))
      → Keeps Walks (transition env to actor reason >> modify f)
  sealed to actor reason f h = Keeps-bind order _ _ (moves to actor reason) λ _. Keeps-modify f h

  captures :
      (gateway_ref : Option Reason) (mode : ExecutionMode) (source : String)
      → Keeps Walks (record_capture env gateway_ref mode source)
  unfolding record_capture log
  captures gateway_ref mode source = record {
    at = λ w. elim (Bool-cases (status_eq w.case.status CaseStatus.recovered)) [
      | inl y ↦ rw y ((Keeps-pure order tt).at w)
      | inr n ↦ rw n ((sealed CaseStatus.recovered _ _ _ (λ v. here)).at _)
    ];
  }

  closes : (reason : Reason) → Keeps Walks (close_unrecovered env reason)
  unfolding close_unrecovered log
  closes reason = record {
    at = λ w. elim (Bool-cases (status_eq w.case.status CaseStatus.closed_unrecovered)) [
      | inl y ↦ rw y ((Keeps-pure order tt).at w)
      | inr n ↦ rw n ((sealed CaseStatus.closed_unrecovered _ _ _ (λ v. here)).at _)
    ];
  }

  parks :
      (reason : Reason) (cfg : PolicyConfig) (w : Work)
      → Walks w (ensure_escalation env reason cfg w)
  unfolding ensure_escalation log add_escalation
  parks reason cfg w = elim (Bool-cases (has_escalation w.case.id w.session.escalations)) [
    | inl y ↦ rw y here
    | inr n ↦ rw n here
  ]

  effects : (deps : ExecutorDeps) → Stable env deps Walks
  unfolding risk_enrich decide decide_and_persist persist advance_minutes persist_policy_decision
      force_escalation_decision expire_open_escalations new_action finish_action charge_simulated
      queue_notifications add_notification ask_payment add_escalation stamp_attempt log
  effects deps = record {
    order = order;
    moves = λ to actor reason h. moves to actor reason;
    captures = captures;
    closes = closes;
    enriches = λ w. here;
    decides = λ w. here;
    ticks = λ minutes w. here;
    gates = λ d r w. here;
    parks = λ reason w. parks reason deps.cfg w;
    overrides = λ reason w. here;
    expires = λ w. here;
    starts = λ t mode w. here;
    ends = λ a b result r e w. here;
    charges = λ w. here;
    notifies = λ a b w. here;
    asks = λ w. here;
    escalates = λ code note w. here;
    stamps = λ w. here;
  }

-- A call of `advance_case` that returns has taken the case along a sequence of arrows, each a row of the
-- transition table of docs/STATE_MACHINES.md or one of the three kinds that fsm.py adds to it, and so has
-- each step.
pub advance_case-Walks :
    (env : Env) (deps : ExecutorDeps) (w : Work)
    → Post (Walks w) (advance_case env deps w) × Post (Walks w) (step env deps w)
advance_case-Walks env deps w =
    let s = effects env deps in ((advance_case-Keeps s).at w, (step-Keeps s).at w)
