-- ===== src/Services/Pipeline/Advance/Money.antt =====
-- What the pipeline writes down as recovered is the amount of a captured payment.
use ai_revenue_recovery_agen.Prelude.{
  ◌≡◌, refl, true, false, Option, String, ◌⊎◌, inl, inr, arith, Bool-cases,
}
use ai_revenue_recovery_agen.Result.{Result, ok, err}
use ai_revenue_recovery_agen.Format.{Reason}
use ai_revenue_recovery_agen.Db.Enums.{CaseStatus, Actor, ExecutionMode, status_eq}
use ai_revenue_recovery_agen.Domain.Fsm.{can_transition, assert_transition}
use ai_revenue_recovery_agen.Policy.Config.{PolicyConfig}
use ai_revenue_recovery_agen.Policy.Rules.{is_captured}
use ai_revenue_recovery_agen.Outside.{Env}
use ai_revenue_recovery_agen.Work.{Work, modify, ◌>>◌}
use ai_revenue_recovery_agen.Work.Keeps.{
  Keeps, Post, Preorder, Keeps-bind, Keeps-pure, Keeps-modify, Post-modify,
}
use ai_revenue_recovery_agen.Services.CaseService.{transition, log, set_status}
use ai_revenue_recovery_agen.Verification.{record_capture, close_unrecovered}
use ai_revenue_recovery_agen.Executors.{
  ExecutorDeps, new_action, finish_action, charge_simulated, queue_notifications, add_notification,
  ask_payment, add_escalation,
}
use ai_revenue_recovery_agen.Agent.Decide.{decide_and_persist, persist}
use ai_revenue_recovery_agen.Services.Pipeline.Context.{
  advance_minutes, risk_enrich, persist_policy_decision,
}
use ai_revenue_recovery_agen.Services.Pipeline.Escalation.{
  has_escalation, ensure_escalation, force_escalation_decision, expire_open_escalations,
}
use ai_revenue_recovery_agen.Services.Pipeline.Step.{decide, stamp_attempt}
use ai_revenue_recovery_agen.Services.Pipeline.Step.Stable.{Stable}
use ai_revenue_recovery_agen.Services.Pipeline.Advance.{advance_case}
use ai_revenue_recovery_agen.Services.Pipeline.Advance.Effects.{advance_case-Keeps}

-- The whole amount of the payment is recovered, and the payment is captured.
abbrev pub Earned : Work → Type 0
Earned w =
    (w.case.recovered_amount_minor ≡ w.payment.amount_minor) × (is_captured w.payment.status ≡ true)

-- Nothing is recovered or all is earned, and a case that is RECOVERED has earned it.
abbrev pub Honest : Work → Type 0
Honest w =
    ((w.case.recovered_amount_minor ≡ 0) ⊎ Earned w)
    × (status_eq w.case.status CaseStatus.recovered ≡ true → Earned w)

abbrev pub Stays : Work → Work → Type 0
Stays u v = Honest u → Honest v

order : Preorder Stays
order = record { stays = λ w h. h; follows = λ u v w f g h. g (f h) }

-- A status other than RECOVERED asks for no earnings.
lowered :
    (w : Work) (to : CaseStatus)
    → status_eq to CaseStatus.recovered ≡ false
    → Honest w
    → ((w.case.recovered_amount_minor ≡ 0) ⊎ Earned w)
      × (status_eq to CaseStatus.recovered ≡ true → Earned w)
lowered w to n (a, b) = (a, λ y. grind arith)

module _ (env : Env) where
  moves :
      (to : CaseStatus) (actor : Actor) (reason : Reason)
      → status_eq to CaseStatus.recovered ≡ false
      → Keeps Stays (transition env to actor reason)
  unfolding transition assert_transition modify set_status log
  moves to actor reason n = record {
    at = λ w. elim (Bool-cases (can_transition w.case.status to)) [
      | inl y ↦ rw y (lowered w to n)
      | inr f ↦ rw f tt
    ];
  }

  -- A marked case may be moved to RECOVERED.
  paid :
      (actor : Actor) (reason : Reason) (w : Work)
      → Earned w
      → Post Honest (transition env CaseStatus.recovered actor reason w)
  unfolding transition assert_transition modify set_status log
  paid actor reason w e = elim (Bool-cases (can_transition w.case.status CaseStatus.recovered)) [
    | inl y ↦ rw y (inr e, λ z. e)
    | inr n ↦ rw n tt
  ]

  -- What holds anyway holds under a condition.
  given : (u : Work) (r : Result (Unit {0} × Work)) → Post Honest r → Post (Stays u) r
  given u (ok (a, v)) h = λ k. h
  given u (err e) h = tt

  captures :
      (gateway_ref : Option Reason) (mode : ExecutionMode) (source : String)
      → Keeps Stays (record_capture env gateway_ref mode source)
  unfolding record_capture log
  captures gateway_ref mode source = record {
    at = λ w. elim (Bool-cases (status_eq w.case.status CaseStatus.recovered)) [
      | inl y ↦ rw y ((Keeps-pure order tt).at w)
      | inr n ↦ rw n (
          given w _ (
            Post-modify Honest Honest (transition env CaseStatus.recovered Actor.verifier _) _ _
              (paid _ _ _ (refl, refl)) (λ v h. h)))
    ];
  }

  sealed :
      (reason : Reason) (f : Work → Work)
      → ((w : Work) → Stays w (f w))
      → Keeps Stays (transition env CaseStatus.closed_unrecovered Actor.system reason >> modify f)
  sealed reason f h =
      Keeps-bind order _ _ (moves CaseStatus.closed_unrecovered _ reason refl) λ _. Keeps-modify f h

  closes : (reason : Reason) → Keeps Stays (close_unrecovered env reason)
  unfolding close_unrecovered log
  closes reason = record {
    at = λ w. elim (Bool-cases (status_eq w.case.status CaseStatus.closed_unrecovered)) [
      | inl y ↦ rw y ((Keeps-pure order tt).at w)
      | inr n ↦ rw n ((sealed _ _ (λ v h. h)).at _)
    ];
  }

  parks :
      (reason : Reason) (cfg : PolicyConfig) (w : Work)
      → Stays w (ensure_escalation env reason cfg w)
  unfolding ensure_escalation log add_escalation
  parks reason cfg w h = elim (Bool-cases (has_escalation w.case.id w.session.escalations)) [
    | inl y ↦ rw y h
    | inr n ↦ rw n h
  ]

  effects : (deps : ExecutorDeps) → Stable env deps Stays
  unfolding risk_enrich decide decide_and_persist persist advance_minutes persist_policy_decision
      force_escalation_decision expire_open_escalations new_action finish_action charge_simulated
      queue_notifications add_notification ask_payment add_escalation stamp_attempt log
  effects deps = record {
    order = order;
    moves = moves;
    captures = captures;
    closes = closes;
    enriches = λ w h. h;
    decides = λ w h. h;
    ticks = λ minutes w h. h;
    gates = λ d r w h. h;
    parks = λ reason w. parks reason deps.cfg w;
    overrides = λ reason w h. h;
    expires = λ w h. h;
    starts = λ t mode w h. h;
    ends = λ a b result r e w h. h;
    charges = λ w h. h;
    notifies = λ a b w h. h;
    asks = λ w h. h;
    escalates = λ code note w h. h;
    stamps = λ w h. h;
  }

-- If the case has recovered nothing or the whole amount of its captured payment, and the latter when it
-- is RECOVERED, the same holds after a call of `advance_case` that returns.
pub advance_case-Honest :
    (env : Env) (deps : ExecutorDeps) (w : Work) → Post (Stays w) (advance_case env deps w)
advance_case-Honest env deps = (advance_case-Keeps (effects env deps)).at
