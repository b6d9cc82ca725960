-- ===== src/Worker/Frame.antt =====
-- What `advance_case` leaves of the tables: it moves no row of another case.
use ai_revenue_recovery_agen.Prelude.{
  ℕ, ◌≤◌, ◌≡◌, refl, Option, String, arith, Bool-cases, inl, inr,
}
use ai_revenue_recovery_agen.Format.{Reason}
use ai_revenue_recovery_agen.Db.Enums.{Actor}
use ai_revenue_recovery_agen.Db.Models.{Detail}
use ai_revenue_recovery_agen.Db.Session.{Session}
use ai_revenue_recovery_agen.Policy.Config.{PolicyConfig}
use ai_revenue_recovery_agen.Outside.{Env}
use ai_revenue_recovery_agen.Work.{Work}
use ai_revenue_recovery_agen.Work.Keeps.{Post}
use ai_revenue_recovery_agen.Services.Audit.{append_event}
use ai_revenue_recovery_agen.Services.Audit.Chain.{append_event-valid}
use ai_revenue_recovery_agen.Services.CaseService.{log, next_ref}
use ai_revenue_recovery_agen.Executors.{
  ExecutorDeps, new_action, finish_action, charge_simulated, queue_notifications, add_notification,
  ask_payment, add_escalation,
}
use ai_revenue_recovery_agen.Agent.Decide.{decide_and_persist, persist}
use ai_revenue_recovery_agen.Services.Pipeline.Context.{
  advance_minutes, risk_enrich, persist_policy_decision,
}
use ai_revenue_recovery_agen.Services.Pipeline.Escalation.{
  has_escalation, ensure_escalation, force_escalation_decision, expire_open_escalations,
}
use ai_revenue_recovery_agen.Services.Pipeline.Step.{decide, stamp_attempt}
use ai_revenue_recovery_agen.Services.Pipeline.Step.Stable.{Stable}
use ai_revenue_recovery_agen.Services.Pipeline.Advance.{advance_case}
use ai_revenue_recovery_agen.Services.Pipeline.Advance.Effects.{advance_case-Keeps}
use ai_revenue_recovery_agen.Services.Ingest.Effects.{same_chain}
use ai_revenue_recovery_agen.Services.Ingest.Capture.{
  Quiet, order, moves, record_capture-Quiet, close_unrecovered-Quiet,
}

-- The rows that only a flush writes, and the keys of the objects at work.
abbrev Tables : Session → Session → Type 0
Tables s t = (t.payments ≡ s.payments) × (t.cases ≡ s.cases) × (t.webhook_events ≡ s.webhook_events)

abbrev Keys : Work → Work → Type 0
Keys u v =
    (v.case.id ≡ u.case.id)
    × (v.case.payment_id ≡ u.case.payment_id)
    × (v.payment.id ≡ u.payment.id)
    × (v.payment.rzp_payment_id ≡ u.payment.rzp_payment_id)

module _ (env : Env) where
  -- A write beside the log.
  beside :
      (u v : Work)
      → u.session.next_id ≤ v.session.next_id
      → Tables u.session v.session
      → Keys u v
      → v.session.audit_events ≡ u.session.audit_events
      → Quiet env u v
  beside u v l (p, c, w) (i, o, j, r) a = record {
    payments = p;
    cases = c;
    webhooks = w;
    grows = l;
    case_id = i;
    of_payment = o;
    payment_id = j;
    rzp_payment_id = r;
    chains = same_chain env u.session v.session a;
  }

  -- A write with an event of the log.
  logs :
      (c : Option ℕ) (actor : Actor) (event_type : String) (detail : Detail) (u v : Work)
      (t : Session)
      → v.session ≡ append_event env c actor event_type detail t
      → u.session.next_id ≤ v.session.next_id
      → Tables u.session v.session
      → Keys u v
      → t.audit_events ≡ u.session.audit_events
      → Quiet env u v
  logs c actor event_type detail u v t e l (p, d, w) (i, o, j, r) a = record {
    payments = p;
    cases = d;
    webhooks = w;
    grows = l;
    case_id = i;
    of_payment = o;
    payment_id = j;
    rzp_payment_id = r;
    chains = λ id h.
        rw e (
          append_event-valid env id c actor event_type detail t
            (same_chain env u.session t a id h));
  }

  parks :
      (reason : Reason) (cfg : PolicyConfig) (w : Work)
      → Quiet env w (ensure_escalation env reason cfg w)
  unfolding ensure_escalation add_escalation next_ref log append_event
  parks reason cfg w = elim (Bool-cases (has_escalation w.case.id w.session.escalations)) [
    | inl y ↦ rw y ((order env).stays w)
    | inr n ↦
        rw n
          (logs _ _ _ _ w _ _ refl (omega arith) (refl, refl, refl) (refl, refl, refl, refl) refl)
  ]

  effects : (deps : ExecutorDeps) → Stable env deps (Quiet env)
  unfolding risk_enrich decide decide_and_persist persist advance_minutes persist_policy_decision
      force_escalation_decision expire_open_escalations new_action finish_action charge_simulated
      queue_notifications add_notification ask_payment add_escalation stamp_attempt next_ref log
      append_event
  effects deps = record {
    order = order env;
    moves = λ to actor reason h. moves env to actor reason;
    captures = record_capture-Quiet env;
    closes = close_unrecovered-Quiet env;
    enriches =
        λ w. logs _ _ _ _ w _ _ refl (omega arith) (refl, refl, refl) (refl, refl, refl, refl) refl;
    decides =
        λ w. logs _ _ _ _ w _ _ refl (omega arith) (refl, refl, refl) (refl, refl, refl, refl) refl;
    ticks = λ minutes w. beside w _ (omega arith) (refl, refl, refl) (refl, refl, refl, refl) refl;
    gates = λ d r w.
        logs _ _ _ _ w _ _ refl (omega arith) (refl, refl, refl) (refl, refl, refl, refl) refl;
    parks = λ reason w. parks reason deps.cfg w;
    overrides = λ reason w.
        logs _ _ _ _ w _ _ refl (omega arith) (refl, refl, refl) (refl, refl, refl, refl) refl;
    expires = λ w. beside w _ (omega arith) (refl, refl, refl) (refl, refl, refl, refl) refl;
    starts = λ t mode w.
        logs _ _ _ _ w _ _ refl (omega arith) (refl, refl, refl) (refl, refl, refl, refl) refl;
    ends = λ a b result r e w.
        logs _ _ _ _ w _ _ refl (omega arith) (refl, refl, refl) (refl, refl, refl, refl) refl;
    charges = λ w. beside w _ (omega arith) (refl, refl, refl) (refl, refl, refl, refl) refl;
    notifies = λ a b w.
        logs _ _ _ _ w _ _ refl (omega arith) (refl, refl, refl) (refl, refl, refl, refl) refl;
    asks = λ w. beside w _ (omega arith) (refl, refl, refl) (refl, refl, refl, refl) refl;
    escalates =
        λ code note w. beside w _ (omega arith) (refl, refl, refl) (refl, refl, refl, refl) refl;
    stamps = λ w. beside w _ (omega arith) (refl, refl, refl) (refl, refl, refl, refl) refl;
  }

pub advance_case-Quiet :
    (env : Env) (deps : ExecutorDeps) (w : Work) → Post (Quiet env w) (advance_case env deps w)
advance_case-Quiet env deps = (advance_case-Keeps (effects env deps)).at
