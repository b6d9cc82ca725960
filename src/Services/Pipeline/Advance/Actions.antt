-- ===== src/Services/Pipeline/Advance/Actions.antt =====
-- The action rows stay numbered through the pipeline.
use ai_revenue_recovery_agen.Prelude.{Bool-cases, inl, inr}
use ai_revenue_recovery_agen.Format.{Reason}
use ai_revenue_recovery_agen.Policy.Config.{PolicyConfig}
use ai_revenue_recovery_agen.Outside.{Env}
use ai_revenue_recovery_agen.Work.{Work}
use ai_revenue_recovery_agen.Work.Keeps.{Post}
use ai_revenue_recovery_agen.Services.Audit.{append_event}
use ai_revenue_recovery_agen.Services.CaseService.{next_ref, log}
use ai_revenue_recovery_agen.Executors.{
  ExecutorDeps, charge_simulated, queue_notifications, add_notification, ask_payment,
  add_escalation,
}
use ai_revenue_recovery_agen.Executors.Keys.{
  Counts, order, moves, new_action-Counts, finish_action-Counts, record_capture-Counts,
  close_unrecovered-Counts,
}
use ai_revenue_recovery_agen.Agent.Decide.{decide_and_persist, persist}
use ai_revenue_recovery_agen.Services.Pipeline.Context.{
  advance_minutes, risk_enrich, persist_policy_decision,
}
use ai_revenue_recovery_agen.Services.Pipeline.Escalation.{
  has_escalation, ensure_escalation, force_escalation_decision, expire_open_escalations,
}
use ai_revenue_recovery_agen.Services.Pipeline.Step.{decide, stamp_attempt}
use ai_revenue_recovery_agen.Services.Pipeline.Step.Stable.{Stable}
use ai_revenue_recovery_agen.Services.Pipeline.Advance.{advance_case}
use ai_revenue_recovery_agen.Services.Pipeline.Advance.Effects.{advance_case-Keeps}

module _ (env : Env) where
  parks :
      (reason : Reason) (cfg : PolicyConfig) (w : Work)
      → Counts w (ensure_escalation env reason cfg w)
  unfolding ensure_escalation add_escalation next_ref log append_event
  parks reason cfg w = elim (Bool-cases (has_escalation w.case.id w.session.escalations)) [
    | inl y ↦ rw y (λ h. h)
    | inr n ↦ rw n (λ h. h)
  ]

  effects : (deps : ExecutorDeps) → Stable env deps Counts
  unfolding risk_enrich decide decide_and_persist persist advance_minutes persist_policy_decision
      force_escalation_decision expire_open_escalations charge_simulated queue_notifications
      add_notification ask_payment add_escalation stamp_attempt next_ref log append_event
  effects deps = record {
    order = order;
    moves = λ to actor reason h. moves env to actor reason;
    captures = record_capture-Counts env;
    closes = close_unrecovered-Counts env;
    enriches = λ w h. h;
    decides = λ w h. h;
    ticks = λ minutes w h. h;
    gates = λ d r w h. h;
    parks = λ reason w. parks reason deps.cfg w;
    overrides = λ reason w h. h;
    expires = λ w h. h;
    starts = new_action-Counts env;
    ends = finish_action-Counts env;
    charges = λ w h. h;
    notifies = λ a b w h. h;
    asks = λ w h. h;
    escalates = λ code note w h. h;
    stamps = λ w h. h;
  }

-- If the action rows are numbered, they still are after a call of `advance_case` that returns.
pub advance_case-Counts :
    (env : Env) (deps : ExecutorDeps) (w : Work) → Post (Counts w) (advance_case env deps w)
advance_case-Counts env deps = (advance_case-Keeps (effects env deps)).at
