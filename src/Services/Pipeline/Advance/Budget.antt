-- ===== src/Services/Pipeline/Advance/Budget.antt =====
-- A run stays within the two budgets that the policy gate guards: the retries and the contacts.
use ai_revenue_recovery_agen.Prelude.{refl, inl, inr, Bool-cases}
use ai_revenue_recovery_agen.Result.{Result, ok, err}
use ai_revenue_recovery_agen.Format.{Reason}
use ai_revenue_recovery_agen.Db.Enums.{CaseStatus, Actor, status_eq}
use ai_revenue_recovery_agen.Outside.{Env}
use ai_revenue_recovery_agen.Work.{Work}
use ai_revenue_recovery_agen.Work.Keeps.{Keeps, Post, Preorder, Keeps-pure, Post-map, Post-modify}
use ai_revenue_recovery_agen.Services.Audit.{append_event}
use ai_revenue_recovery_agen.Services.CaseService.{transition, log}
use ai_revenue_recovery_agen.Verification.{close_unrecovered}
use ai_revenue_recovery_agen.Executors.{ExecutorDeps}
use ai_revenue_recovery_agen.Services.Pipeline.Context.{notify_count}
use ai_revenue_recovery_agen.Services.Pipeline.Step.Stable.{charging, contacting}
use ai_revenue_recovery_agen.Services.Pipeline.Step.Gauge.{Spent, entered}
use ai_revenue_recovery_agen.Services.Pipeline.Step.Budget.{
  Budgeted, Meter, Within, used, within, step-Within,
}
use ai_revenue_recovery_agen.Services.Pipeline.Step.Retries.{retries}
use ai_revenue_recovery_agen.Services.Pipeline.Step.Contacts.{contacts}
use ai_revenue_recovery_agen.Services.Pipeline.Advance.{advance_case}
use ai_revenue_recovery_agen.Services.Pipeline.Advance.Effects.{run-Keeps}

module _ {env : Env} {deps : ExecutorDeps} (meter : Meter env deps) where
  abbrev Stays : Work → Work → Type 0
  Stays u v = Within meter u → Within meter v

  order : Preorder Stays
  order = record { stays = λ w h. h; follows = λ u v w f g h. g (f h) }

  given :
      {A : Type 0} (u : Work) (r : Result (A × Work))
      → (Within meter u → Post (Within meter) r)
      → Post (Stays u) r
  given u (ok (a, v)) h = h
  given u (err e) h = tt

  closes : (reason : Reason) → Keeps Stays (close_unrecovered env reason)
  unfolding close_unrecovered log append_event
  closes reason = record {
    at = λ w. elim (Bool-cases (status_eq w.case.status CaseStatus.closed_unrecovered)) [
      | inl y ↦ rw y ((Keeps-pure order tt).at w)
      | inr n ↦ rw n (
          given w _ (λ h.
            Post-modify (Spent meter.gauge (used meter w)) (Within meter)
              (transition env CaseStatus.closed_unrecovered Actor.system reason) _ _
              (entered meter.gauge CaseStatus.closed_unrecovered _ _ _ refl)
              (λ v (e, n). within h.0 e n)))
    ];
  }

  -- A run that starts within the limit ends within it.
  keeps_within : (w : Work) → Within meter w → Post (Within meter) (advance_case env deps w)
  keeps_within w h =
      Post-map (Stays w) (Within meter) (advance_case env deps w) (λ v f. f h)
        ((run-Keeps env deps order (record { at = λ u. given u _ (step-Within meter u) })
            (closes _)).at
          w)

-- If a case has at most the retries that the policy allows, and one less when it is approved and its
-- latest decision charges, the same holds after a call of `advance_case` that returns.
pub advance_case_retries :
    (env : Env) (deps : ExecutorDeps) (w : Work)
    → Budgeted w.case.retry_count deps.cfg.max_retries charging w
    → Post
        (λ v. Budgeted v.case.retry_count deps.cfg.max_retries charging v)
        (advance_case env deps w)
unfolding retries
advance_case_retries env deps = keeps_within (retries env deps)

-- If a case has at most the contacts that the cap of the policy allows, and one less when it is approved
-- and its latest decision sends a link, the same holds after a call of `advance_case` that returns.
pub advance_case_contacts :
    (env : Env) (deps : ExecutorDeps) (w : Work)
    → Budgeted (notify_count w.case.id w.session.actions) deps.cfg.contact_cap_7d contacting w
    → Post
        (λ v.
          Budgeted (notify_count v.case.id v.session.actions) deps.cfg.contact_cap_7d contacting v)
        (advance_case env deps w)
unfolding contacts
advance_case_contacts env deps = keeps_within (contacts env deps)
