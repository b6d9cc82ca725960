-- ===== src/Services/Ingest/Capture.antt =====
-- What a capture by webhook leaves of the tables, and the session that it is flushed to.
use ai_revenue_recovery_agen.Prelude.{
  ℕ, ◌≤◌, ◌≡◌, refl, ◌∙◌, true, Option, some, String, arith, Bool-cases, inl, inr, All,
}
use ai_revenue_recovery_agen.Format.{Reason}
use ai_revenue_recovery_agen.Db.Enums.{CaseStatus, ExecutionMode, Actor, status_eq}
use ai_revenue_recovery_agen.Db.Models.{Payment, RecoveryCase, Detail}
use ai_revenue_recovery_agen.Db.Tables.{IsTable-grow, IsTable-put, Agrees}
use ai_revenue_recovery_agen.Domain.Fsm.{can_transition, assert_transition}
use ai_revenue_recovery_agen.Outside.{Env}
use ai_revenue_recovery_agen.Work.{Work, modify}
use ai_revenue_recovery_agen.Work.Keeps.{
  Keeps, Post-map, Preorder, Keeps-bind, Keeps-pure, Keeps-modify,
}
use ai_revenue_recovery_agen.Verification.{record_capture, close_unrecovered}
use ai_revenue_recovery_agen.Services.Loading.{flushed, replace_case, replace_payment}
use ai_revenue_recovery_agen.Services.Audit.{append_event, validate_chain}
use ai_revenue_recovery_agen.Services.Audit.Chain.{append_event-valid}
use ai_revenue_recovery_agen.Services.CaseService.{transition, set_status, log}
use ai_revenue_recovery_agen.Executors.Keys.{Counts}
use ai_revenue_recovery_agen.Services.Ingest.Effects.{Safe, IsKeyed, same_chain}

module _ (env : Env) where
  -- What `record_capture` leaves as it was.
  pub record Quiet (u v : Work) : Type 0 where
    pub payments : v.session.payments ≡ u.session.payments
    pub cases : v.session.cases ≡ u.session.cases
    pub webhooks : v.session.webhook_events ≡ u.session.webhook_events
    pub grows : u.session.next_id ≤ v.session.next_id
    pub case_id : v.case.id ≡ u.case.id
    pub of_payment : v.case.payment_id ≡ u.case.payment_id
    pub payment_id : v.payment.id ≡ u.payment.id
    pub rzp_payment_id : v.payment.rzp_payment_id ≡ u.payment.rzp_payment_id
    pub chains :
        (id : ℕ) → validate_chain env id u.session ≡ true → validate_chain env id v.session ≡ true

  pub order : Preorder Quiet
  order = record {
    stays = λ w. record {
      payments = refl;
      cases = refl;
      webhooks = refl;
      grows = omega arith;
      case_id = refl;
      of_payment = refl;
      payment_id = refl;
      rzp_payment_id = refl;
      chains = λ id v. v;
    };
    follows = λ u v w f g. record {
      payments = g.payments ∙ f.payments;
      cases = g.cases ∙ f.cases;
      webhooks = g.webhooks ∙ f.webhooks;
      grows = omega (arith, f.grows, g.grows);
      case_id = g.case_id ∙ f.case_id;
      of_payment = g.of_payment ∙ f.of_payment;
      payment_id = g.payment_id ∙ f.payment_id;
      rzp_payment_id = g.rzp_payment_id ∙ f.rzp_payment_id;
      chains = λ id v. g.chains id (f.chains id v);
    };
  }

  -- Another case row and payment row at work with the keys of those before.
  rewritten :
      (w : Work) (c : RecoveryCase) (p : Payment)
      → c.id ≡ w.case.id
      → c.payment_id ≡ w.case.payment_id
      → p.id ≡ w.payment.id
      → p.rzp_payment_id ≡ w.payment.rzp_payment_id
      → Quiet w (record w { case = c; payment = p })
  rewritten w c p i k j l = record {
    payments = refl;
    cases = refl;
    webhooks = refl;
    grows = omega arith;
    case_id = i;
    of_payment = k;
    payment_id = j;
    rzp_payment_id = l;
    chains = λ id v. v;
  }

  -- A write that keeps the tables and the keys, up to events of the log.
  logged :
      (actor : Actor) (event_type : String) (d : Detail) (u v : Work)
      → Quiet u v
      → Quiet u (log env actor event_type d v)
  unfolding log append_event
  logged actor event_type d u v q = record {
    payments = q.payments;
    cases = q.cases;
    webhooks = q.webhooks;
    grows = omega (arith, q.grows);
    case_id = q.case_id;
    of_payment = q.of_payment;
    payment_id = q.payment_id;
    rzp_payment_id = q.rzp_payment_id;
    chains = λ id h.
        append_event-valid env id (some v.case.id) actor event_type d v.session (q.chains id h);
  }

  pub moves :
      (to : CaseStatus) (actor : Actor) (reason : Reason)
      → Keeps Quiet (transition env to actor reason)
  unfolding transition assert_transition modify set_status
  moves to actor reason = record {
    at = λ w. elim (Bool-cases (can_transition w.case.status to)) [
      | inl y ↦ rw y (logged _ _ _ w _ (rewritten w _ w.payment refl refl refl refl))
      | inr f ↦ rw f tt
    ];
  }

  pub record_capture-Quiet :
      (gateway_ref : Option Reason) (mode : ExecutionMode) (source : String)
      → Keeps Quiet (record_capture env gateway_ref mode source)
  unfolding record_capture
  record_capture-Quiet gateway_ref mode source = record {
    at = λ w. elim (Bool-cases (status_eq w.case.status CaseStatus.recovered)) [
      | inl y ↦ rw y ((Keeps-pure order tt).at w)
      | inr n ↦ rw n (
          Post-map (Quiet _) (Quiet w) _
            (λ v q. order.follows w _ v (rewritten w _ _ refl refl refl refl) q)
            ((Keeps-bind order _ _ (moves CaseStatus.recovered _ _) λ _.
                Keeps-modify _
                  λ v. logged _ _ _ v _ (rewritten v _ v.payment refl refl refl refl)).at
              _))
    ];
  }

  pub close_unrecovered-Quiet : (reason : Reason) → Keeps Quiet (close_unrecovered env reason)
  unfolding close_unrecovered
  close_unrecovered-Quiet reason = record {
    at = λ w. elim (Bool-cases (status_eq w.case.status CaseStatus.closed_unrecovered)) [
      | inl y ↦ rw y ((Keeps-pure order tt).at w)
      | inr n ↦ rw n (
          Post-map (Quiet _) (Quiet w) _
            (λ v q. order.follows w _ v (rewritten w _ w.payment refl refl refl refl) q)
            ((Keeps-bind order _ _ (moves CaseStatus.closed_unrecovered _ _) λ _.
                Keeps-modify _
                  λ v. logged _ _ _ v _ (rewritten v _ v.payment refl refl refl refl)).at
              _))
    ];
  }

  -- What is flushed of a quiet change.
  pub flushed-Safe :
      (u v : Work)
      → Quiet u v
      → Counts u v
      → (IsKeyed u.session
          → All
              (Agrees (λ (p : Payment). p.id) (λ p. p.rzp_payment_id) u.payment)
              u.session.payments)
      → (IsKeyed u.session
          → All (Agrees (λ (c : RecoveryCase). c.id) (λ c. c.payment_id) u.case) u.session.cases)
      → Safe env u.session (flushed v)
  unfolding flushed replace_case replace_payment
  flushed-Safe u v q n p c = record {
    webhooks = q.webhooks;
    keyed = λ k. record {
      payments =
          let same = q.payments in
          rw same (
            IsTable-put _ _ v.session.next_id u.session.payments u.payment v.payment (p k)
              q.payment_id q.rzp_payment_id (IsTable-grow _ _ _ _ _ q.grows k.payments));
      cases =
          let same = q.cases in
          rw same (
            IsTable-put _ _ v.session.next_id u.session.cases u.case v.case (c k) q.case_id
              q.of_payment (IsTable-grow _ _ _ _ _ q.grows k.cases));
      webhooks = let same = q.webhooks in rw same (IsTable-grow _ _ _ _ _ q.grows k.webhooks);
    };
    chains = λ id h. same_chain env v.session _ refl id (q.chains id h);
    actions = n;
  }
