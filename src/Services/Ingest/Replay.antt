-- ===== src/Services/Ingest/Replay.antt =====
-- What `ingest_event` keeps, and a delivery that is replayed.
use mathlib.Core.Path.{subst}
use text.Mathlib.TextPositions.{eq_refl}
use text.Mathlib.TextEquality.{eq_iff}
use ai_revenue_recovery_agen.Prelude.{
  ℕ, ◌≡◌, ◌≢◌, refl, sym, Bool, true, false, Option, none, some, String, str_eq, arith, Bool-cases,
  Option-cases, inl, inr, All, All-map, any_fails, any_hit, get_or,
}
use ai_revenue_recovery_agen.Result.{Error, Result, ok, err}
use ai_revenue_recovery_agen.Db.Enums.{WebhookEventType, Actor}
use ai_revenue_recovery_agen.Db.Models.{WebhookEvent, Detail}
use ai_revenue_recovery_agen.Db.Session.{Session}
use ai_revenue_recovery_agen.Db.Tables.{IsTable-grow, IsTable-insert}
use ai_revenue_recovery_agen.Outside.{Env}
use ai_revenue_recovery_agen.Services.Audit.{append_event, validate_chain}
use ai_revenue_recovery_agen.Services.Audit.Chain.{append_event-valid}
use ai_revenue_recovery_agen.Executors.Keys.{IsNumbered}
use ai_revenue_recovery_agen.Services.Ingest.{
  by_class, ingest_event, add_webhook, seen, ingested, duplicate,
}
use ai_revenue_recovery_agen.Services.Ingest.Payload.{Event, Seed, IngestResult, classify}
use ai_revenue_recovery_agen.Services.Ingest.Rows.{required}
use ai_revenue_recovery_agen.Services.Ingest.Effects.{
  Holds-map, Holds, Safe, Safe-refl, IsKeyed, same_chain,
}
use ai_revenue_recovery_agen.Services.Ingest.Payments.{SafeResult, on_payment-Safe}

differ : (a b : String) → str_eq a b ≡ false → b ≢ a
differ a b n e = let t = (eq_iff a b).1 (sym e) in grind arith

-- What a result that is there satisfies.
taken : {A : Type 0} (P : A → Type 0) (r : Result A) (a : A) → r ≡ ok a → Holds P r → P a
taken P r a e h = subst (Holds P) e h

-- A delivery without an id raises.
pub ingest_nameless :
    (env : Env) (event : Event) (valid : Bool) (ground_truth : Option Seed) (is_simulated : Bool)
    (s : Session)
    → event.id ≡ none
    → ingest_event env event valid ground_truth is_simulated s ≡ err Error.missing_key
unfolding ingest_event required
ingest_nameless env event valid ground_truth is_simulated s e = rw e refl

module _ (env : Env) (event : Event) (id : String) (e : event.id ≡ some id) where
  abbrev pub received : Bool → Session → Session
  received valid s = add_webhook id (get_or event.event "other") valid s

  -- The session after a delivery that was not skipped as an error.
  pub record After (s t : Session) : Type 0 where
    pub recorded : seen id t.webhook_events ≡ true
    pub keyed : IsKeyed s → IsKeyed t
    pub chains : (c : ℕ) → validate_chain env c s ≡ true → validate_chain env c t ≡ true
    pub actions : IsNumbered s.actions → IsNumbered t.actions

  module _ (valid : Bool) (ground_truth : Option Seed) (is_simulated : Bool) (s : Session) where
    abbrev pub run : Result (IngestResult × Session)
    run = ingest_event env event valid ground_truth is_simulated s

    pub ingest_seen : seen id s.webhook_events ≡ true → run ≡ ok (duplicate id, s)
    unfolding ingest_event required
    ingest_seen y = rw (e, y) refl

    received-seen : seen id (received valid s).webhook_events ≡ true
    unfolding add_webhook
    received-seen = any_hit _ _ s.webhook_events (eq_refl id)

    received-IsKeyed : seen id s.webhook_events ≡ false → IsKeyed s → IsKeyed (received valid s)
    unfolding add_webhook
    received-IsKeyed n k = record {
      payments = IsTable-grow _ _ _ _ _ (omega arith) k.payments;
      cases = IsTable-grow _ _ _ _ _ (omega arith) k.cases;
      webhooks = IsTable-insert _ _ s.next_id _ s.webhook_events refl others k.webhooks;
    }
      where
        others : All (λ (w : WebhookEvent). id ≢ w.event_id) s.webhook_events
        others =
            All-map _ _ s.webhook_events (λ w f. differ w.event_id id f)
              (any_fails _ s.webhook_events n)

    -- What keeps the tables after the delivery is recorded.
    after :
        seen id s.webhook_events ≡ false → (t : Session) → Safe env (received valid s) t → After s t
    after n t f = record {
      recorded = let same = f.webhooks in rw same received-seen;
      keyed = λ k. f.keyed (received-IsKeyed n k);
      chains = λ c v. f.chains c (unfold add_webhook in same_chain env s _ refl c v);
      actions = λ h. f.actions (unfold add_webhook in h);
    }

    ingest_new :
        seen id s.webhook_events ≡ false
        → valid ≡ true
        → run
          ≡ by_class env
              (classify (get_or event.event "other"))
              id
              (get_or event.event "other")
              event
              ground_truth
              is_simulated
              (received true s)
    unfolding ingest_event required
    ingest_new n v = rw (e, n, v) refl

    unfoldable pub forged : Session
    forged =
        append_event env none Actor.system "WEBHOOK_REJECTED"
          (Detail.webhook_rejected id "invalid signature") (received false s)

    pub ingest_forged :
        seen id s.webhook_events ≡ false
        → valid ≡ false
        → run ≡ ok (ingested id false none "invalid signature", forged)
    unfolding ingest_event required forged
    ingest_forged n v = rw (e, n, v) refl

  module _ (ground_truth : Option Seed) (is_simulated : Bool) (s : Session) where
    by_class-Safe :
        (t : WebhookEventType)
        → Holds (SafeResult env (received true s)) (
            by_class env t id
              (get_or event.event "other")
              event
              ground_truth
              is_simulated
              (received true s))
    by_class-Safe WebhookEventType.payment_failed =
        on_payment-Safe env false id event ground_truth is_simulated _
    by_class-Safe WebhookEventType.payment_captured =
        on_payment-Safe env true id event ground_truth is_simulated _
    by_class-Safe _ = Safe-refl env (received true s)

    forged-Safe : Safe env (received false s) (forged false ground_truth is_simulated s)
    unfolding forged append_event
    forged-Safe = record {
      webhooks = refl;
      keyed = λ k. record {
        payments = IsTable-grow _ _ _ _ _ (omega arith) k.payments;
        cases = IsTable-grow _ _ _ _ _ (omega arith) k.cases;
        webhooks = IsTable-grow _ _ _ _ _ (omega arith) k.webhooks;
      };
      chains = λ c v. append_event-valid env c none _ _ _ _ v;
      actions = λ h. h;
    }

    ingest_event-After :
        (valid : Bool)
        → Holds
            (λ (r : IngestResult × Session). After s r.1)
            (ingest_event env event valid ground_truth is_simulated s)
    ingest_event-After valid = elim (Bool-cases (seen id s.webhook_events)) [
      | inl y ↦
          rw (ingest_seen valid ground_truth is_simulated s y)
            (record { recorded = y; keyed = λ k. k; chains = λ c v. v; actions = λ h. h })
      | inr n ↦ new valid n
    ]
      where
        weaken :
            (valid : Bool) (r : Result (IngestResult × Session))
            → seen id s.webhook_events ≡ false
            → Holds (SafeResult env (received valid s)) r
            → Holds (λ (r : IngestResult × Session). After s r.1) r
        weaken valid (ok (a, t)) n h = after valid ground_truth is_simulated s n t h
        weaken valid (err x) n h = tt

        new :
            (valid : Bool)
            → seen id s.webhook_events ≡ false
            → Holds
                (λ (r : IngestResult × Session). After s r.1)
                (ingest_event env event valid ground_truth is_simulated s)
        new true n =
            rw (ingest_new true ground_truth is_simulated s n refl)
              (weaken true _ n (by_class-Safe (classify (get_or event.event "other"))))
        new false n =
            rw (ingest_forged false ground_truth is_simulated s n refl)
              (after false ground_truth is_simulated s n _ forged-Safe)

module _ (env : Env) (event : Event) (valid : Bool) (ground_truth : Option Seed)
    (is_simulated : Bool) (s t : Session) (id : String) (r : IngestResult) where
  abbrev pub Returns : Type 0
  Returns = ingest_event env event valid ground_truth is_simulated s ≡ ok (r, t)

  afterwards : (e : event.id ≡ some id) → Returns → After env event id e s t
  afterwards e h =
      taken _ _ (r, t) h (ingest_event-After env event id e ground_truth is_simulated s valid)

  -- After a delivery that returns, every further delivery with its id, whatever its payload and
  -- signature, answers that it is a duplicate and leaves the session as it is.
  pub ingest_event_replay :
      (again : Event) (valid' : Bool) (ground_truth' : Option Seed) (is_simulated' : Bool)
      → event.id ≡ some id
      → again.id ≡ some id
      → Returns
      → ingest_event env again valid' ground_truth' is_simulated' t ≡ ok (duplicate id, t)
  ingest_event_replay again valid' ground_truth' is_simulated' e a h =
      ingest_seen env again id a valid' ground_truth' is_simulated' t (afterwards e h).recorded

  -- A delivery that returns keeps the unique keys (no two payments of one gateway id, no two cases of one
  -- payment, no two deliveries of one event id), and every audit chain that validated still does.
  pub ingest_event-IsKeyed :
      event.id ≡ some id
      → Returns
      → (IsKeyed s → IsKeyed t)
        × ((case_id : ℕ)
            → validate_chain env case_id s ≡ true
            → validate_chain env case_id t ≡ true)
  ingest_event-IsKeyed e h = let a = afterwards e h in (a.keyed, a.chains)

-- The same of every result.
pub ingest_event-Kept :
    (env : Env) (event : Event) (valid : Bool) (ground_truth : Option Seed) (is_simulated : Bool)
    (s : Session)
    → Holds
        (λ (r : IngestResult × Session).
          (IsKeyed s → IsKeyed r.1)
          × ((c : ℕ) → validate_chain env c s ≡ true → validate_chain env c r.1 ≡ true)
          × (IsNumbered s.actions → IsNumbered r.1.actions))
        (ingest_event env event valid ground_truth is_simulated s)
ingest_event-Kept env event valid ground_truth is_simulated s = elim (Option-cases event.id) [
  | inl n ↦ rw (ingest_nameless env event valid ground_truth is_simulated s n) tt
  | inr (id, e) ↦
      Holds-map _ _ (ingest_event env event valid ground_truth is_simulated s)
        (λ r a. (a.keyed, a.chains, a.actions))
        (ingest_event-After env event id e ground_truth is_simulated s valid)
]

-- A delivery with a wrong signature and a new id returns, writes no payment and no case, and takes the
-- id: the genuine delivery with this id is then skipped as a duplicate.
pub forged_blocks :
    (env : Env) (event genuine : Event) (ground_truth : Option Seed) (is_simulated : Bool)
    (s : Session) (id : String)
    → event.id ≡ some id
    → genuine.id ≡ some id
    → seen id s.webhook_events ≡ false
    → (t : Session) × (ingest_event env event false ground_truth is_simulated s
        ≡ ok (ingested id false none "invalid signature", t))
      × (t.payments ≡ s.payments)
      × (t.cases ≡ s.cases)
      × (ingest_event env genuine true ground_truth is_simulated t ≡ ok (duplicate id, t))
unfolding forged add_webhook append_event
forged_blocks env event genuine ground_truth is_simulated s id e g n =
    let h = ingest_forged env event id e false ground_truth is_simulated s n refl in
    (
      forged env event id e false ground_truth is_simulated s,
      h,
      refl,
      refl,
      ingest_event_replay env event false ground_truth is_simulated s _ id _ genuine true
          ground_truth is_simulated e g h,
    )
