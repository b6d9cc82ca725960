-- ===== src/Api/Webhooks.antt =====
-- The signature of a webhook, and what a delivery without it can change.
use text.Mathlib.TextEquality.{eq_iff}
use ai_revenue_recovery_agen.Prelude.{
  ◌≡◌, ◌≢◌, ◌↔◌, ◌⊎◌, refl, sym, ◌∙◌, true, false, Option, none, some, String, str_eq, Bool-cases,
  Option-cases, inl, inr, arith,
}
use ai_revenue_recovery_agen.Db.Session.{Session}
use ai_revenue_recovery_agen.Outside.{Env}
use ai_revenue_recovery_agen.Services.Audit.{append_event}
use ai_revenue_recovery_agen.Services.Ingest.{seen, add_webhook}
use ai_revenue_recovery_agen.Services.Ingest.Payload.{Event}
use ai_revenue_recovery_agen.Services.Ingest.Replay.{
  ingest_seen, ingest_forged, ingest_nameless, forged,
}
use ai_revenue_recovery_agen.Api.{Secrets, verify_signature, razorpay_webhook, ingest_body}

false≢true : false ≢ true
false≢true e = grind arith

-- A signature is accepted exactly when it is the text demo, or it is not empty and is the digest of
-- the body.
pub verify_signature_iff :
    (secrets : Secrets) (raw signature : String)
    → (verify_signature secrets raw (some signature) ≡ true)
      ↔ ((signature ≡ "demo") ⊎ ((signature ≢ "") × (secrets.digest raw ≡ signature)))
unfolding verify_signature
verify_signature_iff secrets raw signature = (there, back)
  where
    there :
        verify_signature secrets raw (some signature) ≡ true
        → (signature ≡ "demo") ⊎ ((signature ≢ "") × (secrets.digest raw ≡ signature))
    there h = elim (Bool-cases (str_eq signature "demo")) [
      | inl y ↦ inl ((eq_iff signature "demo").0 y)
      | inr n ↦ (elim (Bool-cases (str_eq signature "")) [
        | inl y ↦ absurd (false≢true (rw (n, y) at h))
        | inr m ↦ inr (
          λ e. false≢true (sym m ∙ (eq_iff signature "").1 e),
          (eq_iff (secrets.digest raw) signature).0 (rw (n, m) at h),
        )
      ])
    ]

    back :
        (signature ≡ "demo") ⊎ ((signature ≢ "") × (secrets.digest raw ≡ signature))
        → verify_signature secrets raw (some signature) ≡ true
    back (inl e) = let y = (eq_iff signature "demo").1 e in rw y refl
    back (inr (some_text, d)) =
        let y = (eq_iff (secrets.digest raw) signature).1 d in
        elim (Bool-cases (str_eq signature "demo")) [
          | inl demo ↦ rw demo refl
          | inr n ↦ (elim (Bool-cases (str_eq signature "")) [
            | inl empty ↦ absurd (some_text ((eq_iff signature "").0 empty))
            | inr m ↦ rw (n, m, y) refl
          ])
        ]

-- The tables that no forged delivery may touch.
pub record Untouched (s t : Session) : Type 0 where
  pub merchants : t.merchants ≡ s.merchants
  pub customers : t.customers ≡ s.customers
  pub payments : t.payments ≡ s.payments
  pub cases : t.cases ≡ s.cases
  pub actions : t.actions ≡ s.actions

Untouched-refl : (s : Session) → Untouched s s
Untouched-refl s = record {
  merchants = refl;
  customers = refl;
  payments = refl;
  cases = refl;
  actions = refl;
}

module _ (env : Env) (secrets : Secrets) where
  event-Untouched :
      (event : Event) (s : Session) → Untouched s (ingest_body env false (some event) s).1
  unfolding forged add_webhook append_event
  event-Untouched event s = elim (Option-cases event.id) [
    | inl n ↦ rw (ingest_nameless env event false none false s n) (Untouched-refl s)
    | inr (id, e) ↦ (elim (Bool-cases (seen id s.webhook_events)) [
      | inl y ↦ rw (ingest_seen env event id e false none false s y) (Untouched-refl s)
      | inr n ↦ rw (ingest_forged env event id e false none false s n refl) (record {
        merchants = refl;
        customers = refl;
        payments = refl;
        cases = refl;
        actions = refl;
      })
    ])
  ]

  -- A delivery whose signature is not accepted changes no merchant, customer, payment, case or action,
  -- whatever its body is.
  pub razorpay_webhook_unsigned :
      (raw : String) (signature : Option String) (s : Session)
      → verify_signature secrets raw signature ≡ false
      → Untouched s (razorpay_webhook env secrets raw signature s).1
  unfolding razorpay_webhook
  razorpay_webhook_unsigned raw signature s h = rw h (body (secrets.loads raw))
    where
      body : (o : Option Event) → Untouched s (ingest_body env false o s).1
      body none = Untouched-refl s
      body (some event) = event-Untouched event s
