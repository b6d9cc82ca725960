-- ===== src/Services/Ingest/Effects.antt =====
-- What the parts of `ingest_event` keep: the unique keys, the deliveries seen, the numbers of the actions and
-- the audit chains.
use ai_revenue_recovery_agen.Prelude.{ℕ, ◌≡◌, refl, ◌∙◌, true, List}
use ai_revenue_recovery_agen.Result.{Result, ok, err, ◌>>=◌}
use ai_revenue_recovery_agen.Db.Models.{Payment, RecoveryCase, WebhookEvent}
use ai_revenue_recovery_agen.Db.Session.{Session}
use ai_revenue_recovery_agen.Db.Tables.{IsTable}
use ai_revenue_recovery_agen.Outside.{Env}
use ai_revenue_recovery_agen.Work.{Work}
use ai_revenue_recovery_agen.Work.Keeps.{Post}
use ai_revenue_recovery_agen.Services.Audit.{validate_chain}
use ai_revenue_recovery_agen.Executors.Keys.{IsNumbered}

-- The value, if there is one, satisfies `P`.
abbrev pub Holds : {A : Type 0} → (A → Type 0) → Result A → Type 0
Holds P (ok a) = P a
Holds P (err e) = Unit

pub Holds-bind :
    {A B : Type 0} (P : A → Type 0) (Q : B → Type 0) (r : Result A) (f : A → Result B)
    → Holds P r
    → ((a : A) → P a → Holds Q (f a))
    → Holds Q (r >>= f)
Holds-bind P Q (ok a) f h k = k a h
Holds-bind P Q (err e) f h k = tt

pub Holds-map :
    {A : Type 0} (P Q : A → Type 0) (r : Result A) → ((a : A) → P a → Q a) → Holds P r → Holds Q r
Holds-map P Q (ok a) f h = f a h
Holds-map P Q (err e) f h = tt

-- A result after an action, by what the action ensures.
pub Holds-post :
    {A B : Type 0} (P : Work → Type 0) (Q : B → Type 0) (r : Result (A × Work))
    (f : A × Work → Result B)
    → Post P r
    → ((a : A) (v : Work) → P v → Holds Q (f (a, v)))
    → Holds Q (r >>= f)
Holds-post P Q (ok (a, v)) f h k = k a v h
Holds-post P Q (err e) f h k = tt

abbrev pub IsPayments : ℕ → List Payment → Type 0
IsPayments = IsTable (λ p. p.id) (λ p. p.rzp_payment_id)

abbrev pub IsCases : ℕ → List RecoveryCase → Type 0
IsCases = IsTable (λ c. c.id) (λ c. c.payment_id)

abbrev pub IsWebhooks : ℕ → List WebhookEvent → Type 0
IsWebhooks = IsTable (λ w. w.id) (λ w. w.event_id)

-- No two payments of one gateway id, no two cases of one payment, no two deliveries of one event id,
-- no two rows of one id, and the ids are handed out.
pub record IsKeyed (s : Session) : Type 0 where
  pub payments : IsPayments s.next_id s.payments
  pub cases : IsCases s.next_id s.cases
  pub webhooks : IsWebhooks s.next_id s.webhook_events

module _ (env : Env) where
  -- What a part of the ingestion does to the session.
  pub record Safe (s t : Session) : Type 0 where
    pub webhooks : t.webhook_events ≡ s.webhook_events
    pub keyed : IsKeyed s → IsKeyed t
    pub chains : (id : ℕ) → validate_chain env id s ≡ true → validate_chain env id t ≡ true
    pub actions : IsNumbered s.actions → IsNumbered t.actions

  pub Safe-refl : (s : Session) → Safe s s
  Safe-refl s = record { webhooks = refl; keyed = λ k. k; chains = λ id v. v; actions = λ n. n }

  pub Safe-trans : (s t u : Session) → Safe s t → Safe t u → Safe s u
  Safe-trans s t u f g = record {
    webhooks = g.webhooks ∙ f.webhooks;
    keyed = λ k. g.keyed (f.keyed k);
    chains = λ id v. g.chains id (f.chains id v);
    actions = λ n. g.actions (f.actions n);
  }

  -- Writes beside the log do not touch the chains.
  pub same_chain :
      (s t : Session)
      → t.audit_events ≡ s.audit_events
      → (id : ℕ) → validate_chain env id s ≡ true
      → validate_chain env id t ≡ true
  unfolding validate_chain
  same_chain s t e id v = rw e v
