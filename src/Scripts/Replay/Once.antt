-- ===== src/Scripts/Replay/Once.antt =====
-- A delivery that is replayed counts once.
use ai_revenue_recovery_agen.Prelude.{
  ℕ, zero, suc, ◌≡◌, ◌≢◌, refl, ◌∙◌, ap, true, false, Option, none, some, List, [], ◌∷◌, String,
  inr,
}
use ai_revenue_recovery_agen.Result.{ok}
use ai_revenue_recovery_agen.Db.Session.{Session}
use ai_revenue_recovery_agen.Outside.{Env}
use ai_revenue_recovery_agen.Services.Ingest.{ingest_event, duplicate}
use ai_revenue_recovery_agen.Services.Ingest.Payload.{Event, Seed, IngestResult}
use ai_revenue_recovery_agen.Services.Ingest.Replay.{ingest_event_replay}
use ai_revenue_recovery_agen.Api.{Secrets, sent, scoped, razorpay_webhook}
use ai_revenue_recovery_agen.Api.Webhooks.{verify_signature_iff}
use ai_revenue_recovery_agen.Scripts.Replay.{sign, direct, via_api}

abbrev pub replicate : {A : Type 0} → ℕ → A → List A
replicate zero a = []
replicate (suc n) a = a ∷ replicate n a

-- The API accepts what the script signs, and ingests it as a genuine delivery, if the digest is not empty.
pub razorpay_webhook-sign :
    (env : Env) (secrets : Secrets) (body : String) (event : Event) (s : Session)
    → secrets.digest body ≢ ""
    → secrets.loads body ≡ some event
    → razorpay_webhook env secrets body (some (sign secrets body)) s
      ≡ scoped s (ingest_event env event true none false s)
unfolding razorpay_webhook sign
razorpay_webhook-sign env secrets body event s n e =
    let v = (verify_signature_iff secrets body (secrets.digest body)).1 (inr (n, refl)) in
    rw (v, e) refl

module _ (env : Env) (event : Event) (id : String) (named : event.id ≡ some id) where
  again :
      (gt : Option Seed) (times : ℕ) (s t : Session) (r : IngestResult)
      → ingest_event env event true gt true s ≡ ok (r, t)
      → direct env times event gt t ≡ ok (replicate times (duplicate id), t)
  unfolding direct
  again gt zero s t r h = refl
  again gt (suc times) s t r h =
      let d =
        ingest_event_replay env event true gt true s t id r event true gt true named named h in
      let rest = again gt times t t (duplicate id) d in rw (d, rest) refl

  -- However often a delivery is replayed, if the first one returns, the others answer that they are duplicates, and
  -- the database is the one that the first leaves.
  pub direct_once :
      (gt : Option Seed) (times : ℕ) (s t : Session) (r : IngestResult)
      → ingest_event env event true gt true s ≡ ok (r, t)
      → direct env (suc times) event gt s ≡ ok (r ∷ replicate times (duplicate id), t)
  unfolding direct
  direct_once gt times s t r h = let rest = again gt times s t r h in rw (h, rest) refl

  module _ (secrets : Secrets) (body : String) (digests : secrets.digest body ≢ "")
      (loads : secrets.loads body ≡ some event) where
    signed :
        (s t : Session) (r : IngestResult)
        → ingest_event env event true none false s ≡ ok (r, t)
        → razorpay_webhook env secrets body (some (sign secrets body)) s ≡ (sent r, t)
    signed s t r h = razorpay_webhook-sign env secrets body event s digests loads ∙ ap (scoped s) h

    replayed :
        (times : ℕ) (s t : Session) (r : IngestResult)
        → ingest_event env event true none false s ≡ ok (r, t)
        → via_api env secrets times body t ≡ (replicate times (sent (duplicate id)), t)
    unfolding via_api
    replayed zero s t r h = refl
    replayed (suc times) s t r h =
        let d =
          ingest_event_replay env event true none false s t id r event true none false named named
            h in
        let w = signed t t (duplicate id) d in
        let rest = replayed times t t (duplicate id) d in rw (w, rest) refl

    -- Through the API too: the signature of the script is accepted each time, the first reply is the answer of
    -- the ingestion, the others are duplicates, and the database is the one that the first leaves.
    pub via_api_once :
        (times : ℕ) (s t : Session) (r : IngestResult)
        → ingest_event env event true none false s ≡ ok (r, t)
        → via_api env secrets (suc times) body s
          ≡ (sent r ∷ replicate times (sent (duplicate id)), t)
    unfolding via_api
    via_api_once times s t r h =
        let w = signed s t r h in let rest = replayed times s t r h in rw (w, rest) refl
