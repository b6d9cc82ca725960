-- ===== src/Scripts/Replay.antt =====
-- scripts/replay_webhook.py: one delivery of the dataset sent several times, into the database or to the
-- API. The files of the dataset and the JSON printer are arguments.
pub mod Once
use ai_revenue_recovery_agen.Prelude.{
  ℕ, zero, suc, Bool, true, false, Option, none, some, List, [], ◌∷◌, String, str_eq, if◌then◌else◌,
}
use ai_revenue_recovery_agen.Result.{Error, Result, ok, err, ◌>>=◌}
use ai_revenue_recovery_agen.Db.Session.{Session}
use ai_revenue_recovery_agen.Outside.{Env}
use ai_revenue_recovery_agen.Services.Ingest.{ingest_event}
use ai_revenue_recovery_agen.Services.Ingest.Payload.{Event, Entity, Seed, IngestResult}
use ai_revenue_recovery_agen.Services.Ingest.Rows.{required}
use ai_revenue_recovery_agen.Batch.Baselines.{is_failed}
use ai_revenue_recovery_agen.Api.{Secrets, Reply, sent, razorpay_webhook}

-- `row and row.get("case_key") == case_key`
abbrev has_key : String → Option Seed → Bool
has_key case_key none = false
has_key case_key (some row) = elim row.truth.case_key [ none ↦ false | some k ↦ str_eq k case_key ]

abbrev with_row : Event → Option Seed → Result (Event × Seed) → Result (Event × Seed)
with_row event none rest = rest
with_row event (some row) rest = ok (event, row)

-- `_find_event`: the first failed event of the case, with its row; it exits where there is none.
unfoldable pub find_event : String → (String → Option Seed) → List Event → Result (Event × Seed)
find_event case_key gt [] = err Error.missing_key
find_event case_key gt (event ∷ events) =
    let rest = find_event case_key gt events in
    if is_failed event.event
    then (required Error.missing_key event.entity >>= λ entity.
        required Error.missing_key entity.id >>= λ pid.
        if has_key case_key (gt pid) then with_row event (gt pid) rest else rest)
    else rest

-- `_sign`, by the same HMAC as the one of the API.
unfoldable pub sign : Secrets → String → String
sign secrets raw = secrets.digest raw

module _ (env : Env) where
  -- `_direct`, so many times, each in a transaction of its own: what each answers.
  unfoldable pub direct : ℕ → Event → Option Seed → Session → Result (List IngestResult × Session)
  direct zero event gt s = ok ([], s)
  direct (suc times) event gt s = ingest_event env event true gt true s >>= λ (r, t).
      direct times event gt t >>= λ (rs, u). ok (r ∷ rs, u)

  -- `_via_api`, so many times: the replies to a body that is signed with the secret of the API.
  unfoldable pub via_api : Secrets → ℕ → String → Session → List (Reply IngestResult) × Session
  unfolding sign
  via_api secrets zero body s = ([], s)
  via_api secrets (suc times) body s =
      let (r, t) = razorpay_webhook env secrets body (some (sign secrets body)) s in
      let (rs, u) = via_api secrets times body t in (r ∷ rs, u)
