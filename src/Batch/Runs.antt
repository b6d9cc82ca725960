-- ===== src/Batch/Runs.antt =====
-- `reset_db` and the first two phases of `run` of app/batch/run_eval.py: every event of the dataset is ingested, then every
-- case is driven to its end. The loop over the cases is the one of a tick (`work_through`), with the ids of
-- all cases and a new clock at the dataset's start for each.
pub mod Ends
use ai_revenue_recovery_agen.Prelude.{
  ℕ, ◌+◌, Bool, true, false, Option, none, some, List, [], ◌∷◌, ◌++◌, String, if◌then◌else◌, length,
}
use ai_revenue_recovery_agen.Result.{Error, Result, ok, err, ◌>>=◌}
use ai_revenue_recovery_agen.Db.Models.{RecoveryCase}
use ai_revenue_recovery_agen.Db.Session.{Session, empty_session}
use ai_revenue_recovery_agen.Policy.Config.{default_policy_config}
use ai_revenue_recovery_agen.Outside.{Env}
use ai_revenue_recovery_agen.Work.{Simulator}
use ai_revenue_recovery_agen.Executors.{ExecutorDeps}
use ai_revenue_recovery_agen.Services.Ingest.{ingest_event}
use ai_revenue_recovery_agen.Services.Ingest.Payload.{Event, Seed, IngestResult}
use ai_revenue_recovery_agen.Services.Ingest.Rows.{required}
use ai_revenue_recovery_agen.Worker.{Ticked, work_through}

abbrev pub base_epoch : ℕ
base_epoch = 1754762400

abbrev pub batch_deps : ExecutorDeps
batch_deps = record { real = false; cfg = default_policy_config; fast_forward = true }

-- The ids in the order of `case_ref`, which is the order of creation: its number has at least six digits, so
-- the texts compare as the numbers do below a million.
unfoldable pub case_ids : List RecoveryCase → List ℕ
case_ids [] = []
case_ids (c ∷ cs) = case_ids cs ++ c.id ∷ []

abbrev pub count_duplicate : IngestResult → ℕ × Session → Result (ℕ × Session)
count_duplicate r (n, s) = ok (if r.duplicated then n + 1 else n, s)

-- Every table is emptied; ids that were handed out do not come again.
unfoldable pub reset_db : Session → Session
reset_db s = record empty_session { next_id = s.next_id }

unfoldable pub starting : Bool → Session → Session
unfolding reset_db
starting keep_db s = if keep_db then s else reset_db s

module _ (env : Env) where
  -- Phase 2.
  unfoldable pub drive_all : Session → Simulator → Result Ticked
  drive_all s simulator =
      work_through env batch_deps (λ k. base_epoch) (case_ids s.cases) 0 s simulator

module _ (env : Env) (gt : String → Option Seed) where
  unfoldable pub ingest_row : Event → Session → Result (IngestResult × Session)
  ingest_row event s = required Error.missing_key event.entity >>= λ ent.
      required Error.missing_key ent.id >>= λ pid. ingest_event env event true (gt pid) true s

  -- Phase 1, with the number of deliveries skipped as duplicates.
  unfoldable pub ingest_all : List Event → Session → Result (ℕ × Session)
  ingest_all [] s = ok (0, s)
  ingest_all (e ∷ es) s = ingest_row e s >>= λ (r, t). ingest_all es t >>= count_duplicate r

  -- Both phases: the deliveries skipped, the cases that the first phase leaves, and the session.
  unfoldable pub run_phases : Bool → Session → List Event → Result (ℕ × ℕ × Session)
  run_phases keep_db s events = ingest_all events (starting keep_db s) >>= λ (skipped, t).
      drive_all env t (record { rolls = []; drawn = 0 }) >>= λ (processed, u, simulator).
      ok (skipped, length t.cases, u)
