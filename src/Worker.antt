-- ===== src/Worker.antt =====
-- app/worker.py: the dependencies of the live service, one tick and the polling loop. A case sees one
-- reading of the real clock, which does not move while the case is advanced. The pauses of the loop are left out.
pub mod Frame
pub mod Ticks
pub mod Starvation
use text.Mathlib.Text.{starts_with}
use ai_revenue_recovery_agen.Prelude.{
  ℕ, zero, suc, ◌+◌, Bool, true, false, not, ◌&&◌, Option, none, some, List, [], ◌∷◌, ◌++◌, String,
  str_eq, if◌then◌else◌, take,
}
use ai_revenue_recovery_agen.Result.{Error, Result, ok, err, ◌>>=◌}
use ai_revenue_recovery_agen.Db.Enums.{in_active_case_statuses}
use ai_revenue_recovery_agen.Db.Models.{RecoveryCase}
use ai_revenue_recovery_agen.Db.Session.{Session}
use ai_revenue_recovery_agen.Policy.Config.{default_policy_config}
use ai_revenue_recovery_agen.Outside.{Env}
use ai_revenue_recovery_agen.Work.{Work, Simulator}
use ai_revenue_recovery_agen.Executors.{ExecutorDeps}
use ai_revenue_recovery_agen.Services.Loading.{case_by_id, payment_by_id, with_payment, flushed}
use ai_revenue_recovery_agen.Services.Pipeline.Advance.{advance_case}

abbrev pub claim_batch : ℕ
claim_batch = 20

-- `build_deps` for the key id of the settings.
unfoldable pub build_deps : String → ExecutorDeps
build_deps razorpay_key_id = record {
  real = not (str_eq razorpay_key_id "") && not (starts_with razorpay_key_id "rzp_test_dummy");
  cfg = default_policy_config;
  fast_forward = false;
}

-- The ids of the active cases, the oldest first.
unfoldable pub active_ids : List RecoveryCase → List ℕ
active_ids [] = []
active_ids (c ∷ cs) =
    let older = active_ids cs in
    if in_active_case_statuses c.status then older ++ c.id ∷ [] else older

unfoldable pub claimed : List RecoveryCase → List ℕ
unfolding active_ids
claimed cs = take claim_batch (active_ids cs)

abbrev pub Ticked : Type 0
Ticked = ℕ × Session × Simulator

-- One more case was processed.
abbrev pub one_more : Ticked → Result Ticked
one_more (n, s, simulator) = ok (n + 1, s, simulator)

module _ (env : Env) (deps : ExecutorDeps) (clock : ℕ → ℕ) where
  abbrev pub Rest : Type 0
  Rest = Session → Simulator → Result Ticked

  -- A case that was loaded; it has a payment by its foreign key.
  abbrev pub advanced : Option Work → Rest → Result Ticked
  advanced none rest = err Error.missing_key
  advanced (some w) rest =
      advance_case env deps w >>= λ (u, v). rest (flushed v) v.simulator >>= one_more

  abbrev pub worked : Option RecoveryCase → Rest → ℕ → Session → Simulator → Result Ticked
  worked none rest k s simulator = rest s simulator
  worked (some c) rest k s simulator =
      advanced (with_payment (clock k) simulator s c (payment_by_id c.payment_id s.payments)) rest

  -- The `for` loop from the k-th id on.
  unfoldable pub work_through : List ℕ → ℕ → Session → Simulator → Result Ticked
  work_through [] k s simulator = ok (0, s, simulator)
  work_through (id ∷ ids) k s simulator =
      worked (case_by_id id s.cases) (λ t r. work_through ids (k + 1) t r) k s simulator

  -- `tick`: how many cases were processed, and what is committed.
  unfoldable pub tick : Session → Simulator → Result Ticked
  unfolding claimed
  tick s simulator = work_through (claimed s.cases) 0 s simulator

-- The loop of `main`: a tick that raises is rolled back, and the next one follows. The adapter object is not:
-- `leftover` is what the simulator holds after a tick that raised. No other transaction comes between.
abbrev pub committed : Result Ticked → Session → Simulator → Session × Simulator
committed (ok (n, t, simulator)) s leftover = (t, simulator)
committed (err e) s leftover = (s, leftover)

module _ (env : Env) (deps : ExecutorDeps) (clock : ℕ → ℕ → ℕ) (leftover : ℕ → Simulator) where
  unfoldable pub polls : ℕ → ℕ → Session → Simulator → Session × Simulator
  polls zero k s simulator = (s, simulator)
  polls (suc n) k s simulator =
      let (t, r) = committed (tick env deps (clock k) s simulator) s (leftover k) in
      polls n (k + 1) t r
