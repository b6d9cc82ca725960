-- ===== src/Batch/Runs/Ends.antt =====
-- What a run of the evaluation leaves to score.
use ai_revenue_recovery_agen.Prelude.{
  ℕ, suc, ◌+◌, ◌≤◌, ◌≡◌, refl, ap, Bool, true, false, length, arith, if◌then◌else◌, Option, List,
  [], ◌∷◌, ◌++◌, String, All, All-map, All-of, map,
}
use ai_revenue_recovery_agen.Result.{Error}
use ai_revenue_recovery_agen.Db.Models.{RecoveryCase}
use ai_revenue_recovery_agen.Db.Session.{Session}
use ai_revenue_recovery_agen.Domain.Fsm.{is_terminal}
use ai_revenue_recovery_agen.Outside.{Env}
use ai_revenue_recovery_agen.Work.{Simulator}
use ai_revenue_recovery_agen.Services.Audit.{validate_chain}
use ai_revenue_recovery_agen.Services.Ingest.{ingest_event}
use ai_revenue_recovery_agen.Services.Ingest.Payload.{Event, Seed, IngestResult}
use ai_revenue_recovery_agen.Services.Ingest.Rows.{required}
use ai_revenue_recovery_agen.Services.Ingest.Effects.{IsKeyed, Holds, Holds-bind, Holds-map}
use ai_revenue_recovery_agen.Services.Ingest.Parts.{required-Holds}
use ai_revenue_recovery_agen.Services.Ingest.Replay.{ingest_event-Kept}
use ai_revenue_recovery_agen.Executors.Keys.{IsNumbered}
use ai_revenue_recovery_agen.Worker.{Ticked}
use ai_revenue_recovery_agen.Worker.Ticks.{Settled, Moved, work_through-Moved}
use ai_revenue_recovery_agen.Batch.Runs.{
  case_ids, ingest_row, ingest_all, drive_all, run_phases, batch_deps, base_epoch, reset_db,
  starting,
}

-- The keys are unique, every chain validates and the actions are numbered.
pub record IsSane (env : Env) (s : Session) : Type 0 where
  pub keyed : IsKeyed s
  pub chains : (id : ℕ) → validate_chain env id s ≡ true
  pub actions : IsNumbered s.actions

reset_db-IsSane : (env : Env) (s : Session) → IsSane env (reset_db s)
unfolding validate_chain reset_db
reset_db-IsSane env s = record {
  keyed = record {
    payments = record { ids = tt; keys = tt; below = tt };
    cases = record { ids = tt; keys = tt; below = tt };
    webhooks = record { ids = tt; keys = tt; below = tt };
  };
  chains = λ id. refl;
  actions = tt;
}

starting-IsSane :
    (env : Env) (keep_db : Bool) (s : Session)
    → (keep_db ≡ true → IsSane env s)
    → IsSane env (starting keep_db s)
unfolding starting
starting-IsSane env true s h = h refl
starting-IsSane env false s h = reset_db-IsSane env s

-- What holds of all ids in the order of creation holds of the table's.
All-case_ids :
    (P : ℕ → Type 0) (cs : List RecoveryCase)
    → All P (case_ids cs)
    → All P (map (λ (c : RecoveryCase). c.id) cs)
unfolding case_ids
All-case_ids P [] h = tt
All-case_ids P (c ∷ cs) h = let (a, b) = split (case_ids cs) h in (b.0, All-case_ids P cs a)
  where
    split : (is : List ℕ) → All P (is ++ c.id ∷ []) → All P is × All P (c.id ∷ [])
    split [] h = (tt, h)
    split (i ∷ is) (p, h) = let (a, b) = split is h in ((p, a), b)

-- If the rows of every id of a list pass, the rows of the list do.
diagonal :
    (P : RecoveryCase → Type 0) (cs : List RecoveryCase)
    → All (λ (c : RecoveryCase). All (λ (d : RecoveryCase). d.id ≡ c.id → P d) cs) cs
    → All P cs
diagonal P [] h = tt
diagonal P (c ∷ cs) ((p, q), h) = (p refl, diagonal P cs (All-map _ _ cs (λ d r. r.1) h))

counted : (b : Bool) (n m : ℕ) → n ≤ m → (if b then n + 1 else n) ≤ suc m
counted true n m h = omega arith
counted false n m h = omega arith

same_length :
    {A : Type 0} (f : A → ℕ) (xs ys : List A) → map f xs ≡ map f ys → length xs ≡ length ys
same_length f [] [] e = refl
same_length f [] (y ∷ ys) e = cc
same_length f (x ∷ xs) [] e = cc
same_length f (x ∷ xs) (y ∷ ys) e = ap suc (same_length f xs ys (cc))

module _ (env : Env) (gt : String → Option Seed) where
  ingest_row-IsSane :
      (event : Event) (s : Session)
      → IsSane env s
      → Holds (λ (r : IngestResult × Session). IsSane env r.1) (ingest_row env gt event s)
  unfolding ingest_row
  ingest_row-IsSane event s h =
      Holds-bind _ _ (required Error.missing_key event.entity) _ (required-Holds _ event.entity)
        λ ent e.
          Holds-bind _ _ (required Error.missing_key ent.id) _ (required-Holds _ ent.id) λ pid f.
            Holds-map _ _ (ingest_event env event true (gt pid) true s)
              (λ r (k, c, n). record {
                keyed = k h.keyed;
                chains = λ id. c id (h.chains id);
                actions = n h.actions;
              })
              (ingest_event-Kept env event true (gt pid) true s)

  -- No more deliveries are skipped than there are.
  ingest_all-IsSane :
      (events : List Event) (s : Session)
      → IsSane env s
      → Holds
          (λ (r : ℕ × Session). (r.0 ≤ length events) × IsSane env r.1)
          (ingest_all env gt events s)
  unfolding ingest_all
  ingest_all-IsSane [] s h = (omega arith, h)
  ingest_all-IsSane (e ∷ es) s h =
      Holds-bind _ _ (ingest_row env gt e s) _ (ingest_row-IsSane e s h) λ (r, t) k.
        Holds-bind _ _ (ingest_all env gt es t) _ (ingest_all-IsSane es t k)
          λ (n, u) (l, m). (counted r.duplicated n (length es) l, m)

  -- What is there to score.
  pub record IsFinal (s : Session) : Type 0 where
    pub terminal : All (λ (c : RecoveryCase). is_terminal c.status ≡ true) s.cases
    pub keyed : IsKeyed s
    pub chains : (id : ℕ) → validate_chain env id s ≡ true
    pub actions : IsNumbered s.actions

  -- From the session that the first phase leaves.
  driven :
      (s : Session) (simulator : Simulator)
      → IsSane env s
      → Holds
          (λ (r : Ticked). IsFinal r.1 × (length r.1.cases ≡ length s.cases))
          (drive_all env s simulator)
  unfolding drive_all
  driven s simulator h =
      Holds-map (Moved env (case_ids s.cases) s) _ _
        (λ r m. (
          record {
            terminal = diagonal _ r.1.cases (
                All-of _ (λ id. Settled id r.1) r.1.cases
                  (let e = m.ids_kept in rw e (All-case_ids _ s.cases m.settled)));
            keyed = m.safe.keyed h.keyed;
            chains = λ id. m.safe.chains id (h.chains id);
            actions = m.safe.actions h.actions;
          },
          same_length _ r.1.cases s.cases m.ids_kept,
        ))
        (work_through-Moved env batch_deps (λ k. base_epoch) (case_ids s.cases) 0 s simulator)

  -- What a run leaves: the deliveries skipped, the cases created and the session.
  pub record Ran (events : List Event) (r : ℕ × ℕ × Session) : Type 0 where
    pub skipped : r.0 ≤ length events
    pub created : length r.2.cases ≡ r.1
    pub final : IsFinal r.2

  -- Whatever the dataset and its ground truth are, a run that returns, on a database that is reset or whose
  -- keys, chains and actions are in order, leaves every case at a terminal status, with unique keys, valid
  -- audit chains and numbered actions; it counts the cases that it leaves, and skips no more deliveries than
  -- there are.
  pub run_phases-Ran :
      (keep_db : Bool) (s : Session) (events : List Event)
      → (keep_db ≡ true → IsSane env s)
      → Holds (Ran events) (run_phases env gt keep_db s events)
  unfolding run_phases
  run_phases-Ran keep_db s events h =
      Holds-bind _ _ (ingest_all env gt events (starting keep_db s)) _
        (ingest_all-IsSane events (starting keep_db s) (starting-IsSane env keep_db s h))
        λ (skipped, t) (l, k).
          Holds-bind _ _ (drive_all env t _) _ (driven t _ k)
            λ (processed, u, simulator) (f, e). record { skipped = l; created = e; final = f }
