-- ===== src/Worker/Ticks.antt =====
-- What a tick of the worker leaves, and the tick that one parked case stops.
use mathlib.Core.Path.{subst}
use ai_revenue_recovery_agen.Prelude.{
  ap, ℕ, ◌+◌, ◌≤◌, ◌≡◌, ◌≢◌, refl, sym, ◌∙◌, true, false, Option, none, some, List, [], ◌∷◌, ◌==◌,
  zero, suc, take, arith, Bool-cases, inl, inr, length, All, All-map, map, find_first-none,
  find_first_passes,
}
use ai_revenue_recovery_agen.Db.Models.{RecoveryCase, Payment}
use ai_revenue_recovery_agen.Db.Session.{Session}
use ai_revenue_recovery_agen.Db.Tables.{Agrees-find_first}
use ai_revenue_recovery_agen.Domain.Fsm.{is_terminal}
use ai_revenue_recovery_agen.Outside.{Env}
use ai_revenue_recovery_agen.Work.{Work, Simulator}
use ai_revenue_recovery_agen.Work.Keeps.{Post-both}
use ai_revenue_recovery_agen.Executors.{ExecutorDeps}
use ai_revenue_recovery_agen.Services.Audit.{validate_chain}
use ai_revenue_recovery_agen.Services.Loading.{
  case_by_id, payment_by_id, with_payment, work_of, flushed, replace_case,
}
use ai_revenue_recovery_agen.Services.Pipeline.Advance.{advance_case}
use ai_revenue_recovery_agen.Services.Pipeline.Advance.Ends.{Over, advance_case-is_terminal}
use ai_revenue_recovery_agen.Services.Ingest.Effects.{
  Safe, Safe-refl, Safe-trans, IsKeyed, Holds, Holds-bind, Holds-map, Holds-post,
}
use ai_revenue_recovery_agen.Services.Ingest.Capture.{Quiet, flushed-Safe}
use ai_revenue_recovery_agen.Worker.{
  claim_batch, active_ids, Ticked, one_more, worked, advanced, work_through, claimed, tick,
}
use ai_revenue_recovery_agen.Executors.Keys.{Counts}
use ai_revenue_recovery_agen.Services.Pipeline.Advance.Actions.{advance_case-Counts}
use ai_revenue_recovery_agen.Worker.Frame.{advance_case-Quiet}

-- Every row of the case is terminal.
abbrev pub Settled : ℕ → Session → Type 0
Settled id s = All (λ (c : RecoveryCase). c.id ≡ id → is_terminal c.status ≡ true) s.cases

differ : (a b : ℕ) → (a == b) ≡ false → a ≢ b
differ a b n e = ground arith

module _ (env : Env) where
  -- A flush of an ended case settles it and unsettles no other.
  flush-Settled :
      (u v : Work) (id : ℕ)
      → Quiet env u v
      → is_terminal v.case.status ≡ true
      → Settled id u.session
      → Settled id (flushed v)
  unfolding flushed replace_case
  flush-Settled u v id q t h = let same = q.cases in rw same (go u.session.cases h)
    where
      go :
          (cs : List RecoveryCase)
          → All (λ (c : RecoveryCase). c.id ≡ id → is_terminal c.status ≡ true) cs
          → All
              (λ (c : RecoveryCase). c.id ≡ id → is_terminal c.status ≡ true)
              (map (replace_case v.case) cs)
      go [] h = tt
      go (c ∷ cs) (h, hs) = (
        elim (Bool-cases (c.id == v.case.id)) [ inl y ↦ rw y (λ i. t) | inr n ↦ rw n h ],
        go cs hs,
      )

  settles :
      (u v : Work)
      → Quiet env u v
      → is_terminal v.case.status ≡ true
      → Settled u.case.id (flushed v)
  unfolding flushed replace_case
  settles u v q t = let same = q.cases in rw same (go u.session.cases)
    where
      go :
          (cs : List RecoveryCase)
          → All
              (λ (c : RecoveryCase). c.id ≡ u.case.id → is_terminal c.status ≡ true)
              (map (replace_case v.case) cs)
      go [] = tt
      go (c ∷ cs) = (
        elim (Bool-cases (c.id == v.case.id)) [
          | inl y ↦ rw y (λ i. t)
          | inr n ↦ rw n (λ i. absurd (differ _ _ n (i ∙ sym q.case_id)))
        ],
        go cs,
      )

  -- A flush keeps the ids of the cases.
  flush_ids :
      (u v : Work)
      → Quiet env u v
      → map (λ (c : RecoveryCase). c.id) (flushed v).cases ≡ map (λ c. c.id) u.session.cases
  unfolding flushed replace_case
  flush_ids u v q = let same = q.cases in rw same (go u.session.cases)
    where
      go :
          (cs : List RecoveryCase)
          → map (λ (c : RecoveryCase). c.id) (map (replace_case v.case) cs) ≡ map (λ c. c.id) cs
      go [] = refl
      go (c ∷ cs) = elim (Bool-cases (c.id == v.case.id)) [
        | inl y ↦
            let e : v.case.id ≡ c.id = ground arith in
            let rest = go cs in rw y (rw rest (ap (λ i. i ∷ map (λ (c : RecoveryCase). c.id) cs) e))
        | inr n ↦ let rest = go cs in rw n (rw rest refl)
      ]

  -- From a session to a later one in which the cases of the ids are settled.
  pub record Moved (ids : List ℕ) (s : Session) (r : Ticked) : Type 0 where
    pub counted : r.0 ≤ length ids
    pub safe : Safe env s r.1
    pub keeps : (id : ℕ) → Settled id s → Settled id r.1
    pub settled : All (λ id. Settled id r.1) ids
    pub ids_kept : map (λ (c : RecoveryCase). c.id) r.1.cases ≡ map (λ c. c.id) s.cases

  module _ (deps : ExecutorDeps) (clock : ℕ → ℕ) where
    -- One committed case, then the rest.
    onward :
        (id : ℕ) (ids : List ℕ) (u v : Work)
        → u.case.id ≡ id
        → Safe env u.session (flushed v)
        → Quiet env u v
        → Over v
        → (r : Ticked) → Moved ids (flushed v) r
        → Moved (id ∷ ids) u.session (r.0 + 1, r.1, r.2)
    onward id ids u v i f q t r m = record {
      counted = omega (arith, m.counted);
      safe = Safe-trans env u.session (flushed v) _ f m.safe;
      keeps = λ j h. m.keeps j (flush-Settled u v j q t h);
      ids_kept = m.ids_kept ∙ flush_ids u v q;
      settled = (m.keeps id (subst (λ j. Settled j (flushed v)) i (settles u v q t)), m.settled);
    }

    skipped :
        (id : ℕ) (ids : List ℕ) (s : Session) (r : Ticked)
        → case_by_id id s.cases ≡ none
        → Moved ids s r
        → Moved (id ∷ ids) s r
    unfolding case_by_id
    skipped id ids s r e m = record {
      counted = omega (arith, m.counted);
      safe = m.safe;
      keeps = m.keeps;
      ids_kept = m.ids_kept;
      settled = (
        m.keeps id
            (All-map _ _ s.cases (λ c n i. absurd (differ _ _ n i)) (find_first-none _ s.cases e)),
        m.settled,
      );
    }

    on_case :
        (id : ℕ) (ids : List ℕ) (k : ℕ) (s : Session) (simulator : Simulator)
        → ((t : Session) (r : Simulator)
            → Holds (Moved ids t) (work_through env deps clock ids (k + 1) t r))
        → (o : Option RecoveryCase) → case_by_id id s.cases ≡ o
        → Holds (Moved (id ∷ ids) s) (
            worked env deps clock o
              (λ t r. work_through env deps clock ids (k + 1) t r)
              k
              s
              simulator)
    unfolding case_by_id payment_by_id
    on_case id ids k s simulator ih none e =
        Holds-map (Moved ids s) _ _ (λ r m. skipped id ids s r e m) (ih s simulator)
    on_case id ids k s simulator ih (some c) e = on_payment _ refl
      where
        on_payment :
            (o : Option Payment)
            → payment_by_id c.payment_id s.payments ≡ o
            → Holds (Moved (id ∷ ids) s) (
                advanced env deps clock
                  (with_payment (clock k) simulator s c o)
                  (λ t r. work_through env deps clock ids (k + 1) t r))
        on_payment none f = tt
        on_payment (some p) f =
            let u = work_of (clock k) simulator s c p in
            Holds-post (λ v. Quiet env u v × (Over v × Counts u v)) _ (advance_case env deps u) _
              (Post-both _ _ _ (advance_case-Quiet env deps u) (
                Post-both _ _ _ (advance_case-is_terminal env deps u)
                  (advance_case-Counts env deps u)))
              λ x v (q, (t, n)).
                Holds-bind (Moved ids (flushed v)) _ _ one_more (ih (flushed v) v.simulator) λ r m.
                  onward id ids u v (let y = find_first_passes _ s.cases c e in ground arith)
                    (flushed-Safe env u v q n
                      (λ g. Agrees-find_first _ _ _ s.payments p g.payments.ids f)
                      (λ g. Agrees-find_first _ _ _ s.cases c g.cases.ids e))
                    q t r m

    pub work_through-Moved :
        (ids : List ℕ) (k : ℕ) (s : Session) (simulator : Simulator)
        → Holds (Moved ids s) (work_through env deps clock ids k s simulator)
    unfolding work_through
    work_through-Moved [] k s simulator = record {
      counted = omega arith;
      safe = Safe-refl env s;
      keeps = λ id h. h;
      settled = tt;
      ids_kept = refl;
    }
    work_through-Moved (id ∷ ids) k s simulator =
        on_case id ids k s simulator (λ t r. work_through-Moved ids (k + 1) t r) _ refl

  length-take : (n : ℕ) (ids : List ℕ) → length (take n ids) ≤ n
  length-take zero ids = omega arith
  length-take (suc n) [] = omega arith
  length-take (suc n) (id ∷ ids) = let h = length-take n ids in omega arith

  -- What a tick that returns has done.
  pub record IsDone (s : Session) (r : Ticked) : Type 0 where
    pub counted : r.0 ≤ claim_batch
    pub settled : All (λ id. Settled id r.1) (claimed s.cases)
    pub keyed : IsKeyed s → IsKeyed r.1
    pub chains : (id : ℕ) → validate_chain env id s ≡ true → validate_chain env id r.1 ≡ true

  -- A tick that returns has processed at most 20 cases, and every case that it claimed is terminal; it
  -- keeps the unique keys, and every audit chain that validated still does.
  pub tick-IsDone :
      (deps : ExecutorDeps) (clock : ℕ → ℕ) (s : Session) (simulator : Simulator)
      → Holds (IsDone s) (tick env deps clock s simulator)
  unfolding tick claimed
  tick-IsDone deps clock s simulator =
      Holds-map (Moved (claimed s.cases) s) (IsDone s) _
        (λ r m. record {
          counted = omega (arith, m.counted, length-take claim_batch (active_ids s.cases));
          settled = m.settled;
          keyed = m.safe.keyed;
          chains = m.safe.chains;
        })
        (work_through-Moved deps clock (claimed s.cases) 0 s simulator)
