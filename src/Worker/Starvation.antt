-- ===== src/Worker/Starvation.antt =====
-- The ticks that one parked case stops.
use ai_revenue_recovery_agen.Prelude.{
  ℕ, zero, suc, ◌+◌, ◌≡◌, ◌≢◌, refl, sym, ap, ◌∙◌, true, false, Option, none, some, List, [], ◌∷◌,
  ◌==◌, arith, Bool-cases, inl, inr, any, any_nil, any_cons, find_first_passes, find_first-map,
}
use ai_revenue_recovery_agen.Result.{Error, Result, ok, err, ◌>>=◌}
use ai_revenue_recovery_agen.Db.Enums.{CaseStatus}
use ai_revenue_recovery_agen.Db.Models.{RecoveryCase, Payment}
use ai_revenue_recovery_agen.Db.Session.{Session}
use ai_revenue_recovery_agen.Outside.{Env}
use ai_revenue_recovery_agen.Work.{Work, Simulator}
use ai_revenue_recovery_agen.Work.Keeps.{Post}
use ai_revenue_recovery_agen.Executors.{ExecutorDeps}
use ai_revenue_recovery_agen.Services.Loading.{
  case_by_id, payment_by_id, with_payment, work_of, flushed, replace_case,
}
use ai_revenue_recovery_agen.Services.Pipeline.Advance.{advance_case}
use ai_revenue_recovery_agen.Services.Pipeline.Advance.Ends.{advance_case_parked}
use ai_revenue_recovery_agen.Services.Ingest.Capture.{Quiet}
use ai_revenue_recovery_agen.Worker.{
  Ticked, one_more, worked, advanced, work_through, claimed, tick, committed, polls,
}
use ai_revenue_recovery_agen.Worker.Frame.{advance_case-Quiet}

-- The call raises.
abbrev pub Raises : {A : Type 0} → Result A → Type 0
Raises (ok a) = ⊥
Raises (err e) = Unit

Raises-bind : {A B : Type 0} (r : Result A) (f : A → Result B) → Raises r → Raises (r >>= f)
Raises-bind (ok a) f h = absurd h
Raises-bind (err e) f h = tt

after :
    {A B : Type 0} (P : Work → Type 0) (r : Result (A × Work)) (f : A × Work → Result B)
    → Post P r
    → ((a : A) (v : Work) → P v → Raises (f (a, v)))
    → Raises (r >>= f)
after P (ok (a, v)) f h k = k a v h
after P (err e) f h k = tt

false≢true : false ≢ true
false≢true e = grind arith

differ : (a b : ℕ) → (a == b) ≡ false → a ≢ b
differ a b n e = ground arith

-- The write of one case keeps the test for another, and the rows that pass it.
kept :
    (x c : RecoveryCase) (id : ℕ)
    → (x.id == id) ≡ false
    → (((replace_case x c).id == id) ≡ (c.id == id)) × ((c.id == id) ≡ true → replace_case x c ≡ c)
unfolding replace_case
kept x c id n = elim (Bool-cases (c.id == x.id)) [
  | inl y ↦
      let e : c.id ≡ x.id = ground arith in
      let m : (c.id == id) ≡ false = rw e n in rw (y, n, m) (refl, λ t. absurd (false≢true t))
  | inr m ↦ rw m (refl, λ t. refl)
]

-- A flush of another case leaves a case as it is found.
found_kept :
    (env : Env) (u v : Work) (id : ℕ)
    → Quiet env u v
    → (u.case.id == id) ≡ false
    → case_by_id id (flushed v).cases ≡ case_by_id id u.session.cases
unfolding flushed case_by_id
found_kept env u v id q n =
    let same = q.cases in
    let i = q.case_id in
    rw same (
      find_first-map (λ c. c.id == id) (replace_case v.case) u.session.cases
        (λ c. kept v.case c id (rw i n)))

found_id : (j : ℕ) (cs : List RecoveryCase) (d : RecoveryCase) → case_by_id j cs ≡ some d → d.id ≡ j
unfolding case_by_id
found_id j cs d e = let y = find_first_passes (λ c. c.id == j) cs d e in ground arith

module _ (env : Env) (deps : ExecutorDeps) (live : deps.fast_forward ≡ false) (clock : ℕ → ℕ)
    (id : ℕ) (c : RecoveryCase) (parked : c.status ≡ CaseStatus.awaiting_approval) where
  abbrev Next : List ℕ → ℕ → Session → Simulator → Result Ticked
  Next = work_through env deps clock

  stopped :
      (o : Option Payment) (k : ℕ) (s : Session) (simulator : Simulator) (ids : List ℕ)
      → Raises (
          advanced env deps clock
            (with_payment (clock k) simulator s c o)
            (λ t r. Next ids (k + 1) t r))
  stopped none k s simulator ids = tt
  stopped (some p) k s simulator ids =
      let e = advance_case_parked env deps (work_of (clock k) simulator s c p) live parked in
      rw e tt

  -- Another case before it.
  passed :
      (j : ℕ) (ids : List ℕ) (k : ℕ) (s : Session) (simulator : Simulator)
      → (j == id) ≡ false
      → ((t : Session) (r : Simulator)
          → case_by_id id t.cases ≡ some c
          → Raises (Next ids (k + 1) t r))
      → case_by_id id s.cases ≡ some c
      → (o : Option RecoveryCase) → case_by_id j s.cases ≡ o
      → Raises (worked env deps clock o (λ t r. Next ids (k + 1) t r) k s simulator)
  passed j ids k s simulator n next f none e = next s simulator f
  passed j ids k s simulator n next f (some d) e =
      by_payment (payment_by_id d.payment_id s.payments)
    where
      other : (d.id == id) ≡ false
      other = let i = found_id j s.cases d e in rw i n

      by_payment :
          (o : Option Payment)
          → Raises (
              advanced env deps clock
                (with_payment (clock k) simulator s d o)
                (λ t r. Next ids (k + 1) t r))
      by_payment none = tt
      by_payment (some p) =
          let u = work_of (clock k) simulator s d p in
          after (Quiet env u) (advance_case env deps u) _ (advance_case-Quiet env deps u) λ x v q.
            Raises-bind _ one_more
              (next (flushed v) v.simulator (found_kept env u v id q other ∙ f))

  raises :
      (ids : List ℕ) (k : ℕ) (s : Session) (simulator : Simulator)
      → any (λ j. j == id) ids ≡ true
      → case_by_id id s.cases ≡ some c
      → Raises (Next ids k s simulator)
  unfolding work_through
  raises [] k s simulator h f = absurd (false≢true (sym (any_nil (λ j. j == id)) ∙ h))
  raises (j ∷ ids) k s simulator h f = elim (any_cons _ j ids h) [
    | inl y ↦ let e : j ≡ id = ground arith in rw (e, f) (stopped _ k s simulator ids)
    | inr (n, m) ↦ passed j ids k s simulator n (λ t r g. raises ids (k + 1) t r m g) f _ refl
  ]

  -- In live mode, if one of the cases that a tick claims awaits approval, the tick raises, whatever the
  -- clock reads and the simulator holds.
  pub tick_parked :
      (s : Session) (simulator : Simulator)
      → any (λ j. j == id) (claimed s.cases) ≡ true
      → case_by_id id s.cases ≡ some c
      → Raises (tick env deps clock s simulator)
  unfolding tick
  tick_parked s simulator h f = raises (claimed s.cases) 0 s simulator h f

raised : {A : Type 0} (r : Result A) → Raises r → (e : Error) × (r ≡ err e)
raised (ok a) h = absurd h
raised (err e) h = (e, refl)

-- In live mode, while a case that a tick claims awaits approval, the worker does nothing: after any number of
-- polls, and with no other transaction between, the database is as it was.
pub polls_parked :
    (env : Env) (deps : ExecutorDeps) (clock : ℕ → ℕ → ℕ) (leftover : ℕ → Simulator) (id : ℕ)
    (c : RecoveryCase) (s : Session)
    → deps.fast_forward ≡ false
    → c.status ≡ CaseStatus.awaiting_approval
    → any (λ j. j == id) (claimed s.cases) ≡ true
    → case_by_id id s.cases ≡ some c
    → (n k : ℕ) (simulator : Simulator) → (polls env deps clock leftover n k s simulator).0 ≡ s
unfolding polls
polls_parked env deps clock leftover id c s live parked h f zero k simulator = refl
polls_parked env deps clock leftover id c s live parked h f (suc n) k simulator =
    let (e, r) = raised _ (tick_parked env deps live (clock k) id c parked s simulator h f) in
    let rest = polls_parked env deps clock leftover id c s live parked h f n (k + 1) (leftover k) in
    ap
      (λ x.
        (polls env deps clock leftover n (k + 1) (committed x s (leftover k)).0
          (committed x s (leftover k)).1).0)
      r
    ∙ rest
