-- ===== src/Batch/Baselines/Laws.antt =====
-- How the baselines compare, and what they count.
use Prim.Native.String.{compare}
use mathlib.Core.Path.{subst}
use text.Mathlib.TextPositions.{eq_refl}
use ai_revenue_recovery_agen.Prelude.{
  ℕ, ◌+◌, ◌≤◌, ◌≡◌, ◌≢◌, refl, sym, ◌∙◌, Bool, true, false, ◌&&◌, List, [], ◌∷◌, String, str_eq,
  ltb, any_hit, any_grows, arith, Bool-cases, inl, inr, All,
}
use ai_revenue_recovery_agen.Batch.Baselines.{
  Truth, Delivery, Row, Tally, tally, naive_retry, nothing, counted, compute_baselines, unique_rows,
  add_row, truth_of, is_failed, key_in, not_after, sort_rows, insert_row, dedupe, collect_rows,
}

-- One tally counts no more than another.
abbrev pub AtMost : Tally → Tally → Type 0
AtMost a b =
    (a.recovered_cases ≤ b.recovered_cases) × (a.recovered_amount_minor ≤ b.recovered_amount_minor)

and_false : (b : Bool) → (b && false) ≡ false
and_false true = refl
and_false false = refl

-- Every row recovers.
abbrev pub total : List Row → Tally
total [] = nothing
total (r ∷ rs) = counted r.amount_minor (total rs)

tally_below :
    (random : ℕ → ℕ) (rows : List Row) (k : ℕ) → AtMost (tally rows) (naive_retry random k rows)
unfolding tally naive_retry
tally_below random [] k = (omega arith, omega arith)
tally_below random (r ∷ rs) k =
    let (a, b) = tally_below random rs k in
    let (c, d) = tally_below random rs (k + 1) in
    elim (Bool-cases (str_eq r.scenario "S08")) [
      | inl y ↦ rw y (elim (Bool-cases (ltb 0 r.prob)) [
        | inl z ↦ rw z (omega (arith, a), omega (arith, b))
        | inr z ↦ rw z (omega (arith, a), omega (arith, b))
      ])
      | inr n ↦ (elim (Bool-cases (ltb (random k) r.prob)) [
        | inl y ↦ rw (n, y, and_false (ltb 0 r.prob)) (omega (arith, c), omega (arith, d))
        | inr m ↦ rw (n, m, and_false (ltb 0 r.prob)) (c, d)
      ])
    ]

naive_below :
    (random : ℕ → ℕ) (rows : List Row) (k : ℕ) → AtMost (naive_retry random k rows) (total rows)
unfolding naive_retry
naive_below random [] k = (omega arith, omega arith)
naive_below random (r ∷ rs) k =
    let (a, b) = naive_below random rs k in
    let (c, d) = naive_below random rs (k + 1) in
    elim (Bool-cases (str_eq r.scenario "S08")) [
      | inl y ↦ rw y (omega (arith, a), omega (arith, b))
      | inr n ↦ (elim (Bool-cases (ltb (random k) r.prob)) [
        | inl y ↦ rw (n, y) (omega (arith, c), omega (arith, d))
        | inr m ↦ rw (n, m) (omega (arith, c), omega (arith, d))
      ])
    ]

-- No two rows of one case key.
abbrev pub Apart : List Row → Type 0
Apart [] = Unit
Apart (r ∷ rs) = All (λ (x : Row). r.case_key ≢ x.case_key) rs × Apart rs

module _ (P : Row → Type 0) where
  All-insert_row : (r : Row) (xs : List Row) → P r → All P xs → All P (insert_row r xs)
  unfolding insert_row
  All-insert_row r [] p h = (p, tt)
  All-insert_row r (x ∷ xs) p (q, h) =
      elim (Bool-cases (not_after (compare r.case_key x.case_key))) [
        | inl y ↦ rw y (p, (q, h))
        | inr n ↦ rw n (q, All-insert_row r xs p h)
      ]

  All-sort_rows : (xs : List Row) → All P xs → All P (sort_rows xs)
  unfolding sort_rows
  All-sort_rows [] h = tt
  All-sort_rows (x ∷ xs) (p, h) = All-insert_row x (sort_rows xs) p (All-sort_rows xs h)

  All-dedupe : (seen : List String) (xs : List Row) → All P xs → All P (dedupe seen xs)
  unfolding dedupe
  All-dedupe seen [] h = tt
  All-dedupe seen (x ∷ xs) (p, h) = elim (Bool-cases (key_in x.case_key seen)) [
    | inl y ↦ rw y (All-dedupe seen xs h)
    | inr n ↦ rw n (p, All-dedupe (x.case_key ∷ seen) xs h)
  ]

Apart-insert_row :
    (r : Row) (xs : List Row)
    → All (λ (x : Row). r.case_key ≢ x.case_key) xs
    → Apart xs
    → Apart (insert_row r xs)
unfolding insert_row
Apart-insert_row r [] n h = (tt, tt)
Apart-insert_row r (x ∷ xs) (n, ns) (m, h) =
    elim (Bool-cases (not_after (compare r.case_key x.case_key))) [
      | inl y ↦ rw y ((n, ns), (m, h))
      | inr f ↦ rw f (
        All-insert_row (λ z. x.case_key ≢ z.case_key) r xs (λ e. n (sym e)) m,
        Apart-insert_row r xs ns h,
      )
    ]

Apart-sort_rows : (xs : List Row) → Apart xs → Apart (sort_rows xs)
unfolding sort_rows
Apart-sort_rows [] h = tt
Apart-sort_rows (x ∷ xs) (n, h) =
    Apart-insert_row x (sort_rows xs) (All-sort_rows (λ z. x.case_key ≢ z.case_key) xs n)
      (Apart-sort_rows xs h)

false≢true : false ≢ true
false≢true e = grind arith

-- A key among those seen is not among the rows kept.
unseen :
    (seen : List String) (xs : List Row) (key : String)
    → key_in key seen ≡ true
    → All (λ (x : Row). key ≢ x.case_key) (dedupe seen xs)
unfolding dedupe key_in
unseen seen [] key h = tt
unseen seen (x ∷ xs) key h = elim (Bool-cases (key_in x.case_key seen)) [
  | inl y ↦ rw y (unseen seen xs key h)
  | inr n ↦ rw n (
    λ e. false≢true (sym n ∙ subst (λ k. key_in k seen ≡ true) e h),
    unseen (x.case_key ∷ seen) xs key (any_grows _ x.case_key seen h),
  )
]

Apart-dedupe : (seen : List String) (xs : List Row) → Apart (dedupe seen xs)
unfolding dedupe key_in
Apart-dedupe seen [] = tt
Apart-dedupe seen (x ∷ xs) = elim (Bool-cases (key_in x.case_key seen)) [
  | inl y ↦ rw y (Apart-dedupe seen xs)
  | inr n ↦ rw n (
    unseen (x.case_key ∷ seen) xs x.case_key (any_hit _ x.case_key seen (eq_refl x.case_key)),
    Apart-dedupe (x.case_key ∷ seen) xs,
  )
]

-- A row of S08 has the probability 0.
abbrev pub IsNever : Row → Type 0
IsNever r = str_eq r.scenario "S08" ≡ true → r.prob ≡ 0

abbrev pub NeverHeals : Truth → Type 0
NeverHeals t = str_eq t.scenario "S08" ≡ true → t.prob ≡ 0

found-IsNever :
    (gt : List Truth) (pid : String) (amount : ℕ) (rows : List Row)
    → All NeverHeals gt
    → All IsNever rows
    → All IsNever (add_row (truth_of pid gt) amount rows)
unfolding truth_of
found-IsNever [] pid amount rows g h = h
found-IsNever (t ∷ ts) pid amount rows (p, g) h = elim (Bool-cases (str_eq t.payment_id pid)) [
  | inl y ↦ rw y (p, h)
  | inr n ↦ rw n (found-IsNever ts pid amount rows g h)
]

collected-IsNever :
    (gt : List Truth) (events : List Delivery)
    → All NeverHeals gt
    → All IsNever (collect_rows gt events)
unfolding collect_rows
collected-IsNever gt [] g = tt
collected-IsNever gt (e ∷ es) g = elim (Bool-cases (is_failed e.event)) [
  | inl y ↦ rw y (found-IsNever gt e.id e.amount (collect_rows gt es) g (collected-IsNever gt es g))
  | inr n ↦ rw n (collected-IsNever gt es g)
]

tally_never : (rows : List Row) → All IsNever rows → tally rows ≡ nothing
unfolding tally
tally_never [] h = refl
tally_never (r ∷ rs) (p, h) = elim (Bool-cases (str_eq r.scenario "S08")) [
  | inl y ↦ let z = p y in rw (y, z) (tally_never rs h)
  | inr n ↦ rw (n, and_false (ltb 0 r.prob)) (tally_never rs h)
]

-- If the ground truth gives every payment of S08 the capture probability 0, as the generator of the dataset
-- does, the do-nothing baseline counts no case and no money, whatever self-heals.
pub do_nothing_zero :
    (random : ℕ → ℕ) (gt : List Truth) (events : List Delivery)
    → All NeverHeals gt
    → (compute_baselines random gt events).do_nothing ≡ nothing
unfolding compute_baselines unique_rows
do_nothing_zero random gt events g =
    tally_never _
      (All-sort_rows IsNever _ (All-dedupe IsNever [] _ (collected-IsNever gt events g)))

-- For every dataset and every generator, the rows that the baselines compare have different case keys, and
-- doing nothing recovers at most as many cases and as much money as the naive retry, which recovers at
-- most all rows and all their money.
pub compute_baselines_lem :
    (random : ℕ → ℕ) (gt : List Truth) (events : List Delivery)
    → let r = compute_baselines random gt events in
      Apart (unique_rows gt events)
      × AtMost r.do_nothing r.naive_retry_once
      × AtMost r.naive_retry_once (total (unique_rows gt events))
unfolding compute_baselines unique_rows
compute_baselines_lem random gt events =
    let rows = unique_rows gt events in
    (
      Apart-sort_rows _ (Apart-dedupe [] (collect_rows gt events)),
      tally_below random rows 0,
      naive_below random rows 0,
    )
