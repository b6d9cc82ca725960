-- ===== src/Scripts/Dataset/Counts/Sums.antt =====
-- The scaled counts add up to the size.
use ai_revenue_recovery_agen.Prelude.{
  ℕ, zero, suc, ◌+◌, ◌-◌, ◌*◌, ◌%◌, ◌≤◌, ◌≡◌, refl, sym, [], ◌∷◌, length, ◌==◌, leb, arith,
  Bool-cases, inl, inr,
}
use ai_revenue_recovery_agen.Scripts.Dataset.Tables.{scenarios}
use ai_revenue_recovery_agen.Scripts.Dataset.Counts.{
  Counts, total, step_at, spread, up, down, scale_counts, adjust, counts_for,
}

length-step_at : (f : ℕ → ℕ) (i : ℕ) (cs : Counts) → length (step_at f i cs) ≡ length cs
unfolding step_at
length-step_at f i [] = refl
length-step_at f zero ((s, c) ∷ cs) = refl
length-step_at f (suc i) ((s, c) ∷ cs) = omega (arith, length-step_at f i cs)

total-step_at-up :
    (i : ℕ) (cs : Counts) → suc i ≤ length cs → total (step_at up i cs) ≡ total cs + 1
unfolding step_at total
total-step_at-up i [] h = absurd (omega arith)
total-step_at-up zero ((s, c) ∷ cs) h = omega arith
total-step_at-up (suc i) ((s, c) ∷ cs) h =
    let rest = total-step_at-up i cs (omega arith) in omega arith

mod_in_range : (i n : ℕ) → 1 ≤ n → suc (i % n) ≤ n
mod_in_range i n h = grind arith

total-spread-up :
    (diff idx : ℕ) (cs : Counts) → 1 ≤ length cs → total (spread up diff idx cs) ≡ total cs + diff
unfolding spread
total-spread-up zero idx cs h = omega arith
total-spread-up (suc diff) idx cs h =
    let i = idx % length cs in
    let same = length-step_at up i cs in
    let one = total-step_at-up i cs (mod_in_range idx (length cs) h) in
    let rest = total-spread-up diff (idx + 1) (step_at up i cs) (omega arith) in omega arith

-- The counts from an index on are not 0.
abbrev Positive : ℕ → Counts → Type 0
Positive i [] = Unit
Positive zero ((s, c) ∷ cs) = (1 ≤ c) × Positive zero cs
Positive (suc i) ((s, c) ∷ cs) = Positive i cs

total-step_at-down :
    (i : ℕ) (cs : Counts)
    → suc i ≤ length cs
    → Positive i cs
    → (total (step_at down i cs) + 1 ≡ total cs) × Positive (suc i) (step_at down i cs)
unfolding step_at total
total-step_at-down i [] h p = absurd (omega arith)
total-step_at-down zero ((s, c) ∷ cs) h (p, ps) = (omega arith, ps)
total-step_at-down (suc i) ((s, c) ∷ cs) h p =
    let (e, q) = total-step_at-down i cs (omega arith) p in (omega arith, q)

total-spread-down :
    (diff idx : ℕ) (cs : Counts)
    → idx + diff ≤ length cs
    → Positive idx cs
    → total (spread down diff idx cs) + diff ≡ total cs
unfolding spread
total-spread-down zero idx cs h p = omega arith
total-spread-down (suc diff) idx cs h p =
    let m : idx % length cs ≡ idx = grind arith in
    let same = length-step_at down idx cs in
    let (one, q) = total-step_at-down idx cs (omega arith) p in
    let rest = total-spread-down diff (suc idx) (step_at down idx cs) (omega arith) q in
    let s : idx + 1 ≡ suc idx = omega arith in rw (m, s) (omega arith)

-- `rounded c` is a nearest number to `c * size / total`.
pub record IsNearest (rounded : ℕ → ℕ) (size : ℕ) : Type 0 where
  pub above : (c : ℕ) → 240 * rounded c ≤ 2 * (c * size) + 120
  pub below : (c : ℕ) → 2 * (c * size) ≤ 240 * rounded c + 120

scale_counts-le :
    (rounded : ℕ → ℕ) (size : ℕ) (cs : Counts)
    → IsNearest rounded size
    → 240 * total (scale_counts rounded cs) ≤ 2 * (total cs * size) + 240 * length cs
unfolding total scale_counts
scale_counts-le rounded size [] near = omega arith
scale_counts-le rounded size ((s, c) ∷ cs) near =
    let a = near.above c in let rest = scale_counts-le rounded size cs near in grind arith

scale_counts-Positive : (rounded : ℕ → ℕ) (cs : Counts) → Positive zero (scale_counts rounded cs)
unfolding scale_counts
scale_counts-Positive rounded [] = tt
scale_counts-Positive rounded ((s, c) ∷ cs) = (omega arith, scale_counts-Positive rounded cs)

length-scale_counts : (rounded : ℕ → ℕ) (cs : Counts) → length (scale_counts rounded cs) ≡ length cs
unfolding scale_counts
length-scale_counts rounded [] = refl
length-scale_counts rounded ((s, c) ∷ cs) = omega (arith, length-scale_counts rounded cs)

total-adjust :
    (size : ℕ) (cs : Counts)
    → 1 ≤ length cs
    → Positive zero cs
    → total cs ≤ size + length cs
    → total (adjust size cs) ≡ size
unfolding adjust
total-adjust size cs n p h = elim (Bool-cases (leb (total cs) size)) [
  | inl y ↦
      let e = total-spread-up (size - total cs) 0 cs n in
      let l : total cs ≤ size = ground arith in rw y (omega arith)
  | inr f ↦
      let l : suc size ≤ total cs = ground arith in
      let e = total-spread-down (total cs - size) 0 cs (omega arith) p in rw f (omega arith)
]

total-scenarios : total scenarios ≡ 120
unfolding total
total-scenarios = refl

-- For every size, the counts add up to it, if the rounding is to a nearest number.
pub total-counts_for :
    (rounded : ℕ → ℕ) (size : ℕ) → IsNearest rounded size → total (counts_for rounded size) ≡ size
unfolding counts_for
total-counts_for rounded size near = elim (Bool-cases (size == total scenarios)) [
  | inl y ↦ let e : size ≡ total scenarios = ground arith in rw y (sym e)
  | inr n ↦
      let bound = scale_counts-le rounded size scenarios near in
      let many = length-scale_counts rounded scenarios in
      let t = total-scenarios in
      let bound' : 240 * total (scale_counts rounded scenarios) ≤ 2 * (120 * size) + 240 * 11 =
        rw t at bound in
      rw n (
        total-adjust size (scale_counts rounded scenarios) (omega arith)
          (scale_counts-Positive rounded scenarios) (omega arith))
]
