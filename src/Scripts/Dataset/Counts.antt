-- ===== src/Scripts/Dataset/Counts.antt =====
-- How many cases of each scenario are generated for a size. `round(c * scale)` is a parameter, since `scale`
-- is a quotient of floats; the proofs use that it is a nearest number.
pub mod Sums
use ai_revenue_recovery_agen.Prelude.{
  ℕ, zero, suc, ◌+◌, ◌-◌, ◌%◌, max, List, [], ◌∷◌, length, map, ◌==◌, leb, if◌then◌else◌,
}
use ai_revenue_recovery_agen.Scripts.Dataset.Tables.{Scenario, scenarios}

abbrev pub Counts : Type 0
Counts = List (Scenario × ℕ)

unfoldable pub total : Counts → ℕ
total [] = 0
total ((s, c) ∷ cs) = c + total cs

-- `counts[i] = (s, c + step)`
unfoldable pub step_at : (ℕ → ℕ) → ℕ → Counts → Counts
step_at f i [] = []
step_at f zero ((s, c) ∷ cs) = (s, f c) ∷ cs
step_at f (suc i) ((s, c) ∷ cs) = (s, c) ∷ step_at f i cs

-- The `while` loop: `diff` falls by one in each round, and `idx` grows.
unfoldable pub spread : (ℕ → ℕ) → ℕ → ℕ → Counts → Counts
unfolding step_at
spread f zero idx counts = counts
spread f (suc diff) idx counts = spread f diff (idx + 1) (step_at f (idx % length counts) counts)

abbrev pub up : ℕ → ℕ
up c = c + 1

-- A count that is lowered is not 0 (see Sums).
abbrev pub down : ℕ → ℕ
down c = c - 1

unfoldable pub scale_counts : (ℕ → ℕ) → Counts → Counts
scale_counts rounded [] = []
scale_counts rounded ((s, c) ∷ cs) = (s, max 1 (rounded c)) ∷ scale_counts rounded cs

-- The rounds that make the counts add up to the size.
unfoldable pub adjust : ℕ → Counts → Counts
adjust size counts =
    if leb (total counts) size
    then spread up (size - total counts) 0 counts
    else spread down (total counts - size) 0 counts

-- The counts for a size, given `round(c * scale)`.
unfoldable pub counts_for : (ℕ → ℕ) → ℕ → Counts
counts_for rounded size =
    if size == total scenarios then scenarios else adjust size (scale_counts rounded scenarios)
