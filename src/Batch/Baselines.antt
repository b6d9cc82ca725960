-- ===== src/Batch/Baselines.antt =====
-- `compute_baselines` of app/batch/run_eval.py. A probability is a number of ten-thousandths, and so is a
-- value of `rng.random()`, rounded down: it is below a probability exactly when the value itself is.
pub mod Laws
use Prim.Native.String.{compare}
use Prim.Native.Nat.{Ordering}
use ai_revenue_recovery_agen.Prelude.{
  ℕ, ◌+◌, Bool, true, false, ◌&&◌, Option, none, some, List, [], ◌∷◌, String, str_eq, ltb,
  if◌then◌else◌, any,
}

-- What the baselines read of an event: its name, and the id and the amount of its payment.
pub record Delivery : Type 0 where
  pub event : Option String
  pub id : String
  pub amount : ℕ

-- A row of the ground truth, by its payment.
pub record Truth : Type 0 where
  pub payment_id : String
  pub case_key : String
  pub scenario : String
  pub prob : ℕ

pub record Row : Type 0 where
  pub case_key : String
  pub scenario : String
  pub prob : ℕ
  pub amount_minor : ℕ

pub record Tally : Type 0 where
  pub recovered_cases : ℕ
  pub recovered_amount_minor : ℕ

-- `gt[pid]`: the last line of the file for a payment; the list has the last one first.
unfoldable pub truth_of : String → List Truth → Option Truth
truth_of pid [] = none
truth_of pid (t ∷ ts) = if str_eq t.payment_id pid then some t else truth_of pid ts

abbrev pub add_row : Option Truth → ℕ → List Row → List Row
add_row none amount rows = rows
add_row (some t) amount rows =
    record { case_key = t.case_key; scenario = t.scenario; prob = t.prob; amount_minor = amount }
    ∷ rows

abbrev pub is_failed : Option String → Bool
is_failed none = false
is_failed (some name) = str_eq name "payment.failed"

unfoldable pub collect_rows : List Truth → List Delivery → List Row
unfolding truth_of
collect_rows gt [] = []
collect_rows gt (e ∷ es) =
    let rest = collect_rows gt es in
    if is_failed e.event then add_row (truth_of e.id gt) e.amount rest else rest

unfoldable pub key_in : String → List String → Bool
key_in key = any (λ k. str_eq k key)

-- The first row of each key; `seen` has the keys before.
unfoldable pub dedupe : List String → List Row → List Row
unfolding key_in
dedupe seen [] = []
dedupe seen (r ∷ rs) =
    let skipped = dedupe seen rs in
    let kept = dedupe (r.case_key ∷ seen) rs in if key_in r.case_key seen then skipped else r ∷ kept

abbrev pub not_after : Ordering → Bool
not_after Ordering.gt = false
not_after _ = true

-- `unique.sort(key=…)`, which is stable.
unfoldable pub insert_row : Row → List Row → List Row
insert_row r [] = r ∷ []
insert_row r (x ∷ xs) =
    let rest = insert_row r xs in
    if not_after (compare r.case_key x.case_key) then r ∷ x ∷ xs else x ∷ rest

unfoldable pub sort_rows : List Row → List Row
unfolding insert_row
sort_rows [] = []
sort_rows (r ∷ rs) = insert_row r (sort_rows rs)

abbrev pub counted : ℕ → Tally → Tally
counted amount t = record {
  recovered_cases = 1 + t.recovered_cases;
  recovered_amount_minor = amount + t.recovered_amount_minor;
}

abbrev pub nothing : Tally
nothing = record { recovered_cases = 0; recovered_amount_minor = 0 }

-- Only the captures by webhook, scenario S08, recover.
unfoldable pub tally : List Row → Tally
tally [] = nothing
tally (r ∷ rs) =
    let rest = tally rs in
    if ltb 0 r.prob && str_eq r.scenario "S08" then counted r.amount_minor rest else rest

-- Every payment is charged once more; a row of S08 draws no number.
unfoldable pub naive_retry : (ℕ → ℕ) → ℕ → List Row → Tally
naive_retry random k [] = nothing
naive_retry random k (r ∷ rs) =
    let healed = naive_retry random k rs in
    let drawn = naive_retry random (k + 1) rs in
    if str_eq r.scenario "S08"
    then counted r.amount_minor healed
    else if ltb (random k) r.prob
    then counted r.amount_minor drawn
    else drawn

pub record Report : Type 0 where
  pub do_nothing : Tally
  pub naive_retry_once : Tally

unfoldable pub unique_rows : List Truth → List Delivery → List Row
unfolding collect_rows dedupe sort_rows
unique_rows gt events = sort_rows (dedupe [] (collect_rows gt events))

-- The k-th number that a generator of the seed draws is `random k`.
unfoldable pub compute_baselines : (ℕ → ℕ) → List Truth → List Delivery → Report
unfolding unique_rows tally naive_retry
compute_baselines random gt events =
    let unique = unique_rows gt events in
    record { do_nothing = tally unique; naive_retry_once = naive_retry random 0 unique }
