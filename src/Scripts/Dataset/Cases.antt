-- ===== src/Scripts/Dataset/Cases.antt =====
-- The two loops of `main` of scripts/generate_dataset.py: the cases in order, with the customers and the
-- draws of the generator as arguments, their ground truth and their events, as they are before the sort.
pub mod Table
pub mod Agrees
use ai_revenue_recovery_agen.Prelude.{
  ℕ, zero, suc, ◌+◌, Bool, true, false, not, ◌&&◌, ◌||◌, Option, none, some, List, [], ◌∷◌, ◌++◌,
  String, str_eq, ltb, ◌==◌, if◌then◌else◌, map,
}
use ai_revenue_recovery_agen.Services.Ingest.Payload.{Seed}
use ai_revenue_recovery_agen.Scripts.Dataset.Tables.{Scenario}
use ai_revenue_recovery_agen.Scripts.Dataset.Counts.{Counts}
use ai_revenue_recovery_agen.Scripts.Dataset.Rows.{
  PoolCustomer, Draw, Body, ground_truth, case_bodies,
}

pub record Case : Type 0 where
  pub scenario : Scenario
  pub number : ℕ
  pub customer : PoolCustomer
  pub draw : Draw

module _ (pool : ℕ → PoolCustomer) (draws : ℕ → Draw) where
  -- The inner loop: `count` cases from the n-th on; `seq` cases came before.
  unfoldable pub scenario_cases : Scenario → ℕ → ℕ → ℕ → List Case
  scenario_cases s n seq zero = []
  scenario_cases s n seq (suc count) =
      record { scenario = s; number = n; customer = pool (draws seq).customer; draw = draws seq }
      ∷ scenario_cases s (n + 1) (seq + 1) count

  -- The outer loop.
  unfoldable pub cases_from : ℕ → Counts → List Case
  unfolding scenario_cases
  cases_from seq [] = []
  cases_from seq ((s, count) ∷ counts) =
      scenario_cases s 1 seq count ++ cases_from (seq + count) counts

unfoldable pub truths_of : List Case → List Seed
unfolding ground_truth
truths_of [] = []
truths_of (c ∷ cs) = ground_truth c.scenario c.number c.customer c.draw ∷ truths_of cs

unfoldable pub bodies_of : List Case → List Body
unfolding case_bodies
bodies_of [] = []
bodies_of (c ∷ cs) = case_bodies c.scenario c.number c.customer c.draw ++ bodies_of cs
