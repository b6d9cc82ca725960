-- ===== src/Tests/Evaluation.antt =====
-- The theorems on the evaluation, each at a concrete input.
use ai_revenue_recovery_agen.Prelude.{
  ℕ, false, ◌*◌, ◌≡◌, refl, none, some, List, [], ◌∷◌, All, arith,
}
use ai_revenue_recovery_agen.Services.Ingest.Effects.{Holds}
use ai_revenue_recovery_agen.Batch.Baselines.{
  Delivery, Truth, compute_baselines, unique_rows, nothing,
}
use ai_revenue_recovery_agen.Batch.Baselines.Laws.{
  Apart, AtMost, total, NeverHeals, compute_baselines_lem, do_nothing_zero,
}
use ai_revenue_recovery_agen.Db.Session.{empty_session}
use ai_revenue_recovery_agen.Batch.Report.{run}
use ai_revenue_recovery_agen.Batch.Report.Clean.{IsClean, run-IsClean}
use ai_revenue_recovery_agen.Tests.Samples.{env}
use ai_revenue_recovery_agen.Tests.Intake.{event}

abbrev truths : List Truth
truths =
    record { payment_id = "pay_1"; case_key = "A"; scenario = "S08"; prob = 0 }
    ∷ record { payment_id = "pay_2"; case_key = "B"; scenario = "S01"; prob = 6000 }
    ∷ []

abbrev deliveries : List Delivery
deliveries =
    record { event = some "payment.failed"; id = "pay_2"; amount = 500 }
    ∷ record { event = some "payment.failed"; id = "pay_1"; amount = 700 }
    ∷ record { event = some "payment.failed"; id = "pay_2"; amount = 500 }
    ∷ []

abbrev random : ℕ → ℕ
random k = 1000 * k

compute_baselines_lem_example :
    let r = compute_baselines random truths deliveries in
    Apart (unique_rows truths deliveries)
    × AtMost r.do_nothing r.naive_retry_once
    × AtMost r.naive_retry_once (total (unique_rows truths deliveries))
compute_baselines_lem_example = compute_baselines_lem random truths deliveries

no_heals : All NeverHeals truths
no_heals = ((λ h. refl), ((λ h. grind arith), tt))

do_nothing_zero_example : (compute_baselines random truths deliveries).do_nothing ≡ nothing
do_nothing_zero_example = do_nothing_zero random truths deliveries no_heals

run-IsClean_example : Holds IsClean (run env (λ pid. none) false empty_session (event ∷ event ∷ []))
run-IsClean_example =
    run-IsClean env (λ pid. none) false empty_session (event ∷ event ∷ []) (λ h. grind arith)
