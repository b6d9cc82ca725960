-- ===== src/Scripts/Dataset/Cases/Agrees.antt =====
-- The ground truth of the generator against the table that decides without a language model.
use ai_revenue_recovery_agen.Prelude.{
  ℕ, ◌≡◌, ◌≢◌, refl, sym, ap, ◌∙◌, Bool, Option, some, String, arith, get_or,
}
use ai_revenue_recovery_agen.Scripts.Dataset.Cases.Table.{
  IsDrawn, age_of, age_at_start, at_most_70, mirrored, seen_as, chosen, at_boundary, not_duplicate,
  same_key,
}
use ai_revenue_recovery_agen.Db.Enums.{DiagnosisClass, PaymentStatus}
use ai_revenue_recovery_agen.Db.Models.{Payment}
use ai_revenue_recovery_agen.Domain.Diagnosis.{diagnose}
use ai_revenue_recovery_agen.Domain.Strategies.{StrategyId, select_strategy, StrategyChoice}
use ai_revenue_recovery_agen.Policy.Config.{default_policy_config}
use ai_revenue_recovery_agen.Work.{Work}
use ai_revenue_recovery_agen.Agent.Decide.{Draft, fallback_decision}
use ai_revenue_recovery_agen.Services.Ingest.Rows.{payment_row}
use ai_revenue_recovery_agen.Services.Pipeline.Context.{case_context, age_seconds, has_token}
use ai_revenue_recovery_agen.Batch.Score.{diagnosis_text, strategy_text}
use ai_revenue_recovery_agen.Batch.Runs.{base_epoch}
use ai_revenue_recovery_agen.Scripts.Dataset.Tables.{Scenario, scenario_meta, error_profile}
use ai_revenue_recovery_agen.Scripts.Dataset.Rows.{
  PoolCustomer, Draw, amount_bounds, amount_log_uniform, diag_of, prior_attempts_of, created_at_of,
  of_profile, failed_payment, ground_truth, customer_for,
}

module _ (s : Scenario) (n : ℕ) (c : PoolCustomer) (d : Draw) where
  -- A case of the generator that was ingested, at the start of the dataset, before any step.
  pub record IsIngested (w : Work) : Type 0 where
    pub id : ℕ
    pub created : ℕ
    pub merchant_id : ℕ
    pub customer_id : Option ℕ
    pub rzp_id : String
    pub status : PaymentStatus
    pub is_simulated : Bool
    pub payment :
        w.payment
        ≡ payment_row id created merchant_id customer_id rzp_id status
            (created_at_of d)
            is_simulated
            (failed_payment s n c d)
    pub truth : w.case.ground_truth ≡ some (ground_truth s n c d).truth
    pub attempts : w.case.retry_count ≡ get_or (ground_truth s n c d).prior_attempts 0
    pub clock : w.clock ≡ base_epoch

-- The decision without a language model.
abbrev pub first_draft : Work → Draft
first_draft w =
    fallback_decision w.payment (case_context w) default_policy_config w.case.retry_count

module _ (s : Scenario) (n : ℕ) (c : PoolCustomer) (d : Draw) (other : s ≢ Scenario.s08)
    (drawn : IsDrawn s d) where
  abbrev key : DiagnosisClass
  key = diag_of s d.diag

  named : key ≢ DiagnosisClass.duplicate_self_healed
  named = not_duplicate s d.diag other

  diagnosed :
      (w : Work)
      → IsIngested s n c d w
      → diagnose w.payment.error_reason w.payment.error_code w.payment.error_source ≡ (key, 9000)
  unfolding payment_row failed_payment
  diagnosed w g =
      ap (λ (p : Payment). diagnose p.error_reason p.error_code p.error_source) g.payment
      ∙ ap
          (λ k.
            let p = error_profile k in
            diagnose (of_profile (λ q. q.reason) p) (of_profile (λ q. q.code) p)
              (of_profile (λ q. q.source) p))
          (same_key key named)
      ∙ mirrored key named

  amount :
      (w : Work)
      → IsIngested s n c d w
      → w.payment.amount_minor ≡ amount_log_uniform d.amount (amount_bounds s)
  unfolding payment_row failed_payment
  amount w g = ap (λ (p : Payment). p.amount_minor) g.payment

  age : (w : Work) → IsIngested s n c d w → age_seconds w ≡ age_of d
  unfolding age_seconds payment_row
  age w g =
      let t = ap (λ (p : Payment). get_or p.rzp_created_at p.created_at) g.payment in
      let start = age_at_start d (at_most_70 s d drawn) drawn.seconds in
      let now = g.clock in omega arith

  token : (w : Work) → IsIngested s n c d w → has_token w.case w.customer ≡ (scenario_meta s).token
  unfolding has_token ground_truth customer_for
  token w g = let t = g.truth in rw t refl

  attempts : (w : Work) → IsIngested s n c d w → w.case.retry_count ≡ prior_attempts_of s
  unfolding ground_truth
  attempts w g = g.attempts

  drafted :
      (w : Work)
      → IsIngested s n c d w
      → (first_draft w).choice
        ≡ select_strategy (seen_as s key (amount_log_uniform d.amount (amount_bounds s)) (age_of d))
  unfolding fallback_decision case_context
  drafted w g = cc (diagnosed w g, amount w g, age w g, token w g, attempts w g)

  -- The first decision without a language model for a generated case that was ingested has the diagnosis and
  -- the strategy of its ground truth, if it is not of S08 and its failure is not exactly 48 hours old.
  pub first_draft_expected :
      (w : Work)
      → IsIngested s n c d w
      → age_of d ≢ 172800
      → let expected = (ground_truth s n c d).truth in
        (expected.expected_diagnosis ≡ some (diagnosis_text (first_draft w).diagnosis_class))
        × (expected.expected_strategy ≡ some (strategy_text (first_draft w).choice.strategy_id))
  unfolding ground_truth fallback_decision
  first_draft_expected w g e = (
    ap (λ (x : DiagnosisClass × ℕ). some (diagnosis_text x.0)) (sym (diagnosed w g)),
    ap (λ k. some (strategy_text k))
        (sym (ap (λ (x : StrategyChoice). x.strategy_id) (drafted w g) ∙ chosen s d drawn other e)),
  )

-- A stale case whose failure is exactly 48 hours old is sent a link, where its ground truth stops.
pub first_draft_boundary :
    (n : ℕ) (c : PoolCustomer) (d : Draw) (w : Work)
    → IsDrawn Scenario.s11 d
    → age_of d ≡ 172800
    → IsIngested Scenario.s11 n c d w
    → ((first_draft w).choice.strategy_id ≡ StrategyId.s3_notify_with_link)
      × ((ground_truth Scenario.s11 n c d).truth.expected_strategy ≡ some "S6_STOP_RECOVERY")
unfolding ground_truth scenario_meta
first_draft_boundary n c d w h e g = (
  ap (λ (x : StrategyChoice). x.strategy_id)
        (drafted Scenario.s11 n c d (λ u. cc) h w g
          ∙ ap
              (λ a. select_strategy (
                seen_as Scenario.s11 (diag_of Scenario.s11 d.diag)
                  (amount_log_uniform d.amount (amount_bounds Scenario.s11)) a))
              e)
      ∙ at_boundary d e,
  refl,
)
