-- ===== src/Policy/Engine/Trace.antt =====
-- The loop of engine.py: which rule decides, and what the trace records.
use ai_revenue_recovery_agen.Prelude.{
  ◌≡◌, refl, ap, ◌↔◌, inl, inr, Bool, true, false, Option, none, some, List, [], ◌∷◌, if◌then◌else◌,
  All, Bool-cases,
}
use ai_revenue_recovery_agen.Policy.Rules.{RuleId, PolicyContext, RuleHit, rule_order}
use ai_revenue_recovery_agen.Policy.Engine.{Rule, skipped, run_rules, verdict_of, evaluate}

-- The first rule of a list that fails, by itself.
abbrev pub first_failing : PolicyContext → List Rule → Option RuleId
first_failing ctx [] = none
first_failing ctx ((r, fn) ∷ rules) = if (fn ctx).passed then first_failing ctx rules else some r

-- The trace that is due: each rule's own hit up to the first failure, then skipped entries.
abbrev pub due : PolicyContext → Bool → List Rule → List RuleHit
due ctx stopped [] = []
due ctx true ((r, fn) ∷ rules) = skipped r ∷ due ctx true rules
due ctx false ((r, fn) ∷ rules) =
    fn ctx ∷ (if (fn ctx).passed then due ctx false rules else due ctx true rules)

run_rules-some :
    (ctx : PolicyContext) (f : RuleId) (rules : List Rule)
    → run_rules ctx (some f) rules ≡ (due ctx true rules, some f)
unfolding run_rules
run_rules-some ctx f [] = refl
run_rules-some ctx f ((r, fn) ∷ rules) = rw (run_rules-some ctx f rules)

run_rules-none :
    (ctx : PolicyContext) (rules : List Rule)
    → run_rules ctx none rules ≡ (due ctx false rules, first_failing ctx rules)
unfolding run_rules
run_rules-none ctx [] = refl
run_rules-none ctx ((r, fn) ∷ rules) = elim (Bool-cases ((fn ctx).passed)) [
  | inl y ↦ rw (y, run_rules-none ctx rules)
  | inr n ↦ rw (n, run_rules-some ctx r rules)
]

-- `evaluate` triggers the first rule of `RULE_ORDER` that fails, and its trace has an entry for every
-- rule in that order: the rule's own result up to the first failure, and a skipped entry after it.
pub evaluate_trace :
    (ctx : PolicyContext)
    → ((evaluate ctx).triggered_rule_id ≡ first_failing ctx rule_order)
      × ((evaluate ctx).rule_results ≡ due ctx false rule_order)
unfolding evaluate
evaluate_trace ctx =
    let e = run_rules-none ctx rule_order in
    (
      ap (λ (p : List RuleHit × Option RuleId). p.1) e,
      ap (λ (p : List RuleHit × Option RuleId). p.0) e,
    )

-- The verdict is that of the first failing rule.
pub verdict-evaluate :
    (ctx : PolicyContext) → (evaluate ctx).verdict ≡ verdict_of (first_failing ctx rule_order)
unfolding evaluate
verdict-evaluate ctx =
    ap (λ (p : List RuleHit × Option RuleId). verdict_of p.1) (run_rules-none ctx rule_order)

-- No failing rule means that every rule passes, and conversely.
pub first_failing-none :
    (ctx : PolicyContext) (rules : List Rule)
    → (first_failing ctx rules ≡ none) ↔ All (λ (r : Rule). (r.1 ctx).passed ≡ true) rules
first_failing-none ctx [] = (λ e. tt, λ t. refl)
first_failing-none ctx ((r, fn) ∷ rules) =
    let (to, from) = first_failing-none ctx rules in
    elim (Bool-cases ((fn ctx).passed)) [
      | inl y ↦ (λ e. (y, to (rw y at e)), λ a. rw y (from a.1))
      | inr n ↦ (λ e. cc (rw n at e), λ a. cc (n, a.0))
    ]
