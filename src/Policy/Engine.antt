-- ===== src/Policy/Engine.antt =====
-- app/policy/engine.py: the rules run in order, the first failure decides.
pub mod Trace
pub mod Gate
use ai_revenue_recovery_agen.Prelude.{
  Bool, true, false, Option, none, some, List, [], ◌∷◌, if◌then◌else◌,
}
use ai_revenue_recovery_agen.Format.{plain}
use ai_revenue_recovery_agen.Db.Enums.{PolicyVerdict}
use ai_revenue_recovery_agen.Policy.Config.{PolicyConfig, Overrides, to_dict}
use ai_revenue_recovery_agen.Policy.Rules.{RuleId, PolicyContext, RuleHit, rule_order}

pub record PolicyResult : Type 0 where
  pub verdict : PolicyVerdict
  pub rule_results : List RuleHit
  pub triggered_rule_id : Option RuleId
  pub config_snapshot : Overrides

-- `ESCALATE_RULES`
unfoldable pub in_escalate_rules : RuleId → Bool
in_escalate_rules RuleId.p05 = true
in_escalate_rules RuleId.p06 = true
in_escalate_rules _ = false

-- `WAIT_RULES`
unfoldable pub in_wait_rules : RuleId → Bool
in_wait_rules RuleId.p04 = true
in_wait_rules RuleId.p09 = true
in_wait_rules _ = false

abbrev pub skipped : RuleId → RuleHit
skipped r = record {
  rule_id = r;
  passed = true;
  reason = plain "skipped (short-circuit)";
  evaluated = false;
}

abbrev pub Rule : Type 0
Rule = RuleId × (PolicyContext → RuleHit)

-- The loop of `evaluate`: the hits in order, and the rule that failed. The second argument is the
-- loop's `failed_rule_id`.
unfoldable pub run_rules : PolicyContext → Option RuleId → List Rule → List RuleHit × Option RuleId
run_rules ctx failed [] = ([], failed)
run_rules ctx (some f) ((r, fn) ∷ rules) =
    let (hits, out) = run_rules ctx (some f) rules in (skipped r ∷ hits, out)
run_rules ctx none ((r, fn) ∷ rules) =
    let hit = fn ctx in
    let (hits, out) = run_rules ctx (if hit.passed then none else some r) rules in (hit ∷ hits, out)

unfoldable pub verdict_of : Option RuleId → PolicyVerdict
unfolding in_escalate_rules in_wait_rules
verdict_of none = PolicyVerdict.allow
verdict_of (some r) =
    if in_escalate_rules r
    then PolicyVerdict.escalate
    else if in_wait_rules r
    then PolicyVerdict.wait
    else PolicyVerdict.block

unfoldable pub evaluate : PolicyContext → PolicyResult
evaluate ctx =
    let (hits, failed) = run_rules ctx none rule_order in
    record {
      verdict = verdict_of failed;
      rule_results = hits;
      triggered_rule_id = failed;
      config_snapshot = to_dict ctx.config;
    }
