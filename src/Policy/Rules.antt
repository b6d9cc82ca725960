-- ===== src/Policy/Rules.antt =====
-- app/policy/rules.py: the rule catalog P01 to P14. Times are seconds since the epoch, ages are in
-- seconds. A reason is a text with the numbers that the f-string puts in.
pub mod Context
pub mod Bounds
use ai_revenue_recovery_agen.Prelude.{
  ℕ, ◌+◌, ◌-◌, ◌*◌, ◌/◌, ◌^◌, min, max, Bool, true, false, not, ◌&&◌, ◌||◌, Option, none, some,
  List, [], ◌∷◌, String, str_eq, ltb, leb, ◌==◌, if◌then◌else◌,
}
use ai_revenue_recovery_agen.Format.{Reason, text, num, decimal, plain}
use ai_revenue_recovery_agen.Db.Enums.{CaseStatus, PaymentStatus, DiagnosisClass, ActionType}
use ai_revenue_recovery_agen.Policy.Config.{PolicyConfig}
pub use ai_revenue_recovery_agen.Policy.Rules.Context.{RuleId, PolicyContext, RuleHit}
unfoldable pub use ai_revenue_recovery_agen.Policy.Rules.Context.{
  in_eligible_states, in_retry_actions, in_contact_actions, in_retry_forbidden, is_failed,
  is_captured, is_escalation, cooldown_minutes, rule,
}

unfoldable pub p01_state_eligible : PolicyContext → RuleHit
unfolding in_eligible_states
p01_state_eligible ctx =
    let ok = in_eligible_states ctx.case_status && is_failed ctx.payment_status in
    rule RuleId.p01 ok (
      if ok
      then plain "case/state eligible"
      else plain "case not in eligible state or payment not failed")

unfoldable pub p02_already_recovered : PolicyContext → RuleHit
p02_already_recovered ctx =
    let already = is_captured ctx.payment_status || ctx.captured_for_order in
    rule RuleId.p02 (not already)
      (if not already then plain "not already recovered" else plain "already recovered")

unfoldable pub p03_max_retries : PolicyContext → RuleHit
unfolding in_retry_actions
p03_max_retries ctx =
    let ok = ltb ctx.retry_count ctx.config.max_retries in
    if not (in_retry_actions ctx.proposed_action)
    then rule RuleId.p03 true (plain "not a retry action")
    else rule RuleId.p03 ok (
        if ok
        then text "retry budget available ("
          ∷ num ctx.retry_count
          ∷ text "/"
          ∷ num ctx.config.max_retries
          ∷ text ")"
          ∷ []
        else plain "max retries exhausted")

-- `elapsed_min >= cd_min`, multiplied out: the difference of the times may be negative in the source.
cooldown_rule : PolicyContext → Option ℕ → RuleHit
cooldown_rule ctx none = rule RuleId.p04 true (plain "no cooldown required")
cooldown_rule ctx (some last) =
    let cd_min = cooldown_minutes ctx.config ctx.retry_count in
    let ok = leb (last + cd_min * 60) ctx.now in
    rule RuleId.p04 ok (
      if ok
      then text "cooldown "
        ∷ decimal (ctx.now - last) 60 0
        ∷ text "/"
        ∷ num cd_min
        ∷ text "m elapsed"
        ∷ []
      else text "cooldown active (" ∷ num cd_min ∷ text "m)" ∷ [])

unfoldable pub p04_cooldown : PolicyContext → RuleHit
unfolding in_retry_actions cooldown_rule
p04_cooldown ctx =
    if not (in_retry_actions ctx.proposed_action)
    then rule RuleId.p04 true (plain "no cooldown required")
    else cooldown_rule ctx ctx.last_attempt_at

unfoldable pub p05_amount_ceiling : PolicyContext → RuleHit
p05_amount_ceiling ctx =
    let ok = leb ctx.amount_minor ctx.config.approval_limit_minor in
    if is_escalation ctx.proposed_action
    then rule RuleId.p05 true (plain "escalation always permitted")
    else rule RuleId.p05 ok (
        if ok
        then plain "amount within auto-approval ceiling"
        else plain "amount above auto-approval ceiling")

unfoldable pub p06_confidence_floor : PolicyContext → RuleHit
p06_confidence_floor ctx =
    let floor = ctx.config.confidence_floor in
    let low = min ctx.diagnosis_confidence ctx.strategy_confidence in
    let ok = leb floor low in
    if is_escalation ctx.proposed_action
    then rule RuleId.p06 true (plain "escalation always permitted")
    else rule RuleId.p06 ok (
        text "confidence "
        ∷ decimal low 10000 2
        ∷ text (if ok then " >= floor " else " below floor ")
        ∷ decimal floor 10000 2
        ∷ [])

unfoldable pub p07_duplicate_action : PolicyContext → RuleHit
p07_duplicate_action ctx =
    let ok = not ctx.existing_action in
    rule RuleId.p07 ok (if ok then plain "no duplicate action" else plain "duplicate action exists")

unfoldable pub p08_contact_cap : PolicyContext → RuleHit
unfolding in_contact_actions
p08_contact_cap ctx =
    let ok = ltb ctx.contact_count_7d ctx.config.contact_cap_7d in
    if not (in_contact_actions ctx.proposed_action)
    then rule RuleId.p08 true (plain "not a contact action")
    else rule RuleId.p08 ok (
        if ok
        then text "contact budget ok ("
          ∷ num ctx.contact_count_7d
          ∷ text "/"
          ∷ num ctx.config.contact_cap_7d
          ∷ text ")"
          ∷ []
        else plain "contact cap reached")

unfoldable pub p09_downtime_hold : PolicyContext → RuleHit
unfolding in_retry_actions
p09_downtime_hold ctx =
    if not (in_retry_actions ctx.proposed_action) || not ctx.downtime_active
    then rule RuleId.p09 true (plain "no downtime hold")
    else rule RuleId.p09 false (plain "downtime active; hold retry until resolved")

-- The reason of a P10 refusal, with the text of the class.
forbidden : Option DiagnosisClass → Reason
forbidden (some DiagnosisClass.instrument_invalid) =
    text "retry forbidden for diagnosis " ∷ text "INSTRUMENT_INVALID" ∷ []
forbidden (some DiagnosisClass.duplicate_self_healed) =
    text "retry forbidden for diagnosis " ∷ text "DUPLICATE_SELF_HEALED" ∷ []
forbidden _ = []

unfoldable pub p10_diagnosis_action_compat : PolicyContext → RuleHit
unfolding in_retry_actions in_retry_forbidden forbidden
p10_diagnosis_action_compat ctx =
    if in_retry_actions ctx.proposed_action && in_retry_forbidden ctx.diagnosis_class
    then rule RuleId.p10 false (forbidden ctx.diagnosis_class)
    else rule RuleId.p10 true (plain "strategy compatible with diagnosis")

unfoldable pub p11_ttl : PolicyContext → RuleHit
p11_ttl ctx =
    let ttl_h = ctx.config.ttl_hours in
    let ok = ltb ctx.age_seconds (ttl_h * 3600) in
    rule RuleId.p11 ok (
      if ok
      then text "within TTL ("
        ∷ decimal ctx.age_seconds 3600 0
        ∷ text "/"
        ∷ num ttl_h
        ∷ text "h)"
        ∷ []
      else plain "TTL expired")

unfoldable pub p12_simulation_budget : PolicyContext → RuleHit
unfolding in_retry_actions
p12_simulation_budget ctx =
    let ok = ltb 0 ctx.simulation_budget_remaining in
    if not (in_retry_actions ctx.proposed_action)
    then rule RuleId.p12 true (plain "not a simulated charge")
    else rule RuleId.p12 ok
        (if ok then plain "simulation budget available" else plain "simulation budget exhausted")

-- The three tests of P13 on optional parameters: absent, or in bounds.
abbrev pub delay_sane : Option ℕ → Bool
delay_sane none = true
delay_sane (some m) = leb 15 m && leb m (72 * 60)

abbrev pub link_sane : ℕ → Option ℕ → Bool
link_sane amount none = true
link_sane amount (some a) = a == amount

abbrev pub channel_sane : Option String → Bool
channel_sane none = true
channel_sane (some c) = str_eq c "sms" || str_eq c "email"

unfoldable pub p13_param_sanity : PolicyContext → RuleHit
p13_param_sanity ctx =
    if not (delay_sane ctx.proposed_delay_minutes)
    then rule RuleId.p13 false (plain "delay out of bounds [15m, 72h]")
    else if not (link_sane ctx.amount_minor ctx.link_amount_minor)
    then rule RuleId.p13 false (plain "link amount != original amount")
    else if not (channel_sane ctx.channel)
    then rule RuleId.p13 false (plain "invalid channel")
    else rule RuleId.p13 true (plain "parameters sane")

unfoldable pub p14_audit_write : PolicyContext → RuleHit
p14_audit_write ctx = rule RuleId.p14 true (plain "audit write will precede execution")

-- `RULE_ORDER`
unfoldable pub rule_order : List (RuleId × (PolicyContext → RuleHit))
rule_order =
    (RuleId.p01, p01_state_eligible)
    ∷ (RuleId.p02, p02_already_recovered)
    ∷ (RuleId.p03, p03_max_retries)
    ∷ (RuleId.p04, p04_cooldown)
    ∷ (RuleId.p05, p05_amount_ceiling)
    ∷ (RuleId.p06, p06_confidence_floor)
    ∷ (RuleId.p07, p07_duplicate_action)
    ∷ (RuleId.p08, p08_contact_cap)
    ∷ (RuleId.p09, p09_downtime_hold)
    ∷ (RuleId.p10, p10_diagnosis_action_compat)
    ∷ (RuleId.p11, p11_ttl)
    ∷ (RuleId.p12, p12_simulation_budget)
    ∷ (RuleId.p13, p13_param_sanity)
    ∷ (RuleId.p14, p14_audit_write)
    ∷ []
