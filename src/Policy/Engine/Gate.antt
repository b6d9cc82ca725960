-- ===== src/Policy/Engine/Gate.antt =====
-- What an ALLOW verdict of the policy gate guarantees.
use ai_revenue_recovery_agen.Prelude.{
  ℕ, ◌+◌, ◌*◌, ◌≤◌, ◌<◌, ◌≡◌, refl, ◌≢◌, ◌↔◌, ◌∙◌, ◌⊎◌, inl, inr, ap, true, false, Option, none,
  some, arith, All, String, Option-cases,
}
use text.Mathlib.TextEquality.{eq_iff}
use ai_revenue_recovery_agen.Db.Enums.{
  CaseStatus, PaymentStatus, DiagnosisClass, ActionType, PolicyVerdict,
}
use ai_revenue_recovery_agen.Policy.Rules.{
  RuleId, PolicyContext, rule_order, cooldown_minutes, p01_state_eligible, p02_already_recovered,
  p03_max_retries, p04_cooldown, p05_amount_ceiling, p06_confidence_floor, p07_duplicate_action,
  p08_contact_cap, p09_downtime_hold, p10_diagnosis_action_compat, p11_ttl, p12_simulation_budget,
  p13_param_sanity, p14_audit_write,
}
use ai_revenue_recovery_agen.Policy.Engine.{Rule, verdict_of, evaluate}
use ai_revenue_recovery_agen.Policy.Engine.Trace.{
  first_failing, verdict-evaluate, first_failing-none,
}

abbrev pub Eligible : CaseStatus → Type 0
Eligible s =
    (s ≡ CaseStatus.diagnosed)
    ⊎ (s ≡ CaseStatus.planned)
    ⊎ (s ≡ CaseStatus.policy_check)
    ⊎ (s ≡ CaseStatus.approved)
    ⊎ (s ≡ CaseStatus.awaiting_approval)

-- What a charge needs beyond the rest.
pub record ChargePermitted (ctx : PolicyContext) : Type 0 where
  pub budget : ctx.retry_count < ctx.config.max_retries
  pub cooled :
      (last : ℕ)
      → ctx.last_attempt_at ≡ some last
      → last + cooldown_minutes ctx.config ctx.retry_count * 60 ≤ ctx.now
  pub no_downtime : ctx.downtime_active ≡ false
  pub instrument_ok : ctx.diagnosis_class ≢ some DiagnosisClass.instrument_invalid
  pub not_captured_meanwhile : ctx.diagnosis_class ≢ some DiagnosisClass.duplicate_self_healed
  pub simulator_budget : 0 < ctx.simulation_budget_remaining

-- What an ALLOW verdict stands for.
pub record Permitted (ctx : PolicyContext) : Type 0 where
  pub eligible : Eligible ctx.case_status
  pub payment_failed : ctx.payment_status ≡ PaymentStatus.failed
  pub not_recovered : ctx.captured_for_order ≡ false
  pub charge : ctx.proposed_action ≡ ActionType.retry_charge → ChargePermitted ctx
  pub amount_ok :
      ctx.proposed_action ≢ ActionType.create_escalation
      → ctx.amount_minor ≤ ctx.config.approval_limit_minor
  pub confidence_ok :
      ctx.proposed_action ≢ ActionType.create_escalation
      → (ctx.config.confidence_floor ≤ ctx.diagnosis_confidence)
        × (ctx.config.confidence_floor ≤ ctx.strategy_confidence)
  pub no_duplicate : ctx.existing_action ≡ false
  pub contact_ok :
      (ctx.proposed_action ≡ ActionType.send_recovery_link)
        ⊎ (ctx.proposed_action ≡ ActionType.notify_customer)
      → ctx.contact_count_7d < ctx.config.contact_cap_7d
  pub young : ctx.age_seconds < ctx.config.ttl_hours * 3600
  pub delay_ok : (m : ℕ) → ctx.proposed_delay_minutes ≡ some m → (15 ≤ m) × (m ≤ 4320)
  pub link_ok : (a : ℕ) → ctx.link_amount_minor ≡ some a → a ≡ ctx.amount_minor
  pub channel_ok : (c : String) → ctx.channel ≡ some c → (c ≡ "sms") ⊎ (c ≡ "email")

module _ (ctx : PolicyContext) where
  charge_passes :
      ctx.proposed_action ≡ ActionType.retry_charge
      → (p03_max_retries ctx).passed ≡ true
      → (p04_cooldown ctx).passed ≡ true
      → (p09_downtime_hold ctx).passed ≡ true
      → (p10_diagnosis_action_compat ctx).passed ≡ true
      → (p12_simulation_budget ctx).passed ≡ true
      → ChargePermitted ctx
  unfolding p03_max_retries p04_cooldown p09_downtime_hold p10_diagnosis_action_compat
      p12_simulation_budget
  charge_passes a h3 h4 h9 h10 h12 = record {
    budget = ground arith;
    cooled = λ last e. ground arith;
    no_downtime = ground arith;
    instrument_ok = λ e. ground arith;
    not_captured_meanwhile = λ e. ground arith;
    simulator_budget = ground arith;
  }

  c03 :
      (ctx.proposed_action ≡ ActionType.retry_charge → ChargePermitted ctx)
      → (p03_max_retries ctx).passed ≡ true
  unfolding p03_max_retries
  c03 c = grind arith

  c04 :
      (ctx.proposed_action ≡ ActionType.retry_charge → ChargePermitted ctx)
      → (p04_cooldown ctx).passed ≡ true
  unfolding p04_cooldown
  c04 c = grind arith

  c09 :
      (ctx.proposed_action ≡ ActionType.retry_charge → ChargePermitted ctx)
      → (p09_downtime_hold ctx).passed ≡ true
  unfolding p09_downtime_hold
  c09 c = grind arith

  c10 :
      (ctx.proposed_action ≡ ActionType.retry_charge → ChargePermitted ctx)
      → (p10_diagnosis_action_compat ctx).passed ≡ true
  unfolding p10_diagnosis_action_compat
  c10 c = grind arith

  c12 :
      (ctx.proposed_action ≡ ActionType.retry_charge → ChargePermitted ctx)
      → (p12_simulation_budget ctx).passed ≡ true
  unfolding p12_simulation_budget
  c12 c = grind arith

  -- The rules that every action is held to.
  common_passes :
      (p01_state_eligible ctx).passed ≡ true
      → (p02_already_recovered ctx).passed ≡ true
      → (p07_duplicate_action ctx).passed ≡ true
      → (p11_ttl ctx).passed ≡ true
      → Eligible ctx.case_status
        × (ctx.payment_status ≡ PaymentStatus.failed)
        × (ctx.captured_for_order ≡ false)
        × (ctx.existing_action ≡ false)
        × (ctx.age_seconds < ctx.config.ttl_hours * 3600)
  unfolding p01_state_eligible p02_already_recovered p07_duplicate_action p11_ttl
  common_passes h1 h2 h7 h11 = grind arith

  common_rules :
      Permitted ctx
      → ((p01_state_eligible ctx).passed ≡ true)
        × ((p02_already_recovered ctx).passed ≡ true)
        × ((p07_duplicate_action ctx).passed ≡ true)
        × ((p11_ttl ctx).passed ≡ true)
  unfolding p01_state_eligible p02_already_recovered p07_duplicate_action p11_ttl
  common_rules p = grind arith

  -- The rules on money, contacts and parameters.
  limit_passes :
      (p05_amount_ceiling ctx).passed ≡ true
      → (p06_confidence_floor ctx).passed ≡ true
      → ctx.proposed_action ≢ ActionType.create_escalation
      → (ctx.amount_minor ≤ ctx.config.approval_limit_minor)
        × (ctx.config.confidence_floor ≤ ctx.diagnosis_confidence)
        × (ctx.config.confidence_floor ≤ ctx.strategy_confidence)
  unfolding p05_amount_ceiling p06_confidence_floor
  limit_passes h5 h6 n = ground arith

  limit_rules :
      Permitted ctx
      → ((p05_amount_ceiling ctx).passed ≡ true) × ((p06_confidence_floor ctx).passed ≡ true)
  unfolding p05_amount_ceiling p06_confidence_floor
  limit_rules p = grind arith

  contact_passes :
      (p08_contact_cap ctx).passed ≡ true
      → (ctx.proposed_action ≡ ActionType.send_recovery_link)
        ⊎ (ctx.proposed_action ≡ ActionType.notify_customer)
      → ctx.contact_count_7d < ctx.config.contact_cap_7d
  unfolding p08_contact_cap
  contact_passes h8 c = ground arith

  contact_rule : Permitted ctx → (p08_contact_cap ctx).passed ≡ true
  unfolding p08_contact_cap
  contact_rule p = grind arith

  param_passes :
      (p13_param_sanity ctx).passed ≡ true
      → ((m : ℕ) → ctx.proposed_delay_minutes ≡ some m → (15 ≤ m) × (m ≤ 4320))
        × ((a : ℕ) → ctx.link_amount_minor ≡ some a → a ≡ ctx.amount_minor)
        × ((c : String) → ctx.channel ≡ some c → (c ≡ "sms") ⊎ (c ≡ "email"))
  unfolding p13_param_sanity
  param_passes h13 = (
    λ m e. ground arith,
    λ a e. ground arith,
    λ c e. ground (arith, eq_iff c "sms", eq_iff c "email"),
  )

  param_rule : Permitted ctx → (p13_param_sanity ctx).passed ≡ true
  unfolding p13_param_sanity
  param_rule p = elim (Option-cases ctx.channel) [
    | inl e ↦ grind arith
    | inr (c, e) ↦ grind (arith, p.channel_ok c e, eq_iff c "sms", eq_iff c "email")
  ]

  permitted : All (λ (r : Rule). (r.1 ctx).passed ≡ true) rule_order → Permitted ctx
  unfolding rule_order
  permitted (h1, (h2, (h3, (h4, (h5, (h6, (h7, (h8, (h9, (h10, (h11, (h12, (h13, _))))))))))))) =
      let (e, f, r, d, y) = common_passes h1 h2 h7 h11 in
      let (delay, link, channel) = param_passes h13 in
      record {
        eligible = e;
        payment_failed = f;
        not_recovered = r;
        charge = λ a. charge_passes a h3 h4 h9 h10 h12;
        amount_ok = λ n. (limit_passes h5 h6 n).0;
        confidence_ok = λ n. let (_, c, d) = limit_passes h5 h6 n in (c, d);
        no_duplicate = d;
        contact_ok = contact_passes h8;
        young = y;
        delay_ok = delay;
        link_ok = link;
        channel_ok = channel;
      }

  rules_pass : Permitted ctx → All (λ (r : Rule). (r.1 ctx).passed ≡ true) rule_order
  unfolding rule_order p14_audit_write
  rules_pass p =
      let (h1, h2, h7, h11) = common_rules p in
      let (h5, h6) = limit_rules p in
      let c = p.charge in
      (
        h1,
        (
          h2,
          (
            c03 c,
            (
              c04 c,
              (
                h5,
                (
                  h6,
                  (
                    h7,
                    (contact_rule p, (c09 c, (c10 c, (h11, (c12 c, (param_rule p, (refl, tt))))))),
                  ),
                ),
              ),
            ),
          ),
        ),
      )

abbrev VerdictAllows : Option RuleId → Type 0
VerdictAllows r = verdict_of r ≡ PolicyVerdict.allow

only_none_allows : (r : Option RuleId) → VerdictAllows r → r ≡ none
unfolding verdict_of
only_none_allows none h = refl
only_none_allows (some r) h = ground arith

-- `evaluate` answers ALLOW exactly when the context is permitted: the case and the payment are
-- eligible and nothing was captured; a charge has retry budget, its cooldown has passed, no downtime
-- is active, its diagnosis allows a retry and the simulator has budget; anything but an escalation is
-- within the amount ceiling and above the confidence floor; no duplicate action exists, a contact is
-- below the contact cap, the failure is younger than the TTL, and delay, link amount and channel are
-- sane.
pub allow_iff :
    (ctx : PolicyContext) → ((evaluate ctx).verdict ≡ PolicyVerdict.allow) ↔ Permitted ctx
unfolding verdict_of
allow_iff ctx =
    let (passes, fails_none) = first_failing-none ctx rule_order in
    (
      λ h. permitted ctx (passes (only_none_allows _ (rw verdict-evaluate at h))),
      λ p. verdict-evaluate ctx ∙ allowed (fails_none (rules_pass ctx p)),
    )
  where
    allowed :
        first_failing ctx rule_order ≡ none
        → verdict_of (first_failing ctx rule_order) ≡ PolicyVerdict.allow
    allowed e = ap verdict_of e
