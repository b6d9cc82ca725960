-- ===== src/Domain/Strategies/Safety.antt =====
-- When the decision table of strategies.py charges, contacts, escalates or stops.
use ai_revenue_recovery_agen.Prelude.{
  ℕ, zero, suc, min, max, refl, ◌≤◌, ◌<◌, ◌*◌, ◌≡◌, ◌↔◌, ◌⊎◌, inl, inr, true, some, none, arith,
}
use ai_revenue_recovery_agen.Db.Enums.{DiagnosisClass, ActionType}
use ai_revenue_recovery_agen.Domain.Strategies.{
  StrategyId, Delay, Situation, catalog_action, cooldown_minutes, select_strategy,
}

-- Why a case stops without an attempt.
abbrev pub IsOver : Situation → Type 0
IsOver s = (s.diagnosis ≡ DiagnosisClass.duplicate_self_healed) ⊎ (48 * 3600 < s.age_seconds)

-- Why a case that is not over goes to a human.
abbrev pub NeedsHuman : Situation → Type 0
NeedsHuman s =
    (s.approval_limit_minor ≤ s.amount_minor)
    ⊎ (s.confidence < s.confidence_floor)
    ⊎ (s.diagnosis ≡ DiagnosisClass.unknown)
    ⊎ (2 ≤ s.retry_count)

-- `select_strategy` answers S6 exactly when the payment was captured meanwhile or the failure is older
-- than 48 hours.
pub stop_iff :
    (s : Situation) → ((select_strategy s).strategy_id ≡ StrategyId.s6_stop_recovery) ↔ IsOver s
unfolding select_strategy
stop_iff s = (λ h. ground arith, λ h. ground arith)

-- `select_strategy` answers S5 exactly when the case is not over and the amount is at or above the
-- ceiling, the confidence is below the floor, the cause is unknown or two attempts were made.
pub escalate_iff :
    (s : Situation)
    → ((select_strategy s).strategy_id ≡ StrategyId.s5_human_escalation)
      ↔ ((¬ IsOver s) × NeedsHuman s)
unfolding select_strategy
escalate_iff s = (λ h. ground arith, λ h. ground arith)

-- Why a charge may help: a bank downtime, with or without a saved token, or insufficient funds or a
-- network fault with one.
abbrev pub IsRetryable : Situation → Type 0
IsRetryable s =
    (s.diagnosis ≡ DiagnosisClass.bank_downtime)
    ⊎ ((s.has_token ≡ true)
        × ((s.diagnosis ≡ DiagnosisClass.insufficient_funds)
            ⊎ (s.diagnosis ≡ DiagnosisClass.network_infra)))

-- The delay of a proposal is absent, 60 or 240 minutes.
abbrev pub HasTableDelay : Situation → Type 0
HasTableDelay s =
    ((select_strategy s).params.delay_minutes ≡ none)
    ⊎ ((select_strategy s).params.delay_minutes ≡ some (Delay.whole 60))
    ⊎ ((select_strategy s).params.delay_minutes ≡ some (Delay.whole 240))

charge_iff :
    (s : Situation)
    → (catalog_action (select_strategy s).strategy_id ≡ some ActionType.retry_charge)
      ↔ ((¬ IsOver s) × (¬ NeedsHuman s) × IsRetryable s)
unfolding select_strategy catalog_action
charge_iff s = (λ h. ground arith, λ h. ground arith)

table_delay : (s : Situation) → HasTableDelay s
unfolding select_strategy
table_delay s = ground arith

-- `select_strategy` proposes a charge (S1 or S2) exactly when the case is not over, needs no human, and
-- its cause is a bank downtime, with or without a saved token, or insufficient funds or a network fault
-- with a saved token. The delay of every proposal is absent, 60 or 240 minutes.
pub retry_safe :
    (s : Situation)
    → ((catalog_action (select_strategy s).strategy_id ≡ some ActionType.retry_charge)
        ↔ ((¬ IsOver s) × (¬ NeedsHuman s) × IsRetryable s))
      × HasTableDelay s
retry_safe s = (charge_iff s, table_delay s)

cooldown_step :
    (n : ℕ)
    → ((n ≡ 0) × (cooldown_minutes n ≡ 30))
      ⊎ ((n ≡ 1) × (cooldown_minutes n ≡ 120))
      ⊎ ((2 ≤ n) × (cooldown_minutes n ≡ 480))
unfolding cooldown_minutes
cooldown_step zero = inl (refl, refl)
cooldown_step (suc zero) = inr (inl (refl, refl))
cooldown_step (suc (suc n)) =
    let top : max 0 (min (suc (suc n)) 2) ≡ 2 = omega arith in inr (inr (omega arith, rw top refl))

-- The cooldown between retries lies between 30 and 480 minutes and never shrinks as attempts go on.
pub cooldown_minutes-bounds :
    (m n : ℕ)
    → m ≤ n
    → (30 ≤ cooldown_minutes m)
      × (cooldown_minutes m ≤ cooldown_minutes n)
      × (cooldown_minutes n ≤ 480)
cooldown_minutes-bounds m n h = omega (arith, cooldown_step m, cooldown_step n)
