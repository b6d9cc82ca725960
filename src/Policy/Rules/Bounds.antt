-- ===== src/Policy/Rules/Bounds.antt =====
-- The retry cooldown of rules.py, and its fast-forward.
use ai_revenue_recovery_agen.Prelude.{ℕ, ◌+◌, ◌*◌, ◌^◌, ◌≤◌, max, ◌≡◌, true, some, arith}
use native.Mathlib.Nat.{one-le-pow, pow-le-pow_right}
use ai_revenue_recovery_agen.Policy.Config.{PolicyConfig}
use ai_revenue_recovery_agen.Policy.Rules.{PolicyContext, cooldown_minutes, p04_cooldown}

base_le : (b n : ℕ) → b ≤ b * 2 ^ n
base_le b n = let p : 1 ≤ 2 ^ n = one-le-pow n 2 (omega arith) in grind arith

doubles : (b n : ℕ) → b * 2 ^ n ≤ b * 2 ^ (n + 1)
doubles b n =
    let p : 2 ^ n ≤ 2 ^ (n + 1) = pow-le-pow_right (omega arith) (omega arith) in grind arith

-- The cooldown is at least the base and at most the larger of the base and a day, and it never shrinks
-- from one attempt to the next.
cooldown_minutes-clamped :
    (c : PolicyConfig) (n : ℕ)
    → (c.cooldown_base_min ≤ cooldown_minutes c n)
      × (cooldown_minutes c n ≤ max c.cooldown_base_min 1440)
      × (cooldown_minutes c n ≤ cooldown_minutes c (n + 1))
unfolding cooldown_minutes
cooldown_minutes-clamped c n = omega (arith, doubles c.cooldown_base_min n)

cooldown_le_raw : (c : PolicyConfig) (n : ℕ) → cooldown_minutes c n ≤ c.cooldown_base_min * 2 ^ n
unfolding cooldown_minutes
cooldown_le_raw c n = omega (arith, base_le c.cooldown_base_min n)

-- After the wait of `base * 2 ** retry_count` minutes that the pipeline fast-forwards, counted from a
-- moment at or after the last attempt, rule P04 passes.
pub cooldown_elapses :
    (ctx : PolicyContext) (last from : ℕ)
    → ctx.last_attempt_at ≡ some last
    → last ≤ from
    → from + ctx.config.cooldown_base_min * 2 ^ ctx.retry_count * 60 ≤ ctx.now
    → (p04_cooldown ctx).passed ≡ true
unfolding p04_cooldown
cooldown_elapses ctx last from e h k =
    let short = cooldown_le_raw ctx.config ctx.retry_count in ground arith
