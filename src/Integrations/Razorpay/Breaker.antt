-- ===== src/Integrations/Razorpay/Breaker.antt =====
-- `CircuitBreaker` of razorpay.py. A time is a reading of `time.monotonic()`.
use ai_revenue_recovery_agen.Prelude.{
  ℕ, ◌+◌, ◌≤◌, ◌<◌, ◌≡◌, refl, Bool, true, false, Option, none, some, ltb, leb, if◌then◌else◌,
  arith, Bool-cases, inl, inr,
}

pub record CircuitBreaker : Type 0 where
  pub threshold : ℕ
  pub cooldown_s : ℕ
  pub failures : ℕ
  pub opened_at : Option ℕ

-- `CircuitBreaker(threshold)`
unfoldable pub new_breaker : ℕ → CircuitBreaker
new_breaker threshold = record {
  threshold = threshold;
  cooldown_s = 60;
  failures = 0;
  opened_at = none;
}

-- `is_open` closes the breaker when the cooldown is over.
abbrev pub open_since : ℕ → Option ℕ → CircuitBreaker → Bool × CircuitBreaker
open_since now none b = (false, b)
open_since now (some t) b =
    if ltb (t + b.cooldown_s) now
    then (false, record b { failures = 0; opened_at = none })
    else (true, b)

unfoldable pub is_open : ℕ → CircuitBreaker → Bool × CircuitBreaker
is_open now b = open_since now b.opened_at b

unfoldable pub record_failure : ℕ → CircuitBreaker → CircuitBreaker
record_failure now b = record b {
  failures = b.failures + 1;
  opened_at = if leb b.threshold (b.failures + 1) then some now else b.opened_at;
}

unfoldable pub record_success : CircuitBreaker → CircuitBreaker
record_success b = record b { failures = 0; opened_at = none }

-- A closed breaker has fewer failures than the threshold, and an open one at least as many.
abbrev pub CountFits : Option ℕ → CircuitBreaker → Type 0
CountFits none b = b.failures < b.threshold
CountFits (some t) b = b.threshold ≤ b.failures

abbrev pub IsSound : CircuitBreaker → Type 0
IsSound b = CountFits b.opened_at b

-- A lookup keeps the threshold.
pub is_open_threshold :
    (now : ℕ) (b : CircuitBreaker) → 0 < b.threshold → 0 < (is_open now b).1.threshold
unfolding is_open
is_open_threshold now b h = since b.opened_at
  where
    since : (o : Option ℕ) → 0 < (open_since now o b).1.threshold
    since none = h
    since (some t) = ground arith

pub is_open_within :
    (now t : ℕ) (b : CircuitBreaker)
    → b.opened_at ≡ some t
    → now ≤ t + b.cooldown_s
    → is_open now b ≡ (true, b)
unfolding is_open
is_open_within now t b o h =
    let no : ltb (t + b.cooldown_s) now ≡ false = ground arith in rw (o, no) refl

pub new_breaker-IsSound : (n : ℕ) → 0 < n → IsSound (new_breaker n)
unfolding new_breaker
new_breaker-IsSound n h = h

pub record_success-IsSound : (b : CircuitBreaker) → 0 < b.threshold → IsSound (record_success b)
unfolding record_success
record_success-IsSound b h = h

pub is_open-IsSound :
    (now : ℕ) (b : CircuitBreaker) → 0 < b.threshold → IsSound b → IsSound ((is_open now b).1)
unfolding is_open
is_open-IsSound now b h s = since b.opened_at
  where
    since : (o : Option ℕ) → IsSound ((open_since now o b).1)
    since none = s
    since (some t) = elim (Bool-cases (ltb (t + b.cooldown_s) now)) [
      | inl y ↦ rw y h
      | inr n ↦ rw n s
    ]

still :
    (o : Option ℕ) (b : CircuitBreaker)
    → CountFits o b
    → b.failures + 1 < b.threshold
    → CountFits o (record b { failures = b.failures + 1 })
still none b s h = h
still (some t) b s h = omega arith

pub record_failure-IsSound :
    (now : ℕ) (b : CircuitBreaker) → IsSound b → IsSound (record_failure now b)
unfolding record_failure
record_failure-IsSound now b s = elim (Bool-cases (leb b.threshold (b.failures + 1))) [
  | inl y ↦ rw y (ground arith)
  | inr n ↦ rw n (still b.opened_at b s (ground arith))
]
