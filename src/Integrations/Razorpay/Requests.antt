-- ===== src/Integrations/Razorpay/Requests.antt =====
-- What the request loop promises.
use ai_revenue_recovery_agen.Prelude.{
  ℕ, zero, suc, ◌+◌, ◌*◌, ◌^◌, ◌≤◌, ◌<◌, ◌≡◌, refl, ◌∙◌, ap, ◌⊎◌, true, false, Option, none, some,
  List, [], ◌∷◌, leb, arith, Bool-cases, inl, inr,
}
use native.Mathlib.Numerals.{towards_suc}
use native.Mathlib.Nat.{pow-le-pow_right}
use ai_revenue_recovery_agen.Integrations.Razorpay.{
  Answer, reply, timeout, http_error, Response, Failure, Outcome, returned, raised, Event, called,
  slept, Wire, good, bad, judge, Trace, also, attempt, request, breaker_open, server_error,
  timed_out, http_failed,
}
use ai_revenue_recovery_agen.Integrations.Razorpay.Breaker.{
  CircuitBreaker, is_open, record_failure, record_success, IsSound, is_open-IsSound,
  record_failure-IsSound, record_success-IsSound, is_open_threshold, is_open_within,
}

abbrev pub calls : List Event → ℕ
calls [] = 0
calls (called k ∷ es) = suc (calls es)
calls (slept s ∷ es) = calls es

abbrev pub seconds : List Event → ℕ
seconds [] = 0
seconds (called k ∷ es) = seconds es
seconds (slept s ∷ es) = s + seconds es

-- At most so many calls, sleeps that double from `2 ^ k` on, and an answer below 500 that closes the
-- breaker.
abbrev pub Ends : Outcome Response → CircuitBreaker → Type 0
Ends (returned r) b = (r.status_code < 500) × (b.failures ≡ 0) × (b.opened_at ≡ none)
Ends (raised x) b = Unit

pub record IsBounded (left k : ℕ) (r : Trace Response) : Type 0 where
  pub few : calls r.0 ≤ left
  pub brief : seconds r.0 + 2 ^ k ≤ 2 ^ (k + left)
  pub clean : Ends r.1 r.2

doubled : (k : ℕ) → 2 ^ (k + 1) ≡ 2 * 2 ^ k
doubled k = simp towards_suc (omega arith)

grown : (k left : ℕ) → 2 ^ k ≤ 2 ^ (k + left)
grown k left = pow-le-pow_right (omega arith) (omega arith)

longer :
    (k left n : ℕ) → n + 2 ^ (k + 1) ≤ 2 ^ (k + 1 + left) → 2 ^ k + n + 2 ^ k ≤ 2 ^ (k + suc left)
longer k left n h =
    let same : k + suc left ≡ k + 1 + left = omega arith in rw same (omega (arith, doubled k, h))

first : (m n : ℕ) → n + 2 ^ 0 ≤ 2 ^ (0 + (m + 1)) → n < 2 ^ (m + 1)
first m n h =
    let same : 0 + (m + 1) ≡ m + 1 = omega arith in let h' = (rw same at h) in omega (arith, h')

judge-cases :
    (a : Answer)
    → ((r : Response) × (judge a ≡ good r) × (r.status_code < 500))
      ⊎ ((f : Failure) × (judge a ≡ bad f))
unfolding judge
judge-cases (reply s) = elim (Bool-cases (leb 500 s.status_code)) [
  | inl y ↦ inr (server_error s.status_code, rw y refl)
  | inr n ↦ inl (s, rw n refl, ground arith)
]
judge-cases timeout = inr (timed_out, refl)
judge-cases http_error = inr (http_failed, refl)

module _ (w : Wire) where
  attempt_open :
      (left k : ℕ) (last : Option Failure) (b : CircuitBreaker)
      → (is_open (w.before k) b).0 ≡ true
      → attempt w (suc left) k last b ≡ ([], raised breaker_open, (is_open (w.before k) b).1)
  unfolding attempt
  attempt_open left k last b h = rw (h, attempt) refl

  attempt_good :
      (left k : ℕ) (last : Option Failure) (b : CircuitBreaker) (r : Response)
      → (is_open (w.before k) b).0 ≡ false
      → judge (w.answer k) ≡ good r
      → attempt w (suc left) k last b
        ≡ (called k ∷ [], returned r, record_success (is_open (w.before k) b).1)
  unfolding attempt
  attempt_good left k last b r h j = rw (h, j, attempt) refl

  attempt_bad :
      (left k : ℕ) (last : Option Failure) (b : CircuitBreaker) (f : Failure)
      → (is_open (w.before k) b).0 ≡ false
      → judge (w.answer k) ≡ bad f
      → attempt w (suc left) k last b
        ≡ also (called k ∷ slept (2 ^ k) ∷ []) (
            attempt w left (k + 1) (some f) (record_failure (w.after k) (is_open (w.before k) b).1))
  unfolding attempt
  attempt_bad left k last b f h j = rw (h, j, attempt) refl

  attempt-IsBounded :
      (left k : ℕ) (last : Option Failure) (b : CircuitBreaker)
      → IsBounded left k (attempt w left k last b)
  attempt-IsBounded zero k last b =
      unfold attempt in
      record { few = omega arith; brief = omega (arith, grown k zero); clean = tt }
  attempt-IsBounded (suc left) k last b = elim (Bool-cases ((is_open (w.before k) b).0)) [
    | inl y ↦ rw (attempt_open left k last b y) stop
    | inr n ↦ (elim (judge-cases (w.answer k)) [
      | inl (r, j, low) ↦ rw (attempt_good left k last b r n j) (once low)
      | inr (f, j) ↦ rw (attempt_bad left k last b f n j) (
          more (
            attempt-IsBounded left (k + 1) (some f)
              (record_failure (w.after k) (is_open (w.before k) b).1)))
    ])
  ]
    where
      stop : IsBounded (suc left) k ([], raised breaker_open, (is_open (w.before k) b).1)
      stop = record { few = omega arith; brief = omega (arith, grown k (suc left)); clean = tt }

      once :
          {r : Response}
          → r.status_code < 500
          → IsBounded
              (suc left)
              k
              (called k ∷ [], returned r, record_success (is_open (w.before k) b).1)
      once low = record {
        few = omega arith;
        brief = omega (arith, grown k (suc left));
        clean = unfold record_success in (low, refl, refl);
      }

      more :
          {t : Trace Response}
          → IsBounded left (k + 1) t
          → IsBounded (suc left) k (also (called k ∷ slept (2 ^ k) ∷ []) t)
      more {t = t} i = record {
        few = omega (arith, i.few);
        brief = longer k left (seconds t.0) i.brief;
        clean = i.clean;
      }

  attempt-IsSound :
      (left k : ℕ) (last : Option Failure) (b : CircuitBreaker)
      → 0 < b.threshold
      → IsSound b
      → IsSound (attempt w left k last b).2
  attempt-IsSound zero k last b h s = unfold attempt in s
  attempt-IsSound (suc left) k last b h s =
      let s' = is_open-IsSound (w.before k) b h s in
      let h' = is_open_threshold (w.before k) b h in
      elim (Bool-cases ((is_open (w.before k) b).0)) [
        | inl y ↦ rw (attempt_open left k last b y) s'
        | inr n ↦ (elim (judge-cases (w.answer k)) [
          | inl (r, j, low) ↦ rw (attempt_good left k last b r n j) (record_success-IsSound _ h')
          | inr (f, j) ↦ rw (attempt_bad left k last b f n j) (
              attempt-IsSound left (k + 1) (some f)
                (record_failure (w.after k) (is_open (w.before k) b).1)
                (unfold record_failure in h') (record_failure-IsSound (w.after k) _ s'))
        ])
      ]

  -- For every client and clock, a request makes at most one call more than the retries, sleeps in all
  -- less than `2 ^ (max_retries + 1)` seconds (the random parts aside), and when it returns, the answer
  -- is below 500 and the breaker is closed with no failure counted.
  pub request-IsBounded :
      (max_retries : ℕ) (b : CircuitBreaker)
      → let t = request w max_retries b in
        (calls t.0 ≤ max_retries + 1) × (seconds t.0 < 2 ^ (max_retries + 1)) × Ends t.1 t.2
  unfolding request
  request-IsBounded max_retries b =
      let i = attempt-IsBounded (max_retries + 1) 0 none b in
      (i.few, first max_retries _ i.brief, i.clean)

  -- Through a request, the breaker of a positive threshold stays open only with at least as many
  -- failures as the threshold, and closed only with fewer.
  pub request-IsSound :
      (max_retries : ℕ) (b : CircuitBreaker)
      → 0 < b.threshold
      → IsSound b
      → IsSound (request w max_retries b).2
  unfolding request
  request-IsSound max_retries b h s = attempt-IsSound (max_retries + 1) 0 none b h s

  -- While the cooldown of an open breaker lasts, a request raises without a call to the service, and the
  -- breaker stays as it is.
  pub request_open :
      (max_retries : ℕ) (b : CircuitBreaker) (t : ℕ)
      → b.opened_at ≡ some t
      → w.before 0 ≤ t + b.cooldown_s
      → request w max_retries b ≡ ([], raised breaker_open, b)
  unfolding request
  request_open max_retries b t o h =
      let one_more : max_retries + 1 ≡ suc max_retries = omega arith in
      let held = is_open_within (w.before 0) t b o h in
      rw one_more (
        attempt_open max_retries 0 none b (ap (λ p. p.0) held)
        ∙ ap (λ p. ([], raised breaker_open, p.1)) held)
