-- ===== src/Agent/Decide/Laws.antt =====
-- What the agent may decide: a validated answer of the model, or the fallback.
use ai_revenue_recovery_agen.Prelude.{
  ℕ, zero, suc, ◌≡◌, refl, ◌≤◌, ◌<◌, ◌+◌, true, false, Option, none, some, arith, ◌⊎◌, inl, inr,
  Option-cases, Bool-cases, ap, ◌∙◌, get_or, String,
}
use mathlib.Core.Path.{subst}
use text.Mathlib.TextEquality.{eq_iff}
use ai_revenue_recovery_agen.Batch.Score.{diagnosis_text, strategy_text}
use ai_revenue_recovery_agen.Db.Enums.{DecisionOrigin, DiagnosisClass}
use ai_revenue_recovery_agen.Db.Models.{Payment}
use ai_revenue_recovery_agen.Domain.Strategies.{StrategyId}
use ai_revenue_recovery_agen.Policy.Config.{PolicyConfig}
use ai_revenue_recovery_agen.Outside.{Env, RawOutput}
use ai_revenue_recovery_agen.Work.{Work}
use ai_revenue_recovery_agen.Agent.Decide.{
  CaseContext, Draft, fallback_decision, validate_llm_output, draft_of, attempts, llm_draft,
  parse_diagnosis, parse_strategy, in_unit, first_chars, ◌>>=◌, or_fallback, draft,
  max_llm_attempts,
}

-- The draft is made of the answer: the texts are the names of the diagnosis and the strategy, the
-- confidences lie in the unit interval, and the rationale is cut.
abbrev pub MadeOf : RawOutput → Draft → Type 0
MadeOf raw d =
    (d.origin ≡ DecisionOrigin.llm)
    × (raw.diagnosis ≡ some (diagnosis_text d.diagnosis_class))
    × (raw.strategy_id ≡ some (strategy_text d.choice.strategy_id))
    × (raw.diagnosis_confidence ≡ some d.diagnosis_confidence)
    × (d.diagnosis_confidence ≤ 10000)
    × (raw.strategy_confidence ≡ some d.choice.confidence)
    × (d.choice.confidence ≤ 10000)
    × (raw.params ≡ some d.choice.params)
    × (d.choice.reason ≡ first_chars 500 raw.rationale)

-- No draft is made of what came back.
abbrev pub IsRefused : Option RawOutput → Type 0
IsRefused o = (raw : RawOutput) → o ≡ some raw → (d : Draft) → ¬ MadeOf raw d

-- The answer to one of the attempts with a number from `k` on, below `n`, after refused ones.
abbrev pub Answered : Env → ℕ → Payment → ℕ → ℕ → Draft → Type 0
Answered env now payment k n d =
    (i : ℕ) × (k ≤ i)
    × (i < n)
    × ((j : ℕ) → k ≤ j → j < i → IsRefused (env.call_llm now payment j))
    × ((raw : RawOutput) × (env.call_llm now payment i ≡ some raw) × MadeOf raw d)

diagnosis_named :
    (t : String) (d : DiagnosisClass) → parse_diagnosis t ≡ some d → t ≡ diagnosis_text d
unfolding parse_diagnosis
diagnosis_named t d h = ground (
  arith,
  eq_iff t "INSUFFICIENT_FUNDS",
  eq_iff t "CUSTOMER_AUTH_REQUIRED",
  eq_iff t "INSTRUMENT_INVALID",
  eq_iff t "NETWORK_INFRA",
  eq_iff t "BANK_DOWNTIME",
  eq_iff t "DUPLICATE_SELF_HEALED",
  eq_iff t "UNKNOWN",
)

strategy_named : (t : String) (s : StrategyId) → parse_strategy t ≡ some s → t ≡ strategy_text s
unfolding parse_strategy
strategy_named t s h = grind (
  arith,
  eq_iff t "S1_IMMEDIATE_RETRY",
  eq_iff t "S2_DELAYED_RETRY",
  eq_iff t "S3_NOTIFY_WITH_LINK",
  eq_iff t "S4_ALT_PAYMENT_FLOW",
  eq_iff t "S5_HUMAN_ESCALATION",
  eq_iff t "S6_STOP_RECOVERY",
)

parses : (d : DiagnosisClass) → parse_diagnosis (diagnosis_text d) ≡ some d
unfolding parse_diagnosis
parses DiagnosisClass.unknown = refl
parses _ = refl

parses_strategy : (s : StrategyId) → parse_strategy (strategy_text s) ≡ some s
unfolding parse_strategy
parses_strategy StrategyId.s1_immediate_retry = refl
parses_strategy _ = refl

unit_bounds : (o : Option ℕ) (c : ℕ) → in_unit o ≡ some c → (o ≡ some c) × (c ≤ 10000)
unfolding in_unit
unit_bounds none c h = grind arith
unit_bounds (some v) c h = ground arith

in_bounds : (c : ℕ) → c ≤ 10000 → in_unit (some c) ≡ some c
unfolding in_unit
in_bounds c h = ground arith

-- The inversion of a chain that gives a value.
bound :
    {A B : Type 0} (o : Option A) (f : A → Option B) (b : B)
    → (o >>= f) ≡ some b
    → (a : A) × (o ≡ some a) × (f a ≡ some b)
bound none f b h = grind arith
bound (some a) f b h = (a, refl, h)

-- What the validation accepts.
abbrev Valid : RawOutput → DiagnosisClass → StrategyId → ℕ → ℕ → Type 0
Valid raw d s c sc =
    (raw.diagnosis ≡ some (diagnosis_text d))
    × (raw.strategy_id ≡ some (strategy_text s))
    × (raw.diagnosis_confidence ≡ some c)
    × (c ≤ 10000)
    × (raw.strategy_confidence ≡ some sc)
    × (sc ≤ 10000)

validated :
    (raw : RawOutput) (v : DiagnosisClass × StrategyId × ℕ × ℕ)
    → validate_llm_output raw ≡ some v
    → Valid raw v.0 v.1 v.2 v.3
unfolding validate_llm_output
validated raw v h =
    let (t, et, h1) = bound raw.diagnosis _ v h in
    let (d, ed, h2) = bound (parse_diagnosis t) _ v h1 in
    let (u, eu, h3) = bound raw.strategy_id _ v h2 in
    let (s, es, h4) = bound (parse_strategy u) _ v h3 in
    let (c, ec, h5) = bound (in_unit raw.diagnosis_confidence) _ v h4 in
    let (x, ex, h6) = bound (in_unit raw.strategy_confidence) _ v h5 in
    let (fc, bc) = unit_bounds _ c ec in
    let (fx, bx) = unit_bounds _ x ex in
    let same = ap (λ o. get_or o v) h6 in
    subst (λ z. Valid raw z.0 z.1 z.2 z.3) same
      (et ∙ ap some (diagnosis_named t d ed), eu ∙ ap some (strategy_named u s es), fc, bc, fx, bx)

validates :
    (raw : RawOutput) (d : DiagnosisClass) (s : StrategyId) (c sc : ℕ)
    → Valid raw d s c sc
    → validate_llm_output raw ≡ some (d, s, c, sc)
unfolding validate_llm_output
validates raw d s c sc (ed, es, ec, bc, ex, bx) =
    rw (ed, es, ec, ex, parses d, parses_strategy s, in_bounds c bc, in_bounds sc bx) refl

draft_of-MadeOf : (raw : RawOutput) (d : Draft) → draft_of (some raw) ≡ some d → MadeOf raw d
unfolding draft_of
draft_of-MadeOf raw d h =
    let (v, ev, h1) = bound (validate_llm_output raw) _ d h in
    let (ps, ep, h2) = bound raw.params _ d h1 in
    let same = ap (λ o. get_or o d) h2 in
    let (a, b, c, e, f, g) = validated raw v ev in
    subst (MadeOf raw) same (refl, a, b, c, e, f, g, ep, refl)

refuses : (raw : RawOutput) (d : Draft) → draft_of (some raw) ≡ none → ¬ MadeOf raw d
unfolding draft_of
refuses raw d n (_, a, b, c, e, f, g, p, _) =
    let k = rw (draft_of, validates raw _ _ _ _ (a, b, c, e, f, g), p) at n in grind arith

none-IsRefused : (o : Option RawOutput) → draft_of o ≡ none → IsRefused o
none-IsRefused none n raw e d = grind arith
none-IsRefused (some raw) n r e d = refuses r d (subst (λ o. draft_of o ≡ none) e n)

some-MadeOf :
    (o : Option RawOutput) (d : Draft)
    → draft_of o ≡ some d
    → (raw : RawOutput) × (o ≡ some raw) × MadeOf raw d
unfolding draft_of
some-MadeOf none d h = grind arith
some-MadeOf (some raw) d h = (raw, refl, draft_of-MadeOf raw d h)

module _ (env : Env) (now : ℕ) (payment : Payment) where
  -- The attempts from `k` on, below `n`, are refused.
  abbrev pub AllRefused : ℕ → ℕ → Type 0
  AllRefused k n = (j : ℕ) → k ≤ j → j < n → IsRefused (env.call_llm now payment j)

  later : (k n : ℕ) → IsRefused (env.call_llm now payment k) → AllRefused (k + 1) n → AllRefused k n
  later k n r rs j a b = elim (or_eq k j a) [
    | inl e ↦ subst (λ i. IsRefused (env.call_llm now payment i)) e r
    | inr l ↦ rs j l b
  ]
    where
      or_eq : (k j : ℕ) → k ≤ j → (k ≡ j) ⊎ (k + 1 ≤ j)
      or_eq k j h = omega arith

  none_left : (k j : ℕ) → k ≤ j → ¬ (j < k + 0)
  none_left k j a b = omega arith

  attempts-AllRefused : (n k : ℕ) → attempts env n k now payment ≡ none → AllRefused k (k + n)
  unfolding attempts
  attempts-AllRefused zero k h = λ j a b. absurd (none_left k j a b)
  attempts-AllRefused (suc n) k h = elim (Option-cases (draft_of (env.call_llm now payment k))) [
    | inl e ↦
        later k (k + suc n) (none-IsRefused _ e)
          (λ j a b. attempts-AllRefused n (k + 1) (rw (attempts, e) at h) j a (omega arith))
    | inr (x, e) ↦ (let k = rw (attempts, e) at h in grind arith)
  ]

  attempts-Answered :
      (n k : ℕ) (d : Draft)
      → attempts env n k now payment ≡ some d
      → Answered env now payment k (k + n) d
  unfolding attempts
  attempts-Answered zero k d h = grind arith
  attempts-Answered (suc n) k d h = elim (Option-cases (draft_of (env.call_llm now payment k))) [
    | inl e ↦
        (let (i, a, b, rs, r) = attempts-Answered n (k + 1) d (rw (attempts, e) at h) in
          (i, omega arith, omega arith, later k i (none-IsRefused _ e) rs, r))
    | inr (x, e) ↦
        let same = ap (λ o. get_or o d) (rw (attempts, e) at h) in
        (
          k,
          omega arith,
          omega arith,
          λ j a b. absurd (nothing j a b),
          some-MadeOf _ d (e ∙ ap some same),
        )
  ]
    where
      nothing : (j : ℕ) → k ≤ j → ¬ (j < k)
      nothing j a b = omega arith

-- The draft of a decision is the fallback, where the model is not configured or its answers to all of the
-- `max_llm_attempts` attempts are refused, or the model is configured and the draft is made of the first
-- answer that is not refused: one that names a diagnosis and a strategy, with two confidences between 0
-- and 1 and parameters that are an object; its rationale is cut to 500 characters.
pub draft_lem :
    (env : Env) (ctx : CaseContext) (cfg : PolicyConfig) (retry_count : ℕ) (w : Work)
    → ((draft env ctx cfg retry_count w ≡ fallback_decision w.payment ctx cfg retry_count)
        × ((env.llm_configured ≡ false)
            ⊎ AllRefused env w.session.next_id w.payment 0 max_llm_attempts))
      ⊎ ((env.llm_configured ≡ true)
          × Answered env w.session.next_id w.payment 0 max_llm_attempts
              (draft env ctx cfg retry_count w))
unfolding draft llm_draft or_fallback
draft_lem env ctx cfg retry_count w = elim (Bool-cases env.llm_configured) [
  | inr off ↦ inl (rw off refl, inl off)
  | inl on ↦ elim (Option-cases (attempts env max_llm_attempts 0 w.session.next_id w.payment)) [
    | inl n ↦ inl (
      rw (on, n) refl,
      inr (attempts-AllRefused env w.session.next_id w.payment max_llm_attempts 0 n),
    )
    | inr (d, y) ↦
        inr (
          on,
          rw (on, y) (attempts-Answered env w.session.next_id w.payment max_llm_attempts 0 d y),
        )
  ]
]
