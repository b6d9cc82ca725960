-- ===== src/Prelude/Lists.antt =====
-- Lists measured by native numbers, predicates on lists, and lookup in a table of texts.
use Prim.Native.Nat.{ℕ, zero, suc, ◌≤◌}
use mathlib.Core.Logic.{◌⊎◌, ◌≢◌, inl, inr}
use mathlib.Core.Path.{◌≡◌, refl, subst, ap}
use mathlib.Core.Bool.{Bool, true, false}
use mathlib.Core.Option.{Option, none, some}
use mathlib.Core.List.{List, [], ◌∷◌, map}
use native.Mathlib.Omega.{arith}
use ai_revenue_recovery_agen.Prelude.Tests.{if◌then◌else◌, Bool-cases}

module _ {ℓ} {A : Type ℓ} where
  abbrev pub length : List A → ℕ
  length [] = 0
  length (x ∷ xs) = suc (length xs)

  -- How many entries pass a test.
  unfoldable pub count_if : (A → Bool) → List A → ℕ
  count_if p [] = 0
  count_if p (x ∷ xs) = let rest = count_if p xs in if p x then suc rest else rest

  -- The first entry that passes a test.
  unfoldable pub find_first : (A → Bool) → List A → Option A
  find_first p [] = none
  find_first p (x ∷ xs) = let rest = find_first p xs in if p x then some x else rest

  -- The entries that pass a test.
  unfoldable pub filter : (A → Bool) → List A → List A
  filter p [] = []
  filter p (x ∷ xs) = let rest = filter p xs in if p x then x ∷ rest else rest

  -- Whether some entry passes a test.
  unfoldable pub any : (A → Bool) → List A → Bool
  any p [] = false
  any p (x ∷ xs) = let rest = any p xs in if p x then true else rest

  abbrev pub All {κ} : (A → Type κ) → List A → Type κ
  All P [] = Unit
  All P (x ∷ xs) = P x × All P xs

abbrev pub get_or {ℓ} : {A : Type ℓ} → Option A → A → A
get_or none d = d
get_or (some a) d = a

abbrev pub is_some {ℓ} : {A : Type ℓ} → Option A → Bool
is_some none = false
is_some (some a) = true

module _ {ℓ} {A : Type ℓ} where
  -- A weaker property of every entry.
  pub All-map {κ ι} :
      (P : A → Type κ) (Q : A → Type ι) (xs : List A) → ((x : A) → P x → Q x) → All P xs → All Q xs
  All-map P Q [] f h = tt
  All-map P Q (x ∷ xs) f (h, hs) = (f x h, All-map P Q xs f hs)

  pub count_if_grows : (p : A → Bool) (x : A) (xs : List A) → count_if p xs ≤ count_if p (x ∷ xs)
  unfolding count_if
  count_if_grows p x xs = elim (Bool-cases (p x)) [
    | inl y ↦ rw y (omega arith)
    | inr n ↦ rw n (omega arith)
  ]

  pub count_if_hit :
      (p : A → Bool) (x : A) (xs : List A) → p x ≡ true → count_if p (x ∷ xs) ≡ suc (count_if p xs)
  unfolding count_if
  count_if_hit p x xs h = rw h refl

module _ {A : Type 0} where
  -- The entry found is the first or stands in the rest.
  pub find_first_cons :
      (p : A → Bool) (y : A) (ys : List A) (x : A)
      → find_first p (y ∷ ys) ≡ some x
      → (y ≡ x) ⊎ (find_first p ys ≡ some x)
  unfolding find_first
  find_first_cons p y ys x e = elim (Bool-cases (p y)) [
    | inl t ↦ let e' = (rw t at e) in grind arith
    | inr f ↦ inr (rw f at e)
  ]

  pub find_first_nil : (p : A → Bool) (x : A) → find_first p [] ≢ some x
  unfolding find_first
  find_first_nil p x = λ e. grind arith

  -- What every entry has, the one found has.
  pub All-find_first {κ} :
      (P : A → Type κ) (p : A → Bool) (xs : List A) (x : A)
      → All P xs
      → find_first p xs ≡ some x
      → P x
  All-find_first P p [] x h e = absurd (find_first_nil p x e)
  All-find_first P p (y ∷ ys) x (h, hs) e = elim (find_first_cons p y ys x e) [
    | inl t ↦ subst P t h
    | inr r ↦ All-find_first P p ys x hs r
  ]

  pub find_first_passes :
      (p : A → Bool) (xs : List A) (x : A) → find_first p xs ≡ some x → p x ≡ true
  unfolding find_first
  find_first_passes p [] x e = grind arith
  find_first_passes p (y ∷ ys) x e = elim (Bool-cases (p y)) [
    | inl t ↦ let e' = (rw t at e) in grind arith
    | inr f ↦ find_first_passes p ys x (rw f at e)
  ]

  pub find_first-none :
      (p : A → Bool) (xs : List A) → find_first p xs ≡ none → All (λ x. p x ≡ false) xs
  unfolding find_first
  find_first-none p [] e = tt
  find_first-none p (y ∷ ys) e = elim (Bool-cases (p y)) [
    | inl t ↦ let e' = (rw t at e) in grind arith
    | inr f ↦ (f, find_first-none p ys (rw f at e))
  ]

  pub any_fails : (p : A → Bool) (xs : List A) → any p xs ≡ false → All (λ x. p x ≡ false) xs
  unfolding any
  any_fails p [] e = tt
  any_fails p (y ∷ ys) e = elim (Bool-cases (p y)) [
    | inl t ↦ let e' = (rw t at e) in grind arith
    | inr f ↦ (f, any_fails p ys (rw f at e))
  ]

  pub All-over :
      {K : Type 0} (P : K → Type 0) (f : A → K) (xs : List A)
      → All (λ x. P (f x)) xs
      → All P (map f xs)
  All-over P f [] h = tt
  All-over P f (x ∷ xs) (h, hs) = (h, All-over P f xs hs)

  pub All-of :
      {K : Type 0} (f : A → K) (P : K → Type 0) (xs : List A)
      → All P (map f xs)
      → All (λ x. P (f x)) xs
  All-of f P [] h = tt
  All-of f P (x ∷ xs) (h, hs) = (h, All-of f P xs hs)

  pub any_hit : (p : A → Bool) (x : A) (xs : List A) → p x ≡ true → any p (x ∷ xs) ≡ true
  unfolding any
  any_hit p x xs h = rw h refl

  -- A change that keeps the test, and the entries that pass, keeps what is found.
  pub find_first-map :
      (p : A → Bool) (f : A → A) (xs : List A)
      → ((x : A) → (p (f x) ≡ p x) × (p x ≡ true → f x ≡ x))
      → find_first p (map f xs) ≡ find_first p xs
  unfolding find_first
  find_first-map p f [] h = refl
  find_first-map p f (x ∷ xs) h =
      let (same, kept) = h x in
      elim (Bool-cases (p x)) [
        | inl y ↦ rw (same, y) (ap some (kept y))
        | inr n ↦ rw (same, n) (find_first-map p f xs h)
      ]

  -- The first so many entries.
  abbrev pub take : ℕ → List A → List A
  take zero xs = []
  take (suc n) [] = []
  take (suc n) (x ∷ xs) = x ∷ take n xs

  pub any_nil : (p : A → Bool) → any p [] ≡ false
  unfolding any
  any_nil p = refl

  -- The entry that passes is the first or stands in the rest.
  pub any_cons :
      (p : A → Bool) (x : A) (xs : List A)
      → any p (x ∷ xs) ≡ true
      → (p x ≡ true) ⊎ ((p x ≡ false) × (any p xs ≡ true))
  unfolding any
  any_cons p x xs h = elim (Bool-cases (p x)) [ inl y ↦ inl y | inr n ↦ inr (n, (rw n at h)) ]

  pub any_grows : (p : A → Bool) (x : A) (xs : List A) → any p xs ≡ true → any p (x ∷ xs) ≡ true
  unfolding any
  any_grows p x xs h = elim (Bool-cases (p x)) [ inl y ↦ rw y refl | inr n ↦ rw n h ]
