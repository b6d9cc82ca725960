-- ===== src/Db/Tables.antt =====
-- A table with an id that the session hands out and a UNIQUE column: what an insertion and an update
-- keep.
use ai_revenue_recovery_agen.Prelude.{
  ℕ, ◌+◌, ◌≤◌, ◌<◌, ◌≡◌, ◌≢◌, refl, sym, ◌∙◌, ap, Bool, false, some, List, [], ◌∷◌, map, ◌==◌,
  if◌then◌else◌, arith, Bool-cases, inl, inr, All, All-map, find_first, All-find_first,
  find_first_cons, All-of, All-over,
}

-- No entry twice.
abbrev pub Distinct : {K : Type 0} → List K → Type 0
Distinct [] = Unit
Distinct (k ∷ ks) = All (λ j. k ≢ j) ks × Distinct ks

module _ {A K : Type 0} (id : A → ℕ) (key : A → K) where
  pub record IsTable (n : ℕ) (xs : List A) : Type 0 where
    pub ids : Distinct (map id xs)
    pub keys : Distinct (map key xs)
    pub below : All (λ i. i < n) (map id xs)

  pub IsTable-grow : (n m : ℕ) (xs : List A) → n ≤ m → IsTable n xs → IsTable m xs
  IsTable-grow n m xs h t = record {
    ids = t.ids;
    keys = t.keys;
    below = All-map _ _ (map id xs) (λ i l. omega arith) t.below;
  }

  pub IsTable-insert :
      (n : ℕ) (x : A) (xs : List A)
      → id x ≡ n
      → All (λ y. key x ≢ key y) xs
      → IsTable n xs
      → IsTable (n + 1) (x ∷ xs)
  IsTable-insert n x xs e new t = record {
    ids = (
      All-map _ _ (map id xs) (λ i l s. (let same : n ≡ i = sym e ∙ s in omega arith)) t.below,
      t.ids,
    );
    keys = (All-over _ key xs new, t.keys);
    below = (omega arith, All-map _ _ (map id xs) (λ i l. omega arith) t.below);
  }

  -- A row with the id of a row has its key.
  abbrev pub Agrees : A → A → Type 0
  Agrees x y = id y ≡ id x → key y ≡ key x

  -- So has every row with the id of a row that a query found.
  pub Agrees-find_first :
      (p : A → Bool) (xs : List A) (x : A)
      → Distinct (map id xs)
      → find_first p xs ≡ some x
      → All (Agrees x) xs
  Agrees-find_first p [] x d e = tt
  Agrees-find_first p (y ∷ ys) x (new, d) e = elim (find_first_cons p y ys x e) [
    | inl t ↦ (
      λ i. ap key t,
      All-map _ (Agrees x) ys (λ z n i. absurd (n (ap id t ∙ sym i))) (All-of id _ ys new),
    )
    | inr r ↦ (
      λ i. absurd (All-find_first (λ z. id y ≢ id z) p ys x (All-of id _ ys new) r i),
      Agrees-find_first p ys x d r,
    )
  ]

  same_keys :
      (x : A) (f : A → A) (xs : List A)
      → ((y : A) → Agrees x y → (id (f y) ≡ id y) × (key (f y) ≡ key y))
      → All (Agrees x) xs
      → (map id (map f xs) ≡ map id xs) × (map key (map f xs) ≡ map key xs)
  same_keys x f [] h a = (refl, refl)
  same_keys x f (y ∷ ys) h (a, rest) =
      let (i, k) = h y a in
      let (is, ks) = same_keys x f ys h rest in (rw (i, is) refl, rw (k, ks) refl)

  -- The update of the row with the id of `x'`.
  abbrev pub put : A → A → A
  put x' y = if id y == id x' then x' else y

  puts :
      (x x' y : A)
      → id x' ≡ id x
      → key x' ≡ key x
      → Agrees x y
      → (id (put x' y) ≡ id y) × (key (put x' y) ≡ key y)
  puts x x' y i k a = elim (Bool-cases (id y == id x')) [
    | inl t ↦ let same : id y ≡ id x' = ground arith in rw t (sym same, k ∙ sym (a (same ∙ i)))
    | inr f ↦ rw f (refl, refl)
  ]

  -- An update of a row of the table that leaves its id and its key alone.
  pub IsTable-put :
      (n : ℕ) (xs : List A) (x x' : A)
      → All (Agrees x) xs
      → id x' ≡ id x
      → key x' ≡ key x
      → IsTable n xs
      → IsTable n (map (put x') xs)
  IsTable-put n xs x x' a i k t =
      let (is, ks) = same_keys x (put x') xs (λ y g. puts x x' y i k g) a in
      record { ids = rw is t.ids; keys = rw ks t.keys; below = rw is t.below }

  pub Agrees-put : (x : A) (xs : List A) → All (Agrees x) (map (put x) xs)
  Agrees-put x [] = tt
  Agrees-put x (y ∷ ys) = (here, Agrees-put x ys)
    where
      apart : (id y == id x) ≡ false → id y ≢ id x
      apart f i = ground arith

      here : Agrees x (put x y)
      here = elim (Bool-cases (id y == id x)) [
        | inl t ↦ rw t (λ i. refl)
        | inr f ↦ rw f (λ i. absurd (apart f i))
      ]

  -- A row with an id that was not handed out.
  pub Agrees-new : (x : A) (xs : List A) → All (λ i. i < id x) (map id xs) → All (Agrees x) (x ∷ xs)
  Agrees-new x xs b =
      (λ i. refl, All-map _ (Agrees x) xs (λ y l i. absurd (omega arith)) (All-of id _ xs b))

  pub Agrees-head : (x : A) (xs : List A) → Distinct (map id (x ∷ xs)) → All (Agrees x) (x ∷ xs)
  Agrees-head x xs (new, d) =
      (λ i. refl, All-map _ (Agrees x) xs (λ y n i. absurd (n (sym i))) (All-of id _ xs new))
