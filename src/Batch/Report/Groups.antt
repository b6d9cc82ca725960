-- ===== src/Batch/Report/Groups.antt =====
-- Action rows that are numbered have different idempotency keys.
use ai_revenue_recovery_agen.Prelude.{
  ◌⊎◌, ℕ, ◌≡◌, refl, Bool, true, false, List, [], ◌∷◌, count_if, ltb, All, All-map, arith,
  Bool-cases, inl, inr, count_if_hit,
}
use ai_revenue_recovery_agen.Db.Models.{RecoveryAction}
use ai_revenue_recovery_agen.Executors.{same_kind}
use ai_revenue_recovery_agen.Executors.Rows.{
  Numbered, Numbered-grow, clash, same_type, counts_itself,
}
use ai_revenue_recovery_agen.Executors.Keys.{IsNumbered}
use ai_revenue_recovery_agen.Batch.Report.{Key, key_eq, add_to_group, groups, dup_groups}

-- Numbered rows are numbered within the whole table.
all_Numbered : (rows : List RecoveryAction) → IsNumbered rows → All (Numbered rows) rows
all_Numbered [] h = tt
all_Numbered (r ∷ rows) (n, k, h) = (
  (
    rw
        (count_if_hit (same_kind r.case_id r.action_type) r rows
          (counts_itself r.case_id r.action_type))
        (omega arith),
    k,
  ),
  All-map _ _ rows (Numbered-grow r rows) (all_Numbered rows h),
)

key_eq→eq : (a b : Key) → key_eq a b ≡ true → a ≡ b
key_eq→eq (a, t, n) (b, u, m) h = ground (arith, same_type t u)

-- Each group has one row.
IsSingle : List (Key × ℕ) → Type 0
IsSingle = All (λ (g : Key × ℕ). ltb 1 g.1 ≡ false)

-- No group has the key.
abbrev Lacks : Key → List (Key × ℕ) → Type 0
Lacks k = All (λ (g : Key × ℕ). key_eq g.0 k ≡ false)

add_to_group-IsSingle :
    (k : Key) (g : List (Key × ℕ)) → Lacks k g → IsSingle g → IsSingle (add_to_group k g)
unfolding add_to_group IsSingle
add_to_group-IsSingle k [] h s = (refl, tt)
add_to_group-IsSingle k (g ∷ gs) (n, h) (o, s) = rw n (o, add_to_group-IsSingle k gs h s)

add_to_group-Lacks :
    (j k : Key) (g : List (Key × ℕ)) → key_eq j k ≡ false → Lacks k g → Lacks k (add_to_group j g)
unfolding add_to_group
add_to_group-Lacks j k [] n h = (n, tt)
add_to_group-Lacks j k (g ∷ gs) n (m, h) = elim (Bool-cases (key_eq g.0 j)) [
  | inl y ↦ rw y (m, h)
  | inr f ↦ rw f (m, add_to_group-Lacks j k gs n h)
]

groups-Lacks :
    (k : Key) (rows : List RecoveryAction)
    → All (λ (r : RecoveryAction). key_eq r.idempotency_key k ≡ false) rows
    → Lacks k (groups rows)
unfolding groups
groups-Lacks k [] h = tt
groups-Lacks k (r ∷ rows) (n, h) =
    add_to_group-Lacks r.idempotency_key k (groups rows) n (groups-Lacks k rows h)

differ :
    (next : RecoveryAction) (rows : List RecoveryAction)
    → IsNumbered (next ∷ rows)
    → All (λ (r : RecoveryAction). key_eq r.idempotency_key next.idempotency_key ≡ false) rows
differ next rows (n, k, h) =
    All-map _ _ rows (λ r m. apart r m (Bool-cases _)) (all_Numbered rows h)
  where
    apart :
        (r : RecoveryAction)
        → Numbered rows r
        → (key_eq r.idempotency_key next.idempotency_key ≡ true)
          ⊎ (key_eq r.idempotency_key next.idempotency_key ≡ false)
        → key_eq r.idempotency_key next.idempotency_key ≡ false
    apart r m (inl y) =
        absurd (clash rows next n k r m (key_eq→eq r.idempotency_key next.idempotency_key y))
    apart r m (inr f) = f

groups-IsSingle : (rows : List RecoveryAction) → IsNumbered rows → IsSingle (groups rows)
unfolding groups IsSingle
groups-IsSingle [] h = tt
groups-IsSingle (r ∷ rows) h =
    add_to_group-IsSingle r.idempotency_key (groups rows)
      (groups-Lacks r.idempotency_key rows (differ r rows h)) (groups-IsSingle rows h.2)

none_pass :
    {A : Type 0} (p : A → Bool) (xs : List A) → All (λ x. p x ≡ false) xs → count_if p xs ≡ 0
unfolding count_if
none_pass p [] h = refl
none_pass p (x ∷ xs) (n, h) = rw n (none_pass p xs h)

-- No idempotency key of a numbered table comes twice.
pub dup_groups_none : (rows : List RecoveryAction) → IsNumbered rows → dup_groups rows ≡ 0
unfolding dup_groups IsSingle
dup_groups_none rows h = none_pass _ (groups rows) (groups-IsSingle rows h)
