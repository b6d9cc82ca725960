-- ===== src/Api/Views/Lists.antt =====
-- The list of cases against the dashboard.
use ai_revenue_recovery_agen.Prelude.{
  ℕ, zero, suc, ◌≡◌, refl, ap, true, Bool, some, List, [], ◌∷◌, length, map, filter, take, min,
  count_if, All, arith, Bool-cases, inl, inr, ◌∙◌,
}
use ai_revenue_recovery_agen.Db.Enums.{CaseStatus, status_eq}
use ai_revenue_recovery_agen.Db.Models.{RecoveryCase}
use ai_revenue_recovery_agen.Db.Session.{Session}
use ai_revenue_recovery_agen.Api.{dashboard, with_status}
use ai_revenue_recovery_agen.Api.Views.{CaseRow, case_row, of_status, list_cases}

length-take : {A : Type 0} (n : ℕ) (xs : List A) → length (take n xs) ≡ min n (length xs)
length-take zero xs = omega arith
length-take (suc n) [] = omega arith
length-take (suc n) (x ∷ xs) = let h = length-take n xs in omega arith

length-map : {A B : Type 0} (f : A → B) (xs : List A) → length (map f xs) ≡ length xs
length-map f [] = refl
length-map f (x ∷ xs) = ap suc (length-map f xs)

length-filter : {A : Type 0} (p : A → Bool) (xs : List A) → length (filter p xs) ≡ count_if p xs
unfolding filter count_if
length-filter p [] = refl
length-filter p (x ∷ xs) = elim (Bool-cases (p x)) [
  | inl y ↦ rw y (ap suc (length-filter p xs))
  | inr n ↦ rw n (length-filter p xs)
]

-- The rows shown have the status asked for.
shown_pass :
    (status : CaseStatus) (n : ℕ) (cs : List RecoveryCase)
    → All
        (λ (r : CaseRow). status_eq r.status status ≡ true)
        (map case_row (take n (of_status (some status) cs)))
unfolding filter case_row
shown_pass status zero cs = tt
shown_pass status (suc n) [] = tt
shown_pass status (suc n) (c ∷ cs) = elim (Bool-cases (status_eq c.status status)) [
  | inl y ↦ rw y (y, shown_pass status n cs)
  | inr f ↦ rw f (shown_pass status (suc n) cs)
]

-- For a status, the list has as many rows as the dashboard counts, up to the limit and at most 200, and each
-- of them has the status.
pub list_cases-dashboard :
    (status : CaseStatus) (limit : ℕ) (s : Session)
    → (length (list_cases (some status) limit s)
        ≡ min (min limit 200) ((dashboard s).cases_by_status status))
      × All (λ (r : CaseRow). status_eq r.status status ≡ true) (list_cases (some status) limit s)
unfolding list_cases dashboard with_status
list_cases-dashboard status limit s =
    let test = λ (c : RecoveryCase). status_eq c.status status in
    (
      length-map case_row (take (min limit 200) (filter test s.cases))
          ∙ length-take (min limit 200) (filter test s.cases)
          ∙ ap (min (min limit 200)) (length-filter test s.cases),
      shown_pass status (min limit 200) s.cases,
    )
