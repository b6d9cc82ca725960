-- ===== src/Services/Pipeline/Escalation/Expiry.antt =====
-- The rows that the end of the approval window leaves.
use ai_revenue_recovery_agen.Prelude.{
  ℕ, ◌≡◌, refl, true, false, List, [], ◌∷◌, ◌==◌, ◌&&◌, arith, map, All, Bool-cases, inl, inr,
}
use ai_revenue_recovery_agen.Db.Models.{Escalation}
use ai_revenue_recovery_agen.Outside.{Env}
use ai_revenue_recovery_agen.Work.{Work}
use ai_revenue_recovery_agen.Services.Pipeline.Escalation.{
  expire_row, expire_open_escalations, is_open,
}

-- A row of another case, or one that is decided.
abbrev pub IsSettled : ℕ → Escalation → Type 0
IsSettled case_id e = (e.case_id == case_id) ≡ true → is_open e.status ≡ false

module _ (env : Env) where
  expire_row-IsSettled :
      (now case_id : ℕ) (e : Escalation) → IsSettled case_id (expire_row env now case_id e)
  unfolding expire_row
  expire_row-IsSettled now case_id e =
      elim (Bool-cases (e.case_id == case_id && is_open e.status)) [
        | inl y ↦ rw y (λ h. refl)
        | inr n ↦ rw n (λ h. ground arith)
      ]

  map-IsSettled :
      (now case_id : ℕ) (es : List Escalation)
      → All (IsSettled case_id) (map (expire_row env now case_id) es)
  map-IsSettled now case_id [] = tt
  map-IsSettled now case_id (e ∷ es) =
      (expire_row-IsSettled now case_id e, map-IsSettled now case_id es)

  pub expire_open_escalations-IsSettled :
      (w : Work) → All (IsSettled w.case.id) (expire_open_escalations env w).session.escalations
  unfolding expire_open_escalations
  expire_open_escalations-IsSettled w = map-IsSettled _ w.case.id w.session.escalations
