-- ===== src/Executors/Rows.antt =====
-- The attempt numbers and idempotency keys of the action rows.
use ai_revenue_recovery_agen.Prelude.{
  ℕ, ◌+◌, ◌≡◌, refl, sym, ◌∙◌, ap, ◌≢◌, ◌≤◌, true, List, ◌∷◌, ◌==◌, ◌&&◌, arith, All, All-map,
  count_if, count_if_grows, count_if_hit,
}
use mathlib.Core.Path.{subst}
use ai_revenue_recovery_agen.Db.Enums.{ActionType, ExecutionMode}
use ai_revenue_recovery_agen.Db.Models.{RecoveryAction}
use ai_revenue_recovery_agen.Outside.{Env}
use ai_revenue_recovery_agen.Work.{Work}
use ai_revenue_recovery_agen.Services.CaseService.{log, next_ref}
use ai_revenue_recovery_agen.Services.Audit.{append_event}
use ai_revenue_recovery_agen.Executors.{
  action_eq, same_kind, next_attempt_no, fresh_action, new_action,
}

-- The number of a row is at most the number of rows of its kind, and its key is made of its case, its
-- type and its number.
abbrev pub Numbered : List RecoveryAction → RecoveryAction → Type 0
Numbered rows r =
    (r.attempt_no ≤ count_if (same_kind r.case_id r.action_type) rows)
    × (r.idempotency_key ≡ (r.case_id, r.action_type, r.attempt_no))

pub same_type : (a b : ActionType) → action_eq a b ≡ true → a ≡ b
same_type ActionType.retry_charge b h = grind arith
same_type _ b h = grind arith

pub type_self : (t : ActionType) → action_eq t t ≡ true
type_self ActionType.retry_charge = refl
type_self _ = refl

pub counts_itself : (case_id : ℕ) (t : ActionType) → (case_id == case_id && action_eq t t) ≡ true
counts_itself case_id t = rw (type_self t) (ground arith)

-- A row with the same key as the next one would have a number beyond its count.
pub clash :
    (rows : List RecoveryAction) (next : RecoveryAction)
    → next.attempt_no ≡ count_if (same_kind next.case_id next.action_type) rows + 1
    → next.idempotency_key ≡ (next.case_id, next.action_type, next.attempt_no)
    → (r : RecoveryAction) → Numbered rows r
    → r.idempotency_key ≢ next.idempotency_key
clash rows next f g r (h, k) e =
    let p = sym k ∙ e ∙ g in
    let c = ap (λ (x : ℕ × ActionType × ℕ). x.0) p in
    let u = ap (λ (x : ℕ × ActionType × ℕ). x.1) p in
    let n = ap (λ (x : ℕ × ActionType × ℕ). x.2) p in
    let b =
      subst (λ x. r.attempt_no ≤ count_if (same_kind next.case_id x) rows) u
        (subst (λ x. r.attempt_no ≤ count_if (same_kind x r.action_type) rows) c h) in
    omega arith

-- A number counts on when the table grows.
pub Numbered-grow :
    (a : RecoveryAction) (rows : List RecoveryAction) (r : RecoveryAction)
    → Numbered rows r
    → Numbered (a ∷ rows) r
Numbered-grow a rows r (h, k) =
    (trans (count_if_grows (same_kind r.case_id r.action_type) a rows) h, k)
  where
    trans : {a b c : ℕ} → b ≤ c → a ≤ b → a ≤ c
    trans p q = omega arith

module _ (env : Env) (t : ActionType) (mode : ExecutionMode) (w : Work) where
  abbrev old : List RecoveryAction
  old = w.session.actions

  -- The row that is inserted.
  abbrev pub inserted : RecoveryAction
  inserted = (new_action env t mode w).0

  itself : Numbered (inserted ∷ old) inserted
  unfolding new_action fresh_action next_attempt_no next_ref
  itself = (
    rw (count_if_hit (same_kind w.case.id t) inserted old (counts_itself w.case.id t))
        (omega arith),
    refl,
  )

  fresh : (r : RecoveryAction) → Numbered old r → r.idempotency_key ≢ inserted.idempotency_key
  unfolding new_action fresh_action next_attempt_no next_ref
  fresh r h = clash old inserted refl refl r h

  -- If every row of the table is numbered, the row that `new_action` inserts has another idempotency key
  -- than each of them, and every row is numbered after it.
  pub new_action-Numbered :
      All (Numbered w.session.actions) w.session.actions
      → All (λ r. r.idempotency_key ≢ inserted.idempotency_key) w.session.actions
        × All
            (Numbered (new_action env t mode w).1.session.actions)
            (new_action env t mode w).1.session.actions
  unfolding new_action fresh_action next_ref log append_event
  new_action-Numbered h =
      (All-map _ _ old fresh h, (itself, All-map _ _ old (Numbered-grow inserted old) h))
