-- ===== src/Executors/Keys.antt =====
-- The numbering of the action rows through the pipeline.
use ai_revenue_recovery_agen.Prelude.{
  ℕ, ◌+◌, ◌≡◌, refl, Bool, Option, List, [], ◌∷◌, String, ◌==◌, Bool-cases, inl, inr, count_if,
}
use ai_revenue_recovery_agen.Format.{Reason}
use ai_revenue_recovery_agen.Db.Enums.{CaseStatus, ActionType, Actor, ExecutionMode, status_eq}
use ai_revenue_recovery_agen.Db.Models.{RecoveryAction, ActionResult}
use ai_revenue_recovery_agen.Domain.Fsm.{can_transition, assert_transition}
use ai_revenue_recovery_agen.Outside.{Env}
use ai_revenue_recovery_agen.Work.{Work, modify, ◌>>◌}
use ai_revenue_recovery_agen.Work.Keeps.{Keeps, Preorder, Keeps-bind, Keeps-pure, Keeps-modify}
use ai_revenue_recovery_agen.Services.Audit.{append_event}
use ai_revenue_recovery_agen.Services.CaseService.{transition, next_ref, log, set_status}
use ai_revenue_recovery_agen.Verification.{record_capture, close_unrecovered}
use ai_revenue_recovery_agen.Executors.{
  same_kind, next_attempt_no, set_row, fresh_action, new_action, finish_action,
}

-- Each row, the newest first, has the next number of its kind, and a key made of its case, type and number.
abbrev pub IsNumbered : List RecoveryAction → Type 0
IsNumbered [] = Unit
IsNumbered (r ∷ rs) =
    (r.attempt_no ≡ count_if (same_kind r.case_id r.action_type) rs + 1)
    × (r.idempotency_key ≡ (r.case_id, r.action_type, r.attempt_no))
    × IsNumbered rs

-- A row that is finished is counted as before.
count_if-set_row :
    (id : ℕ) (t : ActionType) (a : RecoveryAction) (rs : List RecoveryAction)
    → count_if (same_kind id t) (set_row a rs) ≡ count_if (same_kind id t) rs
unfolding count_if set_row
count_if-set_row id t a [] = refl
count_if-set_row id t a (r ∷ rs) = elim (Bool-cases (r.id == a.id)) [
  | inl y ↦ rw y refl
  | inr n ↦ let rest = count_if-set_row id t a rs in rw n (rw rest refl)
]

set_row-IsNumbered :
    (a : RecoveryAction) (rs : List RecoveryAction) → IsNumbered rs → IsNumbered (set_row a rs)
unfolding set_row
set_row-IsNumbered a [] h = tt
set_row-IsNumbered a (r ∷ rs) (n, k, h) = elim (Bool-cases (r.id == a.id)) [
  | inl y ↦ rw y (n, k, h)
  | inr f ↦
      let same = count_if-set_row r.case_id r.action_type a rs in
      rw f (rw same n, k, set_row-IsNumbered a rs h)
]

-- The actions of the work stay numbered.
abbrev pub Counts : Work → Work → Type 0
Counts u v = IsNumbered u.session.actions → IsNumbered v.session.actions

pub order : Preorder Counts
order = record { stays = λ w h. h; follows = λ u v w f g h. g (f h) }

module _ (env : Env) where
  pub new_action-Counts :
      (t : ActionType) (mode : ExecutionMode) (w : Work) → Counts w (new_action env t mode w).1
  unfolding new_action fresh_action next_attempt_no next_ref log append_event
  new_action-Counts t mode w h = (refl, refl, h)

  pub moves :
      (to : CaseStatus) (actor : Actor) (reason : Reason)
      → Keeps Counts (transition env to actor reason)
  unfolding transition assert_transition modify set_status log append_event
  moves to actor reason = record {
    at = λ w. elim (Bool-cases (can_transition w.case.status to)) [
      | inl y ↦ rw y (λ h. h)
      | inr f ↦ rw f tt
    ];
  }

  sealed :
      (to : CaseStatus) (actor : Actor) (reason : Reason) (f : Work → Work)
      → ((w : Work) → Counts w (f w))
      → Keeps Counts (transition env to actor reason >> modify f)
  sealed to actor reason f h = Keeps-bind order _ _ (moves to actor reason) λ _. Keeps-modify f h

  pub record_capture-Counts :
      (gateway_ref : Option Reason) (mode : ExecutionMode) (source : String)
      → Keeps Counts (record_capture env gateway_ref mode source)
  unfolding record_capture log append_event
  record_capture-Counts gateway_ref mode source = record {
    at = λ w. elim (Bool-cases (status_eq w.case.status CaseStatus.recovered)) [
      | inl y ↦ rw y ((Keeps-pure order tt).at w)
      | inr n ↦ rw n ((sealed CaseStatus.recovered _ _ _ (λ v h. h)).at _)
    ];
  }

  pub close_unrecovered-Counts : (reason : Reason) → Keeps Counts (close_unrecovered env reason)
  unfolding close_unrecovered log append_event
  close_unrecovered-Counts reason = record {
    at = λ w. elim (Bool-cases (status_eq w.case.status CaseStatus.closed_unrecovered)) [
      | inl y ↦ rw y ((Keeps-pure order tt).at w)
      | inr n ↦ rw n ((sealed CaseStatus.closed_unrecovered _ _ _ (λ v h. h)).at _)
    ];
  }

  pub finish_action-Counts :
      (a : RecoveryAction) (ok : Bool) (result : ActionResult) (r : Option Reason)
      (e : Option String) (w : Work)
      → Counts w (finish_action env a ok result r e w).1
  unfolding finish_action log append_event
  finish_action-Counts a ok result r e w h = set_row-IsNumbered _ w.session.actions h
