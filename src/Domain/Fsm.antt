-- ===== src/Domain/Fsm.antt =====
-- app/domain/fsm.py: the transition table of a recovery case and its guard.
pub mod Graph
use ai_revenue_recovery_agen.Prelude.{
  Bool, true, false, not, ◌&&◌, ◌||◌, List, [], ◌∷◌, String, if◌then◌else◌,
}
use ai_revenue_recovery_agen.Result.{Error, Result, ok, err}
use ai_revenue_recovery_agen.Db.Enums.{CaseStatus, status_eq}

pub record Transition : Type 0 where
  pub frm : CaseStatus
  pub to : CaseStatus
  pub actor : String

abbrev entry : CaseStatus → CaseStatus → String → Transition
entry a b who = record { frm = a; to = b; actor = who }

-- `TRANSITIONS`; a Python set, here in the order of the source.
abbrev pub transitions : List Transition
transitions =
    entry CaseStatus.detected CaseStatus.analyzing "worker"
    ∷ entry CaseStatus.analyzing CaseStatus.diagnosed "orchestrator"
    ∷ entry CaseStatus.analyzing CaseStatus.failed "worker"
    ∷ entry CaseStatus.diagnosed CaseStatus.planned "orchestrator"
    ∷ entry CaseStatus.planned CaseStatus.policy_check "orchestrator"
    ∷ entry CaseStatus.policy_check CaseStatus.approved "policy"
    ∷ entry CaseStatus.policy_check CaseStatus.awaiting_approval "policy"
    ∷ entry CaseStatus.policy_check CaseStatus.planned "orchestrator"
    ∷ entry CaseStatus.policy_check CaseStatus.blocked "policy"
    ∷ entry CaseStatus.awaiting_approval CaseStatus.approved "human"
    ∷ entry CaseStatus.awaiting_approval CaseStatus.escalated "human"
    ∷ entry CaseStatus.approved CaseStatus.executing "executor"
    ∷ entry CaseStatus.executing CaseStatus.verifying "executor"
    ∷ entry CaseStatus.executing CaseStatus.awaiting_approval "executor"
    ∷ entry CaseStatus.executing CaseStatus.failed "executor"
    ∷ entry CaseStatus.verifying CaseStatus.recovered "verifier"
    ∷ entry CaseStatus.verifying CaseStatus.closed_unrecovered "scheduler"
    ∷ entry CaseStatus.verifying CaseStatus.diagnosed "orchestrator"
    ∷ []

-- `(frm, to) in _TRANSITION_PAIRS`
unfoldable pub in_pairs : CaseStatus → CaseStatus → List Transition → Bool
in_pairs a b [] = false
in_pairs a b (t ∷ ts) = (status_eq t.frm a && status_eq t.to b) || in_pairs a b ts

-- `NON_TERMINAL`
unfoldable pub in_non_terminal : CaseStatus → Bool
in_non_terminal CaseStatus.detected = true
in_non_terminal CaseStatus.analyzing = true
in_non_terminal CaseStatus.diagnosed = true
in_non_terminal CaseStatus.planned = true
in_non_terminal CaseStatus.policy_check = true
in_non_terminal CaseStatus.awaiting_approval = true
in_non_terminal CaseStatus.approved = true
in_non_terminal CaseStatus.executing = true
in_non_terminal CaseStatus.verifying = true
in_non_terminal _ = false

-- `TERMINAL`, by `is_terminal`
unfoldable pub is_terminal : CaseStatus → Bool
is_terminal CaseStatus.recovered = true
is_terminal CaseStatus.closed_unrecovered = true
is_terminal CaseStatus.expired = true
is_terminal CaseStatus.cancelled = true
is_terminal CaseStatus.blocked = true
is_terminal CaseStatus.escalated = true
is_terminal CaseStatus.failed = true
is_terminal _ = false

unfoldable pub is_active : CaseStatus → Bool
unfolding is_terminal
is_active s = not (is_terminal s)

-- The four tests of `can_transition`, in order.
unfoldable pub can_transition : CaseStatus → CaseStatus → Bool
unfolding in_pairs in_non_terminal
can_transition frm to =
    if status_eq frm to
    then true
    else if in_pairs frm to transitions
    then true
    else if in_non_terminal frm
        && (status_eq to CaseStatus.expired || status_eq to CaseStatus.cancelled)
    then true
    else if in_non_terminal frm && status_eq to CaseStatus.recovered
    then true
    else false

unfoldable pub assert_transition : CaseStatus → CaseStatus → Result (Unit {0})
unfolding can_transition
assert_transition frm to =
    if not (can_transition frm to) then err (Error.illegal_transition frm to) else ok tt
