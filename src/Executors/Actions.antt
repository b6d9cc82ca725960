-- ===== src/Executors/Actions.antt =====
-- The rows of app/executors/actions.py: a new action, a finished one, and what is computed for them.
use ai_revenue_recovery_agen.Prelude.{
  ℕ, ◌+◌, Bool, true, false, ◌&&◌, Option, none, some, List, [], ◌∷◌, String, ltb, leb, ◌==◌,
  if◌then◌else◌, count_if, get_or,
}
use ai_revenue_recovery_agen.Format.{Reason}
use ai_revenue_recovery_agen.Db.Enums.{
  DiagnosisClass, ActionType, ExecutionMode, ActionStatus, EscalationReasonCode, Actor,
}
use ai_revenue_recovery_agen.Db.Models.{RecoveryAction, RecoveryCase, ActionResult, Detail}
use ai_revenue_recovery_agen.Db.Session.{Session}
use ai_revenue_recovery_agen.Policy.Config.{PolicyConfig}
use ai_revenue_recovery_agen.Outside.{Env}
use ai_revenue_recovery_agen.Integrations.Simulated.{default_probability}
use ai_revenue_recovery_agen.Work.{Work, on_session}
use ai_revenue_recovery_agen.Services.CaseService.{log, next_ref}

abbrev pub truth_probability : RecoveryCase → Option ℕ
truth_probability c = elim c.ground_truth [
  | none ↦ none
  | some gt ↦ gt.simulated_capture_probability
]

unfoldable pub capture_probability : RecoveryCase → ℕ
capture_probability c = elim (truth_probability c) [
  | some p ↦ p
  | none ↦ default_probability (get_or c.diagnosis_class DiagnosisClass.unknown)
]

abbrev pub action_index : ActionType → ℕ
action_index ActionType.retry_charge = 0
action_index ActionType.send_recovery_link = 1
action_index ActionType.notify_customer = 2
action_index ActionType.create_escalation = 3

abbrev pub action_eq : ActionType → ActionType → Bool
action_eq a b = action_index a == action_index b

-- The rows that `_next_attempt_no` counts.
abbrev pub same_kind : ℕ → ActionType → RecoveryAction → Bool
same_kind case_id action_type a = a.case_id == case_id && action_eq a.action_type action_type

unfoldable pub next_attempt_no : ℕ → ActionType → List RecoveryAction → ℕ
next_attempt_no case_id action_type actions = count_if (same_kind case_id action_type) actions + 1

-- The columns of a row object that was changed, written back to its place.
unfoldable pub set_row : RecoveryAction → List RecoveryAction → List RecoveryAction
set_row a [] = []
set_row a (b ∷ rest) =
    if b.id == a.id
    then record b {
      status = a.status;
      result = a.result;
      gateway_ref = a.gateway_ref;
      error = a.error;
      executed_at = a.executed_at;
    }
      ∷ rest
    else b ∷ set_row a rest

-- The tests of `_escalation_reason` on the diagnosis and the confidence.
abbrev pub is_unknown : Option DiagnosisClass → Bool
is_unknown (some DiagnosisClass.unknown) = true
is_unknown _ = false

abbrev pub is_instrument_invalid : Option DiagnosisClass → Bool
is_instrument_invalid (some DiagnosisClass.instrument_invalid) = true
is_instrument_invalid _ = false

abbrev pub below : Option ℕ → ℕ → Bool
below none floor = false
below (some c) floor = ltb c floor

unfoldable pub escalation_reason :
    Option DiagnosisClass → Option ℕ → ℕ → ℕ → PolicyConfig → EscalationReasonCode
escalation_reason diagnosis confidence amount_minor retry_count cfg =
    if leb cfg.approval_limit_minor amount_minor
    then EscalationReasonCode.amount_ceiling
    else if is_unknown diagnosis
    then EscalationReasonCode.unknown_diagnosis
    else if below confidence cfg.confidence_floor
    then EscalationReasonCode.low_confidence
    else if leb cfg.max_retries retry_count
    then EscalationReasonCode.max_retries_exhausted
    else EscalationReasonCode.low_confidence

module _ (env : Env) where
  unfoldable pub fresh_action : ActionType → ExecutionMode → Work → RecoveryAction × Session
  fresh_action action_type mode w =
      let attempt_no = next_attempt_no w.case.id action_type w.session.actions in
      let (action_ref, s) = next_ref "action_ref" "ACT" w.session in
      let action : RecoveryAction = record {
        id = s.next_id;
        action_ref = action_ref;
        case_id = w.case.id;
        action_type = action_type;
        attempt_no = attempt_no;
        idempotency_key = (w.case.id, action_type, attempt_no);
        execution_mode = mode;
        gateway_ref = none;
        status = ActionStatus.executing;
        result = none;
        error = none;
        executed_at = none;
      } in
      (action, record s { next_id = s.next_id + 1; actions = action ∷ s.actions })

  unfoldable pub new_action : ActionType → ExecutionMode → Work → RecoveryAction × Work
  unfolding fresh_action
  new_action action_type mode w =
      let (action, s) = fresh_action action_type mode w in
      (
        action,
        log env Actor.executor "ACTION_STARTED"
            (Detail.action_started action.action_ref action_type mode) (record w { session = s }),
      )

  unfoldable pub finish_action :
      RecoveryAction
      → Bool
      → ActionResult
      → Option Reason
      → Option String
      → Work
      → RecoveryAction × Work
  finish_action action ok result gateway_ref error w =
      let done = record action {
        status = if ok then ActionStatus.succeeded else ActionStatus.failed;
        result = some result;
        gateway_ref = gateway_ref;
        error = error;
        executed_at = some (env.utcnow w.session.next_id);
      } in
      (
        done,
        log env Actor.executor "ACTION_FINISHED"
            (Detail.action_finished action.action_ref ok result error)
            (on_session (λ s. record s { actions = set_row done s.actions }) w),
      )
