-- ===== src/Api.antt =====
-- app/main.py: the routes that write, and the dashboard. The key, the HMAC under the webhook's secret
-- and the JSON parser are parameters.
pub mod Decisions
pub mod Webhooks
pub mod Views
use ai_revenue_recovery_agen.Prelude.{
  ℕ, ◌+◌, Bool, true, false, not, ◌&&◌, Option, none, some, List, [], ◌∷◌, String, str_eq, ◌==◌,
  if◌then◌else◌, find_first, count_if, get_or, map, length, min,
}
use ai_revenue_recovery_agen.Result
use ai_revenue_recovery_agen.Result.{Error, Result, ok, err}
use ai_revenue_recovery_agen.Format.{Ref, plain}
use ai_revenue_recovery_agen.Db.Enums.{
  CaseStatus, EscalationStatus, Actor, status_eq, in_active_case_statuses,
}
use ai_revenue_recovery_agen.Db.Models.{RecoveryCase, Escalation}
use ai_revenue_recovery_agen.Db.Session.{Session}
use ai_revenue_recovery_agen.Outside.{Env}
use ai_revenue_recovery_agen.Work.{Work, on_session}
use ai_revenue_recovery_agen.Services.CaseService.{transition}
use ai_revenue_recovery_agen.Services.Loading.{load_case_full, flushed}
use ai_revenue_recovery_agen.Services.Ingest.{ingest_event}
use ai_revenue_recovery_agen.Services.Ingest.Payload.{Event, IngestResult}

-- What a request comes to: a body, an `HTTPException` of a status code, or another exception.
pub data Reply (A : Type 0) : Type 0 where
  sent : A → Reply A
  refused : ℕ → Reply A
  crashed : Error → Reply A

-- A value of a JSON body.
pub data Json : Type 0 where
  null : Json
  boolean : Bool → Json
  number : ℕ → Json
  text : String → Json

-- What the routes take from the settings and the libraries.
pub record Secrets : Type 0 where
  pub admin_api_key : String
  -- `hmac.new(secret, raw, sha256).hexdigest()`
  pub digest : String → String
  -- `json.loads`
  pub loads : String → Option Event

-- `_admin`: whether the key is the one of the settings.
unfoldable pub is_admin : Secrets → Option String → Bool
is_admin secrets none = false
is_admin secrets (some x_admin_key) = str_eq x_admin_key secrets.admin_api_key

-- `_verify_signature`
unfoldable pub verify_signature : Secrets → String → Option String → Bool
verify_signature secrets raw none = false
verify_signature secrets raw (some signature) =
    if str_eq signature "demo"
    then true
    else if str_eq signature ""
    then false
    else str_eq (secrets.digest raw) signature

-- A Boolean of the body: `approve not in (True, False)` accepts the numbers 1 and 0 too.
unfoldable pub as_bool : Json → Option Bool
as_bool (boolean b) = some b
as_bool (number n) = if n == 1 then some true else if n == 0 then some false else none
as_bool _ = none

-- A transaction: what raises is rolled back.
abbrev pub scoped : {A : Type 0} → Session → Result (A × Session) → Reply A × Session
scoped s (ok (a, t)) = (sent a, t)
scoped s (err e) = (crashed e, s)

unfoldable pub is_escalation : Ref → Escalation → Bool
is_escalation r e = str_eq e.escalation_ref.prefix r.prefix && e.escalation_ref.value == r.value

abbrev pub decision_status : Bool → EscalationStatus
decision_status true = EscalationStatus.approved
decision_status false = EscalationStatus.rejected

-- The escalation after the decision.
unfoldable pub decided : Bool → Option String → ℕ → Escalation → Escalation
decided approve note now e = record e {
  status = decision_status approve;
  decided_by = some "human";
  decision_note = some (get_or note "");
  decided_at = some now;
}

unfoldable pub put_escalation : Escalation → Escalation → Escalation
put_escalation d e = if e.id == d.id then d else e

module _ (env : Env) where
  abbrev pub ingest_body : Bool → Option Event → Session → Reply IngestResult × Session
  ingest_body valid none s = (refused 400, s)
  ingest_body valid (some event) s = scoped s (ingest_event env event valid none false s)

  abbrev pub human_transition : Bool → Work → Result (Unit {0} × Work)
  human_transition true = transition env CaseStatus.approved Actor.human (plain "human approved")
  human_transition false = transition env CaseStatus.escalated Actor.human (plain "human rejected")

  -- The savepoint: the row of the escalation and the transition of its case. The session has the
  -- case, by the foreign key.
  abbrev pub apply_decision : Bool → Escalation → Option Work → Result (EscalationStatus × Session)
  apply_decision approve d none = err Error.missing_key
  apply_decision approve d (some w) =
      Result.◌>>=◌
        (human_transition approve
          (on_session (λ s. record s { escalations = map (put_escalation d) s.escalations }) w))
        (λ (u, v). ok (d.status, flushed v))

  abbrev pub decide_found :
      Bool → Option String → Option Escalation → Session → Reply EscalationStatus × Session
  decide_found approve remark none s = (refused 404, s)
  decide_found approve remark (some esc) s = scoped s (
      apply_decision approve (decided approve remark (env.utcnow s.next_id) esc)
        (load_case_full 0 (record { rolls = []; drawn = 0 }) esc.case_id s))

  abbrev pub decide_body :
      Ref → Option Bool → Option String → Session → Reply EscalationStatus × Session
  decide_body escalation_ref none remark s = (refused 422, s)
  decide_body escalation_ref (some approve) remark s =
      decide_found approve remark (find_first (is_escalation escalation_ref) s.escalations) s

module _ (env : Env) (secrets : Secrets) where
  unfoldable pub razorpay_webhook : String → Option String → Session → Reply IngestResult × Session
  razorpay_webhook raw x_razorpay_signature s =
      ingest_body env (verify_signature secrets raw x_razorpay_signature) (secrets.loads raw) s

  unfoldable pub decide_escalation :
      Ref → Json → Option String → Option String → Session → Reply EscalationStatus × Session
  decide_escalation escalation_ref approve remark x_admin_key s =
      if is_admin secrets x_admin_key
      then decide_body env escalation_ref (as_bool approve) remark s
      else (refused 401, s)

-- The numbers of `dashboard`; the amount is in paise.
pub record Dashboard : Type 0 where
  pub cases_by_status : CaseStatus → ℕ
  pub active_cases : ℕ
  pub recovered_amount_minor : ℕ
  pub recovered_cases : ℕ
  pub escalated_cases : ℕ
  pub awaiting_approval : ℕ

unfoldable pub recovered_sum : List RecoveryCase → ℕ
recovered_sum [] = 0
recovered_sum (c ∷ cs) = c.recovered_amount_minor + recovered_sum cs

unfoldable pub with_status : CaseStatus → List RecoveryCase → ℕ
with_status status = count_if (λ c. status_eq c.status status)

unfoldable pub dashboard : Session → Dashboard
unfolding recovered_sum with_status
dashboard s =
    let by_status = λ (status : CaseStatus). with_status status s.cases in
    record {
      cases_by_status = by_status;
      active_cases = count_if (λ (c : RecoveryCase). in_active_case_statuses c.status) s.cases;
      recovered_amount_minor = recovered_sum s.cases;
      recovered_cases = by_status CaseStatus.recovered;
      escalated_cases = by_status CaseStatus.escalated;
      awaiting_approval = by_status CaseStatus.awaiting_approval;
    }
