-- ===== src/Api/Views.antt =====
-- The routes of app/main.py that read: the list of cases and the detail of one. Amounts are paise, times seconds;
-- printing them is left out, and so are the name of the model and the constant `amount_inr`.
pub mod Lists
use ai_revenue_recovery_agen.Prelude.{
  ℕ, Bool, true, false, Option, none, some, List, [], ◌∷◌, ◌++◌, String, str_eq, ◌&&◌, ◌==◌,
  if◌then◌else◌, map, filter, find_first, min, take,
}
use ai_revenue_recovery_agen.Format.{Ref, Reason}
use ai_revenue_recovery_agen.Db.Enums.{
  CaseStatus, CaseOutcome, RiskBand, DiagnosisClass, PaymentStatus, DecisionOrigin, PolicyVerdict,
  ActionType, ExecutionMode, ActionStatus, NotificationChannel, NotificationStatus,
  EscalationReasonCode, EscalationStatus, Actor, status_eq,
}
use ai_revenue_recovery_agen.Db.Models.{
  Payment, RecoveryCase, AgentDecision, PolicyDecision, RecoveryAction, Notification, Escalation,
  AuditEvent, ActionResult, Detail,
}
use ai_revenue_recovery_agen.Db.Session.{Session}
use ai_revenue_recovery_agen.Domain.Strategies.{StrategyId}
use ai_revenue_recovery_agen.Policy.Rules.{RuleHit}
use ai_revenue_recovery_agen.Services.Audit.{is_of_case}
use ai_revenue_recovery_agen.Services.Loading.{payment_by_id}
use ai_revenue_recovery_agen.Result.{Error}
use ai_revenue_recovery_agen.Api.{Reply, sent, refused, crashed}

pub record CaseView : Type 0 where
  pub case_ref : Ref
  pub status : CaseStatus
  pub risk_band : Option RiskBand
  pub risk_score : Option ℕ
  pub diagnosis : Option DiagnosisClass
  pub strategy : Option StrategyId
  pub agent_confidence : Option ℕ
  pub retry_count : ℕ
  pub outcome : Option CaseOutcome
  pub recovered_amount_minor : ℕ
  pub sla_deadline_at : Option ℕ
  pub created_at : ℕ

unfoldable pub case_view : RecoveryCase → CaseView
case_view c = record {
  case_ref = c.case_ref;
  status = c.status;
  risk_band = c.risk_band;
  risk_score = c.risk_score;
  diagnosis = c.diagnosis_class;
  strategy = c.strategy_id;
  agent_confidence = c.agent_confidence;
  retry_count = c.retry_count;
  outcome = c.outcome;
  recovered_amount_minor = c.recovered_amount_minor;
  sla_deadline_at = c.sla_deadline_at;
  created_at = c.created_at;
}

-- A row of the list: the detail's without the confidence, the amount and the deadline.
pub record CaseRow : Type 0 where
  pub case_ref : Ref
  pub status : CaseStatus
  pub risk_band : Option RiskBand
  pub risk_score : Option ℕ
  pub diagnosis : Option DiagnosisClass
  pub strategy : Option StrategyId
  pub retry_count : ℕ
  pub outcome : Option CaseOutcome
  pub created_at : ℕ

unfoldable pub case_row : RecoveryCase → CaseRow
case_row c = record {
  case_ref = c.case_ref;
  status = c.status;
  risk_band = c.risk_band;
  risk_score = c.risk_score;
  diagnosis = c.diagnosis_class;
  strategy = c.strategy_id;
  retry_count = c.retry_count;
  outcome = c.outcome;
  created_at = c.created_at;
}

-- `if status: q = q.where(…)`; a text that is no status is refused by the database.
abbrev pub of_status : Option CaseStatus → List RecoveryCase → List RecoveryCase
of_status none cases = cases
of_status (some s) cases = filter (λ (c : RecoveryCase). status_eq c.status s) cases

-- The newest cases first; the limit is not negative.
unfoldable pub list_cases : Option CaseStatus → ℕ → Session → List CaseRow
unfolding case_row
list_cases status limit s = map case_row (take (min limit 200) (of_status status s.cases))

pub record PaymentView : Type 0 where
  pub rzp_payment_id : String
  pub status : PaymentStatus
  pub amount_minor : ℕ
  pub method : Option String
  pub error_code : Option String
  pub error_reason : Option String
  pub is_simulated : Bool

unfoldable pub payment_view : Payment → PaymentView
payment_view p = record {
  rzp_payment_id = p.rzp_payment_id;
  status = p.status;
  amount_minor = p.amount_minor;
  method = p.method;
  error_code = p.error_code;
  error_reason = p.error_reason;
  is_simulated = p.is_simulated;
}

pub record DecisionView : Type 0 where
  pub decision_ref : Ref
  pub origin : DecisionOrigin
  pub diagnosis : DiagnosisClass
  pub strategy : StrategyId
  pub confidence : ℕ
  pub rationale : Reason

unfoldable pub decision_view : AgentDecision → DecisionView
decision_view d = record {
  decision_ref = d.decision_ref;
  origin = d.origin;
  diagnosis = d.diagnosis_class;
  strategy = d.strategy_id;
  confidence = d.diagnosis_confidence;
  rationale = d.rationale;
}

pub record PolicyView : Type 0 where
  pub verdict : PolicyVerdict
  pub proposed : Option ActionType
  pub rules : List RuleHit

pub record ActionView : Type 0 where
  pub action_ref : Ref
  pub action_type : ActionType
  pub attempt : ℕ
  pub execution_mode : ExecutionMode
  pub status : ActionStatus
  pub gateway_ref : Option Reason
  pub result : Option ActionResult
  pub executed_at : Option ℕ

unfoldable pub action_view : RecoveryAction → ActionView
action_view a = record {
  action_ref = a.action_ref;
  action_type = a.action_type;
  attempt = a.attempt_no;
  execution_mode = a.execution_mode;
  status = a.status;
  gateway_ref = a.gateway_ref;
  result = a.result;
  executed_at = a.executed_at;
}

pub record NotificationView : Type 0 where
  pub channel : NotificationChannel
  pub status : NotificationStatus
  pub body : Reason

pub record EscalationView : Type 0 where
  pub escalation_ref : Ref
  pub reason : EscalationReasonCode
  pub status : EscalationStatus
  pub note : Reason

pub record AuditView : Type 0 where
  pub actor : Actor
  pub event_type : String
  pub detail : Detail
  pub event_hash : String
  pub prev_event_hash : Option String

unfoldable pub audit_view : AuditEvent → AuditView
audit_view e = record {
  actor = e.actor;
  event_type = e.event_type;
  detail = e.detail;
  event_hash = e.event_hash;
  prev_event_hash = e.prev_event_hash;
}

-- The rows that pass, the oldest first, as they are shown.
unfoldable pub oldest_first : {A B : Type 0} → (A → Bool) → (A → B) → List A → List B
oldest_first p view [] = []
oldest_first p view (x ∷ xs) =
    let older = oldest_first p view xs in if p x then older ++ view x ∷ [] else older

pub record CaseDetail : Type 0 where
  pub case : CaseView
  pub payment : PaymentView
  pub decisions : List DecisionView
  pub policy : List PolicyView
  pub actions : List ActionView
  pub notifications : List NotificationView
  pub escalations : List EscalationView
  pub audit : List AuditView

unfoldable pub detail_of : Session → RecoveryCase → Payment → CaseDetail
unfolding case_view payment_view decision_view action_view audit_view oldest_first
detail_of s c p = record {
  case = case_view c;
  payment = payment_view p;
  decisions = oldest_first (λ (d : AgentDecision). d.case_id == c.id) decision_view s.decisions;
  policy =
      oldest_first (λ (d : PolicyDecision). d.case_id == c.id)
        (λ (d : PolicyDecision). record {
          verdict = d.verdict;
          proposed = d.proposed_action;
          rules = d.rule_results;
        })
        s.policy_decisions;
  actions = oldest_first (λ (a : RecoveryAction). a.case_id == c.id) action_view s.actions;
  notifications =
      oldest_first (λ (n : Notification). n.case_id == c.id)
        (λ (n : Notification). record {
          channel = n.channel;
          status = n.status;
          body = n.rendered_body;
        })
        s.notifications;
  escalations =
      oldest_first (λ (e : Escalation). e.case_id == c.id)
        (λ (e : Escalation). record {
          escalation_ref = e.escalation_ref;
          reason = e.reason_code;
          status = e.status;
          note = e.note;
        })
        s.escalations;
  audit = oldest_first (λ (e : AuditEvent). is_of_case c.id e.case_id) audit_view s.audit_events;
}

abbrev pub with_ref : Ref → RecoveryCase → Bool
with_ref r c = str_eq c.case_ref.prefix r.prefix && c.case_ref.value == r.value

abbrev pub shown : Session → RecoveryCase → Option Payment → Reply CaseDetail
shown s c none = crashed Error.missing_key
shown s c (some p) = sent (detail_of s c p)

abbrev pub found_detail : Session → Option RecoveryCase → Reply CaseDetail
found_detail s none = refused 404
found_detail s (some c) = shown s c (payment_by_id c.payment_id s.payments)

unfoldable pub case_detail : Ref → Session → Reply CaseDetail
unfolding detail_of
case_detail case_ref s = found_detail s (find_first (with_ref case_ref) s.cases)
