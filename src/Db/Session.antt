-- ===== src/Db/Session.antt =====
-- The rows that a session sees, the newest first in each table, and the number of ids handed out.
-- Ids are time-ordered and never repeat (`uuid7`), so the order of insertion is the order of
-- `created_at, id` that the queries sort by.
use ai_revenue_recovery_agen.Prelude.{ℕ, List, []}
use ai_revenue_recovery_agen.Db.Models.{
  Merchant, Customer, Payment, RecoveryCase, AgentDecision, PolicyDecision, RecoveryAction,
  Notification, Escalation, WebhookEvent, AuditEvent, Counter,
}

pub record Session : Type 0 where
  pub next_id : ℕ
  pub counters : List Counter
  pub merchants : List Merchant
  pub customers : List Customer
  pub payments : List Payment
  pub cases : List RecoveryCase
  pub decisions : List AgentDecision
  pub policy_decisions : List PolicyDecision
  pub actions : List RecoveryAction
  pub notifications : List Notification
  pub escalations : List Escalation
  pub webhook_events : List WebhookEvent
  pub audit_events : List AuditEvent

abbrev pub empty_session : Session
empty_session = record {
  next_id = 0;
  counters = [];
  merchants = [];
  customers = [];
  payments = [];
  cases = [];
  decisions = [];
  policy_decisions = [];
  actions = [];
  notifications = [];
  escalations = [];
  webhook_events = [];
  audit_events = [];
}
