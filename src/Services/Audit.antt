-- ===== src/Services/Audit.antt =====
-- app/services/audit.py: the append-only, hash-chained log.
pub mod Chain
pub mod Tamper
use ai_revenue_recovery_agen.Prelude.{
  ℕ, ◌+◌, Bool, true, false, not, ◌&&◌, ◌||◌, Option, none, some, List, [], ◌∷◌, ◌++◌, String,
  str_eq, ◌==◌, if◌then◌else◌,
}
use ai_revenue_recovery_agen.Db.Enums.{Actor}
use ai_revenue_recovery_agen.Db.Models.{AuditEvent, Detail}
use ai_revenue_recovery_agen.Db.Session.{Session}
use ai_revenue_recovery_agen.Outside.{Env}

-- `AuditEvent.case_id == case_id` for a case; NULL equals no id.
abbrev pub is_of_case : ℕ → Option ℕ → Bool
is_of_case id none = false
is_of_case id (some c) = c == id

abbrev pub same_hash : Option String → Option String → Bool
same_hash none none = true
same_hash (some a) (some b) = str_eq a b
same_hash _ _ = false

-- The hash that the newest event of the case has.
pub latest_hash : ℕ → List AuditEvent → Option String
latest_hash id [] = none
latest_hash id (e ∷ es) =
    let rest = latest_hash id es in if is_of_case id e.case_id then some e.event_hash else rest

prev_hash : Option ℕ → List AuditEvent → Option String
unfolding latest_hash
prev_hash none es = none
prev_hash (some id) es = latest_hash id es

-- The events of the case, the oldest first, from the table that has the newest first.
pub rows_of : ℕ → List AuditEvent → List AuditEvent
rows_of id [] = []
rows_of id (e ∷ es) =
    let older = rows_of id es in if is_of_case id e.case_id then older ++ e ∷ [] else older

module _ (env : Env) where
  -- The row that `append_event` inserts.
  new_event : Option ℕ → Actor → String → Detail → Session → AuditEvent
  unfolding prev_hash
  new_event case_id actor event_type detail s =
      let prev = prev_hash case_id s.audit_events in
      record {
        id = s.next_id;
        case_id = case_id;
        actor = actor;
        event_type = event_type;
        detail = detail;
        prev_event_hash = prev;
        event_hash = env.sha256 prev case_id actor event_type detail;
      }

  unfoldable pub append_event : Option ℕ → Actor → String → Detail → Session → Session
  unfolding new_event
  append_event case_id actor event_type detail s = record s {
    next_id = s.next_id + 1;
    audit_events = new_event case_id actor event_type detail s ∷ s.audit_events;
  }

  expected_hash : Option String → AuditEvent → ℕ → String
  expected_hash prev e id = env.sha256 prev (some id) e.actor e.event_type e.detail

  -- The loop of `validate_chain` over the events of the case, the oldest first.
  pub check_from : ℕ → Option String → List AuditEvent → Bool
  unfolding expected_hash
  check_from id prev [] = true
  check_from id prev (e ∷ es) =
      let rest = check_from id (some e.event_hash) es in
      if not (str_eq e.event_hash (expected_hash prev e id))
        || not (same_hash e.prev_event_hash prev)
      then false
      else rest

  unfoldable pub validate_chain : ℕ → Session → Bool
  unfolding check_from rows_of
  validate_chain id s = check_from id none (rows_of id s.audit_events)
