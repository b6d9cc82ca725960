-- ===== src/Services/Audit/Chain.antt =====
-- The chain of a case stays valid as events are appended.
use text.Mathlib.TextPositions.{eq_refl}
use ai_revenue_recovery_agen.Prelude.{
  ℕ, ◌≡◌, refl, true, false, Option, none, some, List, [], ◌∷◌, ◌++◌, String, ◌==◌, arith,
  Bool-cases, inl, inr,
}
use ai_revenue_recovery_agen.Db.Enums.{Actor}
use ai_revenue_recovery_agen.Db.Models.{AuditEvent, Detail}
use ai_revenue_recovery_agen.Db.Session.{Session}
use ai_revenue_recovery_agen.Outside.{Env}
use ai_revenue_recovery_agen.Services.Audit.{
  is_of_case, same_hash, latest_hash, new_event, append_event, check_from, rows_of, validate_chain,
}

same_hash_refl : (h : Option String) → same_hash h h ≡ true
same_hash_refl none = refl
same_hash_refl (some a) = eq_refl a

==_refl : (n : ℕ) → (n == n) ≡ true
==_refl n = ground arith

-- The hash that the next event chains onto, after the events of a case in order.
unfoldable pub last_hash : Option String → List AuditEvent → Option String
last_hash prev [] = prev
last_hash prev (e ∷ es) = last_hash (some e.event_hash) es

last_hash-append :
    (prev : Option String) (es : List AuditEvent) (e : AuditEvent)
    → last_hash prev (es ++ e ∷ []) ≡ some e.event_hash
unfolding last_hash
last_hash-append prev [] e = refl
last_hash-append prev (x ∷ es) e = last_hash-append (some x.event_hash) es e

pub last_hash-rows_of :
    (id : ℕ) (es : List AuditEvent) → last_hash none (rows_of id es) ≡ latest_hash id es
unfolding rows_of latest_hash
last_hash-rows_of id [] = unfold last_hash in refl
last_hash-rows_of id (e ∷ es) = elim (Bool-cases (is_of_case id e.case_id)) [
  | inl y ↦ rw y (last_hash-append none (rows_of id es) e)
  | inr n ↦ rw n (last_hash-rows_of id es)
]

module _ (env : Env) (id : ℕ) where
  -- An event that fits onto the hash before it.
  abbrev pub Fits : Option String → AuditEvent → Type 0
  Fits prev e = check_from env id prev (e ∷ []) ≡ true

  check_from-append :
      (prev : Option String) (es : List AuditEvent) (e : AuditEvent)
      → check_from env id prev es ≡ true
      → Fits (last_hash prev es) e
      → check_from env id prev (es ++ e ∷ []) ≡ true
  unfolding check_from last_hash
  check_from-append prev [] e h f = f
  check_from-append prev (x ∷ es) e h f = ground (arith, check_from-append (some x.event_hash) es e)

  -- The event at the end of a chain that validates fits, and the chain before it validates.
  pub check_from-split :
      (prev : Option String) (es : List AuditEvent) (e : AuditEvent)
      → check_from env id prev (es ++ e ∷ []) ≡ true
      → (check_from env id prev es ≡ true) × Fits (last_hash prev es) e
  unfolding check_from last_hash
  check_from-split prev [] e h = (refl, h)
  check_from-split prev (x ∷ es) e h = ground (arith, check_from-split (some x.event_hash) es e)

  module _ (actor : Actor) (event_type : String) (detail : Detail) (s : Session) where
    Fits-new_event :
        Fits (latest_hash id s.audit_events) (new_event env (some id) actor event_type detail s)
    unfolding check_from new_event
    Fits-new_event =
        let h = latest_hash id s.audit_events in
        ground (arith, same_hash_refl h, eq_refl (env.sha256 h (some id) actor event_type detail))

    grown :
        validate_chain env id s ≡ true
        → check_from env id none
            (rows_of id s.audit_events ++ new_event env (some id) actor event_type detail s ∷ [])
          ≡ true
    unfolding validate_chain
    grown valid =
        check_from-append none (rows_of id s.audit_events)
          (new_event env (some id) actor event_type detail s) valid
          (rw (last_hash-rows_of id s.audit_events) Fits-new_event)

    of_own :
        validate_chain env id s ≡ true
        → validate_chain env id (append_event env (some id) actor event_type detail s) ≡ true
    unfolding validate_chain append_event
    of_own valid = rw (==_refl id) (grown valid)

    of_other :
        (c : ℕ)
        → (c == id) ≡ false
        → validate_chain env id s ≡ true
        → validate_chain env id (append_event env (some c) actor event_type detail s) ≡ true
    unfolding validate_chain append_event
    of_other c n valid = rw n valid

    of_none :
        validate_chain env id s ≡ true
        → validate_chain env id (append_event env none actor event_type detail s) ≡ true
    unfolding validate_chain append_event
    of_none valid = valid

  -- If the chain of a case validates, it still does after `append_event` for this case, for another or
  -- for none.
  pub append_event-valid :
      (case_id : Option ℕ) (actor : Actor) (event_type : String) (detail : Detail) (s : Session)
      → validate_chain env id s ≡ true
      → validate_chain env id (append_event env case_id actor event_type detail s) ≡ true
  append_event-valid none actor t d s valid = of_none actor t d s valid
  append_event-valid (some c) actor t d s valid = elim (Bool-cases (c == id)) [
    | inl y ↦ let e : c ≡ id = ground arith in rw e (of_own actor t d s valid)
    | inr n ↦ of_other actor t d s c n valid
  ]
