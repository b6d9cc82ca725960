-- ===== src/Services/Audit/Tamper.antt =====
-- What the audit chain proves of the log, and what it does not.
use text.Mathlib.TextEquality.{eq_iff}
use ai_revenue_recovery_agen.Prelude.{
  ℕ, ◌≡◌, ◌≢◌, refl, sym, ap, ◌∙◌, true, false, Option, none, some, List, [], ◌∷◌, ◌++◌, String,
  str_eq, arith, Bool-cases, inl, inr, All, All-map, map, filter,
}
use ai_revenue_recovery_agen.Db.Enums.{Actor}
use ai_revenue_recovery_agen.Db.Models.{AuditEvent, Detail}
use ai_revenue_recovery_agen.Db.Session.{Session}
use ai_revenue_recovery_agen.Outside.{Env}
use ai_revenue_recovery_agen.Services.Audit.{
  is_of_case, same_hash, latest_hash, expected_hash, check_from, rows_of, validate_chain,
}
use ai_revenue_recovery_agen.Services.Audit.Chain.{
  last_hash, last_hash-rows_of, Fits, check_from-split,
}

-- The events of the case, the newest first.
abbrev pub events_of : ℕ → List AuditEvent → List AuditEvent
events_of id es = filter (λ e. is_of_case id e.case_id) es

-- What an event says.
abbrev pub content : AuditEvent → Actor × String × Detail
content e = (e.actor, e.event_type, e.detail)

false≢true : false ≢ true
false≢true e = grind arith

top : List AuditEvent → Option String
top [] = none
top (e ∷ es) = some e.event_hash

same_hash→eq : (a b : Option String) → same_hash a b ≡ true → a ≡ b
same_hash→eq none none h = refl
same_hash→eq none (some b) h = cc
same_hash→eq (some a) none h = cc
same_hash→eq (some a) (some b) h = ap some ((eq_iff a b).0 h)

module _ (env : Env) (id : ℕ) where
  -- The digest of a row with the previous hash that it names.
  abbrev pub digest : AuditEvent → String
  digest e = env.sha256 e.prev_event_hash (some id) e.actor e.event_type e.detail

  Linked : List AuditEvent → Type 0
  Linked [] = Unit
  Linked (e ∷ es) = (e.prev_event_hash ≡ top es) × (e.event_hash ≡ digest e) × Linked es

  Fits→linked :
      (prev : Option String) (e : AuditEvent)
      → Fits env id prev e
      → (e.prev_event_hash ≡ prev) × (e.event_hash ≡ digest e)
  unfolding check_from expected_hash
  Fits→linked prev e h =
      elim (Bool-cases
        (str_eq e.event_hash (env.sha256 prev (some id) e.actor e.event_type e.detail))) [
          | inr n ↦ absurd (false≢true (rw n at h))
          | inl y ↦ (elim (Bool-cases (same_hash e.prev_event_hash prev)) [
            | inr n ↦ absurd (false≢true (rw (y, n) at h))
            | inl m ↦
                let p = same_hash→eq e.prev_event_hash prev m in
                (
                  p,
                  (eq_iff _ _).0 y
                      ∙ ap (λ q. env.sha256 q (some id) e.actor e.event_type e.detail) (sym p),
                )
          ])
        ]

  top-events_of : (es : List AuditEvent) → top (events_of id es) ≡ latest_hash id es
  unfolding top filter latest_hash
  top-events_of [] = refl
  top-events_of (e ∷ es) = elim (Bool-cases (is_of_case id e.case_id)) [
    | inl y ↦ rw y refl
    | inr n ↦ rw n (top-events_of es)
  ]

  links :
      (es : List AuditEvent)
      → check_from env id none (rows_of id es) ≡ true
      → Linked (events_of id es)
  unfolding rows_of filter Linked
  links [] h = tt
  links (e ∷ es) h = elim (Bool-cases (is_of_case id e.case_id)) [
    | inl y ↦
        let (v, f) = check_from-split env id none (rows_of id es) e (rw y at h) in
        let (p, d) = Fits→linked (last_hash none (rows_of id es)) e f in
        rw y (p ∙ last_hash-rows_of id es ∙ sym (top-events_of es), d, links es v)
    | inr n ↦ rw n (links es (rw n at h))
  ]

  -- No two events of two lists have one digest and say different things.
  abbrev pub NoCollision : List AuditEvent → List AuditEvent → Type 0
  NoCollision xs ys =
      All
        (λ (e : AuditEvent).
          All
            (λ (f : AuditEvent).
              digest e ≡ digest f
              → (e.prev_event_hash ≡ f.prev_event_hash) × (content e ≡ content f))
            ys)
        xs

  agree :
      (xs ys : List AuditEvent)
      → Linked xs
      → Linked ys
      → NoCollision xs ys
      → top xs ≡ top ys
      → map content xs ≡ map content ys
  unfolding Linked top
  agree [] [] k l n e = refl
  agree [] (y ∷ ys) k l n e = cc
  agree (x ∷ xs) [] k l n e = cc
  agree (x ∷ xs) (y ∷ ys) (p, d, k) (q, c, l) ((m, ms), n) e =
      let h : x.event_hash ≡ y.event_hash = cc in
      let (r, o) = m (sym d ∙ h ∙ c) in
      let rest = agree xs ys k l (All-map _ _ xs (λ z u. u.1) n) (sym p ∙ r ∙ q) in cc

  older :
      (deleted es : List AuditEvent)
      → check_from env id none (rows_of id (deleted ++ es)) ≡ true
      → check_from env id none (rows_of id es) ≡ true
  unfolding rows_of
  older [] es v = v
  older (e ∷ deleted) es v = elim (Bool-cases (is_of_case id e.case_id)) [
    | inl y ↦
        older deleted es (check_from-split env id none (rows_of id (deleted ++ es)) e (rw y at v)).0
    | inr n ↦ older deleted es (rw n at v)
  ]

  -- If the chain of a case validates in two logs, the newest event of the case has one hash in both, and no
  -- two of their events that differ have one digest, then both logs say the same of the case, event by event.
  pub validate_chain_anchored :
      (s t : Session)
      → validate_chain env id s ≡ true
      → validate_chain env id t ≡ true
      → latest_hash id s.audit_events ≡ latest_hash id t.audit_events
      → NoCollision (events_of id s.audit_events) (events_of id t.audit_events)
      → map content (events_of id s.audit_events) ≡ map content (events_of id t.audit_events)
  unfolding validate_chain
  validate_chain_anchored s t v w e n =
      agree (events_of id s.audit_events) (events_of id t.audit_events) (links s.audit_events v)
        (links t.audit_events w) n
        (top-events_of s.audit_events ∙ e ∙ sym (top-events_of t.audit_events))

  -- A log from which the newest events were deleted, however many, validates as before.
  pub validate_chain_truncated :
      (s : Session) (deleted es : List AuditEvent)
      → s.audit_events ≡ deleted ++ es
      → validate_chain env id s ≡ true
      → validate_chain env id (record s { audit_events = es }) ≡ true
  unfolding validate_chain
  validate_chain_truncated s deleted es e v = older deleted es (rw e at v)
