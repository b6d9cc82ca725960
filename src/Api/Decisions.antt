-- ===== src/Api/Decisions.antt =====
-- The human decision of an escalation.
use ai_revenue_recovery_agen.Prelude.{
  ℕ, ◌≡◌, refl, sym, ap, Bool, true, false, not, ◌==◌, Option, some, String, List, [], ◌∷◌,
  find_first, find_first_passes, filter, map, get_or, arith, Bool-cases, ◌⊎◌, inl, inr, ◌∙◌,
  Option-cases,
}
use mathlib.Core.Path.{subst}
use ai_revenue_recovery_agen.Result.{Error, ok, err}
use ai_revenue_recovery_agen.Format.{Ref, plain, Reason}
use ai_revenue_recovery_agen.Db.Enums.{CaseStatus, EscalationStatus, Actor}
use ai_revenue_recovery_agen.Db.Models.{Escalation, RecoveryCase}
use ai_revenue_recovery_agen.Db.Session.{Session}
use ai_revenue_recovery_agen.Domain.Fsm.{can_transition}
use ai_revenue_recovery_agen.Outside.{Env}
use ai_revenue_recovery_agen.Work.{Work, Simulator, on_session}
use ai_revenue_recovery_agen.Services.Audit.{append_event}
use ai_revenue_recovery_agen.Services.CaseService.{set_status, log}
use ai_revenue_recovery_agen.Services.CaseService.Transition.{transition_ok, transition_err}
use ai_revenue_recovery_agen.Services.Loading.{
  load_case_full, case_by_id, payment_by_id, replace_case, flushed,
}
use ai_revenue_recovery_agen.Api.{
  Reply, sent, crashed, Json, Secrets, is_admin, as_bool, is_escalation, decided, put_escalation,
  decision_status, human_transition, decide_escalation,
}

module _ {A : Type 0} where
  -- The first row that passes, after a write of `d` in place of it and of others.
  find_first-put :
      (p : A → Bool) (f : A → A) (d a : A)
      → p d ≡ true
      → f a ≡ d
      → ((x : A) → (f x ≡ d) ⊎ (f x ≡ x))
      → (xs : List A) → find_first p xs ≡ some a
      → find_first p (map f xs) ≡ some d
  unfolding find_first
  find_first-put p f d a y e h [] k = grind arith
  find_first-put p f d a y e h (x ∷ xs) k =
      let rest = find_first-put p f d a y e h xs in
      elim (Bool-cases (p x)) [
        | inl t ↦ (let same = ap (λ o. get_or o a) (rw t at k) in rw (ap f same ∙ e, y) refl)
        | inr n ↦ elim (h x) [ inl g ↦ rw (g, y) refl | inr g ↦ rw (g, n) (rest (rw n at k)) ]
      ]

  -- The rows that a write leaves alone.
  filter-put :
      (q : A → Bool) (f : A → A)
      → ((x : A) → (f x ≡ x) ⊎ ((q x ≡ false) × (q (f x) ≡ false)))
      → (xs : List A) → filter q (map f xs) ≡ filter q xs
  unfolding filter
  filter-put q f h [] = refl
  filter-put q f h (x ∷ xs) =
      let rest = filter-put q f h xs in
      elim (h x) [ inl e ↦ rw (e, rest) refl | inr (n, m) ↦ rw (n, m) rest ]

itself : (n : ℕ) → (n == n) ≡ true
itself n = grind arith

written : (d e : Escalation) → (put_escalation d e ≡ d) ⊎ (put_escalation d e ≡ e)
unfolding put_escalation
written d e = elim (Bool-cases (e.id == d.id)) [ inl y ↦ inl (rw y refl) | inr n ↦ inr (rw n refl) ]

replaced : (c o : RecoveryCase) → (replace_case c o ≡ c) ⊎ (replace_case c o ≡ o)
unfolding replace_case
replaced c o = elim (Bool-cases (o.id == c.id)) [
  | inl y ↦ inl (rw y refl)
  | inr n ↦ inr (rw n refl)
]

-- The work that is loaded for a case: its session is the one it was loaded from, its case the row.
loads :
    (clock : ℕ) (sim : Simulator) (id : ℕ) (s : Session) (w : Work)
    → load_case_full clock sim id s ≡ some w
    → (w.session ≡ s) × (case_by_id id s.cases ≡ some w.case)
unfolding load_case_full
loads clock sim id s w h = elim (Option-cases (case_by_id id s.cases)) [
  | inl n ↦ (let k = rw (load_case_full, n) at h in grind arith)
  | inr (c, y) ↦ elim (Option-cases (payment_by_id c.payment_id s.payments)) [
    | inl n ↦ (let k = rw (load_case_full, y, n) at h in grind arith)
    | inr (p, z) ↦
        (let e = ap (λ o. get_or o w) (rw (load_case_full, y, z) at h) in
          (sym (ap (λ v. v.session) e), y ∙ ap (λ v. some v.case) e))
  ]
]

-- Where a decision takes the case.
abbrev pub target : Bool → CaseStatus
target true = CaseStatus.approved
target false = CaseStatus.escalated

abbrev pub reason_of : Bool → Reason
reason_of true = plain "human approved"
reason_of false = plain "human rejected"

-- The case at work with the decided row in its table.
abbrev pub with_decision : Escalation → Work → Work
with_decision d w =
    on_session (λ s. record s { escalations = map (put_escalation d) s.escalations }) w

-- The escalation with the reference carries the decision, the note and the time, and no row of another
-- id has changed.
abbrev pub Recorded : Ref → Bool → Option String → ℕ → Escalation → Session → Session → Type 0
Recorded r b note now esc s s' =
    ((e : Escalation) × (find_first (is_escalation r) s'.escalations ≡ some e)
      × (e.status ≡ decision_status b)
      × (e.decided_by ≡ some "human")
      × (e.decision_note ≡ some (get_or note ""))
      × (e.decided_at ≡ some now))
    × (filter (λ (e : Escalation). not (e.id == esc.id)) s'.escalations
        ≡ filter (λ (e : Escalation). not (e.id == esc.id)) s.escalations)

-- The case stands at the status.
abbrev pub Moved : ℕ → CaseStatus → Session → Type 0
Moved id status s' = (c : RecoveryCase) × (case_by_id id s'.cases ≡ some c) × (c.status ≡ status)

module _ (env : Env) (secrets : Secrets) (r : Ref) (approve : Json) (note key : Option String)
    (s : Session) where
  -- The request as it stands.
  abbrev pub response : Reply EscalationStatus × Session
  response = decide_escalation env secrets r approve note key s

  moves :
      (b : Bool) (w : Work)
      → can_transition w.case.status (target b) ≡ true
      → human_transition env b w ≡ ok (tt, set_status env (target b) Actor.human (reason_of b) w)
  moves true w h = transition_ok env CaseStatus.approved _ _ w h
  moves false w h = transition_ok env CaseStatus.escalated _ _ w h

  stays :
      (b : Bool) (w : Work)
      → can_transition w.case.status (target b) ≡ false
      → human_transition env b w ≡ err (Error.illegal_transition w.case.status (target b))
  stays true w h = transition_err env CaseStatus.approved _ _ w h
  stays false w h = transition_err env CaseStatus.escalated _ _ w h

  -- A request that an administrator makes, with a Boolean, for an escalation of a case that is there.
  module _ (b : Bool) (esc : Escalation) (w : Work) (admin : is_admin secrets key ≡ true)
      (boolean : as_bool approve ≡ some b)
      (found : find_first (is_escalation r) s.escalations ≡ some esc)
      (loaded : load_case_full 0 (record { rolls = []; drawn = 0 }) esc.case_id s ≡ some w) where
    abbrev pub decided_row : Escalation
    decided_row = decided b note (env.utcnow s.next_id) esc

    decide_escalation_ok :
        can_transition w.case.status (target b) ≡ true
        → response ≡ (
          sent (decision_status b),
          flushed
              (set_status env (target b) Actor.human (reason_of b) (with_decision decided_row w)),
        )
    unfolding decide_escalation decided
    decide_escalation_ok h =
        let e = moves b (with_decision decided_row w) h in
        rw (admin, boolean, found, loaded, e) refl

    decide_escalation_err :
        can_transition w.case.status (target b) ≡ false
        → response ≡ (crashed (Error.illegal_transition w.case.status (target b)), s)
    unfolding decide_escalation decided
    decide_escalation_err h =
        let e = stays b (with_decision decided_row w) h in
        rw (admin, boolean, found, loaded, e) refl

    abbrev moved_session : Session
    moved_session =
        flushed (set_status env (target b) Actor.human (reason_of b) (with_decision decided_row w))

    same_session : w.session ≡ s
    same_session = (loads 0 _ esc.case_id s w loaded).0

    decided_passes : is_escalation r decided_row ≡ true
    unfolding is_escalation decided
    decided_passes = find_first_passes (is_escalation r) s.escalations esc found

    put_itself : put_escalation decided_row esc ≡ decided_row
    unfolding put_escalation decided
    put_itself = rw (itself esc.id) refl

    others :
        (e : Escalation)
        → (put_escalation decided_row e ≡ e)
          ⊎ ((not (e.id == esc.id) ≡ false)
              × (not ((put_escalation decided_row e).id == esc.id) ≡ false))
    unfolding put_escalation decided
    others e = elim (Bool-cases (e.id == esc.id)) [
      | inl y ↦ inr (rw y refl, rw (y, itself esc.id) refl)
      | inr n ↦ inl (rw n refl)
    ]

    recorded : Recorded r b note (env.utcnow s.next_id) esc s moved_session
    unfolding flushed set_status log append_event decided
    recorded = (
      (
        decided_row,
        find_first-put (is_escalation r) (put_escalation decided_row) decided_row esc decided_passes
            put_itself (written decided_row) w.session.escalations
            (subst (λ x. find_first (is_escalation r) x.escalations ≡ some esc) (sym same_session)
              found),
        refl,
        refl,
        refl,
        refl,
      ),
      subst
          (λ x.
            filter (λ (e : Escalation). not (e.id == esc.id))
              (map (put_escalation decided_row) x.escalations)
            ≡ filter (λ (e : Escalation). not (e.id == esc.id)) s.escalations)
          (sym same_session)
          (filter-put (λ (e : Escalation). not (e.id == esc.id)) (put_escalation decided_row) others
            s.escalations),
    )

    moved_case : RecoveryCase
    moved_case = record w.case { status = target b }

    replace_itself : replace_case moved_case w.case ≡ moved_case
    unfolding replace_case moved_case
    replace_itself = rw (itself w.case.id) refl

    moved : Moved esc.case_id (target b) moved_session
    unfolding flushed set_status log append_event moved_case case_by_id
    moved =
        let (e, k) = loads 0 _ esc.case_id s w loaded in
        (
          moved_case,
          find_first-put (λ (c : RecoveryCase). c.id == esc.case_id) (replace_case moved_case)
              moved_case w.case
              (find_first_passes (λ (c : RecoveryCase). c.id == esc.case_id) s.cases w.case k)
              replace_itself (replaced moved_case) w.session.cases
              (subst
                (λ x. find_first (λ (c : RecoveryCase). c.id == esc.case_id) x.cases ≡ some w.case)
                (sym e) k),
          refl,
        )

    -- An administrator decides an escalation of a case that is there, whatever the status of the escalation
    -- is. Where the transition of the case is legal, the reply is the decision, the escalation with this
    -- reference carries the decision, the note and the time, no other row of the escalations changes, and
    -- the case of the escalation stands at APPROVED or ESCALATED. Where it is not, the request crashes and
    -- the database is as it was.
    pub decide_escalation_lem :
        (can_transition w.case.status (target b) ≡ true
          → (response.0 ≡ sent (decision_status b))
            × Recorded r b note (env.utcnow s.next_id) esc s response.1
            × Moved esc.case_id (target b) response.1)
        × (can_transition w.case.status (target b) ≡ false
            → (response.0 ≡ crashed (Error.illegal_transition w.case.status (target b)))
              × (response.1 ≡ s))
    decide_escalation_lem = (
      λ h.
          let e = decide_escalation_ok h in
          (
            ap (λ x. x.0) e,
            subst (Recorded r b note (env.utcnow s.next_id) esc s) (sym (ap (λ x. x.1) e)) recorded,
            subst (Moved esc.case_id (target b)) (sym (ap (λ x. x.1) e)) moved,
          ),
      λ h. let e = decide_escalation_err h in (ap (λ x. x.0) e, ap (λ x. x.1) e),
    )
