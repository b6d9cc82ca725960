-- ===== src/Domain/Fsm/Graph.antt =====
-- The guard of fsm.py against the transition table of docs/STATE_MACHINES.md (section 2). The guard accepts
-- three kinds of arrows that the table has not.
use mathlib.Core.Path.{subst}
use ai_revenue_recovery_agen.Prelude.{
  List, [], ◌∷◌, Bool-cases, ◌≡◌, ◌≢◌, refl, ◌↔◌, ◌⊎◌, inl, inr, true, false, arith, not,
}
use ai_revenue_recovery_agen.Db.Enums.{
  CaseStatus, in_terminal_case_statuses, in_active_case_statuses,
}
use ai_revenue_recovery_agen.Domain.Fsm.{
  can_transition, assert_transition, in_non_terminal, is_terminal, is_active,
}
use ai_revenue_recovery_agen.Result.{ok}

-- A state in which work on the case goes on.
pub data Active : CaseStatus → Type 0 where
  detected_active : Active CaseStatus.detected
  analyzing_active : Active CaseStatus.analyzing
  diagnosed_active : Active CaseStatus.diagnosed
  planned_active : Active CaseStatus.planned
  policy_check_active : Active CaseStatus.policy_check
  awaiting_approval_active : Active CaseStatus.awaiting_approval
  approved_active : Active CaseStatus.approved
  executing_active : Active CaseStatus.executing
  verifying_active : Active CaseStatus.verifying

ruleset actives = (
  detected_active, analyzing_active, diagnosed_active, planned_active, policy_check_active,
  awaiting_approval_active, approved_active, executing_active, verifying_active,
)

-- One row of the transition table of the document. The drawing above that table has two arrows more, and
-- the guard refuses both (`Drawn` below).
pub data Documented : CaseStatus → CaseStatus → Type 0 where
  claim : Documented CaseStatus.detected CaseStatus.analyzing
  decide : Documented CaseStatus.analyzing CaseStatus.diagnosed
  give_up : Documented CaseStatus.analyzing CaseStatus.failed
  plan : Documented CaseStatus.diagnosed CaseStatus.planned
  gate : Documented CaseStatus.planned CaseStatus.policy_check
  allow : Documented CaseStatus.policy_check CaseStatus.approved
  park : Documented CaseStatus.policy_check CaseStatus.awaiting_approval
  replan : Documented CaseStatus.policy_check CaseStatus.planned
  refuse : Documented CaseStatus.policy_check CaseStatus.blocked
  approve : Documented CaseStatus.awaiting_approval CaseStatus.approved
  reject : Documented CaseStatus.awaiting_approval CaseStatus.escalated
  execute : Documented CaseStatus.approved CaseStatus.executing
  verify : Documented CaseStatus.executing CaseStatus.verifying
  break_down : Documented CaseStatus.executing CaseStatus.failed
  observe : Documented CaseStatus.verifying CaseStatus.recovered
  close : Documented CaseStatus.verifying CaseStatus.closed_unrecovered
  expire : {s : CaseStatus} → Active s → Documented s CaseStatus.expired
  cancel : {s : CaseStatus} → Active s → Documented s CaseStatus.cancelled

-- One arrow that fsm.py adds: an escalation by the executor, the ladder, and a capture before VERIFYING.
pub data Undocumented : CaseStatus → CaseStatus → Type 0 where
  hand_over : Undocumented CaseStatus.executing CaseStatus.awaiting_approval
  retry : Undocumented CaseStatus.verifying CaseStatus.diagnosed
  capture :
      {s : CaseStatus} → Active s → s ≢ CaseStatus.verifying → Undocumented s CaseStatus.recovered

-- The arrows of the drawing that the table of the document has not.
pub data Drawn : CaseStatus → CaseStatus → Type 0 where
  agent_error : Drawn CaseStatus.diagnosed CaseStatus.failed
  recheck : Drawn CaseStatus.awaiting_approval CaseStatus.policy_check

-- One arrow of the code.
abbrev pub Edge : CaseStatus → CaseStatus → Type 0
Edge s t = Documented s t ⊎ Undocumented s t

ruleset edges = (
  claim, decide, give_up, plan, gate, allow, park, replan, refuse, approve, reject, execute, verify,
  break_down, observe, close, expire, cancel, hand_over, retry, capture,
)

sound : (frm to : CaseStatus) → can_transition frm to ≡ true → (frm ≡ to) ⊎ Edge frm to
unfolding can_transition
sound CaseStatus.detected to h = grind (arith, edges, actives)
sound _ to h = grind (arith, edges, actives)

documented : {frm to : CaseStatus} → Documented frm to → can_transition frm to ≡ true
unfolding can_transition
documented (expire detected_active) = refl
documented (expire _) = refl
documented (cancel detected_active) = refl
documented (cancel _) = refl
documented _ = refl

undocumented : {frm to : CaseStatus} → Undocumented frm to → can_transition frm to ≡ true
unfolding can_transition
undocumented (capture detected_active n) = refl
undocumented (capture _ n) = refl
undocumented _ = refl

apart : {frm to : CaseStatus} → Undocumented frm to → ¬ Documented frm to
apart hand_over d = elim d [ ]
apart retry d = elim d [ ]
apart (capture a n) observe = n refl

refused : {frm to : CaseStatus} → Drawn frm to → can_transition frm to ≡ false
unfolding can_transition
refused agent_error = refl
refused recheck = refl

stay : (s : CaseStatus) → can_transition s s ≡ true
unfolding can_transition
stay CaseStatus.detected = refl
stay _ = refl

stuck : (frm to : CaseStatus) → is_terminal frm ≡ true → assert_transition frm to ≡ ok tt → to ≡ frm
unfolding assert_transition is_terminal
stuck CaseStatus.detected to t h = cc
stuck _ to t h = grind arith

agree :
    (s : CaseStatus)
    → (in_non_terminal s ≡ not (is_terminal s))
      × (in_active_case_statuses s ≡ not (is_terminal s))
      × (in_terminal_case_statuses s ≡ is_terminal s)
unfolding in_non_terminal is_terminal
agree CaseStatus.detected = (refl, refl, refl)
agree _ = (refl, refl, refl)

pub can_transition_iff :
    (frm to : CaseStatus)
    → ((can_transition frm to ≡ true) ↔ ((frm ≡ to) ⊎ Edge frm to))
      × (Undocumented frm to → ¬ Documented frm to)
      × (Drawn frm to → can_transition frm to ≡ false)
can_transition_iff frm to = ((sound frm to, λ h. from h), apart, refused)
  where
    from : (frm ≡ to) ⊎ Edge frm to → can_transition frm to ≡ true
    from (inl e) = rw (← e) (stay frm)
    from (inr (inl d)) = documented d
    from (inr (inr u)) = undocumented u

-- A status that `is_terminal` accepts admits no transition to another status, `is_active` and
-- `in_active_case_statuses` reject it, and on every status these tests of fsm.py and enums.py agree.
pub terminal_immutable :
    (frm to : CaseStatus)
    → (is_terminal frm ≡ true → assert_transition frm to ≡ ok tt → to ≡ frm)
      × (is_active frm ≡ not (is_terminal frm))
      × (in_non_terminal frm ≡ is_active frm)
      × (in_active_case_statuses frm ≡ is_active frm)
      × (in_terminal_case_statuses frm ≡ is_terminal frm)
unfolding is_active in_non_terminal
terminal_immutable frm to = let (n, a, t) = agree frm in (stuck frm to, refl, n, a, t)

-- A walk along the arrows of the code.
pub data Walk : CaseStatus → CaseStatus → Type 0 where
  here : {s : CaseStatus} → Walk s s
  next : {s t u : CaseStatus} → Edge s t → Walk t u → Walk s u

-- Statuses taken one after the other, each by a transition that `assert_transition` accepts.
abbrev pub Trail : CaseStatus → List CaseStatus → Type 0
Trail s [] = Unit
Trail s (t ∷ ts) = (assert_transition s t ≡ ok tt) × Trail t ts

abbrev pub last_status : CaseStatus → List CaseStatus → CaseStatus
last_status s [] = s
last_status s (t ∷ ts) = last_status t ts

-- The status is one of the list.
abbrev pub Meets : CaseStatus → List CaseStatus → Type 0
Meets c [] = ⊥
Meets c (t ∷ ts) = (t ≡ c) ⊎ Meets c ts

-- The states before the first policy check, and those that no arrow leaves.
abbrev Ungated : CaseStatus → Type 0
Ungated CaseStatus.policy_check = ⊥
Ungated CaseStatus.awaiting_approval = ⊥
Ungated CaseStatus.approved = ⊥
Ungated CaseStatus.executing = ⊥
Ungated CaseStatus.verifying = ⊥
Ungated _ = Unit

Ungated-Edge : {s t : CaseStatus} → Edge s t → Ungated s → (t ≡ CaseStatus.policy_check) ⊎ Ungated t
Ungated-Edge (inl gate) h = inl refl
Ungated-Edge (inl allow) h = absurd h
Ungated-Edge (inl park) h = absurd h
Ungated-Edge (inl replan) h = absurd h
Ungated-Edge (inl refuse) h = absurd h
Ungated-Edge (inl approve) h = absurd h
Ungated-Edge (inl reject) h = absurd h
Ungated-Edge (inl execute) h = absurd h
Ungated-Edge (inl verify) h = absurd h
Ungated-Edge (inl break_down) h = absurd h
Ungated-Edge (inl observe) h = absurd h
Ungated-Edge (inl close) h = absurd h
Ungated-Edge (inl _) h = inr tt
Ungated-Edge (inr hand_over) h = absurd h
Ungated-Edge (inr retry) h = absurd h
Ungated-Edge (inr (capture a n)) h = inr tt

accepted : (s t : CaseStatus) → assert_transition s t ≡ ok tt → (s ≡ t) ⊎ Edge s t
unfolding assert_transition
accepted s t h = sound s t (elim (Bool-cases (can_transition s t)) [
  | inl y ↦ y
  | inr n ↦ (let k = rw (assert_transition, n) at h in grind arith)
])

gated :
    (s : CaseStatus) (ts : List CaseStatus)
    → Ungated s
    → Trail s ts
    → last_status s ts ≡ CaseStatus.executing
    → Meets CaseStatus.policy_check ts
gated s [] u h e = subst Ungated e u
gated s (t ∷ ts) u (h, hs) e = elim (accepted s t h) [
  | inl same ↦ inr (gated t ts (subst Ungated same u) hs e)
  | inr arrow ↦ (elim (Ungated-Edge arrow u) [ inl p ↦ inl p | inr v ↦ inr (gated t ts v hs e) ])
]

-- Every sequence of accepted transitions from DETECTED to EXECUTING takes the case through POLICY_CHECK.
pub executing_needs_policy_check :
    (ts : List CaseStatus)
    → Trail CaseStatus.detected ts
    → last_status CaseStatus.detected ts ≡ CaseStatus.executing
    → Meets CaseStatus.policy_check ts
executing_needs_policy_check ts h e = gated CaseStatus.detected ts tt h e
