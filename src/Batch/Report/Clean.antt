-- ===== src/Batch/Report/Clean.antt =====
-- What the report of a run says of its safety invariants.
use ai_revenue_recovery_agen.Prelude.{
  ◌∙◌, ℕ, suc, ◌+◌, ◌≤◌, ◌≡◌, refl, ap, Bool, true, Option, List, [], ◌∷◌, String, length, map,
  count_if, All, arith, Bool-cases, inl, inr,
}
use ai_revenue_recovery_agen.Db.Enums.{CaseStatus}
use ai_revenue_recovery_agen.Db.Models.{RecoveryCase, AgentDecision}
use ai_revenue_recovery_agen.Db.Session.{Session}
use ai_revenue_recovery_agen.Domain.Fsm.{is_terminal}
use ai_revenue_recovery_agen.Outside.{Env}
use ai_revenue_recovery_agen.Services.Audit.{validate_chain}
use ai_revenue_recovery_agen.Services.Ingest.Payload.{Event, Seed}
use ai_revenue_recovery_agen.Services.Ingest.Effects.{Holds, Holds-bind}
use ai_revenue_recovery_agen.Batch.Runs.{run_phases}
use ai_revenue_recovery_agen.Batch.Runs.Ends.{IsSane, Ran, run_phases-Ran}
use ai_revenue_recovery_agen.Batch.Score.{score}
use ai_revenue_recovery_agen.Batch.Report.Groups.{dup_groups_none}
use ai_revenue_recovery_agen.Batch.Report.{
  chain_ok, status_count, is_simulated, Report, report_of, run,
}

chain_ok_all :
    (env : Env) (s : Session) (cs : List RecoveryCase)
    → ((id : ℕ) → validate_chain env id s ≡ true)
    → chain_ok env s cs ≡ true
unfolding chain_ok
chain_ok_all env s [] h = refl
chain_ok_all env s (c ∷ cs) h = let v = h c.id in rw v (chain_ok_all env s cs h)

score_total :
    (decisions : List AgentDecision) (cs : List RecoveryCase)
    → (score decisions cs).cases_total ≡ length cs
unfolding score
score_total decisions [] = refl
score_total decisions (c ∷ cs) = omega (arith, score_total decisions cs)

length-map : {A B : Type 0} (f : A → B) (xs : List A) → length (map f xs) ≡ length xs
length-map f [] = refl
length-map f (x ∷ xs) = ap suc (length-map f xs)

count_if-le-length : {A : Type 0} (p : A → Bool) (xs : List A) → count_if p xs ≤ length xs
unfolding count_if
count_if-le-length p [] = omega arith
count_if-le-length p (x ∷ xs) = elim (Bool-cases (p x)) [
  | inl y ↦ rw y (omega (arith, count_if-le-length p xs))
  | inr n ↦ rw n (omega (arith, count_if-le-length p xs))
]

-- The cases at a terminal status, by the counts of the report.
abbrev pub ended : Report → ℕ
ended r =
    r.status_counts CaseStatus.recovered
    + r.status_counts CaseStatus.closed_unrecovered
    + r.status_counts CaseStatus.blocked
    + r.status_counts CaseStatus.escalated
    + r.status_counts CaseStatus.expired
    + r.status_counts CaseStatus.cancelled
    + r.status_counts CaseStatus.failed

abbrev ended_of : List RecoveryCase → ℕ
ended_of cs =
    status_count cs CaseStatus.recovered
    + status_count cs CaseStatus.closed_unrecovered
    + status_count cs CaseStatus.blocked
    + status_count cs CaseStatus.escalated
    + status_count cs CaseStatus.expired
    + status_count cs CaseStatus.cancelled
    + status_count cs CaseStatus.failed

one_more :
    (c : RecoveryCase) (cs : List RecoveryCase) (s : CaseStatus)
    → c.status ≡ s
    → is_terminal s ≡ true
    → ended_of (c ∷ cs) ≡ suc (ended_of cs)
unfolding status_count count_if is_terminal
one_more c cs CaseStatus.recovered e h = rw e (omega arith)
one_more c cs _ e h = rw e (grind arith)

all_ended :
    (cs : List RecoveryCase)
    → All (λ (c : RecoveryCase). is_terminal c.status ≡ true) cs
    → ended_of cs ≡ length cs
unfolding status_count count_if
all_ended [] h = refl
all_ended (c ∷ cs) (t, h) = one_more c cs c.status refl t ∙ ap suc (all_ended cs h)

pub record IsClean (r : Report) : Type 0 where
  pub chains : r.audit_chain_valid_all_cases ≡ true
  pub keys : r.idempotency_violations ≡ 0
  pub cases : r.score.cases_total ≡ r.cases_created
  pub results : length r.results ≡ r.cases_created
  pub terminal : ended r ≡ r.cases_created
  pub skipped : r.duplicate_deliveries_skipped ≤ r.events_total
  pub simulated : r.actions_simulated ≤ r.actions_total

report_of-IsClean :
    (env : Env) (gt : String → Option Seed) (events : List Event) (r : ℕ × ℕ × Session)
    → Ran env gt events r
    → IsClean (report_of env events r)
unfolding report_of
report_of-IsClean env gt events (skipped, created, s) h = record {
  chains = chain_ok_all env s s.cases h.final.chains;
  keys = dup_groups_none s.actions h.final.actions;
  cases = score_total s.decisions s.cases ∙ h.created;
  results = length-map _ s.cases ∙ h.created;
  terminal = all_ended s.cases h.final.terminal ∙ h.created;
  skipped = h.skipped;
  simulated = count_if-le-length is_simulated s.actions;
}

-- A run that returns, on a database that is reset or in order, reports valid chains for all cases, no
-- idempotency violation, as many cases and results as were created, all of them at a terminal status, no
-- more skipped deliveries than events and no more simulated actions than actions.
pub run-IsClean :
    (env : Env) (gt : String → Option Seed) (keep_db : Bool) (s : Session) (events : List Event)
    → (keep_db ≡ true → IsSane env s)
    → Holds IsClean (run env gt keep_db s events)
unfolding run
run-IsClean env gt keep_db s events h =
    Holds-bind (Ran env gt events) IsClean (run_phases env gt keep_db s events) _
      (run_phases-Ran env gt keep_db s events h) λ r k. report_of-IsClean env gt events r k
