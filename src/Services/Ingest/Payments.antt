-- ===== src/Services/Ingest/Payments.antt =====
-- What a payment event leaves: the unique keys, the deliveries seen and the audit chains.
use ai_revenue_recovery_agen.Prelude.{
  ℕ, ◌+◌, ◌≡◌, ◌≢◌, refl, sym, Bool, true, false, Option, none, some, ◌∷◌, String, ◌==◌, arith, All,
  All-map, find_first-none,
}
use ai_revenue_recovery_agen.Result.{Error, Result, ok, err}
use ai_revenue_recovery_agen.Db.Enums.{DiagnosisClass, ExecutionMode}
use ai_revenue_recovery_agen.Db.Models.{Merchant, Payment, RecoveryCase, GroundTruth}
use ai_revenue_recovery_agen.Db.Session.{Session}
use ai_revenue_recovery_agen.Db.Tables.{
  IsTable-grow, IsTable-insert, IsTable-put, Agrees-new, Agrees-find_first,
}
use ai_revenue_recovery_agen.Domain.Strategies.{StrategyId}
use ai_revenue_recovery_agen.Outside.{Env}
use ai_revenue_recovery_agen.Work.{Work}
use ai_revenue_recovery_agen.Work.Keeps.{Post-both}
use ai_revenue_recovery_agen.Executors.Keys.{Counts, record_capture-Counts}
use ai_revenue_recovery_agen.Verification.{record_capture}
use ai_revenue_recovery_agen.Services.Loading.{replace_case}
use ai_revenue_recovery_agen.Services.Audit.{append_event, validate_chain}
use ai_revenue_recovery_agen.Services.Audit.Chain.{append_event-valid}
use ai_revenue_recovery_agen.Services.CaseService.{create_case, next_ref, get_case_by_payment}
use ai_revenue_recovery_agen.Services.Ingest.{
  at_work, captured_for, failed_for, seed_truth, seed_customer, customer_id_of, self_heal,
  on_captured, open_case, on_failed, on_payment, by_type,
}
use ai_revenue_recovery_agen.Services.Ingest.Payload.{Entity, Event, Seed, IngestResult}
use ai_revenue_recovery_agen.Services.Ingest.Rows.{
  get_or_create_demo_merchant, upsert_customer, upsert_payment, required,
}
use ai_revenue_recovery_agen.Services.Ingest.Effects.{
  Holds, Holds-bind, Holds-post, Safe, Safe-refl, Safe-trans, IsKeyed, same_chain,
}
use ai_revenue_recovery_agen.Services.Ingest.Capture.{Quiet, record_capture-Quiet, flushed-Safe}
use ai_revenue_recovery_agen.Services.Ingest.Parts.{
  PaymentAgrees, merchant-Safe, customer-Safe, payment-Stored, required-Holds,
}

differ : (a b : ℕ) → (a == b) ≡ false → a ≢ b
differ a b n e = ground arith

module _ (env : Env) where
  abbrev pub SafeResult : Session → IngestResult × Session → Type 0
  SafeResult s r = Safe env s r.1

  self_heal-Safe :
      (event_id : String) (ent : Entity) (p : Payment) (c : RecoveryCase) (s : Session)
      → (IsKeyed s → PaymentAgrees s p)
      → get_case_by_payment p.id s.cases ≡ some c
      → Holds (SafeResult s) (self_heal env event_id ent p c s)
  unfolding self_heal get_case_by_payment
  self_heal-Safe event_id ent p c s h e =
      Holds-post (λ v. Quiet env u v × Counts u v) (SafeResult s)
        (record_capture env _ ExecutionMode.simulated "webhook_self_heal" u) _
        (Post-both _ _ _ ((record_capture-Quiet env _ _ _).at u)
          ((record_capture-Counts env _ _ _).at u))
        λ x v (q, n).
          flushed-Safe env u v q n h λ k. Agrees-find_first _ _ _ s.cases c k.cases.ids e
    where
      u : Work
      u =
          at_work s
            (record c {
              diagnosis_class = some DiagnosisClass.duplicate_self_healed;
              strategy_id = some StrategyId.s6_stop_recovery;
            })
            p

  on_captured-Safe :
      (event_id : String) (ent : Entity) (p : Payment) (s : Session)
      → (IsKeyed s → PaymentAgrees s p)
      → Holds (SafeResult s) (on_captured env event_id ent p s)
  unfolding on_captured
  on_captured-Safe event_id ent p s h = go _ refl
    where
      go :
          (o : Option RecoveryCase)
          → get_case_by_payment p.id s.cases ≡ o
          → Holds (SafeResult s) (captured_for env o event_id ent p s)
      go none e = Safe-refl env s
      go (some c) e = self_heal-Safe event_id ent p c s h e

  create_case_chain :
      (merchant_id payment_id : ℕ) (customer_id created_at : Option ℕ) (gt : Option GroundTruth)
      (s : Session) (id : ℕ)
      → validate_chain env id s ≡ true
      → validate_chain env id (create_case env merchant_id payment_id customer_id created_at gt s).1
        ≡ true
  unfolding create_case next_ref
  create_case_chain merchant_id payment_id customer_id created_at gt s id v =
      append_event-valid env id _ _ _ _ _ (same_chain env s _ refl id v)

  open_case-Safe :
      (m : Merchant) (customer_id : Option ℕ) (p : Payment) (created_at : Option ℕ)
      (ground_truth : Option Seed) (s : Session)
      → get_case_by_payment p.id s.cases ≡ none
      → Safe env s (open_case env m customer_id p created_at ground_truth s).1
  unfolding open_case create_case next_ref append_event replace_case get_case_by_payment
  open_case-Safe m customer_id p created_at ground_truth s e = record {
    webhooks = refl;
    keyed = λ k. record {
      payments = IsTable-grow _ _ _ _ _ (omega arith) k.payments;
      cases = IsTable-grow _ _ _ _ _ (omega arith) (
          IsTable-put _ _ (s.next_id + 1) (new ∷ s.cases) new counted
            (Agrees-new _ _ new s.cases k.cases.below) refl refl
            (IsTable-insert _ _ s.next_id new s.cases refl others k.cases));
      webhooks = IsTable-grow _ _ _ _ _ (omega arith) k.webhooks;
    };
    chains = λ id v.
        same_chain env
          (create_case env m.id p.id customer_id created_at (some (seed_truth ground_truth)) s).1 _
          refl id
          (create_case_chain m.id p.id customer_id created_at (some (seed_truth ground_truth)) s id
            v);
    actions = λ n. n;
  }
    where
      new : RecoveryCase
      new = (create_case env m.id p.id customer_id created_at (some (seed_truth ground_truth)) s).0

      counted : RecoveryCase
      counted = (open_case env m customer_id p created_at ground_truth s).0

      others : All (λ (c : RecoveryCase). p.id ≢ c.payment_id) s.cases
      others =
          All-map _ _ s.cases (λ c n same. differ c.payment_id p.id n (sym same))
            (find_first-none _ s.cases e)

  on_failed-Safe :
      (event_id : String) (m : Merchant) (customer_id : Option ℕ) (p : Payment)
      (created_at : Option ℕ) (ground_truth : Option Seed) (s : Session)
      → SafeResult s (on_failed env event_id m customer_id p created_at ground_truth s)
  unfolding on_failed
  on_failed-Safe event_id m customer_id p created_at ground_truth s = go _ refl
    where
      go :
          (o : Option RecoveryCase)
          → get_case_by_payment p.id s.cases ≡ o
          → SafeResult s (
              failed_for env o event_id (open_case env m customer_id p created_at ground_truth s) s)
      go none e = open_case-Safe m customer_id p created_at ground_truth s e
      go (some c) e = Safe-refl env s

  pub on_payment-Safe :
      (captured : Bool) (event_id : String) (event : Event) (ground_truth : Option Seed)
      (is_simulated : Bool) (s : Session)
      → Holds (SafeResult s) (on_payment env captured event_id event ground_truth is_simulated s)
  unfolding on_payment
  on_payment-Safe captured event_id event ground_truth is_simulated s =
      Holds-bind _ (SafeResult s) (get_or_create_demo_merchant s) _ (merchant-Safe env s)
        λ (m, s1) f.
          Holds-bind _ (SafeResult s) (required Error.missing_key event.entity) _
            (required-Holds _ event.entity)
            λ ent e.
              Holds-bind _ (SafeResult s)
                (upsert_customer env m ent (seed_customer ground_truth) s1) _
                (customer-Safe env m ent _ s1)
                λ (c, s2) g.
                  Holds-bind _ (SafeResult s)
                    (upsert_payment env m ent (customer_id_of c) is_simulated s2) _
                    (payment-Stored env m ent _ _ s2)
                    λ (p, s3) h.
                      onward s3 _ (Safe-trans env s s1 s3 f (Safe-trans env s1 s2 s3 g h.safe))
                        (last captured ent m (customer_id_of c) p s3 h.agrees)
    where
      onward :
          (t : Session) (r : Result (IngestResult × Session))
          → Safe env s t
          → Holds (SafeResult t) r
          → Holds (SafeResult s) r
      onward t (ok (a, v)) f g = Safe-trans env s t v f g
      onward t (err e) f g = tt

      last :
          (b : Bool) (ent : Entity) (m : Merchant) (customer_id : Option ℕ) (p : Payment)
          (t : Session)
          → (IsKeyed t → PaymentAgrees t p)
          → Holds (SafeResult t) (by_type env b event_id ent m customer_id p ground_truth t)
      last true ent m customer_id p t h = on_captured-Safe event_id ent p t h
      last false ent m customer_id p t h = on_failed-Safe event_id m customer_id p _ _ t
