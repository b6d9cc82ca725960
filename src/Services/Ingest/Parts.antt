-- ===== src/Services/Ingest/Parts.antt =====
-- The parts of `ingest_event` keep the unique keys, the deliveries and the audit chains.
use text.Mathlib.TextEquality.{eq_iff}
use ai_revenue_recovery_agen.Prelude.{
  ℕ, ◌+◌, ◌≤◌, ◌≡◌, ◌≢◌, refl, sym, ◌∙◌, Bool, false, Option, none, some, List, [], ◌∷◌, String,
  str_eq, arith, Bool-cases, inl, inr, All, All-map, filter, find_first, find_first_passes,
  find_first-none, any,
}
use ai_revenue_recovery_agen.Prelude.Texts.{is_text}
use ai_revenue_recovery_agen.Result.{Error}
use ai_revenue_recovery_agen.Db.Models.{Merchant, Customer, Payment, TruthCustomer}
use ai_revenue_recovery_agen.Db.Session.{Session}
use ai_revenue_recovery_agen.Db.Tables.{
  IsTable-grow, IsTable-insert, IsTable-put, Agrees, Agrees-put, Agrees-head, Agrees-find_first,
}
use ai_revenue_recovery_agen.Outside.{Env}
use ai_revenue_recovery_agen.Services.Loading.{replace_payment}
use ai_revenue_recovery_agen.Services.Ingest.Payload.{Entity, payment_status}
use ai_revenue_recovery_agen.Services.Ingest.Rows.{
  get_or_create_demo_merchant, one_merchant, insert_merchant, found_or, no_contact, clashes,
  new_customer, demo_account_id, upsert_customer, insert_customer, upsert_payment, store_payment,
  required, payment_row, is_payment,
}
use ai_revenue_recovery_agen.Services.Ingest.Effects.{
  Holds, Holds-bind, Safe, Safe-refl, IsKeyed, same_chain,
}

abbrev pub PaymentAgrees : Session → Payment → Type 0
PaymentAgrees s p = All (Agrees (λ (q : Payment). q.id) (λ q. q.rzp_payment_id) p) s.payments

-- Three tables that only see the counter of ids move.
grown :
    (s t : Session)
    → s.next_id ≤ t.next_id
    → t.payments ≡ s.payments
    → t.cases ≡ s.cases
    → t.webhook_events ≡ s.webhook_events
    → IsKeyed s
    → IsKeyed t
grown s t l p c w k = record {
  payments = rw p (IsTable-grow _ _ _ _ _ l k.payments);
  cases = rw c (IsTable-grow _ _ _ _ _ l k.cases);
  webhooks = rw w (IsTable-grow _ _ _ _ _ l k.webhooks);
}

pub required-Holds :
    {A : Type 0} (e : Error) (o : Option A) → Holds (λ a. o ≡ some a) (required e o)
unfolding required
required-Holds e none = tt
required-Holds e (some a) = refl

next_le : (s : Session) → s.next_id ≤ s.next_id + 1
next_le s = omega arith

differ_texts : (a b : String) → str_eq a b ≡ false → a ≢ b
differ_texts a b n e = let t = (eq_iff a b).1 e in grind arith

module _ (env : Env) where
  -- A session whose other tables are those of `s`.
  beside :
      (s t : Session)
      → s.next_id ≤ t.next_id
      → t.payments ≡ s.payments
      → t.cases ≡ s.cases
      → t.webhook_events ≡ s.webhook_events
      → t.audit_events ≡ s.audit_events
      → t.actions ≡ s.actions
      → Safe env s t
  beside s t l p c w a n = record {
    webhooks = w;
    keyed = grown s t l p c w;
    chains = same_chain env s t a;
    actions = λ h. rw n h;
  }

  pub merchant-Safe :
      (s : Session)
      → Holds (λ (r : Merchant × Session). Safe env s r.1) (get_or_create_demo_merchant s)
  unfolding get_or_create_demo_merchant
  merchant-Safe s = one (filter _ s.merchants)
    where
      new : Holds (λ (r : Merchant × Session). Safe env s r.1) (insert_merchant s)
      new =
          unfold insert_merchant in
          elim (Bool-cases
            (any (λ (o : Merchant). str_eq o.rzp_key_id demo_account_id) s.merchants)) [
              | inl y ↦ rw y tt
              | inr n ↦ rw n (beside s _ (next_le s) refl refl refl refl refl)
            ]

      one :
          (ms : List Merchant)
          → Holds (λ (r : Merchant × Session). Safe env s r.1) (one_merchant s ms)
      one [] = new
      one (m ∷ []) = Safe-refl env s
      one (m ∷ n ∷ ms) = tt

  abbrev CustomerSafe : Session → Option Customer × Session → Type 0
  CustomerSafe s r = Safe env s r.1

  inserted : (c : Customer) (s : Session) → Holds (CustomerSafe s) (insert_customer env c s)
  unfolding insert_customer
  inserted c s = elim (Bool-cases (any (clashes c) s.customers)) [
    | inl y ↦ rw y tt
    | inr n ↦ rw n (beside s _ (next_le s) refl refl refl refl refl)
  ]

  pub customer-Safe :
      (m : Merchant) (ent : Entity) (gt : Option TruthCustomer) (s : Session)
      → Holds (λ (r : Option Customer × Session). Safe env s r.1) (upsert_customer env m ent gt s)
  unfolding upsert_customer
  customer-Safe m ent gt s = elim (Bool-cases (no_contact ent gt)) [
    | inl y ↦ rw y (Safe-refl env s)
    | inr n ↦ (elim (Bool-cases (is_text (new_customer env s.next_id m ent gt).rzp_customer_id)) [
      | inl y ↦ rw (n, y) (found _ _)
      | inr f ↦ rw (n, f) (inserted _ s)
    ])
  ]
    where
      found : (o : Option Customer) (c : Customer) → Holds (CustomerSafe s) (found_or env o c s)
      found none c = inserted c s
      found (some existing) c = Safe-refl env s

  -- What `_upsert_payment` ensures of the row that it returns.
  pub record Stored (s : Session) (r : Payment × Session) : Type 0 where
    pub safe : Safe env s r.1
    pub agrees : IsKeyed r.1 → PaymentAgrees r.1 r.0

  -- `row` writes the id that it is given and the key looked for.
  stored :
      (rzp_id : String) (row : ℕ → ℕ → Payment) (s : Session)
      → ((i t : ℕ) → ((row i t).id ≡ i) × ((row i t).rzp_payment_id ≡ rzp_id))
      → (o : Option Payment) → find_first (is_payment rzp_id) s.payments ≡ o
      → Stored s (store_payment env row o s)
  unfolding store_payment replace_payment
  stored rzp_id row s h none e = record {
    safe = record {
      webhooks = refl;
      keyed = λ k. record {
        payments = IsTable-insert _ _ s.next_id p s.payments (h _ _).0 others k.payments;
        cases = IsTable-grow _ _ _ _ _ (omega arith) k.cases;
        webhooks = IsTable-grow _ _ _ _ _ (omega arith) k.webhooks;
      };
      chains = same_chain env s _ refl;
      actions = λ n. n;
    };
    agrees = λ k. Agrees-head _ _ p s.payments k.payments.ids;
  }
    where
      p : Payment
      p = row s.next_id (env.utcnow s.next_id)

      others : All (λ (q : Payment). p.rzp_payment_id ≢ q.rzp_payment_id) s.payments
      others =
          All-map _ _ s.payments
            (λ q n same. differ_texts _ _ n (sym same ∙ (h s.next_id (env.utcnow s.next_id)).1))
            (find_first-none _ s.payments e)
  stored rzp_id row s h (some old) e = record {
    safe = record {
      webhooks = refl;
      keyed = λ k. record {
        payments =
            IsTable-put _ _ s.next_id s.payments old (row old.id old.created_at)
              (Agrees-find_first _ _ _ s.payments old k.payments.ids e) (h _ _).0
              ((h _ _).1 ∙ sym ((eq_iff _ _).0 (find_first_passes _ s.payments old e))) k.payments;
        cases = k.cases;
        webhooks = k.webhooks;
      };
      chains = same_chain env s _ refl;
      actions = λ n. n;
    };
    agrees = λ k. Agrees-put _ _ (row old.id old.created_at) s.payments;
  }

  pub payment-Stored :
      (m : Merchant) (ent : Entity) (customer_id : Option ℕ) (is_simulated : Bool) (s : Session)
      → Holds (Stored s) (upsert_payment env m ent customer_id is_simulated s)
  unfolding upsert_payment payment_row
  payment-Stored m ent customer_id is_simulated s =
      Holds-bind _ (Stored s) (required Error.missing_key ent.id) _ (required-Holds _ ent.id)
        λ rzp_id e.
          Holds-bind _ (Stored s) (required Error.bad_value (payment_status _)) _
            (required-Holds _ _)
            λ status f.
              Holds-bind _ (Stored s) (required Error.missing_key ent.created_at) _
                (required-Holds _ ent.created_at)
                λ created_at g.
                  stored rzp_id
                    (λ id created.
                      payment_row id created m.id customer_id rzp_id status created_at is_simulated
                        ent)
                    s (λ i t. (refl, refl)) _ refl
