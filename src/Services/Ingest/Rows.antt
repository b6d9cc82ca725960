-- ===== src/Services/Ingest/Rows.antt =====
-- The rows that app/services/ingest.py looks up, inserts and overwrites.
use ai_revenue_recovery_agen.Prelude.{
  ℕ, ◌+◌, Bool, false, not, ◌&&◌, ◌||◌, Option, none, some, List, [], ◌∷◌, String, str_eq, ◌==◌,
  if◌then◌else◌, find_first, filter, any, get_or, map,
}
use ai_revenue_recovery_agen.Prelude.Texts.{is_text, or_option, text_or}
use ai_revenue_recovery_agen.Result.{Error, Result, ok, err, ◌>>=◌}
use ai_revenue_recovery_agen.Db.Enums.{PaymentStatus}
use ai_revenue_recovery_agen.Db.Models.{Merchant, Customer, Payment, TruthCustomer}
use ai_revenue_recovery_agen.Db.Session.{Session}
use ai_revenue_recovery_agen.Policy.Config.{no_overrides}
use ai_revenue_recovery_agen.Outside.{Env}
use ai_revenue_recovery_agen.Services.Loading.{replace_payment}
use ai_revenue_recovery_agen.Services.Ingest.Payload.{
  Entity, mask_email, mask_name, payment_status, card_last4,
}

abbrev pub demo_name : String
demo_name = "Recoup Demo Merchant"

abbrev pub demo_account_id : String
demo_account_id = "acc_demo"

-- The merchant row and its insertion, which a taken `rzp_key_id` refuses.
unfoldable pub insert_merchant : Session → Result (Merchant × Session)
insert_merchant s =
    let m : Merchant = record {
      id = s.next_id;
      name = demo_name;
      rzp_key_id = demo_account_id;
      policy_config = no_overrides;
    } in
    if any (λ (o : Merchant). str_eq o.rzp_key_id demo_account_id) s.merchants
    then err Error.integrity_error
    else ok (m, record s { next_id = s.next_id + 1; merchants = m ∷ s.merchants })

abbrev pub one_merchant : Session → List Merchant → Result (Merchant × Session)
one_merchant s [] = insert_merchant s
one_merchant s (m ∷ []) = ok (m, s)
one_merchant s (m ∷ n ∷ ms) = err Error.multiple_results

unfoldable pub get_or_create_demo_merchant : Session → Result (Merchant × Session)
unfolding insert_merchant
get_or_create_demo_merchant s =
    one_merchant s (filter (λ (m : Merchant). str_eq m.name demo_name) s.merchants)

-- A text of the ground truth's customer block, which may be absent.
abbrev of_truth : {A : Type 0} → (TruthCustomer → Option A) → Option TruthCustomer → Option A
of_truth f none = none
of_truth f (some t) = f t

abbrev pub same_text : Option String → Option String → Bool
same_text none _ = false
same_text (some a) none = false
same_text (some a) (some b) = str_eq a b

-- `not contact and not email`
abbrev pub no_contact : Entity → Option TruthCustomer → Bool
no_contact ent gt =
    not (is_text (or_option ent.contact (of_truth (λ t. t.contact) gt)))
    && not (is_text (or_option ent.email (of_truth (λ t. t.email) gt)))

-- The unique keys of `customers`: the merchant with the contact's hash, and the gateway's id.
abbrev pub clashes : Customer → Customer → Bool
clashes a b =
    (a.merchant_id == b.merchant_id && str_eq a.contact_hash b.contact_hash)
    || same_text a.rzp_customer_id b.rzp_customer_id

-- The row of a payment with the `fields` of the entity, in place of those that it had.
unfoldable pub payment_row :
    ℕ → ℕ → ℕ → Option ℕ → String → PaymentStatus → ℕ → Bool → Entity → Payment
payment_row id created merchant_id customer_id rzp_id status created_at is_simulated ent = record {
  id = id;
  merchant_id = merchant_id;
  customer_id = customer_id;
  rzp_payment_id = rzp_id;
  rzp_order_id = ent.order_id;
  status = status;
  amount_minor = get_or ent.amount 0;
  currency = get_or ent.currency "INR";
  method = ent.method;
  error_code = ent.error_code;
  error_source = ent.error_source;
  error_step = ent.error_step;
  error_reason = ent.error_reason;
  error_description = ent.error_description;
  bank = ent.bank;
  card_last4 = card_last4 ent.card_id;
  is_simulated = is_simulated;
  rzp_created_at = some created_at;
  created_at = created;
}

unfoldable pub required : {A : Type 0} → Error → Option A → Result A
required e none = err e
required e (some a) = ok a

abbrev pub is_payment : String → Payment → Bool
is_payment rzp_id p = str_eq p.rzp_payment_id rzp_id

module _ (env : Env) where
  unfoldable pub new_customer : ℕ → Merchant → Entity → Option TruthCustomer → Customer
  new_customer id merchant ent gt =
      let contact = or_option ent.contact (of_truth (λ t. t.contact) gt) in
      let email = or_option ent.email (of_truth (λ t. t.email) gt) in
      record {
        id = id;
        merchant_id = merchant.id;
        rzp_customer_id = or_option ent.customer_id (of_truth (λ t. t.rzp_customer_id) gt);
        masked_name =
            text_or (of_truth (λ t. t.masked_name) gt) (mask_name (of_truth (λ t. t.name) gt));
        contact_hash = env.sha_text (text_or contact (get_or email ""));
        email_masked = or_option (of_truth (λ t. t.email_masked) gt) (mask_email email);
        tenure_days = get_or (of_truth (λ t. t.tenure_days) gt) 0;
        lifetime_value_minor = get_or (of_truth (λ t. t.lifetime_value_minor) gt) 0;
        prior_failures_90d = get_or (of_truth (λ t. t.prior_failures_90d) gt) 0;
        prior_recoveries_90d = get_or (of_truth (λ t. t.prior_recoveries_90d) gt) 0;
        successful_payments = get_or (of_truth (λ t. t.successful_payments) gt) 0;
        has_saved_token = get_or (of_truth (λ t. t.has_saved_token) gt) false;
        mandate_status = of_truth (λ t. t.mandate_status) gt;
      }

  unfoldable pub insert_customer : Customer → Session → Result (Option Customer × Session)
  insert_customer c s =
      if any (clashes c) s.customers
      then err Error.integrity_error
      else ok (some c, record s { next_id = s.next_id + 1; customers = c ∷ s.customers })

  abbrev pub found_or : Option Customer → Customer → Session → Result (Option Customer × Session)
  found_or none c s = insert_customer c s
  found_or (some existing) c s = ok (some existing, s)

  -- `_upsert_customer`
  unfoldable pub upsert_customer :
      Merchant → Entity → Option TruthCustomer → Session → Result (Option Customer × Session)
  upsert_customer merchant ent gt s =
      let c = new_customer s.next_id merchant ent gt in
      if no_contact ent gt
      then ok (none, s)
      else if is_text c.rzp_customer_id
      then found_or
          (find_first (λ (o : Customer). same_text o.rzp_customer_id c.rzp_customer_id) s.customers)
          c s
      else insert_customer c s

  -- `_upsert_payment`
  unfoldable pub store_payment : (ℕ → ℕ → Payment) → Option Payment → Session → Payment × Session
  unfolding replace_payment
  store_payment row none s =
      let p = row s.next_id (env.utcnow s.next_id) in
      (p, record s { next_id = s.next_id + 1; payments = p ∷ s.payments })
  store_payment row (some old) s =
      let p = row old.id old.created_at in
      (p, record s { payments = map (replace_payment p) s.payments })

  unfoldable pub upsert_payment :
      Merchant → Entity → Option ℕ → Bool → Session → Result (Payment × Session)
  unfolding store_payment
  upsert_payment merchant ent customer_id is_simulated s =
      required Error.missing_key ent.id >>= λ rzp_id.
      required Error.bad_value (payment_status (get_or ent.status "created")) >>= λ status.
      required Error.missing_key ent.created_at >>= λ created_at. ok (
        store_payment
          (λ id created.
            payment_row id created merchant.id customer_id rzp_id status created_at is_simulated
              ent)
          (find_first (is_payment rzp_id) s.payments) s)
