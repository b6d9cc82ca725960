-- ===== src/Integrations/Razorpay.antt =====
-- app/integrations/razorpay.py: the request loop of the REST adapter, and its three methods. The HTTP
-- client and the clock are parameters: one answer and two clock readings for each attempt.
pub mod Breaker
pub mod Requests
use ai_revenue_recovery_agen.Prelude.{
  ℕ, zero, suc, ◌+◌, ◌^◌, ◌++◌, Bool, true, false, not, ◌||◌, Option, none, some, List, [], ◌∷◌,
  String, leb, ◌==◌, if◌then◌else◌, get_or,
}
use ai_revenue_recovery_agen.Prelude.Texts.{text_or}
use ai_revenue_recovery_agen.Format.{Reason, plain}
use ai_revenue_recovery_agen.Outside.{PaymentLinkResult}
use ai_revenue_recovery_agen.Integrations.Razorpay.Breaker.{
  CircuitBreaker, is_open, record_failure, record_success,
}

-- The keys that the code reads from an answer's JSON.
pub record Body : Type 0 where
  pub id : Option String
  pub short_url : Option String
  pub status : Option String
  pub amount : Option ℕ
  pub method : Option String
  pub error_reason : Option String
  pub error_code : Option String
  pub error_source : Option String
  pub error_description : Option String
  -- `data.get("error", {}).get("description")`
  pub error : Option String

pub record Response : Type 0 where
  pub status_code : ℕ
  pub json : Body

-- What one call of the client comes to.
pub data Answer : Type 0 where
  reply : Response → Answer
  timeout : Answer
  http_error : Answer

-- What the adapter raises.
pub data Failure : Type 0 where
  breaker_open : Failure
  server_error : ℕ → Failure
  timed_out : Failure
  http_failed : Failure
  request_failed : Failure
  bad_status : ℕ → Failure
  not_implemented : Failure

pub data Outcome (A : Type 0) : Type 0 where
  returned : A → Outcome A
  raised : Failure → Outcome A

-- A call of the client with the number of its attempt, and a sleep of so many seconds, the random part
-- of up to half a second aside.
pub data Event : Type 0 where
  called : ℕ → Event
  slept : ℕ → Event

pub record Wire : Type 0 where
  pub answer : ℕ → Answer
  -- the clock when the k-th attempt looks at the breaker, and when its answer is there
  pub before : ℕ → ℕ
  pub after : ℕ → ℕ

pub data Verdict : Type 0 where
  good : Response → Verdict
  bad : Failure → Verdict

unfoldable pub judge : Answer → Verdict
judge (reply r) = if leb 500 r.status_code then bad (server_error r.status_code) else good r
judge timeout = bad timed_out
judge http_error = bad http_failed

abbrev pub Trace : Type 0 → Type 0
Trace A = List Event × Outcome A × CircuitBreaker

abbrev pub also : {A : Type 0} → List Event → Trace A → Trace A
also es (t, o, b) = (es ++ t, o, b)

module _ (w : Wire) where
  -- The `for` loop, with the attempts left and the number of the next one.
  unfoldable pub attempt : ℕ → ℕ → Option Failure → CircuitBreaker → Trace Response
  attempt zero k last b = ([], raised (get_or last request_failed), b)
  attempt (suc left) k last b =
      let (open_now, b') = is_open (w.before k) b in
      elim open_now [
        | true ↦ ([], raised breaker_open, b')
        | false ↦ (elim (judge (w.answer k)) [
          | good r ↦ (called k ∷ [], returned r, record_success b')
          | bad f ↦
              also (called k ∷ slept (2 ^ k) ∷ [])
                (attempt left (k + 1) (some f) (record_failure (w.after k) b'))
        ])
      ]

  -- `_request`
  unfoldable pub request : ℕ → CircuitBreaker → Trace Response
  request max_retries b = attempt (max_retries + 1) 0 none b

-- What a method makes of the answer.
abbrev pub on_response : {A : Type 0} → (Response → Outcome A) → Trace Response → Trace A
on_response f (t, returned r, b) = (t, f r, b)
on_response f (t, raised x, b) = (t, raised x, b)

-- `PaymentSnapshot` of gateway.py
pub record PaymentSnapshot : Type 0 where
  pub rzp_payment_id : String
  pub status : String
  pub amount_minor : ℕ
  pub method : Option String
  pub error_reason : Option String
  pub error_code : Option String
  pub error_source : Option String
  pub error_description : Option String

unfoldable pub snapshot : String → Body → PaymentSnapshot
snapshot rzp_payment_id p = record {
  rzp_payment_id = get_or p.id rzp_payment_id;
  status = get_or p.status "failed";
  amount_minor = get_or p.amount 0;
  method = p.method;
  error_reason = p.error_reason;
  error_code = p.error_code;
  error_source = p.error_source;
  error_description = p.error_description;
}

-- `fetch_payment`; `is_success` is the test that `raise_for_status` makes on the status code.
unfoldable pub fetch_payment :
    (ℕ → Bool) → Wire → ℕ → String → CircuitBreaker → Trace PaymentSnapshot
fetch_payment is_success w max_retries rzp_payment_id b =
    on_response
      (λ r.
        if is_success r.status_code
        then returned (snapshot rzp_payment_id r.json)
        else raised (bad_status r.status_code))
      (request w max_retries b)

-- The JSON that `create_payment_link` posts.
pub record LinkBody : Type 0 where
  pub amount : ℕ
  pub currency : String
  pub reference_id : String
  pub description : String
  pub name : String
  pub contact : String
  pub email : String

unfoldable pub link_body : ℕ → String → String → Option String → Option String → String → LinkBody
link_body amount_minor currency customer_name contact email reference_id = record {
  amount = amount_minor;
  currency = currency;
  reference_id = reference_id;
  description = "Recoup recovery payment";
  name = customer_name;
  contact = text_or contact "+919999999999";
  email = text_or email "customer@example.com";
}

abbrev plain_option : Option String → Option Reason
plain_option none = none
plain_option (some t) = some (plain t)

unfoldable pub link_result : Response → PaymentLinkResult
link_result r =
    if not (r.status_code == 200 || r.status_code == 201)
    then record {
      success = false;
      link_id = none;
      short_url = none;
      simulated = false;
      error = r.json.error;
    }
    else record {
      success = true;
      link_id = plain_option r.json.id;
      short_url = plain_option r.json.short_url;
      simulated = false;
      error = none;
    }

-- `create_payment_link`: the client, which answers by the posted body, is the function to `Wire`.
unfoldable pub create_payment_link :
    (LinkBody → Wire) → ℕ → LinkBody → CircuitBreaker → Trace PaymentLinkResult
create_payment_link client max_retries body b =
    on_response (λ r. returned (link_result r)) (request (client body) max_retries b)

-- `retry_charge` raises always.
unfoldable pub retry_charge : CircuitBreaker → Trace (Unit {0})
retry_charge b = ([], raised not_implemented, b)
