-- ===== src/Services/Loading.antt =====
-- `load_case_full` of app/services/pipeline.py, and the write of its objects back to their tables.
use ai_revenue_recovery_agen.Prelude.{
  ℕ, Option, none, some, List, ◌==◌, if◌then◌else◌, find_first, map,
}
use ai_revenue_recovery_agen.Db.Models.{Customer, Payment, RecoveryCase}
use ai_revenue_recovery_agen.Db.Session.{Session}
use ai_revenue_recovery_agen.Work.{Work, Simulator}

unfoldable pub case_by_id : ℕ → List RecoveryCase → Option RecoveryCase
case_by_id id = find_first (λ c. c.id == id)

unfoldable pub payment_by_id : ℕ → List Payment → Option Payment
payment_by_id id = find_first (λ p. p.id == id)

abbrev pub customer_by_id : Option ℕ → List Customer → Option Customer
customer_by_id none cs = none
customer_by_id (some id) cs = find_first (λ (c : Customer). c.id == id) cs

-- The objects at work.
abbrev pub work_of : ℕ → Simulator → Session → RecoveryCase → Payment → Work
work_of clock simulator s c p = record {
  session = s;
  case = c;
  payment = p;
  customer = customer_by_id c.customer_id s.customers;
  clock = clock;
  simulator = simulator;
}

abbrev pub with_payment : ℕ → Simulator → Session → RecoveryCase → Option Payment → Option Work
with_payment clock simulator s c none = none
with_payment clock simulator s c (some p) = some (work_of clock simulator s c p)

abbrev pub with_case : ℕ → Simulator → Session → Option RecoveryCase → Option Work
with_case clock simulator s none = none
with_case clock simulator s (some c) =
    with_payment clock simulator s c (payment_by_id c.payment_id s.payments)

-- `none` where the case is not there; a case has a payment by its foreign key.
unfoldable pub load_case_full : ℕ → Simulator → ℕ → Session → Option Work
load_case_full clock simulator id s = with_case clock simulator s (case_by_id id s.cases)

unfoldable pub replace_case : RecoveryCase → RecoveryCase → RecoveryCase
replace_case c o = if o.id == c.id then c else o

unfoldable pub replace_payment : Payment → Payment → Payment
replace_payment p o = if o.id == p.id then p else o

-- The session with what the ORM flushes of the objects at work.
unfoldable pub flushed : Work → Session
unfolding replace_case replace_payment
flushed w = record w.session {
  cases = map (replace_case w.case) w.session.cases;
  payments = map (replace_payment w.payment) w.session.payments;
}
