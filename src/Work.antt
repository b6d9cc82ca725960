-- ===== src/Work.antt =====
-- A case at work: the session's rows, the ORM objects of the case, its payment and its customer, the
-- clock and the simulator. The case and the payment stand here once, as the session has one object for
-- a row; their rows in the tables are the ones of the last load. A method is an action: it changes the
-- work and returns, or it raises, and then the transaction is rolled back.
pub mod Keeps
use ai_revenue_recovery_agen.Prelude.{ℕ, ◌≡◌, refl, Bool, Option, List, String}
use ai_revenue_recovery_agen.Result.{Result, ok, err}
use ai_revenue_recovery_agen.Db.Models.{RecoveryCase, Payment, Customer}
use ai_revenue_recovery_agen.Db.Session.{Session}

-- `SimulatedGatewayAdapter`: the latent rolls, and how many numbers its generator has drawn.
pub record Simulator : Type 0 where
  pub rolls : List (String × Bool)
  pub drawn : ℕ

pub record Work : Type 0 where
  pub session : Session
  pub case : RecoveryCase
  pub payment : Payment
  pub customer : Option Customer
  pub clock : ℕ
  pub simulator : Simulator

abbrev pub Action : Type 0 → Type 0
Action A = Work → Result (A × Work)

unfoldable pub pure : {A : Type 0} → A → Action A
pure a w = ok (a, w)

unfoldable pub gets : {A : Type 0} → (Work → A) → Action A
gets f w = ok (f w, w)

unfoldable pub modify : (Work → Work) → Action (Unit {0})
modify f w = ok (tt, f w)

-- A method that cannot raise.
unfoldable pub run : {A : Type 0} → (Work → A × Work) → Action A
run f w = ok (f w)

infixl 5 ◌>>=◌ ◌>>◌
-- Opening this opens the four actions above too.
unfoldable pub ◌>>=◌ : {A B : Type 0} → Action A → (A → Action B) → Action B
unfolding pure gets modify run
◌>>=◌ m f w = elim (m w) [ ok (a, w') ↦ f a w' | err e ↦ err e ]

abbrev pub ◌>>◌ : {A B : Type 0} → Action A → Action B → Action B
m >> k = m >>= λ _. k

abbrev pub on_session : (Session → Session) → Work → Work
on_session f w = record w { session = f w.session }

abbrev pub on_case : (RecoveryCase → RecoveryCase) → Work → Work
on_case f w = record w { case = f w.case }
