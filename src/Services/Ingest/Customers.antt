-- ===== src/Services/Ingest/Customers.antt =====
-- The customer row of a second failure of one person.
use Prim.Native.Char.{Char}
use mathlib.Core.Path.{subst}
use text.Mathlib.TextPositions.{eq_refl}
use ai_revenue_recovery_agen.Prelude.{
  ℕ, ◌≡◌, refl, sym, ◌∙◌, true, Option, none, some, ◌∷◌, String, Bool-cases, inl, inr, arith, any,
  any_hit, ◌==◌,
}
use ai_revenue_recovery_agen.Result.{Error, ok, err}
use ai_revenue_recovery_agen.Db.Models.{Merchant, Customer}
use ai_revenue_recovery_agen.Db.Session.{Session}
use ai_revenue_recovery_agen.Outside.{Env}
use ai_revenue_recovery_agen.Services.Ingest.Payload.{Entity}
use ai_revenue_recovery_agen.Services.Ingest.Effects.{Holds}
use ai_revenue_recovery_agen.Services.Ingest.Rows.{
  clashes, new_customer, insert_customer, upsert_customer,
}

==_refl : (n : ℕ) → (n == n) ≡ true
==_refl n = ground arith

module _ (env : Env) (m : Merchant) (ch : Char) (k : String) where
  -- The contact is the text that begins with `ch`, and the gateway names no customer.
  abbrev pub IsAnonymous : Entity → Type 0
  IsAnonymous ent = (ent.contact ≡ some (String.◌∷◌ ch k)) × (ent.customer_id ≡ none)

  inserts :
      (ent : Entity) (s : Session)
      → IsAnonymous ent
      → upsert_customer env m ent none s
        ≡ insert_customer env (new_customer env s.next_id m ent none) s
  unfolding upsert_customer new_customer
  inserts ent s (t, i) = rw (t, i) refl

  clash :
      (a b : ℕ) (ent later : Entity)
      → IsAnonymous ent
      → IsAnonymous later
      → clashes (new_customer env a m later none) (new_customer env b m ent none) ≡ true
  unfolding new_customer
  clash a b ent later (t, i) (u, j) =
      rw (t, u)
        (let x = eq_refl (env.sha_text (String.◌∷◌ ch k)) in let y = ==_refl m.id in rw (x, y) refl)

  refused :
      (c : Customer) (s : Session)
      → any (clashes c) s.customers ≡ true
      → insert_customer env c s ≡ err Error.integrity_error
  unfolding insert_customer
  refused c s y = rw y refl

  abbrev Fronts : Customer → Session → Option Customer × Session → Type 0
  Fronts c s r = r.1.customers ≡ c ∷ s.customers

  -- What an insertion that returns has put in front.
  inserted : (c : Customer) (s : Session) → Holds (Fronts c s) (insert_customer env c s)
  unfolding insert_customer
  inserted c s = elim (Bool-cases (any (clashes c) s.customers)) [
    | inl y ↦ rw y tt
    | inr n ↦ rw n refl
  ]

  -- Two payments of one contact whose entities name no customer id, with no ground truth: once the
  -- first has its customer row, the insertion for the second violates the unique key of merchant and
  -- contact, and raises.
  pub upsert_customer_twice :
      (ent later : Entity) (s t : Session) (r : Option Customer)
      → IsAnonymous ent
      → IsAnonymous later
      → upsert_customer env m ent none s ≡ ok (r, t)
      → upsert_customer env m later none t ≡ err Error.integrity_error
  upsert_customer_twice ent later s t r a b e =
      let there = subst (Holds (Fronts _ s)) (sym (inserts ent s a) ∙ e) (inserted _ s) in
      inserts later t b
      ∙ refused _ t (rw there (any_hit _ _ s.customers (clash t.next_id s.next_id ent later a b)))
