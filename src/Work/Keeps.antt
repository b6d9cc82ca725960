-- ===== src/Work/Keeps.antt =====
-- A relation between the work before and after an action that returns, one rule for each way to build
-- an action.
use ai_revenue_recovery_agen.Prelude.{◌≡◌, refl, ap, Bool, true, false, if◌then◌else◌}
use ai_revenue_recovery_agen.Result.{Result, Error, ok, err}
use ai_revenue_recovery_agen.Work.{Work, Action, pure, gets, modify, run, ◌>>=◌, ◌>>◌}

-- The work that an action returns, if it does, satisfies `P`.
abbrev pub Post : {A : Type 0} → (Work → Type 0) → Result (A × Work) → Type 0
Post P (ok (a, w)) = P w
Post P (err e) = Unit

pub record Preorder (R : Work → Work → Type 0) : Type 0 where
  pub stays : (w : Work) → R w w
  pub follows : (u v w : Work) → R u v → R v w → R u w

pub record Keeps {A : Type 0} (R : Work → Work → Type 0) (m : Action A) : Type 0 where
  pub at : (w : Work) → Post (R w) (m w)

module _ {R : Work → Work → Type 0} (order : Preorder R) where
  -- What an action does after another one, from where that ended.
  onward : {A : Type 0} (u v : Work) → R u v → (r : Result (A × Work)) → Post (R v) r → Post (R u) r
  onward u v h (ok (a, w)) k = order.follows u v w h k
  onward u v h (err e) k = tt

  bound :
      {A B : Type 0} (w : Work) (r : Result (A × Work)) (f : A → Action B)
      → Post (R w) r
      → ((a : A) → Keeps R (f a))
      → Post (R w) (◌>>=◌ (λ _. r) f w)
  unfolding ◌>>=◌
  bound w (ok (a, v)) f h k = onward w v h (f a v) ((k a).at v)
  bound w (err e) f h k = tt

  pub Keeps-bind :
      {A B : Type 0} (m : Action A) (f : A → Action B)
      → Keeps R m
      → ((a : A) → Keeps R (f a))
      → Keeps R (m >>= f)
  unfolding ◌>>=◌
  Keeps-bind m f h k = record { at = λ w. bound w (m w) f (h.at w) k }

  pub Keeps-pure : {A : Type 0} (a : A) → Keeps R (pure a)
  unfolding pure
  Keeps-pure a = record { at = λ w. order.stays w }

  pub Keeps-gets : {A : Type 0} (f : Work → A) → Keeps R (gets f)
  unfolding gets
  Keeps-gets f = record { at = λ w. order.stays w }

pub Keeps-modify :
    {R : Work → Work → Type 0} (f : Work → Work) → ((w : Work) → R w (f w)) → Keeps R (modify f)
unfolding modify
Keeps-modify f h = record { at = h }

pub Keeps-run :
    {R : Work → Work → Type 0} {A : Type 0} (f : Work → A × Work)
    → ((w : Work) → R w (f w).1)
    → Keeps R (run f)
unfolding run
Keeps-run f h = record { at = h }

-- A choice between two actions by the work.
pub Keeps-if :
    {R : Work → Work → Type 0} {A : Type 0} (b : Bool) (m n : Action A) (w : Work)
    → Keeps R m
    → Keeps R n
    → Post (R w) (if b then m w else n w)
Keeps-if true m n w km kn = km.at w
Keeps-if false m n w km kn = kn.at w

-- An action after another one, by what the first ensures.
pub Post-bind :
    {A B : Type 0} (P Q : Work → Type 0) (m : Action A) (f : A → Action B) (w : Work)
    → Post P (m w)
    → ((a : A) (v : Work) → P v → Post Q (f a v))
    → Post Q ((m >>= f) w)
unfolding ◌>>=◌
Post-bind {A} {B} P Q m f w h k = go (m w) h
  where
    go : (r : Result (A × Work)) → Post P r → Post Q (◌>>=◌ (λ v. r) f w)
    go (ok (a, v)) p = k a v p
    go (err e) p = tt

-- A write after an action.
pub Post-modify :
    {A : Type 0} (P Q : Work → Type 0) (m : Action A) (f : Work → Work) (w : Work)
    → Post P (m w)
    → ((v : Work) → P v → Q (f v))
    → Post Q ((m >> modify f) w)
unfolding modify
Post-modify P Q m f w h k = Post-bind P Q m (λ a. modify f) w h (λ a v p. k v p)

-- What the first action raises is raised.
pub bind-err :
    {A B : Type 0} (m : Action A) (f : A → Action B) (w : Work) (e : Error)
    → m w ≡ err e
    → (m >>= f) w ≡ err e
unfolding ◌>>=◌
bind-err m f w e h = ap (λ r. ◌>>=◌ (λ u. r) f w) h

-- What the first action returns is handed on.
pub bind-ok :
    {A B : Type 0} (m : Action A) (f : A → Action B) (w v : Work) (a : A)
    → m w ≡ ok (a, v)
    → (m >>= f) w ≡ f a v
unfolding ◌>>=◌
bind-ok m f w v a h = ap (λ r. ◌>>=◌ (λ u. r) f w) h

-- The action returns, and what it returns satisfies `P`.
abbrev pub Sure : {A : Type 0} → (A → Work → Type 0) → Result (A × Work) → Type 0
Sure P (ok (a, w)) = P a w
Sure P (err e) = ⊥

pub Sure-bind :
    {A B : Type 0} (P : A → Work → Type 0) (Q : B → Work → Type 0) (m : Action A) (f : A → Action B)
    (w : Work)
    → Sure P (m w)
    → ((a : A) (v : Work) → P a v → Sure Q (f a v))
    → Sure Q ((m >>= f) w)
unfolding ◌>>=◌
Sure-bind {A} {B} P Q m f w h k = go (m w) h
  where
    go : (r : Result (A × Work)) → Sure P r → Sure Q (◌>>=◌ (λ v. r) f w)
    go (ok (a, v)) p = k a v p
    go (err e) p = absurd p

pub returned :
    {A : Type 0} (P : A → Work → Type 0) (r : Result (A × Work))
    → Sure P r
    → (a : A) × (v : Work) × (r ≡ ok (a, v))
returned P (ok (a, v)) h = (a, v, refl)
returned P (err e) h = absurd h

pub Post-both :
    {A : Type 0} (P Q : Work → Type 0) (r : Result (A × Work))
    → Post P r
    → Post Q r
    → Post (λ v. P v × Q v) r
Post-both P Q (ok (a, v)) p q = (p, q)
Post-both P Q (err e) p q = tt

pub Post-map :
    {A : Type 0} (P Q : Work → Type 0) (r : Result (A × Work))
    → ((v : Work) → P v → Q v)
    → Post P r
    → Post Q r
Post-map P Q (ok (a, v)) f h = f v h
Post-map P Q (err e) f h = tt

pub returned_with :
    {A : Type 0} (P : A → Work → Type 0) (r : Result (A × Work))
    → Sure P r
    → (a : A) × (v : Work) × (r ≡ ok (a, v)) × P a v
returned_with P (ok (a, v)) h = (a, v, refl, h)
returned_with P (err e) h = absurd h

-- What holds of a result holds where an exception may come instead.
pub Post-unless :
    {A : Type 0} (P : Work → Type 0) (b : Bool) (e : Error) (r : Result (A × Work))
    → Post P r
    → Post P (if b then err e else r)
Post-unless P true e r h = tt
Post-unless P false e r h = h
