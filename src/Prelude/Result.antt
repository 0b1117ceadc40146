-- ===== src/Prelude/Result.antt =====
-- Go's `(value, error)` over an error type of each component, with `do`.
use mathlib.Core.Path.{◌≡◌, refl}
use mathlib.Core.Logic.{◌⊎◌, inl, inr}
use mathlib.Core.Bool.{Bool, true, false}
use neofs_sdk_go.Prelude.Tests.{if◌then◌else◌}

pub data Result (E : Type 0) (A : Type 0) : Type 0 where
  ok : A → Result E A
  err : E → Result E A

pub Result-cases :
    {E A : Type 0} (r : Result E A) → ((e : E) × (r ≡ err e)) ⊎ ((a : A) × (r ≡ ok a))
Result-cases (err e) = inl (e, refl)
Result-cases (ok a) = inr (a, refl)

infixl 5 ◌>>=◌
-- The first error ends the chain.
abbrev pub ◌>>=◌ : {E A B : Type 0} → Result E A → (A → Result E B) → Result E B
err e >>= f = err e
ok a >>= f = f a

pub >>=-eq-ok :
    {E A B : Type 0} (r : Result E A) (next : A → Result E B) {out : B}
    → (r >>= next) ≡ ok out
    → (a : A) × (r ≡ ok a) × (next a ≡ ok out)
>>=-eq-ok (err e) next h = cc
>>=-eq-ok (ok a) next h = (a, refl, h)

-- The computation returns a value.
abbrev pub Succeeds : {E A : Type 0} → Result E A → Type 0
Succeeds {A} r = (a : A) × (r ≡ ok a)

pub Succeeds-bind :
    {E A B : Type 0} (m : Result E A) (f : A → Result E B)
    → Succeeds m
    → ((a : A) → Succeeds (f a))
    → Succeeds (m >>= f)
Succeeds-bind m f (a, e) k = let (b, q) = k a in (b, rw e q)

-- The same where the rest may use what was returned.
pub Succeeds-bind_eq :
    {E A B : Type 0} (m : Result E A) (f : A → Result E B)
    → Succeeds m
    → ((a : A) → m ≡ ok a → Succeeds (f a))
    → Succeeds (m >>= f)
Succeeds-bind_eq m f (a, e) k = let (b, q) = k a e in (b, rw e q)

-- A test that lets the rest run is true where the whole returns a value.
pub guard_ok :
    {E A : Type 0} (c : Bool) (next : Result E A) (e : E) {out : A}
    → (if c then next else err e) ≡ ok out
    → (c ≡ true) × (next ≡ ok out)
guard_ok true next e h = (refl, h)
guard_ok false next e h = cc
