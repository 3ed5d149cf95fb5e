-- ===== src/Base/Results.antt =====
-- Fallible code: `Result` for code that changes no state, `Outcome` for code that does. A failed
-- `Outcome` keeps the state that the code had reached.
use mathlib.Core.Path.{◌≡◌, refl, ap}
use mathlib.Core.Logic.{◌≢◌, ◌⊎◌, inl, inr}
use mathlib.Core.Bool.{Bool, true, false}
use mathlib.Core.Option.{Option, none, some}

pub data Result {ε ℓ} (E : Type ε) (A : Type ℓ) : Type (ε ⊔ ℓ) where
  ok : A → Result E A
  err : E → Result E A

infixl 5 ◌>>=◌ ◌>>◌
abbrev pub ◌>>=◌ {ε ℓ κ} :
    {E : Type ε} {A : Type ℓ} {B : Type κ} → Result E A → (A → Result E B) → Result E B
ok a >>= f = f a
err e >>= f = err e

abbrev pub ◌>>◌ {ε ℓ} : {E : Type ε} {B : Type ℓ} → Result E (Unit {0}) → Result E B → Result E B
m >> k = m >>= λ _. k

-- An early return with the error `e` unless the test holds.
abbrev pub require {ε} : {E : Type ε} → Bool → E → Result E (Unit {0})
require true e = ok tt
require false e = err e

abbrev pub or_err {ε ℓ} : {E : Type ε} {A : Type ℓ} → Option A → E → Result E A
or_err none e = err e
or_err (some a) e = ok a

-- Inversion of a successful bind.
pub >>=-eq-ok {ε ℓ κ} :
    {E : Type ε} {A : Type ℓ} {B : Type κ} (step : Result E A) (next : A → Result E B) {b : B}
    → (step >>= next) ≡ ok b
    → (v : A) × (step ≡ ok v) × (next v ≡ ok b)
>>=-eq-ok (ok v) next p = (v, refl, p)
>>=-eq-ok (err x) next p = cc

-- A chain does not fail with an error that none of its steps has.
pub >>=-ne-err {ε ℓ κ} :
    {E : Type ε} {A : Type ℓ} {B : Type κ} (m : Result E A) (f : A → Result E B) (e : E)
    → m ≢ err e
    → ((a : A) → f a ≢ err e)
    → (m >>= f) ≢ err e
>>=-ne-err (ok a) f e h k = k a
>>=-ne-err (err x) f e h k = λ p. let q : x ≡ e = cc in h (ap err q)

pub require-eq-ok {ε} :
    {E : Type ε} (b : Bool) (e : E) {u : Unit {0}} → require b e ≡ ok u → b ≡ true
require-eq-ok true e h = refl
require-eq-ok false e h = cc

pub or_err-eq-ok {ε ℓ} :
    {E : Type ε} {A : Type ℓ} (o : Option A) (e : E) {a : A} → or_err o e ≡ ok a → o ≡ some a
or_err-eq-ok none e h = cc
or_err-eq-ok (some b) e h = cc

pub ok-injective {ε ℓ} :
    {E : Type ε} {A : Type ℓ} {a b : A} → ◌≡◌ {A = Result E A} (ok a) (ok b) → a ≡ b
ok-injective h = cc

pub data Outcome {ε ς ℓ} (E : Type ε) (S : Type ς) (A : Type ℓ) : Type (ε ⊔ ς ⊔ ℓ) where
  done : A → S → Outcome E S A
  fail : E → S → Outcome E S A

-- The rest of a handler after a step that may fail.
abbrev pub and_then {ε ς ℓ κ} :
    {E : Type ε} {S : Type ς} {A : Type ℓ} {B : Type κ}
    → Outcome E S A
    → (A → S → Outcome E S B)
    → Outcome E S B
and_then (done a s) f = f a s
and_then (fail e s) f = fail e s

-- A step that reads no state, at the state `s`.
abbrev pub lift {ε ς ℓ} : {E : Type ε} {S : Type ς} {A : Type ℓ} → Result E A → S → Outcome E S A
lift (ok a) s = done a s
lift (err e) s = fail e s

pub Result-cases {ε ℓ} :
    {E : Type ε} {A : Type ℓ} (r : Result E A) → ((a : A) × (r ≡ ok a)) ⊎ ((e : E) × (r ≡ err e))
Result-cases (ok a) = inl (a, refl)
Result-cases (err e) = inr (e, refl)

pub Outcome-cases {ε ς ℓ} :
    {E : Type ε} {S : Type ς} {A : Type ℓ} (r : Outcome E S A)
    → ((a : A) × (s : S) × (r ≡ done a s)) ⊎ ((e : E) × (s : S) × (r ≡ fail e s))
Outcome-cases (done a s) = inl (a, s, refl)
Outcome-cases (fail e s) = inr (e, s, refl)
