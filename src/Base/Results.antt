-- ===== src/Base/Results.antt =====
-- Code that may raise: a value, or the exception.
use mathlib.Core.Path.{◌≡◌, refl}
use mathlib.Core.Bool.{Bool, true, false}

pub data Result {ℓ κ} (Problem : Type ℓ) (Value : Type κ) : Type (ℓ ⊔ κ) where
  err : Problem → Result Problem Value
  ok : Value → Result Problem Value

module _ {ℓ} {Problem : Type ℓ} where
  -- `if test: raise problem`.
  abbrev pub raise_if : Bool → Problem → Result Problem (Unit {0})
  raise_if false problem = ok tt
  raise_if true problem = err problem

  pub raise_if-eq-ok :
      (test : Bool) (problem : Problem) {u : Unit {0}} → raise_if test problem ≡ ok u → test ≡ false
  raise_if-eq-ok false problem h = refl
  raise_if-eq-ok true problem h = cc

-- A returned value, at the type of code that may raise.
abbrev pub returned {ℓ κ} : (Problem : Type ℓ) {Value : Type κ} → Value → Result Problem Value
returned Problem value = ok value

pub returned-injective {ℓ κ} :
    (Problem : Type ℓ) {Value : Type κ} {v w : Value}
    → returned Problem v ≡ returned Problem w
    → v ≡ w
returned-injective Problem h = cc

infixl 5 ◌>>=◌ ◌>>◌
-- What runs next, on the value of what ran before.
abbrev pub ◌>>=◌ {ℓ κ μ} :
    {Problem : Type ℓ} {Value : Type κ} {Next : Type μ}
    → Result Problem Value
    → (Value → Result Problem Next)
    → Result Problem Next
err problem >>= next = err problem
ok value >>= next = next value

abbrev pub ◌>>◌ {ℓ μ} :
    {Problem : Type ℓ} {Next : Type μ}
    → Result Problem (Unit {0})
    → Result Problem Next
    → Result Problem Next
before >> after = before >>= λ done. after

-- A sequence that returns has run its first part.
pub >>=-eq-ok {ℓ κ μ} :
    {Problem : Type ℓ} {Value : Type κ} {Next : Type μ} (before : Result Problem Value)
    (next : Value → Result Problem Next) {out : Next}
    → (before >>= next) ≡ ok out
    → (value : Value) × (before ≡ ok value) × (next value ≡ ok out)
>>=-eq-ok (err problem) next h = cc
>>=-eq-ok (ok value) next h = (value, refl, h)
