-- ===== src/Prelude/Outcome.antt =====
-- How a call ends: with a value, or in one of the ways in which the process is lost.
use mathlib.Core.Path.{◌≡◌}
use mathlib.Core.Option.{Option, none, some}
use mathlib.Core.Bool.{Bool, true, false}

-- `out_of_bounds`: an access outside an array; `null_deref`: through a null pointer;
-- `use_after_free`: to an object that is gone; `fatal`: a LOG_FATAL line, whose destructor calls
-- abort(); `overflow`: of a signed int; `out_of_fuel`: the model's bound on a loop.
pub data Halt : Type 0 where
  out_of_bounds null_deref use_after_free fatal overflow out_of_fuel : Halt

pub data Exec {ℓ} (A : Type ℓ) : Type ℓ where
  done : A → Exec A
  stop : Halt → Exec A

infixl 5 ◌>>=◌ ◌>>◌
abbrev pub ◌>>=◌ {ℓ κ} : {A : Type ℓ} {B : Type κ} → Exec A → (A → Exec B) → Exec B
done a >>= f = f a
stop h >>= f = stop h

abbrev pub ◌>>◌ {ℓ} : {B : Type ℓ} → Exec (Unit {0}) → Exec B → Exec B
m >> k = m >>= λ _. k

abbrev pub require : Bool → Halt → Exec (Unit {0})
require true h = done tt
require false h = stop h

abbrev pub or_stop {ℓ} : {A : Type ℓ} → Option A → Halt → Exec A
or_stop (some a) h = done a
or_stop none h = stop h

-- The call returns, with a value that satisfies `P`.
abbrev pub Returns {ℓ κ} : {A : Type ℓ} → (A → Type κ) → Exec A → Type (ℓ ⊔ κ)
Returns {A} P r = (a : A) × (r ≡ done a) × P a

pub Returns-bind {ℓ κ ℓ' κ'} :
    {A : Type ℓ} {B : Type ℓ'} (P : A → Type κ) (Q : B → Type κ') (r : Exec A) (f : A → Exec B)
    → Returns P r
    → ((a : A) → P a → Returns Q (f a))
    → Returns Q (r >>= f)
Returns-bind P Q (done a) f (b, e, p) k = k a (rw (inj e) p)
  where
    inj : done a ≡ done b → a ≡ b
    inj e = cc
Returns-bind P Q (stop h) f (b, e, p) k = absurd (cc)

pub Returns-map {ℓ κ κ'} :
    {A : Type ℓ} (P : A → Type κ) (Q : A → Type κ') (r : Exec A)
    → Returns P r
    → ((a : A) → P a → Q a)
    → Returns Q r
Returns-map P Q r (a, e, p) k = (a, e, k a p)
