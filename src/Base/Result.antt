-- ===== src/Base/Result.antt =====
-- Runs that may fault, and the monad over them.
use mathlib.Core.Path.{◌≡◌, refl, subst}
use mathlib.Core.Bool.{Bool, true, false}
use slap.Base.Bools.{if◌then◌else◌}

-- Why a run of the program ends before its code does.
pub data Fault : Type 0 where
  -- an `assert` that fails
  assertion : Fault
  -- a division by zero
  division : Fault
  -- an access outside an array, or through a null pointer
  wild_pointer : Fault
  -- a call of `Error`, which does not return
  fatal : Fault
  -- the fuel of a loop's model is used up
  out_of_fuel : Fault

pub data Result {ℓ} (A : Type ℓ) : Type ℓ where
  ok : A → Result A
  err : Fault → Result A

-- A fault ends the rest of the run as well.
infixl 5 ◌>>=◌
abbrev pub ◌>>=◌ {ℓ κ} : {A : Type ℓ} {B : Type κ} → Result A → (A → Result B) → Result B
err why >>= rest = err why
ok value >>= rest = rest value

-- The run ends without a fault, in a value with the property.
pub record Returns {ℓ κ} {A : Type ℓ} (r : Result A) (P : A → Type κ) : Type (ℓ ⊔ κ) where
  pub value : A
  pub equals : r ≡ ok value
  pub holds : P value

module _ {ℓ κ} {A : Type ℓ} where
  pub returns : {P : A → Type κ} (a : A) → P a → Returns (ok a) P
  returns a p = record { value = a; equals = refl; holds = p }

  pub bind :
      {B : Type ℓ} {P : A → Type κ} {Q : B → Type κ} {r : Result A} (f : A → Result B)
      → Returns r P
      → ((a : A) → P a → Returns (f a) Q)
      → Returns (r >>= f) Q
  bind {Q} f h next = rw h.equals (next h.value h.holds)

  pub mono : {P Q : A → Type κ} {r : Result A} → Returns r P → ((a : A) → P a → Q a) → Returns r Q
  mono h weaken = record { value = h.value; equals = h.equals; holds = weaken h.value h.holds }

-- The two branches of a test, each with the outcome of the test.
pub if-Returns {ℓ κ} :
    {A : Type ℓ} {P : A → Type κ} (b : Bool) {x y : Result A}
    → (b ≡ true → Returns x P)
    → (b ≡ false → Returns y P)
    → Returns (if b then x else y) P
if-Returns true f g = f refl
if-Returns false f g = g refl

-- Where the run ends without a fault, its value has the property.
abbrev pub Keeps {ℓ κ} : {A : Type ℓ} → (A → Type κ) → Result A → Type κ
Keeps P (ok a) = P a
Keeps P (err e) = Unit

module _ {ℓ κ} {A : Type ℓ} (P : A → Type κ) where
  pub Keeps-bind {ℓ' κ'} :
      {B : Type ℓ'} (Q : B → Type κ') (m : Result A) (f : A → Result B)
      → Keeps P m
      → ((a : A) → P a → Keeps Q (f a))
      → Keeps Q (m >>= f)
  Keeps-bind Q (ok a) f h next = next a h
  Keeps-bind Q (err e) f h next = tt

  pub Keeps-if : (b : Bool) (x y : Result A) → Keeps P x → Keeps P y → Keeps P (if b then x else y)
  Keeps-if true x y h k = h
  Keeps-if false x y h k = k

  pub Keeps-ok : (m : Result A) {a : A} → Keeps P m → m ≡ ok a → P a
  Keeps-ok m {a} h e = subst (λ r. Keeps P r) e h

pub Keeps-mono {ℓ κ κ'} :
    {A : Type ℓ} (P : A → Type κ) (Q : A → Type κ') (m : Result A)
    → Keeps P m
    → ((a : A) → P a → Q a)
    → Keeps Q m
Keeps-mono P Q (ok a) h weaken = weaken a h
Keeps-mono P Q (err e) h weaken = tt

pub Keeps-trivial {ℓ} : {A : Type ℓ} (m : Result A) → Keeps (λ a. Unit {0}) m
Keeps-trivial (ok a) = tt
Keeps-trivial (err e) = tt
