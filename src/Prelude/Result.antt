-- ===== src/Prelude/Result.antt =====
-- A call that may throw. `do` blocks over it are by the bind below.
use mathlib.Core.Bool.{Bool, true, false}
use mathlib.Core.Option.{Option, none, some}
use native.Mathlib.Omega.{arith}
use mathlib.Core.Path.{◌≡◌, refl, ap}
use essa_core.Prelude.Tests.{if◌then◌else◌}
use mathlib.Core.Logic.{◌⊎◌, inl, inr}

-- A failed `assert`, `std::overflow_error`, a `std::runtime_error`, a null pointer that is read, or a
-- loop of the model that is given too few rounds.
pub data Error : Type 0 where
  assertion overflow runtime null_pointer unfinished : Error

-- What a call returns, unless it throws.
pub data Result {ℓ} (A : Type ℓ) : Type ℓ where
  throw : Error → Result A
  ok : (value : A) → Result A

module _ {ℓ} {B : Type ℓ} where
  infixl 5 ◌>>=◌
  abbrev pub ◌>>=◌ {κ} : {A : Type κ} → Result A → (A → Result B) → Result B
  throw error >>= next = throw error
  ok value >>= next = next value

  infixl 5 ◌>>◌
  abbrev pub ◌>>◌ : Result (Unit {0}) → Result B → Result B
  throw error >> next = throw error
  ok _ >> next = next

abbrev pub assert : Bool → Result (Unit {0})
assert true = ok tt
assert false = throw assertion

abbrev pub throw_if : Bool → Error → Result (Unit {0})
throw_if true e = throw e
throw_if false e = ok tt

abbrev pub or_throw {ℓ} : {A : Type ℓ} → Option A → Error → Result A
or_throw none e = throw e
or_throw (some a) e = ok a

-- What a pointer points to.
abbrev pub deref {ℓ} : {A : Type ℓ} → Option A → Result A
deref none = throw null_pointer
deref (some a) = ok a

abbrev value_or {ℓ} : {A : Type ℓ} → A → Result A → A
value_or d (throw e) = d
value_or d (ok a) = a

-- A split on the result of a call.
pub Result-cases {ℓ} :
    {A : Type ℓ} (r : Result A) → ((e : Error) × (r ≡ throw e)) ⊎ ((a : A) × (r ≡ ok a))
Result-cases (throw e) = inl (e, refl)
Result-cases (ok a) = inr (a, refl)

pub bind_ok {ℓ κ} :
    {A : Type ℓ} {B : Type κ} (r : Result A) (next : A → Result B) (b : B)
    → (r >>= next) ≡ ok b
    → (a : A) × (r ≡ ok a) × (next a ≡ ok b)
bind_ok (throw e) next b h = absurd (ground (arith, h))
bind_ok (ok a) next b h = (a, refl, h)

-- What comes after a guard that lets a call pass.
pub guard_ok {ℓ} :
    {B : Type ℓ} (g : Result (Unit {0})) (next : Result B) (b : B)
    → (g >> next) ≡ ok b
    → next ≡ ok b
guard_ok (throw e) next b h = absurd (ground (arith, h))
guard_ok (ok _) next b h = h

pub ok_injective {ℓ} : {A : Type ℓ} {a b : A} → ok a ≡ ok b → a ≡ b
ok_injective {a = a} h = ap (value_or a) h

pub deref_ok {ℓ} : {A : Type ℓ} (o : Option A) (a : A) → deref o ≡ ok a → o ≡ some a
deref_ok none a h = absurd (ground (arith, h))
deref_ok (some b) a h = ap some (ok_injective h)

-- A call that cannot throw returns.
pub returns {ℓ} :
    {A : Type ℓ} (r : Result A) → ((e : Error) → r ≡ throw e → true ≡ false) → (a : A) × (r ≡ ok a)
returns (throw e) h = absurd (ground (arith, h e refl))
returns (ok a) h = (a, refl)

-- One of two calls, by a test.
pub either {ℓ} :
    {A : Type ℓ} (P : A → Type 0) (b : Bool) (x y : Result A)
    → (b ≡ true → (a : A) → x ≡ ok a → P a)
    → (b ≡ false → (a : A) → y ≡ ok a → P a)
    → (a : A) → (if b then x else y) ≡ ok a
    → P a
either P true x y f g = f refl
either P false x y f g = g refl
