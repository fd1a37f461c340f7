-- ===== src/Common/Results.antt =====
-- Memory reads may fault: `none` stands for a read outside of the array.
use mathlib.Core.Path.{◌≡◌, refl, sym, ◌∙◌, subst}
use mathlib.Core.Bool.{Bool, true, false}
use mathlib.Core.Option.{Option, none, some}
use native.Mathlib.Omega.{arith}
use ledger_hardmail_app.Common.Tests.{if◌then◌else◌}

infixl 5 ◌>>=◌
abbrev pub ◌>>=◌ {ℓ κ} : {A : Type ℓ} {B : Type κ} → Option A → (A → Option B) → Option B
none >>= f = none
some a >>= f = f a

-- A chain that succeeded: each step did.
pub bind-some {ℓ κ} :
    {A : Type ℓ} {B : Type κ} (o : Option A) (f : A → Option B) (b : B)
    → (o >>= f) ≡ some b
    → (a : A) × (o ≡ some a) × (f a ≡ some b)
bind-some none f b h = absurd (ground (arith, h))
bind-some (some a) f b h = (a, refl, h)

pub guard-some {ℓ} :
    {A : Type ℓ} (b : Bool) (x y : A) → (if b then some x else none) ≡ some y → (b ≡ true) × (x ≡ y)
guard-some true x y h = (refl, ground (arith, h))
guard-some false x y h = absurd (ground (arith, h))

pub some_eq {ℓ} : {A : Type ℓ} (x y : A) → some x ≡ some y → x ≡ y
some_eq x y h = ground (arith, h)

-- A test whose first branch is not the result.
pub otherwise {ℓ} :
    {A : Type ℓ} (b : Bool) (x y z : A)
    → (¬ (x ≡ z))
    → (if b then x else y) ≡ z
    → (b ≡ false) × (y ≡ z)
otherwise true x y z other h = absurd (other h)
otherwise false x y z other h = (refl, h)

pub if_true {ℓ} : {A : Type ℓ} (b : Bool) (x y : A) → b ≡ true → (if b then x else y) ≡ x
if_true true x y h = refl
if_true false x y h = absurd (ground (arith, h))

pub if_false {ℓ} : {A : Type ℓ} (b : Bool) (x y : A) → b ≡ false → (if b then x else y) ≡ y
if_false true x y h = absurd (ground (arith, h))
if_false false x y h = refl

-- A computation has one result.
pub one_result {ℓ κ} :
    {A : Type ℓ} (P : A → Type κ) {o : Option A} {x y : A} → o ≡ some x → o ≡ some y → P x → P y
one_result P {o} {x} {y} e k h = subst P (some_eq x y (sym e ∙ k)) h
