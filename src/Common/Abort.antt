-- ===== src/Common/Abort.antt =====
-- Code that may stop at a failed assertion, a null pointer or a read out of range: `none` is the stop.
use mathlib.Core.Bool.{Bool, true, false}
use mathlib.Core.Option.{Option, none, some}
use mathlib.Core.Path.{◌≡◌, refl}
use mathlib.Core.Logic.{◌⊎◌, inl, inr}

infixl 5 ◌>>=◌ ◌>>◌
abbrev pub ◌>>=◌ {ℓ κ} : {A : Type ℓ} {B : Type κ} → Option A → (A → Option B) → Option B
none >>= f = none
some a >>= f = f a

abbrev pub ◌>>◌ {ℓ} : {B : Type ℓ} → Option (Unit {0}) → Option B → Option B
m >> k = m >>= λ _. k

-- `assert(b)`
abbrev pub check : Bool → Option (Unit {0})
check true = some tt
check false = none

pub Option-cases {ℓ} : {A : Type ℓ} (o : Option A) → (o ≡ none) ⊎ ((a : A) × (o ≡ some a))
Option-cases none = inl refl
Option-cases (some a) = inr (a, refl)

-- A chain that gives a result has one from its first step.
pub bind-some :
    {A B : Type 0} (o : Option A) (k : A → Option B) (b : B)
    → (o >>= k) ≡ some b
    → (a : A) × (o ≡ some a) × (k a ≡ some b)
bind-some none k b e = absurd (cc)
bind-some (some a) k b e = (a, refl, e)
