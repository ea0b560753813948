-- ===== src/Base/Maybe.antt =====
-- Chains of steps that may fail without saying why.
use demos_rework.Base.{◌≡◌, refl, Bool, true, false, Option, none, some}

infixl 5 ◌>>=◌ ◌>>◌
abbrev pub ◌>>=◌ {ℓ κ} : {A : Type ℓ} {B : Type κ} → Option A → (A → Option B) → Option B
none >>= f = none
some a >>= f = f a

abbrev pub ◌>>◌ {ℓ} : {B : Type ℓ} → Option (Unit {0}) → Option B → Option B
m >> k = m >>= λ _. k

abbrev pub check : Bool → Option (Unit {0})
check true = some tt
check false = none

pub >>=-eq-some {ℓ κ} :
    {A : Type ℓ} {B : Type κ} (m : Option A) (f : A → Option B) {b : B}
    → (m >>= f) ≡ some b
    → (a : A) × (m ≡ some a) × (f a ≡ some b)
>>=-eq-some none f h = cc
>>=-eq-some (some a) f h = (a, refl, h)

pub check-eq-some {ℓ} :
    {B : Type ℓ} (t : Bool) (k : Option B) {b : B}
    → (check t >>= λ _. k) ≡ some b
    → (t ≡ true) × (k ≡ some b)
check-eq-some true k h = (refl, h)
check-eq-some false k h = cc

pub some-eq {ℓ} : {A : Type ℓ} {a b : A} → some a ≡ some b → a ≡ b
some-eq h = cc
