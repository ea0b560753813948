-- ===== src/Base/Result.antt =====
-- Python's exceptions as values. The constructors are the exceptions that the modelled code raises
-- or lets through; a text is the message, where the program reads it again.
use demos_rework.Base.{ℕ, ◌≡◌, refl}
use demos_rework.Base.Text.{Text}

pub data Error : Type 0 where
  value_error : Text → Error
  type_error : Error
  index_error : Error
  -- an exception of a library that no handler catches, which is answered by status 500
  uncaught : Error
  -- HTTPException(status, detail)
  http : ℕ → Text → Error

pub data Result {ℓ} (V : Type ℓ) : Type ℓ where
  raise : Error → Result V
  ok : V → Result V

infixl 5 ◌>>=◌ ◌>>◌
abbrev pub ◌>>=◌ {κ ℓ} : {W : Type κ} {V : Type ℓ} → Result W → (W → Result V) → Result V
raise error >>= rest = raise error
ok value >>= rest = rest value

-- What is returned comes from a value that the first part returned.
pub >>=-eq-ok {κ ℓ} :
    {W : Type κ} {V : Type ℓ} (first : Result W) (rest : W → Result V) {v : V}
    → (first >>= rest) ≡ ok v
    → (w : W) × (first ≡ ok w) × (rest w ≡ ok v)
>>=-eq-ok (raise error) rest h = cc
>>=-eq-ok (ok value) rest h = (value, refl, h)

abbrev pub ◌>>◌ {ℓ} : {V : Type ℓ} → Result (Unit {0}) → Result V → Result V
test >> rest = test >>= λ _. rest
