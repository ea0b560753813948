-- ===== src/Hashes.antt =====
-- hashlib.sha256 and hmac.new(…, hashlib.sha256), of the platform's cryptography. Both are
-- parameters: no theorem rests on more than the shape of a hex digest.
use demos_rework.Base.{ℕ, ◌≡◌, Bool, true, ◌&&◌, ◌||◌, leb, length, All}
use demos_rework.Base.Text.{Text, is_digit}

-- A lowercase hexadecimal digit.
abbrev pub is_hex : ℕ → Bool
is_hex c = is_digit c || (leb b'a' c && leb c b'f')

pub record Hashes : Type 0 where
  -- hashlib.sha256(data).hexdigest()
  pub sha256 : Text → Text
  -- hmac.new(key, data, hashlib.sha256).hexdigest()
  pub hmac : Text → Text → Text
  -- A digest is 64 lowercase hexadecimal digits.
  pub sha256_length : (m : Text) → length (sha256 m) ≡ 64
  pub sha256_hex : (m : Text) → All (λ c. is_hex c ≡ true) (sha256 m)
  pub hmac_length : (k m : Text) → length (hmac k m) ≡ 64
  pub hmac_hex : (k m : Text) → All (λ c. is_hex c ≡ true) (hmac k m)
