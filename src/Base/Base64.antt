-- ===== src/Base/Base64.antt =====
-- base64.b64encode(data).decode(), and its inverse.
use demos_rework.Base.{ℕ, ◌+◌, ◌-◌, ◌*◌, ◌/◌, ◌%◌, List, [], ◌∷◌, ltb, ◌==◌, if◌then◌else◌}

-- The character of six bits.
unfoldable pub sextet : ℕ → ℕ
sextet n =
    if ltb n 26
    then b'A' + n
    else if ltb n 52
    then b'a' + (n - 26)
    else if ltb n 62
    then b'0' + (n - 52)
    else if n == 62
    then b'+'
    else b'/'

unfoldable pub b64encode : List ℕ → List ℕ
unfolding sextet
b64encode [] = []
b64encode (a ∷ []) = sextet (a / 4) ∷ sextet (a % 4 * 16) ∷ b'=' ∷ b'=' ∷ []
b64encode (a ∷ b ∷ []) =
    sextet (a / 4) ∷ sextet (a % 4 * 16 + b / 16) ∷ sextet (b % 16 * 4) ∷ b'=' ∷ []
b64encode (a ∷ b ∷ c ∷ rest) =
    sextet (a / 4)
    ∷ sextet (a % 4 * 16 + b / 16)
    ∷ sextet (b % 16 * 4 + c / 64)
    ∷ sextet (c % 64)
    ∷ b64encode rest
