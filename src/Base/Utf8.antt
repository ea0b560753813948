-- ===== src/Base/Utf8.antt =====
-- Python's str.encode(): the UTF-8 bytes of a text. Surrogates, which it refuses, do not occur.
use demos_rework.Base.{ℕ, ◌+◌, ◌/◌, ◌%◌, List, [], ◌∷◌, ◌++◌, ltb, if◌then◌else◌}
use demos_rework.Base.Text.{Text}

unfoldable pub encode_char : ℕ → List ℕ
encode_char c =
    if ltb c 0x80
    then c ∷ []
    else if ltb c 0x800
    then (0xc0 + c / 64) ∷ (0x80 + c % 64) ∷ []
    else if ltb c 0x10000
    then (0xe0 + c / 4096) ∷ (0x80 + c / 64 % 64) ∷ (0x80 + c % 64) ∷ []
    else (0xf0 + c / 262144) ∷ (0x80 + c / 4096 % 64) ∷ (0x80 + c / 64 % 64) ∷ (0x80 + c % 64) ∷ []

unfoldable pub encode : Text → List ℕ
unfolding encode_char
encode [] = []
encode (c ∷ s) = encode_char c ++ encode s
