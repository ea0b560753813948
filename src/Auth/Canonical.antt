-- ===== src/Auth/Canonical.antt =====
-- The signed text determines what is signed of a request: its method up to case, its path, its time,
-- its nonce and its body.
use demos_rework.Base.{
  ℕ, ◌≡◌, refl, sym, ◌∙◌, true, not, ◌&&◌, some, List, [], ◌∷◌, ◌++◌, arith, ltb, ◌==◌, All,
}
use demos_rework.Base.Text.{Text, text, upper}
use demos_rework.Base.Int.{ℤ}
use demos_rework.Base.ParseInt.{parse_int}
use demos_rework.Base.Utf8.{encode}
use demos_rework.Base.Result.{ok}
use demos_rework.Http.{Request, header}
use demos_rework.Auth.{canonical, join_lines, read_timestamp}

-- ASCII without a line feed.
abbrev pub IsPlain : Text → Type 0
IsPlain t = All (λ c. (ltb c 0x80 && not (c == b'\n')) ≡ true) t

encode-plain : (t : Text) → IsPlain t → encode t ≡ t
unfolding encode
encode-plain [] h = refl
encode-plain (c ∷ t) h = ground (arith, encode-plain t h.1)

upper-IsPlain : (t : Text) → IsPlain t → IsPlain (upper t)
unfolding upper
upper-IsPlain [] h = tt
upper-IsPlain (c ∷ t) h = ground (arith, upper-IsPlain t h.1)

line-injective :
    (p q a b : List ℕ) → IsPlain p → IsPlain q → p ++ b'\n' ∷ a ≡ q ++ b'\n' ∷ b → (p ≡ q) × (a ≡ b)
line-injective [] [] a b hp hq e = ground arith
line-injective [] (d ∷ q) a b hp hq e = ground arith
line-injective (c ∷ p) [] a b hp hq e = ground arith
line-injective (c ∷ p) (d ∷ q) a b hp hq e = ground (arith, line-injective p q a b hp.1 hq.1)

-- A request whose signed parts but the body are ASCII without a line feed.
pub record IsPlainRequest (request : Request) : Type 0 where
  pub method : IsPlain request.method
  pub path : IsPlain request.path
  pub timestamp : IsPlain (header (text "x-demos-timestamp") [] request)
  pub nonce : IsPlain (header (text "x-demos-nonce") [] request)

canonical_lines :
    (r : Request)
    → IsPlainRequest r
    → canonical r
      ≡ upper r.method
        ++ b'\n'
          ∷ (r.path
              ++ b'\n'
                ∷ (header (text "x-demos-timestamp") [] r
                    ++ b'\n' ∷ (header (text "x-demos-nonce") [] r ++ b'\n' ∷ r.body)))
unfolding canonical join_lines
canonical_lines r h =
    rw
      (
        encode-plain (upper r.method) (upper-IsPlain r.method h.method),
        encode-plain r.path h.path,
        encode-plain (header (text "x-demos-timestamp") [] r) h.timestamp,
        encode-plain (header (text "x-demos-nonce") [] r) h.nonce,
      )
      refl

-- Two requests over which the same text is signed have the same path, timestamp, nonce and body, and
-- the same method up to case, if the method, the path, the timestamp and the nonce of both are ASCII
-- without a line feed.
pub canonical_injective :
    (r r' : Request)
    → IsPlainRequest r
    → IsPlainRequest r'
    → canonical r ≡ canonical r'
    → (upper r.method ≡ upper r'.method)
      × (r.path ≡ r'.path)
      × (header (text "x-demos-timestamp") [] r ≡ header (text "x-demos-timestamp") [] r')
      × (header (text "x-demos-nonce") [] r ≡ header (text "x-demos-nonce") [] r')
      × (r.body ≡ r'.body)
canonical_injective r r' h h' e =
    let (m, e1) =
      line-injective _ _ _ _ (upper-IsPlain r.method h.method) (upper-IsPlain r'.method h'.method)
        (sym (canonical_lines r h) ∙ e ∙ canonical_lines r' h') in
    let (p, e2) = line-injective _ _ _ _ h.path h'.path e1 in
    let (t, e3) = line-injective _ _ _ _ h.timestamp h'.timestamp e2 in
    let (n, b) = line-injective _ _ _ _ h.nonce h'.nonce e3 in (m, p, t, n, b)

pub read_timestamp_of : (t : Text) (n : ℤ) → parse_int t ≡ some n → read_timestamp t ≡ ok n
unfolding read_timestamp
read_timestamp_of t n h = ground arith
