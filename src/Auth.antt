-- ===== src/Auth.antt =====
-- src/demo_controller/auth.py: HMAC authentication with a rate limit and replay protection. The
-- clock is an argument; the method returns its result, or what it raises, beside the new state.
pub mod Rate
pub mod Sound
pub mod Canonical
use demos_rework.Base.{
  ℕ, ◌+◌, ◌*◌, Bool, true, false, not, ◌&&◌, Option, none, some, List, [], ◌∷◌, ◌++◌, ltb, leb,
  if◌then◌else◌, length, all, drop,
}
use demos_rework.Base.Text.{Text, text, text_eq, lower, upper, starts_with}
use demos_rework.Base.Int.{ℤ, distance}
use demos_rework.Base.ParseInt.{parse_int}
use demos_rework.Base.Utf8.{encode}
use demos_rework.Base.Result.{Error, Result, ok, raise, http, type_error, ◌>>=◌, ◌>>◌}
use demos_rework.Hashes.{Hashes}
use demos_rework.Models.Config.{Dict, lookup}
use demos_rework.Http.{Request, header}
use demos_rework.Store.{Store, use_nonce}

-- The fields of Authenticator that stay as they are.
pub record Policy : Type 0 where
  pub credentials : Dict
  pub max_age_seconds : ℕ
  pub rate_limit : ℕ

-- d[k] = v
unfoldable pub insert : Text → Text → Dict → Dict
insert k v [] = (k, v) ∷ []
insert k v ((j, w) ∷ d) = if text_eq j k then (k, v) ∷ d else (j, w) ∷ insert k v d

-- {repository.lower(): key for repository, key in credentials.items()}
unfoldable pub lower_keys : Dict → Dict → Dict
lower_keys d [] = d
lower_keys d ((repository, key) ∷ rest) = lower_keys (insert (lower repository) key d) rest

-- Authenticator.__init__
unfoldable pub authenticator : Dict → ℕ → ℕ → Policy
authenticator credentials max_age rate_limit = record {
  credentials = lower_keys [] credentials;
  max_age_seconds = max_age;
  rate_limit = rate_limit;
}

-- The times of the requests of each repository, oldest first.
abbrev pub Windows : Type 0
Windows = List (Text × List ℕ)

pub record Session : Type 0 where
  pub windows : Windows
  pub store : Store

unfoldable pub window : Text → Windows → List ℕ
window repository [] = []
window repository ((r, q) ∷ ws) = if text_eq r repository then q else window repository ws

unfoldable pub set_window : Text → List ℕ → Windows → Windows
set_window repository q [] = (repository, q) ∷ []
set_window repository q ((r, p) ∷ ws) =
    if text_eq r repository then (repository, q) ∷ ws else (r, p) ∷ set_window repository q ws

-- while requests and requests[0] <= now - 60: requests.popleft()
unfoldable pub drop_old : ℕ → List ℕ → List ℕ
drop_old now [] = []
drop_old now (t ∷ q) = let rest = drop_old now q in if leb (t + 60) now then rest else t ∷ q

-- _check_rate on one deque: whether the request passes, and the deque that is left.
unfoldable pub check_window : ℕ → ℕ → List ℕ → Bool × List ℕ
check_window limit now q =
    let recent = drop_old now q in
    if leb limit (length recent) then (false, recent) else (true, recent ++ now ∷ [])

-- b"\n".join(parts)
unfoldable pub join_lines : List (List ℕ) → List ℕ
join_lines [] = []
join_lines (p ∷ []) = p
join_lines (p ∷ q ∷ rest) = p ++ b'\n' ∷ join_lines (q ∷ rest)

-- What a request is signed over.
unfoldable pub canonical : Request → List ℕ
canonical request = join_lines (
    encode (upper request.method)
    ∷ encode request.path
    ∷ encode (header (text "x-demos-timestamp") [] request)
    ∷ encode (header (text "x-demos-nonce") [] request)
    ∷ request.body
    ∷ [])

-- What tells one use of a nonce from another.
unfoldable pub fingerprint_input : Text → Request → List ℕ
fingerprint_input repository request = join_lines (
    encode repository
    ∷ encode (upper request.method)
    ∷ encode request.path
    ∷ encode (header (text "x-demos-nonce") [] request)
    ∷ request.body
    ∷ [])

-- s.removeprefix(p)
unfoldable pub remove_prefix : Text → Text → Text
remove_prefix p s = if starts_with p s then drop (length p) s else s

-- hmac.compare_digest of two texts: a TypeError unless both are ASCII.
unfoldable pub compare_digest : Text → Text → Result Bool
compare_digest a b =
    if all (λ c. ltb c 0x80) a && all (λ c. ltb c 0x80) b
    then ok (text_eq a b)
    else raise type_error

abbrev pub unauthorized {ℓ} : {A : Type ℓ} → Text → Result A
unauthorized detail = raise (http 401 detail)

-- self.credentials.get(repository), refused if it is missing or empty
unfoldable pub credential : Policy → Text → Result Text
credential policy repository = elim (lookup repository policy.credentials) [
  | none ↦ unauthorized (text "unknown repository credential")
  | some [] ↦ unauthorized (text "unknown repository credential")
  | some (c ∷ k) ↦ ok (c ∷ k)
]

unfoldable pub read_timestamp : Text → Result ℤ
read_timestamp t = elim (parse_int t) [
  | none ↦ unauthorized (text "invalid signature timestamp")
  | some n ↦ ok n
]

abbrev pub require : Bool → Error → Result (Unit {0})
require true e = ok tt
require false e = raise e

unfoldable pub supplied_signature : Request → Text
supplied_signature request =
    remove_prefix (text "sha256=") (header (text "x-demos-signature") [] request)

unfoldable pub claimed_repository : Request → Text
claimed_repository request = lower (header (text "x-demos-repository") [] request)

-- authenticate, up to the test of the signature: what reads no state.
unfoldable pub verify : Hashes → Policy → ℕ → Request → Result (Unit {0})
verify h policy now request = do
  key ← credential policy (claimed_repository request)
  timestamp ← read_timestamp (header (text "x-demos-timestamp") [] request)
  require (leb (distance now timestamp) policy.max_age_seconds) (http 401 (text "stale signature"))
  same ← compare_digest (h.hmac (encode key) (canonical request)) (supplied_signature request)
  require same (http 401 (text "invalid signature"))

-- _check_rate
unfoldable pub check_rate : Policy → Text → ℕ → Session → Bool × Session
unfolding check_window
check_rate policy repository now session =
    let (passes, q) = check_window policy.rate_limit now (window repository session.windows) in
    (passes, record session { windows = set_window repository q session.windows })

abbrev pub is_empty : Text → Bool
is_empty [] = true
is_empty (_ ∷ _) = false

-- authenticate, behind the rate limit: the use of the nonce.
unfoldable pub spend_nonce : Hashes → Policy → ℕ → Request → Session → Result Text × Session
spend_nonce h policy now request session =
    let repository = claimed_repository request in
    let nonce = header (text "x-demos-nonce") [] request in
    let fingerprint = h.sha256 (fingerprint_input repository request) in
    let (fresh, store) =
      use_nonce repository nonce fingerprint now (policy.max_age_seconds * 2) session.store in
    if is_empty nonce
    then (raise (http 409 (text "replayed delivery")), session)
    else if fresh
    then (ok repository, record session { store = store })
    else (raise (http 409 (text "replayed delivery")), record session { store = store })

abbrev pub within_rate : Hashes → Policy → ℕ → Request → Bool × Session → Result Text × Session
within_rate h policy now request (true, session) = spend_nonce h policy now request session
within_rate h policy now request (false, session) =
    (raise (http 429 (text "rate limit exceeded")), session)

-- authenticate
unfoldable pub authenticate : Hashes → Policy → ℕ → Request → Session → Result Text × Session
authenticate h policy now request session = elim (verify h policy now request) [
  | raise e ↦ (raise e, session)
  | ok _ ↦
      within_rate h policy now request (check_rate policy (claimed_repository request) now session)
]

-- request_hash
unfoldable pub request_hash : Hashes → List ℕ → Text
request_hash h body = h.sha256 body
