-- ===== src/Auth/Sound.antt =====
-- What the controller knows of a request that passes authentication, and what a request that does
-- not can change.
use demos_rework.Base.{
  ℕ, ◌*◌, ◌≤◌, ◌≡◌, ◌≢◌, refl, ap, ◌∙◌, Bool, true, false, some, [], ◌∷◌, arith, leb, Option-cases,
  inl, inr,
}
use demos_rework.Base.Text.{Text, text, text_eq_iff}
use demos_rework.Base.Int.{ℤ, distance}
use demos_rework.Base.ParseInt.{parse_int}
use demos_rework.Base.Utf8.{encode}
use demos_rework.Base.Result.{Error, ok, raise, http, >>=-eq-ok}
use demos_rework.Hashes.{Hashes}
use demos_rework.Models.Config.{lookup}
use demos_rework.Http.{Request, header}
use demos_rework.Store.{use_nonce}
use demos_rework.Auth.{
  Policy, Session, canonical, fingerprint_input, compare_digest, credential, read_timestamp,
  require, supplied_signature, claimed_repository, verify, check_rate, spend_nonce, authenticate,
  is_empty, unauthorized,
}

-- The request is signed with the key of the repository that it names, close to the present.
pub record IsSigned (h : Hashes) (policy : Policy) (now : ℕ) (request : Request) : Type 0 where
  pub key : Text
  pub timestamp : ℤ
  pub known : lookup (claimed_repository request) policy.credentials ≡ some key
  pub not_empty : key ≢ []
  pub read : parse_int (header (text "x-demos-timestamp") [] request) ≡ some timestamp
  pub fresh : distance now timestamp ≤ policy.max_age_seconds
  pub signature : h.hmac (encode key) (canonical request) ≡ supplied_signature request

credential_sound :
    (policy : Policy) (repository key : Text)
    → credential policy repository ≡ ok key
    → (lookup repository policy.credentials ≡ some key) × (key ≢ [])
unfolding credential
credential_sound policy repository key h =
    elim (Option-cases (lookup repository policy.credentials)) [
      | inl e ↦ cc (rw (e, credential) at h)
      | inr (found, e) ↦ rw e (from found (rw (e, credential) at h))
    ]
  where
    from :
        (found : Text)
        → (elim found [
          | [] ↦ unauthorized (text "unknown repository credential")
          | c ∷ k ↦ ok (c ∷ k)
        ])
          ≡ ok key
        → (some found ≡ some key) × (key ≢ [])
    from [] h = cc
    from (c ∷ k) h = (cc, λ e. cc)

leb-le : (a b : ℕ) → leb a b ≡ true → a ≤ b
leb-le a b h = ground arith

read_timestamp_sound : (t : Text) (n : ℤ) → read_timestamp t ≡ ok n → parse_int t ≡ some n
unfolding read_timestamp
read_timestamp_sound t n h = ground arith

require_sound : (b : Bool) (e : Error) → require b e ≡ ok tt → b ≡ true
require_sound true e h = refl
require_sound false e h = cc

compare_digest_sound : (a b : Text) → compare_digest a b ≡ ok true → a ≡ b
unfolding compare_digest
compare_digest_sound a b h = ground (arith, text_eq_iff a b)

verify_sound :
    (h : Hashes) (policy : Policy) (now : ℕ) (request : Request)
    → verify h policy now request ≡ ok tt
    → IsSigned h policy now request
unfolding verify
verify_sound h policy now request e =
    let repository = claimed_repository request in
    let t = header (text "x-demos-timestamp") [] request in
    let (key, hk, e1) = >>=-eq-ok (credential policy repository) _ e in
    let (timestamp, ht, e2) = >>=-eq-ok (read_timestamp t) _ e1 in
    let fresh = leb (distance now timestamp) policy.max_age_seconds in
    let (_, hf, e3) = >>=-eq-ok (require fresh (http 401 (text "stale signature"))) _ e2 in
    let expected = h.hmac (encode key) (canonical request) in
    let (same, hs, e4) = >>=-eq-ok (compare_digest expected (supplied_signature request)) _ e3 in
    let matches : same ≡ true = require_sound same (http 401 (text "invalid signature")) e4 in
    let (known, not_empty) = credential_sound policy repository key hk in
    record {
      key = key;
      timestamp = timestamp;
      known = known;
      not_empty = not_empty;
      read = read_timestamp_sound t timestamp ht;
      fresh = leb-le _ _ (require_sound fresh _ hf);
      signature = compare_digest_sound expected (supplied_signature request) (hs ∙ ap ok matches);
    }

verified_of_ok :
    (h : Hashes) (policy : Policy) (now : ℕ) (request : Request) (session : Session)
    (repository : Text)
    → (authenticate h policy now request session).0 ≡ ok repository
    → (verify h policy now request ≡ ok tt)
      × ((check_rate policy (claimed_repository request) now session).0 ≡ true)
      × ((spend_nonce h policy now request
            (check_rate policy (claimed_repository request) now session).1).0
          ≡ ok repository)
unfolding authenticate
verified_of_ok h policy now request session repository e = ground arith

not_empty : (t : Text) → is_empty t ≡ false → t ≢ []
not_empty [] h = cc
not_empty (c ∷ t) h = λ e. cc

-- The nonce is spent on the store of the session before the rate was counted.
spend_sound :
    (h : Hashes) (policy : Policy) (now : ℕ) (request : Request) (session : Session)
    (repository : Text)
    → (spend_nonce h policy now request
        (check_rate policy (claimed_repository request) now session).1).0
      ≡ ok repository
    → (repository ≡ claimed_repository request)
      × (is_empty (header (text "x-demos-nonce") [] request) ≡ false)
      × ((use_nonce
            (claimed_repository request)
            (header (text "x-demos-nonce") [] request)
            (h.sha256 (fingerprint_input (claimed_repository request) request))
            now
            (policy.max_age_seconds * 2)
            session.store).0
          ≡ true)
unfolding spend_nonce check_rate
spend_sound h policy now request session repository e = ground arith

-- A request that was let in.
pub record IsAdmitted (h : Hashes) (policy : Policy) (now : ℕ) (request : Request)
    (session : Session) (repository : Text) : Type 0 where
  pub named : repository ≡ claimed_repository request
  pub signed : IsSigned h policy now request
  pub in_rate : (check_rate policy (claimed_repository request) now session).0 ≡ true
  pub has_nonce : header (text "x-demos-nonce") [] request ≢ []
  pub nonce_free :
      (use_nonce
        (claimed_repository request)
        (header (text "x-demos-nonce") [] request)
        (h.sha256 (fingerprint_input (claimed_repository request) request))
        now
        (policy.max_age_seconds * 2)
        session.store).0
      ≡ true

-- A request passes only if it is signed, within the age limit, with the key of the repository that
-- it names, the repository has room in its rate, and its nonce is new or used for the same request;
-- what comes back is the repository, in lower case.
pub authenticate_sound :
    (h : Hashes) (policy : Policy) (now : ℕ) (request : Request) (session : Session)
    (repository : Text)
    → (authenticate h policy now request session).0 ≡ ok repository
    → IsAdmitted h policy now request session repository
authenticate_sound h policy now request session repository e =
    let (verified, in_rate, spent) = verified_of_ok h policy now request session repository e in
    let (named, nonce, free) = spend_sound h policy now request session repository spent in
    record {
      named = named;
      signed = verify_sound h policy now request verified;
      in_rate = in_rate;
      has_nonce = not_empty (header (text "x-demos-nonce") [] request) nonce;
      nonce_free = free;
    }

-- A request that is refused with 401 leaves the rate windows and the nonces as they were.
pub unauthorized_unchanged :
    (h : Hashes) (policy : Policy) (now : ℕ) (request : Request) (session : Session) (detail : Text)
    → (authenticate h policy now request session).0 ≡ raise (http 401 detail)
    → (authenticate h policy now request session).1 ≡ session
unfolding authenticate spend_nonce
unauthorized_unchanged h policy now request session detail e = ground arith
