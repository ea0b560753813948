-- ===== src/Workflow/Signing.antt =====
-- A request that the workflow signs, as the controller receives and verifies it.
use demos_rework.Base.{
  ℕ, ◌≤◌, ◌≡◌, ◌≢◌, ◌<◌, ◌^◌, refl, true, Option, none, some, List, [], ◌∷◌, arith, leb, ltb, all,
  length, All,
}
use demos_rework.Base.Text.{
  Text, text, text_eq, text_eq_refl, lower, lower_char, upper, starts_with,
}
use demos_rework.Base.Decimal.{str, length-str-le}
use demos_rework.Base.Int.{pos, distance}
use demos_rework.Base.ParseInt.{parse_int-str}
use demos_rework.Base.Utf8.{encode}
use demos_rework.Base.Json.{Json, Codec}
use demos_rework.Base.Result.{ok}
use demos_rework.Hashes.{Hashes, is_hex}
use demos_rework.Models.Config.{Dict, lookup}
use demos_rework.Http.{Request, header}
use demos_rework.Auth.{
  Policy, canonical, remove_prefix, compare_digest, credential, supplied_signature,
  claimed_repository, verify,
}
use demos_rework.Auth.Canonical.{read_timestamp_of}
use demos_rework.Workflow.{
  Urls, Call, build_call, request_target, signed_text, target_url, chosen_nonce, body_bytes,
  data_of,
}

lower_names : Dict → Dict
lower_names [] = []
lower_names ((name, v) ∷ d) = (lower name, v) ∷ lower_names d

abbrev bytes_of : Option (List ℕ) → List ℕ
bytes_of none = []
bytes_of (some body) = body

-- The request that arrives: its query is that of the URL, its path is that of the URL with its escapes
-- decoded, which is what the server hands over, and the names of its headers are compared in lower
-- case. `unquote` stands for the server's decoding.
unfoldable pub received : (Text → Text) → Urls → Call → Request
unfolding lower_names
received unquote urls call = record {
  method = call.method;
  path = unquote (urls.path_of call.url);
  query = urls.query_of call.url;
  headers = lower_names call.headers;
  body = bytes_of call.data_;
}

upper_idem : (s : Text) → upper (upper s) ≡ upper s
unfolding upper
upper_idem [] = refl
upper_idem (c ∷ s) = ground (arith, upper_idem s)

hex-ascii : (s : Text) → All (λ c. is_hex c ≡ true) s → all (λ c. ltb c 0x80) s ≡ true
hex-ascii [] h = refl
hex-ascii (c ∷ s) h = ground (arith, hex-ascii s h.1)

compare_digest_self : (s : Text) → All (λ c. is_hex c ≡ true) s → compare_digest s s ≡ ok true
unfolding compare_digest
compare_digest_self s h = rw (hex-ascii s h, text_eq_refl s) refl

credential_known :
    (policy : Policy) (repository key : Text)
    → lookup repository policy.credentials ≡ some key
    → key ≢ []
    → credential policy repository ≡ ok key
unfolding credential
credential_known policy repository [] e filled = absurd (filled refl)
credential_known policy repository (c ∷ key) e filled = rw (e, credential) refl

data_bytes :
    (codec : Codec) (body : Option Json) → bytes_of (data_of codec body) ≡ body_bytes codec body
data_bytes codec none = refl
data_bytes codec (some body) = refl

module _ (h : Hashes) (codec : Codec) (unquote : Text → Text) (urls : Urls) (now : ℕ)
    (fresh api_url method path repository key : Text) (body : Option Json)
    (nonce : Option Text) where
  abbrev arrived : Request
  arrived =
      received unquote urls
        (build_call h codec urls now fresh api_url method path repository key body nonce)

  names_repository : claimed_repository arrived ≡ lower repository
  unfolding claimed_repository header received build_call lookup text text_eq lower lower_char
  names_repository = refl

  abbrev signature : Text
  signature = h.hmac (encode key) (
      signed_text method (request_target urls api_url path) (str now) (chosen_nonce fresh nonce)
        (body_bytes codec body))

  sends_timestamp : header (text "x-demos-timestamp") [] arrived ≡ str now
  unfolding header received build_call lookup text text_eq lower lower_char
  sends_timestamp = refl

  sends_nonce : header (text "x-demos-nonce") [] arrived ≡ chosen_nonce fresh nonce
  unfolding header received build_call lookup text text_eq lower lower_char
  sends_nonce = refl

  sends_signature : supplied_signature arrived ≡ signature
  unfolding supplied_signature header received build_call lookup text text_eq lower lower_char
      remove_prefix starts_with
  sends_signature = refl

  -- Without a query, what is verified is what was signed.
  canonical-signed :
      urls.query_of (target_url api_url path) ≡ []
      → unquote (urls.path_of (target_url api_url path)) ≡ urls.path_of (target_url api_url path)
      → canonical arrived
        ≡ signed_text method
            (request_target urls api_url path)
            (str now)
            (chosen_nonce fresh nonce)
            (body_bytes codec body)
  unfolding canonical request_target signed_text received build_call
  canonical-signed plain unescaped =
      rw (sends_timestamp, sends_nonce, plain, unescaped, upper_idem method, data_bytes codec body)
        refl

  -- A request that the workflow builds passes the controller's tests of its credential, its time and
  -- its signature, where the controller knows the key under the repository's name in lower case,
  -- its clock is within the age limit of the workflow's, whose reading has at most 20 digits, the URL
  -- has no query, and its path has nothing that the server decodes.
  pub build_call-verifies :
      (policy : Policy) (clock : ℕ)
      → lookup (lower repository) policy.credentials ≡ some key
      → key ≢ []
      → distance clock (pos now) ≤ policy.max_age_seconds
      → now < 10 ^ 20
      → urls.query_of (target_url api_url path) ≡ []
      → unquote (urls.path_of (target_url api_url path)) ≡ urls.path_of (target_url api_url path)
      → verify h policy clock arrived ≡ ok tt
  unfolding verify
  build_call-verifies policy clock known filled near soon plain unescaped =
      let short : length (str now) ≤ 4300 = omega (arith, length-str-le 19 now soon) in
      let fresh_enough : leb (distance clock (pos now)) policy.max_age_seconds ≡ true =
        ground arith in
      rw
        (
          names_repository,
          credential_known policy (lower repository) key known filled,
          sends_timestamp,
          read_timestamp_of (str now) (pos now) (parse_int-str now short),
          fresh_enough,
          canonical-signed plain unescaped,
          sends_signature,
          compare_digest_self signature (h.hmac_hex _ _),
        )
        refl
