-- ===== src/Tests/Access.antt =====
-- The theorems on authentication at a signed request, and at one that is not.
use demos_rework.Base.{ℕ, ◌+◌, ◌*◌, ◌≤◌, ◌≡◌, refl, true, List, [], ◌∷◌, ◌++◌, arith}
use demos_rework.Base.Text.{Text, text, text_eq, upper}
use demos_rework.Models.Config.{lookup}
use demos_rework.Http.{Request, header}
use demos_rework.Store.{use_nonce}
use demos_rework.Store.Nonces.{Use, after_uses, nonce_bound}
use demos_rework.Auth.{Policy, Session, authenticate, canonical, verify}
use demos_rework.Auth.Sound.{IsAdmitted, authenticate_sound}
use demos_rework.Auth.Rate.{rate_bounded, count_recent, log_steps, empty_log}
use demos_rework.Auth.Canonical.{IsPlain, IsPlainRequest, canonical_injective}
use demos_rework.Tests.{zeros, same_hashes, app, one_demo}

abbrev policy : Policy
policy = record { credentials = (app, text "key") ∷ []; max_age_seconds = 300; rate_limit = 30 }

abbrev signed_as : Text → Request
signed_as signature = record {
  method = text "POST";
  path = text "/v1/demos";
  query = [];
  headers =
      (text "x-demos-repository", text "Me/App")
      ∷ (text "x-demos-timestamp", text "1000")
      ∷ (text "x-demos-nonce", text "n1")
      ∷ (text "x-demos-signature", signature)
      ∷ [];
  body = text "{}";
}

abbrev signed : Request
signed = signed_as (text "sha256=" ++ zeros 64)

abbrev session : Session
session = record { windows = []; store = one_demo }

authenticate_sound_example : IsAdmitted same_hashes policy 1100 signed session app
unfolding authenticate verify demos_rework.Auth.credential demos_rework.Models.Config.lookup text_eq
    text demos_rework.Auth.claimed_repository demos_rework.Base.Text.lower header
    demos_rework.Base.Text.lower_char demos_rework.Auth.read_timestamp
    demos_rework.Base.ParseInt.parse_int demos_rework.Auth.compare_digest zeros
    demos_rework.Auth.supplied_signature demos_rework.Auth.remove_prefix
    demos_rework.Base.Text.starts_with demos_rework.Auth.check_rate canonical
    demos_rework.Auth.check_window demos_rework.Auth.drop_old demos_rework.Auth.fingerprint_input
    demos_rework.Auth.join_lines demos_rework.Auth.set_window demos_rework.Auth.spend_nonce
    demos_rework.Auth.window demos_rework.Base.Text.keep_before demos_rework.Base.Text.lstrip
    demos_rework.Base.Text.rstrip demos_rework.Base.Text.strip upper demos_rework.Base.Utf8.encode
    demos_rework.Base.Utf8.encode_char demos_rework.Store.Rows.find_nonce
    demos_rework.Store.Rows.is_nonce demos_rework.Store.Rows.prune use_nonce
authenticate_sound_example = authenticate_sound same_hashes policy 1100 signed session app refl

-- The same request with its method in lower case.
abbrev lower_signed : Request
lower_signed = record signed { method = text "post" }

plain_headers :
    (method : Text) → IsPlain method → IsPlainRequest (record signed { method = method })
unfolding text text_eq lookup header
plain_headers method plain = record {
  method = plain;
  path = ground arith;
  timestamp = (refl, (refl, (refl, (refl, tt))));
  nonce = (refl, (refl, tt));
}

canonical_injective_example :
    (upper signed.method ≡ upper lower_signed.method)
    × (signed.path ≡ lower_signed.path)
    × (header (text "x-demos-timestamp") [] signed
        ≡ header (text "x-demos-timestamp") [] lower_signed)
    × (header (text "x-demos-nonce") [] signed ≡ header (text "x-demos-nonce") [] lower_signed)
    × (signed.body ≡ lower_signed.body)
unfolding text canonical upper header
canonical_injective_example =
    canonical_injective signed lower_signed
      (plain_headers (text "POST") (refl, (refl, (refl, (refl, tt)))))
      (plain_headers (text "post") (refl, (refl, (refl, (refl, tt))))) refl

rate_bounded_example : count_recent 12 (log_steps 2 (10 ∷ 11 ∷ 12 ∷ []) empty_log).passed ≤ 2
rate_bounded_example =
    rate_bounded 2 12 (10 ∷ 11 ∷ []) (omega arith, (omega arith, (omega arith, tt)))

abbrev first_use : Use
first_use = record { repository = app; nonce = text "n1"; fingerprint = text "f1"; now = 1000 }

abbrev other_use : Use
other_use = record first_use { nonce = text "n2"; now = 1500 }

nonce_bound_example :
    (use_nonce app (text "n1") (text "f2") 1600 600 (
      after_uses 600
        (other_use ∷ [])
        (use_nonce app (text "n1") (text "f1") 1000 600 one_demo).1)).0
    ≡ text_eq (text "f1") (text "f2")
unfolding demos_rework.Store.Rows.find_nonce demos_rework.Store.Rows.prune
nonce_bound_example =
    nonce_bound first_use 600 one_demo (other_use ∷ []) (text "f2") 1600 refl (omega arith, tt)
      (omega arith)
