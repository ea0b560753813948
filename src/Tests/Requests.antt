-- ===== src/Tests/Requests.antt =====
-- The theorems on the handlers, at a signed deployment and at a visitor's request.
use demos_rework.Base.{
  ◌↔◌, All, ℕ, ◌≡◌, ◌≢◌, refl, Bool, true, false, Option, none, some, List, [], ◌∷◌, ◌++◌, ◌+◌,
}
use demos_rework.Base.Text.{Text, text, text_eq, lower, lower_char}
use demos_rework.Base.Int.{pos}
use demos_rework.Base.Decimal.{str}
use demos_rework.Http.{Request, header}
use demos_rework.Models.Config.{lookup}
use demos_rework.Models.{RawDeploy, RawDestroy, DeployRequest}
use demos_rework.Store.{Store, upsert_deploy, new_deploy}
use demos_rework.Store.Rows.{DemoRecord, DemoState}
use demos_rework.Store.Fields.{get, DemoStatus, status}
use demos_rework.Auth.{Policy, Session, claimed_repository}
use demos_rework.Auth.Sound.{IsAdmitted}
use demos_rework.Api.{Service, post_deploy, post_destroy}
use demos_rework.Api.Guards.{IsAuthorized}
use demos_rework.Api.Rights.{post_keeps_others}
use demos_rework.Api.Accepted.{IsWritten, post_deploy_accepted, post_deploy_refused}
use demos_rework.Api.Visit.{Sender, gives}
use demos_rework.Api.Response.{Answer}
use demos_rework.Store.Rows.{failed}
use demos_rework.Reconciler.{fine, unknown}
use demos_rework.Api.Status.{same_state, controller_status, controller_status_ok}
use demos_rework.Tests.{zeros, same_hashes, app, ready_demo, no_demos}

abbrev pub image : Text
image = text "ghcr.io/me/app@sha256:" ++ zeros 64

abbrev pub payload : DeployRequest
payload = record {
  repository = app;
  pr = 7;
  commit_sha = text "0123456789abcdef0123456789abcdef01234567";
  image = image;
  delivery_id = text "delivery-1";
}

abbrev pub raw : RawDeploy
raw = record {
  repository = app;
  pr = pos 7;
  commit_sha = payload.commit_sha;
  image = image;
  delivery_id = payload.delivery_id;
}

-- A controller that reads one body.
abbrev pub controller : (List ℕ → Option RawDeploy) → Service
controller read = record {
  policy = record { credentials = (app, text "key") ∷ []; max_age_seconds = 300; rate_limit = 30 };
  request_max_bytes = 1000;
  image_registry = text "ghcr.io";
  hostname_suffix = text "demos";
  namespace = text "apps";
  read_deploy = read;
  read_destroy = λ body. none;
}

abbrev pub reads_one : List ℕ → Option RawDeploy
reads_one body = some raw

abbrev reads_none : List ℕ → Option RawDeploy
reads_none body = none

abbrev pub signed : Request
signed = record {
  method = text "POST";
  path = text "/api/v1/deploy";
  query = [];
  headers =
      (text "x-demos-repository", text "Me/App")
      ∷ (text "x-demos-timestamp", text "1000")
      ∷ (text "x-demos-nonce", text "delivery-1")
      ∷ (text "x-demos-signature", zeros 64)
      ∷ [];
  body = text "{}";
}

abbrev session : Session
session = record { windows = []; store = no_demos }

abbrev shown : DemoStatus
shown = record {
  repository = app;
  pr = 7;
  commit_sha = some payload.commit_sha;
  image = some image;
  hostname = text "app-pr-7.demos";
  state = DemoState.pending;
  vault_version = none;
  message = text "deployment accepted";
  updated_at = 1101;
}

foreign : text "you/app" ≢ claimed_repository signed
unfolding text claimed_repository header lookup text_eq lower lower_char
foreign e = cc

post_keeps_others_example :
    (get
        (text "you/app")
        7
        (post_deploy same_hashes (controller reads_one) 1100 1101 signed session).1.store
      ≡ get (text "you/app") 7 no_demos)
    × (get
          (text "you/app")
          7
          (post_destroy same_hashes (controller reads_one) 1100 1101 signed session).1.store
        ≡ get (text "you/app") 7 no_demos)
post_keeps_others_example =
    post_keeps_others same_hashes (controller reads_one) 1100 1101 signed session (text "you/app") 7
      foreign

post_deploy_accepted_example :
    (p : DeployRequest) × IsAdmitted same_hashes
      (controller reads_one).policy
      1100
      signed
      session
      (claimed_repository signed)
    × IsAuthorized (controller reads_one) signed (claimed_repository signed) p
    × IsWritten p
        (post_deploy same_hashes (controller reads_one) 1100 1101 signed session).1.store
        shown
unfolding post_deploy demos_rework.Api.body_limit demos_rework.Base.Text.text_eq text
    demos_rework.Models.Config.lookup demos_rework.Auth.authenticate demos_rework.Auth.verify
    demos_rework.Auth.credential claimed_repository lower demos_rework.Http.header
    demos_rework.Base.Text.lower_char demos_rework.Auth.read_timestamp
    demos_rework.Base.ParseInt.parse_int demos_rework.Auth.compare_digest zeros
    demos_rework.Auth.supplied_signature demos_rework.Auth.remove_prefix
    demos_rework.Api.admit_deploy demos_rework.Api.declared_length demos_rework.Api.deploy
    demos_rework.Api.is_limited demos_rework.Api.nonce_is demos_rework.Api.serve
    demos_rework.Auth.canonical demos_rework.Auth.check_rate demos_rework.Auth.check_window
    demos_rework.Auth.drop_old demos_rework.Auth.fingerprint_input demos_rework.Auth.join_lines
    demos_rework.Auth.request_hash demos_rework.Auth.set_window demos_rework.Auth.spend_nonce
    demos_rework.Auth.window str demos_rework.Base.Text.keep_before demos_rework.Base.Text.lstrip
    demos_rework.Base.Text.rstrip demos_rework.Base.Text.starts_with demos_rework.Base.Text.strip
    demos_rework.Base.Text.upper demos_rework.Base.Utf8.encode demos_rework.Base.Utf8.encode_char
    demos_rework.Models.Patterns.behind demos_rework.Models.Patterns.delivery_re
    demos_rework.Models.Patterns.group_repo demos_rework.Models.Patterns.image_re
    demos_rework.Models.Patterns.registry_re demos_rework.Models.Patterns.repo_re
    demos_rework.Models.Patterns.repository_re demos_rework.Models.Patterns.sha_re
    demos_rework.Models.Patterns.until demos_rework.Models.bounded demos_rework.Models.image_matches
    demos_rework.Models.validate_delivery_id demos_rework.Models.validate_deploy
    demos_rework.Models.validate_repository demos_rework.Models.validate_sha
    demos_rework.Naming.Slug.after_last demos_rework.Naming.Slug.collapse
    demos_rework.Naming.Slug.slug demos_rework.Naming.hostname demos_rework.Naming.hostname_label
    demos_rework.Regex.deriv demos_rework.Regex.fullmatch demos_rework.Regex.nullable
    demos_rework.Regex.or_ demos_rework.Regex.or_right demos_rework.Regex.then_ status
    demos_rework.Store.Rows.amend demos_rework.Store.Rows.find demos_rework.Store.Rows.find_nonce
    demos_rework.Store.Rows.is_demo demos_rework.Store.Rows.is_nonce demos_rework.Store.Rows.prune
    new_deploy demos_rework.Store.redeploy upsert_deploy demos_rework.Store.use_nonce
    demos_rework.Store.write_deploy
post_deploy_accepted_example =
    post_deploy_accepted same_hashes (controller reads_one) 1100 1101 signed session shown refl

post_deploy_refused_example :
    (post_deploy same_hashes (controller reads_none) 1100 1101 signed session).1.store.demos ≡ []
post_deploy_refused_example =
    post_deploy_refused same_hashes (controller reads_none) 1100 1101 signed session unread
  where
    unread :
        (p : DeployRequest)
        → ¬ IsAuthorized (controller reads_none) signed (claimed_repository signed) p
    unread p authorized = cc authorized.read

abbrev get_page : Request
get_page = record {
  method = text "GET";
  path = text "/x";
  query = text "a=1";
  headers = (text "host", text "App-PR-7.demos.:443") ∷ (text "connection", text "close") ∷ [];
  body = [];
}

abbrev answer : Answer
answer = record {
  status = 200;
  headers =
      (text "Set-Cookie", text "a=1")
      ∷ (text "Content-Length", text "99")
      ∷ (text "Set-Cookie", text "b=2")
      ∷ [];
  content = text "hello";
}

-- A client that builds and answers each request, and counts them.
abbrev sender : Sender
sender = record { World = ℕ; builds = λ u. true; send = λ u n. (gives answer, n + 1) }

controller_status_ok_example :
    ((controller_status true (some 5) (fine 4) unknown (some (ready_demo ∷ []))).code ≡ 200) ↔ (
      (true ≡ true)
      × (true ≡ true)
      × All (λ r. same_state r.state failed ≡ false) (ready_demo ∷ [])
      × (false ≡ false)
      × (false ≡ false))
controller_status_ok_example =
    controller_status_ok true (some 5) (fine 4) unknown (some (ready_demo ∷ []))
