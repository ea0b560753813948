-- ===== src/Tests/Desired.antt =====
-- The theorems on the store at one demo, and on the requests that reach it.
use demos_rework.Base.{
  ℕ, ◌≡◌, ◌≢◌, ◌↔◌, refl, true, false, none, some, List, [], ◌∷◌, ◌++◌, arith, if◌then◌else◌,
}
use demos_rework.Base.Int.{pos}
use demos_rework.Base.Text.{Text, text}
use demos_rework.Base.Result.{ok}
use demos_rework.Models.{RawDeploy, DeployRequest, validate_deploy, image_matches}
use demos_rework.Models.Image.{IsPinned, image_matches_iff}
use demos_rework.Models.Deploy.{IsAccepted, validate_deploy_sound}
use demos_rework.Models.Config.{RawConfig, validate_project}
use demos_rework.Models.Project.{IsAcceptedConfig, validate_project_sound}
use demos_rework.Store.{Store, upsert_deploy, request_destroy, redeploy}
use demos_rework.Store.Rows.{DemoRecord, failed, deleting}
use demos_rework.Store.Keys.{same_key}
use demos_rework.Store.Fields.{get, get_ready_by_hostname, update_state}
use demos_rework.Store.Deploy.{
  deploy_reply, deploy_row, upsert_deploy_refines, upsert_deploy_idempotent,
}
use demos_rework.Store.Destroy.{reply_after, row_after, request_destroy_refines}
use demos_rework.Store.Serving.{route_retained}
use demos_rework.Tests.{zeros, app, config, second_request, ready_demo, one_demo}

abbrev again : DemoRecord
again = redeploy 500 second_request (text "h2") ready_demo

upsert_deploy_refines_example :
    ((upsert_deploy 500 second_request (text "h2") one_demo).0
      ≡ deploy_reply 500 second_request (text "h2") (get app 7 one_demo))
    × ((b : Text) (q : ℕ)
        → get b q (upsert_deploy 500 second_request (text "h2") one_demo).1 ≡ (
            if same_key app 7 b q
            then some (deploy_row 500 second_request (text "h2") (get app 7 one_demo))
            else get b q one_demo))
upsert_deploy_refines_example = upsert_deploy_refines 500 second_request (text "h2") one_demo

upsert_deploy_idempotent_example :
    upsert_deploy 900 second_request
      (text "h2")
      (upsert_deploy 500 second_request (text "h2") one_demo).1
    ≡ (ok (again, false), (upsert_deploy 500 second_request (text "h2") one_demo).1)
unfolding upsert_deploy demos_rework.Store.Rows.find demos_rework.Store.Rows.is_demo
    demos_rework.Base.Text.text_eq text demos_rework.Store.write_deploy
    demos_rework.Store.Rows.amend
upsert_deploy_idempotent_example =
    upsert_deploy_idempotent 500 900 second_request (text "h2") one_demo again true refl

request_destroy_refines_example :
    ((request_destroy 500 app 7 (text "d2") (text "h2") one_demo).0
      ≡ reply_after 500 app 7 (text "d2") (text "h2") (get app 7 one_demo))
    × ((b : Text) (q : ℕ)
        → get b q (request_destroy 500 app 7 (text "d2") (text "h2") one_demo).1 ≡ (
            if same_key app 7 b q
            then some (row_after 500 app 7 (text "d2") (text "h2") (get app 7 one_demo))
            else get b q one_demo))
request_destroy_refines_example = request_destroy_refines 500 app 7 (text "d2") (text "h2") one_demo

abbrev host : Text
host = text "app-pr-7.demos"

route_retained_example :
    (r' : DemoRecord) × (get_ready_by_hostname host
        (update_state 600 app 7 failed (text "no") none none one_demo)
      ≡ ok (some r'))
    × (r'.repository ≡ app)
    × (r'.pr ≡ 7)
unfolding get_ready_by_hostname demos_rework.Store.Fields.first_with_host
    demos_rework.Naming.hostname demos_rework.Naming.Slug.after_last text
    demos_rework.Base.Text.text_eq demos_rework.Naming.hostname_label demos_rework.Naming.Slug.slug
    demos_rework.Base.Text.lower demos_rework.Base.Text.lower_char demos_rework.Base.Decimal.str
route_retained_example =
    route_retained host one_demo ready_demo 600 failed (text "no") none none refl not_deleting
  where
    not_deleting : failed ≢ deleting
    not_deleting e = cc

abbrev image : Text
image = text "ghcr.io/me/app@sha256:" ++ zeros 64

image_matches_iff_example : (image_matches image app ≡ true) ↔ IsPinned app image
image_matches_iff_example = image_matches_iff app image

abbrev raw : RawDeploy
raw = record {
  repository = text "Me/App";
  pr = pos 7;
  commit_sha = text "0123456789ABCDEF0123456789abcdef01234567";
  image = image;
  delivery_id = text "delivery-1";
}

abbrev accepted : DeployRequest
accepted = record {
  repository = app;
  pr = 7;
  commit_sha = text "0123456789abcdef0123456789abcdef01234567";
  image = image;
  delivery_id = text "delivery-1";
}

validate_deploy_sound_example : IsAccepted raw accepted
unfolding validate_deploy demos_rework.Models.validate_repository demos_rework.Regex.fullmatch
    demos_rework.Base.Text.lower text demos_rework.Models.Patterns.repository_re
    demos_rework.Base.Text.lower_char demos_rework.Models.bounded demos_rework.Models.validate_sha
    demos_rework.Models.Patterns.sha_re demos_rework.Models.validate_delivery_id
    demos_rework.Models.Patterns.delivery_re image_matches zeros
    demos_rework.Models.Patterns.image_re demos_rework.Base.Text.text_eq
    demos_rework.Models.Patterns.group_repo
validate_deploy_sound_example = validate_deploy_sound raw accepted refl

abbrev pub raw_config : RawConfig
raw_config = record {
  schema_version = pos 1;
  enabled = true;
  environment = [];
  secrets = [];
  port = none;
  health_path = none;
  resources = record {
    cpu_request = none;
    cpu_limit = none;
    memory_request = none;
    memory_limit = none;
  };
  image_namespace = none;
}

validate_project_sound_example : IsAcceptedConfig raw_config config
unfolding validate_project demos_rework.Models.Config.is_version_one
    demos_rework.Models.Config.validate_environment demos_rework.Models.Config.port_or_default
    demos_rework.Models.Config.validate_resources demos_rework.Models.Config.overlap
validate_project_sound_example = validate_project_sound raw_config config refl
