-- ===== src/Settings/App.antt =====
-- src/demo_controller/main.py: what build_app gives the parts of the program. The counts of the
-- parts are natural numbers, so a negative one ends the model: `none`. The rows are those of the
-- database's file, and the readers of the request bodies are parameters.
use demos_rework.Base.{ℕ, true, Option, none, some, List, []}
use demos_rework.Base.Text.{Text}
use demos_rework.Base.Int.{ℤ, pos, negsuc}
use demos_rework.Models.{RawDeploy, RawDestroy}
use demos_rework.Store.{Store}
use demos_rework.Auth.{Session}
use demos_rework.Api.{Service}
use demos_rework.Vault.Client.{Config, vault_client}
use demos_rework.Reconciler
use demos_rework.Settings.{Settings}

pub record App (F : Type 0) : Type 0 where
  pub session : Session
  pub vault : Config
  pub reconciliation : Reconciler.Settings
  pub interval : F
  pub service : Service
  pub proxy_timeout : F

-- The numbers, where they are all natural.
abbrev pub natural : ℤ → Option ℕ
natural (pos n) = some n
natural (negsuc n) = none

module _ (read_deploy : List ℕ → Option RawDeploy) (read_destroy : List ℕ → Option RawDestroy)
    (database : Text → Text → Store) where
  abbrev pub with_counts : {F : Type 0} → Settings F → ℕ → ℕ → ℕ → App F
  with_counts s max_bytes max_age rate_limit = record {
    session = record { windows = []; store = database s.database_path s.hostname_suffix };
    vault =
        vault_client s.vault_address s.vault_role_id s.vault_secret_id s.vault_kv_mount
          s.vault_base_path s.vault_namespace true;
    reconciliation = record {
      namespace = s.namespace;
      owner = s.controller_owner;
      image_registry = s.image_registry;
    };
    interval = s.reconcile_interval_seconds;
    service = record {
      policy = record {
        credentials = s.hmac_credentials;
        max_age_seconds = max_age;
        rate_limit = rate_limit;
      };
      request_max_bytes = max_bytes;
      image_registry = s.image_registry;
      hostname_suffix = s.hostname_suffix;
      namespace = s.namespace;
      read_deploy = read_deploy;
      read_destroy = read_destroy;
    };
    proxy_timeout = s.proxy_timeout_seconds;
  }

  -- build_app
  unfoldable pub build_app : {F : Type 0} → Settings F → Option (App F)
  build_app s = elim (natural s.request_max_bytes) [
    | none ↦ none
    | some max_bytes ↦ elim (natural s.signature_max_age_seconds) [
      | none ↦ none
      | some max_age ↦ elim (natural s.rate_limit_per_minute) [
        | none ↦ none
        | some rate_limit ↦ some (with_counts s max_bytes max_age rate_limit)
      ]
    ]
  ]
