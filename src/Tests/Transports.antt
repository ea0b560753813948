-- ===== src/Tests/Transports.antt =====
-- The theorem on the Vault client's requests, at a network that follows a script.
use demos_rework.Base.{
  none, Option, some, false, ℕ, ◌+◌, ◌≤◌, ◌≡◌, refl, true, List, [], ◌∷◌, arith, if◌then◌else◌,
}
use demos_rework.Base.Text.{text}
use demos_rework.Vault.{
  Call, TransportError, connect_error, Attempt, response, transport, http_error, broken, Transport,
  is_unsent,
}
use demos_rework.Base.Int.{pos}
use demos_rework.Base.Json.{Json, null, number, object, no_member, member}
use demos_rework.Models.Config.{RawConfig}
use demos_rework.Vault.Client.{Config, Token}
use demos_rework.Vault.Lookup.{project}
use demos_rework.Vault.Bounds.{project_sent}
use demos_rework.Models.Project.{IsAcceptedConfig}
use demos_rework.Vault.Sound.{project-IsRead}
use demos_rework.Tests.{config}
use demos_rework.Tests.Desired.{raw_config}
use demos_rework.Vault.Requests.{Counts}

-- How many requests have reached Vault, and how the next attempts end.
record Network : Type 0 where
  reached : ℕ
  script : List Attempt

abbrev cost : Attempt → ℕ
cost (transport e) = if is_unsent e then 0 else 1
cost _ = 1

abbrev play : ℕ → List Attempt → Attempt × Network
play n [] = (broken (text "closed"), record { reached = n; script = [] })
play n (a ∷ rest) = (a, record { reached = n + cost a; script = rest })

abbrev network : Transport
network = record {
  World = Network;
  send = λ call w. play w.reached w.script;
  replace_client = λ w. w;
  pause = λ w. w;
  clock = λ w. 0;
}

cost-le : (a : Attempt) → cost a ≤ 1
cost-le (transport e) = ground arith
cost-le (response r) = omega arith
cost-le (http_error b) = omega arith
cost-le (broken b) = omega arith

play_one : (n : ℕ) (script : List Attempt) → (play n script).1.reached ≤ n + 1
play_one n [] = omega arith
play_one n (a ∷ rest) = omega (arith, cost-le a)

play_unsent :
    (n : ℕ) (script : List Attempt) (e : TransportError)
    → (play n script).0 ≡ transport e
    → is_unsent e ≡ true
    → (play n script).1.reached ≡ n
play_unsent n [] e h u = cc
play_unsent n (transport x ∷ rest) e h u = ground arith
play_unsent n (response r ∷ rest) e h u = cc
play_unsent n (http_error b ∷ rest) e h u = cc
play_unsent n (broken b ∷ rest) e h u = cc

network-Counts : Counts network (λ w. w.reached)
network-Counts = record {
  one = λ call w. play_one w.reached w.script;
  unsent = λ call w e h u. play_unsent w.reached w.script e h u;
  replacing = λ w. refl;
  pausing = λ w. refl;
}

abbrev get_it : Call
get_it = record { method = text "GET"; url = text "u"; headers = []; json = none }

-- The first attempt does not connect, the second one is answered.
abbrev flaky : Network
flaky = record {
  reached = 0;
  script = transport connect_error ∷ response (record { status = 200; json = none }) ∷ [];
}

abbrev vault : Config
vault = record {
  address = text "https://vault";
  role_id = text "role";
  secret_id = text "secret";
  kv_mount = text "secret";
  base_path = text "demos";
  namespace = none;
  owns_client = true;
}

abbrev no_token : Token
no_token = record { token = none; expires_at = pos 0; renewable = false }

abbrev only_project : Json → Option RawConfig
only_project j = none

project_sent_example :
    (project network vault only_project (text "me/app") no_token flaky).1.1.reached ≤ 0 + 5
project_sent_example =
    project_sent network (λ w. w.reached) network-Counts vault only_project (text "me/app") no_token
      flaky

-- A token that is valid for long, and a project whose record has the version 3.
abbrev token : Token
token = record { token = some (text "t"); expires_at = pos 100_000; renewable = false }

abbrev payload : Json
payload = object (
    member (text "data")
      (object (
        member (text "data") null (
          member (text "metadata") (object (member (text "version") (number (text "3")) no_member))
            no_member)))
      no_member)

abbrev answering : Network
answering = record {
  reached = 0;
  script = response (record { status = 200; json = some payload }) ∷ [];
}

abbrev read_config : Json → Option RawConfig
read_config j = some raw_config

project-IsRead_example :
    (raw : RawConfig) × ((j : Json) × (read_config j ≡ some raw)) × IsAcceptedConfig raw config
unfolding project text demos_rework.Vault.request demos_rework.Vault.Client.index
    demos_rework.Vault.Client.get_member demos_rework.Base.Text.text_eq
    demos_rework.Models.Config.validate_project demos_rework.Models.Config.is_version_one
    demos_rework.Models.Config.validate_environment demos_rework.Models.Config.port_or_default
    demos_rework.Models.Config.validate_resources demos_rework.Models.Config.overlap
    demos_rework.Vault.Client.int_of demos_rework.Base.ParseInt.parse_int
project-IsRead_example =
    project-IsRead read_config network vault (text "me/app") token answering
      (record { config = config; version = pos 3 }) refl
