-- ===== src/Tests/Operator.antt =====
-- The theorems on the charm, at a small cluster.
use demos_rework.Base.{
  ℕ, ◌+◌, ◌≤◌, ◌≡◌, ◌<◌, ◌^◌, ◌↔◌, length, ◌⊎◌, refl, true, false, Option, none, some, List, [],
  ◌∷◌, arith,
}
use demos_rework.Base.Text.{Text, text}
use demos_rework.Base.Int.{pos}
use demos_rework.Base.Decimal.{str, length-str-le}
use demos_rework.Base.Json.{string, object, no_member, member}
use demos_rework.Base.Result.{ok}
use demos_rework.Models.Config.{Dict}
use demos_rework.Kubernetes.Client.{Reply, done, fault}
use demos_rework.Charm.Logs.{Pod}
use demos_rework.Charm.Adapter.{NodeClient, NodePortEndpoint, SeenService, Node, reconcile, cleanup}
use demos_rework.Charm.Adapter.Endpoint.{IsEndpoint, reconcile-IsEndpoint}
use demos_rework.Charm.Adapter.Owned.{OwnedBy, cleanup_owned}
use demos_rework.Settings.{Settings, Floats, from_env}
use demos_rework.Charm.Environment.{Juju, Options, environment}
use demos_rework.Charm.Environment.Start.{IsConfigured, Carries, environment-starts}
use demos_rework.Charm.Status.{active, waiting, workload_status, shown_report}
use demos_rework.Charm.Status.Active.{workload_status-active}
use demos_rework.Charm.Unit.{Surroundings, State, configure}
use demos_rework.Charm.Unit.Ready.{IsServed, configure-IsServed}
use demos_rework.Api.Status.{controller_status}
use demos_rework.Reconciler.{unknown}
use demos_rework.Tests.{ready_demo}
use demos_rework.Tests.Clients.{codec, codec-WritesMaps}

abbrev old_pod : Pod
old_pod = record {
  name = text "p1";
  namespace = text "demos";
  phase = some (text "Running");
  start_time = some 5;
  is_deleting = false;
}

abbrev new_pod : Pod
new_pod = record old_pod { name = text "p2"; start_time = some 9 }

-- A cluster with one Service at most, by its annotations, and one node.
abbrev Cluster : Type 0
Cluster = Option Dict

abbrev look : Cluster → Reply SeenService
look none = fault (record { kind = text "ApiError"; detail = []; code = 404 })
look (some annotations) =
    done (record { annotations = some annotations; node_ports = some (some 30_080 ∷ []) })

abbrev node : Node
node = record {
  addresses = some (
      record { type_ = text "Hostname"; address = text "n" }
      ∷ record { type_ = text "InternalIP"; address = text "10.0.0.2" }
      ∷ []);
}

abbrev hub : NodeClient
hub = record {
  World = Cluster;
  apply = λ s w. (done tt, some s.annotations);
  get = λ name namespace w. (look w, w);
  delete = λ name namespace w. (done tt, none);
  list_nodes = λ w. (done tt, w);
  read_nodes = λ w. (done (node ∷ []), w);
}

abbrev owned : Cluster
owned = some ((text "demos.canonical.com/owned-by", text "app") ∷ [])

abbrev endpoint : NodePortEndpoint
endpoint = record {
  service_name = text "app-nodeport";
  hosts = text "10.0.0.2" ∷ [];
  port = 30_080;
}

reconcile-IsEndpoint_example : IsEndpoint hub (text "app") endpoint owned
unfolding reconcile demos_rework.Base.Text.text_eq text
reconcile-IsEndpoint_example =
    reconcile-IsEndpoint hub (text "demos") (text "app") none owned endpoint refl

cleanup_owned_example :
    ((cleanup hub (text "demos") (text "app") owned).1 ≡ owned)
    ⊎ ((seen : SeenService) × (look owned ≡ done seen)
        × OwnedBy (text "app") seen
        × ((cleanup hub (text "demos") (text "app") owned).1 ≡ none))
cleanup_owned_example = cleanup_owned hub (text "demos") (text "app") owned

-- A charm whose options and secrets are complete.
abbrev options : Options
options = record {
  api_hostname = text "api";
  hostname_suffix = text "demos";
  image_registry = text "ghcr.io";
  vault_address = text "https://vault";
  vault_namespace = [];
  vault_kv_mount = text "secret";
  vault_base_path = text "demos";
  vault_approle_secret = some (text "a");
  hmac_credentials_secret = some (text "h");
  reconcile_interval = pos 10;
  request_max_bytes = pos 64;
  signature_max_age = pos 300;
  rate_limit_per_minute = pos 60;
}

-- The content of every secret.
abbrev content : Dict
content =
    (text "role-id", text "r")
    ∷ (text "secret-id", text "s")
    ∷ (text "credentials", codec.dumps (object (member (text "me") (string (text "k")) no_member)))
    ∷ []

abbrev juju : Juju
juju = record {
  model_name = text "demos";
  app_name = text "app";
  config = options;
  secret = λ secret_id. some content;
  environ = (text "JUJU_CHARM_HTTP_PROXY", text "http://p") ∷ [];
}

abbrev floats : Floats
floats = record { Float = Text; read = λ t. some t }

short : (n : ℕ) → n < 10 ^ 20 → length (str n) ≤ 4300
short n small = omega (arith, length-str-le 19 n small)

known : IsConfigured codec floats juju
unfolding text demos_rework.Models.Config.lookup demos_rework.Base.Text.text_eq
    demos_rework.Tests.Clients.read_pairs demos_rework.Tests.Clients.read_texts
    demos_rework.Tests.Clients.write_members demos_rework.Settings.string_map
    demos_rework.Base.Decimal.str demos_rework.Charm.Environment.str_int
known = record {
  role = (text "r", text "s");
  members = member (text "me") (string (text "k")) no_member;
  credentials = (text "me", text "k") ∷ [];
  max_bytes = 64;
  max_age = 300;
  rate_limit = 60;
  interval = text "10";
  timeout = text "30";
  has_role = refl;
  has_members = refl;
  has_texts = refl;
  has_max_bytes = refl;
  has_max_age = refl;
  has_rate_limit = refl;
  short_max_bytes = short 64 (omega arith);
  short_max_age = short 300 (omega arith);
  short_rate_limit = short 60 (omega arith);
  reads_interval = refl;
  reads_timeout = refl;
}

environment-starts_example :
    (environ : Dict) × (s : Settings Text) × (environment codec juju ≡ some environ)
    × (from_env codec floats environ ≡ ok s)
    × Carries known s
environment-starts_example = environment-starts codec floats juju codec-WritesMaps known

abbrev seen : Surroundings
seen = record {
  is_leader = true;
  can_connect = true;
  service_running = some true;
  relations = text "10.0.0.9" ∷ [];
  health =
      some
        (shown_report (controller_status true (some 5) unknown unknown (some (ready_demo ∷ []))));
}

workload_status-active_example :
    (workload_status seen.health ≡ active)
    ↔ ((controller_status true (some 5) unknown unknown (some (ready_demo ∷ []))).code ≡ 200)
workload_status-active_example =
    workload_status-active true (some 5) unknown unknown (some (ready_demo ∷ []))

abbrev begun : State Cluster
begun = record {
  status = waiting [];
  layer = none;
  ports = [];
  replans = 0;
  restarts = 0;
  routes = [];
  world = none;
}

configure-IsServed_example :
    IsServed codec hub juju seen begun (configure codec hub juju seen begun)
unfolding controller_status demos_rework.Api.Status.count configure workload_status environment
    shown_report reconcile text demos_rework.Models.Config.lookup demos_rework.Base.Text.text_eq
    demos_rework.Tests.Clients.read_pairs demos_rework.Tests.Clients.read_texts
    demos_rework.Tests.Clients.write_members
configure-IsServed_example =
    configure-IsServed codec hub juju seen begun (λ e. cc e)
      ((workload_status-active true (some 5) unknown unknown (some (ready_demo ∷ []))).1 refl)
