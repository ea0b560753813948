-- ===== src/Tests.antt =====
-- Concrete values at which the theorems are tried: digests, requests, rows, and a cluster.
pub mod Access
pub mod Desired
pub mod Names
pub mod Requests
pub mod Transports
pub mod Clients
pub mod Operator
pub mod Passes
use demos_rework.Base.{
  ℕ, zero, suc, ◌≡◌, refl, Bool, true, false, ◌&&◌, none, some, List, [], ◌∷◌, ◌++◌, arith, length,
  All, if◌then◌else◌, Bool-cases, inl, inr, &&-eq-true,
}
use demos_rework.Base.Text.{Text, text, text_eq, text_eq_iff}
use demos_rework.Hashes.{Hashes, is_hex}
use demos_rework.Models.{DeployRequest}
use demos_rework.Models.Config.{ProjectConfig}
use demos_rework.Store.{Store}
use demos_rework.Store.Rows.{DemoRecord, ready}
use demos_rework.Kubernetes.Client.{
  Kind, deployment, service, config_map, secret, Resource, Metadata, Observed, Cluster, Reply, done,
  fault, Fault,
}
use demos_rework.Kubernetes.Deletion.{Deletes}
use demos_rework.Reconciler.{Settings, Clock, State, unknown}

unfoldable pub zeros : ℕ → Text
zeros zero = []
zeros (suc n) = b'0' ∷ zeros n

pub zeros-length : length (zeros 64) ≡ 64
unfolding zeros
zeros-length = refl

pub zeros-hex : (n : ℕ) → All (λ c. is_hex c ≡ true) (zeros n)
unfolding zeros
zeros-hex zero = tt
zeros-hex (suc n) = (refl, zeros-hex n)

-- Digests that are all the same.
abbrev pub same_hashes : Hashes
same_hashes = record {
  sha256 = λ m. zeros 64;
  hmac = λ k m. zeros 64;
  sha256_length = λ m. zeros-length;
  sha256_hex = λ m. zeros-hex 64;
  hmac_length = λ k m. zeros-length;
  hmac_hex = λ k m. zeros-hex 64;
}

abbrev pub app : Text
app = text "me/app"

abbrev pub first_request : DeployRequest
first_request = record {
  repository = app;
  pr = 7;
  commit_sha = text "c1";
  image = text "i1";
  delivery_id = text "delivery-1";
}

abbrev pub second_request : DeployRequest
second_request = record first_request {
  commit_sha = text "c2";
  image = text "i2";
  delivery_id = text "delivery-2";
}

abbrev pub ready_demo : DemoRecord
ready_demo = record {
  repository = app;
  pr = 7;
  commit_sha = some (text "c1");
  image = some (text "i1");
  delivery_id = text "delivery-1";
  request_hash = text "h1";
  desired_present = true;
  state = ready;
  vault_version = some 3;
  port = some 8000;
  message = text "deployment is ready";
  created_at = 10;
  updated_at = 20;
  expires_at = 259_210;
}

abbrev pub one_demo : Store
one_demo = record { demos = ready_demo ∷ []; nonces = []; hostname_suffix = text "demos" }

abbrev pub no_demos : Store
no_demos = record one_demo { demos = [] }

abbrev pub config : ProjectConfig
config = record {
  environment = [];
  secrets = [];
  port = 8000;
  health_path = text "/";
  resources = record {
    cpu_request = text "50m";
    cpu_limit = text "1";
    memory_request = text "128Mi";
    memory_limit = text "1Gi";
  };
  image_namespace = none;
}

abbrev pub settings : Settings
settings = record {
  namespace = text "demos";
  owner = text "demos-controller";
  image_registry = text "registry";
}

abbrev pub clock : Clock
clock = record { expiry = 100; begun = 101; vault = 102; kubernetes = 103; ended = 104 }

-- The kinds of objects, and the names, that are in the cluster.
abbrev pub Objects : Type 0
Objects = List (Kind × Text)

abbrev pub same_kind : Kind → Kind → Bool
same_kind deployment deployment = true
same_kind service service = true
same_kind config_map config_map = true
same_kind secret secret = true
same_kind _ _ = false

unfoldable pub has : Kind → Text → Objects → Bool
has k n [] = false
has k n ((j, m) ∷ w) = if same_kind j k && text_eq m n then true else has k n w

unfoldable pub remove : Kind → Text → Objects → Objects
remove k n [] = []
remove k n ((j, m) ∷ w) =
    let rest = remove k n w in if same_kind j k && text_eq m n then rest else (j, m) ∷ rest

abbrev pub not_found : Fault
not_found = record { kind = text "ApiError"; detail = []; code = 404 }

unfoldable pub remove_found : Kind → Text → Objects → Reply (Unit {0}) × Objects
remove_found k n w = if has k n w then (done tt, remove k n w) else (fault not_found, w)

abbrev pub key_of : Resource → Kind × Text
key_of (Resource.deployment d) = (deployment, d.metadata.name)
key_of (Resource.service s) = (service, s.metadata.name)
key_of (Resource.config_map m) = (config_map, m.metadata.name)
key_of (Resource.secret s) = (secret, s.metadata.name)

-- A cluster that holds objects by kind and name, and whose Deployments are available at once.
abbrev pub cluster : Cluster
cluster = record {
  World = Objects;
  apply_resource = λ r w. (done tt, key_of r ∷ w);
  get_deployment = λ n w.
      (done (record { generation = some 1; replicas = some 1; status = some (some 1, some 1) }), w);
  delete_resource = remove_found;
}

has-remove : (k : Kind) (n : Text) (w : Objects) → has k n (remove k n w) ≡ false
unfolding has remove
has-remove k n [] = refl
has-remove k n ((j, m) ∷ w) = ground (arith, has-remove k n w)

remove-has :
    (k : Kind) (n : Text) (w : Objects) (j : Kind) (m : Text)
    → has j m (remove k n w) ≡ true
    → has j m w ≡ true
unfolding has remove
remove-has k n [] j m h = h
remove-has k n ((i, l) ∷ w) j m h = ground (arith, remove-has k n w j m)

abbrev pub IsPresent : Kind → Text → Objects → Type 0
IsPresent k n w = has k n w ≡ true

remove_found-gone :
    (k : Kind) (n : Text) (w w' : Objects) → remove_found k n w ≡ (done tt, w') → has k n w' ≡ false
unfolding remove_found
remove_found-gone k n w w' e = ground (arith, has-remove k n w)

remove_found-missing :
    (k : Kind) (n : Text) (w w' : Objects) (f : Fault)
    → remove_found k n w ≡ (fault f, w')
    → has k n w' ≡ false
unfolding remove_found
remove_found-missing k n w w' f e = ground arith

remove_found-back :
    (k : Kind) (n : Text) (w : Objects) (j : Kind) (m : Text)
    → has j m (remove_found k n w).1 ≡ true
    → has j m w ≡ true
unfolding remove_found
remove_found-back k n w j m h = ground (arith, remove-has k n w j m)

pub cluster-Deletes : Deletes cluster IsPresent
cluster-Deletes = record {
  gone = λ k n w w' e there. cc (remove_found-gone k n w w' e, there);
  missing = λ k n w w' f e code there. cc (remove_found-missing k n w w' f e, there);
  creates_nothing = λ k n w j m there. remove_found-back k n w j m there;
}

abbrev pub state : State Objects
state = record {
  store = one_demo;
  world = (deployment, text "other") ∷ [];
  vault = unknown;
  kubernetes = unknown;
}
