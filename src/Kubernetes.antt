-- ===== src/Kubernetes.antt =====
-- src/demo_controller/kubernetes.py: what is rendered for a demo, and how it is applied to the
-- cluster and deleted from it. The Kubernetes API is a parameter, `Cluster`.
pub mod Client
pub mod Rendered
pub mod Deletion
use demos_rework.Base.{
  ℕ, Bool, true, false, ◌&&◌, Option, none, some, List, [], ◌∷◌, ◌++◌, leb, ◌==◌, if◌then◌else◌,
}
use demos_rework.Base.Text.{Text, text}
use demos_rework.Base.Decimal.{str}
use demos_rework.Base.Utf8.{encode}
use demos_rework.Base.Base64.{b64encode}
use demos_rework.Hashes.{Hashes}
use demos_rework.Naming.{resource_name, RepositoryLabels, repository_labels}
use demos_rework.Models.Config.{Dict, ProjectConfig}
use demos_rework.Store.Rows.{DemoRecord}
use demos_rework.Kubernetes.Client.{
  Kind, Metadata, ConfigMap, Secret, EnvFrom, config_map_ref, secret_ref, Probe, Container,
  Deployment, Service, Resource, Observed, Cluster, Reply, done, fault, Fault, Action, pure, ◌>>=◌,
  ◌>>◌,
}

pub record RenderedResources : Type 0 where
  pub deployment : Deployment
  pub service : Service
  pub config_map : Option ConfigMap
  pub secret : Option Secret

abbrev optional {ℓ} : {A : Type ℓ} → (A → Resource) → Option A → List Resource
optional f none = []
optional f (some a) = f a ∷ []

-- RenderedResources.all
unfoldable pub all_resources : RenderedResources → List Resource
all_resources r =
    optional Resource.config_map r.config_map
    ++ (optional Resource.secret r.secret
        ++ (Resource.service r.service ∷ Resource.deployment r.deployment ∷ []))

-- repository_labels(…) | {"app": name}
unfoldable pub labels_of : RepositoryLabels → Text → Dict
labels_of l name =
    (text "app.kubernetes.io/managed-by", l.managed_by)
    ∷ (text "demos.canonical.com/repository-hash", l.repository_hash)
    ∷ (text "demos.canonical.com/pr", l.pr)
    ∷ (text "app", name)
    ∷ []

-- {key: base64(value) for key, value in secrets.items()}
unfoldable pub encode_values : Dict → Dict
encode_values [] = []
encode_values ((key, v) ∷ d) = (key, b64encode (encode v)) ∷ encode_values d

unfoldable pub render_config_map : Metadata → Dict → Option ConfigMap
render_config_map metadata [] = none
render_config_map metadata (e ∷ d) = some (record { metadata = metadata; data_ = e ∷ d })

unfoldable pub render_secret : Metadata → Dict → Option Secret
unfolding encode_values
render_secret metadata [] = none
render_secret metadata (e ∷ d) =
    some (record { metadata = metadata; type_ = text "Opaque"; data_ = encode_values (e ∷ d) })

abbrev refer {ℓ} : {A : Type ℓ} → EnvFrom → Option A → List EnvFrom
refer e none = []
refer e (some _) = e ∷ []

-- The container of the Deployment.
unfoldable pub render_container :
    DemoRecord → ProjectConfig → Text → Option ConfigMap → Option Secret → Container
render_container r project name config_map secret = record {
  name = text "workload";
  image = r.image;
  container_port = project.port;
  env_from = refer (config_map_ref name) config_map ++ refer (secret_ref name) secret;
  probe = record {
    path = project.health_path;
    initial_delay_seconds = 3;
    period_seconds = 5;
    timeout_seconds = 2;
    failure_threshold = 6;
  };
  requests =
      (text "cpu", project.resources.cpu_request)
      ∷ (text "memory", project.resources.memory_request)
      ∷ [];
  limits =
      (text "cpu", project.resources.cpu_limit)
      ∷ (text "memory", project.resources.memory_limit)
      ∷ [];
  allow_privilege_escalation = false;
  dropped_capabilities = text "ALL" ∷ [];
}

-- render_resources
unfoldable pub render_resources :
    Hashes → DemoRecord → ProjectConfig → ℕ → Text → Text → RenderedResources
unfolding labels_of render_config_map render_secret render_container
render_resources h r project vault_version namespace owner =
    let name = resource_name h r.repository r.pr in
    let labels = labels_of (repository_labels h r.repository r.pr owner) name in
    let metadata : Metadata = record { name = name; namespace = namespace; labels = labels } in
    let config_map = render_config_map metadata project.environment in
    let secret = render_secret metadata project.secrets in
    record {
      deployment = record {
        metadata = metadata;
        replicas = 1;
        match_labels = (text "app", name) ∷ [];
        pod_labels = labels;
        annotations = (text "demos.canonical.com/vault-version", str vault_version) ∷ [];
        container = render_container r project name config_map secret;
        run_as_non_root = true;
        seccomp_profile = text "RuntimeDefault";
      };
      service = record {
        metadata = metadata;
        selector = (text "app", name) ∷ [];
        port = project.port;
      };
      config_map = config_map;
      secret = secret;
    }

abbrev or_zero : Option ℕ → ℕ
or_zero none = 0
or_zero (some n) = n

-- deployment.spec.replicas or 1
abbrev wanted_replicas : Option ℕ → ℕ
wanted_replicas none = 1
wanted_replicas (some n) = if n == 0 then 1 else n

abbrev same_generation : Option ℕ → Option ℕ → Bool
same_generation none none = true
same_generation (some a) (some b) = a == b
same_generation _ _ = false

-- The Deployment's current generation has all its replicas available.
unfoldable pub is_ready : Observed → Bool
is_ready o = elim o.status [
  | none ↦ false
  | some (observed, available) ↦
      same_generation observed o.generation && leb (wanted_replicas o.replicas) (or_zero available)
]

-- except ApiError: a missing resource is no error
unfoldable pub forgive_missing {ℓ} : {W : Type ℓ} → Reply (Unit {0}) × W → Reply (Unit {0}) × W
forgive_missing (done _, w) = (done tt, w)
forgive_missing (fault f, w) = if f.code == 404 then (done tt, w) else (fault f, w)

module _ (c : Cluster) where
  open c use {World, apply_resource, get_deployment, delete_resource}

  -- _delete_if_exists
  unfoldable pub delete_if_exists : Kind → Text → Action World (Unit {0})
  unfolding forgive_missing
  delete_if_exists kind name w = forgive_missing (delete_resource kind name w)

  unfoldable pub apply_all : List Resource → Action World (Unit {0})
  apply_all [] = pure tt
  apply_all (r ∷ rs) = let rest = apply_all rs in do apply_resource r; rest

  unfoldable pub delete_unless {ℓ} : {A : Type ℓ} → Option A → Kind → Text → Action World (Unit {0})
  unfolding delete_if_exists
  delete_unless none kind name = delete_if_exists kind name
  delete_unless (some _) kind name = pure tt

  -- KubernetesReconciler.apply
  unfoldable pub apply : RenderedResources → Action World Bool
  unfolding apply_all delete_unless is_ready
  apply r = do
    apply_all (all_resources r)
    delete_unless r.config_map Kind.config_map r.deployment.metadata.name
    delete_unless r.secret Kind.secret r.deployment.metadata.name
    current ← get_deployment r.deployment.metadata.name
    pure (is_ready current)

  -- KubernetesReconciler.delete
  unfoldable pub delete : Hashes → Text → ℕ → Action World (Unit {0})
  unfolding delete_if_exists
  delete h repository pr = do
    delete_if_exists Kind.deployment (resource_name h repository pr)
    delete_if_exists Kind.service (resource_name h repository pr)
    delete_if_exists Kind.config_map (resource_name h repository pr)
    delete_if_exists Kind.secret (resource_name h repository pr)
