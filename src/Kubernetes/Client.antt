-- ===== src/Kubernetes/Client.antt =====
-- The Kubernetes objects that the controller writes, and the API that it calls. The API is a
-- parameter: its state is abstract, and each call returns a reply beside the new state.
use demos_rework.Base.{ℕ, Bool, Option, List}
use demos_rework.Base.Text.{Text}
use demos_rework.Models.Config.{Dict}

pub data Kind : Type 0 where
  deployment service config_map secret : Kind

pub record Metadata : Type 0 where
  pub name : Text
  pub namespace : Text
  pub labels : Dict

pub record ConfigMap : Type 0 where
  pub metadata : Metadata
  pub data_ : Dict

pub record Secret : Type 0 where
  pub metadata : Metadata
  pub type_ : Text
  pub data_ : Dict

pub data EnvFrom : Type 0 where
  config_map_ref secret_ref : Text → EnvFrom

pub record Probe : Type 0 where
  pub path : Text
  pub initial_delay_seconds : ℕ
  pub period_seconds : ℕ
  pub timeout_seconds : ℕ
  pub failure_threshold : ℕ

pub record Container : Type 0 where
  pub name : Text
  pub image : Option Text
  pub container_port : ℕ
  pub env_from : List EnvFrom
  pub probe : Probe
  pub requests : Dict
  pub limits : Dict
  pub allow_privilege_escalation : Bool
  pub dropped_capabilities : List Text

pub record Deployment : Type 0 where
  pub metadata : Metadata
  pub replicas : ℕ
  pub match_labels : Dict
  pub pod_labels : Dict
  pub annotations : Dict
  pub container : Container
  pub run_as_non_root : Bool
  pub seccomp_profile : Text

-- A ClusterIP Service; its only port is named `http` and targets the port of that name.
pub record Service : Type 0 where
  pub metadata : Metadata
  pub selector : Dict
  pub port : ℕ

pub data Resource : Type 0 where
  deployment : Deployment → Resource
  service : Service → Resource
  config_map : ConfigMap → Resource
  secret : Secret → Resource

-- What `get` shows of a Deployment. `status` is the observed generation and the available replicas.
pub record Observed : Type 0 where
  pub generation : Option ℕ
  pub replicas : Option ℕ
  pub status : Option (Option ℕ × Option ℕ)

-- An exception: its type and text, and the status code if it is an ApiError (0 if it is not).
pub record Fault : Type 0 where
  pub kind : Text
  pub detail : Text
  pub code : ℕ

pub data Reply {ℓ} (A : Type ℓ) : Type ℓ where
  done : A → Reply A
  fault : Fault → Reply A

abbrev pub Action : Type 0 → Type 0 → Type 0
Action W A = W → Reply A × W

module _ {W A : Type 0} where
  abbrev pub pure : A → Action W A
  pure a w = (done a, w)

module _ {W A B : Type 0} where
  abbrev pub continue : Reply A → (A → Action W B) → W → Reply B × W
  continue (done a) f w = f a w
  continue (fault e) f w = (fault e, w)

  infixl 5 ◌>>=◌ ◌>>◌
  abbrev pub ◌>>=◌ : Action W A → (A → Action W B) → Action W B
  ◌>>=◌ m f w = let (r, w') = m w in continue r f w'

  abbrev pub ◌>>◌ : Action W A → Action W B → Action W B
  m >> k = m >>= λ _. k

-- lightkube's Client, in the namespace of the controller.
pub record Cluster : Type 1 where
  pub World : Type 0
  pub apply_resource : Resource → Action World (Unit {0})
  pub get_deployment : Text → Action World Observed
  pub delete_resource : Kind → Text → Action World (Unit {0})
