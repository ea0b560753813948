-- ===== src/Kubernetes/Rendered.antt =====
-- How the rendered objects of a demo fit together.
use demos_rework.Base.{ℕ, ◌≡◌, refl, some, [], ◌∷◌, ◌++◌, arith}
use demos_rework.Base.Text.{Text, text, text_eq}
use demos_rework.Hashes.{Hashes}
use demos_rework.Naming.{resource_name}
use demos_rework.Models.Config.{Dict, ProjectConfig, lookup}
use demos_rework.Store.Rows.{DemoRecord}
use demos_rework.Kubernetes.Client.{config_map_ref, secret_ref}
use demos_rework.Kubernetes.{RenderedResources, render_resources}

-- Each label that the selector asks for is there, with the same value.
abbrev pub Selects : Dict → Dict → Type 0
Selects [] labels = Unit
Selects ((k, v) ∷ selector) labels = (lookup k labels ≡ some v) × Selects selector labels

pub record IsWired (name : Text) (project : ProjectConfig) (r : RenderedResources) : Type 0 where
  pub deployment_name : r.deployment.metadata.name ≡ name
  pub service_name : r.service.metadata.name ≡ name
  pub own_pods : Selects r.deployment.match_labels r.deployment.pod_labels
  pub routed_pods : Selects r.service.selector r.deployment.pod_labels
  pub port :
      (r.service.port ≡ project.port) × (r.deployment.container.container_port ≡ project.port)

-- Whatever the demo and its configuration, the Deployment and the Service have the demo's resource
-- name, both select the pods that are rendered, and the Service's port is the container's.
pub render_resources-IsWired :
    (h : Hashes) (r : DemoRecord) (project : ProjectConfig) (version : ℕ) (namespace owner : Text)
    → IsWired
        (resource_name h r.repository r.pr)
        project
        (render_resources h r project version namespace owner)
unfolding render_resources
render_resources-IsWired h r project version namespace owner = record {
  deployment_name = refl;
  service_name = refl;
  own_pods = (unfold lookup text text_eq in refl, tt);
  routed_pods = (unfold lookup text text_eq in refl, tt);
  port = (refl, refl);
}

-- The environment of the container takes the ConfigMap exactly if there are plain values, and then
-- the Secret exactly if there are secret ones, both under the demo's resource name.
pub render_resources_env :
    (h : Hashes) (r : DemoRecord) (project : ProjectConfig) (version : ℕ) (namespace owner : Text)
    → let rendered = render_resources h r project version namespace owner in
      let name = resource_name h r.repository r.pr in
      rendered.deployment.container.env_from
      ≡ (elim project.environment [ [] ↦ [] | _ ∷ _ ↦ config_map_ref name ∷ [] ])
        ++ (elim project.secrets [ [] ↦ [] | _ ∷ _ ↦ secret_ref name ∷ [] ])
unfolding render_resources
render_resources_env h r project version namespace owner = ground arith
