-- ===== src/Charm/Adapter/Endpoint.antt =====
-- The endpoint that the adapter returns.
use mathlib.Core.List.{Memᴰ}
use demos_rework.Base.{
  ◌≢◌, ◌<◌, zero, suc, ℕ, ◌≡◌, refl, sym, ap, ◌↔◌, Option, none, some, List, [], ◌∷◌, Bool-cases,
  Option-cases, inl, inr, arith, ◌==◌,
}
use demos_rework.Base.Text.{Text}
use demos_rework.Kubernetes.Client.{Reply, done, fault, Fault}
use demos_rework.Charm.Adapter.{
  nodeport_service, raise_for_api_error, returned, service_name, node_port_of, endpoint_of,
  read_hosts, after_list, after_get, after_apply, SeenService, NodeClient, Node, Outcome,
  internal_hosts, reconcile, NodePortEndpoint,
}
use demos_rework.Charm.Adapter.Hosts.{
  IsHost, IsIncreasing, internal_hosts-IsHost, IsHost-listed, internal_hosts-IsIncreasing,
}

-- An endpoint that is returned, and the nodes that were read for it.
pub record IsEndpoint (c : NodeClient) (app_name : Text) (e : NodePortEndpoint) (after : c.World)
    : Type 0 where
  pub nodes : List Node
  pub before : c.World
  pub read : c.read_nodes before ≡ (done nodes, after)
  pub named : e.service_name ≡ service_name app_name
  pub sorted : IsIncreasing e.hosts
  pub complete : (s : Text) → Memᴰ s e.hosts ↔ IsHost nodes s
  pub some_host : e.hosts ≢ []
  pub some_port : 0 < e.port

node_port_of_pos :
    (ports : Option (List (Option ℕ))) (port : ℕ) → node_port_of ports ≡ some port → 0 < port
unfolding node_port_of
node_port_of_pos none port h = cc h
node_port_of_pos (some []) port h = cc h
node_port_of_pos (some (none ∷ ports)) port h = cc h
node_port_of_pos (some (some zero ∷ ports)) port h = cc h
node_port_of_pos (some (some (suc n) ∷ ports)) port h = let e : suc n ≡ port = cc h in omega arith

endpoint_of_cases :
    (name : Text) (port : ℕ) (hosts : List Text) (e : NodePortEndpoint)
    → endpoint_of name port hosts ≡ returned e
    → (e.service_name ≡ name) × (e.hosts ≡ hosts) × (e.port ≡ port) × (hosts ≢ [])
endpoint_of_cases name port [] e h = cc h
endpoint_of_cases name port (x ∷ hosts) e h =
    let made : NodePortEndpoint = record { service_name = name; hosts = x ∷ hosts; port = port } in
    let same : made ≡ e = cc h in
    (
      ap (λ (y : NodePortEndpoint). y.service_name) (sym same),
      ap (λ (y : NodePortEndpoint). y.hosts) (sym same),
      ap (λ (y : NodePortEndpoint). y.port) (sym same),
      λ none_there. cc none_there,
    )

raise_for_api_error-not_returned :
    (c : NodeClient) (f : Fault) (w after : c.World) (e : NodePortEndpoint)
    → ¬ (
        ◌≡◌ {A = Outcome NodePortEndpoint × c.World} (raise_for_api_error f, w) (returned e, after))
unfolding raise_for_api_error
raise_for_api_error-not_returned c f w after e h = elim (Bool-cases (f.code == 403)) [
  | inl forbidden ↦ cc (rw forbidden at h)
  | inr other ↦ cc (rw other at h)
]

module _ (c : NodeClient) (namespace app_name : Text) (e : NodePortEndpoint) (after : c.World) where
  -- What returns the endpoint is such an outcome.
  abbrev Good : Outcome NodePortEndpoint × c.World → Type 0
  Good p = p ≡ (returned e, after) → IsEndpoint c app_name e after

  read_hosts-Good :
      (port : ℕ) (w : c.World)
      → 0 < port
      → (p : Reply (List Node) × c.World) → c.read_nodes w ≡ p
      → Good (read_hosts c namespace app_name port p)
  read_hosts-Good port w pos (fault f, w') r g = cc g
  read_hosts-Good port w pos (done nodes, w') r g =
      let made : endpoint_of (service_name app_name) port (internal_hosts nodes) ≡ returned e =
        ap (λ (x : Outcome NodePortEndpoint × c.World). x.0) g in
      let ended : w' ≡ after = ap (λ (x : Outcome NodePortEndpoint × c.World). x.1) g in
      let (named, hosts, same_port, there) =
        endpoint_of_cases (service_name app_name) port (internal_hosts nodes) e made in
      record {
        nodes = nodes;
        before = w;
        read = rw (sym ended) r;
        named = named;
        sorted = rw hosts (internal_hosts-IsIncreasing nodes);
        complete = λ s. rw hosts (internal_hosts-IsHost nodes s, IsHost-listed nodes s);
        some_host = rw hosts there;
        some_port = rw same_port pos;
      }

  after_list-Good :
      (seen : SeenService) (p : Reply (Unit {0}) × c.World)
      → Good (after_list c namespace app_name seen p)
  after_list-Good seen (fault f, w) g = elim (raise_for_api_error-not_returned c f w after e g) [ ]
  after_list-Good seen (done _, w) g = elim (Option-cases (node_port_of seen.node_ports)) [
    | inl none_there ↦ cc (rw (none_there, after_list) at g)
    | inr (port, e') ↦
        read_hosts-Good port w (node_port_of_pos seen.node_ports port e') (c.read_nodes w) refl
          (rw (e', after_list) at g)
  ]

  after_get-Good : (p : Reply SeenService × c.World) → Good (after_get c namespace app_name p)
  after_get-Good (fault f, w) g = elim (raise_for_api_error-not_returned c f w after e g) [ ]
  after_get-Good (done seen, w) g = after_list-Good seen (c.list_nodes w) g

  after_apply-Good : (p : Reply (Unit {0}) × c.World) → Good (after_apply c namespace app_name p)
  after_apply-Good (fault f, w) g = elim (raise_for_api_error-not_returned c f w after e g) [ ]
  after_apply-Good (done _, w) g = after_get-Good (c.get (service_name app_name) namespace w) g

-- Where the NodePort is made ready, the endpoint has the name of the Service, a port, and hosts:
-- the internal addresses of the nodes that were read, all of them, sorted and without repetition.
pub reconcile-IsEndpoint :
    (c : NodeClient) (namespace app_name : Text) (w after : c.World) (e : NodePortEndpoint)
    → reconcile c namespace app_name w ≡ (returned e, after)
    → IsEndpoint c app_name e after
unfolding reconcile
reconcile-IsEndpoint c namespace app_name w after e h =
    after_apply-Good c namespace app_name e after (c.apply (nodeport_service namespace app_name) w)
      h
