-- ===== src/Charm/Adapter.antt =====
-- charm/src/kubernetes.py: the NodePort Service of the controller. lightkube's client is a
-- parameter: its state is abstract, and each call returns a reply beside the new state.
pub mod Hosts
pub mod Endpoint
pub mod Owned
use demos_rework.Base.{
  ℕ, Bool, true, false, ◌&&◌, Option, none, some, List, [], ◌∷◌, ◌++◌, ltb, ◌==◌, zero, suc,
  if◌then◌else◌,
}
use demos_rework.Base.Text.{Text, text, text_eq}
use demos_rework.Models.Config.{Dict, lookup}
use demos_rework.Kubernetes.Client.{Reply, done, fault, Fault}

-- The Service that is applied: its type is NodePort, and it has one port, named `http`, of TCP.
pub record NodePortService : Type 0 where
  pub name : Text
  pub namespace : Text
  pub labels : Dict
  pub annotations : Dict
  pub selector : Dict
  pub port : ℕ
  pub target_port : ℕ

-- What `get` shows of a Service: the annotations, and the node ports of the ports, where there are
-- some.
pub record SeenService : Type 0 where
  pub annotations : Option Dict
  pub node_ports : Option (List (Option ℕ))

pub record Address : Type 0 where
  pub type_ : Text
  pub address : Text

-- A node, by the addresses of its status, where it has some.
pub record Node : Type 0 where
  pub addresses : Option (List Address)

-- The client. The list of the nodes is asked for by one call and read by another: an iterator may
-- raise when it is read.
pub record NodeClient : Type 1 where
  pub World : Type 0
  pub apply : NodePortService → World → Reply (Unit {0}) × World
  pub get : Text → Text → World → Reply SeenService × World
  pub delete : Text → Text → World → Reply (Unit {0}) × World
  pub list_nodes : World → Reply (Unit {0}) × World
  pub read_nodes : World → Reply (List Node) × World

-- What the adapter returns or raises: a KubernetesPermissionError, a RuntimeError of its own, or
-- the exception of a call.
pub data Outcome {ℓ} (A : Type ℓ) : Type ℓ where
  returned : A → Outcome A
  no_permission : Outcome A
  runtime_error : Text → Outcome A
  raised : Fault → Outcome A

pub record NodePortEndpoint : Type 0 where
  pub service_name : Text
  pub hosts : List Text
  pub port : ℕ

-- OWNER_ANNOTATION and MANAGED_BY_LABEL
abbrev pub owner_annotation : Text
owner_annotation = text "demos.canonical.com/owned-by"

abbrev pub managed_by_label : Text
managed_by_label = text "app.kubernetes.io/managed-by"

unfoldable pub service_name : Text → Text
service_name app_name = app_name ++ text "-nodeport"

unfoldable pub nodeport_service : Text → Text → NodePortService
unfolding service_name
nodeport_service namespace app_name = record {
  name = service_name app_name;
  namespace = namespace;
  labels =
      (managed_by_label, app_name) ∷ (text "app.kubernetes.io/name", service_name app_name) ∷ [];
  annotations = (owner_annotation, app_name) ∷ [];
  selector = (text "app.kubernetes.io/name", app_name) ∷ [];
  port = 8080;
  target_port = 8080;
}

-- _raise_for_api_error, and the `raise` behind it
unfoldable pub raise_for_api_error {ℓ} : {A : Type ℓ} → Fault → Outcome A
raise_for_api_error error = if error.code == 403 then no_permission else raised error

-- The node port of the first port; 0 is no port.
unfoldable pub node_port_of : Option (List (Option ℕ)) → Option ℕ
node_port_of none = none
node_port_of (some []) = none
node_port_of (some (none ∷ ports)) = none
node_port_of (some (some zero ∷ ports)) = none
node_port_of (some (some (suc n) ∷ ports)) = some (suc n)

-- The order of Python's texts.
unfoldable pub text_ltb : Text → Text → Bool
text_ltb s [] = false
text_ltb [] (d ∷ t) = true
text_ltb (c ∷ s) (d ∷ t) =
    let rest = text_ltb s t in if ltb c d then true else if c == d then rest else false

-- Into a sorted list without repetition.
unfoldable pub insert_host : Text → List Text → List Text
unfolding text_ltb
insert_host host [] = host ∷ []
insert_host host (other ∷ hosts) =
    let later = insert_host host hosts in
    if text_ltb host other
    then host ∷ other ∷ hosts
    else if text_eq host other
    then other ∷ hosts
    else other ∷ later

-- address.type == "InternalIP" and address.address
abbrev pub is_text : Text → Bool
is_text [] = false
is_text (c ∷ t) = true

unfoldable pub is_internal : Address → Bool
is_internal address = text_eq address.type_ (text "InternalIP") && is_text address.address

-- sorted({… for node in nodes … for address in node.status.addresses …})
unfoldable pub add_addresses : List Address → List Text → List Text
unfolding insert_host is_internal
add_addresses [] hosts = hosts
add_addresses (address ∷ addresses) hosts =
    let rest = add_addresses addresses hosts in
    if is_internal address then insert_host address.address rest else rest

abbrev pub addresses_of : Node → List Address
addresses_of node = elim node.addresses [ none ↦ [] | some addresses ↦ addresses ]

unfoldable pub internal_hosts : List Node → List Text
unfolding add_addresses
internal_hosts [] = []
internal_hosts (node ∷ nodes) = add_addresses (addresses_of node) (internal_hosts nodes)

abbrev pub endpoint_of : Text → ℕ → List Text → Outcome NodePortEndpoint
endpoint_of name port [] =
    runtime_error (text "no Kubernetes node InternalIP addresses are available")
endpoint_of name port (host ∷ hosts) =
    returned (record { service_name = name; hosts = host ∷ hosts; port = port })

-- annotations and annotations.get(OWNER_ANNOTATION) == self.app_name
unfoldable pub is_owned : Text → Option Dict → Bool
is_owned app_name none = false
is_owned app_name (some annotations) = elim (lookup owner_annotation annotations) [
  | none ↦ false
  | some owner ↦ text_eq owner app_name
]

module _ (c : NodeClient) (namespace app_name : Text) where
  abbrev read_hosts : ℕ → Reply (List Node) × c.World → Outcome NodePortEndpoint × c.World
  read_hosts port (fault f, w) = (raised f, w)
  read_hosts port (done nodes, w) =
      (endpoint_of (service_name app_name) port (internal_hosts nodes), w)

  abbrev after_list : SeenService → Reply (Unit {0}) × c.World → Outcome NodePortEndpoint × c.World
  after_list seen (fault f, w) = (raise_for_api_error f, w)
  after_list seen (done _, w) = elim (node_port_of seen.node_ports) [
    | none ↦ (runtime_error (text "controller NodePort has not been allocated"), w)
    | some port ↦ read_hosts port (c.read_nodes w)
  ]

  abbrev after_get : Reply SeenService × c.World → Outcome NodePortEndpoint × c.World
  after_get (fault f, w) = (raise_for_api_error f, w)
  after_get (done seen, w) = after_list seen (c.list_nodes w)

  abbrev after_apply : Reply (Unit {0}) × c.World → Outcome NodePortEndpoint × c.World
  after_apply (fault f, w) = (raise_for_api_error f, w)
  after_apply (done _, w) = after_get (c.get (service_name app_name) namespace w)

  -- reconcile
  unfoldable pub reconcile : c.World → Outcome NodePortEndpoint × c.World
  unfolding nodeport_service raise_for_api_error internal_hosts node_port_of
  reconcile w = after_apply (c.apply (nodeport_service namespace app_name) w)

  abbrev pub cleanup_error : Fault → Outcome (Unit {0})
  cleanup_error f = if f.code == 404 then returned tt else raise_for_api_error f

  abbrev pub after_delete : Reply (Unit {0}) × c.World → Outcome (Unit {0}) × c.World
  after_delete (fault f, w) = (cleanup_error f, w)
  after_delete (done _, w) = (returned tt, w)

  abbrev pub after_look : Reply SeenService × c.World → Outcome (Unit {0}) × c.World
  after_look (fault f, w) = (cleanup_error f, w)
  after_look (done seen, w) =
      if is_owned app_name seen.annotations
      then after_delete (c.delete (service_name app_name) namespace w)
      else (returned tt, w)

  -- cleanup
  unfoldable pub cleanup : c.World → Outcome (Unit {0}) × c.World
  unfolding is_owned raise_for_api_error
  cleanup w = after_look (c.get (service_name app_name) namespace w)
