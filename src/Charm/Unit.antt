-- ===== src/Charm/Unit.antt =====
-- charm/src/charm.py: the handlers of the charm's events. What Juju, Pebble and the diagnostics
-- say is an argument; what a handler changes is its state.
pub mod Handlers
pub mod Ready
use demos_rework.Base.{
  ℕ, ◌+◌, Bool, true, false, not, Option, none, some, List, [], ◌∷◌, ◌++◌, if◌then◌else◌,
}
use demos_rework.Base.Text.{Text, text, strip}
use demos_rework.Base.Json.{Json, Codec}
use demos_rework.Models.Config.{Dict}
use demos_rework.Charm.Adapter.{
  NodeClient, NodePortEndpoint, Outcome, returned, no_permission, runtime_error, raised, reconcile,
}
use demos_rework.Charm.Environment.{Juju, Options, is_dot, environment}
use demos_rework.Charm.Status.{UnitStatus, active, waiting, maintenance, blocked, workload_status}

-- What the handlers ask: the lead, the container, its service (`none` is no such service), the
-- relations by the address that binds them, and the controller's diagnostics.
pub record Surroundings : Type 0 where
  pub is_leader : Bool
  pub can_connect : Bool
  pub service_running : Option Bool
  pub relations : List Text
  pub health : Option Json

-- The data of a relation: those of the application, before json.dumps and without the protocol and
-- the intervals of the check, which are constants, and the unit's address.
pub record Route : Type 0 where
  pub service : Text
  pub ports : List ℕ
  pub hosts : List Text
  pub hostname : Text
  pub additional_hostnames : List Text
  pub paths : List Text
  pub check_path : Text
  pub check_port : ℕ
  pub address : Text

-- What the handlers change: the status, the layer of the container by the environment of its
-- service, the opened ports, the number of times that the container was planned again and the
-- service was started again, the data of the relations, and the cluster.
pub record State (W : Type 0) : Type 0 where
  pub status : UnitStatus
  pub layer : Option Dict
  pub ports : List ℕ
  pub replans : ℕ
  pub restarts : ℕ
  pub routes : List Route
  pub world : W

unfoldable pub route_of : Options → NodePortEndpoint → Text → Route
route_of config endpoint address = record {
  service = endpoint.service_name;
  ports = endpoint.port ∷ [];
  hosts = endpoint.hosts;
  hostname = strip is_dot config.api_hostname;
  additional_hostnames = (text "*." ++ strip is_dot config.hostname_suffix) ∷ [];
  paths = text "/" ∷ [];
  check_path = text "/readyz";
  check_port = endpoint.port;
  address = address;
}

unfoldable pub routes_of : Options → NodePortEndpoint → List Text → List Route
unfolding route_of
routes_of config endpoint [] = []
routes_of config endpoint (address ∷ relations) =
    route_of config endpoint address ∷ routes_of config endpoint relations

abbrev pub no_secrets : UnitStatus
no_secrets = blocked (text "configure Vault AppRole and HMAC secrets")

abbrev pub no_container : UnitStatus
no_container = waiting (text "waiting for controller container")

abbrev pub no_relation : UnitStatus
no_relation = waiting (text "waiting for haproxy-route relation")

abbrev pub has_relation : List Text → Bool
has_relation [] = false
has_relation (address ∷ relations) = true

module _ (codec : Codec) (c : NodeClient) (juju : Juju) (seen : Surroundings) where
  abbrev with_status : UnitStatus → State c.World → State c.World
  with_status status s = record s { status = status }

  abbrev pub after_reconcile : Outcome NodePortEndpoint → State c.World → Bool × State c.World
  after_reconcile (returned endpoint) s =
      (true, record s { routes = routes_of juju.config endpoint seen.relations })
  after_reconcile no_permission s = (
    false,
    with_status (blocked (text "Kubernetes API access denied; deploy this charm with --trust")) s,
  )
  after_reconcile _ s = (false, with_status (waiting (text "waiting for controller NodePort")) s)

  -- For the leader, and for another unit.
  abbrev pub publish_as :
      Bool → Outcome NodePortEndpoint × c.World → State c.World → Bool × State c.World
  publish_as true (outcome, world) s = after_reconcile outcome (record s { world = world })
  publish_as false _ s = (false, s)

  -- _publish_route
  unfoldable pub publish_route : State c.World → Bool × State c.World
  unfolding routes_of
  publish_route s = publish_as seen.is_leader (reconcile c juju.model_name juju.app_name s.world) s

  -- _set_workload_status
  unfoldable pub set_workload_status : State c.World → State c.World
  set_workload_status s = with_status (workload_status seen.health) s

  abbrev pub if_published : Bool × State c.World → State c.World
  if_published (true, s) = set_workload_status s
  if_published (false, s) = s

  -- _configure, behind the layer, the port and the plan
  abbrev pub connect_as : Bool → State c.World → State c.World
  connect_as false s = with_status no_relation s
  connect_as true s = if_published (publish_route s)

  abbrev pub planned : Dict → State c.World → State c.World
  planned environ s = record s {
    layer = some environ;
    ports = 8080 ∷ s.ports;
    replans = s.replans + 1;
  }

  abbrev pub configure_as : Option Dict → Bool → State c.World → State c.World
  configure_as none connected s = with_status no_secrets s
  configure_as (some environ) false s = with_status no_container s
  configure_as (some environ) true s = connect_as (has_relation seen.relations) (planned environ s)

  -- _configure
  unfoldable pub configure : State c.World → State c.World
  unfolding publish_route set_workload_status
  configure s = configure_as (environment codec juju) seen.can_connect s

  abbrev pub is_running : Option Bool → Bool
  is_running none = false
  is_running (some running) = running

  -- _update_status, for a running service
  unfoldable pub refresh : State c.World → State c.World
  unfolding publish_route set_workload_status
  refresh s =
      if not (has_relation seen.relations)
      then with_status no_relation s
      else (if seen.is_leader then if_published (publish_route s) else set_workload_status s)

  -- _update_status
  unfoldable pub update_status : State c.World → State c.World
  unfolding refresh
  update_status s = elim (environment codec juju) [
    | none ↦ with_status no_secrets s
    | some environ ↦
        if not seen.can_connect
        then with_status no_container s
        else (if is_running seen.service_running
            then refresh s
            else with_status (maintenance (text "controller service is not running")) s)
  ]
