-- ===== src/Charm/Unit/Ready.antt =====
-- When a handler makes the unit active.
use mathlib.Core.Path.{subst}
use demos_rework.Base.{
  ◌≡◌, ◌≢◌, refl, sym, Bool, true, false, Option, none, some, inl, inr, ◌⊎◌, List, [], ◌∷◌, ◌++◌,
  ◌==◌,
}
use demos_rework.Base.Text.{Text, text, strip}
use demos_rework.Base.Json.{Codec}
use demos_rework.Models.Config.{Dict}
use demos_rework.Charm.Adapter.{
  NodeClient, NodePortEndpoint, Outcome, returned, no_permission, runtime_error, raised, reconcile,
}
use demos_rework.Charm.Environment.{Juju, Options, environment}
use demos_rework.Charm.Status.{active, workload_status}
use demos_rework.Charm.Unit.{
  Surroundings, Route, State, route_of, routes_of, has_relation, after_reconcile, publish_route,
  set_workload_status, if_published, publish_as, connect_as, planned, configure_as, configure,
}

-- The data of one relation: the NodePort Service with its one port and the addresses of the nodes,
-- the two hosts of the options without dots around them, every path, and the check of /readyz at the
-- same port.
pub record IsAnnounced (config : Options) (endpoint : NodePortEndpoint) (address : Text)
    (route : Route) : Type 0 where
  pub service : route.service ≡ endpoint.service_name
  pub ports : route.ports ≡ endpoint.port ∷ []
  pub hosts : route.hosts ≡ endpoint.hosts
  pub hostname : route.hostname ≡ strip (λ c. c == b'.') config.api_hostname
  pub wildcard :
      route.additional_hostnames ≡ (text "*." ++ strip (λ c. c == b'.') config.hostname_suffix) ∷ []
  pub paths : route.paths ≡ text "/" ∷ []
  pub check_path : route.check_path ≡ text "/readyz"
  pub check_port : route.check_port ≡ endpoint.port
  pub bound : route.address ≡ address

-- Each relation, by its address, has its data.
abbrev pub AreAnnounced : Options → NodePortEndpoint → List Text → List Route → Type 0
AreAnnounced config endpoint [] [] = Unit
AreAnnounced config endpoint (address ∷ relations) (route ∷ routes) =
    IsAnnounced config endpoint address route × AreAnnounced config endpoint relations routes
AreAnnounced config endpoint _ _ = ⊥

routes_of-AreAnnounced :
    (config : Options) (endpoint : NodePortEndpoint) (relations : List Text)
    → AreAnnounced config endpoint relations (routes_of config endpoint relations)
unfolding routes_of route_of
routes_of-AreAnnounced config endpoint [] = tt
routes_of-AreAnnounced config endpoint (address ∷ relations) = (
  record {
    service = refl;
    ports = refl;
    hosts = refl;
    hostname = refl;
    wildcard = refl;
    paths = refl;
    check_path = refl;
    check_port = refl;
    bound = refl;
  },
  routes_of-AreAnnounced config endpoint relations,
)

-- What holds when the charm has made the unit active.
pub record IsServed (codec : Codec) (c : NodeClient) (juju : Juju) (seen : Surroundings)
    (before after : State c.World) : Type 0 where
  pub environ : Dict
  pub endpoint : NodePortEndpoint
  pub is_environment : environment codec juju ≡ some environ
  pub layer : after.layer ≡ some environ
  pub leads : seen.is_leader ≡ true
  pub related : has_relation seen.relations ≡ true
  pub applied :
      reconcile c juju.model_name juju.app_name before.world ≡ (returned endpoint, after.world)
  pub published : AreAnnounced juju.config endpoint seen.relations after.routes
  pub healthy : workload_status seen.health ≡ active

module _ (codec : Codec) (c : NodeClient) (juju : Juju) (seen : Surroundings) where
  -- What a pass over the NodePort says of the state, where it succeeds.
  abbrev Published : State c.World → Bool × State c.World → Type 0
  Published s p =
      (endpoint : NodePortEndpoint) × (seen.is_leader ≡ true)
      × (reconcile c juju.model_name juju.app_name s.world ≡ (returned endpoint, p.1.world))
      × (p.1.routes ≡ routes_of juju.config endpoint seen.relations)
      × (p.1.layer ≡ s.layer)

  after_reconcile-Published :
      (s : State c.World) (p : Outcome NodePortEndpoint × c.World)
      → reconcile c juju.model_name juju.app_name s.world ≡ p
      → seen.is_leader ≡ true
      → (after_reconcile codec c juju seen p.0 (record s { world = p.1 })).0 ≡ true
      → Published s (after_reconcile codec c juju seen p.0 (record s { world = p.1 }))
  after_reconcile-Published s (returned endpoint, w) e leads h = (endpoint, leads, e, refl, refl)
  after_reconcile-Published s (no_permission, w) e leads h = cc h
  after_reconcile-Published s (runtime_error t, w) e leads h = cc h
  after_reconcile-Published s (raised f, w) e leads h = cc h

  publish_as-Published :
      (s : State c.World) (leads : Bool)
      → seen.is_leader ≡ leads
      → (p : Outcome NodePortEndpoint × c.World)
      → reconcile c juju.model_name juju.app_name s.world ≡ p
      → (publish_as codec c juju seen leads p s).0 ≡ true
      → Published s (publish_as codec c juju seen leads p s)
  publish_as-Published s true leads (outcome, w) e h =
      after_reconcile-Published s (outcome, w) e leads h
  publish_as-Published s false leads p e h = cc h

  -- A status that is active behind a route that is not published was active before.
  publish_as-other :
      (s : State c.World) (leads : Bool) (p : Outcome NodePortEndpoint × c.World)
      → (publish_as codec c juju seen leads p s).0 ≡ false
      → (publish_as codec c juju seen leads p s).1.status ≡ active
      → s.status ≡ active
  publish_as-other s false p h a = a
  publish_as-other s true (returned endpoint, w) h a = cc h
  publish_as-other s true (no_permission, w) h a = cc a
  publish_as-other s true (runtime_error t, w) h a = cc a
  publish_as-other s true (raised f, w) h a = cc a

  if_published-active :
      (s : State c.World) (p : Bool × State c.World)
      → (p.0 ≡ true → Published s p)
      → (p.0 ≡ false → p.1.status ≡ active → s.status ≡ active)
      → (if_published codec c juju seen p).status ≡ active
      → (s.status ≡ active)
        ⊎ (Published s (true, if_published codec c juju seen p)
            × (workload_status seen.health ≡ active))
  unfolding set_workload_status
  if_published-active s (true, t) good other h = inr (good refl, h)
  if_published-active s (false, t) good other h = inl (other refl h)

  connect_as-active :
      (s : State c.World) (related : Bool)
      → (connect_as codec c juju seen related s).status ≡ active
      → (s.status ≡ active)
        ⊎ ((related ≡ true)
            × Published s (true, connect_as codec c juju seen related s)
            × (workload_status seen.health ≡ active))
  unfolding publish_route
  connect_as-active s false h = cc h
  connect_as-active s true h =
      let p = reconcile c juju.model_name juju.app_name s.world in
      elim (if_published-active s (publish_route codec c juju seen s)
        (publish_as-Published s seen.is_leader refl p refl) (publish_as-other s seen.is_leader p)
        h) [ inl before ↦ inl before | inr (good, healthy) ↦ inr (refl, good, healthy) ]

  configure_as-active :
      (s : State c.World) (given : Option Dict) (connected : Bool)
      → environment codec juju ≡ given
      → (configure_as codec c juju seen given connected s).status ≡ active
      → (s.status ≡ active)
        ⊎ IsServed codec c juju seen s (configure_as codec c juju seen given connected s)
  configure_as-active s none connected e h = cc h
  configure_as-active s (some environ) false e h = cc h
  configure_as-active s (some environ) true e h =
      elim (connect_as-active (planned codec c juju seen environ s) (has_relation seen.relations)
        h) [
          | inl before ↦ inl before
          | inr (related, (endpoint, leads, applied, published, layer), healthy) ↦ inr (record {
            environ = environ;
            endpoint = endpoint;
            is_environment = e;
            layer = layer;
            leads = leads;
            related = related;
            applied = applied;
            published =
                subst (AreAnnounced juju.config endpoint seen.relations) (sym published)
                  (routes_of-AreAnnounced juju.config endpoint seen.relations);
            healthy = healthy;
          })
        ]

-- A unit that the configuration makes active, and that was not active before, runs a container
-- with the environment of the options and secrets, leads, has a relation, has written to every
-- relation the name, the port and the hosts of the NodePort with the host names of the options, and
-- its controller's diagnostics are fine.
pub configure-IsServed :
    (codec : Codec) (c : NodeClient) (juju : Juju) (seen : Surroundings) (s : State c.World)
    → s.status ≢ active
    → (configure codec c juju seen s).status ≡ active
    → IsServed codec c juju seen s (configure codec c juju seen s)
unfolding configure
configure-IsServed codec c juju seen s before h =
    elim (configure_as-active codec c juju seen s (environment codec juju) seen.can_connect refl
      h) [ inl was ↦ absurd (before was) | inr served ↦ served ]
