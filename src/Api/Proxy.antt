-- ===== src/Api/Proxy.antt =====
-- src/demo_controller/api.py: proxy, from the visitor's request to the one that is sent to the
-- demo.
use mathlib.Core.Path.{subst}
use demos_rework.Base.{
  ℕ, zero, suc, ◌≡◌, ◌≢◌, refl, ◌∙◌, ap, Bool, not, ◌||◌, Option, none, some, List, [], ◌∷◌, ◌++◌,
  ◌==◌, arith, if◌then◌else◌, Bool-cases, inl, inr,
}
use demos_rework.Base.Text.{Text, text, text_eq, text_eq_iff, lower, ends_with, rstrip}
use demos_rework.Base.Decimal.{str}
use demos_rework.Base.Result.{Result, ok, raise}
use demos_rework.Hashes.{Hashes}
use demos_rework.Http.{Request, header}
use demos_rework.Models.Config.{Dict, lookup}
use demos_rework.Naming.{resource_name}
use demos_rework.Store.{Store}
use demos_rework.Store.Rows.{DemoRecord}
use demos_rework.Store.Keys.{Unique}
use demos_rework.Store.Fields.{get, get_ready_by_hostname}
use demos_rework.Store.Serving.{IsServed, get_ready_by_hostname_sound}
use demos_rework.Auth.{insert}
use demos_rework.Api.{Service}
use demos_rework.Api.Serve.{Result-cases}

-- s.split(":", 1)[0]
unfoldable pub before_colon : Text → Text
before_colon [] = []
before_colon (c ∷ s) = let rest = before_colon s in if c == b':' then [] else c ∷ rest

unfoldable pub requested_host : Request → Text
unfolding before_colon
requested_host request =
    rstrip (λ c. c == b'.') (lower (before_colon (header (text "host") [] request)))

unfoldable pub is_withheld : Text → Bool
is_withheld key =
    text_eq (lower key) (text "host")
    || text_eq (lower key) (text "content-length")
    || text_eq (lower key) (text "connection")

-- {key: value for key, value in request.headers.items() if …}
unfoldable pub pass_headers : Dict → Dict → Dict
pass_headers d [] = d
pass_headers d ((key, v) ∷ rest) = pass_headers (if is_withheld key then d else insert key v d) rest

-- What httpx.Request is called with, for the request to the demo.
pub record Upstream : Type 0 where
  pub method : Text
  pub target : Text
  pub headers : Dict
  pub content : List ℕ

abbrev pub with_query : Text → Text
with_query [] = []
with_query (c ∷ q) = text "?" ++ (c ∷ q)

unfoldable pub target : Hashes → Text → DemoRecord → ℕ → Text → Text → Text
target h namespace r port path query =
    text "http://"
    ++ (resource_name h r.repository r.pr
        ++ (text "."
            ++ (namespace
                ++ (text ".svc.cluster.local:"
                    ++ (str port ++ (text "/" ++ (path ++ with_query query)))))))

unfoldable pub upstream : Hashes → Text → DemoRecord → ℕ → Text → Request → Upstream
unfolding target pass_headers
upstream h namespace r port path request =
    let host = requested_host request in
    record {
      method = request.method;
      target = target h namespace r port path request.query;
      headers =
          insert (text "x-forwarded-host") host
            (insert (text "host") host (pass_headers [] request.headers));
      content = request.body;
    }

-- The demo that is found, unless it has no port, or the port 0.
unfoldable pub route : Hashes → Text → Text → Request → Option DemoRecord → Option Upstream
unfolding upstream
route h namespace path request none = none
route h namespace path request (some r) = elim r.port [
  | none ↦ none
  | some zero ↦ none
  | some (suc n) ↦ some (upstream h namespace r (suc n) path request)
]

-- proxy, up to `client.send`; `none` is the empty response with status 404
unfoldable pub proxy : Hashes → Service → Text → Request → Store → Result (Option Upstream)
unfolding route requested_host
proxy h service path request s =
    let host = requested_host request in
    if not (ends_with (text "." ++ service.hostname_suffix) host)
    then ok none
    else (elim (get_ready_by_hostname host s) [
      | raise e ↦ raise e
      | ok found ↦ ok (route h service.namespace path request found)
    ])

lookup-insert :
    (k j v : Text) (d : Dict)
    → lookup j (insert k v d) ≡ (if text_eq k j then some v else lookup j d)
unfolding lookup insert
lookup-insert k j v [] = refl
lookup-insert k j v ((i, w) ∷ d) =
    ground (arith, lookup-insert k j v d, text_eq_iff i k, text_eq_iff i j, text_eq_iff k j)

with_query-tail :
    (q : Text) → (q ≡ [] → with_query q ≡ []) × (q ≢ [] → with_query q ≡ text "?" ++ q)
with_query-tail [] = (λ e. refl, λ filled. absurd (filled refl))
with_query-tail (c ∷ q) = (λ e. cc e, λ filled. refl)

-- A request that goes to the demo of a row, and says for which host it came.
pub record IsRouted (h : Hashes) (namespace path : Text) (request : Request) (s : Store)
    (u : Upstream) : Type 0 where
  pub row : DemoRecord
  pub listed : get row.repository row.pr s ≡ some row
  pub served : IsServed s.hostname_suffix (requested_host request) row
  pub port : ℕ
  pub port_of_row : row.port ≡ some port
  -- What follows the path: the query behind a question mark, if there is one.
  pub tail : Text
  pub tail_of_query :
      (request.query ≡ [] → tail ≡ []) × (request.query ≢ [] → tail ≡ text "?" ++ request.query)
  pub address :
      u.target
      ≡ text "http://"
        ++ (resource_name h row.repository row.pr
            ++ (text "."
                ++ (namespace
                    ++ (text ".svc.cluster.local:" ++ (str port ++ (text "/" ++ (path ++ tail)))))))
  pub host : lookup (text "host") u.headers ≡ some (requested_host request)
  pub forwarded : lookup (text "x-forwarded-host") u.headers ≡ some (requested_host request)
  pub sent : (u.method ≡ request.method) × (u.content ≡ request.body)

route-some :
    (h : Hashes) (namespace path : Text) (request : Request) (o : Option DemoRecord) (u : Upstream)
    → route h namespace path request o ≡ some u
    → (r : DemoRecord) × (port : ℕ) × (o ≡ some r)
      × (r.port ≡ some port)
      × (upstream h namespace r port path request ≡ u)
unfolding route
route-some h namespace path request none u e = cc
route-some h namespace path request (some r) u e = ported r.port refl e
  where
    ported :
        (p : Option ℕ)
        → r.port ≡ p
        → (elim p [
          | none ↦ none
          | some zero ↦ none
          | some (suc n) ↦ some (upstream h namespace r (suc n) path request)
        ])
          ≡ some u
        → (r' : DemoRecord) × (port : ℕ) × (some r ≡ some r')
          × (r'.port ≡ some port)
          × (upstream h namespace r' port path request ≡ u)
    ported none e g = cc
    ported (some zero) e g = cc
    ported (some (suc n)) e g = (r, suc n, refl, e, cc)

upstream_hosts :
    (h : Hashes) (namespace : Text) (r : DemoRecord) (port : ℕ) (path : Text) (request : Request)
    → let u = upstream h namespace r port path request in
      (lookup (text "host") u.headers ≡ some (requested_host request))
      × (lookup (text "x-forwarded-host") u.headers ≡ some (requested_host request))
unfolding upstream
upstream_hosts h namespace r port path request = (
  rw (lookup-insert (text "x-forwarded-host") (text "host"))
      (rw (lookup-insert (text "host") (text "host")) (unfold text text_eq in refl)),
  rw (lookup-insert (text "x-forwarded-host") (text "x-forwarded-host"))
      (unfold text text_eq in refl),
)

-- A request that the proxy sends on goes to the Service and the port of a demo that the store
-- holds, that is wanted, has a port, is not being deleted, and has the host for which the visitor
-- asked; its headers host and x-forwarded-host are that host, and its method and body are the
-- visitor's.
pub proxy_sound :
    (h : Hashes) (service : Service) (path : Text) (request : Request) (s : Store) (u : Upstream)
    → Unique s.demos
    → proxy h service path request s ≡ ok (some u)
    → IsRouted h service.namespace path request s u
unfolding proxy
proxy_sound h service path request s u unique e =
    let host = requested_host request in
    elim (Bool-cases (ends_with (text "." ++ service.hostname_suffix) host)) [
      | inr outside ↦ cc (rw (outside, proxy) at e)
      | inl inside ↦ elim (Result-cases (get_ready_by_hostname host s)) [
        | inl (error, failed) ↦ cc (rw (inside, failed, proxy) at e)
        | inr (found, answer) ↦
            let routed : ok (route h service.namespace path request found) ≡ ok (some u) =
              (rw (inside, answer, proxy) at e) in
            let (r, port, is_r, has_port, sent) =
              route-some h service.namespace path request found u (cc routed) in
            let (listed, served) =
              get_ready_by_hostname_sound host s r unique (answer ∙ ap ok is_r) in
            let (host_set, forwarded) = upstream_hosts h service.namespace r port path request in
            subst (IsRouted h service.namespace path request s) sent (record {
              row = r;
              listed = listed;
              served = served;
              port = port;
              port_of_row = has_port;
              tail = with_query request.query;
              tail_of_query = with_query-tail request.query;
              address = unfold upstream target in refl;
              host = host_set;
              forwarded = forwarded;
              sent = unfold upstream in (refl, refl);
            })
      ]
    ]
