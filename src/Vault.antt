-- ===== src/Vault.antt =====
-- src/demo_controller/vault.py: how the Vault client sends one request. The HTTP client and the
-- clock are parameters: calls act on an abstract state, in which Vault and the network are.
pub mod Client
pub mod Token
pub mod Requests
pub mod Lookup
pub mod Bounds
pub mod Sound
use demos_rework.Base.{
  Option, ℕ, ◌+◌, ◌≤◌, ◌≡◌, refl, ap, Bool, true, false, not, arith, if◌then◌else◌, Bool-cases, inl,
  inr,
}
use demos_rework.Base.Text.{Text}
use demos_rework.Base.Json.{Json}
use demos_rework.Models.Config.{Dict}

-- httpx.TransportError: the kinds that are told apart, and any other by its name.
pub data TransportError : Type 0 where
  pool_timeout connect_timeout connect_error proxy_error : TransportError
  other_transport : Text → TransportError

-- A request: its method, URL, headers and JSON body.
pub record Call : Type 0 where
  pub method : Text
  pub url : Text
  pub headers : Dict
  pub json : Option Json

-- A response: its status, and its body as response.json() reads it, if it is JSON.
pub record Response : Type 0 where
  pub status : ℕ
  pub json : Option Json

-- What `await self.client.request(…)` gives or raises.
pub data Attempt : Type 0 where
  response : Response → Attempt
  transport : TransportError → Attempt
  -- any other httpx.HTTPError, and any other exception
  http_error broken : Text → Attempt

pub record Transport : Type 1 where
  pub World : Type 0
  -- client.request(…)
  pub send : Call → World → Attempt × World
  -- _client_factory(), and the close of the previous client
  pub replace_client : World → World
  -- asyncio.sleep(0.1)
  pub pause : World → World
  -- time.monotonic()
  pub clock : World → ℕ

-- isinstance(error, (PoolTimeout, ConnectTimeout, ConnectError, ProxyError))
unfoldable pub is_unsent : TransportError → Bool
is_unsent (other_transport name) = false
is_unsent _ = true

module _ (t : Transport) where
  open t use {World, send, replace_client, pause}

  -- The second attempt: its error is raised in any case.
  abbrev pub last_attempt : Attempt × World → Attempt × World
  last_attempt (transport e, w) = (transport e, replace_client w)
  last_attempt (a, w) = (a, w)

  -- The first attempt.
  abbrev pub first_attempt : Bool → Call → Attempt × World → Attempt × World
  first_attempt owns_client call (transport e, w) =
      if not owns_client
      then (transport e, w)
      else if is_unsent e
      then last_attempt (send call (pause (replace_client w)))
      else (transport e, replace_client w)
  first_attempt owns_client call (a, w) = (a, w)

  -- _request; the flag is _owns_client
  unfoldable pub request : Bool → Call → World → Attempt × World
  request owns_client call w = first_attempt owns_client call (send call w)
