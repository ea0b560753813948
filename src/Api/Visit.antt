-- ===== src/Api/Visit.antt =====
-- src/demo_controller/api.py: proxy as a whole. What the HTTP client makes of a request is a
-- parameter: whether httpx.Request can be built, and what `send` does.
use demos_rework.Base.{◌≡◌, Bool, true, false, Option, none, some, [], ◌⊎◌}
use demos_rework.Base.Text.{Text, text}
use demos_rework.Base.Result.{Error, Result, ok, raise, http, uncaught}
use demos_rework.Hashes.{Hashes}
use demos_rework.Http.{Request}
use demos_rework.Store.{Store}
use demos_rework.Store.Keys.{Unique}
use demos_rework.Api.{Service}
use demos_rework.Api.Proxy.{Upstream, proxy, IsRouted}
use demos_rework.Api.Response.{Answer, respond}

-- What client.send gives or raises.
pub data Sending : Type 0 where
  gives : Answer → Sending
  -- an httpx.HTTPError
  http_error : Sending
  -- another exception
  breaks : Sending

-- The client, on an abstract state. `builds` is whether httpx.Request takes its arguments: it raises
-- an InvalidURL, or a UnicodeEncodeError, and no HTTPError, where it does not.
pub record Sender : Type 1 where
  pub World : Type 0
  pub builds : Upstream → Bool
  pub send : Upstream → World → Sending × World

abbrev pub empty_404 : Answer
empty_404 = record { status = 404; headers = []; content = [] }

abbrev pub answered : Sending → Result Answer
answered (gives a) = ok (respond a)
answered http_error = raise (http 503 (text "demo backend unavailable"))
answered breaks = raise uncaught

module _ (sender : Sender) where
  abbrev pub send_built : Bool → Upstream → sender.World → Result Answer × sender.World
  send_built false u w = (raise uncaught, w)
  send_built true u w = let (reply, w') = sender.send u w in (answered reply, w')

  abbrev pub send_on : Result (Option Upstream) → sender.World → Result Answer × sender.World
  send_on (raise e) w = (raise e, w)
  send_on (ok none) w = (ok empty_404, w)
  send_on (ok (some u)) w = send_built (sender.builds u) u w

  -- proxy
  unfoldable pub visit :
      Hashes → Service → Text → Request → Store → sender.World → Result Answer × sender.World
  unfolding proxy respond
  visit h service path request s w = send_on (proxy h service path request s) w

  module _ (h : Hashes) (service : Service) (path : Text) (request : Request) (s : Store)
      (unique : Unique s.demos) (w : sender.World) where
    -- Nothing is sent, and the outcome is an empty 404 or an error.
    abbrev Unsent : Result Answer × sender.World → Type 0
    Unsent p = (p.1 ≡ w) × ((p.0 ≡ ok empty_404) ⊎ ((e : Error) × (p.0 ≡ raise e)))

    abbrev SentOn : Result Answer × sender.World → Type 0
    SentOn p =
        (u : Upstream) × IsRouted h service.namespace path request s u
        × (sender.builds u ≡ true)
        × (p ≡ (answered (sender.send u w).0, (sender.send u w).1))
