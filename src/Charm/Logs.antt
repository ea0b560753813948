-- ===== src/Charm/Logs.antt =====
-- charm/src/demo_logs.py: the logs of a demo's workload. The list of pods, the decoding of a frame
-- and the frames that the websocket delivers before it disconnects are arguments.
pub mod Bounds
pub mod Newest
use demos_rework.Base.{
  ℕ, ◌+◌, Bool, true, false, not, ◌&&◌, ◌||◌, Option, none, some, List, [], ◌∷◌, ◌++◌, ltb, leb,
  ◌==◌, if◌then◌else◌, length, take, drop, ◌⊎◌, inl, inr,
}
use demos_rework.Base.Text.{Text, text, text_eq, starts_with}
use demos_rework.Base.Decimal.{str}
use demos_rework.Base.Int.{ℤ, pos, negsuc}
use demos_rework.Base.Utf8.{encode}
use demos_rework.Hashes.{Hashes}
use demos_rework.Models.Config.{Dict}

-- DEFAULT_TAIL, MAX_TAIL and MAX_RESULT_BYTES
abbrev pub default_tail : ℕ
default_tail = 200

abbrev pub max_tail : ℕ
max_tail = 2000

abbrev pub max_result : ℕ
max_result = 64_000

unfoldable pub repository_hash : Hashes → Text → Text
repository_hash h repository = take 16 (h.sha256 (encode repository))

unfoldable pub demo_pod_selector : Hashes → Text → ℕ → Dict
unfolding repository_hash
demo_pod_selector h repository pr =
    (text "demos.canonical.com/repository-hash", repository_hash h repository)
    ∷ (text "demos.canonical.com/pr", str pr)
    ∷ []

-- A pod: its phase and its start, if it has a status, and whether it is being deleted.
pub record Pod : Type 0 where
  pub name : Text
  pub namespace : Text
  pub phase : Option Text
  pub start_time : Option ℕ
  pub is_deleting : Bool

abbrev pub is_running : Option Text → Bool
is_running none = false
is_running (some phase) = text_eq phase (text "Running")

-- The start of a candidate.
unfoldable pub candidate : Pod → Option ℕ
candidate pod = if is_running pod.phase && not pod.is_deleting then pod.start_time else none

-- max(…, key=…, default=None): the first of the newest.
abbrev pub newer : Pod → ℕ → Option (Pod × ℕ) → Option (Pod × ℕ)
newer pod start none = some (pod, start)
newer pod start (some (other, later)) =
    if ltb start later then some (other, later) else some (pod, start)

unfoldable pub newest : List Pod → Option (Pod × ℕ)
unfolding candidate
newest [] = none
newest (pod ∷ pods) =
    let rest = newest pods in
    elim (candidate pod) [ none ↦ rest | some start ↦ newer pod start rest ]

-- select_demo_pod
unfoldable pub select_demo_pod : List Pod → Option Pod
unfolding newest
select_demo_pod pods = elim (newest pods) [ none ↦ none | some (pod, start) ↦ some pod ]

-- urllib.parse.urlencode, over its quote_plus
unfoldable pub urlencode : (Text → Text) → Dict → Text
urlencode quote [] = []
urlencode quote ((k, v) ∷ []) = quote k ++ (text "=" ++ quote v)
urlencode quote ((k, v) ∷ p ∷ d) =
    quote k ++ (text "=" ++ (quote v ++ (text "&" ++ urlencode quote (p ∷ d))))

unfoldable pub exec_url : (Text → Text) → Text → Text → ℕ → Text → Text → Text
unfolding urlencode
exec_url quote namespace pod_name tail api_host api_port =
    let params = urlencode quote (
      (text "command", text "pebble")
      ∷ (text "command", text "logs")
      ∷ (text "command", text "-n")
      ∷ (text "command", str tail)
      ∷ (text "container", text "workload")
      ∷ (text "stdin", text "false")
      ∷ (text "stdout", text "true")
      ∷ (text "stderr", text "true")
      ∷ (text "tty", text "false")
      ∷ []) in
    let path =
      text "/api/v1/namespaces/" ++ (namespace ++ (text "/pods/" ++ (pod_name ++ text "/exec"))) in
    text "wss://" ++ (api_host ++ (text ":" ++ (api_port ++ (path ++ (text "?" ++ params)))))

-- What a frame is: output, control output to be dropped, or empty, which is an IndexError.
pub data Frame : Type 0 where
  output : Text → Frame
  control : Frame
  no_channel : Frame

-- decode_log_frame
unfoldable pub decode_log_frame : (List ℕ → Text) → List ℕ → Frame
decode_log_frame decode [] = no_channel
decode_log_frame decode (channel ∷ data_) =
    let shown = decode data_ in
    if channel == 3 || starts_with (text "{\"metadata\"") shown then control else output shown

pub data Fetched : Type 0 where
  fetched : Text → Fetched
  -- DemoLogsError, and any other exception
  logs_error crashed : Text → Fetched

-- The loop of _exec_pebble_logs: what is gathered, and how much it is. The frames end where the
-- websocket disconnects.
unfoldable pub gather : (List ℕ → Text) → Text → ℕ → List (List ℕ) → Fetched
unfolding decode_log_frame
gather decode chunks total [] = fetched chunks
gather decode chunks total (data_ ∷ frames) = elim (ltb total max_result) [
  | false ↦ fetched chunks
  | true ↦ elim (decode_log_frame decode data_) [
    | no_channel ↦ crashed (text "IndexError")
    | control ↦ gather decode chunks total frames
    | output shown ↦ gather decode (chunks ++ shown) (total + length shown) frames
  ]
]

-- min(max(tail, 1), MAX_TAIL)
unfoldable pub clamp_tail : ℤ → ℕ
clamp_tail (negsuc n) = 1
clamp_tail (pos n) = if ltb n 1 then 1 else if ltb max_tail n then max_tail else n

-- What the exec of a pod gives: the frames, or the text of an error, for the number of lines asked.
abbrev pub Exec : Type 0
Exec = Text → Text → ℕ → Text ⊎ List (List ℕ)

abbrev pub exec_result : (List ℕ → Text) → Text ⊎ List (List ℕ) → Fetched
exec_result decode (inl message) = logs_error message
exec_result decode (inr frames) = gather decode [] 0 frames

-- fetch_demo_logs, on the pods that the selector lists
unfoldable pub fetch_demo_logs : (List ℕ → Text) → Exec → List Pod → Text → ℕ → ℤ → Fetched
unfolding select_demo_pod clamp_tail gather
fetch_demo_logs decode exec pods repository pr tail = elim (select_demo_pod pods) [
  | none ↦ logs_error (text "no running demo pod for " ++ (repository ++ (text "#" ++ str pr)))
  | some pod ↦ exec_result decode (exec pod.namespace pod.name (clamp_tail tail))
]
