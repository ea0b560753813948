-- ===== src/Workflow.antt =====
-- .github/scripts/demo_api.py: the client of the workflows. JSON and the parts of a URL are the
-- library's, and parameters; what a request is answered is an argument.
pub mod Output
pub mod Signing
pub mod Polling
pub mod Run
pub mod Main
use demos_rework.Base.{
  ℕ, ◌+◌, Bool, true, false, not, ◌&&◌, ◌||◌, Option, none, some, List, [], ◌∷◌, ◌++◌, ltb, ◌==◌,
  if◌then◌else◌, any, take,
}
use demos_rework.Base.Text.{Text, text, text_eq, lower, upper, rstrip, strip, replace}
use demos_rework.Base.Decimal.{str}
use demos_rework.Base.ParseInt.{is_space}
use demos_rework.Base.Utf8.{encode}
use demos_rework.Base.Json.{
  Json, null, boolean, number, string, array, object, Items, no_item, item, Members, no_member,
  member, Codec,
}
use demos_rework.Hashes.{Hashes}
use demos_rework.Models.Config.{Dict}
use demos_rework.Http.{Request}
use demos_rework.Auth.{join_lines}

-- urllib.parse.urlsplit(url): the parts that are read again.
pub record Urls : Type 0 where
  pub path_of : Text → Text
  pub query_of : Text → Text

-- ApiError: its text, and the status of the response, if there was one.
pub record ApiError : Type 0 where
  pub message : Text
  pub status : Option ℕ

pub data Outcome {ℓ} (A : Type ℓ) : Type ℓ where
  returned : A → Outcome A
  failed : ApiError → Outcome A
  -- another exception, by its text: nothing of the script catches it
  broken : Text → Outcome A

-- compact_json
unfoldable pub compact_json : Codec → Json → List ℕ
compact_json codec value = encode (codec.dumps value)

abbrev pub body_bytes : Codec → Option Json → List ℕ
body_bytes codec none = []
body_bytes codec (some body) = compact_json codec body

-- nonce or str(uuid.uuid4())
abbrev pub chosen_nonce : Text → Option Text → Text
chosen_nonce fresh none = fresh
chosen_nonce fresh (some []) = fresh
chosen_nonce fresh (some (c ∷ nonce)) = c ∷ nonce

unfoldable pub target_url : Text → Text → Text
target_url api_url path = rstrip (λ c. c == b'/') api_url ++ path

-- The path and, behind a question mark, the query, if there is one.
abbrev pub with_query : Text → Text → Text
with_query path [] = path
with_query path (c ∷ query) = path ++ (text "?" ++ (c ∷ query))

unfoldable pub request_target : Urls → Text → Text → Text
unfolding target_url
request_target urls api_url path =
    let target = target_url api_url path in with_query (urls.path_of target) (urls.query_of target)

-- What is signed.
unfoldable pub signed_text : Text → Text → Text → Text → List ℕ → List ℕ
signed_text method target timestamp nonce body =
    join_lines (encode (upper method) ∷ encode target ∷ encode timestamp ∷ encode nonce ∷ body ∷ [])

-- The request that urlopen sends: its target is the URL's, and header names keep their case.
pub record Call : Type 0 where
  pub method : Text
  pub url : Text
  pub headers : Dict
  pub data_ : Option (List ℕ)

abbrev pub data_of : Codec → Option Json → Option (List ℕ)
data_of codec none = none
data_of codec (some body) = some (compact_json codec body)

-- request, up to urlopen; `now` is the clock's reading and `fresh` a new UUID
unfoldable pub build_call :
    Hashes
    → Codec
    → Urls
    → ℕ
    → Text
    → Text
    → Text
    → Text
    → Text
    → Text
    → Option Json
    → Option Text
    → Call
unfolding signed_text request_target target_url
build_call h codec urls now fresh api_url method path repository key body nonce =
    let timestamp = str now in
    let used = chosen_nonce fresh nonce in
    let signature = h.hmac (encode key) (
      signed_text method (request_target urls api_url path) timestamp used
        (body_bytes codec body)) in
    record {
      method = upper method;
      url = target_url api_url path;
      headers =
          (text "Accept", text "application/json")
          ∷ (text "Content-Type", text "application/json")
          ∷ (text "User-Agent", text "github-actions-demos-client/1")
          ∷ (text "X-Demos-Nonce", used)
          ∷ (text "X-Demos-Repository", repository)
          ∷ (text "X-Demos-Signature", text "sha256=" ++ signature)
          ∷ (text "X-Demos-Timestamp", timestamp)
          ∷ [];
      data_ = data_of codec body;
    }

-- What urlopen gives or raises.
pub data Reply : Type 0 where
  -- a response, by its body
  answered : Text → Reply
  -- HTTPError: the status, and the body as it decodes
  refused : ℕ → Text → Reply
  -- URLError, by its reason
  unreachable : Text → Reply
  -- another exception, by its text: of the connection while a body is read, or of a body that
  -- json.loads cannot decode
  interrupted : Text → Reply

abbrev pub fail {ℓ} : {A : Type ℓ} → Text → Option ℕ → Outcome A
fail message status = failed (record { message = message; status = status })

abbrev pub as_object : Text → Option Json → Outcome Members
as_object call none = fail (call ++ text " returned invalid JSON") none
as_object call (some (object members)) = returned members
as_object call (some _) = fail (call ++ text " returned a non-object JSON response") none

-- request, behind urlopen; `call` is the method and the target, for the messages
unfoldable pub finish_call : Codec → Text → Reply → Outcome Members
finish_call codec call (refused code body) =
    fail (call ++ (text " returned HTTP " ++ (str code ++ (text ": " ++ take 2000 body))))
      (some code)
finish_call codec call (unreachable reason) = fail (call ++ (text " failed: " ++ reason)) none
finish_call codec call (interrupted message) = broken message
finish_call codec call (answered []) = returned no_member
finish_call codec call (answered (c ∷ body)) = as_object call (codec.loads (c ∷ body))

-- str(item), where isinstance(item, (str, int, float, bool))
abbrev pub scalar : Json → Option Text
scalar (boolean true) = some (text "True")
scalar (boolean false) = some (text "False")
scalar (number t) = some t
scalar (string t) = some t
scalar _ = none

abbrev pub listed : Text → List Text → Bool
listed t names = any (λ n. text_eq n t) names

abbrev pub or_search : Option Text → Text → Text
or_search none rest = rest
or_search (some t) rest = t

-- The first loop of find_value over an object: its own values.
unfoldable pub find_here : List Text → Members → Option Text
find_here names no_member = none
find_here names (member key v rest) =
    let later = find_here names rest in
    if listed (lower key) names then (elim (scalar v) [ none ↦ later | some t ↦ some t ]) else later

abbrev pub or_later : Text → Text → Text
or_later [] later = later
or_later (c ∷ found) later = c ∷ found

-- The values of an object or a list, searched one after the other, and find_value itself.
unfoldable mutual
  unfolding find_here

  pub find_value : List Text → Json → Text
  find_value names (object members) =
      or_search (find_here names members) (find_member names members)
  find_value names (array items) = find_item names items
  find_value names null = []
  find_value names (boolean b) = []
  find_value names (number t) = []
  find_value names (string t) = []

  pub find_member : List Text → Members → Text
  find_member names no_member = []
  find_member names (member key v rest) = or_later (find_value names v) (find_member names rest)

  pub find_item : List Text → Items → Text
  find_item names no_item = []
  find_item names (item v rest) = or_later (find_value names v) (find_item names rest)

abbrev pub success_states : List Text
success_states =
    text "ready"
    ∷ text "deployed"
    ∷ text "succeeded"
    ∷ text "success"
    ∷ text "deleted"
    ∷ text "destroyed"
    ∷ []

abbrev pub failure_states : List Text
failure_states = text "failed" ∷ text "error" ∷ text "rejected" ∷ text "expired" ∷ []

abbrev pub gone_states : List Text
gone_states = text "deleted" ∷ text "destroyed" ∷ []

abbrev pub message_names : List Text
message_names = text "error" ∷ text "message" ∷ text "detail" ∷ []

unfoldable pub state_of : Json → Text
state_of response =
    lower (strip is_space (find_value (text "state" ∷ text "status" ∷ text "phase" ∷ []) response))

-- value.replace("\r", " ").replace("\n", " ")
unfoldable pub one_line : Text → Text
one_line value = replace b'\n' b' ' (replace b'\r' b' ' value)

unfoldable pub output_line : Text → Text → Text
unfolding one_line
output_line key value = key ++ (text "=" ++ (one_line value ++ b'\n' ∷ []))

abbrev pub url_of_host : Text → Text
url_of_host [] = []
url_of_host (c ∷ host) = text "https://" ++ (c ∷ host)

abbrev pub or_host : Text → Text → Text
or_host [] host = url_of_host host
or_host (c ∷ url) host = c ∷ url

unfoldable pub demo_url_of : Json → Text
demo_url_of result =
    or_host (find_value (text "demo_url" ∷ text "url" ∷ []) result)
      (find_value (text "hostname" ∷ []) result)

-- What write_github_output appends to the file, if there is one.
unfoldable pub github_output : Json → Text
unfolding output_line
github_output result =
    output_line (text "state") (state_of result)
    ++ (output_line (text "demo_url") (demo_url_of result)
        ++ output_line (text "message") (find_value message_names result))
