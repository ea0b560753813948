-- ===== src/Tests/Clients.antt =====
-- The theorems on the workflow's client, at a small codec, and on the Vault client's lookups.
use demos_rework.Base.{
  ℕ, zero, suc, ◌+◌, ◌≤◌, ◌≡◌, refl, ap, ◌⊎◌, true, false, Option, none, some, List, [], ◌∷◌, arith,
  ◌++◌, Option-cases, inl, inr,
}
use demos_rework.Base.Text.{Text, text}
use demos_rework.Base.Result.{ok}
use demos_rework.Base.Json.{
  Json, null, boolean, number, array, string, object, Members, no_member, member, Codec,
}
use demos_rework.Models.Config.{lookup}
use demos_rework.Auth.{Policy, verify}
use demos_rework.Workflow.{Urls, Call, Reply, answered, refused, build_call, github_output}
use demos_rework.Workflow.Signing.{received, build_call-verifies}
use demos_rework.Workflow.Polling.{Network, Advances}
use demos_rework.Workflow.Run.{Args, destroy}
use demos_rework.Models.Config.{Dict}
use demos_rework.Settings.{string_map}
use demos_rework.Charm.Environment.Start.{WritesMaps}
use demos_rework.Workflow.Main.{Ending, Decides, main, main-total}
use demos_rework.Workflow.Output.{IsOneLine, github_output_lines}
use demos_rework.Tests.{same_hashes, app}

-- Each text is written with its characters one higher, and a zero behind it.
unfoldable write_text : Text → Text → Text
write_text [] rest = 0 ∷ rest
write_text (c ∷ t) rest = suc c ∷ write_text t rest

unfoldable pub write_members : Members → Text
unfolding write_text
write_members no_member = []
write_members (member k (string v) rest) = write_text k (write_text v (write_members rest))
write_members (member k _ rest) = []

unfoldable add_char : ℕ → List Text → List Text
add_char c [] = (c ∷ []) ∷ []
add_char c (t ∷ items) = (c ∷ t) ∷ items

unfoldable pub read_texts : Text → List Text
unfolding add_char
read_texts [] = []
read_texts (zero ∷ s) = [] ∷ read_texts s
read_texts (suc c ∷ s) = add_char c (read_texts s)

unfoldable pub read_pairs : List Text → Members
read_pairs (k ∷ v ∷ items) = member k (string v) (read_pairs items)
read_pairs _ = no_member

abbrev pub write_json : Json → Text
write_json (object members) = write_members members
write_json _ = []

-- A codec for objects of texts.
abbrev pub codec : Codec
codec = record { dumps = write_json; loads = λ t. some (object (read_pairs (read_texts t))) }

read_texts-write : (t rest : Text) → read_texts (write_text t rest) ≡ t ∷ read_texts rest
unfolding read_texts write_text
read_texts-write [] rest = refl
read_texts-write (c ∷ t) rest = rw (read_texts-write t rest, add_char) refl

read_back-members :
    (m : Members) (d : Dict) → string_map m ≡ some d → read_pairs (read_texts (write_members m)) ≡ m
unfolding string_map read_pairs read_texts write_members
read_back-members no_member d h = refl
read_back-members (member k (string v) rest) d h = elim (Option-cases (string_map rest)) [
  | inl e ↦ cc (rw (e, string_map) at h)
  | inr (d', e) ↦
      rw
        (
          read_texts-write k (write_text v (write_members rest)),
          read_texts-write v (write_members rest),
          read_pairs,
        )
        (ap (member k (string v)) (read_back-members rest d' e))
]
read_back-members (member k null rest) d h = cc h
read_back-members (member k (boolean b) rest) d h = cc h
read_back-members (member k (number n) rest) d h = cc h
read_back-members (member k (array items) rest) d h = cc h
read_back-members (member k (object members) rest) d h = cc h

pub codec-WritesMaps : WritesMaps codec
codec-WritesMaps = record {
  read_back = λ members d h.
      (members, d, ap (λ m. some (object m)) (read_back-members members d h), h, λ k. refl);
}

abbrev policy : Policy
policy = record { credentials = (app, text "key") ∷ []; max_age_seconds = 300; rate_limit = 30 }

abbrev urls : Urls
urls = record { path_of = λ u. text "/api/v1/deploy"; query_of = λ u. [] }

build_call-verifies_example :
    verify same_hashes policy 1100 (
      received
        (λ t. t)
        urls
        (build_call same_hashes codec urls 1000
          (text "fresh")
          (text "https://c/")
          (text "post")
          (text "/api/v1/deploy")
          (text "Me/App")
          (text "key")
          none
          (some (text "n1"))))
    ≡ ok tt
unfolding lookup demos_rework.Base.Text.text_eq text demos_rework.Base.Text.lower
    demos_rework.Base.Text.lower_char
build_call-verifies_example =
    build_call-verifies same_hashes codec (λ t. t) urls 1000 (text "fresh") (text "https://c/")
      (text "post") (text "/api/v1/deploy") (text "Me/App") (text "key") none (some (text "n1"))
      policy 1100 refl (λ e. cc e) (omega arith) (omega arith) refl refl

-- A controller that does not find the demo.
abbrev gone : Network
gone = record {
  World = ℕ;
  clock = λ w. w;
  get = λ w. (refused 404 [], w + 1);
  sleep = λ n w. w + n;
}

gone-Advances : Advances gone
gone-Advances = record { getting = λ w. omega arith; sleeping = λ n w. omega arith }

abbrev removal : Args
removal = record {
  repository = app;
  pr = 7;
  timeout = 60;
  interval = 5;
  operation = destroy (text "delivery-2");
}

abbrev takes_it : Call → ℕ → Reply × ℕ
takes_it call w = (answered [], w + 1)

main-total_example :
    (ending : Ending) × (w' : ℕ) × (main gone takes_it same_hashes codec urls removal
        (text "https://c")
        (text "fresh")
        (text "POST")
        (text "GET")
        61
        (some (text "key"))
        1000
        100
      ≡ some (ending, w'))
    × Decides removal (λ key. answered []) (some (text "key")) 100 ending w'
main-total_example =
    main-total gone takes_it same_hashes codec urls removal (text "https://c") (text "fresh")
      (text "POST") (text "GET") gone-Advances (some (text "key")) 1000 100 (omega arith)

abbrev reported : Json
reported = object (
    member (text "state") (string (text "ready"))
      (member (text "message") (string (text "a\nstate=failed")) no_member))

github_output_lines_example :
    (state url message : Text) × IsOneLine state
    × IsOneLine url
    × IsOneLine message
    × (github_output reported
        ≡ text "state="
          ++ (state
              ++ b'\n'
                ∷ (text "demo_url="
                    ++ (url ++ b'\n' ∷ (text "message=" ++ (message ++ b'\n' ∷ []))))))
github_output_lines_example = github_output_lines reported
