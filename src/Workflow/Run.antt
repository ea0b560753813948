-- ===== src/Workflow/Run.antt =====
-- .github/scripts/demo_api.py: main, with its arguments parsed.
use demos_rework.Base.{
  ℕ, ◌+◌, ◌≤◌, ◌≡◌, refl, Bool, true, false, Option, none, some, [], ◌⊎◌, inl, inr,
}
use demos_rework.Base.Text.{Text, text, lower}
use demos_rework.Base.Decimal.{str}
use demos_rework.Base.Json.{Json, number, string, object, Members, no_member, member, Codec}
use demos_rework.Workflow.{
  Outcome, returned, failed, broken, Reply, answered, refused, unreachable, interrupted,
  finish_call, github_output, state_of, listed, success_states, gone_states,
}
use demos_rework.Workflow.Polling.{Network, Advances, poll, poll-total, IsConclusive}

pub data Operation : Type 0 where
  -- the commit, the image and the delivery
  deploy : Text → Text → Text → Operation
  destroy : Text → Operation

pub record Args : Type 0 where
  pub repository : Text
  pub pr : ℕ
  pub timeout : ℕ
  pub interval : ℕ
  pub operation : Operation

abbrev pub wants_absence : Operation → Bool
wants_absence (deploy commit image delivery) = false
wants_absence (destroy delivery) = true

abbrev pub path_of : Operation → Text
path_of (deploy commit image delivery) = text "/api/v1/deploy"
path_of (destroy delivery) = text "/api/v1/destroy"

abbrev pub delivery_of : Operation → Text
delivery_of (deploy commit image delivery) = delivery
delivery_of (destroy delivery) = delivery

abbrev pub identity : Args → Members
identity args =
    member (text "pr") (number (str args.pr))
      (member (text "repository") (string (lower args.repository)) no_member)

unfoldable pub body_of : Args → Json
body_of args = elim args.operation [
  | deploy commit image delivery ↦ object (
      member (text "commit_sha") (string (lower commit)) (
        member (text "delivery_id") (string delivery)
          (member (text "image") (string (lower image)) (identity args))))
  | destroy delivery ↦ object (member (text "delivery_id") (string delivery) (identity args))
]

-- The exit status, the result that is written, and what is appended to the workflow's output. Behind
-- an exception that is not caught the status is 1 and nothing is written.
pub record Exit : Type 0 where
  pub status : ℕ
  pub result : Option Json
  pub output : Text

unfoldable pub conclude : Outcome Members → Exit
conclude (returned r) = record {
  status = 0;
  result = some (object r);
  output = github_output (object r);
}
conclude (broken message) = record { status = 1; result = none; output = [] }
conclude (failed e) =
    let result = object (
      member (text "state") (string (text "failed"))
        (member (text "message") (string e.message) no_member)) in
    record { status = 1; result = some result; output = github_output result }

module _ (network : Network) (codec : Codec) (args : Args) (call status_call : Text) where
  abbrev after_post : ℕ → Outcome Members → network.World → Option (Exit × network.World)
  after_post fuel (failed e) w = some (conclude (failed e), w)
  after_post fuel (broken message) w = some (conclude (broken message), w)
  after_post fuel (returned r) w =
      elim (poll network codec status_call (wants_absence args.operation) args.timeout args.interval
        fuel w) [ none ↦ none | some (o, w') ↦ some (conclude o, w') ]

  -- main behind the test of the key: `reply` is what the POST is answered, and `call` and
  -- `status_call` name the two requests in messages.
  unfoldable pub run : ℕ → Reply → network.World → Option (Exit × network.World)
  unfolding conclude
  run fuel reply w = after_post fuel (finish_call codec call reply) w

-- An exit that the workflow takes for a success stands behind a POST that was answered without an
-- error, and has a result with a state of success, which for a deletion says that the demo is gone;
-- and any other has the status 1.
abbrev pub IsEarned : Operation → Reply → Exit → Type 0
IsEarned operation reply exit =
    (exit.status ≡ 1)
    ⊎ ((exit.status ≡ 0)
        × (body : Text) × (reply ≡ answered body)
        × (result : Json) × (exit.result ≡ some result)
        × (listed (state_of result) success_states ≡ true)
        × ((wants_absence operation ≡ false) ⊎ (listed (state_of result) gone_states ≡ true)))

-- Only an answered request gives a result.
finish_call-answered :
    (codec : Codec) (call : Text) (reply : Reply) (r : Members)
    → finish_call codec call reply ≡ returned r
    → (body : Text) × (reply ≡ answered body)
unfolding finish_call
finish_call-answered codec call (answered body) r h = (body, refl)
finish_call-answered codec call (refused code body) r h = cc h
finish_call-answered codec call (unreachable reason) r h = cc h
finish_call-answered codec call (interrupted message) r h = cc h

module _ (network : Network) (laws : Advances network) (codec : Codec) (args : Args)
    (call status_call : Text) where
  -- The client comes to an end, where the clock does not go back and the interval is positive: with
  -- the status 1, or with the status 0, a POST that was answered without an error, and a result with
  -- a state of success, which for a deletion says that the demo is gone.
  pub run-total :
      (reply : Reply) (w : network.World)
      → 1 ≤ args.interval
      → (exit : Exit) × (w' : network.World) × (run network codec args call status_call
            (args.timeout + 1)
            reply
            w
          ≡ some (exit, w'))
        × IsEarned args.operation reply exit
  unfolding run
  run-total reply w slow = posted (finish_call codec call reply) refl
    where
      concluded :
          (o : Outcome Members)
          → IsConclusive (wants_absence args.operation) o
          → (body : Text) × (reply ≡ answered body)
          → IsEarned args.operation reply (conclude o)
      concluded (failed e) h taken = inl refl
      concluded (broken message) h taken = inl refl
      concluded (returned r) h (body, taken) = inr (refl, body, taken, object r, refl, h.0, h.1)

      posted :
          (o : Outcome Members)
          → finish_call codec call reply ≡ o
          → (exit : Exit) × (w' : network.World) × (after_post network codec args call status_call
                (args.timeout + 1)
                o
                w
              ≡ some (exit, w'))
            × IsEarned args.operation reply exit
      posted (failed e) sent = (conclude (failed e), w, refl, inl refl)
      posted (broken message) sent = (conclude (broken message), w, refl, inl refl)
      posted (returned r) sent =
          let taken = finish_call-answered codec call reply r sent in
          let (o, w', e, good) =
            poll-total network laws codec status_call (wants_absence args.operation) args.timeout
              args.interval w slow in
          (conclude o, w', rw (e, after_post) refl, concluded o good taken)
