-- ===== src/Workflow/Main.antt =====
-- .github/scripts/demo_api.py: main, from the key to the exit status. The arguments are parsed, and
-- urlopen of the POST is a parameter.
use demos_rework.Base.{ℕ, ◌+◌, ◌≤◌, ◌≡◌, refl, Option, none, some, [], ◌∷◌}
use demos_rework.Base.Text.{Text, text, lower}
use demos_rework.Base.Json.{Codec}
use demos_rework.Hashes.{Hashes}
use demos_rework.Workflow.{Urls, Call, Reply, build_call}
use demos_rework.Workflow.Polling.{Network, Advances}
use demos_rework.Workflow.Run.{Args, path_of, delivery_of, body_of, Exit, IsEarned, run, run-total}

-- How main ends: without a key, or with an exit.
pub data Ending : Type 0 where
  no_key : Ending
  ended : Exit → Ending

-- The exit status of the process.
abbrev pub status_of : Ending → ℕ
status_of no_key = 2
status_of (ended exit) = exit.status

abbrev pub ended_with : {W : Type 0} → Option (Exit × W) → Option (Ending × W)
ended_with none = none
ended_with (some (exit, w)) = some (ended exit, w)

-- What a key is good for: without one, or with an empty one, the status is 2 and nothing is sent, so
-- that the world stays; with any other one the status is 0 or 1, and 0 is earned by what the POST is
-- answered, which is the function's value at the key.
abbrev pub Decides : {W : Type 0} → Args → (Text → Reply) → Option Text → W → Ending → W → Type 0
Decides args reply none w ending w' = (status_of ending ≡ 2) × (w' ≡ w)
Decides args reply (some []) w ending w' = (status_of ending ≡ 2) × (w' ≡ w)
Decides args reply (some (c ∷ key)) w ending w' =
    (exit : Exit) × (ending ≡ ended exit) × IsEarned args.operation (reply (c ∷ key)) exit

module _ (network : Network) (post : Call → network.World → Reply × network.World) (h : Hashes)
    (codec : Codec) (urls : Urls) (args : Args) (api_url fresh call status_call : Text) where
  -- The request that deploys or destroys.
  unfoldable pub post_call : Text → ℕ → Call
  unfolding build_call body_of
  post_call key now =
      build_call h codec urls now fresh api_url (text "POST") (path_of args.operation)
        (lower args.repository) key (some (body_of args)) (some (delivery_of args.operation))

  -- main; `now` is time.time(), and `call` and `status_call` name the two requests in messages
  unfoldable pub main : ℕ → Option Text → ℕ → network.World → Option (Ending × network.World)
  unfolding post_call run
  main fuel none now w = some (no_key, w)
  main fuel (some []) now w = some (no_key, w)
  main fuel (some (c ∷ key)) now w =
      let (reply, w') = post (post_call (c ∷ key) now) w in
      ended_with (run network codec args call status_call fuel reply w')

  -- The client comes to an end for any key, where the clock does not go back and the interval is
  -- positive: with the status 2 and nothing sent where there is no key or an empty one; else with
  -- the status 1, or with the status 0, where the POST was answered without an error, and a result
  -- with a state of success, which for a deletion says that the demo is gone.
  pub main-total :
      Advances network
      → (key : Option Text) (now : ℕ) (w : network.World) → 1 ≤ args.interval
      → (ending : Ending) × (w' : network.World) × (main (args.timeout + 1) key now w
          ≡ some (ending, w'))
        × Decides args (λ k. (post (post_call k now) w).0) key w ending w'
  unfolding main
  main-total laws none now w slow = (no_key, w, refl, (refl, refl))
  main-total laws (some []) now w slow = (no_key, w, refl, (refl, refl))
  main-total laws (some (c ∷ key)) now w slow =
      let (reply, w') = post (post_call (c ∷ key) now) w in
      let (exit, end, e, honest) =
        run-total network laws codec args call status_call reply w' slow in
      (ended exit, end, rw (e, ended_with) refl, (exit, refl, honest))
