-- ===== src/Workflow/Polling.antt =====
-- .github/scripts/demo_api.py: poll, the wait for a demo to be ready or gone. The clock, the network
-- and the sleep are parameters; times are in one unit.
use mathlib.Core.Path.{subst}
use demos_rework.Base.{
  ℕ, zero, suc, ◌+◌, ◌≤◌, ◌<◌, ◌≡◌, refl, Bool, true, false, not, ◌&&◌, ◌||◌, Option, none, some,
  [], ◌∷◌, ◌++◌, arith, ltb, ◌==◌, if◌then◌else◌, Bool-cases, inl, inr, ◌⊎◌,
}
use demos_rework.Base.Text.{Text, text, text_eq, lower, lower_char, strip}
use demos_rework.Base.Decimal.{str}
use demos_rework.Base.Json.{string, object, Members, no_member, member, Codec}
use demos_rework.Workflow.{
  ApiError, Outcome, returned, failed, broken, Reply, fail, finish_call, find_value, state_of,
  listed, success_states, failure_states, gone_states, message_names, or_later,
}

pub record Network : Type 1 where
  pub World : Type 0
  -- time.monotonic()
  pub clock : World → ℕ
  -- urlopen of the request for the demo's status
  pub get : World → Reply × World
  -- time.sleep
  pub sleep : ℕ → World → World

pub data Verdict : Type 0 where
  stop : Outcome Members → Verdict
  again : Members → Verdict

unfoldable pub destroyed : Members
destroyed =
    member (text "state") (string (text "destroyed"))
      (member (text "message") (string (text "Demo resources no longer exist")) no_member)

abbrev pub is_missing : Option ℕ → Bool
is_missing none = false
is_missing (some code) = code == 404

abbrev pub or_unknown : Text → Text
or_unknown [] = text "unknown"
or_unknown (c ∷ state) = c ∷ state

-- What the loop does with the outcome of a request; the flag is desired_absence.
unfoldable pub judge : Bool → Outcome Members → Verdict
judge absent (failed e) =
    if absent && is_missing e.status then stop (returned destroyed) else stop (failed e)
judge absent (broken message) = stop (broken message)
judge absent (returned last) =
    let state = state_of (object last) in
    if listed state failure_states
    then stop (
        fail
          (or_later (find_value message_names (object last))
            (text "Controller reported terminal state " ++ state))
          none)
    else if listed state success_states && (not absent || listed state gone_states)
    then stop (returned last)
    else again last

unfoldable pub timed_out : ℕ → Members → Outcome Members
timed_out timeout last =
    fail
      (text "Timed out after "
        ++ (str timeout
            ++ (text "s waiting for the demo; last state was "
                ++ or_unknown (state_of (object last)))))
      none

-- The parts of a repository's name, each quoted by urllib.parse.quote(part, safe=""), and the path of
-- its status. `part` is what is left of the part that has begun.
unfoldable pub quote_parts : (Text → Text) → Text → Text → Text
quote_parts quote part [] = quote part
quote_parts quote part (c ∷ s) =
    let rest = quote_parts quote [] s in
    let more = quote_parts quote (part ++ c ∷ []) s in
    if c == b'/' then quote part ++ b'/' ∷ rest else more

unfoldable pub status_path : (Text → Text) → Text → ℕ → Text
unfolding quote_parts
status_path quote repository pr =
    text "/api/v1/demos/" ++ (quote_parts quote [] repository ++ (text "/" ++ str pr))

module _ (network : Network) (codec : Codec) (call : Text) (absent : Bool)
    (timeout interval : ℕ) where
  open network use {World, clock, get, sleep}

  -- The loop, on fuel; `none` means that the fuel ran out.
  unfoldable pub poll_loop : ℕ → ℕ → Members → World → Option (Outcome Members × World)
  poll_loop zero deadline last w = none
  poll_loop (suc fuel) deadline last w = elim (ltb (clock w) deadline) [
    | false ↦ some (timed_out timeout last, w)
    | true ↦ elim (judge absent (finish_call codec call (get w).0)) [
      | stop o ↦ some (o, (get w).1)
      | again l ↦ poll_loop fuel deadline l (sleep interval (get w).1)
    ]
  ]

  -- poll
  unfoldable pub poll : ℕ → World → Option (Outcome Members × World)
  unfolding poll_loop
  poll fuel w = poll_loop fuel (clock w + timeout) no_member w

-- A clock that does not go back, and a sleep that lasts.
pub record Advances (network : Network) : Type 0 where
  pub getting : (w : network.World) → network.clock w ≤ network.clock (network.get w).1
  pub sleeping :
      (n : ℕ) (w : network.World) → network.clock w + n ≤ network.clock (network.sleep n w)

-- The workflow goes on only with a state of success, and after a deletion only with one that says
-- that the demo is gone.
abbrev pub IsConclusive : Bool → Outcome Members → Type 0
IsConclusive absent (failed e) = Unit
IsConclusive absent (broken message) = Unit
IsConclusive absent (returned r) =
    (listed (state_of (object r)) success_states ≡ true)
    × ((absent ≡ false) ⊎ (listed (state_of (object r)) gone_states ≡ true))

destroyed_states :
    (listed (state_of (object destroyed)) success_states ≡ true)
    × (listed (state_of (object destroyed)) gone_states ≡ true)
unfolding state_of destroyed text text_eq lower lower_char strip find_value
destroyed_states = (refl, refl)

judge-IsConclusive :
    (absent : Bool) (m o : Outcome Members) → judge absent m ≡ stop o → IsConclusive absent o
unfolding judge
judge-IsConclusive absent (failed e) o h = elim (Bool-cases (absent && is_missing e.status)) [
  | inl gone ↦
      let same : returned destroyed ≡ o = cc (rw (gone, judge) at h) in
      subst (IsConclusive absent) same (destroyed_states.0, inr destroyed_states.1)
  | inr other ↦
      let same : failed e ≡ o = cc (rw (other, judge) at h) in subst (IsConclusive absent) same tt
]
judge-IsConclusive absent (broken message) o h =
    let same : broken message ≡ o = cc h in subst (IsConclusive absent) same tt
judge-IsConclusive absent (returned r) o h =
    let state = state_of (object r) in
    let enough = listed state success_states && (not absent || listed state gone_states) in
    elim (Bool-cases (listed state failure_states)) [
      | inl bad ↦ failing o (rw (bad, judge) at h)
      | inr fine ↦ elim (Bool-cases enough) [
        | inr waiting ↦ cc (rw (fine, waiting, judge) at h)
        | inl good ↦
            let same : returned r ≡ o = cc (rw (fine, good, judge) at h) in
            subst (IsConclusive absent) same (conclusive good)
      ]
    ]
  where
    failing :
        {e : ApiError} (o : Outcome Members) → stop (failed e) ≡ stop o → IsConclusive absent o
    failing {e} o h = let same : failed e ≡ o = cc h in subst (IsConclusive absent) same tt

    conclusive :
        (listed (state_of (object r)) success_states
            && (not absent || listed (state_of (object r)) gone_states))
          ≡ true
        → IsConclusive absent (returned r)
    conclusive good = ground arith

Verdict-cases :
    (v : Verdict) → ((o : Outcome Members) × (v ≡ stop o)) ⊎ ((l : Members) × (v ≡ again l))
Verdict-cases (stop o) = inl (o, refl)
Verdict-cases (again l) = inr (l, refl)

module _ (network : Network) (laws : Advances network) (codec : Codec) (call : Text) (absent : Bool)
    (timeout interval : ℕ) where
  open network use {World, clock, get, sleep}

  poll_loop-total :
      (fuel deadline : ℕ) (last : Members) (w : World)
      → 1 ≤ interval
      → 1 ≤ fuel
      → deadline < fuel + clock w
      → (o : Outcome Members) × (w' : World) × (poll_loop network codec call absent timeout interval
            fuel deadline last w
          ≡ some (o, w'))
        × IsConclusive absent o
  unfolding poll_loop timed_out
  poll_loop-total zero deadline last w slow some_fuel enough = absurd (omega arith)
  poll_loop-total (suc fuel) deadline last w slow some_fuel enough =
      elim (Bool-cases (ltb (clock w) deadline)) [
        | inr late ↦ (timed_out timeout last, w, rw (late, poll_loop) refl, tt)
        | inl early ↦ elim (Verdict-cases (judge absent (finish_call codec call (get w).0))) [
          | inl (o, stopped) ↦ (
            o,
            (get w).1,
            rw (early, stopped, poll_loop) refl,
            judge-IsConclusive absent _ o stopped,
          )
          | inr (l, goes_on) ↦
              let w' = sleep interval (get w).1 in
              let (o, end, e, good) =
                poll_loop-total fuel deadline l w' slow (ground (arith, enough, early))
                  (omega (arith, enough, slow, laws.getting w, laws.sleeping interval (get w).1)) in
              (o, end, rw (early, goes_on, poll_loop) e, good)
        ]
      ]

  -- The wait for a demo comes to an end, with fuel for one round for each unit of the timeout and one
  -- more, where the clock does not go back and the interval is positive; and what it returns has a
  -- state of success, which after a deletion says that the demo is gone.
  pub poll-total :
      (w : World)
      → 1 ≤ interval
      → (o : Outcome Members) × (w' : World) × (poll network codec call absent timeout interval
            (timeout + 1)
            w
          ≡ some (o, w'))
        × IsConclusive absent o
  unfolding poll
  poll-total w slow =
      poll_loop-total (timeout + 1) (clock w + timeout) no_member w slow (omega arith) (omega arith)
