-- ===== src/Auth/Rate.antt =====
-- The rate limit over time: how many requests of a repository pass within a minute.
use demos_rework.Base.{
  ℕ, ◌+◌, ◌≤◌, ◌≡◌, refl, sym, ◌∙◌, ap, List, [], ◌∷◌, ◌++◌, arith, leb, if◌then◌else◌, length,
  length-append, All, All-append, Bool-cases, inl, inr,
}
use mathlib.Core.List.{append_assoc}
use demos_rework.Auth.{drop_old, check_window}

-- The times that passed, oldest first, beside the deque.
pub record Log : Type 0 where
  pub passed : List ℕ
  pub queue : List ℕ

-- One call of _check_rate, with the log of what passed.
unfoldable pub log_step : ℕ → ℕ → Log → Log
log_step limit now l =
    let (passes, q) = check_window limit now l.queue in
    record { passed = if passes then l.passed ++ now ∷ [] else l.passed; queue = q }

unfoldable pub log_steps : ℕ → List ℕ → Log → Log
log_steps limit [] l = l
log_steps limit (now ∷ times) l = log_steps limit times (log_step limit now l)

abbrev pub empty_log : Log
empty_log = record { passed = []; queue = [] }

-- How many of the times lie within the minute that ends at `now`.
unfoldable pub count_recent : ℕ → List ℕ → ℕ
count_recent now [] = 0
count_recent now (t ∷ ts) = (if leb (t + 60) now then 0 else 1) + count_recent now ts

-- Each time is at least as late as the one before it.
abbrev pub Ascends : ℕ → List ℕ → Type 0
Ascends from [] = Unit
Ascends from (t ∷ ts) = (from ≤ t) × Ascends t ts

count-append :
    (now : ℕ) (a b : List ℕ) → count_recent now (a ++ b) ≡ count_recent now a + count_recent now b
unfolding count_recent
count-append now [] b = omega arith
count-append now (t ∷ a) b = omega (arith, count-append now a b)

count-le-length : (now : ℕ) (a : List ℕ) → count_recent now a ≤ length a
unfolding count_recent
count-le-length now [] = omega arith
count-le-length now (t ∷ a) = ground (arith, count-le-length now a)

abbrev Old : ℕ → List ℕ → Type 0
Old now ts = All (λ t. t + 60 ≤ now) ts

count-Old : (now : ℕ) (a : List ℕ) → Old now a → count_recent now a ≡ 0
unfolding count_recent
count-Old now [] h = refl
count-Old now (t ∷ a) h = ground (arith, count-Old now a h.1)

-- The deque is the end of the log, without the times that are a minute old.
record IsWindow (limit now : ℕ) (l : Log) : Type 0 where
  dropped : List ℕ
  split : l.passed ≡ dropped ++ l.queue
  old : Old now dropped
  short : length l.queue ≤ limit

Old-later : (a b : ℕ) (ts : List ℕ) → a ≤ b → Old a ts → Old b ts
Old-later a b [] h o = tt
Old-later a b (t ∷ ts) h o = (omega arith, Old-later a b ts h o.1)

-- What drop_old takes from the front.
drop_old_split :
    (now : ℕ) (q : List ℕ) → (front : List ℕ) × (q ≡ front ++ drop_old now q) × Old now front
unfolding drop_old
drop_old_split now [] = ([], refl, tt)
drop_old_split now (t ∷ q) = elim (Bool-cases (leb (t + 60) now)) [
  | inl old ↦
      let (front, e, o) = drop_old_split now q in
      (t ∷ front, rw old (ap (λ l. t ∷ l) e), (ground arith, o))
  | inr young ↦ ([], rw young refl, tt)
]

log_step-IsWindow :
    (limit before now : ℕ) (l : Log)
    → before ≤ now
    → IsWindow limit before l
    → IsWindow limit now (log_step limit now l)
unfolding log_step check_window
log_step-IsWindow limit before now l later w =
    let (front, e, o) = drop_old_split now l.queue in
    let old =
      All-append (λ t. t + 60 ≤ now) w.dropped front (Old-later before now w.dropped later w.old)
        o in
    let recent = drop_old now l.queue in
    let split : l.passed ≡ (w.dropped ++ front) ++ recent =
      w.split ∙ ap (λ q. w.dropped ++ q) e ∙ sym (append_assoc w.dropped front recent) in
    let fewer : length recent ≤ length l.queue =
      omega (arith, ap length e, length-append front recent) in
    elim (Bool-cases (leb limit (length recent))) [
      | inl full ↦
          rw (full, log_step, check_window)
            (record {
              dropped = w.dropped ++ front;
              split = split;
              old = old;
              short = omega (arith, w.short);
            })
      | inr room ↦
          rw (room, log_step, check_window)
            (record {
              dropped = w.dropped ++ front;
              split =
                  ap (λ q. q ++ now ∷ []) split
                  ∙ append_assoc (w.dropped ++ front) recent (now ∷ []);
              old = old;
              short = ground (arith, length-append recent (now ∷ []));
            })
    ]

log_steps-IsWindow :
    (limit from now : ℕ) (times : List ℕ) (l : Log)
    → Ascends from (times ++ now ∷ [])
    → IsWindow limit from l
    → IsWindow limit now (log_steps limit (times ++ now ∷ []) l)
unfolding log_steps
log_steps-IsWindow limit from now [] l h w = log_step-IsWindow limit from now l h.0 w
log_steps-IsWindow limit from now (t ∷ times) l h w =
    log_steps-IsWindow limit t now times _ h.1 (log_step-IsWindow limit from t l h.0 w)

-- Whatever requests came before, once a request is handled at `now` no more than `limit` requests
-- have passed within the minute that ends there, if the clock never goes back.
pub rate_bounded :
    (limit now : ℕ) (times : List ℕ)
    → Ascends 0 (times ++ now ∷ [])
    → count_recent now (log_steps limit (times ++ now ∷ []) empty_log).passed ≤ limit
rate_bounded limit now times h =
    let start : IsWindow limit 0 empty_log = record {
      dropped = [];
      split = refl;
      old = tt;
      short = omega arith;
    } in
    let l = log_steps limit (times ++ now ∷ []) empty_log in
    let w = log_steps-IsWindow limit 0 now times empty_log h start in
    rw w.split (
      omega (
        arith,
        w.short,
        count-append now w.dropped l.queue,
        count-Old now w.dropped w.old,
        count-le-length now l.queue,
      ))
