-- ===== src/Store/Serving.antt =====
-- get_ready_by_hostname: which demos the proxy may serve, and for how long.
use mathlib.Core.List.{Memᴰ}
use mathlib.Core.Path.{subst}
use demos_rework.Base.{
  ℕ, ◌≡◌, ◌≢◌, refl, sym, ap, ◌⊎◌, ◌∙◌, true, false, Option, none, some, List, [], ◌∷◌, arith,
  Option-cases, Bool-cases, inl, inr, All,
}
use demos_rework.Base.Text.{Text, text_eq, text_eq_iff, text_eq_refl}
use demos_rework.Base.Result.{ok}
use demos_rework.Naming.{hostname}
use demos_rework.Store.Rows.{DemoState, deleting, DemoRecord, is_demo, find, amend}
use demos_rework.Store.Keys.{KeepsKey, Unique, Fresh, is_demo_sym}
use demos_rework.Store.{Store}
use demos_rework.Store.Fields.{
  get, is_routed, is_active, first_with_host, get_ready_by_hostname, with_state, update_state,
}

-- A row that the proxy may serve under a host.
pub record IsServed (suffix host : Text) (r : DemoRecord) : Type 0 where
  pub wanted : r.desired_present ≡ true
  pub reachable : r.port ≢ none
  pub state : r.state ≢ deleting
  pub named : hostname r.repository r.pr suffix ≡ some host

active-IsServed :
    (suffix host : Text) (r : DemoRecord)
    → is_active r ≡ true
    → hostname r.repository r.pr suffix ≡ some host
    → IsServed suffix host r
unfolding is_active is_routed
active-IsServed suffix host r h e = record {
  wanted = ground arith;
  reachable = λ p. ground arith;
  state = λ p. ground arith;
  named = e;
}

first-nil : (suffix host : Text) → first_with_host suffix host [] ≡ ok none
unfolding first_with_host
first-nil suffix host = refl

module _ (suffix host : Text) (x : DemoRecord) (rs : List DemoRecord) where
  -- The row is passed over: it is not active, or it has another host.
  abbrev Passed : Type 0
  Passed =
      (is_active x ≡ false)
      ⊎ ((found : Text) × (hostname x.repository x.pr suffix ≡ some found)
          × (text_eq found host ≡ false))

  first-hit :
      is_active x ≡ true
      → hostname x.repository x.pr suffix ≡ some host
      → first_with_host suffix host (x ∷ rs) ≡ ok (some x)
  unfolding first_with_host
  first-hit active e = rw (active, e, text_eq_refl, first_with_host) refl

  first-pass : Passed → first_with_host suffix host (x ∷ rs) ≡ first_with_host suffix host rs
  unfolding first_with_host
  first-pass (inl idle) = rw (idle, first_with_host) refl
  first-pass (inr (found, e, other)) = elim (Bool-cases (is_active x)) [
    | inl active ↦ rw (active, e, other, first_with_host) refl
    | inr idle ↦ rw (idle, first_with_host) refl
  ]

  first_cases :
      (r : DemoRecord)
      → first_with_host suffix host (x ∷ rs) ≡ ok (some r)
      → ((x ≡ r) × IsServed suffix host x × (is_active x ≡ true))
        ⊎ (Passed × (first_with_host suffix host rs ≡ ok (some r)))
  unfolding first_with_host
  first_cases r h = elim (Bool-cases (is_active x)) [
    | inr idle ↦ inr (inl idle, rw (idle, first_with_host) at h)
    | inl active ↦ elim (Option-cases (hostname x.repository x.pr suffix)) [
      | inl e ↦ cc (rw (active, e, first_with_host) at h)
      | inr (found, e) ↦ elim (Bool-cases (text_eq found host)) [
        | inl same ↦
            let here : ok (some x) ≡ ok (some r) = (rw (active, e, same, first_with_host) at h) in
            inl (
              cc here,
              active-IsServed suffix host x active (e ∙ ap some ((text_eq_iff found host).0 same)),
              active,
            )
        | inr other ↦ inr (inr (found, e, other), rw (active, e, other, first_with_host) at h)
      ]
    ]
  ]

first_sound :
    (suffix host : Text) (rs : List DemoRecord) (r : DemoRecord)
    → first_with_host suffix host rs ≡ ok (some r)
    → Memᴰ r rs × IsServed suffix host r
first_sound suffix host [] r h = cc (first-nil suffix host, h)
first_sound suffix host (x ∷ rs) r h = elim (first_cases suffix host x rs r h) [
  | inl (here, served, _) ↦ (Memᴰ.head (sym here), subst (IsServed suffix host) here served)
  | inr (_, later) ↦
      let (listed, served) = first_sound suffix host rs r later in (Memᴰ.tail listed, served)
]

is_demo_self : (r : DemoRecord) → is_demo r.repository r.pr r ≡ true
unfolding is_demo
is_demo_self r = ground (arith, text_eq_refl r.repository)

is_demo_key :
    (a : Text) (p : ℕ) (x : DemoRecord) → is_demo a p x ≡ true → (x.repository ≡ a) × (x.pr ≡ p)
unfolding is_demo
is_demo_key a p x h = ground (arith, text_eq_iff x.repository a)

Fresh-mem :
    (a : Text) (p : ℕ) (rs : List DemoRecord) (r : DemoRecord)
    → Fresh a p rs
    → Memᴰ r rs
    → is_demo a p r ≡ false
Fresh-mem a p [] r h m = elim m [ ]
Fresh-mem a p (x ∷ rs) r h (Memᴰ.head e) = rw e h.0
Fresh-mem a p (x ∷ rs) r h (Memᴰ.tail m) = Fresh-mem a p rs r h.1 m

find-mem :
    (rs : List DemoRecord) (r : DemoRecord)
    → Unique rs
    → Memᴰ r rs
    → find r.repository r.pr rs ≡ some r
unfolding find
find-mem [] r u m = elim m [ ]
find-mem (x ∷ rs) r u (Memᴰ.head e) =
    subst (λ y. find r.repository r.pr (y ∷ rs) ≡ some r) e (rw (is_demo_self r, find) refl)
find-mem (x ∷ rs) r u (Memᴰ.tail m) =
    let other = is_demo_sym r x (Fresh-mem x.repository x.pr rs r u.0 m) in
    rw (other, find) (find-mem rs r u.1 m)

-- A row that does not stand in the way of the demo with this key and host: it has the key, or the
-- query passes it over, or it has another host.
abbrev pub Aside : Text → Text → Text → ℕ → DemoRecord → Type 0
Aside suffix host repository pr x =
    (is_demo repository pr x ≡ true)
    ⊎ ((is_active x ≡ false)
        ⊎ ((found : Text) × (hostname x.repository x.pr suffix ≡ some found)
            × (text_eq found host ≡ false)))

first_found :
    (suffix host : Text) (a : Text) (p : ℕ) (rs : List DemoRecord) (r : DemoRecord)
    → find a p rs ≡ some r
    → is_active r ≡ true
    → hostname r.repository r.pr suffix ≡ some host
    → All (Aside suffix host a p) rs
    → first_with_host suffix host rs ≡ ok (some r)
unfolding find
first_found suffix host a p [] r h active named aside = cc h
first_found suffix host a p (x ∷ rs) r h active named aside = elim (Bool-cases (is_demo a p x)) [
  | inl own ↦
      let here : x ≡ r = cc (rw (own, find) at h) in
      subst (λ y. first_with_host suffix host (y ∷ rs) ≡ ok (some r)) (sym here)
        (first-hit suffix host r rs active named)
  | inr other ↦ elim aside.0 [
    | inl own ↦ cc (own, other)
    | inr passed ↦
        first-pass suffix host x rs passed
        ∙ first_found suffix host a p rs r (rw (other, find) at h) active named aside.1
  ]
]

-- The proxy finds an active row under its host, where no other row stands in its way.
pub get_ready_by_hostname_found :
    (host repository : Text) (pr : ℕ) (s : Store) (r : DemoRecord)
    → get repository pr s ≡ some r
    → is_active r ≡ true
    → hostname r.repository r.pr s.hostname_suffix ≡ some host
    → All (Aside s.hostname_suffix host repository pr) s.demos
    → get_ready_by_hostname host s ≡ ok (some r)
unfolding get_ready_by_hostname get
get_ready_by_hostname_found host repository pr s r h active named aside =
    first_found s.hostname_suffix host repository pr s.demos r h active named aside

-- What the proxy is given for a host is the row of its key, and that row is wanted, has a port, is
-- not being deleted, and has that host for its name.
pub get_ready_by_hostname_sound :
    (host : Text) (s : Store) (r : DemoRecord)
    → Unique s.demos
    → get_ready_by_hostname host s ≡ ok (some r)
    → (get r.repository r.pr s ≡ some r) × IsServed s.hostname_suffix host r
unfolding get_ready_by_hostname get
get_ready_by_hostname_sound host s r u h =
    let (listed, served) = first_sound s.hostname_suffix host s.demos r h in
    (find-mem s.demos r u listed, served)

-- A change of one row that keeps it active keeps a row with its key served.
first_retained :
    (suffix host : Text) (f : DemoRecord → DemoRecord) (rs : List DemoRecord) (r : DemoRecord)
    → KeepsKey f
    → (is_active r ≡ true → is_active (f r) ≡ true)
    → first_with_host suffix host rs ≡ ok (some r)
    → (r' : DemoRecord) × (first_with_host suffix host (amend r.repository r.pr f rs)
        ≡ ok (some r'))
      × (r'.repository ≡ r.repository)
      × (r'.pr ≡ r.pr)
unfolding amend
first_retained suffix host f [] r k keep h = cc (first-nil suffix host, h)
first_retained suffix host f (x ∷ rs) r k keep h = elim (first_cases suffix host x rs r h) [
  | inl (here, served, active) ↦
      let keyed : is_demo r.repository r.pr x ≡ true = rw here (is_demo_self r) in
      let active' : is_active (f x) ≡ true = rw here (keep (rw (← here) active)) in
      let named : hostname (f x).repository (f x).pr suffix ≡ some host =
        rw (k.repository x, k.pr x) served.named in
      (
        f x,
        rw keyed (first-hit suffix host (f x) _ active' named),
        k.repository x ∙ ap (λ y. y.repository) here,
        k.pr x ∙ ap (λ y. y.pr) here,
      )
  | inr (passed, later) ↦
      let (_, served) = first_sound suffix host rs r later in
      let (r', e, same_repository, same_pr) = first_retained suffix host f rs r k keep later in
      elim (Bool-cases (is_demo r.repository r.pr x)) [
        | inr other ↦
            (r', rw other (first-pass suffix host x _ passed ∙ e), same_repository, same_pr)
        | inl keyed ↦
            let (own_repository, own_pr) = is_demo_key r.repository r.pr x keyed in
            elim (Bool-cases (is_active (f x))) [
              | inr idle ↦ (
                r',
                rw keyed (first-pass suffix host (f x) _ (inl idle) ∙ e),
                same_repository,
                same_pr,
              )
              | inl active ↦
                  let named : hostname (f x).repository (f x).pr suffix ≡ some host =
                    rw (k.repository x, k.pr x, own_repository, own_pr) served.named in
                  (
                    f x,
                    rw keyed (first-hit suffix host (f x) _ active named),
                    k.repository x ∙ own_repository,
                    k.pr x ∙ own_pr,
                  )
            ]
      ]
]

pub with_state-KeepsKey :
    (now : ℕ) (state : DemoState) (message : Text) (version port : Option ℕ)
    → KeepsKey (with_state now state message version port)
unfolding with_state
with_state-KeepsKey now state message version port = record {
  repository = λ r. refl;
  pr = λ r. refl;
}

with_state-active :
    (now : ℕ) (state : DemoState) (message : Text) (version port : Option ℕ) (r : DemoRecord)
    → state ≢ deleting
    → is_active r ≡ true
    → is_active (with_state now state message version port r) ≡ true
unfolding with_state is_active is_routed
with_state-active now state message version port r live h = ground arith

-- A demo that is served goes on being served, under the same key, when its row is set to any state
-- but `deleting`: a failed or unfinished reconciliation withdraws no route.
pub route_retained :
    (host : Text) (s : Store) (r : DemoRecord) (now : ℕ) (state : DemoState) (message : Text)
    (version port : Option ℕ)
    → get_ready_by_hostname host s ≡ ok (some r)
    → state ≢ deleting
    → (r' : DemoRecord) × (get_ready_by_hostname host
          (update_state now r.repository r.pr state message version port s)
        ≡ ok (some r'))
      × (r'.repository ≡ r.repository)
      × (r'.pr ≡ r.pr)
unfolding get_ready_by_hostname update_state
route_retained host s r now state message version port h live =
    first_retained s.hostname_suffix host (with_state now state message version port) s.demos r
      (with_state-KeepsKey now state message version port)
      (with_state-active now state message version port r live) h
