-- ===== src/Store/Fields.antt =====
-- The methods of Store that read the table, change the state of one row, or drop one.
use demos_rework.Base.{
  ℕ, Bool, true, false, ◌&&◌, Option, none, some, List, [], ◌∷◌, if◌then◌else◌, take,
}
use demos_rework.Base.Text.{Text, text_eq}
use demos_rework.Base.Result.{Result, ok, raise, index_error}
use demos_rework.Naming.{hostname}
use demos_rework.Store.Rows.{
  DemoState, pending, reconciling, ready, failed, deleting, DemoRecord, find, amend, discard,
}
use demos_rework.Store.{Store}

-- state IN ('pending','reconciling','deleting','ready','failed')
unfoldable pub is_listed : DemoState → Bool
is_listed pending = true
is_listed reconciling = true
is_listed deleting = true
is_listed ready = true
is_listed failed = true

unfoldable pub select_listed : List DemoRecord → List DemoRecord
unfolding is_listed
select_listed [] = []
select_listed (r ∷ rs) = let rest = select_listed rs in if is_listed r.state then r ∷ rest else rest

-- list_reconcilable
unfoldable pub list_reconcilable : Store → List DemoRecord
unfolding select_listed
list_reconcilable s = select_listed s.demos

-- get
unfoldable pub get : Text → ℕ → Store → Option DemoRecord
get repository pr s = find repository pr s.demos

-- state IN ('pending','reconciling','ready','failed')
unfoldable pub is_routed : DemoState → Bool
is_routed deleting = false
is_routed _ = true

abbrev pub is_some {ℓ} : {A : Type ℓ} → Option A → Bool
is_some none = false
is_some (some _) = true

-- desired_present=1 AND port IS NOT NULL AND state IN (…)
unfoldable pub is_active : DemoRecord → Bool
unfolding is_routed
is_active r = r.desired_present && is_some r.port && is_routed r.state

-- The loop of get_ready_by_hostname over the rows that are selected.
unfoldable pub first_with_host : Text → Text → List DemoRecord → Result (Option DemoRecord)
unfolding is_active
first_with_host suffix requested [] = ok none
first_with_host suffix requested (r ∷ rs) =
    let rest = first_with_host suffix requested rs in
    if is_active r
    then (elim (hostname r.repository r.pr suffix) [
      | none ↦ raise index_error
      | some host ↦ if text_eq host requested then ok (some r) else rest
    ])
    else rest

-- get_ready_by_hostname
unfoldable pub get_ready_by_hostname : Text → Store → Result (Option DemoRecord)
get_ready_by_hostname requested s = first_with_host s.hostname_suffix requested s.demos

abbrev pub or_else {ℓ} : {A : Type ℓ} → Option A → Option A → Option A
or_else none b = b
or_else (some a) b = some a

-- The SET clause of update_state: a keyword that is None leaves its column alone.
unfoldable pub with_state : ℕ → DemoState → Text → Option ℕ → Option ℕ → DemoRecord → DemoRecord
with_state now state message vault_version port r = record r {
  state = state;
  message = take 1000 message;
  updated_at = now;
  vault_version = or_else vault_version r.vault_version;
  port = or_else port r.port;
}

-- update_state
unfoldable pub update_state : ℕ → Text → ℕ → DemoState → Text → Option ℕ → Option ℕ → Store → Store
unfolding with_state
update_state now repository pr state message vault_version port s = record s {
  demos = amend repository pr (with_state now state message vault_version port) s.demos;
}

-- delete_record
unfoldable pub delete_record : Text → ℕ → Store → Store
delete_record repository pr s = record s { demos = discard repository pr s.demos }

pub record DemoStatus : Type 0 where
  pub repository : Text
  pub pr : ℕ
  pub commit_sha : Option Text
  pub image : Option Text
  pub hostname : Text
  pub state : DemoState
  pub vault_version : Option ℕ
  pub message : Text
  pub updated_at : ℕ

-- status
unfoldable pub status : DemoRecord → Store → Result DemoStatus
status r s = elim (hostname r.repository r.pr s.hostname_suffix) [
  | none ↦ raise index_error
  | some host ↦ ok (record {
    repository = r.repository;
    pr = r.pr;
    commit_sha = r.commit_sha;
    image = r.image;
    hostname = host;
    state = r.state;
    vault_version = r.vault_version;
    message = r.message;
    updated_at = r.updated_at;
  })
]
