-- ===== src/Store/Changes.antt =====
-- update_state and delete_record on the map of demos.
use demos_rework.Base.{ℕ, ◌≡◌, refl, sym, ◌∙◌, Option, none, some, arith, if◌then◌else◌}
use demos_rework.Base.Text.{Text}
use demos_rework.Store.Rows.{DemoState, DemoRecord}
use demos_rework.Store.Keys.{same_key, same_key_refl, map_found, find-amend, find-discard}
use demos_rework.Store.{Store}
use demos_rework.Store.Fields.{get, with_state, update_state, delete_record}
use demos_rework.Store.Serving.{with_state-KeepsKey}

module _ (repository : Text) (pr : ℕ) (b : Text) (q : ℕ) (s : Store) where
  pub get-update_state :
      (now : ℕ) (state : DemoState) (message : Text) (version port : Option ℕ)
      → get b q (update_state now repository pr state message version port s) ≡ (
          if same_key repository pr b q
          then map_found (with_state now state message version port) (get b q s)
          else get b q s)
  unfolding get update_state
  get-update_state now state message version port =
      find-amend repository pr b q (with_state now state message version port) s.demos
        (with_state-KeepsKey now state message version port)

  pub get-delete_record :
      get b q (delete_record repository pr s)
      ≡ (if same_key repository pr b q then none else get b q s)
  unfolding get delete_record
  get-delete_record = find-discard repository pr b q s.demos

module _ (repository : Text) (pr : ℕ) (s : Store) where
  pub get-update_state_self :
      (now : ℕ) (state : DemoState) (message : Text) (version port : Option ℕ)
      → get repository pr (update_state now repository pr state message version port s)
        ≡ map_found (with_state now state message version port) (get repository pr s)
  get-update_state_self now state message version port =
      rw (get-update_state repository pr repository pr s, same_key_refl) refl

  pub get-delete_record_self : get repository pr (delete_record repository pr s) ≡ none
  get-delete_record_self = rw (get-delete_record repository pr repository pr s, same_key_refl) refl

pub record IsUpdated (state : DemoState) (version port : Option ℕ) (r : DemoRecord) : Type 0 where
  pub state_set : r.state ≡ state
  pub version_set : (n : ℕ) → version ≡ some n → r.vault_version ≡ some n
  pub port_set : (n : ℕ) → port ≡ some n → r.port ≡ some n

-- The row that is found behind update_state has what was set.
pub update_state-IsUpdated :
    (repository : Text) (pr : ℕ) (s : Store) (now : ℕ) (state : DemoState) (message : Text)
    (version port : Option ℕ) (r : DemoRecord)
    → get repository pr (update_state now repository pr state message version port s) ≡ some r
    → IsUpdated state version port r
update_state-IsUpdated repository pr s now state message version port r e =
    from (get repository pr s)
      (sym (get-update_state_self repository pr s now state message version port) ∙ e)
  where
    from :
        (o : Option DemoRecord)
        → map_found (with_state now state message version port) o ≡ some r
        → IsUpdated state version port r
    from none h = cc
    from (some old) h =
        unfold with_state in
        record {
          state_set = ground arith;
          version_set = λ n e. ground arith;
          port_set = λ n e. ground arith;
        }
