-- ===== src/Store/Rows.antt =====
-- The rows of the two tables, and the SELECT, UPDATE and DELETE statements by key.
use demos_rework.Base.{
  ℕ, ◌+◌, Bool, ◌&&◌, Option, none, some, List, [], ◌∷◌, ltb, ◌==◌, if◌then◌else◌,
}
use demos_rework.Base.Text.{Text, text_eq}

pub data DemoState : Type 0 where
  pending reconciling ready failed deleting : DemoState

pub record DemoRecord : Type 0 where
  pub repository : Text
  pub pr : ℕ
  pub commit_sha : Option Text
  pub image : Option Text
  pub delivery_id : Text
  pub request_hash : Text
  pub desired_present : Bool
  pub state : DemoState
  pub vault_version : Option ℕ
  pub port : Option ℕ
  pub message : Text
  pub created_at : ℕ
  pub updated_at : ℕ
  pub expires_at : ℕ

pub record NonceRow : Type 0 where
  pub repository : Text
  pub nonce : Text
  pub request_fingerprint : Text
  pub seen_at : ℕ

-- WHERE repository=? AND pr=?
unfoldable pub is_demo : Text → ℕ → DemoRecord → Bool
is_demo repository pr r = text_eq r.repository repository && r.pr == pr

-- SELECT * … WHERE repository=? AND pr=?, fetchone()
unfoldable pub find : Text → ℕ → List DemoRecord → Option DemoRecord
find repository pr [] = none
find repository pr (r ∷ rs) = if is_demo repository pr r then some r else find repository pr rs

-- UPDATE demos SET … WHERE repository=? AND pr=?
unfoldable pub amend : Text → ℕ → (DemoRecord → DemoRecord) → List DemoRecord → List DemoRecord
amend repository pr f [] = []
amend repository pr f (r ∷ rs) =
    (if is_demo repository pr r then f r else r) ∷ amend repository pr f rs

-- DELETE FROM demos WHERE repository=? AND pr=?
unfoldable pub discard : Text → ℕ → List DemoRecord → List DemoRecord
discard repository pr [] = []
discard repository pr (r ∷ rs) =
    let rest = discard repository pr rs in if is_demo repository pr r then rest else r ∷ rest

unfoldable pub is_nonce : Text → Text → NonceRow → Bool
is_nonce repository nonce r = text_eq r.repository repository && text_eq r.nonce nonce

unfoldable pub find_nonce : Text → Text → List NonceRow → Option NonceRow
find_nonce repository nonce [] = none
find_nonce repository nonce (r ∷ rs) =
    if is_nonce repository nonce r then some r else find_nonce repository nonce rs

-- DELETE FROM nonces WHERE seen_at < now - max_age; the sum keeps this within the naturals.
unfoldable pub prune : ℕ → ℕ → List NonceRow → List NonceRow
prune now max_age [] = []
prune now max_age (r ∷ rs) =
    let rest = prune now max_age rs in if ltb (r.seen_at + max_age) now then rest else r ∷ rest
