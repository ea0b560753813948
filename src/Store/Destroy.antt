-- ===== src/Store/Destroy.antt =====
-- request_destroy on the map of demos: its reply and the row that it leaves.
use demos_rework.Base.{
  ℕ, ◌≡◌, refl, Option, none, some, arith, false, ◌∙◌, if◌then◌else◌, Option-cases, inl, inr,
}
use demos_rework.Base.Text.{Text, text, text_eq}
use demos_rework.Base.Result.{Result, ok, raise, value_error}
use demos_rework.Store.Rows.{DemoRecord, deleting, find}
use demos_rework.Store.Keys.{KeepsKey, same_key, same_key_refl, find_same, find-amend, find-append}
use demos_rework.Store.{Store, new_destroy, withdraw, reused, write_destroy, request_destroy}
use demos_rework.Store.Fields.{get}

module _ (now : ℕ) (repository : Text) (pr : ℕ) (delivery_id hash : Text) where
  -- The row that a new deletion leaves, from the row that was there.
  abbrev pub withdrawn : Option DemoRecord → DemoRecord
  withdrawn none = new_destroy now repository pr delivery_id hash
  withdrawn (some r) = withdraw now delivery_id hash r

  -- The row of the key after a deletion, new or repeated.
  abbrev pub destroy_row : Option DemoRecord → DemoRecord
  destroy_row none = new_destroy now repository pr delivery_id hash
  destroy_row (some r) =
      if text_eq r.delivery_id delivery_id then r else withdraw now delivery_id hash r

  abbrev pub destroy_reply : Option DemoRecord → Result DemoRecord
  destroy_reply none = ok (new_destroy now repository pr delivery_id hash)
  destroy_reply (some r) =
      if text_eq r.delivery_id delivery_id
      then (if text_eq r.request_hash hash then ok r else raise (value_error reused))
      else ok (withdraw now delivery_id hash r)

  -- The specification, written out: the row that a deletion of a key without a row leaves, and the
  -- one that it leaves of a row.
  abbrev pub unknown_row : DemoRecord
  unknown_row = record {
    repository = repository;
    pr = pr;
    commit_sha = none;
    image = none;
    delivery_id = delivery_id;
    request_hash = hash;
    desired_present = false;
    state = deleting;
    vault_version = none;
    port = none;
    message = text "deletion accepted";
    created_at = now;
    updated_at = now;
    expires_at = now;
  }

  abbrev pub deleting_row : DemoRecord → DemoRecord
  deleting_row r = record {
    repository = r.repository;
    pr = r.pr;
    commit_sha = r.commit_sha;
    image = r.image;
    delivery_id = delivery_id;
    request_hash = hash;
    desired_present = false;
    state = deleting;
    vault_version = r.vault_version;
    port = r.port;
    message = text "deletion accepted";
    created_at = r.created_at;
    updated_at = now;
    expires_at = r.expires_at;
  }

  abbrev pub row_after : Option DemoRecord → DemoRecord
  row_after none = unknown_row
  row_after (some r) = if text_eq r.delivery_id delivery_id then r else deleting_row r

  abbrev pub reply_after : Option DemoRecord → Result DemoRecord
  reply_after none = ok unknown_row
  reply_after (some r) =
      if text_eq r.delivery_id delivery_id
      then (if text_eq r.request_hash hash
          then ok r
          else raise (value_error (text "delivery ID reused with different request")))
      else ok (deleting_row r)

pub withdraw-KeepsKey :
    (now : ℕ) (delivery_id hash : Text) → KeepsKey (withdraw now delivery_id hash)
unfolding withdraw
withdraw-KeepsKey now delivery_id hash = record { repository = λ r. refl; pr = λ r. refl }

module _ (now : ℕ) (repository : Text) (pr : ℕ) (delivery_id hash : Text) (s : Store) where
  find-write_destroy :
      (b : Text) (q : ℕ)
      → find b q (write_destroy now repository pr delivery_id hash s).demos ≡ (
          if same_key repository pr b q
          then some (withdrawn now repository pr delivery_id hash (find repository pr s.demos))
          else find b q s.demos)
  unfolding write_destroy
  find-write_destroy b q = elim (Option-cases (find repository pr s.demos)) [
    | inl e ↦ rw e (
        ground (
          arith,
          find-append b q s.demos (new_destroy now repository pr delivery_id hash),
          find_same repository pr b q s.demos,
        ))
    | inr (r, e) ↦ rw e (
        ground (
          arith,
          find-amend repository pr b q (withdraw now delivery_id hash) s.demos
              (withdraw-KeepsKey now delivery_id hash),
          find_same repository pr b q s.demos,
        ))
  ]

  request_destroy-reply :
      (request_destroy now repository pr delivery_id hash s).0
      ≡ destroy_reply now repository pr delivery_id hash (get repository pr s)
  unfolding request_destroy get
  request_destroy-reply =
      ground (arith, find-write_destroy repository pr, same_key_refl repository pr)

  get-request_destroy :
      (b : Text) (q : ℕ)
      → get b q (request_destroy now repository pr delivery_id hash s).1 ≡ (
          if same_key repository pr b q
          then some (destroy_row now repository pr delivery_id hash (get repository pr s))
          else get b q s)
  unfolding request_destroy get
  get-request_destroy b q =
      ground (arith, find-write_destroy b q, find_same repository pr b q s.demos)

  stored-destroy_row :
      (o : Option DemoRecord)
      → destroy_row now repository pr delivery_id hash o
        ≡ row_after now repository pr delivery_id hash o
  unfolding new_destroy withdraw
  stored-destroy_row none = refl
  stored-destroy_row (some r) = refl

  replied-destroy_reply :
      (o : Option DemoRecord)
      → destroy_reply now repository pr delivery_id hash o
        ≡ reply_after now repository pr delivery_id hash o
  unfolding new_destroy withdraw
  replied-destroy_reply none = refl
  replied-destroy_reply (some r) = refl

  -- On the map from keys to rows: the reply is `reply_after` of the row under the key, and
  -- afterwards that key has the row `row_after` and each other key the row that it had. For a
  -- repeated delivery the row stays, with a refusal if the body differs; else it is one that is
  -- being deleted and not wanted, with the delivery, the body's hash and the time of the change.
  -- It keeps the old row's commit, image, port, Vault version, creation and expiry; where there
  -- was no row, it has none of the first four, and the present time for the others.
  pub request_destroy_refines :
      ((request_destroy now repository pr delivery_id hash s).0
        ≡ reply_after now repository pr delivery_id hash (get repository pr s))
      × ((b : Text) (q : ℕ)
          → get b q (request_destroy now repository pr delivery_id hash s).1 ≡ (
              if same_key repository pr b q
              then some (row_after now repository pr delivery_id hash (get repository pr s))
              else get b q s))
  request_destroy_refines = (
    request_destroy-reply ∙ replied-destroy_reply (get repository pr s),
    λ b q. rw (get-request_destroy b q, stored-destroy_row (get repository pr s)) refl,
  )
