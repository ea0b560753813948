-- ===== src/Store/Reachable.antt =====
-- The stores that the methods make from an empty one, in any order and at any times, and what holds
-- in all of them.
use demos_rework.Base.{
  ℕ, ◌≡◌, refl, Option, [], ◌∷◌, All, All-append, Option-cases, Bool-cases, inl, inr,
}
use demos_rework.Base.Text.{Text, text_eq}
use demos_rework.Models.{DeployRequest}
use demos_rework.Store.Rows.{DemoState, NonceRow, find, find_nonce, prune}
use demos_rework.Store.Keys.{Unique, find-Fresh, Unique-amend, Unique-append, Unique-discard}
use demos_rework.Store.{
  Store, use_nonce, new_deploy, redeploy, write_deploy, upsert_deploy, new_destroy, withdraw,
  write_destroy, request_destroy,
}
use demos_rework.Store.Fields.{update_state, delete_record, with_state}
use demos_rework.Store.Deploy.{redeploy-KeepsKey}
use demos_rework.Store.Destroy.{withdraw-KeepsKey}
use demos_rework.Store.Serving.{with_state-KeepsKey}
use demos_rework.Store.Tables.{
  UniqueNonces, All-amend, All-discard, UniqueNonces-prune, find_nonce-FreshNonce,
  UniqueNonces-append,
}
use demos_rework.Store.Whole.{IsWhole, written-IsWhole, withdrawn-IsWhole, with_state-IsWhole}

-- One call of a method that writes.
pub data Step : Store → Store → Type 0 where
  uses_nonce :
      (repository nonce fingerprint : Text) (now max_age : ℕ) (s : Store)
      → Step s (use_nonce repository nonce fingerprint now max_age s).1
  deploys :
      (now : ℕ) (request : DeployRequest) (hash : Text) (s : Store)
      → Step s (upsert_deploy now request hash s).1
  destroys :
      (now : ℕ) (repository : Text) (pr : ℕ) (delivery_id hash : Text) (s : Store)
      → Step s (request_destroy now repository pr delivery_id hash s).1
  updates :
      (now : ℕ) (repository : Text) (pr : ℕ) (state : DemoState) (message : Text)
      (version port : Option ℕ) (s : Store)
      → Step s (update_state now repository pr state message version port s)
  drops : (repository : Text) (pr : ℕ) (s : Store) → Step s (delete_record repository pr s)

abbrev pub empty_store : Text → Store
empty_store suffix = record { demos = []; nonces = []; hostname_suffix = suffix }

pub data Reachable (suffix : Text) : Store → Type 0 where
  start : Reachable suffix (empty_store suffix)
  next : {s s' : Store} → Reachable suffix s → Step s s' → Reachable suffix s'

pub record IsSound (suffix : Text) (s : Store) : Type 0 where
  pub keys : Unique s.demos
  pub whole : All IsWhole s.demos
  pub nonces : UniqueNonces s.nonces
  pub host_suffix : s.hostname_suffix ≡ suffix

module _ (suffix : Text) (s : Store) (w : IsSound suffix s) where
  write_deploy-IsSound :
      (now : ℕ) (request : DeployRequest) (hash : Text)
      → IsSound suffix (write_deploy now request hash s)
  unfolding write_deploy
  write_deploy-IsSound now request hash =
      elim (Option-cases (find request.repository request.pr s.demos)) [
        | inl e ↦
            rw (e, write_deploy)
              (record {
                keys =
                    Unique-append s.demos (new_deploy now request hash)
                      (unfold new_deploy in find-Fresh request.repository request.pr s.demos e)
                      w.keys;
                whole =
                    All-append IsWhole s.demos (new_deploy now request hash ∷ []) w.whole
                      ((written-IsWhole now request hash (new_deploy now request hash)).0, tt);
                nonces = w.nonces;
                host_suffix = w.host_suffix;
              })
        | inr (r, e) ↦
            rw (e, write_deploy)
              (record {
                keys =
                    Unique-amend request.repository request.pr (redeploy now request hash) s.demos
                      (redeploy-KeepsKey now request hash) w.keys;
                whole =
                    All-amend IsWhole request.repository request.pr (redeploy now request hash)
                      s.demos (λ x _. (written-IsWhole now request hash x).1) w.whole;
                nonces = w.nonces;
                host_suffix = w.host_suffix;
              })
      ]

  write_destroy-IsSound :
      (now : ℕ) (repository : Text) (pr : ℕ) (delivery_id hash : Text)
      → IsSound suffix (write_destroy now repository pr delivery_id hash s)
  unfolding write_destroy
  write_destroy-IsSound now repository pr delivery_id hash =
      let whole = withdrawn-IsWhole now repository pr delivery_id hash in
      let row = new_destroy now repository pr delivery_id hash in
      elim (Option-cases (find repository pr s.demos)) [
        | inl e ↦
            rw (e, write_destroy)
              (record {
                keys =
                    Unique-append s.demos row
                      (unfold new_destroy in find-Fresh repository pr s.demos e) w.keys;
                whole = All-append IsWhole s.demos (row ∷ []) w.whole ((whole row).0, tt);
                nonces = w.nonces;
                host_suffix = w.host_suffix;
              })
        | inr (r, e) ↦
            rw (e, write_destroy)
              (record {
                keys =
                    Unique-amend repository pr (withdraw now delivery_id hash) s.demos
                      (withdraw-KeepsKey now delivery_id hash) w.keys;
                whole =
                    All-amend IsWhole repository pr (withdraw now delivery_id hash) s.demos
                      (λ x _. (whole x).1) w.whole;
                nonces = w.nonces;
                host_suffix = w.host_suffix;
              })
      ]

  upsert_deploy-IsSound :
      (now : ℕ) (request : DeployRequest) (hash : Text)
      → IsSound suffix (upsert_deploy now request hash s).1
  unfolding upsert_deploy
  upsert_deploy-IsSound now request hash =
      let written = write_deploy-IsSound now request hash in
      elim (Option-cases (find request.repository request.pr s.demos)) [
        | inl e ↦ rw (e, upsert_deploy) written
        | inr (r, e) ↦ elim (Bool-cases (text_eq r.delivery_id request.delivery_id)) [
          | inl same ↦ rw (e, same, upsert_deploy) w
          | inr other ↦ rw (e, other, upsert_deploy) written
        ]
      ]

  request_destroy-IsSound :
      (now : ℕ) (repository : Text) (pr : ℕ) (delivery_id hash : Text)
      → IsSound suffix (request_destroy now repository pr delivery_id hash s).1
  unfolding request_destroy
  request_destroy-IsSound now repository pr delivery_id hash =
      let written = write_destroy-IsSound now repository pr delivery_id hash in
      elim (Option-cases (find repository pr s.demos)) [
        | inl e ↦ rw (e, request_destroy) written
        | inr (r, e) ↦ elim (Bool-cases (text_eq r.delivery_id delivery_id)) [
          | inl same ↦ rw (e, same, request_destroy) w
          | inr other ↦ rw (e, other, request_destroy) written
        ]
      ]

  use_nonce-IsSound :
      (repository nonce fingerprint : Text) (now max_age : ℕ)
      → IsSound suffix (use_nonce repository nonce fingerprint now max_age s).1
  unfolding use_nonce
  use_nonce-IsSound repository nonce fingerprint now max_age =
      let row : NonceRow = record {
        repository = repository;
        nonce = nonce;
        request_fingerprint = fingerprint;
        seen_at = now;
      } in
      let kept = UniqueNonces-prune now max_age s.nonces w.nonces in
      elim (Option-cases (find_nonce repository nonce (prune now max_age s.nonces))) [
        | inl e ↦
            rw (e, use_nonce)
              (record {
                nonces = UniqueNonces-append _ row (find_nonce-FreshNonce row _ e) kept;
                keys = w.keys;
                whole = w.whole;
                host_suffix = w.host_suffix;
              })
        | inr (x, e) ↦
            rw (e, use_nonce)
              (record {
                nonces = kept;
                keys = w.keys;
                whole = w.whole;
                host_suffix = w.host_suffix;
              })
      ]

Step-IsSound : (suffix : Text) {s s' : Store} → Step s s' → IsSound suffix s → IsSound suffix s'
unfolding update_state delete_record
Step-IsSound suffix (Step.uses_nonce repository n fingerprint now max_age s) w =
    use_nonce-IsSound suffix s w repository n fingerprint now max_age
Step-IsSound suffix (Step.deploys now request hash s) w =
    upsert_deploy-IsSound suffix s w now request hash
Step-IsSound suffix (Step.destroys now repository pr delivery_id hash s) w =
    request_destroy-IsSound suffix s w now repository pr delivery_id hash
Step-IsSound suffix (Step.updates now repository pr state message version port s) w =
    let f = with_state now state message version port in
    record {
      keys =
          Unique-amend repository pr f s.demos (with_state-KeepsKey now state message version port)
            w.keys;
      whole =
          All-amend IsWhole repository pr f s.demos
            (with_state-IsWhole now state message version port) w.whole;
      nonces = w.nonces;
      host_suffix = w.host_suffix;
    }
Step-IsSound suffix (Step.drops repository pr s) w = record {
  keys = Unique-discard repository pr s.demos w.keys;
  whole = All-discard IsWhole repository pr s.demos w.whole;
  nonces = w.nonces;
  host_suffix = w.host_suffix;
}

-- Whatever methods were called, in any order and with any arguments, no two demos have the same
-- repository and number and no two nonces the same repository and text; a demo that is wanted has
-- an image and a commit, no message is longer than 1000 characters, and the suffix of the hosts is
-- the one that the store was made with.
pub Reachable-IsSound : (suffix : Text) {s : Store} → Reachable suffix s → IsSound suffix s
Reachable-IsSound suffix start = record { keys = tt; whole = tt; nonces = tt; host_suffix = refl }
Reachable-IsSound suffix (next before step) =
    Step-IsSound suffix step (Reachable-IsSound suffix before)
