-- ===== src/Store/Nonces.antt =====
-- use_nonce over time: how long a nonce stays bound to the request that used it first.
use demos_rework.Base.{
  ℕ, ◌+◌, ◌≤◌, ◌≡◌, refl, true, none, some, List, [], ◌∷◌, ◌++◌, arith, All, Option-cases, inl, inr,
  ap, ◌∙◌,
}
use demos_rework.Base.Text.{Text, text_eq, text_eq_refl}
use demos_rework.Store.Rows.{NonceRow, is_nonce, find_nonce, prune}
use demos_rework.Store.{Store, use_nonce}

pub record Use : Type 0 where
  pub repository : Text
  pub nonce : Text
  pub fingerprint : Text
  pub now : ℕ

-- The store after some uses, each at its own time, with one age for all.
unfoldable pub after_uses : ℕ → List Use → Store → Store
after_uses max_age [] s = s
after_uses max_age (u ∷ us) s =
    after_uses max_age us (use_nonce u.repository u.nonce u.fingerprint u.now max_age s).1

-- A row that is young enough stays, and stays the one that is found.
find-prune :
    (now max_age : ℕ) (repository nonce : Text) (rows : List NonceRow) (r : NonceRow)
    → find_nonce repository nonce rows ≡ some r
    → now ≤ r.seen_at + max_age
    → find_nonce repository nonce (prune now max_age rows) ≡ some r
unfolding find_nonce prune
find-prune now max_age repository nonce [] r h young = h
find-prune now max_age repository nonce (x ∷ rows) r h young =
    ground (arith, find-prune now max_age repository nonce rows r)

find_nonce-append :
    (repository nonce : Text) (rows : List NonceRow) (x r : NonceRow)
    → find_nonce repository nonce rows ≡ some r
    → find_nonce repository nonce (rows ++ x ∷ []) ≡ some r
unfolding find_nonce
find_nonce-append repository nonce [] x r h = cc
find_nonce-append repository nonce (y ∷ rows) x r h =
    ground (arith, find_nonce-append repository nonce rows x r)

find_nonce-new :
    (repository nonce : Text) (rows : List NonceRow) (x : NonceRow)
    → find_nonce repository nonce rows ≡ none
    → is_nonce repository nonce x ≡ true
    → find_nonce repository nonce (rows ++ x ∷ []) ≡ some x
unfolding find_nonce
find_nonce-new repository nonce [] x h k = ground arith
find_nonce-new repository nonce (y ∷ rows) x h k =
    ground (arith, find_nonce-new repository nonce rows x)

use_nonce-keeps :
    (u : Use) (max_age : ℕ) (s : Store) (repository nonce : Text) (r : NonceRow)
    → find_nonce repository nonce s.nonces ≡ some r
    → u.now ≤ r.seen_at + max_age
    → find_nonce repository nonce
        (use_nonce u.repository u.nonce u.fingerprint u.now max_age s).1.nonces
      ≡ some r
unfolding use_nonce
use_nonce-keeps u max_age s repository nonce r h young =
    let kept = find-prune u.now max_age repository nonce s.nonces r h young in
    elim (Option-cases (find_nonce u.repository u.nonce (prune u.now max_age s.nonces))) [
      | inl e ↦ rw (e, use_nonce) (find_nonce-append repository nonce _ _ r kept)
      | inr (x, e) ↦ rw (e, use_nonce) kept
    ]

after_uses-keeps :
    (us : List Use) (max_age : ℕ) (s : Store) (repository nonce : Text) (r : NonceRow)
    → find_nonce repository nonce s.nonces ≡ some r
    → All (λ u. u.now ≤ r.seen_at + max_age) us
    → find_nonce repository nonce (after_uses max_age us s).nonces ≡ some r
unfolding after_uses
after_uses-keeps [] max_age s repository nonce r h young = h
after_uses-keeps (u ∷ us) max_age s repository nonce r h young =
    after_uses-keeps us max_age _ repository nonce r
      (use_nonce-keeps u max_age s repository nonce r h young.0) young.1

use_nonce-found :
    (repository nonce fingerprint : Text) (now max_age : ℕ) (s : Store) (r : NonceRow)
    → find_nonce repository nonce s.nonces ≡ some r
    → now ≤ r.seen_at + max_age
    → (use_nonce repository nonce fingerprint now max_age s).0
      ≡ text_eq r.request_fingerprint fingerprint
unfolding use_nonce
use_nonce-found repository nonce fingerprint now max_age s r h young =
    rw (find-prune now max_age repository nonce s.nonces r h young, use_nonce) refl

use_nonce-first :
    (u : Use) (max_age : ℕ) (s : Store)
    → find_nonce u.repository u.nonce (prune u.now max_age s.nonces) ≡ none
    → (r : NonceRow) × (find_nonce u.repository u.nonce
          (use_nonce u.repository u.nonce u.fingerprint u.now max_age s).1.nonces
        ≡ some r)
      × (r.request_fingerprint ≡ u.fingerprint)
      × (r.seen_at ≡ u.now)
unfolding use_nonce
use_nonce-first u max_age s h =
    let row : NonceRow = record {
      repository = u.repository;
      nonce = u.nonce;
      request_fingerprint = u.fingerprint;
      seen_at = u.now;
    } in
    (
      row,
      rw (h, use_nonce)
          (find_nonce-new u.repository u.nonce _ row h (unfold is_nonce in simp text_eq_refl)),
      refl,
      refl,
    )

-- A nonce that is used for the first time stays bound to its fingerprint until `max_age` seconds
-- later, whatever uses come in between: up to then it passes again exactly for that fingerprint.
pub nonce_bound :
    (u : Use) (max_age : ℕ) (s : Store) (us : List Use) (fingerprint : Text) (now : ℕ)
    → find_nonce u.repository u.nonce (prune u.now max_age s.nonces) ≡ none
    → All (λ v. v.now ≤ u.now + max_age) us
    → now ≤ u.now + max_age
    → (use_nonce u.repository u.nonce fingerprint now max_age
        (after_uses max_age us (use_nonce u.repository u.nonce u.fingerprint u.now max_age s).1)).0
      ≡ text_eq u.fingerprint fingerprint
nonce_bound u max_age s us fingerprint now first between young =
    let (r, found, same, seen) = use_nonce-first u max_age s first in
    let used = (use_nonce u.repository u.nonce u.fingerprint u.now max_age s).1 in
    let kept = after_uses-keeps us max_age used u.repository u.nonce r found (rw seen between) in
    let again = after_uses max_age us used in
    use_nonce-found u.repository u.nonce fingerprint now max_age again r kept (rw seen young)
    ∙ ap (λ t. text_eq t fingerprint) same
