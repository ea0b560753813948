-- ===== src/Store/Tables.antt =====
-- Lemmas on the lists of rows: what holds of all of them, and the keys of the nonces.
use demos_rework.Base.{ℕ, ◌≡◌, false, none, List, [], ◌∷◌, ◌++◌, arith, All, All-append}
use demos_rework.Base.Text.{Text, text_eq_iff}
use demos_rework.Store.Rows.{DemoRecord, NonceRow, amend, discard, find_nonce, is_nonce, prune}

-- No two rows have the same repository and nonce.
abbrev pub FreshNonce : NonceRow → List NonceRow → Type 0
FreshNonce x rows = All (λ y. is_nonce x.repository x.nonce y ≡ false) rows

abbrev pub UniqueNonces : List NonceRow → Type 0
UniqueNonces [] = Unit
UniqueNonces (x ∷ rows) = FreshNonce x rows × UniqueNonces rows

pub All-amend :
    (P : DemoRecord → Type 0) (a : Text) (p : ℕ) (f : DemoRecord → DemoRecord)
    (rs : List DemoRecord)
    → ((r : DemoRecord) → P r → P (f r))
    → All P rs
    → All P (amend a p f rs)
unfolding amend
All-amend P a p f [] k h = tt
All-amend P a p f (r ∷ rs) k h = ground (arith, k r h.0, All-amend P a p f rs k h.1)

pub All-discard :
    (P : DemoRecord → Type 0) (a : Text) (p : ℕ) (rs : List DemoRecord)
    → All P rs
    → All P (discard a p rs)
unfolding discard
All-discard P a p [] h = tt
All-discard P a p (r ∷ rs) h = ground (arith, All-discard P a p rs h.1)

FreshNonce-prune :
    (x : NonceRow) (now max_age : ℕ) (rows : List NonceRow)
    → FreshNonce x rows
    → FreshNonce x (prune now max_age rows)
unfolding prune
FreshNonce-prune x now max_age [] h = tt
FreshNonce-prune x now max_age (y ∷ rows) h =
    ground (arith, FreshNonce-prune x now max_age rows h.1)

pub UniqueNonces-prune :
    (now max_age : ℕ) (rows : List NonceRow)
    → UniqueNonces rows
    → UniqueNonces (prune now max_age rows)
unfolding prune
UniqueNonces-prune now max_age [] h = tt
UniqueNonces-prune now max_age (x ∷ rows) h =
    ground (arith, FreshNonce-prune x now max_age rows h.0, UniqueNonces-prune now max_age rows h.1)

pub find_nonce-FreshNonce :
    (x : NonceRow) (rows : List NonceRow)
    → find_nonce x.repository x.nonce rows ≡ none
    → FreshNonce x rows
unfolding find_nonce
find_nonce-FreshNonce x [] h = tt
find_nonce-FreshNonce x (y ∷ rows) h = ground (arith, find_nonce-FreshNonce x rows)

is_nonce_sym :
    (x y : NonceRow)
    → is_nonce x.repository x.nonce y ≡ false
    → is_nonce y.repository y.nonce x ≡ false
unfolding is_nonce
is_nonce_sym x y h = ground (
  arith,
  text_eq_iff x.repository y.repository,
  text_eq_iff y.repository x.repository,
  text_eq_iff x.nonce y.nonce,
  text_eq_iff y.nonce x.nonce,
)

pub UniqueNonces-append :
    (rows : List NonceRow) (x : NonceRow)
    → FreshNonce x rows
    → UniqueNonces rows
    → UniqueNonces (rows ++ x ∷ [])
UniqueNonces-append [] x f h = (tt, tt)
UniqueNonces-append (y ∷ rows) x f h = (
  All-append (λ z. is_nonce y.repository y.nonce z ≡ false) rows (x ∷ []) h.0
      (is_nonce_sym x y f.0, tt),
  UniqueNonces-append rows x f.1 h.1,
)
