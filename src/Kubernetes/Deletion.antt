-- ===== src/Kubernetes/Deletion.antt =====
-- What a deletion that succeeds leaves in the cluster.
use mathlib.Core.Path.{subst}
use demos_rework.Base.{ℕ, ◌≡◌, refl, ◌∙◌, ◌==◌, Bool-cases, inl, inr, ==_iff}
use demos_rework.Base.Text.{Text}
use demos_rework.Hashes.{Hashes}
use demos_rework.Naming.{resource_name}
use demos_rework.Kubernetes.Client.{
  Kind, Cluster, Reply, done, fault, Fault, Action, continue, ◌>>◌,
}
use demos_rework.Kubernetes.{forgive_missing, delete_if_exists, delete}

-- What the Kubernetes API says of DELETE: an object that was deleted, or that the API does not find
-- (404), is not there, and a deletion creates nothing.
pub record Deletes (c : Cluster) (Present : Kind → Text → c.World → Type 0) : Type 0 where
  pub gone :
      (k : Kind) (n : Text) (w w' : c.World)
      → c.delete_resource k n w ≡ (done tt, w')
      → ¬ Present k n w'
  pub missing :
      (k : Kind) (n : Text) (w w' : c.World) (f : Fault)
      → c.delete_resource k n w ≡ (fault f, w')
      → f.code ≡ 404
      → ¬ Present k n w'
  pub creates_nothing :
      (k : Kind) (n : Text) (w : c.World) (j : Kind) (m : Text)
      → Present j m (c.delete_resource k n w).1
      → Present j m w

-- A claim of each kind.
kinds :
    (P : Kind → Type 0) (k : Kind)
    → P k
    → ¬ P Kind.deployment
    → ¬ P Kind.service
    → ¬ P Kind.config_map
    → ¬ P Kind.secret
    → ⊥
kinds P Kind.deployment p a b c d = a p
kinds P Kind.service p a b c d = b p
kinds P Kind.config_map p a b c d = c p
kinds P Kind.secret p a b c d = d p

-- A sequence that succeeds has parts that do.
>>-done :
    {W : Type 0} (m n : Action W (Unit {0})) (w : W)
    → ((m >> n) w).0 ≡ done tt
    → ((m w).0 ≡ done tt) × ((n (m w).1).0 ≡ done tt) × (((m >> n) w).1 ≡ (n (m w).1).1)
>>-done {W} m n w h = from (m w) h
  where
    from :
        (p : Reply (Unit {0}) × W)
        → (let (r, w') = p in continue r (λ _. n) w').0 ≡ done tt
        → (p.0 ≡ done tt)
          × ((n p.1).0 ≡ done tt)
          × ((let (r, w') = p in continue r (λ _. n) w').1 ≡ (n p.1).1)
    from (done tt, w') h = (refl, h, refl)
    from (fault f, w') h = cc

module _ (c : Cluster) (Present : Kind → Text → c.World → Type 0) (laws : Deletes c Present) where
  forgiven :
      (k : Kind) (n : Text) (w : c.World) (p : Reply (Unit {0}) × c.World)
      → c.delete_resource k n w ≡ p
      → (forgive_missing p).0 ≡ done tt
      → (¬ Present k n (forgive_missing p).1)
        × ((j : Kind) (m : Text) → Present j m (forgive_missing p).1 → Present j m w)
  unfolding forgive_missing
  forgiven k n w (done tt, w') e h =
      (laws.gone k n w w' e, λ j m there. laws.creates_nothing k n w j m (rw e there))
  forgiven k n w (fault f, w') e h = elim (Bool-cases (f.code == 404)) [
    | inl absent ↦ rw absent (
      laws.missing k n w w' f e ((==_iff f.code 404).0 absent),
      λ j m there. laws.creates_nothing k n w j m (rw e there),
    )
    | inr other ↦ cc (rw (other, forgive_missing) at h)
  ]

  step :
      (k : Kind) (n : Text) (w : c.World)
      → (delete_if_exists c k n w).0 ≡ done tt
      → (¬ Present k n (delete_if_exists c k n w).1)
        × ((j : Kind) (m : Text) → Present j m (delete_if_exists c k n w).1 → Present j m w)
  unfolding delete_if_exists
  step k n w h = forgiven k n w (c.delete_resource k n w) refl h

  -- Once the deletion of a demo has succeeded, nothing with its resource name is left in the
  -- cluster, of any of the four kinds that the controller writes, whichever were there before.
  pub delete_leaves_nothing :
      (h : Hashes) (repository : Text) (pr : ℕ) (w : c.World)
      → (delete c h repository pr w).0 ≡ done tt
      → (k : Kind) → ¬ Present k (resource_name h repository pr) (delete c h repository pr w).1
  unfolding delete
  delete_leaves_nothing h repository pr w e k there =
      let n = resource_name h repository pr in
      let m1 = delete_if_exists c Kind.deployment n in
      let m2 = delete_if_exists c Kind.service n in
      let m3 = delete_if_exists c Kind.config_map n in
      let m4 = delete_if_exists c Kind.secret n in
      let (e1, r1, q1) = >>-done m1 (m2 >> (m3 >> m4)) w e in
      let w1 = (m1 w).1 in
      let (e2, r2, q2) = >>-done m2 (m3 >> m4) w1 r1 in
      let w2 = (m2 w1).1 in
      let (e3, e4, q3) = >>-done m3 m4 w2 r2 in
      let w3 = (m3 w2).1 in
      let (no1, back1) = step Kind.deployment n w e1 in
      let (no2, back2) = step Kind.service n w1 e2 in
      let (no3, back3) = step Kind.config_map n w2 e3 in
      let (no4, back4) = step Kind.secret n w3 e4 in
      let last : Present k n (m4 w3).1 = subst (Present k n) (q1 ∙ q2 ∙ q3) there in
      kinds (λ j. Present j n (m4 w3).1) k last
        (λ p. no1 (back2 Kind.deployment n (back3 Kind.deployment n (back4 Kind.deployment n p))))
        (λ p. no2 (back3 Kind.service n (back4 Kind.service n p)))
        (λ p. no3 (back4 Kind.config_map n p)) no4
