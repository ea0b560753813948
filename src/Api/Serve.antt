-- ===== src/Api/Serve.antt =====
-- When a handler behind the authentication runs.
use demos_rework.Base.{ℕ, ◌*◌, ◌≡◌, refl, ◌∙◌, ap, arith, inl, inr, ◌⊎◌, []}
use demos_rework.Base.Text.{Text, text}
use demos_rework.Base.Result.{Error, Result, ok, raise}
use demos_rework.Hashes.{Hashes}
use demos_rework.Http.{Request, header}
use demos_rework.Store.{Store, use_nonce}
use demos_rework.Auth.{
  Policy, Session, fingerprint_input, authenticate, claimed_repository, spend_nonce, check_rate,
}
use demos_rework.Api.{Service, behind, body_limit, serve}

use_nonce-demos :
    (repository nonce fingerprint : Text) (now max_age : ℕ) (s : Store)
    → (use_nonce repository nonce fingerprint now max_age s).1.demos ≡ s.demos
unfolding use_nonce
use_nonce-demos repository nonce fingerprint now max_age s = ground arith

-- Authentication leaves the demos alone.
pub authenticate_demos :
    (h : Hashes) (policy : Policy) (now : ℕ) (request : Request) (session : Session)
    → (authenticate h policy now request session).1.store.demos ≡ session.store.demos
unfolding authenticate spend_nonce check_rate
authenticate_demos h policy now request session = ground (
  arith,
  use_nonce-demos (claimed_repository request) (header (text "x-demos-nonce") [] request)
      (h.sha256 (fingerprint_input (claimed_repository request) request)) now
      (policy.max_age_seconds * 2) session.store,
)

pub Result-cases :
    {A : Type 0} (m : Result A) → ((e : Error) × (m ≡ raise e)) ⊎ ((a : A) × (m ≡ ok a))
Result-cases (raise e) = inl (e, refl)
Result-cases (ok a) = inr (a, refl)

behind_cases :
    {A : Type 0} (handler : Text → Store → Result A × Store) (p : Result Text × Session)
    → ((e : Error) × ((behind handler p).0 ≡ raise e) × ((behind handler p).1 ≡ p.1))
      ⊎ ((repository : Text) × (p.0 ≡ ok repository)
          × ((behind handler p).0 ≡ (handler repository p.1.store).0)
          × ((behind handler p).1.store ≡ (handler repository p.1.store).1))
behind_cases handler (raise e, session) = inl (e, refl, refl)
behind_cases handler (ok repository, session) = inr (repository, refl, refl, refl)

module _ (h : Hashes) (service : Service) (now : ℕ) (request : Request) (session : Session) where
  -- Either the handler did not run and the demos are those of before, or it ran for the repository
  -- that was authenticated.
  pub serve_cases :
      {A : Type 0} (handler : Text → Store → Result A × Store)
      → let p = authenticate h service.policy now request session in
        let q = serve h service now handler request session in
        ((e : Error) × (q.0 ≡ raise e) × (q.1.store.demos ≡ session.store.demos))
        ⊎ ((repository : Text) × (p.0 ≡ ok repository)
            × (q.0 ≡ (handler repository p.1.store).0)
            × (q.1.store ≡ (handler repository p.1.store).1))
  unfolding serve
  serve_cases handler = elim (Result-cases (body_limit service.request_max_bytes request)) [
    | inl (e, long) ↦ inl (e, rw (long, serve) refl, rw (long, serve) refl)
    | inr (_, short) ↦
        elim (behind_cases handler (authenticate h service.policy now request session)) [
          | inl (e, raised, same) ↦ inl (
            e,
            rw (short, serve) raised,
            rw (short, serve)
                (ap (λ x. x.store.demos) same
                  ∙ authenticate_demos h service.policy now request session),
          )
          | inr (repository, known, reply, store) ↦
              inr (repository, known, rw (short, serve) reply, rw (short, serve) store)
        ]
  ]
