-- ===== src/Vault/Sound.antt =====
-- What a lookup that returns a configuration has checked.
use mathlib.Core.Path.{subst}
use demos_rework.Base.{
  ◌≡◌, refl, ap, ◌∙◌, Option, none, some, Bool-cases, Option-cases, inl, inr, ◌⊎◌, any, ◌==◌,
}
use demos_rework.Base.Text.{Text, text}
use demos_rework.Base.Json.{Json}
use demos_rework.Models.Config.{RawConfig, ProjectConfig, validate_project}
use demos_rework.Models.Project.{IsAcceptedConfig, validate_project_sound}
use demos_rework.Vault.{Attempt, response, transport, http_error, broken, Transport}
use demos_rework.Vault.Client.{
  Config, Token, Failure, type_error, found, vault_error, crashed, index, int_of,
}
use demos_rework.Vault.Token.{is_success, ensure_token, Outcome}
use demos_rework.Vault.Lookup.{
  VaultProject, ◌>>=◌, or_failing, model_validate, read_project, json_project, or_invalid_data,
  conclude, is_denied, second_lookup, settle, first_lookup, project,
}

bind-eq-inr :
    {A B : Type 0} (m : Failure ⊎ A) (f : A → Failure ⊎ B) {b : B}
    → (m >>= f) ≡ inr b
    → (a : A) × (m ≡ inr a) × (f a ≡ inr b)
bind-eq-inr (inl e) f h = cc
bind-eq-inr (inr a) f h = (a, refl, h)

module _ (read_config : Json → Option RawConfig) where
  -- The configuration passed the validators.
  abbrev pub IsRead : VaultProject → Type 0
  IsRead p =
      (raw : RawConfig) × ((j : Json) × (read_config j ≡ some raw)) × IsAcceptedConfig raw p.config

  model_validate_sound :
      (j : Json) (c : ProjectConfig)
      → model_validate read_config j ≡ inr c
      → (raw : RawConfig) × ((k : Json) × (read_config k ≡ some raw)) × IsAcceptedConfig raw c
  unfolding model_validate
  model_validate_sound j c h = elim (Option-cases (read_config j)) [
    | inl e ↦ cc (rw (e, model_validate) at h)
    | inr (raw, e) ↦ elim (Option-cases (validate_project raw)) [
      | inl bad ↦ cc (rw (e, bad, model_validate) at h)
      | inr (given, good) ↦
          let same : given ≡ c = cc (rw (e, good, model_validate) at h) in
          (raw, (j, e), validate_project_sound raw c (good ∙ ap some same))
    ]
  ]

  read_project-IsRead :
      (j : Json) (p : VaultProject) → read_project read_config j ≡ inr p → IsRead p
  unfolding read_project
  read_project-IsRead j p h =
      let (payload, _, h1) = bind-eq-inr (index (text "data") j) _ h in
      let (given, _, h2) = bind-eq-inr (index (text "data") payload) _ h1 in
      let (config, valid, h3) = bind-eq-inr (model_validate read_config given) _ h2 in
      let (metadata, _, h4) = bind-eq-inr (index (text "metadata") payload) _ h3 in
      let (number, _, h5) = bind-eq-inr (index (text "version") metadata) _ h4 in
      let (version, _, h6) = bind-eq-inr (or_failing type_error (int_of number)) _ h5 in
      let made : record { config = config; version = version } ≡ p = cc h6 in
      subst IsRead made (model_validate_sound given config valid)

  json_project-IsRead :
      (o : Option Json) (p : VaultProject) → json_project read_config o ≡ found p → IsRead p
  json_project-IsRead none p h = cc
  json_project-IsRead (some j) p h = given (read_project read_config j) refl h
    where
      given :
          (m : Failure ⊎ VaultProject)
          → read_project read_config j ≡ m
          → or_invalid_data m ≡ found p
          → IsRead p
      given (inl e) read g = cc
      given (inr q) read g =
          let same : q ≡ p = cc g in read_project-IsRead j p (read ∙ ap (λ x. inr x) same)

  conclude-IsRead : (a : Attempt) (p : VaultProject) → conclude read_config a ≡ found p → IsRead p
  unfolding conclude
  conclude-IsRead (response r) p h = elim (Bool-cases (r.status == 404)) [
    | inl missing ↦ cc (rw (missing, conclude) at h)
    | inr there ↦ elim (Bool-cases (is_success r.status)) [
      | inr refused ↦ cc (rw (there, refused, conclude) at h)
      | inl fine ↦ json_project-IsRead r.json p (rw (there, fine, conclude) at h)
    ]
  ]
  conclude-IsRead (transport e) p h = cc
  conclude-IsRead (http_error name) p h = cc
  conclude-IsRead (broken name) p h = cc

  module _ (t : Transport) (config : Config) (repository : Text) where
    second_lookup-IsRead :
        (o : Outcome t config (Unit {0})) (p : VaultProject)
        → (second_lookup t config read_config repository o).0 ≡ found p
        → IsRead p
    second_lookup-IsRead (found x, (token, w)) p h = conclude-IsRead _ p h
    second_lookup-IsRead (vault_error category message, s) p h = cc
    second_lookup-IsRead (crashed name, s) p h = cc

    settle-IsRead :
        (a : Attempt) (token : Token) (w : t.World) (p : VaultProject)
        → (settle t config read_config repository a token w).0 ≡ found p
        → IsRead p
    unfolding settle
    settle-IsRead a token w p h = elim (Bool-cases (is_denied a)) [
      | inl denied ↦ second_lookup-IsRead _ p (rw (denied, settle) at h)
      | inr final ↦ conclude-IsRead a p (rw (final, settle) at h)
    ]

    first_lookup-IsRead :
        (o : Outcome t config (Unit {0})) (p : VaultProject)
        → (first_lookup t config read_config repository o).0 ≡ found p
        → IsRead p
    first_lookup-IsRead (found x, (token, w)) p h =
        elim (Bool-cases (any (λ c. c == b'/') repository)) [
          | inl pair ↦ settle-IsRead _ token _ p (rw (pair, first_lookup) at h)
          | inr single ↦ cc (rw (single, first_lookup) at h)
        ]
    first_lookup-IsRead (vault_error category message, s) p h = cc
    first_lookup-IsRead (crashed name, s) p h = cc

    -- A configuration that a lookup returns was read from JSON and passed every validator: it has all
    -- that an accepted configuration has.
    pub project-IsRead :
        (token : Token) (w : t.World) (p : VaultProject)
        → (project t config read_config repository token w).0 ≡ found p
        → (raw : RawConfig) × ((j : Json) × (read_config j ≡ some raw))
          × IsAcceptedConfig raw p.config
    unfolding project
    project-IsRead token w p h = first_lookup-IsRead (ensure_token t config token w) p h
