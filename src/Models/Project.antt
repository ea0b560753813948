-- ===== src/Models/Project.antt =====
-- What a project configuration that passes models.py is known to be.
use mathlib.Core.Path.{subst}
use mathlib.Core.Bool.{false≢true}
use demos_rework.Base.{
  ◌⊎◌, ℕ, ◌≤◌, ◌≡◌, ◌≢◌, refl, sym, ap, ◌∙◌, ==_iff, zero, suc, Bool, true, false, not, Option,
  none, some, [], ◌∷◌, ◌++◌, arith, length, all, Bool-cases, inl, inr,
}
use demos_rework.Base.Maybe.{>>=-eq-some, check-eq-some, some-eq}
use demos_rework.Base.Text.{Text, text, text_eq, text_eq_iff, starts_with, starts_with_iff}
use demos_rework.Base.Int.{ℤ, pos, negsuc}
use demos_rework.Base.Decimal.{value}
use demos_rework.Regex.{fullmatch}
use demos_rework.Regex.Language.{Lang, fullmatch_iff}
use demos_rework.Models.Patterns.{health_path_re}
use demos_rework.Models.Deploy.{bounded_sound}
use demos_rework.Models.Config.{
  Dict, lookup, has_key, overlap, entry_ok, validate_environment, contains, validate_health_path,
  RawConfig, ProjectConfig, validate_project, field_or, port_or_default, is_version_one,
  validate_resources, validate_cpu, validate_memory, mib, RawResources, ResourceValues,
}

lookup-none : (k : Text) (d : Dict) → has_key k d ≡ false → lookup k d ≡ none
unfolding lookup has_key
lookup-none k [] h = refl
lookup-none k ((j, v) ∷ d) h = ground (arith, lookup-none k d)

overlap_disjoint :
    (e s : Dict) → overlap e s ≡ false → (k : Text) → (lookup k e ≡ none) ⊎ (lookup k s ≡ none)
unfolding overlap lookup
overlap_disjoint [] s h k = inl refl
overlap_disjoint ((j, v) ∷ e) s h k = elim (Bool-cases (text_eq j k)) [
  | inl same ↦
      let eq : j ≡ k = (text_eq_iff j k).0 same in inr (lookup-none k s (rw (← eq) (ground arith)))
  | inr other ↦ rw other (overlap_disjoint e s (ground arith) k)
]

starts_with-contains : (sub s : Text) → starts_with sub s ≡ true → contains sub s ≡ true
unfolding contains
starts_with-contains sub [] h = h
starts_with-contains sub (c ∷ s) h = rw h refl

contains-append : (sub a b : Text) → contains sub (a ++ (sub ++ b)) ≡ true
unfolding contains
contains-append sub [] b =
    starts_with-contains sub (sub ++ b) ((starts_with_iff sub (sub ++ b)).1 (b, refl))
contains-append sub (c ∷ a) b = ground (arith, contains-append sub a b)

validate_environment_sound :
    (raw : Dict) {d : Dict}
    → validate_environment raw ≡ some d
    → (raw ≡ d) × (length d ≤ 100) × (all entry_ok d ≡ true)
unfolding validate_environment
validate_environment_sound raw h = ground arith

validate_health_path_sound :
    (v : Text) {p : Text}
    → validate_health_path v ≡ some p
    → (contains (text "..") p ≡ false) × Lang health_path_re p
unfolding validate_health_path
validate_health_path_sound v {p} h =
    let passes : fullmatch health_path_re p ≡ true = ground arith in
    (ground arith, (fullmatch_iff health_path_re p).0 passes)

root_path : contains (text "..") (text "/") ≡ false
unfolding contains text starts_with
root_path = refl

slash_first : (p : Text) → Lang health_path_re p → (s : Text) × (p ≡ b'/' ∷ s)
unfolding health_path_re
slash_first p (t, u, (c, h, e), k, e') =
    let same : c ≡ b'/' = (==_iff c b'/').0 h in (u, rw (e', e, same) refl)

health_path_sound :
    (v : Option Text) {p : Text}
    → field_or (text "/") validate_health_path v ≡ some p
    → (contains (text "..") p ≡ false) × ((s : Text) × (p ≡ b'/' ∷ s))
health_path_sound none h =
    let same = some-eq h in (rw (← same) root_path, ([], rw (← same) (unfold text in refl)))
health_path_sound (some v) {p} h =
    let (safe, matched) = validate_health_path_sound v h in (safe, slash_first p matched)

port_sound : (v : Option ℤ) {n : ℕ} → port_or_default v ≡ some n → (1024 ≤ n) × (n ≤ 65535)
unfolding port_or_default
port_sound none h = let same = some-eq h in rw (← same) (omega arith)
port_sound (some v) h = let (_, lo, hi) = bounded_sound 1024 65535 v h in (lo, hi)

memory_sound :
    (default : Text) (v : Option Text) {m : Text}
    → mib default ≤ 8192
    → field_or default validate_memory v ≡ some m
    → mib m ≤ 8192
unfolding validate_memory
memory_sound default none small h = let same = some-eq h in rw (← same) small
memory_sound default (some v) small h = ground arith

memory_defaults : (mib (text "128Mi") ≤ 8192) × (mib (text "1Gi") ≤ 8192)
unfolding mib text value text_eq
memory_defaults = omega arith

pub record IsBounded (r : ResourceValues) : Type 0 where
  pub request : mib r.memory_request ≤ 8192
  pub limit : mib r.memory_limit ≤ 8192

validate_resources_sound :
    (raw : RawResources) {r : ResourceValues} → validate_resources raw ≡ some r → IsBounded r
unfolding validate_resources
validate_resources_sound raw h =
    let (_, _, h1) = >>=-eq-some (field_or (text "50m") validate_cpu raw.cpu_request) _ h in
    let (_, _, h2) = >>=-eq-some (field_or (text "1") validate_cpu raw.cpu_limit) _ h1 in
    let (request, hr, h3) =
      >>=-eq-some (field_or (text "128Mi") validate_memory raw.memory_request) _ h2 in
    let (limit, hl, h4) =
      >>=-eq-some (field_or (text "1Gi") validate_memory raw.memory_limit) _ h3 in
    let same = some-eq h4 in
    subst IsBounded same (record {
      request = memory_sound (text "128Mi") raw.memory_request memory_defaults.0 hr;
      limit = memory_sound (text "1Gi") raw.memory_limit memory_defaults.1 hl;
    })

pub record IsAcceptedConfig (raw : RawConfig) (c : ProjectConfig) : Type 0 where
  pub schema_version : raw.schema_version ≡ pos 1
  pub enabled : raw.enabled ≡ true
  pub environment : raw.environment ≡ c.environment
  pub secrets : raw.secrets ≡ c.secrets
  pub few : (length c.environment ≤ 100) × (length c.secrets ≤ 100)
  pub named : (all entry_ok c.environment ≡ true) × (all entry_ok c.secrets ≡ true)
  pub disjoint : (k : Text) → (lookup k c.environment ≡ none) ⊎ (lookup k c.secrets ≡ none)
  pub port : (1024 ≤ c.port) × (c.port ≤ 65535)
  pub rooted : (s : Text) × (c.health_path ≡ b'/' ∷ s)
  pub no_parent : (a b : Text) → c.health_path ≢ a ++ (text ".." ++ b)
  pub memory : IsBounded c.resources

version_sound : (v : ℤ) → is_version_one v ≡ true → v ≡ pos 1
unfolding is_version_one
version_sound (pos zero) h = cc
version_sound (pos (suc zero)) h = refl
version_sound (pos (suc (suc n))) h = cc
version_sound (negsuc n) h = cc

not-true : (b : Bool) → not b ≡ true → b ≡ false
not-true b h = ground arith

-- A configuration that is accepted is enabled and of version 1 and keeps the dictionaries that were
-- sent. No name is both plain and secret, each dictionary has at most 100 entries that pass the
-- test on names and lengths, the port is in 1024 to 65535, the health path begins with a slash and
-- has no `..` in it, and no memory value exceeds 8192 MiB.
pub validate_project_sound :
    (raw : RawConfig) (c : ProjectConfig) → validate_project raw ≡ some c → IsAcceptedConfig raw c
unfolding validate_project
validate_project_sound raw c h =
    let (version, h1) = check-eq-some (is_version_one raw.schema_version) _ h in
    let (environment, he, h2) = >>=-eq-some (validate_environment raw.environment) _ h1 in
    let (secrets, hs, h3) = >>=-eq-some (validate_environment raw.secrets) _ h2 in
    let (port, hp, h4) = >>=-eq-some (port_or_default raw.port) _ h3 in
    let (path, hh, h5) =
      >>=-eq-some (field_or (text "/") validate_health_path raw.health_path) _ h4 in
    let (resources, hr, h6) = >>=-eq-some (validate_resources raw.resources) _ h5 in
    let (apart, h7) = check-eq-some (not (overlap environment secrets)) _ h6 in
    let (on, h8) = check-eq-some raw.enabled _ h7 in
    let (same_e, few_e, named_e) = validate_environment_sound raw.environment he in
    let (same_s, few_s, named_s) = validate_environment_sound raw.secrets hs in
    let (safe, rooted) = health_path_sound raw.health_path hh in
    subst (IsAcceptedConfig raw) (some-eq h8) (record {
      schema_version = version_sound raw.schema_version version;
      enabled = on;
      environment = same_e;
      secrets = same_s;
      few = (few_e, few_s);
      named = (named_e, named_s);
      disjoint = overlap_disjoint environment secrets (not-true _ apart);
      port = port_sound raw.port hp;
      rooted = rooted;
      no_parent = λ a b e.
          false≢true (sym safe ∙ ap (contains (text "..")) e ∙ contains-append (text "..") a b);
      memory = validate_resources_sound raw.resources hr;
    })
