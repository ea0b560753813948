-- ===== src/Charm/Environment/Proxies.antt =====
-- The proxies in the environment that the charm writes: they are no setting of the controller.
use demos_rework.Base.{
  ◌≡◌, refl, ◌∙◌, false, none, List, [], ◌∷◌, ◌++◌, Option-cases, Bool-cases, inl, inr,
}
use demos_rework.Base.Text.{Text, text, text_eq}
use demos_rework.Models.Config.{Dict, lookup}
use demos_rework.Charm.Environment.{proxy_entry, no_proxy_entry, proxy_entries}

lookup-append : (k : Text) (d e : Dict) → lookup k d ≡ none → lookup k (d ++ e) ≡ lookup k e
unfolding lookup
lookup-append k [] e h = refl
lookup-append k ((j, v) ∷ d) e h = elim (Bool-cases (text_eq j k)) [
  | inl same ↦ cc (rw (same, lookup) at h)
  | inr other ↦ rw other (lookup-append k d e (rw (other, lookup) at h))
]

proxy_entry_other :
    (environ : Dict) (juju_name name k : Text)
    → text_eq name k ≡ false
    → lookup k (proxy_entry environ juju_name name) ≡ none
unfolding lookup
proxy_entry_other environ juju_name name k other = elim (Option-cases (lookup juju_name environ)) [
  | inl e ↦ rw (e, lookup) refl
  | inr ([], e) ↦ rw (e, lookup) refl
  | inr (c ∷ v, e) ↦ rw (e, other, lookup) refl
]

no_proxy_entry_other :
    (items : List Text) (k : Text)
    → text_eq (text "NO_PROXY") k ≡ false
    → lookup k (no_proxy_entry items) ≡ none
unfolding lookup
no_proxy_entry_other [] k other = refl
no_proxy_entry_other (t ∷ items) k other = rw other refl

pub no_timeout : (environ : Dict) → lookup (text "PROXY_TIMEOUT") (proxy_entries environ) ≡ none
unfolding proxy_entries text_eq text
no_timeout environ =
    let timeout = text "PROXY_TIMEOUT" in
    lookup-append timeout _ _ (
      proxy_entry_other environ (text "JUJU_CHARM_HTTP_PROXY") (text "HTTP_PROXY") timeout
        is_other_1)
    ∙ (lookup-append timeout _ _ (
          proxy_entry_other environ (text "JUJU_CHARM_HTTPS_PROXY") (text "HTTPS_PROXY") timeout
            is_other_2)
        ∙ no_proxy_entry_other _ timeout is_other_3)
  where
    is_other_1 : text_eq (text "HTTP_PROXY") (text "PROXY_TIMEOUT") ≡ false
    is_other_1 = refl

    is_other_2 : text_eq (text "HTTPS_PROXY") (text "PROXY_TIMEOUT") ≡ false
    is_other_2 = refl

    is_other_3 : text_eq (text "NO_PROXY") (text "PROXY_TIMEOUT") ≡ false
    is_other_3 = refl
