-- ===== src/Api/Status.antt =====
-- src/demo_controller/api.py: controller_status and ready, the reports on the controller. What
-- `store.list_reconcilable()` gives is an argument: `none` if the database fails.
use demos_rework.Base.{
  ℕ, ◌+◌, ◌≡◌, ◌↔◌, refl, Bool, true, false, not, ◌||◌, Option, none, some, List, [], ◌∷◌, ◌==◌,
  arith, if◌then◌else◌, All,
}
use demos_rework.Base.Text.{Text, text}
use demos_rework.Base.Result.{Result, ok, raise, http}
use demos_rework.Store.Rows.{DemoState, pending, reconciling, ready, failed, deleting, DemoRecord}
use demos_rework.Reconciler.{Observation, bad}

abbrev pub same_state : DemoState → DemoState → Bool
same_state pending pending = true
same_state reconciling reconciling = true
same_state ready ready = true
same_state failed failed = true
same_state deleting deleting = true
same_state _ _ = false

-- counts[state]
unfoldable pub count : DemoState → List DemoRecord → ℕ
count state [] = 0
count state (r ∷ rs) = (if same_state r.state state then 1 else 0) + count state rs

abbrev pub is_error : Observation → Bool
is_error (bad now error) = true
is_error _ = false

abbrev pub rows_of : Option (List DemoRecord) → List DemoRecord
rows_of none = []
rows_of (some rs) = rs

abbrev pub is_readable : Option (List DemoRecord) → Bool
is_readable none = false
is_readable (some rs) = true

pub record Report : Type 0 where
  pub code : ℕ
  pub ok : Bool
  pub database_ok : Bool
  pub running : Bool
  pub last_completed_at : Option ℕ
  pub vault : Observation
  pub kubernetes : Observation
  pub demos : List (DemoState × ℕ)

-- controller_status; `running` says that the task of the reconciliation is there and not done
unfoldable pub controller_status :
    Bool → Option ℕ → Observation → Observation → Option (List DemoRecord) → Report
controller_status running completed vault kubernetes listed =
    let rows = rows_of listed in
    let degraded =
      not running
      || not (is_readable listed)
      || not (count failed rows == 0)
      || is_error vault
      || is_error kubernetes in
    record {
      code = if degraded then 503 else 200;
      ok = not degraded;
      database_ok = is_readable listed;
      running = running;
      last_completed_at = completed;
      vault = vault;
      kubernetes = kubernetes;
      demos =
          (pending, count pending rows)
          ∷ (reconciling, count reconciling rows)
          ∷ (ready, count ready rows)
          ∷ (failed, count failed rows)
          ∷ (deleting, count deleting rows)
          ∷ [];
    }

-- ready
unfoldable pub readiness : Option (List DemoRecord) → Result Text
readiness none = raise (http 503 (text "state database unavailable"))
readiness (some rs) = ok (text "ready")

no_failed :
    (rs : List DemoRecord) → (count failed rs ≡ 0) ↔ All (λ r. same_state r.state failed ≡ false) rs
unfolding count
no_failed [] = (λ h. tt, λ h. refl)
no_failed (r ∷ rs) = (λ h. ground (arith, no_failed rs), λ h. ground (arith, no_failed rs))

-- The status is 200 exactly when the reconciliation runs, the database can be read, no demo that it
-- lists is failed, and the last call of neither Vault nor Kubernetes went wrong.
pub controller_status_ok :
    (running : Bool) (completed : Option ℕ) (vault kubernetes : Observation)
    (listed : Option (List DemoRecord))
    → ((controller_status running completed vault kubernetes listed).code ≡ 200) ↔ (
        (running ≡ true)
        × (is_readable listed ≡ true)
        × All (λ r. same_state r.state failed ≡ false) (rows_of listed)
        × (is_error vault ≡ false)
        × (is_error kubernetes ≡ false))
unfolding controller_status
controller_status_ok running completed vault kubernetes listed = (
  λ h. ground (arith, no_failed (rows_of listed)),
  λ h. ground (arith, no_failed (rows_of listed)),
)
