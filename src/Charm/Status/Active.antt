-- ===== src/Charm/Status/Active.antt =====
-- When the charm reports that the unit is active.
use demos_rework.Base.{
  ℕ, ◌≡◌, ◌↔◌, refl, Bool, true, false, Option, none, some, List, arith, ◌==◌, Bool-cases, inl, inr,
}
use demos_rework.Base.Text.{text, text_eq}
use demos_rework.Store.Rows.{DemoRecord, failed}
use demos_rework.Reconciler.{Observation, unknown, fine, bad}
use demos_rework.Api.Status.{controller_status, count}
use demos_rework.Charm.Status.{
  UnitStatus, active, waiting, maintenance, blocked, find_key, workload_status, shown_report,
  shown_observation,
}

abbrev is_active : UnitStatus → Bool
is_active active = true
is_active _ = false

-- Another status, beside a code that is not 200.
unwell : (unit : UnitStatus) → is_active unit ≡ false → (unit ≡ active) ↔ (◌≡◌ {A = ℕ} 503 200)
unwell active h = absurd (cc h)
unwell (waiting t) h = (λ e. cc e, λ e. absurd (omega (arith, e)))
unwell (maintenance t) h = (λ e. cc e, λ e. absurd (omega (arith, e)))
unwell (blocked t) h = (λ e. cc e, λ e. absurd (omega (arith, e)))

abbrev database_down : UnitStatus
database_down = waiting (text "controller state database unavailable")

abbrev loop_stopped : UnitStatus
loop_stopped = maintenance (text "controller reconciliation loop stopped")

abbrev vault_down : UnitStatus
vault_down = waiting (text "Vault reconciliation degraded; see controller logs")

abbrev kubernetes_down : UnitStatus
kubernetes_down = waiting (text "Kubernetes reconciliation degraded; see controller logs")

abbrev demo_failed : UnitStatus
demo_failed = waiting (text "demo reconciliation degraded; see controller logs")

-- The charm reports an active unit exactly when the controller's diagnostics have the status 200.
pub workload_status-active :
    (running : Bool) (completed : Option ℕ) (vault kubernetes : Observation)
    (listed : Option (List DemoRecord))
    → let report = controller_status running completed vault kubernetes listed in
      (workload_status (some (shown_report report)) ≡ active) ↔ (report.code ≡ 200)
unfolding workload_status shown_report controller_status shown_observation find_key text_eq text
workload_status-active true completed vault kubernetes none = unwell database_down refl
workload_status-active false completed vault kubernetes none = unwell database_down refl
workload_status-active false completed vault kubernetes (some rs) = unwell loop_stopped refl
workload_status-active true completed (bad seen error) kubernetes (some rs) =
    elim (Bool-cases (count failed rs == 0)) [
      | inl good ↦ rw good (unwell vault_down refl)
      | inr bad_rows ↦ rw bad_rows (unwell vault_down refl)
    ]
workload_status-active true completed unknown (bad looked error) (some rs) =
    elim (Bool-cases (count failed rs == 0)) [
      | inl good ↦ rw good (unwell kubernetes_down refl)
      | inr bad_rows ↦ rw bad_rows (unwell kubernetes_down refl)
    ]
workload_status-active true completed (fine seen) (bad looked error) (some rs) =
    elim (Bool-cases (count failed rs == 0)) [
      | inl good ↦ rw good (unwell kubernetes_down refl)
      | inr bad_rows ↦ rw bad_rows (unwell kubernetes_down refl)
    ]
workload_status-active true completed unknown unknown (some rs) =
    elim (Bool-cases (count failed rs == 0)) [
      | inl good ↦ rw good (λ h. refl, λ h. refl)
      | inr bad_rows ↦ rw bad_rows (unwell demo_failed refl)
    ]
workload_status-active true completed unknown (fine looked) (some rs) =
    elim (Bool-cases (count failed rs == 0)) [
      | inl good ↦ rw good (λ h. refl, λ h. refl)
      | inr bad_rows ↦ rw bad_rows (unwell demo_failed refl)
    ]
workload_status-active true completed (fine seen) unknown (some rs) =
    elim (Bool-cases (count failed rs == 0)) [
      | inl good ↦ rw good (λ h. refl, λ h. refl)
      | inr bad_rows ↦ rw bad_rows (unwell demo_failed refl)
    ]
workload_status-active true completed (fine seen) (fine looked) (some rs) =
    elim (Bool-cases (count failed rs == 0)) [
      | inl good ↦ rw good (λ h. refl, λ h. refl)
      | inr bad_rows ↦ rw bad_rows (unwell demo_failed refl)
    ]
