-- ===== src/Store/Whole.antt =====
-- What each row of the table says, whichever method wrote it.
use demos_rework.Base.{
  inl, inr, ◌⊎◌, refl, false, ℕ, ◌≤◌, ◌≡◌, ◌≢◌, Option, none, arith, length, take, length-take,
}
use demos_rework.Base.Text.{text, Text}
use demos_rework.Models.{DeployRequest}
use demos_rework.Store.Rows.{DemoState, DemoRecord}
use demos_rework.Store.{new_deploy, redeploy, new_destroy, withdraw}
use demos_rework.Store.Fields.{with_state}

-- A row that is wanted says what to deploy, and its message is short enough to show.
pub record IsWhole (r : DemoRecord) : Type 0 where
  pub image : (r.desired_present ≡ false) ⊎ ((r.image ≢ none) × (r.commit_sha ≢ none))
  pub message : length r.message ≤ 1000

pub written-IsWhole :
    (now : ℕ) (request : DeployRequest) (hash : Text) (r : DemoRecord)
    → IsWhole (new_deploy now request hash) × IsWhole (redeploy now request hash r)
unfolding new_deploy redeploy text
written-IsWhole now request hash r = (
  record { image = inr (λ e. cc, λ e. cc); message = omega arith },
  record { image = inr (λ e. cc, λ e. cc); message = omega arith },
)

pub withdrawn-IsWhole :
    (now : ℕ) (repository : Text) (pr : ℕ) (delivery_id hash : Text) (r : DemoRecord)
    → IsWhole (new_destroy now repository pr delivery_id hash)
      × IsWhole (withdraw now delivery_id hash r)
unfolding new_destroy withdraw text
withdrawn-IsWhole now repository pr delivery_id hash r = (
  record { image = inl refl; message = omega arith },
  record { image = inl refl; message = omega arith },
)

length-take-le : (n : ℕ) (t : Text) → length (take n t) ≤ n
length-take-le n t = omega (arith, length-take n t)

pub with_state-IsWhole :
    (now : ℕ) (state : DemoState) (message : Text) (version port : Option ℕ) (r : DemoRecord)
    → IsWhole r
    → IsWhole (with_state now state message version port r)
unfolding with_state
with_state-IsWhole now state message version port r w = record {
  image = w.image;
  message = length-take-le 1000 message;
}
