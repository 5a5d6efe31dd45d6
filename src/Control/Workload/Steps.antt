-- ===== src/Control/Workload/Steps.antt =====
-- What the workload controller writes, whatever the replies are.
use naglfar.Prelude.{true, false, [], some, ◌≡◌, ◌⊎◌, none, some}
use naglfar.Control.Calls.{
  Event, read_resource, read_request, list_resources, read_topology, read_workload, write_workload,
  write_workload_status, write_resource_status,
}
use naglfar.Ref.{create_ref}
use naglfar.Resource.{TestResource, ResourceState, could_uninstall}
use naglfar.Workload.{TestWorkload, TestWorkloadState}

-- The life of a workload.
pub data IsStep : TestWorkloadState → TestWorkloadState → Type 0 where
  submits : IsStep TestWorkloadState.unset TestWorkloadState.pending
  installs : IsStep TestWorkloadState.pending TestWorkloadState.running
  continues : IsStep TestWorkloadState.running TestWorkloadState.running
  succeeds : IsStep TestWorkloadState.running TestWorkloadState.succeeded
  fails : IsStep TestWorkloadState.running TestWorkloadState.failed

-- The specification and the name stay.
unfoldable pub Keeps : TestWorkload → TestWorkload → Type 0
Keeps w w' = (w'.spec ≡ w.spec) × (create_ref w'.meta ≡ create_ref w.meta)

-- A node that nobody else had claimed and that had no image is claimed.
pub record Takes (w : TestWorkload) (node written : TestResource) : Type 0 where
  pub lives : w.meta.deleting ≡ false
  pub fresh : node.status.state ≡ ResourceState.uninitialized
  pub bare : node.status.container.image ≡ []
  pub free : (node.status.claim_ref ≡ none) ⊎ (node.status.claim_ref ≡ some (create_ref w.meta))
  pub claimed : written.status.claim_ref ≡ some (create_ref w.meta)
  pub same_state : written.status.state ≡ ResourceState.uninitialized
  pub same_meta : written.meta ≡ node.meta
  pub same_spec : written.spec ≡ node.spec

-- A node is given back by a workload that is being deleted.
pub record Releases (w : TestWorkload) (node written : TestResource) : Type 0 where
  pub dies : w.meta.deleting ≡ true
  pub can : could_uninstall node.status.state ≡ true
  pub destroyed : written.status.state ≡ ResourceState.destroy
  pub unclaimed : written.status.claim_ref ≡ none
  pub same_meta : written.meta ≡ node.meta
  pub same_spec : written.spec ≡ node.spec

unfoldable pub Obeys : TestWorkload → Event → Type 0
Obeys w (read_resource name) = Unit
Obeys w (read_request name) = Unit
Obeys w (read_topology name) = Unit
Obeys w (read_workload name) = Unit
Obeys w (list_resources namespace) = Unit
Obeys w (write_workload_status w') = Keeps w w' × IsStep w.status.state w'.status.state
Obeys w (write_workload w') = Keeps w w' × (w'.status ≡ w.status)
Obeys w (write_resource_status written) =
    (node : TestResource) × (Takes w node written ⊎ Releases w node written)
Obeys w _ = ⊥
