-- ===== src/Request.antt =====
-- api/v1/testresourcerequest_types.go: requests for a group of resources.
use naglfar.Prelude.{ℕ, zero, suc, Bool, List, [], ◌∷◌, none, Str, Outcome, panic, ok, ◌>>=◌}
use naglfar.Ref.{ObjectMeta}
use naglfar.Resource.{
  TestResource, TestResourceSpec, TestResourceStatus, ResourceState, ResourcePhase, no_container,
}
use naglfar.Prelude.Int.{pos}

pub data RequestState : Type 0 where
  unset pending ready : RequestState

pub record ResourceRequestItem : Type 0 where
  pub name : Str
  pub spec : TestResourceSpec

pub record MachineRequest : Type 0 where
  pub name : Str
  pub test_machine_resource : Str
  pub exclusive : Bool

pub record TestResourceRequestSpec : Type 0 where
  pub machines : List MachineRequest
  pub items : List ResourceRequestItem

pub record TestResourceRequest : Type 0 where
  pub meta : ObjectMeta
  pub spec : TestResourceRequestSpec
  pub state : RequestState

-- r.Spec.Items[idx] panics out of range.
item_at : List ResourceRequestItem → ℕ → Outcome ResourceRequestItem
item_at [] idx = panic
item_at (item ∷ items) zero = ok item
item_at (item ∷ items) (suc idx) = item_at items idx

-- The zero value of a resource's status.
abbrev pub no_status : TestResourceStatus
no_status = record {
  state = ResourceState.unset;
  phase = ResourcePhase.unset;
  exit_code = pos 0;
  container = no_container;
  host_ip = [];
  host_name = [];
  password = [];
  ssh_port = pos 0;
  port_bindings = [];
  claim_ref = none;
}

unfoldable pub resource_of_item : TestResourceRequest → ResourceRequestItem → TestResource
resource_of_item r item = record {
  meta = record {
    namespace = r.meta.namespace;
    name = item.name;
    uid = [];
    finalizers = [];
    deleting = Bool.false;
    controller = none;
  };
  spec = item.spec;
  status = no_status;
}

unfoldable pub construct_test_resource : TestResourceRequest → ℕ → Outcome TestResource
unfolding item_at resource_of_item
construct_test_resource r idx = do item ← item_at r.spec.items idx; ok (resource_of_item r item)
