-- ===== src/Control/Resource/Cleaning.antt =====
-- finalize and what it calls: the container goes, and a second container cleans the disks.
use naglfar.Prelude.{
  Bool, true, false, Option, none, some, Str, [], Outcome, ok, err, panic, unfinished, not_found,
  lookup, if◌then◌else◌,
}
use naglfar.Container.{Container, Config, HostConfig, time_is_zero}
use naglfar.Control.Calls.{Prog, NamespacedName, get_machine, inspect, remove, create, start, wait}
use naglfar.Control.Docker.{make_client, pull_image_by_policy}
use naglfar.Control.Effects.{◌>>=◌, ◌>>◌, pure, lift, try}
use naglfar.Control.Relationship.{get_relationship}
use naglfar.Machine.{Machine}
use naglfar.Ref.{Ref, create_ref, key}
use naglfar.Relationship.{ResourceBinding, MachineRef, entries, no_binding}
use naglfar.Resource.{TestResource, container_name, container_cleaner_name}
use naglfar.Resource.Configs.{container_config, container_cleaner_config}
use naglfar.Util.Bytes.{Units}

abbrev pub resource_key : TestResource → Str
resource_key resource = key (create_ref resource.meta)

-- machineRef.Namespaced()
abbrev pub namespaced : Ref → NamespacedName
namespaced r = record { namespace = r.namespace; name = r.name }

-- A missing entry reads as the zero value.
unfoldable pub binding_of : Option MachineRef → ResourceBinding
binding_of none = no_binding
binding_of (some machine) = machine.binding

unfoldable pub host_of : Option MachineRef → NamespacedName
host_of none = record { namespace = []; name = [] }
host_of (some machine) = namespaced machine.ref

unfoldable pub get_resource_binding : TestResource → Prog ResourceBinding
unfolding binding_of
get_resource_binding resource = do
  relation ← get_relationship
  pure (binding_of (lookup (resource_key resource) (entries relation.resource_to_machine)))

unfoldable pub get_host_machine : TestResource → Prog Machine
unfolding host_of
get_host_machine resource = do
  relation ← get_relationship
  get_machine (host_of (lookup (resource_key resource) (entries relation.resource_to_machine)))

-- The image is pulled and the container created.
unfoldable pub create_from : TestResource → Str → Config × HostConfig → Prog (Unit {0})
create_from resource name cfg = do
  pull_image_by_policy cfg.0.image resource.status.container.image_pull_policy
  create name cfg

module _ (units : Units) where
  unfoldable pub create_container : TestResource → Prog (Unit {0})
  unfolding create_from
  create_container resource = do
    binding ← get_resource_binding resource
    cfg ← lift (container_config units resource binding)
    create_from resource (container_name resource) cfg

unfoldable pub create_cleaner : TestResource → Prog (Unit {0})
unfolding create_from
create_cleaner resource = do
  binding ← get_resource_binding resource
  create_from resource (container_cleaner_name resource) (container_cleaner_config binding)

unfoldable pub remove_found : TestResource → Outcome Container → Prog (Unit {0})
remove_found resource (ok stat) = remove (container_name resource)
remove_found resource (err not_found) = pure tt
remove_found resource (err e) = lift (err e)
remove_found resource panic = lift panic
remove_found resource unfinished = lift unfinished

unfoldable pub remove_container : TestResource → Prog (Unit {0})
unfolding remove_found
remove_container resource = do
  found ← try (inspect (container_name resource))
  remove_found resource found

-- The cleaner is created, started, and waited for, one step a visit; `true` asks for another visit.
-- Its exit code is only reported.
unfoldable pub clean_found : TestResource → Outcome Container → Prog Bool
clean_found resource (ok stats) =
    if time_is_zero stats.started_at
    then (start (container_cleaner_name resource) >> pure true)
    else (wait (container_cleaner_name resource) >>= λ code.
        remove (container_cleaner_name resource) >> pure false)
clean_found resource (err not_found) = create_cleaner resource >> pure true
clean_found resource (err e) = lift (err e)
clean_found resource panic = lift panic
clean_found resource unfinished = lift unfinished

-- An error that client.IgnoreNotFound drops ends the function without the cleaning.
unfoldable pub after_removal : TestResource → Outcome (Unit {0}) → Prog Bool
unfolding clean_found
after_removal resource (ok _) = do
  found ← try (inspect (container_cleaner_name resource))
  clean_found resource found
after_removal resource (err not_found) = pure false
after_removal resource (err e) = lift (err e)
after_removal resource panic = lift panic
after_removal resource unfinished = lift unfinished

unfoldable pub finalize : TestResource → Machine → Prog Bool
unfolding remove_container after_removal
finalize resource machine = do
  make_client machine
  gone ← try (remove_container resource)
  after_removal resource gone
