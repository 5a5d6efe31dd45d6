-- ===== src/Control/Resource/Quiet.antt =====
-- The calls of the cleaning of a resource and of the creation of its containers.
use naglfar.Prelude.{Str, Outcome, ok, err, panic, unfinished, not_found}
use naglfar.Container.{Container, Config, HostConfig}
use naglfar.Control.Calls.{Event, NamespacedName, read_relationship, read_machine, create}
use naglfar.Control.Docker.{pull_image_by_policy}
use naglfar.Control.Docker.Quiet.{AllowsDocker, make_client-Emits, pull_image-Emits}
use naglfar.Control.Effects.Emits.{Emits, emits_rules, Emits-bind}
use naglfar.Control.Relationship.Quiet.{get_relationship-Emits}
use naglfar.Control.Resource.Cleaning.{
  get_host_machine, get_resource_binding, create_from, create_container, create_cleaner,
  remove_found, remove_container, clean_found, after_removal, finalize,
}
use naglfar.Machine.{Machine}
use naglfar.Resource.{TestResource}
use naglfar.Util.Bytes.{Units}

module _ (P : Event → Type 0) (a : AllowsDocker P) (reads : P read_relationship)
    (machines : (name : NamespacedName) → P (read_machine name)) where
  open a use {inspects, starts, waits, removes, creates}

  pub relationship-Emits : Emits P naglfar.Control.Relationship.get_relationship
  relationship-Emits = get_relationship-Emits P reads

  pub get_host_machine-Emits : (resource : TestResource) → Emits P (get_host_machine resource)
  unfolding get_host_machine
  get_host_machine-Emits resource = search (emits_rules, relationship-Emits, machines)

  binding-Emits : (resource : TestResource) → Emits P (get_resource_binding resource)
  unfolding get_resource_binding
  binding-Emits resource = search (emits_rules, relationship-Emits)

  create_from-Emits :
      (resource : TestResource) (name : Str) (cfg : Config × HostConfig)
      → Emits P (create_from resource name cfg)
  unfolding create_from
  create_from-Emits resource name cfg =
      Emits-bind P (pull_image_by_policy cfg.0.image resource.status.container.image_pull_policy)
        (λ _. create name cfg) (pull_image-Emits P a _ _) (λ _. search (emits_rules, creates))

  pub create_container-Emits :
      (units : Units) (resource : TestResource) → Emits P (create_container units resource)
  unfolding create_container
  create_container-Emits units resource = search (emits_rules, binding-Emits, create_from-Emits)

  create_cleaner-Emits : (resource : TestResource) → Emits P (create_cleaner resource)
  unfolding create_cleaner
  create_cleaner-Emits resource = search (emits_rules, binding-Emits, create_from-Emits)

  remove_found-Emits :
      (resource : TestResource) (o : Outcome Container) → Emits P (remove_found resource o)
  unfolding remove_found
  remove_found-Emits resource (ok stat) = search (emits_rules, removes)
  remove_found-Emits resource (err not_found) = search emits_rules
  remove_found-Emits resource (err e) = search emits_rules
  remove_found-Emits resource panic = search emits_rules
  remove_found-Emits resource unfinished = search emits_rules

  remove_container-Emits : (resource : TestResource) → Emits P (remove_container resource)
  unfolding remove_container
  remove_container-Emits resource = search (emits_rules, inspects, remove_found-Emits)

  clean_found-Emits :
      (resource : TestResource) (o : Outcome Container) → Emits P (clean_found resource o)
  unfolding clean_found
  clean_found-Emits resource (ok stat) = search (emits_rules, starts, waits, removes) depth 8
  clean_found-Emits resource (err not_found) = search (emits_rules, create_cleaner-Emits)
  clean_found-Emits resource (err e) = search emits_rules
  clean_found-Emits resource panic = search emits_rules
  clean_found-Emits resource unfinished = search emits_rules

  after_removal-Emits :
      (resource : TestResource) (o : Outcome (Unit {0})) → Emits P (after_removal resource o)
  unfolding after_removal
  after_removal-Emits resource (ok _) = search (emits_rules, inspects, clean_found-Emits)
  after_removal-Emits resource (err not_found) = search emits_rules
  after_removal-Emits resource (err e) = search emits_rules
  after_removal-Emits resource panic = search emits_rules
  after_removal-Emits resource unfinished = search emits_rules

  pub finalize-Emits :
      (resource : TestResource) (machine : Machine) → Emits P (finalize resource machine)
  unfolding finalize
  finalize-Emits resource machine =
      search (emits_rules, make_client-Emits P a, remove_container-Emits, after_removal-Emits) depth
        8
