-- ===== src/Control/Machine/Shutdown.antt =====
-- The shutdown of a machine in controllers/machine_controller.go: when, and in which order.
use naglfar.Prelude.{
  Bool, List, [], ◌∷◌, none, Str, ok, str_eq_refl, lookup, ◌≡◌, ◌⊎◌, inl, inr, refl, arith,
}
use naglfar.Control.Calls.{Env, Log, Prog, write_machine, write_relationship, commit}
use naglfar.Control.Docker.{make_client}
use naglfar.Control.Effects.{Result, ◌>>=◌, done, pure, lift}
use naglfar.Control.Effects.Inversion.{bind-eq-ok}
use naglfar.Control.Machine.{
  machine_key, machine_finalizer, unlock, delete_upload_daemon, write_finalizers, forget, release,
  shutdown_as, shutdown_with, reconcile_shutdown,
}
use naglfar.Control.Relationship.{get_relationship}
use naglfar.Machine.{Machine}
use naglfar.Relationship.{RelationshipStatus, ResourceRefList, resources_of, entries, discard}
use naglfar.Relationship.Lookups.{lookup-discard}
use naglfar.Util.{strings_remove}

module _ (machine : Machine) where
  abbrev without_machine : RelationshipStatus → RelationshipStatus
  without_machine relation = record relation {
    machine_to_resources = discard (machine_key machine) relation.machine_to_resources;
  }

  -- The end of a run that let the machine go.
  pub record LetGo (relation : RelationshipStatus) (last : Log) : Type 0 where
    pub finalizers : List Str
    pub rest : Log
    pub nothing_bound : resources_of relation (machine_key machine) ≡ []
    pub removed : strings_remove machine.meta.finalizers machine_finalizer ≡ ok finalizers
    pub written :
        last
        ≡ write_machine (record machine { meta = record machine.meta { finalizers = finalizers } })
          ∷ write_relationship (without_machine relation)
          ∷ rest
    pub forgotten :
        lookup (machine_key machine) (entries (without_machine relation).machine_to_resources)
        ≡ none

  -- The end of a run that has to wait: after the relationship was read there is no call at all.
  abbrev pub Waits : RelationshipStatus → Result → Log → Log → Type 0
  Waits relation r read last =
      (resources_of relation (machine_key machine) ≡ [] → ⊥)
      × (r ≡ record { requeue = Bool.true; requeue_after = 10 })
      × (last ≡ read)

  forget-LetGo :
      (relation : RelationshipStatus) (env : Env) (log : Log) (r : Result) (last : Log)
      → resources_of relation (machine_key machine) ≡ []
      → forget machine relation env log ≡ (ok r, last)
      → LetGo relation last
  unfolding forget
  forget-LetGo relation env log r last none_bound h =
      let removal = strings_remove machine.meta.finalizers machine_finalizer in
      let then_write : Unit {0} → Prog Result = λ _. lift removal >>= write_finalizers machine in
      let (_, mid, e1, h1) =
        bind-eq-ok (commit (write_relationship (without_machine relation))) then_write env log r
          last h in
      let (finalizers, mid2, e2, h2) =
        bind-eq-ok (lift removal) (write_finalizers machine) env mid r last h1 in
      let kept : Machine = record machine {
        meta = record machine.meta { finalizers = finalizers };
      } in
      let (_, mid3, e3, h3) =
        bind-eq-ok (commit (write_machine kept)) (λ _. pure done) env mid2 r last h2 in
      record {
        finalizers = finalizers;
        rest = log;
        nothing_bound = none_bound;
        removed = ground arith;
        written = ground arith;
        forgotten =
            rw
              (lookup-discard (machine_key machine) (machine_key machine)
                relation.machine_to_resources)
              (rw (str_eq_refl (machine_key machine)) refl);
      }

  release-LetGo :
      (relation : RelationshipStatus) (env : Env) (log : Log) (r : Result) (last : Log)
      → resources_of relation (machine_key machine) ≡ []
      → release machine relation env log ≡ (ok r, last)
      → LetGo relation last
  unfolding release
  release-LetGo relation env log r last none_bound h =
      let last_part : Unit {0} → Prog Result = λ _. forget machine relation in
      let upload_part : Unit {0} → Prog Result = λ _. delete_upload_daemon >>= last_part in
      let unlock_part : Unit {0} → Prog Result = λ _. unlock machine >>= upload_part in
      let (_, m1, e1, h1) = bind-eq-ok (make_client machine) unlock_part env log r last h in
      let (_, m2, e2, h2) = bind-eq-ok (unlock machine) upload_part env m1 r last h1 in
      let (_, m3, e3, h3) = bind-eq-ok delete_upload_daemon last_part env m2 r last h2 in
      forget-LetGo relation env m3 r last none_bound h3

  shutdown_as-cases :
      (relation : RelationshipStatus) (resources : ResourceRefList) (env : Env) (log : Log)
      (r : Result) (last : Log)
      → resources_of relation (machine_key machine) ≡ resources
      → shutdown_as machine relation resources env log ≡ (ok r, last)
      → Waits relation r log last ⊎ LetGo relation last
  unfolding shutdown_as
  shutdown_as-cases relation [] env log r last e h = inr (release-LetGo relation env log r last e h)
  shutdown_as-cases relation (refer ∷ resources) env log r last e h =
      inl (λ empty. ground arith, ground arith, ground arith)

  -- Shutting a machine down succeeds in two ways, whatever the API and Docker reply. If a resource is
  -- bound to the machine, the run ends after the relationship was read, for another try in ten
  -- seconds. If none is, the last two calls are the write of a relationship without the machine, and
  -- then the write of the machine without its finalizer.
  pub reconcile_shutdown-cases :
      (env : Env) (log : Log) (r : Result) (last : Log)
      → reconcile_shutdown machine env log ≡ (ok r, last)
      → (relation : RelationshipStatus) × (read : Log) × (get_relationship env log
          ≡ (ok relation, read))
        × (Waits relation r read last ⊎ LetGo relation last)
  unfolding reconcile_shutdown shutdown_with
  reconcile_shutdown-cases env log r last h =
      let (relation, read, e, h1) =
        bind-eq-ok get_relationship (shutdown_with machine) env log r last h in
      (relation, read, e, shutdown_as-cases relation _ env read r last refl h1)
