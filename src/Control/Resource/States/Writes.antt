-- ===== src/Control/Resource/States/Writes.antt =====
-- Which statuses the states of a resource write.
use naglfar.Prelude.{
  Bool, true, false, [], ◌∷◌, Option, none, some, Str, Outcome, ok, err, panic, unfinished,
  not_found, >>=-eq-ok, lookup, ◌≡◌, ◌⊎◌, inl, inr, refl, subst, sym, arith, Bool-cases,
}
use naglfar.Container.{Container, time_is_zero}
use naglfar.Control.Calls.{
  Event, NamespacedName, read_relationship, read_machine, write_resource_status,
}
use naglfar.Control.Docker.Quiet.{AllowsDocker, make_client-Emits}
use naglfar.Control.Effects.{Result}
use naglfar.Control.Effects.Emits.{Emits, emits_rules, Emits-if}
use naglfar.Control.Resource.Quiet.{
  relationship-Emits, get_host_machine-Emits, create_container-Emits, finalize-Emits,
}
use naglfar.Control.Resource.States.{
  host_ip_of, request_resource, update_status, with_state, with_phase, placed_at,
  reconcile_state_pending, is_running_phase, settle, running, connect_and_start, look_at, visit,
  visit_image, start_phase, reconcile_state_uninitialized, is_ready, restarted, ready_as,
  ready_found, reconcile_state_ready, uninstalled, destroy_as, reconcile_state_destroy,
}
use naglfar.Control.Resource.Status.{cluster_network, finished, port_bindings, connected}
use naglfar.Relationship.{MachineRef}
use naglfar.Resource.{TestResource, ResourceState, ResourcePhase}
use naglfar.Util.Bytes.{Units}

-- The life of a resource. Nothing follows `finish` but what users ask for.
pub data Transition : ResourceState → ResourceState → Type 0 where
  first : Transition ResourceState.unset ResourceState.pending
  placed : Transition ResourceState.pending ResourceState.uninitialized
  waits : Transition ResourceState.uninitialized ResourceState.uninitialized
  runs : Transition ResourceState.uninitialized ResourceState.ready
  ends_at_once : Transition ResourceState.uninitialized ResourceState.finish
  lost : Transition ResourceState.ready ResourceState.uninitialized
  ends : Transition ResourceState.ready ResourceState.finish
  cleaned : Transition ResourceState.destroy ResourceState.uninitialized

abbrev pub IsStep : TestResource → TestResource → Type 0
IsStep resource written =
    Transition resource.status.state written.status.state
    × (written.meta ≡ resource.meta)
    × (written.spec ≡ resource.spec)

-- The metadata and the specification stay.
abbrev IsSame : TestResource → TestResource → Type 0
IsSame a b = (b.meta ≡ a.meta) × (b.spec ≡ a.spec)

finished-cases :
    (r : TestResource) (stats : Container)
    → IsSame r (finished r stats)
      × (((finished r stats).status.state ≡ r.status.state)
          ⊎ ((finished r stats).status.state ≡ ResourceState.finish))
unfolding finished
finished-cases r stats = elim (Bool-cases (time_is_zero stats.finished_at)) [
  | inl going ↦ rw going ((refl, refl), inl refl)
  | inr ended ↦ rw ended ((refl, refl), inr refl)
]

connected-IsSame :
    (r : TestResource) (stats : Container) (ip : Option Str) (r' : TestResource)
    → connected r stats ip ≡ ok r'
    → IsSame r r' × (r'.status.state ≡ ResourceState.ready)
unfolding connected
connected-IsSame r stats none r' h = absurd (cc)
connected-IsSame r stats (some ip) r' h =
    let (bindings, e, h1) = >>=-eq-ok (port_bindings stats.ports r.status.port_bindings) _ h in
    ((ground arith, ground arith), ground arith)

module _ (P : Event → Type 0) (a : AllowsDocker P) (reads : P read_relationship)
    (machines : (name : NamespacedName) → P (read_machine name)) (resource : TestResource)
    (writes : (written : TestResource)
      → IsStep resource written
      → P (write_resource_status written)) where
  open a use {inspects, starts, joins}

  update-Emits :
      (written : TestResource) → IsStep resource written → Emits P (update_status written)
  unfolding update_status
  update-Emits written step = let allowed = writes written step in search (emits_rules, allowed)

  -- From a state, under its name.
  step_to :
      (s : ResourceState) (written : TestResource)
      → resource.status.state ≡ s
      → Transition s written.status.state
      → IsSame resource written
      → Emits P (update_status written)
  step_to s written e t same =
      update-Emits written
        (subst (λ u. Transition u written.status.state) (sym e) t, same.0, same.1)

  host_ip_of-Emits : (o : Option MachineRef) → Emits P (host_ip_of o)
  unfolding host_ip_of
  host_ip_of-Emits none = search emits_rules
  host_ip_of-Emits (some machine) = search (emits_rules, machines)

  request-Emits : Emits P (request_resource resource)
  unfolding request_resource
  request-Emits = search (emits_rules, relationship-Emits P a reads machines, host_ip_of-Emits)

  placed_at-Emits :
      resource.status.state ≡ ResourceState.pending → (ip : Str) → Emits P (placed_at resource ip)
  unfolding placed_at
  placed_at-Emits e [] = search emits_rules
  placed_at-Emits e (c ∷ ip) = step_to ResourceState.pending _ e placed (refl, refl)

  pub pending-Emits :
      resource.status.state ≡ ResourceState.pending → Emits P (reconcile_state_pending resource)
  unfolding reconcile_state_pending
  pending-Emits e =
      let place : (ip : Str) → Emits P (placed_at resource ip) = placed_at-Emits e in
      search (emits_rules, request-Emits, place)

  finished-Emits :
      (r : TestResource) (stats : Container) (s : ResourceState)
      → resource.status.state ≡ s
      → IsSame resource r
      → Transition s r.status.state
      → Transition s ResourceState.finish
      → Emits P (update_status (finished r stats))
  finished-Emits r stats s e same t u =
      let (kept, state) = finished-cases r stats in
      let same' : IsSame resource (finished r stats) = (ground arith, ground arith) in
      elim state [
        | inl going ↦ step_to s (finished r stats) e (subst (Transition s) (sym going) t) same'
        | inr ended ↦ step_to s (finished r stats) e (subst (Transition s) (sym ended) u) same'
      ]

  settle-Emits :
      (stats : Container)
      → resource.status.state ≡ ResourceState.uninitialized
      → Emits P (settle stats resource)
  unfolding settle
  settle-Emits stats e =
      finished-Emits resource stats ResourceState.uninitialized e (refl, refl)
        (subst (Transition ResourceState.uninitialized) (sym e) waits) ends_at_once

  connected-Emits :
      (stats : Container) (ip : Option Str) (o : Outcome TestResource)
      → resource.status.state ≡ ResourceState.uninitialized
      → connected resource stats ip ≡ o
      → Emits P (naglfar.Control.Effects.◌>>=◌ (naglfar.Control.Effects.lift o) (settle stats))
  unfolding settle
  connected-Emits stats ip (ok r) e h =
      let (same, state) = connected-IsSame resource stats ip r h in
      let emitted =
        finished-Emits r stats ResourceState.uninitialized e same
          (subst (Transition ResourceState.uninitialized) (sym state) runs) ends_at_once in
      record { at = emitted.at }
  connected-Emits stats ip (err x) e h = record { at = λ env log k. k }
  connected-Emits stats ip panic e h = record { at = λ env log k. k }
  connected-Emits stats ip unfinished e h = record { at = λ env log k. k }

  with_phase-Emits :
      (phase : ResourcePhase)
      → resource.status.state ≡ ResourceState.uninitialized
      → Emits P (update_status (with_phase resource phase))
  unfolding with_phase
  with_phase-Emits phase e =
      step_to ResourceState.uninitialized _ e
        (subst (Transition ResourceState.uninitialized) (sym e) waits) (refl, refl)

  running-Emits :
      (stats : Container)
      → resource.status.state ≡ ResourceState.uninitialized
      → Emits P (running resource stats)
  unfolding running
  running-Emits stats e =
      Emits-if P (is_running_phase resource.status.phase) _ _
        (connected-Emits stats (lookup cluster_network stats.networks) _ e refl)
        (with_phase-Emits ResourcePhase.running e)

  connect_and_start-Emits : (o : Option Str) → Emits P (connect_and_start resource o)
  unfolding connect_and_start
  connect_and_start-Emits none = search (emits_rules, joins)
  connect_and_start-Emits (some ip) = search (emits_rules, starts)

  module _ (units : Units) (e : resource.status.state ≡ ResourceState.uninitialized) where
    look_at-Emits : (o : Outcome Container) → Emits P (look_at units resource o)
    unfolding look_at
    look_at-Emits (ok stats) =
        Emits-if P (time_is_zero stats.started_at) _ _ (connect_and_start-Emits _) (
          Emits-if P stats.restarting _ _ (search emits_rules) (
            Emits-if P stats.running (running resource stats) (settle stats resource)
              (running-Emits stats e) (settle-Emits stats e)))
    look_at-Emits (err not_found) = search (emits_rules, create_container-Emits P a reads machines)
    look_at-Emits (err x) = search emits_rules
    look_at-Emits panic = search emits_rules
    look_at-Emits unfinished = search emits_rules

    visit-Emits : Emits P (visit units resource)
    unfolding visit
    visit-Emits =
        search
          (
            emits_rules,
            get_host_machine-Emits P a reads machines,
            make_client-Emits P a,
            inspects,
            look_at-Emits,
          )
          depth 10

    visit_image-Emits : (image : Str) → Emits P (visit_image units image resource)
    unfolding visit_image
    visit_image-Emits [] = search emits_rules
    visit_image-Emits (c ∷ image) = visit-Emits

    start_phase-Emits : (phase : ResourcePhase) → Emits P (start_phase units phase resource)
    unfolding start_phase
    start_phase-Emits ResourcePhase.unset = with_phase-Emits ResourcePhase.pending e
    start_phase-Emits ResourcePhase.pending = visit_image-Emits _
    start_phase-Emits ResourcePhase.running = visit_image-Emits _
    start_phase-Emits ResourcePhase.failed = visit_image-Emits _
    start_phase-Emits ResourcePhase.succeeded = visit_image-Emits _

    pub uninitialized-Emits : Emits P (reconcile_state_uninitialized units resource)
    unfolding reconcile_state_uninitialized
    uninitialized-Emits = start_phase-Emits resource.status.phase

  ready_as-Emits :
      (r : TestResource)
      → resource.status.state ≡ ResourceState.ready
      → IsSame resource r
      → (r.status.state ≡ ResourceState.ready)
        ⊎ (r.status.state ≡ ResourceState.uninitialized)
        ⊎ (r.status.state ≡ ResourceState.finish)
      → Emits P (ready_as r)
  unfolding ready_as
  ready_as-Emits r e same (inl still) = rw (still, is_ready) (search emits_rules)
  ready_as-Emits r e same (inr (inl gone)) =
      Emits-if P (is_ready r.status.state) _ _ (search emits_rules) (
        step_to ResourceState.ready r e (subst (Transition ResourceState.ready) (sym gone) lost)
          same)
  ready_as-Emits r e same (inr (inr ended)) =
      Emits-if P (is_ready r.status.state) _ _ (search emits_rules) (
        step_to ResourceState.ready r e (subst (Transition ResourceState.ready) (sym ended) ends)
          same)

  ready_state :
      (stats : Container)
      → resource.status.state ≡ ResourceState.ready
      → (let r = finished (restarted resource stats) stats in
          IsSame resource r
          × ((r.status.state ≡ ResourceState.ready)
              ⊎ (r.status.state ≡ ResourceState.uninitialized)
              ⊎ (r.status.state ≡ ResourceState.finish)))
  unfolding restarted with_state finished
  ready_state stats e = ground arith

  module _ (e : resource.status.state ≡ ResourceState.ready) where
    ready_found-Emits : (o : Outcome Container) → Emits P (ready_found resource o)
    unfolding ready_found
    ready_found-Emits (ok stats) =
        let (same, state) = ready_state stats e in ready_as-Emits _ e same state
    ready_found-Emits (err not_found) =
        unfold with_state in step_to ResourceState.ready _ e lost (refl, refl)
    ready_found-Emits (err x) = search emits_rules
    ready_found-Emits panic = search emits_rules
    ready_found-Emits unfinished = search emits_rules

    pub ready-Emits : Emits P (reconcile_state_ready resource)
    unfolding reconcile_state_ready
    ready-Emits =
        search
          (
            emits_rules,
            get_host_machine-Emits P a reads machines,
            make_client-Emits P a,
            inspects,
            ready_found-Emits,
          )
          depth 10

  destroy_as-Emits :
      (requeue : Bool)
      → resource.status.state ≡ ResourceState.destroy
      → Emits P (destroy_as resource requeue)
  unfolding destroy_as uninstalled
  destroy_as-Emits true e = search emits_rules
  destroy_as-Emits false e = step_to ResourceState.destroy _ e cleaned (refl, refl)

  pub destroy-Emits :
      resource.status.state ≡ ResourceState.destroy → Emits P (reconcile_state_destroy resource)
  unfolding reconcile_state_destroy
  destroy-Emits e =
      let last : (requeue : Bool) → Emits P (destroy_as resource requeue) =
        λ requeue. destroy_as-Emits requeue e in
      search
        (
          emits_rules,
          get_host_machine-Emits P a reads machines,
          finalize-Emits P a reads machines,
          last,
        )
        depth 8
