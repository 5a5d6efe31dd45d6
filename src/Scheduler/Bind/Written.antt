-- ===== src/Scheduler/Bind/Written.antt =====
-- What tryBindResource returns: no machine, or a machine with the entries of the group.
use naglfar.Prelude.{
  List, [], ◌∷◌, Option, none, some, Map, ok, >>=-eq-ok, ok-injective, ◌≡◌, inl, inr, refl, ap,
  subst, ◌∙◌, arith, In, All, Option-cases,
}
use naglfar.Machine.{Machine}
use naglfar.Relationship.{
  RelationshipStatus, ResourceRefList, ResourceBinding, clone, resources_of, assign,
}
use naglfar.Relationship.Lookups.{clone_lem}
use naglfar.Resource.{TestResource}
use naglfar.Scheduler.Bind.{key_of, bind_items, record_items, record_group, try_bind_resource}
use naglfar.Util.Bytes.{Units}

module _ (units : Units) where
  -- A group that went to a machine: its lists, and the relationship with them.
  pub record Bound (rel : RelationshipStatus) (items : List (Option TestResource))
      (rel' : RelationshipStatus) (machine : Machine) : Type 0 where
    pub placed : ResourceRefList × Map ResourceBinding
    pub placed_eq :
        bind_items units machine items (resources_of rel (key_of machine.meta)) []
        ≡ ok (some placed)
    pub written :
        assign (key_of machine.meta) placed.0 rel.machine_to_resources
        ≡ ok rel'.machine_to_resources
    pub recorded :
        record_items machine placed.1 items rel.resource_to_machine ≡ ok rel'.resource_to_machine
    pub same_locks : rel'.machine_locks ≡ rel.machine_locks
    pub same_accepted : rel'.accepted_requests ≡ rel.accepted_requests

  -- The two results of `tryBindResource`: with no machine nothing is written and every candidate
  -- was refused; with a machine, that machine is one of the candidates and has taken the group.
  abbrev pub Answer :
      RelationshipStatus
      → List Machine
      → List (Option TestResource)
      → RelationshipStatus × Option Machine
      → Type 0
  Answer rel candidates items (rel', none) =
      (rel' ≡ rel)
      × All
          (λ machine.
            bind_items units machine items (resources_of rel (key_of machine.meta)) [] ≡ ok none)
          candidates
  Answer rel candidates items (rel', some machine) =
      In machine candidates × Bound rel items rel' machine

  group-Bound :
      (rel : RelationshipStatus) (items : List (Option TestResource)) (rel' : RelationshipStatus)
      (machine : Machine) (placed : ResourceRefList × Map ResourceBinding)
      → bind_items units machine items (resources_of rel (key_of machine.meta)) []
        ≡ ok (some placed)
      → record_group units machine items placed.0 placed.1 rel ≡ ok rel'
      → Bound rel items rel' machine
  unfolding record_group
  group-Bound rel items rel' machine placed e h =
      let (m, f, h1) =
        >>=-eq-ok (assign (key_of machine.meta) placed.0 rel.machine_to_resources) _ h in
      let (n, g, h2) =
        >>=-eq-ok (record_items machine placed.1 items rel.resource_to_machine) _ h1 in
      record {
        placed = placed;
        placed_eq = e;
        written = ground arith;
        recorded = ground arith;
        same_locks = ground arith;
        same_accepted = ground arith;
      }

  skip_machine :
      (rel : RelationshipStatus) (machine : Machine) (candidates : List Machine)
      (items : List (Option TestResource)) (answer : RelationshipStatus × Option Machine)
      → bind_items units machine items (resources_of rel (key_of machine.meta)) [] ≡ ok none
      → Answer rel candidates items answer
      → Answer rel (machine ∷ candidates) items answer
  skip_machine rel machine candidates items (rel', none) e (same, refused) = (same, (e, refused))
  skip_machine rel machine candidates items (rel', some m) e (there, bound) = (inr there, bound)

  pub try_bind_resource-Answer :
      (rel : RelationshipStatus) (candidates : List Machine) (items : List (Option TestResource))
      (answer : RelationshipStatus × Option Machine)
      → try_bind_resource units rel candidates items ≡ ok answer
      → Answer rel candidates items answer
  unfolding try_bind_resource
  try_bind_resource-Answer rel [] items (rel', none) h = (ground arith, tt)
  try_bind_resource-Answer rel [] items (rel', some m) h = absurd (ground arith)
  try_bind_resource-Answer rel (machine ∷ candidates) items answer h =
      let start = resources_of rel (key_of machine.meta) in
      let (placed, e, h1) = >>=-eq-ok (bind_items units machine items (clone start) []) _ h in
      let e' : bind_items units machine items start [] ≡ ok placed =
        subst (λ l. bind_items units machine items l [] ≡ ok placed) (clone_lem start) e in
      elim (Option-cases placed) [
        | inl refused ↦
            skip_machine rel machine candidates items answer (e' ∙ ap ok refused)
              (try_bind_resource-Answer rel candidates items answer (ground arith))
        | inr (p, took) ↦
            let (rel', w, h2) =
              >>=-eq-ok (record_group units machine items p.0 p.1 rel) (λ r. ok (r, some machine))
                (ground arith) in
            subst (Answer rel (machine ∷ candidates) items) (ok-injective h2)
              (inl refl, group-Bound rel items rel' machine p (e' ∙ ap ok took) w)
      ]
