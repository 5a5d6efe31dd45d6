-- ===== src/Scheduler/Bind/Steps.antt =====
-- Induction over the two loops of tryBindResource.
use naglfar.Prelude.{
  List, [], ◌∷◌, ◌++◌, Option, none, some, Map, ok, >>=-eq-ok, insert, ◌≡◌, inl, inr, refl, ap,
  subst, ◌∙◌, arith, Option-cases,
}
use naglfar.Machine.{Machine, AvailableResource}
use naglfar.Machine.Rest.{rest}
use naglfar.Ref.{create_ref}
use naglfar.Relationship.{ResourceRefList, ResourceBinding}
use naglfar.Resource.{TestResource}
use naglfar.Scheduler.Bind.{bind_items}
use naglfar.Scheduler.Overflow.{resource_overflow}
use naglfar.Util.Bytes.{Units}

module _ (units : Units) (machine : Machine) where
  -- One item that was placed: what was left, and the binding.
  pub record Placed (item : TestResource) (allocated : ResourceRefList) (binding : ResourceBinding)
      : Type 0 where
    pub left : AvailableResource
    pub left_eq : rest units machine allocated ≡ ok (some left)
    pub fitted : resource_overflow units (some left) item.spec ≡ ok (some binding)

  Placed-of :
      (item : TestResource) (allocated : ResourceRefList) (binding : ResourceBinding)
      (left : Option AvailableResource)
      → rest units machine allocated ≡ ok left
      → resource_overflow units left item.spec ≡ ok (some binding)
      → Placed item allocated binding
  unfolding resource_overflow
  Placed-of item allocated binding none e h = absurd (cc)
  Placed-of item allocated binding (some left) e h = record { left = left; left_eq = e; fitted = h }

  abbrev more : ResourceRefList → TestResource → ResourceBinding → ResourceRefList
  more allocated item binding =
      allocated ++ (record { ref = create_ref item.meta; binding = binding } ∷ [])

  -- A placed group splits into its first item and the rest.
  pub bind_items-cons :
      (pointer : Option TestResource) (items : List (Option TestResource))
      (allocated : ResourceRefList) (bindings : Map ResourceBinding)
      (result : ResourceRefList × Map ResourceBinding)
      → bind_items units machine (pointer ∷ items) allocated bindings ≡ ok (some result)
      → (item : TestResource) × (binding : ResourceBinding) × (pointer ≡ some item)
        × Placed item allocated binding
        × (bind_items units machine items
              (more allocated item binding)
              (insert item.meta.name binding bindings)
            ≡ ok (some result))
  unfolding bind_items
  bind_items-cons none items allocated bindings result h =
      let (left, e, h1) = >>=-eq-ok (rest units machine allocated) _ h in absurd (cc)
  bind_items-cons (some item) items allocated bindings result h =
      let (left, e, h1) = >>=-eq-ok (rest units machine allocated) _ h in
      let (fitted, f, h2) = >>=-eq-ok (resource_overflow units left item.spec) _ h1 in
      elim (Option-cases fitted) [
        | inl none_fits ↦ absurd (ground arith)
        | inr (binding, g) ↦ (
          item,
          binding,
          refl,
          Placed-of item allocated binding left e (f ∙ ap ok g),
          ground arith,
        )
      ]

  -- What every placed item keeps, the whole group keeps.
  pub bind_items-keeps :
      (P : ResourceRefList → Type 0)
      → ((allocated : ResourceRefList) (item : TestResource) (binding : ResourceBinding)
          → Placed item allocated binding
          → P allocated
          → P (more allocated item binding))
      → (items : List (Option TestResource)) (allocated : ResourceRefList)
        (bindings : Map ResourceBinding) (result : ResourceRefList × Map ResourceBinding)
      → bind_items units machine items allocated bindings ≡ ok (some result)
      → P allocated
      → P result.0
  unfolding bind_items
  bind_items-keeps P step [] allocated bindings result h k =
      let same : allocated ≡ result.0 = ground arith in subst P same k
  bind_items-keeps P step (pointer ∷ items) allocated bindings result h k =
      let (item, binding, _, placed, rest) =
        bind_items-cons pointer items allocated bindings result h in
      bind_items-keeps P step items _ _ result rest (step allocated item binding placed k)
