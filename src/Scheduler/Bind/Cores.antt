-- ===== src/Scheduler/Bind/Cores.antt =====
-- tryBindResource and the cores of a machine: which resource has which.
use naglfar.Prelude.{
  ℕ, ◌+◌, ◌≤◌, true, false, List, [], ◌∷◌, ◌++◌, Option, some, Map, ok, ◌≡◌, refl, arith,
  if◌then◌else◌,
}
use naglfar.Machine.{Machine, AvailableResource}
use naglfar.Machine.Cores.{contains}
use naglfar.Machine.Rest.{rest}
use naglfar.Machine.Rest.Idle.{uses_core, rest-LeftBy}
use naglfar.Ref.{create_ref}
use naglfar.Relationship.{ResourceRef, ResourceRefList, ResourceBinding}
use naglfar.Resource.{TestResource}
use naglfar.Scheduler.Bind.{bind_items}
use naglfar.Scheduler.Bind.Steps.{bind_items-keeps}
use naglfar.Scheduler.Overflow.Laws.{resource_overflow-Fits}
use naglfar.Util.Bytes.{Units}

-- How many of the resources have the core.
unfoldable pub owners : ℕ → ResourceRefList → ℕ
owners x [] = 0
owners x (refer ∷ resources) =
    (if contains x refer.binding.cpu_set then 1 else 0) + owners x resources

abbrev pub IsExclusive : ResourceRefList → Type 0
IsExclusive resources = (x : ℕ) → owners x resources ≤ 1

owners-append : (x : ℕ) (xs ys : ResourceRefList) → owners x (xs ++ ys) ≡ owners x xs + owners x ys
unfolding owners
owners-append x [] ys = omega arith
owners-append x (refer ∷ xs) ys = omega (arith, owners-append x xs ys)

owners_unused :
    (x : ℕ) (resources : ResourceRefList) → uses_core x resources ≡ false → owners x resources ≡ 0
unfolding owners uses_core
owners_unused x [] h = refl
owners_unused x (refer ∷ resources) h = ground (arith, owners_unused x resources)

module _ (units : Units) (machine : Machine) where
  -- One more resource, with a binding that fits what is left.
  bind-IsExclusive :
      (allocated : ResourceRefList) (left : AvailableResource) (refer : ResourceRef)
      → rest units machine allocated ≡ ok (some left)
      → ((x : ℕ) → contains x refer.binding.cpu_set ≡ true → contains x left.idle_cpu_set ≡ true)
      → IsExclusive allocated
      → IsExclusive (allocated ++ (refer ∷ []))
  unfolding owners
  bind-IsExclusive allocated left refer e idle h x =
      let (a, offered, by) = rest-LeftBy units x [] machine allocated left e in
      let (cores, devices) = by in
      ground (arith, h x, idle x, owners-append x allocated (refer ∷ []), owners_unused x allocated)

  pub bind_items-IsExclusive :
      (items : List (Option TestResource)) (allocated : ResourceRefList)
      (bindings : Map ResourceBinding) (result : ResourceRefList × Map ResourceBinding)
      → bind_items units machine items allocated bindings ≡ ok (some result)
      → IsExclusive allocated
      → IsExclusive result.0
  bind_items-IsExclusive =
      bind_items-keeps units machine IsExclusive (λ allocated item binding placed.
        bind-IsExclusive allocated placed.left
          (record { ref = create_ref item.meta; binding = binding }) placed.left_eq
          (resource_overflow-Fits units placed.left item.spec binding placed.fitted).idle_cores)
