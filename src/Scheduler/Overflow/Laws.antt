-- ===== src/Scheduler/Overflow/Laws.antt =====
-- What a binding holds when resourceOverflow finds room: cores and memory.
use naglfar.Prelude.{
  ℕ, true, false, [], some, ok, >>=-eq-ok, length, ltb, ◌≡◌, refl, ap, ◌∙◌, arith, Bool-cases, inl,
  inr,
}
use naglfar.Prelude.Int.{ℤ, pos, pos_part, ltℤ}
use naglfar.Machine.{AvailableResource}
use naglfar.Machine.Cores.{contains, pick_cpu_set}
use naglfar.Machine.Cores.Laws.{contains-pick_cpu_set, length-pick_cpu_set}
use naglfar.Relationship.{ResourceBinding}
use naglfar.Resource.{TestResourceSpec}
use naglfar.Scheduler.Overflow.{
  bind_disks, memory_or_cores_overflow, overflows, fit, resource_overflow,
}
use naglfar.Util.Bytes.{Units, unwrap}

module _ (units : Units) where
  -- What a binding must be for a resource, on what is left of a machine.
  pub record Fits (rest : AvailableResource) (spec : TestResourceSpec) (binding : ResourceBinding)
      : Type 0 where
    pub memory_asked : binding.memory ≡ spec.memory
    pub enough_cores : length binding.cpu_set ≡ pos_part spec.cores
    pub idle_cores :
        (x : ℕ) → contains x binding.cpu_set ≡ true → contains x rest.idle_cpu_set ≡ true
    pub enough_memory :
        (left : ℤ) × (wanted : ℤ) × (unwrap units rest.memory ≡ ok left)
        × (unwrap units spec.memory ≡ ok wanted)
        × (ltℤ left wanted ≡ false)
    pub every_disk : ltb (length binding.disks) (length spec.disks) ≡ false

  abbrev HasRoom : AvailableResource → TestResourceSpec → ResourceBinding → Type 0
  HasRoom rest spec binding =
      (left : ℤ) × (wanted : ℤ) × (unwrap units rest.memory ≡ ok left)
      × (unwrap units spec.memory ≡ ok wanted)
      × (ltℤ left wanted ≡ false)
      × (ltℤ (pos (length binding.cpu_set)) spec.cores ≡ false)

  memory_or_cores-HasRoom :
      (rest : AvailableResource) (spec : TestResourceSpec) (binding : ResourceBinding)
      → memory_or_cores_overflow units rest spec binding ≡ ok false
      → HasRoom rest spec binding
  unfolding memory_or_cores_overflow
  memory_or_cores-HasRoom rest spec binding h =
      let (left, e, h1) = >>=-eq-ok (unwrap units rest.memory) _ h in
      let (wanted, f, h2) = >>=-eq-ok (unwrap units spec.memory) _ h1 in
      (left, wanted, e, f, ground arith, ground arith)

  overflows-HasRoom :
      (rest : AvailableResource) (spec : TestResourceSpec) (binding : ResourceBinding)
      → overflows units rest spec binding ≡ ok false
      → (ltb (length binding.disks) (length spec.disks) ≡ false) × HasRoom rest spec binding
  unfolding overflows
  overflows-HasRoom rest spec binding h =
      elim (Bool-cases (ltb (length binding.disks) (length spec.disks))) [
        | inl short ↦ absurd (ground arith)
        | inr enough ↦ (enough, memory_or_cores-HasRoom rest spec binding (ground arith))
      ]

  fit-Fits :
      (rest : AvailableResource) (spec : TestResourceSpec) (binding : ResourceBinding)
      → fit units rest spec ≡ ok (some binding)
      → Fits rest spec binding
  unfolding fit
  fit-Fits rest spec binding h =
      let (disks, bound, h1) = >>=-eq-ok (bind_disks units spec.disks rest.disks []) _ h in
      let made : ResourceBinding = record {
        memory = spec.memory;
        cpu_set = pick_cpu_set rest.idle_cpu_set spec.cores;
        disks = disks;
      } in
      let (overflow, e, h2) = >>=-eq-ok (overflows units rest spec made) _ h1 in
      let no_overflow : overflow ≡ false = ground arith in
      let same : made ≡ binding = ground arith in
      let (every, room) = overflows-HasRoom rest spec made (e ∙ ap ok no_overflow) in
      let (left, wanted, l, w, memory, cores) = room in
      rw (← same) (record {
        memory_asked = refl;
        enough_cores = length-pick_cpu_set rest.idle_cpu_set spec.cores cores;
        idle_cores = λ x. contains-pick_cpu_set x rest.idle_cpu_set spec.cores;
        enough_memory = (left, wanted, l, w, memory);
        every_disk = every;
      })

  pub resource_overflow-Fits :
      (rest : AvailableResource) (spec : TestResourceSpec) (binding : ResourceBinding)
      → resource_overflow units (some rest) spec ≡ ok (some binding)
      → Fits rest spec binding
  unfolding resource_overflow
  resource_overflow-Fits rest spec binding h = fit-Fits rest spec binding h
