-- ===== src/Control/Request/Machines.antt =====
-- The map that getMachines builds.
use naglfar.Prelude.{
  true, List, [], ◌∷◌, Str, str_eq, str_eq_iff, Map, insert, ◌≡◌, refl, All, Bool-cases, inl, inr,
}
use naglfar.Control.Request.{is_ready, ready_machines}
use naglfar.Machine.{Machine, MachineState}

abbrev pub IsReadyEntry : Str × Machine → Type 0
IsReadyEntry e = (e.0 ≡ e.1.meta.name) × (e.1.status.state ≡ MachineState.ready)

is_ready_eq : (s : MachineState) → is_ready s ≡ true → s ≡ MachineState.ready
unfolding is_ready
is_ready_eq MachineState.ready h = refl
is_ready_eq MachineState.unset h = absurd (cc)
is_ready_eq MachineState.shutdown h = absurd (cc)
is_ready_eq MachineState.starting h = absurd (cc)

insert-IsReadyEntry :
    (machine : Machine) (book : Map Machine)
    → machine.status.state ≡ MachineState.ready
    → All IsReadyEntry book
    → All IsReadyEntry (insert machine.meta.name machine book)
unfolding insert
insert-IsReadyEntry machine [] r h = ((refl, r), tt)
insert-IsReadyEntry machine ((name, m) ∷ book) r h =
    elim (Bool-cases (str_eq name machine.meta.name)) [
      | inl same ↦ rw same (((str_eq_iff name machine.meta.name).0 same, r), h.1)
      | inr differ ↦ rw differ (h.0, insert-IsReadyEntry machine book r h.1)
    ]

-- Each machine of the map is ready and stands under its own name, if that is so of the map that the
-- loop starts from.
pub ready_machines-IsReadyEntry :
    (items : List Machine) (book : Map Machine)
    → All IsReadyEntry book
    → All IsReadyEntry (ready_machines items book)
unfolding ready_machines
ready_machines-IsReadyEntry [] book h = h
ready_machines-IsReadyEntry (machine ∷ items) book h =
    elim (Bool-cases (is_ready machine.status.state)) [
      | inl ready ↦ rw ready (
          ready_machines-IsReadyEntry items (insert machine.meta.name machine book)
            (insert-IsReadyEntry machine book (is_ready_eq machine.status.state ready) h))
      | inr other ↦ rw other (ready_machines-IsReadyEntry items book h)
    ]
