-- ===== src/Scheduler/Select/Members.antt =====
-- The machines that selecting, sorting and filtering keep: those of the input.
use naglfar.Prelude.{
  Bool, List, [], ◌∷◌, some, Str, str_eq, Map, lookup, ◌≡◌, refl, sym, subst, arith, In, All,
  Bool-cases, inl, inr,
}
use naglfar.Machine.{Machine}
use naglfar.Relationship.{RelationshipStatus}
use naglfar.Scheduler.Select.{
  Choices, values, less, insert_machine, sort_slice, sort_machines, filter_machines,
}

-- The documented part of rand.Shuffle that the lemmas need: it only moves elements.
abbrev pub MovesOnly : Choices → Type 0
MovesOnly choices =
    (machines : List Machine) (m : Machine) → In m (choices.shuffle machines) → In m machines

module _ (P : Machine → Type 0) where
  values-All : (machines : Map Machine) → All (λ e. P e.1) machines → All P (values machines)
  values-All [] h = tt
  values-All ((name, machine) ∷ machines) h = (h.0, values-All machines h.1)

  pub All-In :
      (machine : Machine) (machines : List Machine)
      → In machine machines
      → All P machines
      → P machine
  All-In machine [] i h = absurd i
  All-In machine (m ∷ machines) (inl e) h = subst P (sym e) h.0
  All-In machine (m ∷ machines) (inr i) h = All-In machine machines i h.1

  All-of-In : (machines : List Machine) → ((m : Machine) → In m machines → P m) → All P machines
  All-of-In [] h = tt
  All-of-In (m ∷ machines) h = (h m (inl refl), All-of-In machines (λ n i. h n (inr i)))

  pub lookup-All :
      (k : Str) (machines : Map Machine) (machine : Machine)
      → lookup k machines ≡ some machine
      → All (λ e. P e.1) machines
      → P machine
  unfolding lookup
  lookup-All k [] machine h a = absurd (cc)
  lookup-All k ((j, m) ∷ machines) machine h a = elim (Bool-cases (str_eq j k)) [
    | inl here ↦ let same : m ≡ machine = cc here in subst P same a.0
    | inr there ↦ lookup-All k machines machine (ground arith) a.1
  ]

  pub filter-All :
      (machines : List Machine) (pred : Machine → Bool)
      → All P machines
      → All P (filter_machines machines pred)
  unfolding filter_machines
  filter-All [] pred h = tt
  filter-All (m ∷ machines) pred h = elim (Bool-cases (pred m)) [
    | inl keep ↦ rw keep (h.0, filter-All machines pred h.1)
    | inr drop ↦ rw drop (filter-All machines pred h.1)
  ]

  module _ (explicit : Map Machine) (rel : RelationshipStatus) where
    insert-All :
        (m : Machine) (machines : List Machine)
        → P m
        → All P machines
        → All P (insert_machine explicit rel m machines)
    unfolding insert_machine
    insert-All m [] h k = (h, tt)
    insert-All m (n ∷ machines) h k = elim (Bool-cases (less explicit rel n m)) [
      | inl after ↦ rw (after, insert_machine) (k.0, insert-All m machines h k.1)
      | inr before ↦ rw (before, insert_machine) (h, k)
    ]

    sort-All : (machines : List Machine) → All P machines → All P (sort_slice explicit rel machines)
    unfolding sort_slice
    sort-All [] h = tt
    sort-All (m ∷ machines) h =
        insert-All m (sort_slice explicit rel machines) h.0 (sort-All machines h.1)

    pub sort_machines-All :
        (choices : Choices) (machines : Map Machine)
        → MovesOnly choices
        → All (λ e. P e.1) machines
        → All P (sort_machines choices machines explicit rel)
    unfolding sort_machines
    sort_machines-All choices machines moves h = sort-All (choices.shuffle (values machines)) (
        All-of-In _
          (λ m i. All-In m (values machines) (moves (values machines) m i) (values-All machines h)))
