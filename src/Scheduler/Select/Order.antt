-- ===== src/Scheduler/Select/Order.antt =====
-- The order in which machines are tried.
use naglfar.Prelude.{
  ◌≤◌, Bool, true, false, List, [], ◌∷◌, Map, has_key, ◌≡◌, arith, All, Bool-cases, inl, inr,
}
use mathlib.Core.List.{Perm}
use mathlib.Core.List.Perm
use naglfar.Machine.{Machine}
use naglfar.Relationship.{RelationshipStatus}
use naglfar.Scheduler.Select.{less, load, insert_machine, sort_slice}

module _ (explicit : Map Machine) (rel : RelationshipStatus) where
  -- No machine stands behind one that the comparison puts after it.
  abbrev IsOrdered : List Machine → Type 0
  IsOrdered [] = Unit
  IsOrdered (m ∷ machines) = All (λ n. less explicit rel n m ≡ false) machines × IsOrdered machines

  less_trans :
      (a b c : Machine)
      → less explicit rel b a ≡ false
      → less explicit rel c b ≡ false
      → less explicit rel c a ≡ false
  unfolding less
  less_trans a b c h k = ground arith

  less_asymm : (a b : Machine) → less explicit rel a b ≡ true → less explicit rel b a ≡ false
  unfolding less
  less_asymm a b h = ground arith

  trans-All :
      (a b : Machine) (machines : List Machine)
      → less explicit rel b a ≡ false
      → All (λ n. less explicit rel n b ≡ false) machines
      → All (λ n. less explicit rel n a ≡ false) machines
  trans-All a b [] h k = tt
  trans-All a b (n ∷ machines) h k = (less_trans a b n h k.0, trans-All a b machines h k.1)

  insert-All :
      (a m : Machine) (machines : List Machine)
      → less explicit rel m a ≡ false
      → All (λ n. less explicit rel n a ≡ false) machines
      → All (λ n. less explicit rel n a ≡ false) (insert_machine explicit rel m machines)
  unfolding insert_machine
  insert-All a m [] h k = (h, tt)
  insert-All a m (n ∷ machines) h k = elim (Bool-cases (less explicit rel n m)) [
    | inl after ↦ rw (after, insert_machine) (k.0, insert-All a m machines h k.1)
    | inr before ↦ rw (before, insert_machine) (h, k)
  ]

  insert-IsOrdered :
      (m : Machine) (machines : List Machine)
      → IsOrdered machines
      → IsOrdered (insert_machine explicit rel m machines)
  unfolding insert_machine
  insert-IsOrdered m [] h = (tt, tt)
  insert-IsOrdered m (n ∷ machines) h = elim (Bool-cases (less explicit rel n m)) [
    | inl after ↦
        rw (after, insert_machine)
          (insert-All n m machines (less_asymm n m after) h.0, insert-IsOrdered m machines h.1)
    | inr before ↦ rw (before, insert_machine) ((before, trans-All m n machines before h.0), h)
  ]

  sort_slice-IsOrdered : (machines : List Machine) → IsOrdered (sort_slice explicit rel machines)
  unfolding sort_slice
  sort_slice-IsOrdered [] = tt
  sort_slice-IsOrdered (m ∷ machines) =
      insert-IsOrdered m (sort_slice explicit rel machines) (sort_slice-IsOrdered machines)

  abbrev is_named : Machine → Bool
  is_named m = has_key m.meta.name explicit

  -- What it means that `m` may stand in front of `n`.
  abbrev pub InFront : Machine → Machine → Type 0
  InFront m n =
      (is_named n ≡ true → is_named m ≡ true)
      × (is_named m ≡ is_named n → load explicit rel n ≤ load explicit rel m)

  abbrev pub IsRanked : List Machine → Type 0
  IsRanked [] = Unit
  IsRanked (m ∷ machines) = All (InFront m) machines × IsRanked machines

  not_less-InFront : (m n : Machine) → less explicit rel n m ≡ false → InFront m n
  unfolding less
  not_less-InFront m n h = ground arith

  All-InFront :
      (m : Machine) (machines : List Machine)
      → All (λ n. less explicit rel n m ≡ false) machines
      → All (InFront m) machines
  All-InFront m [] h = tt
  All-InFront m (n ∷ machines) h = (not_less-InFront m n h.0, All-InFront m machines h.1)

  IsOrdered-IsRanked : (machines : List Machine) → IsOrdered machines → IsRanked machines
  IsOrdered-IsRanked [] h = tt
  IsOrdered-IsRanked (m ∷ machines) h =
      (All-InFront m machines h.0, IsOrdered-IsRanked machines h.1)

  insert-perm :
      (m : Machine) (machines : List Machine)
      → Perm (insert_machine explicit rel m machines) (m ∷ machines)
  unfolding insert_machine
  insert-perm m [] = Perm.refl (m ∷ [])
  insert-perm m (n ∷ machines) = elim (Bool-cases (less explicit rel n m)) [
    | inl after ↦
        rw (after, insert_machine)
          (Perm.trans (Perm.cons n (insert-perm m machines)) (Perm.swap m n machines))
    | inr before ↦ rw (before, insert_machine) (Perm.refl (m ∷ n ∷ machines))
  ]

  sort_slice-perm : (machines : List Machine) → Perm (sort_slice explicit rel machines) machines
  unfolding sort_slice
  sort_slice-perm [] = Perm.refl []
  sort_slice-perm (m ∷ machines) =
      Perm.trans (insert-perm m (sort_slice explicit rel machines))
        (Perm.cons m (sort_slice-perm machines))

  -- Sorting only reorders the machines. In the result a machine that the request names never stands
  -- behind one that it does not name, and of two machines of one kind the one with more resources
  -- stands in front.
  pub sort_slice-IsRanked :
      (machines : List Machine)
      → Perm (sort_slice explicit rel machines) machines
        × IsRanked (sort_slice explicit rel machines)
  sort_slice-IsRanked machines = (
    sort_slice-perm machines,
    IsOrdered-IsRanked (sort_slice explicit rel machines) (sort_slice-IsOrdered machines),
  )
