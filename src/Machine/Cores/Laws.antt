-- ===== src/Machine/Cores/Laws.antt =====
-- Which cores the operations on sets of cores leave.
use naglfar.Prelude.{
  ℕ, zero, suc, true, false, not, ◌&&◌, ◌||◌, List, [], ◌∷◌, length, take, length-take, ◌≡◌, refl,
  arith, ◌==◌,
}
use naglfar.Prelude.Int.{ℤ, pos, pos_part, ltℤ}
use naglfar.Machine.Cores.{
  contains, add_core, remove_core, add_all, remove_all, insert_sorted, sort, delete_cpu_set,
  pick_cpu_set,
}

module _ (x : ℕ) where
  contains-add_core :
      (set : List ℕ) (core : ℕ) → contains x (add_core set core) ≡ (core == x || contains x set)
  unfolding add_core contains
  contains-add_core set core = ground arith

  pub contains-remove_core :
      (core : ℕ) (set : List ℕ)
      → contains x (remove_core core set) ≡ (not (core == x) && contains x set)
  unfolding remove_core contains
  contains-remove_core core [] = ground arith
  contains-remove_core core (c ∷ set) = ground (arith, contains-remove_core core set)

  contains-add_all :
      (set cores : List ℕ) → contains x (add_all set cores) ≡ (contains x cores || contains x set)
  unfolding add_all contains
  contains-add_all set [] = refl
  contains-add_all set (core ∷ cores) =
      ground (arith, contains-add_all (add_core set core) cores, contains-add_core set core)

  contains-remove_all :
      (set cores : List ℕ)
      → contains x (remove_all set cores) ≡ (not (contains x cores) && contains x set)
  unfolding remove_all contains
  contains-remove_all set [] = refl
  contains-remove_all set (core ∷ cores) =
      ground
        (arith, contains-remove_all (remove_core core set) cores, contains-remove_core core set)

  contains-insert_sorted :
      (core : ℕ) (cores : List ℕ)
      → contains x (insert_sorted core cores) ≡ (core == x || contains x cores)
  unfolding insert_sorted contains
  contains-insert_sorted core [] = refl
  contains-insert_sorted core (c ∷ cores) = ground (arith, contains-insert_sorted core cores)

  pub contains-sort : (cores : List ℕ) → contains x (sort cores) ≡ contains x cores
  unfolding sort contains
  contains-sort [] = refl
  contains-sort (core ∷ cores) =
      ground (arith, contains-sort cores, contains-insert_sorted core (sort cores))

  contains-take :
      (n : ℕ) (cores : List ℕ) → contains x (take n cores) ≡ true → contains x cores ≡ true
  unfolding contains
  contains-take zero cores h = absurd (cc)
  contains-take (suc n) [] h = h
  contains-take (suc n) (c ∷ cores) h = ground (arith, contains-take n cores)

  -- A core is idle after `deleteCPUSet` exactly when it was in the set and is not among the
  -- allocated cores.
  pub contains-delete_cpu_set :
      (cpu_set alloc_set : List ℕ)
      → contains x (delete_cpu_set cpu_set alloc_set)
        ≡ (not (contains x alloc_set) && contains x cpu_set)
  unfolding delete_cpu_set
  contains-delete_cpu_set cpu_set alloc_set = rw contains-sort (
      unfold contains in
      ground
        (arith, contains-remove_all (add_all [] cpu_set) alloc_set, contains-add_all [] cpu_set))

  pub contains-pick_cpu_set :
      (cpu_set : List ℕ) (i : ℤ)
      → contains x (pick_cpu_set cpu_set i) ≡ true
      → contains x cpu_set ≡ true
  unfolding pick_cpu_set contains
  contains-pick_cpu_set cpu_set i h = ground (arith, contains-take (pos_part i) cpu_set)

-- Exactly as many cores are picked as were asked for, unless there are fewer.
pub length-pick_cpu_set :
    (cpu_set : List ℕ) (i : ℤ)
    → ltℤ (pos (length (pick_cpu_set cpu_set i))) i ≡ false
    → length (pick_cpu_set cpu_set i) ≡ pos_part i
unfolding pick_cpu_set
length-pick_cpu_set cpu_set i h = ground (arith, length-take (pos_part i) cpu_set)
