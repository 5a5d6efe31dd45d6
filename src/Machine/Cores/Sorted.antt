-- ===== src/Machine/Cores/Sorted.antt =====
-- The order of the cores that deleteCPUSet returns.
use naglfar.Prelude.{ℕ, ◌<◌, false, List, [], ◌∷◌, ◌≡◌, arith, All}
use naglfar.Machine.Cores.{
  contains, add_core, remove_core, add_all, remove_all, insert_sorted, sort, delete_cpu_set,
}
use naglfar.Machine.Cores.Laws.{contains-remove_core, contains-sort}

-- Each core is below all that follow.
abbrev pub IsIncreasing : List ℕ → Type 0
IsIncreasing [] = Unit
IsIncreasing (c ∷ cores) = All (λ d. c < d) cores × IsIncreasing cores

-- No core twice.
abbrev IsDistinct : List ℕ → Type 0
IsDistinct [] = Unit
IsDistinct (c ∷ cores) = (contains c cores ≡ false) × IsDistinct cores

add_core-IsDistinct : (set : List ℕ) (core : ℕ) → IsDistinct set → IsDistinct (add_core set core)
unfolding add_core
add_core-IsDistinct set core h = ground arith

add_all-IsDistinct : (set cores : List ℕ) → IsDistinct set → IsDistinct (add_all set cores)
unfolding add_all
add_all-IsDistinct set [] h = h
add_all-IsDistinct set (core ∷ cores) h =
    add_all-IsDistinct (add_core set core) cores (add_core-IsDistinct set core h)

remove_core-IsDistinct :
    (core : ℕ) (set : List ℕ) → IsDistinct set → IsDistinct (remove_core core set)
unfolding remove_core
remove_core-IsDistinct core [] h = tt
remove_core-IsDistinct core (c ∷ set) h =
    ground (arith, remove_core-IsDistinct core set, contains-remove_core c core set)

remove_all-IsDistinct : (set cores : List ℕ) → IsDistinct set → IsDistinct (remove_all set cores)
unfolding remove_all
remove_all-IsDistinct set [] h = h
remove_all-IsDistinct set (core ∷ cores) h =
    remove_all-IsDistinct (remove_core core set) cores (remove_core-IsDistinct core set h)

All-lt_trans : (b c : ℕ) (cores : List ℕ) → b < c → All (λ d. c < d) cores → All (λ d. b < d) cores
All-lt_trans b c [] h k = tt
All-lt_trans b c (d ∷ cores) h k = (omega arith, All-lt_trans b c cores h k.1)

insert_sorted-All :
    (b core : ℕ) (cores : List ℕ)
    → b < core
    → All (λ d. b < d) cores
    → All (λ d. b < d) (insert_sorted core cores)
unfolding insert_sorted
insert_sorted-All b core [] h k = (h, tt)
insert_sorted-All b core (c ∷ cores) h k = ground (arith, insert_sorted-All b core cores)

insert_sorted-IsIncreasing :
    (core : ℕ) (cores : List ℕ)
    → contains core cores ≡ false
    → IsIncreasing cores
    → IsIncreasing (insert_sorted core cores)
unfolding insert_sorted contains
insert_sorted-IsIncreasing core [] h k = (tt, tt)
insert_sorted-IsIncreasing core (c ∷ cores) h k = ground (
  arith,
  insert_sorted-IsIncreasing core cores,
  insert_sorted-All c core cores,
  All-lt_trans core c cores,
)

sort-IsIncreasing : (cores : List ℕ) → IsDistinct cores → IsIncreasing (sort cores)
unfolding sort
sort-IsIncreasing [] h = tt
sort-IsIncreasing (core ∷ cores) h =
    insert_sorted-IsIncreasing core (sort cores) (ground (arith, contains-sort core cores))
      (sort-IsIncreasing cores h.1)

-- Whatever the two sets, `deleteCPUSet` returns its cores in ascending order and each only once.
pub delete_cpu_set-IsIncreasing :
    (cpu_set alloc_set : List ℕ) → IsIncreasing (delete_cpu_set cpu_set alloc_set)
unfolding delete_cpu_set
delete_cpu_set-IsIncreasing cpu_set alloc_set =
    sort-IsIncreasing _ (remove_all-IsDistinct _ alloc_set (add_all-IsDistinct [] cpu_set tt))
