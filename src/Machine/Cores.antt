-- ===== src/Machine/Cores.antt =====
-- Sets of CPU cores: makeCPUSet, deleteCPUSet and cpuSetStr of api/v1/machine_types.go, and
-- pickCpuSet of controllers/testresource_controller.go.
pub mod Laws
pub mod Sorted
use naglfar.Prelude.{
  ℕ, zero, suc, ◌+◌, ◌/◌, ◌%◌, Bool, true, false, ◌||◌, List, [], ◌∷◌, ◌++◌, Str, length, take, ltb,
  leb, ◌==◌, if◌then◌else◌,
}
use naglfar.Prelude.Int.{ℤ, pos, pos_part, ltℤ}

-- i, i + 1, ... for n rounds
count_up : ℕ → ℕ → List ℕ
count_up zero i = []
count_up (suc n) i = i ∷ count_up n (suc i)

-- A loop from 0 below a negative number makes no round.
unfoldable pub make_cpu_set : ℤ → List ℕ
unfolding count_up
make_cpu_set threads = count_up (pos_part threads) 0

-- A map[int]struct{} as the list of its keys, each once.
pub contains : ℕ → List ℕ → Bool
contains core [] = false
contains core (c ∷ set) = c == core || contains core set

-- set[core] = struct{}{}
add_core : List ℕ → ℕ → List ℕ
unfolding contains
add_core set core = if contains core set then set else core ∷ set

-- delete(set, core)
pub remove_core : ℕ → List ℕ → List ℕ
remove_core core [] = []
remove_core core (c ∷ set) = let rest = remove_core core set in if c == core then rest else c ∷ rest

add_all : List ℕ → List ℕ → List ℕ
unfolding add_core
add_all set [] = set
add_all set (core ∷ cores) = add_all (add_core set core) cores

remove_all : List ℕ → List ℕ → List ℕ
unfolding remove_core
remove_all set [] = set
remove_all set (core ∷ cores) = remove_all (remove_core core set) cores

-- The cores of a set are distinct, so that sort.Slice has one result: that of any sort.
insert_sorted : ℕ → List ℕ → List ℕ
insert_sorted core [] = core ∷ []
insert_sorted core (c ∷ cores) =
    let rest = insert_sorted core cores in if leb core c then core ∷ c ∷ cores else c ∷ rest

pub sort : List ℕ → List ℕ
unfolding insert_sorted
sort [] = []
sort (core ∷ cores) = insert_sorted core (sort cores)

unfoldable pub delete_cpu_set : List ℕ → List ℕ → List ℕ
unfolding add_all remove_all sort
delete_cpu_set cpu_set alloc_set = sort (remove_all (add_all [] cpu_set) alloc_set)

-- The set stays empty if there are too few cores; a negative count picks none.
unfoldable pub pick_cpu_set : List ℕ → ℤ → List ℕ
pick_cpu_set cpu_set i = if ltℤ (pos (length cpu_set)) i then [] else take (pos_part i) cpu_set

-- fmt.Sprintf("%d", n): the digits of n, on fuel above n.
print_digits : ℕ → ℕ → Str
print_digits zero n = []
print_digits (suc fuel) n =
    let rest = print_digits fuel (n / 10) ++ ((b'0' + n % 10) ∷ []) in
    if ltb n 10 then (b'0' + n) ∷ [] else rest

unfoldable pub print_nat : ℕ → Str
unfolding print_digits
print_nat n = print_digits (suc n) n

append_cores : Str → List ℕ → Str
unfolding print_nat
append_cores str [] = str
append_cores str (core ∷ cores) = append_cores (str ++ (b',' ∷ print_nat core)) cores

unfoldable pub cpu_set_str : List ℕ → Str
unfolding append_cores print_nat
cpu_set_str [] = []
cpu_set_str (core ∷ cores) = append_cores (print_nat core) cores
