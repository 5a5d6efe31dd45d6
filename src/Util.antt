-- ===== src/Util.antt =====
-- pkg/util/slice.go and pkg/util/bytes_size.go.
pub mod Atoi
pub mod Bytes
pub mod Decimal
use naglfar.Prelude.{
  Bool, true, false, List, [], ◌∷◌, Str, str_eq, Outcome, ok, panic, if◌then◌else◌,
}

-- The loop returns at the first hit.
unfoldable pub strings_contains : List Str → Str → Bool
strings_contains [] target = false
strings_contains (elem ∷ list) target =
    if str_eq elem target then true else strings_contains list target

abbrev pub without : List Str → Str → List Str
without [] target = []
without (elem ∷ list) target =
    let rest = without list target in if str_eq target elem then rest else elem ∷ rest

-- `make([]string, 0, len(list)-1)` panics on the empty list: its capacity would be -1.
unfoldable pub strings_remove : List Str → Str → Outcome (List Str)
strings_remove [] target = panic
strings_remove (elem ∷ list) target = ok (without (elem ∷ list) target)
