-- ===== src/Util/Atoi.antt =====
-- strconv.Atoi, which the controllers use for ports.
use naglfar.Prelude.{
  ℕ, ◌+◌, ◌-◌, ◌*◌, ◌^◌, Bool, true, false, ◌&&◌, [], ◌∷◌, Option, none, some, Str, leb, ltb,
  if◌then◌else◌, ◌==◌,
}
use naglfar.Prelude.Int.{ℤ, pos, negsuc, sub_ℕ}

is_digit : ℕ → Bool
is_digit c = leb b'0' c && leb c b'9'

digits : Str → ℕ → Option ℕ
unfolding is_digit
digits [] n = some n
digits (c ∷ s) n = let rest = digits s (n * 10 + (c - b'0')) in if is_digit c then rest else none

-- At least one digit.
number : Str → Option ℕ
unfolding digits
number [] = none
number (c ∷ s) = digits (c ∷ s) 0

-- The value, and whether there was an error: 0 for a text that is no number, the nearest int64 for
-- one that is out of range.
from_positive : Option ℕ → ℤ × Bool
from_positive none = (pos 0, true)
from_positive (some n) = if ltb n (2 ^ 63) then (pos n, false) else (pos (2 ^ 63 - 1), true)

from_negative : Option ℕ → ℤ × Bool
from_negative none = (pos 0, true)
from_negative (some n) = if leb n (2 ^ 63) then (sub_ℕ 0 n, false) else (negsuc (2 ^ 63 - 1), true)

unfoldable pub atoi : Str → ℤ × Bool
unfolding number from_positive from_negative
atoi [] = (pos 0, true)
atoi (c ∷ s) =
    if c == b'-'
    then from_negative (number s)
    else (if c == b'+' then from_positive (number s) else from_positive (number (c ∷ s)))
