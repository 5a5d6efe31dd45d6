-- ===== src/Util/Decimal.antt =====
-- strconv.Itoa and the verb %d.
use naglfar.Prelude.{◌∷◌, Str, suc}
use naglfar.Prelude.Int.{ℤ, pos, negsuc}
use naglfar.Machine.Cores.{print_nat}

unfoldable pub print_int : ℤ → Str
print_int (pos n) = print_nat n
print_int (negsuc n) = b'-' ∷ print_nat (suc n)
