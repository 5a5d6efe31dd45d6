-- ===== src/Util/Bytes.antt =====
-- pkg/util/bytes_size.go. The parser and the printer of sizes are github.com/docker/go-units: a
-- parameter. A `BytesSize` is a string.
use naglfar.Prelude.{Option, none, some, Str, Outcome, ok, panic, ◌>>=◌}
use naglfar.Prelude.Int.{ℤ, pos, ◌-ℤ◌, int64}

abbrev pub BytesSize : Type 0
BytesSize = Str

-- `ram_in_bytes` is units.RAMInBytes, with `none` for its error; `bytes_size` is units.BytesSize
-- after the conversion of an int64 to float64.
pub record Units : Type 0 where
  pub ram_in_bytes : Str → Option ℤ
  pub bytes_size : ℤ → Str

module _ (units : Units) where
  open units use {ram_in_bytes, bytes_size}

  unfoldable pub unwrap : BytesSize → Outcome ℤ
  unwrap b = elim (ram_in_bytes b) [ none ↦ panic | some size ↦ ok size ]

  -- b.Unwrap() - other.Unwrap() is an int64.
  unfoldable pub sub : BytesSize → BytesSize → Outcome BytesSize
  sub b other = do x ← unwrap b; y ← unwrap other; ok (bytes_size (int64 (x -ℤ y)))

  unfoldable pub zero_size : BytesSize
  zero_size = bytes_size (pos 0)
