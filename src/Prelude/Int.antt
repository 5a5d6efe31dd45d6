-- ===== src/Prelude/Int.antt =====
-- Signed integers; `negsuc n` is -(n + 1). `int64` wraps around as Go's arithmetic does.
use Prim.Native.Nat.{ℕ, suc, ◌+◌, ◌-◌, ◌%◌, ◌^◌}
use mathlib.Core.Bool.{Bool}
use naglfar.Prelude.Tests.{ltb, leb, if◌then◌else◌}

pub data ℤ : Type 0 where
  pos : ℕ → ℤ
  negsuc : ℕ → ℤ

abbrev pub pos_part : ℤ → ℕ
pos_part (pos n) = n
pos_part (negsuc n) = 0

abbrev pub neg_part : ℤ → ℕ
neg_part (pos n) = 0
neg_part (negsuc n) = suc n

abbrev pub sub_ℕ : ℕ → ℕ → ℤ
sub_ℕ a b = if leb b a then pos (a - b) else negsuc (b - a - 1)

infixl 65 ◌-ℤ◌
abbrev pub ◌-ℤ◌ : ℤ → ℤ → ℤ
a -ℤ b = sub_ℕ (pos_part a + neg_part b) (neg_part a + pos_part b)

abbrev pub ltℤ : ℤ → ℤ → Bool
ltℤ a b = ltb (pos_part a + neg_part b) (pos_part b + neg_part a)

abbrev pub leℤ : ℤ → ℤ → Bool
leℤ a b = leb (pos_part a + neg_part b) (pos_part b + neg_part a)

-- The residue modulo 2 ^ 64, read as a two's complement number.
signed64 : ℕ → ℤ
signed64 u = if ltb u (2 ^ 63) then pos u else negsuc (2 ^ 64 - 1 - u)

unfoldable pub int64 : ℤ → ℤ
unfolding signed64
int64 z = signed64 ((pos_part z + (2 ^ 64 - neg_part z % 2 ^ 64)) % 2 ^ 64)
