-- ===== src/Base/Bits.antt =====
-- Single bits of a word, as tests and sums.
use Prim.Native.Nat.{ℕ, ◌+◌, ◌-◌, ◌/◌, ◌%◌}
use mathlib.Core.Bool.{Bool}
use slap.Base.Bools.{◌==◌, if◌then◌else◌}

-- `s & bit`, `s | bit` and `s & ~bit` for a single bit.
abbrev pub has : (bit s : ℕ) → Bool
has bit s = (s / bit) % 2 == 1

abbrev pub with_bit : (bit s : ℕ) → ℕ
with_bit bit s = if has bit s then s else s + bit

abbrev pub without : (bit s : ℕ) → ℕ
without bit s = if has bit s then s - bit else s
