-- ===== src/Base/Words.antt =====
-- The machine integers of the sources: `USHORT` has 16 bits and `UINT` has 32, and both wrap.
-- A `SHORT` is an integer; where C compares one with a `UINT` it is converted first.
use Prim.Native.Nat.{ℕ, ◌+◌, ◌-◌, ◌%◌}
use slap.Base.Int.{ℤ, pos, negsuc}

abbrev pub u16_mod : ℕ
u16_mod = 65536

abbrev pub u32_mod : ℕ
u32_mod = 4294967296

-- The conversion of a signed integer to `UINT`.
abbrev pub to_u32 : ℤ → ℕ
to_u32 (pos n) = n % u32_mod
to_u32 (negsuc n) = (u32_mod - 1) - n % u32_mod

-- The conversion of a signed integer to `USHORT`.
abbrev pub to_u16 : ℤ → ℕ
to_u16 (pos n) = n % u16_mod
to_u16 (negsuc n) = (u16_mod - 1) - n % u16_mod

-- `UINT` addition and subtraction.
abbrev pub add32 : ℕ → ℕ → ℕ
add32 a b = (a + b) % u32_mod

abbrev pub sub32 : ℕ → ℕ → ℕ
sub32 a b = (a + u32_mod - b) % u32_mod
