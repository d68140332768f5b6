-- ===== src/Slpro/Map.antt =====
-- The first half of `printlabel` of slap/slpro.c: from the bitmap to bands of slices, a slice being
-- eight dots of a row, the leftmost dot in its highest bit.
pub mod Packed
use slap.Base.{ℕ, zero, suc, ◌+◌, ◌-◌, ◌*◌, ◌/◌, ◌^◌, Bool, ◌&&◌, List, [], ◌∷◌, if◌then◌else◌, ltb}
use slap.Base.Bits.{with_bit}
use slap.Base.Counts.{repeat}
use slap.Bitmap.{BitmapLib}

-- SLOP
abbrev pub slop : ℕ
slop = 1

-- The column that the dot `c` is taken from.
unfoldable pub column : (has_slop_bug : Bool) → (nslices c : ℕ) → ℕ
column has_slop_bug nslices c = if ltb c (nslices * 8 - slop) && has_slop_bug then c + slop else c

-- `b->slices[slice]` and `lastband`.
pub record Slice : Type 0 where
  pub byte : ℕ
  pub lastband : ℕ

module _ (L : BitmapLib) (bm : BitmapLib.Bitmap L) (has_slop_bug : Bool) (nslices : ℕ) where
  -- The body of the innermost loop.
  unfoldable pub map_dot : (band slice n : ℕ) → Slice → Slice
  map_dot band slice n p =
      if BitmapLib.tstb L bm band (column has_slop_bug nslices (slice * 8 + n))
      then record { byte = with_bit (0x80 / 2 ^ n) p.byte; lastband = band }
      else p

  unfoldable pub map_slice : (band slice lastband : ℕ) → Slice
  map_slice band slice lastband =
      repeat 8 0 (map_dot band slice) (record { byte = 0; lastband = lastband })

  -- The loop over `n` slices from `slice` on.
  unfoldable pub map_slices : (band n slice lastband : ℕ) → List ℕ × ℕ
  map_slices band zero slice lastband = ([], lastband)
  map_slices band (suc n) slice lastband =
      let p = map_slice band slice lastband in
      let (rest, last) = map_slices band n (slice + 1) p.lastband in (p.byte ∷ rest, last)

  -- The loop over `n` bands from `band` on.
  unfoldable pub map_bands : (n band lastband : ℕ) → List (List ℕ) × ℕ
  map_bands zero band lastband = ([], lastband)
  map_bands (suc n) band lastband =
      let (row, last) = map_slices band nslices 0 lastband in
      let (rest, last') = map_bands n (band + 1) last in (row ∷ rest, last')
