-- ===== src/Slplus/Map.antt =====
-- The first half of `printlabel` of slap/slplus.c: from the bitmap to interleaved bands of slices.
pub mod Correct
pub mod Last
use Prim.Native.Nat.{bit_or}
use slap.Base.{ℕ, zero, suc, ◌+◌, ◌*◌, ◌^◌, Bool, List, [], ◌∷◌, ◌==◌, if◌then◌else◌, min, max}
use slap.Base.Counts.{repeat}
use slap.Bitmap.{BitmapLib}

-- `BAND`: an array of bytes, and the edges of the zone that has dots.
pub record Band : Type 0 where
  pub slices : ℕ → ℕ
  pub min_slice : ℕ
  pub max_slice : ℕ

abbrev pub update : (ℕ → ℕ) → ℕ → ℕ → ℕ → ℕ
update f i v k = if k == i then v else f k

-- The bit `n` of a slice is set, and the dirty zone is widened.
unfoldable pub mark : Band → (slice n : ℕ) → Band
mark b slice n = record {
  slices = update b.slices slice (bit_or (b.slices slice) (2 ^ n));
  min_slice = min b.min_slice slice;
  max_slice = max b.max_slice slice;
}

-- `b`, `b + 1` and `lastband` in the loop over a pair of bands.
pub record Pair : Type 0 where
  pub even : Band
  pub odd : Band
  pub lastband : ℕ

module _ (L : BitmapLib) where
  open L use {Bitmap, tstb}

  module _ (bm : Bitmap) (band : ℕ) where
    -- The innermost loop's body: the dots of rows `r` and `r + 1`.
    unfoldable pub map_dot : (slice n : ℕ) → Pair → Pair
    map_dot slice n p =
        let r = band * 8 + n * 2 in
        let q =
          if tstb bm r slice
          then record { even = mark p.even slice n; odd = p.odd; lastband = band }
          else p in
        if tstb bm (r + 1) slice
        then record { even = q.even; odd = mark q.odd slice n; lastband = band + 1 }
        else q

    -- One slice of the two bands.
    unfoldable pub map_slice : (slice : ℕ) → Pair → Pair
    map_slice slice p = repeat 8 0 (map_dot slice) (record p {
      even = record p.even { slices = update p.even.slices slice 0 };
      odd = record p.odd { slices = update p.odd.slices slice 0 };
    })

    -- The two bands from `band` on; `old` and `old'` are the arrays as they are found.
    unfoldable pub map_pair : (nslices : ℕ) (old old' : ℕ → ℕ) (lastband : ℕ) → Pair
    map_pair nslices old old' lastband = repeat nslices 0 map_slice (record {
      even = record { slices = old; min_slice = nslices; max_slice = 0 };
      odd = record { slices = old'; min_slice = nslices; max_slice = 0 };
      lastband = lastband;
    })

  -- The outer loop over `pairs` pairs of bands, with the bands and `lastband` that it leaves. The
  -- slices of a band are found as `old band`.
  unfoldable pub map_bands :
      Bitmap → (pairs band nslices : ℕ) (old : ℕ → ℕ → ℕ) (lastband : ℕ) → List Band × ℕ
  map_bands bm zero band nslices old lastband = ([], lastband)
  map_bands bm (suc pairs) band nslices old lastband =
      let p = map_pair bm band nslices (old band) (old (band + 1)) lastband in
      let (bands, last) = map_bands bm pairs (band + 2) nslices old p.lastband in
      (p.even ∷ p.odd ∷ bands, last)
