-- ===== src/Slplus/Setup.antt =====
-- `geometry`, `setmedia`, `hres` and `vres` of slap/slplus.c.
pub mod Whole
use slap.Base.{
  ℕ, zero, suc, ◌+◌, ◌-◌, ◌*◌, ◌/◌, ◌%◌, Bool, true, false, not, ◌==◌, Option, none, some, List, [],
  ◌∷◌, replicate, if◌then◌else◌,
}
use slap.Base.Result.{Result, ok, err, assertion, ◌>>=◌}
use slap.Bitmap.{BitmapLib}
use slap.Media.{Media, Geometry}
use slap.Render.Glyph.{Arena}
use slap.Slplus.Map.{Band}
use slap.Slplus.Line.{State}

-- Hundredths of a dot per millimetre.
abbrev pub hres : ℕ
hres = 386

abbrev pub vres : ℕ
vres = 630

-- The margins, as the conversions to `USHORT` leave them: (4.0 + 8 / 6.30) * 6.30 = 33.2 at the
-- top and the bottom, and (2.0 / 3.86) * 3.86 = 2 on the left and the right.
abbrev pub top_margin : ℕ
top_margin = 33

abbrev pub left_margin : ℕ
left_margin = 2

-- The height in dots before it is rounded: the product with 6.30 less the two margins, cut off to
-- an integer. In C the conversion is undefined for a medium of less than 11 millimetres, whose
-- difference is negative; it stops at 0 here, and nothing is claimed of such a medium.
abbrev pub raw_height : ℕ → ℕ
raw_height mm = (mm * vres - 2 * top_margin * 100) / 100

-- The rows that are added to make whole pairs of bands.
abbrev pub rounding : ℕ → ℕ
rounding height = 16 - height % 16

unfoldable pub geometry : Media → Option Geometry
geometry m =
    if not (m.width == 28)
    then none
    else some (record {
      top = top_margin;
      bottom = top_margin - rounding (raw_height m.height);
      left = left_margin;
      right = left_margin;
      width = (m.width * 386 - 2 * left_margin * 100) / 100;
      height = raw_height m.height + rounding (raw_height m.height);
    })

-- A band of a new map.
abbrev pub empty_band : (nslices : ℕ) → Band
empty_band nslices = record { slices = λ k. 0; min_slice = nslices; max_slice = 0 }

module _ (L : BitmapLib) where
  open L use {buy}

  -- The geometry, the new arena, and the state with its new map, unless the driver refuses the
  -- medium. `target` says that a device is open.
  unfoldable pub setmedia :
      (target : Bool) → Media → State → Result (Option (Geometry × Arena L × State))
  setmedia target m s = elim (geometry m) [
    | none ↦ ok none
    | some g ↦
        let a : Arena L = record { bm = buy g.height g.width; dirty = false } in
        let s' = record s {
          nslices = g.width;
          bands = replicate (g.height / 8) (empty_band g.width);
        } in
        if not target
        then ok (some (g, a, s))
        else if g.height % 8 == 0
        then ok (some (g, a, s'))
        else err assertion
  ]
