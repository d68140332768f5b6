-- ===== src/Mbmd.antt =====
-- The driver that writes bitmap files, slap/mbmd.c: `setmedia` and `printlabel`.
pub mod Turned
use slap.Base.{
  ℕ, ◌+◌, ◌%◌, Bool, true, false, not, ◌&&◌, ◌||◌, List, [], ◌∷◌, ◌++◌, Option, none, some, ltb,
  if◌then◌else◌,
}
use slap.Base.Text.{ascii, same_text}
use slap.Base.Result.{Result, ok, err, fatal, assertion}
use slap.Base.Words.{u16_mod}
use slap.Bitmap.{BitmapLib}
use slap.Font.File.{BitmapFiles}
use slap.Media.{Media, Geometry}
use slap.Render.Glyph.{Arena}

unfoldable pub turn : Geometry → Geometry
turn g = record {
  height = g.width;
  width = g.height;
  top = g.right;
  bottom = g.left;
  left = g.top;
  right = g.bottom;
}

-- The geometry in the logical orientation.
unfoldable pub orient : (portrait : Bool) → Geometry → Geometry
orient portrait g =
    if portrait && ltb g.height g.width || not portrait && ltb g.width g.height then turn g else g

module _ (L : BitmapLib) where
  open L use {Bitmap, buy}

  -- What `setmedia` leaves: the geometry that it reports, its own geometry and bitmap, and the
  -- arena.
  pub record Prepared : Type 0 where
    pub reported : Geometry
    pub g : Geometry
    pub bm : Bitmap
    pub arena : Arena L

  -- `target` says that the open device has one, and `chained` is the `setmedia` of the driver
  -- behind this one. `mbm_buy` takes two `USHORT`s, to which the sums are cut.
  unfoldable pub setmedia :
      (target : Bool) (chained : Media → Option Geometry)
      → Media
      → (portrait : Bool) → Result (Option Prepared)
  setmedia target chained m portrait = if not target then err assertion else elim (chained m) [
    | none ↦ ok none
    | some g ↦
        let o = orient portrait g in
        let tall = (o.height + o.top + o.bottom) % u16_mod in
        let wide = (o.width + o.left + o.right) % u16_mod in
        ok (
          some (record {
            reported = g;
            g = o;
            bm = buy tall wide;
            arena = record { bm = buy o.height o.width; dirty = false };
          }))
  ]

  -- The file with one more bitmap in it.
  unfoldable pub printlabel : BitmapFiles L → List ℕ → Arena L → List ℕ
  printlabel files file a = file ++ BitmapFiles.save files a.bm

-- Where the bitmaps go.
pub data Output : Type 0 where
  standard_output : Output
  file_named : List ℕ → Output

-- An open device of this driver: the device of the driver behind it, and the output if there is a
-- target.
pub record Device (Opd : Type 0) : Type 0 where
  pub behind : Opd
  pub output : Option Output

-- What `closedev` closes.
pub data Closed (Opd : Type 0) : Type 0 where
  device_closed : Opd → Closed Opd
  file_closed : List ℕ → Closed Opd

module _ {Opd : Type 0} where
  -- `behind` is what the `open` of the driver behind returns for no target, and `creates` says
  -- whether `fopen` creates a file of this name.
  unfoldable pub opendev :
      (behind : Option Opd) (creates : List ℕ → Bool) (target : Option (List ℕ))
      → Result (Option (Device Opd))
  opendev none creates target = ok none
  opendev (some o) creates none = ok (some (record { behind = o; output = none }))
  opendev (some o) creates (some target) =
      if not (same_text target (ascii "-"))
      then (if creates target
          then ok (some (record { behind = o; output = some (file_named target) }))
          else err fatal)
      else ok (some (record { behind = o; output = some standard_output }))

  unfoldable pub closedev : Device Opd → List (Closed Opd)
  closedev d = elim (d.output) [
    | none ↦ []
    | some standard_output ↦ device_closed d.behind ∷ []
    | some (file_named name) ↦ device_closed d.behind ∷ file_closed name ∷ []
  ]
