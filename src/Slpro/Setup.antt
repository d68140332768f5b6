-- ===== src/Slpro/Setup.antt =====
-- `set_margin` and `setmedia` of slap/slpro.c.
pub mod Whole
use slap.Base.{
  ℕ, zero, suc, ◌+◌, ◌-◌, ◌*◌, ◌/◌, ◌%◌, Bool, true, false, not, ◌==◌, Option, none, some, List, [],
  ◌∷◌, replicate, if◌then◌else◌,
}
use slap.Base.Result.{Result, ok, err, assertion, wild_pointer}
use slap.Bitmap.{BitmapLib}
use slap.Media.{Media, Geometry, Ptype}
use slap.Render.Glyph.{Arena}
use slap.Serial.{Port, ◌>>=◌, ◌>>◌, give, fail, done}
use slap.Slpro.Line.{Host, State, Run, get, get_model}
use slap.Slpro.Models.{Model, geometry}
use slap.Slpro.Wait.{send_byte}

-- `st->margin` in whole millimetres: half of the width that the medium leaves, less the mechanical
-- margin, and no less than 0. `w` is the medium's width in dots.
unfoldable pub margin_of : Model → (w : ℕ) → ℕ
margin_of model w = (model.maxwidth * model.hpitch - w * 10) / model.hpitch / 2 - model.um.left

module _ (host : Host) (port : Port) (fuel : ℕ) where
  -- A margin is less than 128.
  unfoldable pub set_margin : Run (Unit {0})
  set_margin = do
    s ← get
    send_byte host port fuel 0x6 true
    send_byte host port fuel (s.margin % 256) true

  -- The new margin, and the map of the geometry, each slice 0.
  unfoldable pub new_map : Geometry → Run (Unit {0})
  new_map g = do
    model ← get_model
    λ s. ok (tt, record s { margin = margin_of model (g.width + g.left + g.right) })
    set_margin
    if g.width % 8 == 0
        then (λ s. ok (
          tt,
          record s {
            nbands = g.height;
            nslices = g.width / 8;
            map = some (replicate g.height (replicate (g.width / 8) 0));
          },
        ))
        else fail assertion

  module _ (L : BitmapLib) where
    -- The geometry and the new arena, unless the driver refuses the medium. `ptype` is
    -- `opd->ptype`; `target` says that a device is open.
    unfoldable pub setmedia : (target : Bool) → Ptype → Media → Run (Option (Geometry × Arena L))
    setmedia target ptype media s = elim (geometry ptype media) [
      | err why ↦ err why
      | ok none ↦ ok (none, s)
      | ok (some g) ↦
          (do
            if target then new_map g else done
            give (some (g, record { bm = BitmapLib.buy L g.height g.width; dirty = false })))
            s
    ]
