-- ===== src/Slplus/Setup/Whole.antt =====
-- The map and the arena that `setmedia` makes fit each other.
use slap.Base.{
  ℕ, zero, suc, ◌+◌, ◌*◌, ◌/◌, ◌%◌, ◌≤◌, ◌≡◌, refl, ◌∙◌, true, false, some, arith, length,
  replicate,
}
use slap.Base.Result.{Returns, returns}
use slap.Bitmap.{BitmapLib}
use slap.Media.{Media, Geometry}
use slap.Render.Glyph.{Arena}
use slap.Slplus.Line.{State}
use slap.Slplus.Setup.{geometry, raw_height, rounding, setmedia, empty_band, top_margin}

length-replicate : {A : Type 0} (n : ℕ) (a : A) → length (replicate n a) ≡ n
length-replicate zero a = refl
length-replicate (suc n) a = omega (arith, length-replicate n a)

module _ (L : BitmapLib) where
  open L use {height, width, height-buy, width-buy}

  -- The map has whole pairs of bands, every dot of it is a dot of the arena and the other way
  -- round, and the arena is clean.
  pub record IsWhole (a : Arena L) (s : State) : Type 0 where
    pub even : length s.bands % 2 ≡ 0
    pub tall : height a.bm ≡ 8 * length s.bands
    pub wide : width a.bm ≡ s.nslices
    pub clean : a.dirty ≡ false

  -- A medium that is 28 millimetres wide and 11 millimetres high or more is taken, for an open
  -- device, without a failed assertion: the map and the arena fit each other, both have every dot
  -- that the medium has between its margins and 16 rows more at most, and the rows added are taken
  -- from the bottom margin.
  pub setmedia-IsWhole :
      (m : Media) (s : State)
      → m.width ≡ 28
      → 11 ≤ m.height
      → Returns (setmedia L true m s) (λ o.
        (g : Geometry) × (a : Arena L) × (t : State) × (o ≡ some (g, a, t))
        × IsWhole a t
        × (raw_height m.height ≤ g.height)
        × (g.height ≤ raw_height m.height + 16)
        × (g.height + g.bottom ≡ raw_height m.height + top_margin))
  unfolding setmedia geometry
  setmedia-IsWhole m s e high =
      let h = raw_height m.height in
      let whole : (h + rounding h) % 8 ≡ 0 = omega arith in
      let count = length-replicate ((h + rounding h) / 8) (empty_band 104) in
      rw (e, whole)
        (returns _ (
          _,
          _,
          _,
          refl,
          record {
            even = omega (arith, count);
            tall = height-buy _ _ ∙ omega (arith, count);
            wide = width-buy _ _;
            clean = refl;
          },
          omega arith,
          omega arith,
          omega arith,
        ))
