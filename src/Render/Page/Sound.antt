-- ===== src/Render/Page/Sound.antt =====
-- The renderer on a font of sound glyphs: no fault, every line on the label, no blank label.
use slap.Base.{ℕ, zero, suc, ◌+◌, ◌*◌, ◌≤◌, ◌<◌, ◌≡◌, refl, ◌∙◌, Bool, true, false, arith, All}
use slap.Base.Int.{pos, ◌≤ℤ◌}
use slap.Base.Words.{to_u32, u16_mod}
use slap.Bitmap.{BitmapLib}
use slap.Font
use slap.Font.{Font, glyph_of}
use slap.Render.Glyph.{Arena, next_col, start_col, extra_width}
use slap.Render.Glyph.Drawn.{Oriented, HasDot}
use slap.Render.Glyph.Place.{IsSound}
use slap.Render.Box.{boxit, box_cols, box_rows}
use slap.Render.Page.{Job, Page, blank}

module _ (L : BitmapLib) where
  open L use {Bitmap, height, width, clr, setb, height-setb, width-setb, height-clr, width-clr}

  -- A glyph that the renderer places without a fault, and that moves on by `step` dots at most.
  pub record IsPlain (step : ℕ) (g : Font.Glyph L) : Type 0 where
    pub sound : IsSound L g
    pub lbearing_nonneg : pos 0 ≤ℤ g.lbearing
    pub width_nonneg : pos 0 ≤ℤ g.width
    pub advance : to_u32 g.lbearing + to_u32 g.width ≤ step

  -- A job whose font fits the label. `ascent` and `descent` are the font's, which are not negative.
  pub record IsFit (step ascent descent : ℕ) (j : Job L) : Type 0 where
    pub ascent_eq : j.font.ascent ≡ pos ascent
    pub descent_eq : j.font.descent ≡ pos descent
    pub fits : ascent + descent ≤ j.vheight
    pub height_small : j.vheight < u16_mod
    pub width_small : j.vwidth < u16_mod
    pub glyphs : (c : ℕ) → IsPlain step (glyph_of L j.font c)
    pub space_pos : 0 < j.spacewidth
    pub space_step : j.spacewidth * 8 ≤ step

  -- The line lies within the label, the bitmap has its size, and a label is dirty or printed only
  -- with a dot on it.
  pub record IsSafe (ascent descent : ℕ) (j : Job L) (p : Page L) : Type 0 where
    pub oriented : Oriented L j.vheight j.vwidth p.arena.bm
    pub above : ascent ≤ p.row
    pub below : p.row + descent ≤ j.vheight
    pub marked : p.arena.dirty ≡ true → HasDot L j.vheight j.vwidth p.arena.bm
    pub printed : All (λ (a : Arena L). HasDot L j.vheight j.vwidth a.bm) p.printed

  SameSize : Bitmap → Bitmap → Type 0
  SameSize a b = (height a ≡ height b) × (width a ≡ width b)

  box_cols-SameSize : (n c : ℕ) (b : Bitmap) → SameSize (box_cols L n c b) b
  unfolding box_cols SameSize
  box_cols-SameSize zero c b = (refl, refl)
  box_cols-SameSize (suc n) c b =
      let ih = box_cols-SameSize n (c + 1) _ in
      (ih.0 ∙ height-setb _ _ _ ∙ height-setb _ _ _, ih.1 ∙ width-setb _ _ _ ∙ width-setb _ _ _)

  box_rows-SameSize : (k : ℕ) (b : Bitmap) → SameSize (box_rows L k b) b
  unfolding box_rows SameSize
  box_rows-SameSize zero b = (refl, refl)
  box_rows-SameSize (suc zero) b = (refl, refl)
  box_rows-SameSize (suc (suc k)) b =
      let ih = box_rows-SameSize (suc k) _ in
      (ih.0 ∙ height-setb _ _ _ ∙ height-setb _ _ _, ih.1 ∙ width-setb _ _ _ ∙ width-setb _ _ _)

  pub blank-SameSize :
      (boxed : Bool) (b : Bitmap)
      → (height (Arena.bm (blank L boxed b)) ≡ height b)
        × (width (Arena.bm (blank L boxed b)) ≡ width b)
  unfolding blank boxit SameSize
  blank-SameSize false b = (height-clr b, width-clr b)
  blank-SameSize true b =
      let r = box_rows-SameSize _ _ in
      let c = box_cols-SameSize (width (clr b)) 0 (clr b) in
      (r.0 ∙ c.0 ∙ height-clr b, r.1 ∙ c.1 ∙ width-clr b)

  -- What `next_col` adds.
  pub next_col-le :
      (step col : ℕ) (g : Font.Glyph L)
      → IsPlain step g
      → col + step < 2147483648
      → next_col L g col ≤ col + step
  unfolding next_col start_col extra_width
  next_col-le step col g p b = ground (arith, p.lbearing_nonneg, p.width_nonneg, p.advance)
