-- ===== src/Font.antt =====
-- Fonts: the structures `GLYPH` and `FONT` of slap/mjsfont.h.
pub mod File
use slap.Base.{ℕ, ◌%◌, List}
use slap.Base.{get_or}
use slap.Base.Int.{ℤ, pos}
use slap.Bitmap.{BitmapLib}

module _ (L : BitmapLib) where
  open L use {Bitmap, buy}

  -- `SHORT` members are integers. The member `pad` is never read.
  pub record Glyph : Type 0 where
    pub ascent : ℤ
    pub descent : ℤ
    pub lbearing : ℤ
    pub rbearing : ℤ
    pub width : ℤ
    pub bm : Bitmap

  -- `glyphs` is the array of NGLYPHS = 256 glyphs.
  pub record Font : Type 0 where
    pub name : List ℕ
    pub ascent : ℤ
    pub descent : ℤ
    pub dg : ℕ
    pub glyphs : List Glyph

  -- What stands beyond the end of the array; no index of the program reaches it.
  abbrev pub no_glyph : Glyph
  no_glyph = record {
    ascent = pos 0;
    descent = pos 0;
    lbearing = pos 0;
    rbearing = pos 0;
    width = pos 0;
    bm = buy 0 0;
  }

  -- `font->glyphs[c & 0xFF]`
  abbrev pub glyph_of : Font → ℕ → Glyph
  glyph_of f c = get_or f.glyphs (c % 256) no_glyph
