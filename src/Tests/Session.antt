-- ===== src/Tests/Session.antt =====
-- The fonts, the drivers' table, the bitmap driver and the session at concrete inputs.
use slap.Base.{
  ℕ, ◌%◌, ◌≤◌, ◌<◌, ◌≡◌, refl, true, List, [], ◌∷◌, ◌++◌, Option, none, some, arith, All,
  All-append, replicate,
}
use slap.Base.Int.{◌+ℤ◌, ◌-ℤ◌}
use slap.Base.Text.{ascii}
use slap.Base.Result.{Result, ok}
use slap.Font.{Font, no_glyph}
use slap.Font.File.{savefont, loadfont, checkfontmetrics, glyphs_ok, glyph_ok}
use slap.Font.File.RoundTrip.{HasShorts, IsStorable, reread, loadfont-savefont}
use slap.Glue.{slplus_drv, slpro_drv, mbm_drv, Entry, drivers, load_driver}
use slap.Glue.First.{named, first_open, load_driver-named}
use slap.Media.{Media, Geometry}
use slap.Mbmd
use slap.Session.{media, find_medium}
use slap.Session.Fit.{find_medium-geometry}
use slap.Slplus.Setup.{geometry}
use slap.Tests.Samples.{lib, files, font, block_glyph, All-replicate}

block-HasShorts : HasShorts lib block_glyph
block-HasShorts = record {
  ascent_short = omega arith;
  descent_short = omega arith;
  lbearing_short = omega arith;
  rbearing_short = omega arith;
  width_short = omega arith;
}

no_glyph-HasShorts : HasShorts lib (no_glyph lib)
no_glyph-HasShorts = record {
  ascent_short = omega arith;
  descent_short = omega arith;
  lbearing_short = omega arith;
  rbearing_short = omega arith;
  width_short = omega arith;
}

font-HasShorts : All (HasShorts lib) (Font.glyphs font)
font-HasShorts =
    All-append (HasShorts lib) (replicate 32 (no_glyph lib)) (replicate 224 block_glyph)
      (All-replicate (HasShorts lib) 32 (no_glyph lib) no_glyph-HasShorts)
      (All-replicate (HasShorts lib) 224 block_glyph block-HasShorts)

font_ok : checkfontmetrics lib font ≡ true
unfolding checkfontmetrics glyphs_ok glyph_ok ◌+ℤ◌ ◌-ℤ◌
font_ok = refl

font-IsStorable : IsStorable lib font
font-IsStorable = record {
  ascent_short = omega arith;
  descent_short = omega arith;
  glyphs_short = font-HasShorts;
  all_glyphs = refl;
  one_line = tt;
  short_name = omega arith;
}

loadfont-savefont_example :
    (bytes : List ℕ) × (savefont lib files font ≡ some bytes)
    × (loadfont lib files 7 (bytes ++ (1 ∷ 2 ∷ [])) ≡ some (reread lib files 7 font, 1 ∷ 2 ∷ []))
loadfont-savefont_example = loadfont-savefont lib files font 7 (1 ∷ 2 ∷ []) font-IsStorable font_ok

-- Only the SLP-Pro driver finds a printer.
abbrev pro_only : Entry → Result (Option ℕ)
pro_only e = elim (e.drv) [ slpro_drv ↦ ok (some 3) | slplus_drv ↦ ok none | mbm_drv ↦ ok none ]

load_driver-named_example :
    load_driver pro_only (some (ascii "auto")) drivers
    ≡ first_open pro_only (named (ascii "auto") drivers)
load_driver-named_example = load_driver-named pro_only (ascii "auto") drivers

abbrev small : Media
small = record { name = ascii "small"; width = 28; height = 51 }

abbrev small_geometry : Geometry
small_geometry = record { top = 33; bottom = 22; left = 2; right = 2; width = 104; height = 266 }

abbrev small_slplus : Geometry
small_slplus = record { top = 33; bottom = 32; left = 2; right = 2; width = 104; height = 256 }

find_medium-geometry_example : (11 ≤ 51) × (104 < 255) × (256 % 16 ≡ 0) × (256 < 65536)
unfolding find_medium media geometry
find_medium-geometry_example = find_medium-geometry (ascii "small") small small_slplus refl refl
