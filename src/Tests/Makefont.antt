-- ===== src/Tests/Makefont.antt =====
-- A glyph of two rows that is printed and read again, and a dump that becomes a font file:
-- slap/dumpfont.c and slap/makefont.c.
use slap.Base.{
  ℕ, Bool, false, subst, replicate, if◌then◌else◌, ◌≡◌, ◌≢◌, refl, true, List, [], ◌∷◌, ◌++◌, some,
  none, set, arith,
}
use slap.Base.Int.{pos, negsuc, ◌+ℤ◌, ◌-ℤ◌}
use slap.Base.Result.{Returns, wild_pointer, out_of_fuel, err, ok}
use slap.Makefont.{
  Metrics, Scanner, Slot, dumpchar, import_glyph, import_glyphs, skip_nonexistent, empty_slot,
  dump_rows, dump_row,
}
use slap.Makefont.Dumped.{Same, import_glyph-dumpchar}
use slap.Font.{Font}
use slap.Font.File.{loadfont, checkfontmetrics, glyphs_ok, glyph_ok}
use slap.Font.File.RoundTrip.{reread}
use slap.Base.Text.{ascii, same_text}
use slap.Makefont.{
  File, fill_gap, fill_gaps, import_at, import_bitmap, import_rows, import_row, import_dot,
}
use slap.Makefont.Import.{
  import_rest, read_props, starts_upper, read_prop, store, full_name, slant_suffix, Header,
  skip_line, import, main, saved,
}
use slap.Makefont.Import.Glyphs.{ScansShorts}
use slap.Makefont.Import.Name.{IsHeader, IsLine}
use slap.Makefont.Import.Stored.{shown_glyphs, main-loads}
use slap.Makefont.Ends.{import_glyphs_ends}
use slap.Tests.Samples.{lib, Dots, files}

abbrev corner : Dots
corner = record { tall = 2; wide = 2; ink = (0, 0) ∷ (0, 1) ∷ (1, 0) ∷ [] }

corner_lines : dumpchar lib corner ≡ (0x23 ∷ 0x23 ∷ 0xA ∷ []) ∷ (0x23 ∷ 0x2D ∷ 0xA ∷ []) ∷ []
unfolding dumpchar dump_rows dump_row
corner_lines = refl

abbrev corner_metrics : Metrics
corner_metrics = record {
  lbearing = negsuc 0;
  rbearing = pos 1;
  ascent = pos 3;
  descent = negsuc 0;
  width = pos 2;
}

-- A buffer of one byte gives this byte, a longer one the number -1.
abbrev scan : Scanner
scan = record {
  char_index = λ buf. elim buf [
    | [] ↦ none
    | c ∷ more ↦ some (elim more [ [] ↦ pos c | d ∷ rest ↦ negsuc 0 ])
  ];
  metrics_of = λ old file. record { count = 5; metrics = corner_metrics; rest = file };
}

import_glyph_negative : import_glyph lib scan [] ((1 ∷ 2 ∷ []) ∷ []) ≡ err wild_pointer
unfolding import_glyph
import_glyph_negative = refl

abbrev two_slots : List (Slot lib)
two_slots = empty_slot lib ∷ empty_slot lib ∷ []

import_glyph-dumpchar_example :
    Returns
      (import_glyph lib scan two_slots ((1 ∷ []) ∷ (dumpchar lib corner ++ (65 ∷ []) ∷ [])))
      (λ (found, after, left).
        (b : Dots) × Same lib corner b
        × (found ≡ true)
        × (after ≡ set two_slots 1 (record { metrics = corner_metrics; bm = some b }))
        × (left ≡ skip_nonexistent ((65 ∷ []) ∷ [])))
unfolding ◌+ℤ◌ ◌-ℤ◌
import_glyph-dumpchar_example =
    import_glyph-dumpchar lib scan two_slots corner 1 (1 ∷ [])
      (dumpchar lib corner ++ (65 ∷ []) ∷ []) ((65 ∷ []) ∷ []) corner_metrics (omega arith) refl
      refl refl refl

import_glyphs_ends_example :
    import_glyphs lib scan 4 two_slots ((1 ∷ []) ∷ (dumpchar lib corner)) ≢ err out_of_fuel
import_glyphs_ends_example =
    import_glyphs_ends lib scan (λ m file. omega arith) 4 two_slots
      ((1 ∷ []) ∷ (dumpchar lib corner)) (rw corner_lines (omega arith))

-- Every line is read whole, and the font has the family `areal`.
abbrev header : Header
header = record {
  opened = skip_line;
  default_char = λ n file. (33, skip_line file);
  min_bounds = skip_line;
  max_bounds = λ a d file. (pos 3, pos 0, skip_line file);
  font_line = skip_line;
  family_name =
      λ buf. if same_text buf (ascii "FAMILY_NAME areal") then some (ascii "areal") else none;
  weight_name = λ buf. none;
  slant = λ buf. none;
}

header-IsHeader : IsHeader header
header-IsHeader = record {
  bounds = λ a d file h k. (omega arith, omega arith);
  family = λ buf text e. areal (same_text buf (ascii "FAMILY_NAME areal")) text e;
  weight = λ buf text e. absurd (nothing e);
}
  where
    nothing : {text : List ℕ} → none ≢ some text
    nothing e = cc

    same_line : {a b : List ℕ} → some a ≡ some b → a ≡ b
    same_line e = cc

    areal :
        (b : Bool) (text : List ℕ)
        → (if b then some (ascii "areal") else none) ≡ some text
        → IsLine text
    areal true text e =
        subst IsLine (same_line e)
          (omega arith, (omega arith, (omega arith, (omega arith, (omega arith, tt)))))
    areal false text e = absurd (nothing e)

scan-ScansShorts : ScansShorts scan
scan-ScansShorts m file h = record {
  lbearing_short = omega arith;
  rbearing_short = omega arith;
  ascent_short = omega arith;
  descent_short = omega arith;
  width_short = omega arith;
}

-- Seven lines about the font, its family, and the glyph 1.
abbrev dump : File
dump =
    replicate 7 []
    ++ ascii "FAMILY_NAME areal"
      ∷ (1 ∷ [])
      ∷ (0x23 ∷ 0x23 ∷ 0xA ∷ [])
      ∷ (0x23 ∷ 0x2D ∷ 0xA ∷ [])
      ∷ []

abbrev read_corner : Dots
read_corner = record { tall = 2; wide = 2; ink = (1, 0) ∷ (0, 1) ∷ (0, 0) ∷ [] }

abbrev imported : Font lib
imported = record {
  name = ascii "areal";
  ascent = pos 3;
  descent = pos 0;
  dg = 33;
  glyphs = fill_gaps lib (
      set (replicate 256 (empty_slot lib)) 1
        (record { metrics = corner_metrics; bm = some read_corner }));
}

main-loads_example :
    (bytes : List ℕ) × (main lib header scan 4 files true true 0 5 (some (some dump)) (some true)
      ≡ ok (
          saved bytes
            (shown_glyphs lib header scan 4 header-IsHeader scan-ScansShorts files imported)))
    × (loadfont lib files 5 (bytes ++ []) ≡ some (reread lib files 5 imported, []))
unfolding skip_line import import_rest read_props starts_upper read_prop store full_name
    slant_suffix import_glyphs import_glyph import_at import_bitmap import_rows import_row
    import_dot skip_nonexistent fill_gap fill_gaps ◌+ℤ◌ ◌-ℤ◌ checkfontmetrics glyphs_ok glyph_ok
main-loads_example =
    main-loads lib header scan 4 header-IsHeader scan-ScansShorts files 0 5 dump [] imported refl
      refl (omega arith)
