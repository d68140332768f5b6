-- ===== src/Makefont/Import/Stored.antt =====
-- A font that `import` of slap/makefont.c makes can be stored in a font file, and `main` loads it.
use slap.Base.{
  ℕ, ◌≤◌, ◌≡◌, refl, sym, ap, ◌∙◌, true, List, [], ◌++◌, Option, none, some, length, replicate,
  length-replicate, arith, length-map,
}
use mathlib.Core.List.{append-nil}
use slap.Base.Int.{ℤ, pos}
use slap.Base.Result.{ok, ◌>>=◌, Keeps, Keeps-bind, Keeps-ok}
use slap.Bitmap.{BitmapLib}
use slap.Font.{Font, glyph_of}
use slap.Font.File.{BitmapFiles, checkfontmetrics, loadfont}
use slap.Font.File.RoundTrip.{IsStorable, reread, loadfont-savefont}
use slap.Render.Glyph.Place.{IsShort}
use slap.Makefont.{File, Scanner, Slot, empty_slot, import_glyphs, fill_gap, fill_gaps, dumpchar}
use slap.Makefont.Import.{
  Header, no_names, read_props, full_name, import_rest, import, saved, show_saved, main, skip_line,
}
use slap.Makefont.Import.Glyphs.{
  ShortMetrics, ScansShorts, All-replicate, AreSlots, empty-ShortMetrics, import_glyphs-AreSlots,
  fill_gaps-HasShorts,
}
use slap.Makefont.Import.Name.{
  IsHeader, FirstLines, read_props-AreLines, OneLine, full_name-OneLine,
}

module _ (L : BitmapLib) (header : Header) (scan : Scanner) (fuel : ℕ) where
  -- With a name that leaves room for the line's end, a font can be stored.
  abbrev Fits : Option (Font L) → Type 0
  Fits none = Unit {0}
  Fits (some f) = length f.name ≤ 126 → IsStorable L f

  module _ (sound : IsHeader header) (shorts : ScansShorts scan) where
    import_rest-Fits :
        (ascent descent : ℤ) (dg : ℕ) (file : File)
        → IsShort ascent
        → IsShort descent
        → Keeps Fits (import_rest L header scan fuel ascent descent dg file)
    unfolding import_rest fill_gaps
    import_rest-Fits ascent descent dg file a d =
        Keeps-bind (FirstLines header sound) Fits (read_props header file no_names) _
          (read_props-AreLines header sound file no_names (tt, tt))
          (λ (names, glyph_lines) lines.
            Keeps-bind OneLine Fits (full_name names) _ (full_name-OneLine names lines)
              (λ found line. with_name found glyph_lines line))
      where
        start : AreSlots L scan shorts (replicate 256 (empty_slot L))
        start = (
          All-replicate (λ (g : Slot L). ShortMetrics g.metrics) 256 (empty_slot L)
              (empty-ShortMetrics L scan shorts),
          length-replicate 256 (empty_slot L),
        )

        with_name :
            (found : Option (List ℕ)) (glyph_lines : File)
            → OneLine found
            → Keeps Fits (elim found [
              | none ↦ ok none
              | some name ↦
                  (import_glyphs L scan fuel (replicate 256 (empty_slot L)) glyph_lines
                    >>= λ glyphs. ok (
                        some (record {
                          name = name;
                          ascent = ascent;
                          descent = descent;
                          dg = dg;
                          glyphs = fill_gaps L glyphs;
                        })))
            ])
        with_name none glyph_lines line = tt
        with_name (some name) glyph_lines line =
            Keeps-bind (AreSlots L scan shorts) Fits
              (import_glyphs L scan fuel (replicate 256 (empty_slot L)) glyph_lines) _
              (import_glyphs-AreSlots L scan shorts fuel _ glyph_lines start)
              (λ glyphs (all, size) small. record {
                ascent_short = a;
                descent_short = d;
                glyphs_short = fill_gaps-HasShorts L scan shorts glyphs all;
                all_glyphs = length-map glyphs (fill_gap L) ∙ size;
                one_line = line;
                short_name = small;
              })

    import-Fits : (n : ℕ) (file : File) → Keeps Fits (import L header scan fuel n file)
    unfolding import
    import-Fits n file =
        let (dg, f1) = header.default_char n (skip_line (skip_line (header.opened file))) in
        let (a, d) =
          sound.bounds (pos 0) (pos 0) (header.min_bounds f1) (omega arith) (omega arith) in
        import_rest-Fits _ _ _ _ a d

    module _ (files : BitmapFiles L) where
      -- The two glyphs that are shown, '@' and ']'.
      abbrev pub shown_glyphs : Font L → File
      shown_glyphs f = dumpchar L (glyph_of L f 0x40).bm ++ dumpchar L (glyph_of L f 0x5D).bm

      -- When fscanf assigns SHORTs and texts of one line, and the dump gives a font with sound
      -- metrics and a name of 126 bytes at most: `main`, asked to show the result, saves the font,
      -- loads it again, and shows the glyphs of the font; and from its file, whatever comes after,
      -- the same font is loaded, but that its name has got the line's end and its default glyph is
      -- lost.
      pub main-loads :
          (n dg : ℕ) (file : File) (rest : List ℕ) (f : Font L)
          → import L header scan fuel n file ≡ ok (some f)
          → checkfontmetrics L f ≡ true
          → length f.name ≤ 126
          → (bytes : List ℕ) × (main L header scan fuel files true true n dg
                (some (some file))
                (some true)
              ≡ ok (saved bytes (shown_glyphs f)))
            × (loadfont L files dg (bytes ++ rest) ≡ some (reread L files dg f, rest))
      unfolding main show_saved
      main-loads n dg file rest f found good small =
          let storable = Keeps-ok Fits _ (import-Fits n file) found small in
          let (bytes, saved_, loaded) = loadfont-savefont L files f dg rest storable good in
          let (bytes', saved', loaded') = loadfont-savefont L files f dg [] storable good in
          let same : bytes' ≡ bytes = some_eq (sym saved' ∙ saved_) in
          let alone : loadfont L files dg bytes ≡ some (reread L files dg f, []) =
            ap (loadfont L files dg) (sym (append-nil bytes) ∙ ap (λ b. b ++ []) (sym same))
            ∙ loaded' in
          (bytes, rw (found, ◌>>=◌, saved_, alone) refl, loaded)
        where
          some_eq : {a b : List ℕ} → some a ≡ some b → a ≡ b
          some_eq e = cc
