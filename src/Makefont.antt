-- ===== src/Makefont.antt =====
-- The bitmaps of glyphs as text: `dumpchar` of slap/dumpfont.c, and `import_glyph` of
-- slap/makefont.c with the loops of `import` that call it and fill the gaps.
pub mod Dumped
pub mod Ends
pub mod Import
use slap.Base.{
  ℕ, zero, suc, ◌+◌, Bool, true, false, not, ◌&&◌, ◌==◌, ltb, List, [], ◌∷◌, ◌++◌, map, Option,
  none, some, get_or, set, if◌then◌else◌,
}
use slap.Base.Int.{ℤ, pos, pos_part, ltb_ℤ, ◌+ℤ◌, ◌-ℤ◌}
use slap.Base.Result.{Result, ok, err, fatal, wild_pointer, out_of_fuel}
use slap.Base.Text.{ascii, same_text}
use slap.Bitmap.{BitmapLib}
use slap.Font

-- What is left of a file, as the buffers that `fgets` delivers, each up to its NUL.
abbrev pub File : Type 0
File = List (List ℕ)

abbrev pub hash : ℕ
hash = 0x23

abbrev pub dash : ℕ
dash = 0x2D

-- The `SHORT` members of a glyph.
pub record Metrics : Type 0 where
  pub lbearing : ℤ
  pub rbearing : ℤ
  pub ascent : ℤ
  pub descent : ℤ
  pub width : ℤ

-- How many members `fscanf` has assigned, the members afterwards, and what is left of the file.
pub record Scanned : Type 0 where
  pub count : ℕ
  pub metrics : Metrics
  pub rest : File

-- `sscanf` with "char #%u", if it assigns `idx`, an INT; and `fscanf` with the five members.
pub record Scanner : Type 0 where
  pub char_index : List ℕ → Option ℤ
  pub metrics_of : Metrics → File → Scanned

-- The buffer that says that a character does not exist is skipped.
unfoldable pub skip_nonexistent : File → File
skip_nonexistent [] = []
skip_nonexistent (buf ∷ rest) =
    if same_text buf (ascii "Nonexistent character" ++ 0xA ∷ []) then rest else buf ∷ rest

module _ (L : BitmapLib) where
  open L use {Bitmap, height, width, tstb, setb, buy}

  -- The row `i` from the column `j` on, `n` dots, and the line's end.
  unfoldable pub dump_row : Bitmap → (i n j : ℕ) → List ℕ
  dump_row p i zero j = 0xA ∷ []
  dump_row p i (suc n) j = (if tstb p i j then hash else dash) ∷ dump_row p i n (j + 1)

  unfoldable pub dump_rows : Bitmap → (n i : ℕ) → File
  dump_rows p zero i = []
  dump_rows p (suc n) i = dump_row p i (width p) 0 ∷ dump_rows p n (i + 1)

  -- The lines that are printed.
  unfoldable pub dumpchar : Bitmap → File
  dumpchar p = if not (height p == 0) && not (width p == 0) then dump_rows p (height p) 0 else []

  -- A glyph while the font is imported; without a bitmap when `bm` is null.
  pub record Slot : Type 0 where
    pub metrics : Metrics
    pub bm : Option Bitmap

  -- `memset`
  abbrev pub empty_slot : Slot
  empty_slot = record {
    metrics = record {
      lbearing = pos 0;
      rbearing = pos 0;
      ascent = pos 0;
      descent = pos 0;
      width = pos 0;
    };
    bm = none;
  }

  -- The `switch` on `buf[j]`.
  unfoldable pub import_dot : (i j c : ℕ) → Bitmap → Result Bitmap
  import_dot i j c bm =
      if c == hash then ok (setb bm i j) else if c == dash then ok bm else err fatal

  -- The loop over `n` columns from `j` on. The NUL at the end of the buffer is no dot.
  unfoldable pub import_row : (i n j : ℕ) → (buf : List ℕ) → Bitmap → Result Bitmap
  import_row i zero j buf bm = ok bm
  import_row i (suc n) j [] bm = err fatal
  import_row i (suc n) j (c ∷ buf) bm = elim (import_dot i j c bm) [
    | err why ↦ err why
    | ok bm' ↦ import_row i n (j + 1) buf bm'
  ]

  -- The loop over `n` rows from `i` on, of `w` columns.
  unfoldable pub import_rows : (w n i : ℕ) → File → Bitmap → Result (Bitmap × File)
  import_rows w zero i file bm = ok (bm, file)
  import_rows w (suc n) i [] bm = err fatal
  import_rows w (suc n) i (buf ∷ rest) bm = elim (import_row i w 0 buf bm) [
    | err why ↦ err why
    | ok bm' ↦ import_rows w n (i + 1) rest bm'
  ]

  unfoldable pub import_bitmap : (h w : ℕ) → File → Result (Bitmap × File)
  import_bitmap h w file =
      if ltb 0 h && ltb 0 w then import_rows w h 0 file (buy h w) else ok (buy h w, file)

  -- `import_glyph` from the scan of the metrics on, for the glyph `idx`.
  unfoldable pub import_at : Scanner → List Slot → ℕ → File → Result (Bool × List Slot × File)
  import_at scan glyphs idx file =
      let g = get_or glyphs idx empty_slot in
      let s = scan.metrics_of g.metrics file in
      let m = s.metrics in
      if not (s.count == 5)
      then ok (false, set glyphs idx (record g { metrics = m }), s.rest)
      else if ltb_ℤ (m.ascent +ℤ m.descent) (pos 0)
      then err fatal
      else if ltb_ℤ m.rbearing m.lbearing
      then err fatal
      else elim (import_bitmap (pos_part (m.ascent +ℤ m.descent))
          (pos_part (m.rbearing -ℤ m.lbearing)) s.rest) [
            | err why ↦ err why
            | ok (bm, rest) ↦
                ok (
                  true,
                  set glyphs idx (record { metrics = m; bm = some bm }),
                  skip_nonexistent rest,
                )
          ]

  -- Whether it found a glyph, the glyphs, and what is left of the file. A number from 2^31 on makes
  -- `idx` negative.
  unfoldable pub import_glyph : Scanner → List Slot → File → Result (Bool × List Slot × File)
  import_glyph scan glyphs [] = ok (false, glyphs, [])
  import_glyph scan glyphs (buf ∷ rest) = elim (scan.char_index buf) [
    | none ↦ ok (false, glyphs, rest)
    | some idx ↦
        if ltb_ℤ (pos 255) idx
        then err fatal
        else if ltb_ℤ idx (pos 0)
        then err wild_pointer
        else import_at scan glyphs (pos_part idx) rest
  ]

  -- while (import_glyph(pf, f));
  unfoldable pub import_glyphs : Scanner → (fuel : ℕ) → List Slot → File → Result (List Slot)
  import_glyphs scan zero glyphs file = err out_of_fuel
  import_glyphs scan (suc fuel) glyphs file = elim (import_glyph scan glyphs file) [
    | err why ↦ err why
    | ok (found, glyphs', rest) ↦ elim found [
      | false ↦ ok glyphs'
      | true ↦ import_glyphs scan fuel glyphs' rest
    ]
  ]

  -- A glyph that is not defined gets an empty bitmap.
  unfoldable pub fill_gap : Slot → Font.Glyph L
  fill_gap g = record {
    ascent = g.metrics.ascent;
    descent = g.metrics.descent;
    lbearing = g.metrics.lbearing;
    rbearing = g.metrics.rbearing;
    width = g.metrics.width;
    bm = elim g.bm [ none ↦ buy 0 0 | some bm ↦ bm ];
  }

  unfoldable pub fill_gaps : List Slot → List (Font.Glyph L)
  fill_gaps glyphs = map fill_gap glyphs
