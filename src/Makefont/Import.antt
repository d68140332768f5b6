-- ===== src/Makefont/Import.antt =====
-- `import` and `main` of slap/makefont.c: from the dump of a font to a font file.
pub mod Glyphs
pub mod Name
pub mod Stored
use slap.Base.{
  ℕ, zero, suc, ◌+◌, ◌%◌, Bool, true, false, not, ◌&&◌, ◌==◌, leb, ltb, List, [], ◌∷◌, ◌++◌, Option,
  none, some, length, replicate, if◌then◌else◌,
}
use slap.Base.Int.{ℤ, pos}
use slap.Base.Result.{Result, ok, err, wild_pointer, ◌>>=◌}
use slap.Base.Text.{ascii}
use slap.Base.Words.{u16_mod}
use slap.Bitmap.{BitmapLib}
use slap.Font
use slap.Font.{Font, glyph_of}
use slap.Font.File.{BitmapFiles, savefont, loadfont}
use slap.Makefont.{File, Scanner, empty_slot, import_glyphs, fill_gaps, dumpchar}

-- The calls of `fscanf` and `sscanf` for the font as a whole: what they assign, if anything, and
-- what is left of the file. `default_char` and `max_bounds` are given what stood there before.
pub record Header : Type 0 where
  pub opened : File → File
  pub default_char : ℕ → File → ℕ × File
  pub min_bounds : File → File
  pub max_bounds : (ascent descent : ℤ) → File → ℤ × ℤ × File
  pub font_line : File → File
  pub family_name : List ℕ → Option (List ℕ)
  pub weight_name : List ℕ → Option (List ℕ)
  pub slant : List ℕ → Option (List ℕ)

-- `fgets`, where the buffer is not looked at.
unfoldable pub skip_line : File → File
skip_line [] = []
skip_line (buf ∷ rest) = rest

-- `f->name`, `weight` and `slant`, each up to its NUL.
pub record Names : Type 0 where
  pub name : List ℕ
  pub weight : List ℕ
  pub slant : List ℕ

abbrev pub no_names : Names
no_names = record { name = []; weight = []; slant = [] }

-- `FN_MAX`
abbrev pub fn_max : ℕ
fn_max = 128

-- A text goes to an array of `size` bytes, with its NUL.
unfoldable pub store : (size : ℕ) → (old : List ℕ) → Option (List ℕ) → Result (List ℕ)
store size old none = ok old
store size old (some text) = if ltb (length text) size then ok text else err wild_pointer

-- The body of the loop over the properties; the copyright is left out, as it is only printed.
unfoldable pub read_prop : Header → List ℕ → Names → Result Names
read_prop header buf names = do
  name ← store (fn_max + 1) names.name (header.family_name buf)
  weight ← store fn_max names.weight (header.weight_name buf)
  slant ← store 2 names.slant (header.slant buf)
  ok (record { name = name; weight = weight; slant = slant })

-- `isupper(buf[0])`
unfoldable pub starts_upper : List ℕ → Bool
starts_upper [] = false
starts_upper (c ∷ buf) = leb 65 c && leb c 90

-- The loop over the properties. The line that ends it is put back.
unfoldable pub read_props : Header → File → Names → Result (Names × File)
read_props header [] names = ok (names, [])
read_props header (buf ∷ rest) names =
    if starts_upper buf
    then (read_prop header buf names >>= λ more. read_props header rest more)
    else ok (names, buf ∷ rest)

abbrev pub hyphen : ℕ
hyphen = 0x2D

unfoldable pub slant_suffix : List ℕ → List ℕ
slant_suffix [] = []
slant_suffix (c ∷ more) =
    if c == 0x69
    then hyphen ∷ ascii "italic"
    else if c == 0x6F
    then hyphen ∷ ascii "oblique"
    else []

-- The whole name, if the font has a family, in the array `name` of the font.
unfoldable pub full_name : Names → Result (Option (List ℕ))
full_name names =
    let weight = if length names.weight == 0 then [] else hyphen ∷ names.weight in
    let name = names.name ++ weight ++ slant_suffix names.slant in
    if length names.name == 0
    then ok none
    else if ltb (length name) (fn_max + 1)
    then ok (some name)
    else err wild_pointer

module _ (L : BitmapLib) (header : Header) (scan : Scanner) (fuel : ℕ) where
  -- From the properties on, with the metrics of the font and its default glyph.
  unfoldable pub import_rest : (ascent descent : ℤ) (dg : ℕ) → File → Result (Option (Font L))
  import_rest ascent descent dg file = do
    (names, glyph_lines) ← read_props header file no_names
    found ← full_name names
    elim found [
      | none ↦ ok none
      | some name ↦ (do
        glyphs ← import_glyphs L scan fuel (replicate 256 (empty_slot L)) glyph_lines
        ok (
            some (record {
              name = name;
              ascent = ascent;
              descent = descent;
              dg = dg;
              glyphs = fill_gaps L glyphs;
            })))
    ]

  -- `n` is what the variable `n` holds at first. The scan of the XLFD is left out: what it stores
  -- is made empty again.
  unfoldable pub import : (n : ℕ) → File → Result (Option (Font L))
  import n file =
      let (dg, f1) = header.default_char n (skip_line (skip_line (header.opened file))) in
      let (ascent, descent, f2) = header.max_bounds (pos 0) (pos 0) (header.min_bounds f1) in
      import_rest ascent descent (dg % u16_mod) (header.font_line f2)

  module _ (files : BitmapFiles L) where
    -- How `main` ends: with a usage error, or with the file and what is printed in the end.
    pub data Ending : Type 0 where
      no_dump unreadable no_font no_target not_created not_saved not_loaded : Ending
      saved : (bytes : List ℕ) (printed : File) → Ending

    -- The last part: with `verbose` the file is loaded, and two glyphs are shown. `reopens` says
    -- that the new file can be read; `dg` is what the memory of the font that is loaded holds.
    unfoldable pub show_saved : (verbose reopens : Bool) (dg : ℕ) → List ℕ → Result Ending
    show_saved verbose reopens dg bytes =
        if not verbose
        then ok (saved bytes [])
        else if not reopens
        then err wild_pointer
        else elim (loadfont L files dg bytes) [
          | none ↦ ok not_loaded
          | some (f, rest) ↦
              ok (
                saved bytes
                  (dumpchar L (glyph_of L f 0x40).bm ++ dumpchar L (glyph_of L f 0x5D).bm))
        ]

    -- `main`: the dump is a name, if given, of a file, if it can be read; the target is a name, if
    -- given, that says whether the file can be made.
    unfoldable pub main :
        (verbose reopens : Bool) (n dg : ℕ) (dump : Option (Option File)) (target : Option Bool)
        → Result Ending
    main verbose reopens n dg none target = ok no_dump
    main verbose reopens n dg (some none) target = ok unreadable
    main verbose reopens n dg (some (some file)) target = do
      found ← import n file
      elim found [
        | none ↦ ok no_font
        | some f ↦ elim target [
          | none ↦ ok no_target
          | some created ↦ if not created then ok not_created else elim (savefont L files f) [
            | none ↦ ok not_saved
            | some bytes ↦ show_saved verbose reopens dg bytes
          ]
        ]
      ]
