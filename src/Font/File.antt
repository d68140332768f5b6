-- ===== src/Font/File.antt =====
-- Font files: `checkfontmetrics` of slap/chekfont.c, `savefont` of slap/savefont.c and `loadfont`
-- of slap/loadfont.c. A file is the bytes from its position on; a write does not fail.
pub mod RoundTrip
use slap.Base.{
  ℕ, zero, suc, ◌+◌, ◌-◌, ◌*◌, ◌/◌, ◌%◌, Bool, true, false, not, ◌&&◌, ◌||◌, ◌==◌, List, [], ◌∷◌,
  ◌++◌, Option, none, some, if◌then◌else◌, ltb, ◌≡◌,
}
use slap.Base.Int.{ℤ, pos, negsuc, ◌+ℤ◌, ◌-ℤ◌, ltb_ℤ}
use slap.Base.Words.{to_u16}
use slap.Bitmap.{BitmapLib}
use slap.Font
use slap.Font.{Font}

-- `mbm_save` and `mbm_load` of the bitmap library: a bitmap in a file is read back as it was.
pub record BitmapFiles (L : BitmapLib) : Type 0 where
  pub save : BitmapLib.Bitmap L → List ℕ
  pub load : List ℕ → Option (BitmapLib.Bitmap L × List ℕ)
  pub load-save : (b : BitmapLib.Bitmap L) (rest : List ℕ) → load (save b ++ rest) ≡ some (b, rest)

-- A `SHORT` from its sixteen bits.
unfoldable pub short_of : ℕ → ℤ
short_of n = if ltb n 32768 then pos n else negsuc (65535 - n)

-- `stols` and `fwrite`: the low byte first, whatever the machine.
unfoldable pub put_short : ℤ → List ℕ
put_short z = to_u16 z % 256 ∷ to_u16 z / 256 ∷ []

-- `fread` and `lstos`
unfoldable pub get_short : List ℕ → Option (ℤ × List ℕ)
get_short [] = none
get_short (a ∷ []) = none
get_short (a ∷ b ∷ rest) = some (short_of (a + b * 256), rest)

-- "<MBF", the version, CR and LF
abbrev pub magic : List ℕ
magic = 60 ∷ 77 ∷ 66 ∷ 70 ∷ 50 ∷ 13 ∷ 10 ∷ []

infixl 5 ◌>>=◌
abbrev pub ◌>>=◌ {ℓ κ} : {A : Type ℓ} {B : Type κ} → Option A → (A → Option B) → Option B
o >>= f = elim o [ none ↦ none | some a ↦ f a ]

-- The eight bytes at the start; the last of them, the flags, may be any.
unfoldable pub get_magic : List ℕ → Option (List ℕ)
get_magic (a ∷ b ∷ c ∷ d ∷ v ∷ r ∷ l ∷ flags ∷ rest) =
    if a == 60 && b == 77 && c == 66 && d == 70 && v == 50 && r == 13 && l == 10
    then some rest
    else none
get_magic _ = none

-- The loop that reads the name, for `n` bytes at most: the bytes before a LF, the LF if there is
-- one, and what follows.
unfoldable pub get_line : (n : ℕ) → List ℕ → Option (List ℕ × List ℕ × List ℕ)
get_line zero file = some ([], [], file)
get_line (suc n) [] = none
get_line (suc n) (c ∷ file) =
    let more = (do (line, lf, rest) ← get_line n file; some (c ∷ line, lf, rest)) in
    if c == 10 then some ([], c ∷ [], file) else more

-- The byte before the LF, or the last byte of all, is a CR.
unfoldable pub ends_cr : List ℕ → Bool
ends_cr [] = false
ends_cr (c ∷ []) = c == 13
ends_cr (c ∷ d ∷ line) = ends_cr (d ∷ line)

module _ (L : BitmapLib) where
  open L use {height, width}

  -- The tests on one glyph.
  unfoldable pub glyph_ok : (ascent descent : ℤ) → Font.Glyph L → Bool
  glyph_ok ascent descent g =
      not (ltb_ℤ ascent g.ascent)
      && not (ltb_ℤ descent g.descent)
      && not (ltb_ℤ (g.ascent +ℤ g.descent) (pos 0))
      && not (ltb_ℤ g.rbearing g.lbearing)
      && to_u16 (g.ascent +ℤ g.descent) == height g.bm
      && to_u16 (g.rbearing -ℤ g.lbearing) == width g.bm

  unfoldable pub glyphs_ok : (ascent descent : ℤ) → List (Font.Glyph L) → Bool
  glyphs_ok ascent descent [] = true
  glyphs_ok ascent descent (g ∷ gs) = glyph_ok ascent descent g && glyphs_ok ascent descent gs

  unfoldable pub checkfontmetrics : Font L → Bool
  checkfontmetrics f =
      not (ltb_ℤ (f.ascent +ℤ f.descent) (pos 0)) && glyphs_ok f.ascent f.descent f.glyphs

  module _ (files : BitmapFiles L) where
    open files use {save, load}

    unfoldable pub put_glyphs : List (Font.Glyph L) → List ℕ
    put_glyphs [] = []
    put_glyphs (g ∷ gs) =
        put_short g.ascent
        ++ put_short g.descent
        ++ put_short g.lbearing
        ++ put_short g.rbearing
        ++ put_short g.width
        ++ save g.bm
        ++ put_glyphs gs

    unfoldable pub savefont : Font L → Option (List ℕ)
    savefont f =
        if not (checkfontmetrics f)
        then none
        else some (
            magic
            ++ (0
                ∷ (f.name
                    ++ (13
                        ∷ 10
                        ∷ (put_short f.ascent ++ put_short f.descent ++ put_glyphs f.glyphs)))))

    unfoldable pub get_glyph : List ℕ → Option (Font.Glyph L × List ℕ)
    get_glyph file = do
      (a, f1) ← get_short file
      (d, f2) ← get_short f1
      (l, f3) ← get_short f2
      (r, f4) ← get_short f3
      (w, f5) ← get_short f4
      (b, f6) ← load f5
      some (record { ascent = a; descent = d; lbearing = l; rbearing = r; width = w; bm = b }, f6)

    unfoldable pub get_glyphs : (n : ℕ) → List ℕ → Option (List (Font.Glyph L) × List ℕ)
    get_glyphs zero file = some ([], file)
    get_glyphs (suc n) file = do
      (g, rest) ← get_glyph file
      (gs, end) ← get_glyphs n rest
      some (g ∷ gs, end)

    -- The rest of `loadfont` when the name is read.
    unfoldable pub get_body : (dg : ℕ) (name : List ℕ) → List ℕ → Option (Font L × List ℕ)
    get_body dg name file = do
      (a, f1) ← get_short file
      (d, f2) ← get_short f1
      (gs, f3) ← get_glyphs 256 f2
      let f : Font L = record { name = name; ascent = a; descent = d; dg = dg; glyphs = gs }
      if checkfontmetrics f then some (f, f3) else none

    -- `dg` is not read from the file: it is what the new memory holds.
    unfoldable pub loadfont : (dg : ℕ) → List ℕ → Option (Font L × List ℕ)
    loadfont dg file = do
      f1 ← get_magic file
      (line, lf, f2) ← get_line 128 f1
      if ends_cr line then get_body dg (line ++ lf) f2 else none
