-- ===== src/Font/File/RoundTrip.antt =====
-- A font that is saved is loaded again, but for its name; and what is loaded is sound.
use mathlib.Core.List.{append_assoc}
use slap.Base.{
  ℕ, zero, suc, ◌+◌, ◌*◌, ◌/◌, ◌%◌, ◌≤◌, ◌≡◌, ◌≢◌, refl, true, false, ◌==◌, List, [], ◌∷◌, ◌++◌,
  some, arith, All, length,
}
use slap.Base.Int.{ℤ, pos, negsuc}
use slap.Base.Words.{to_u16}
use slap.Bitmap.{BitmapLib}
use slap.Font
use slap.Font.{Font}
use slap.Font.File.{
  BitmapFiles, short_of, put_short, get_short, magic, get_magic, get_line, ends_cr, ◌>>=◌,
  checkfontmetrics, put_glyphs, savefont, get_glyph, get_glyphs, get_body, loadfont,
}
use slap.Render.Glyph.Place.{IsShort}

short_back : (z : ℤ) → IsShort z → short_of (to_u16 z % 256 + to_u16 z / 256 * 256) ≡ z
unfolding short_of
short_back (pos n) h = ground arith
short_back (negsuc n) h = ground arith

get_line-name :
    (name : List ℕ) (n : ℕ) (rest : List ℕ)
    → All (λ c. c ≢ 10) name
    → length name + 2 ≤ n
    → get_line n (name ++ (13 ∷ 10 ∷ rest)) ≡ some (name ++ 13 ∷ [], 10 ∷ [], rest)
unfolding get_line
get_line-name name zero rest h b = absurd (omega arith)
get_line-name [] (suc zero) rest h b = absurd (omega arith)
get_line-name [] (suc (suc n)) rest h b = refl
get_line-name (c ∷ name) (suc n) rest (h, hs) b =
    let e : (c == 10) ≡ false = ground arith in
    rw (◌>>=◌, get_line-name name n rest hs (omega arith), e) refl

ends_cr-name : (name : List ℕ) → ends_cr (name ++ 13 ∷ []) ≡ true
unfolding ends_cr
ends_cr-name [] = refl
ends_cr-name (c ∷ []) = refl
ends_cr-name (c ∷ d ∷ name) = ends_cr-name (d ∷ name)

module _ (L : BitmapLib) where
  -- Every metric is one that a `SHORT` holds.
  pub record HasShorts (g : Font.Glyph L) : Type 0 where
    pub ascent_short : IsShort g.ascent
    pub descent_short : IsShort g.descent
    pub lbearing_short : IsShort g.lbearing
    pub rbearing_short : IsShort g.rbearing
    pub width_short : IsShort g.width

  -- A font as the program holds it: 256 glyphs, and a name that is one line and leaves room for
  -- the line's end.
  pub record IsStorable (f : Font L) : Type 0 where
    pub ascent_short : IsShort f.ascent
    pub descent_short : IsShort f.descent
    pub glyphs_short : All HasShorts f.glyphs
    pub all_glyphs : length f.glyphs ≡ 256
    pub one_line : All (λ c. c ≢ 10) f.name
    pub short_name : length f.name ≤ 126

  module _ (files : BitmapFiles L) where
    open files use {save, load, load-save}

    get_glyphs-put :
        (gs : List (Font.Glyph L)) (rest : List ℕ)
        → All HasShorts gs
        → get_glyphs L files (length gs) (put_glyphs L files gs ++ rest) ≡ some (gs, rest)
    unfolding get_glyphs get_glyph put_glyphs put_short get_short
    get_glyphs-put [] rest h = refl
    get_glyphs-put (g ∷ gs) rest (h, hs) =
        rw
          (
            ◌>>=◌,
            append_assoc (save g.bm) (put_glyphs L files gs) rest,
            load-save g.bm (put_glyphs L files gs ++ rest),
            get_glyphs-put gs rest hs,
            short_back g.ascent h.ascent_short,
            short_back g.descent h.descent_short,
            short_back g.lbearing h.lbearing_short,
            short_back g.rbearing h.rbearing_short,
            short_back g.width h.width_short,
          )
          refl

    -- The font that is in the file: the name has the line's end in it, and the default glyph is not
    -- in the file.
    abbrev pub reread : (dg : ℕ) → Font L → Font L
    reread dg f = record f { name = f.name ++ 13 ∷ 10 ∷ []; dg = dg }

    -- The bytes of the file after the name's line.
    body : Font L → List ℕ
    body f = put_short f.ascent ++ put_short f.descent ++ put_glyphs L files f.glyphs

    get_glyphs-all :
        (f : Font L) (rest : List ℕ)
        → IsStorable f
        → get_glyphs L files 256 (put_glyphs L files f.glyphs ++ rest) ≡ some (f.glyphs, rest)
    get_glyphs-all f rest s = rw (← s.all_glyphs) (get_glyphs-put f.glyphs rest s.glyphs_short)

    reread-ok :
        (f : Font L) (dg : ℕ)
        → checkfontmetrics L f ≡ true
        → checkfontmetrics L (reread dg f) ≡ true
    unfolding checkfontmetrics
    reread-ok f dg ok = ok

    get_body-body :
        (f : Font L) (dg : ℕ) (rest : List ℕ)
        → IsStorable f
        → checkfontmetrics L f ≡ true
        → get_body L files dg (f.name ++ 13 ∷ 10 ∷ []) (body f ++ rest) ≡ some (reread dg f, rest)
    unfolding get_body body put_short get_short
    get_body-body f dg rest s ok =
        rw
          (
            ◌>>=◌,
            get_glyphs-all f rest s,
            short_back f.ascent s.ascent_short,
            short_back f.descent s.descent_short,
            reread-ok f dg ok,
          )
          refl

    loadfont-body :
        (f : Font L) (dg : ℕ) (rest : List ℕ)
        → IsStorable f
        → checkfontmetrics L f ≡ true
        → loadfont L files dg (magic ++ (0 ∷ (f.name ++ (13 ∷ 10 ∷ (body f ++ rest)))))
          ≡ some (reread dg f, rest)
    unfolding loadfont get_magic
    loadfont-body f dg rest s ok =
        let line =
          get_line-name f.name 128 (body f ++ rest) s.one_line (omega (arith, s.short_name)) in
        let name : (f.name ++ 13 ∷ []) ++ 10 ∷ [] ≡ f.name ++ 13 ∷ 10 ∷ [] =
          append_assoc f.name (13 ∷ []) (10 ∷ []) in
        rw (◌>>=◌, line, ends_cr-name f.name, name) (get_body-body f dg rest s ok)

    -- A font with sound metrics is saved, and from the bytes, whatever comes after them, the same
    -- font is loaded, but that its name has got the line's end and its default glyph is lost.
    pub loadfont-savefont :
        (f : Font L) (dg : ℕ) (rest : List ℕ)
        → IsStorable f
        → checkfontmetrics L f ≡ true
        → (bytes : List ℕ) × (savefont L files f ≡ some bytes)
          × (loadfont L files dg (bytes ++ rest) ≡ some (reread dg f, rest))
    unfolding savefont body
    loadfont-savefont f dg rest s ok =
        let again : (f.name ++ (13 ∷ 10 ∷ body f)) ++ rest
            ≡ f.name ++ (13 ∷ 10 ∷ (body f ++ rest)) =
          append_assoc f.name (13 ∷ 10 ∷ body f) rest in
        (
          magic ++ (0 ∷ (f.name ++ (13 ∷ 10 ∷ body f))),
          rw ok refl,
          rw again (loadfont-body f dg rest s ok),
        )
