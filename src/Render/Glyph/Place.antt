-- ===== src/Render/Glyph/Place.antt =====
-- `put_glyph` on the glyphs of a font that `checkfontmetrics` has accepted.
use slap.Base.{ℕ, ◌+◌, ◌≤◌, ◌<◌, ◌≡◌, inl, inr, refl, Bool, true, ◌&&◌, arith, Bool-cases}
use slap.Base.Int.{ℤ, pos, negsuc, ◌+ℤ◌, ◌-ℤ◌, ◌≤ℤ◌}
use slap.Base.Words.{add32, sub32, to_u32, to_u16, u16_mod}
use slap.Base.Result.{Returns, returns, bind}
use slap.Bitmap.{BitmapLib}
use slap.Font
use slap.Render.Glyph.{Arena, start_col, fits, next_col, put_glyph}
use slap.Render.Glyph.Drawn.{Oriented, Drawn, Drawn-nil, Drawn-ext}
use slap.Render.Glyph.Blit.{glyph_dots, put_rows-Drawn}

-- A value that a `SHORT` holds.
abbrev pub IsShort : ℤ → Type 0
IsShort (pos n) = n < 32768
IsShort (negsuc n) = n < 32768

module _ (L : BitmapLib) where
  open L use {Bitmap, height, width, tstb}

  -- What `checkfontmetrics` asks of a glyph by itself, with members of type `SHORT`.
  pub record IsSound (g : Font.Glyph L) : Type 0 where
    pub ascent_short : IsShort g.ascent
    pub descent_short : IsShort g.descent
    pub lbearing_short : IsShort g.lbearing
    pub rbearing_short : IsShort g.rbearing
    pub tall : pos 0 ≤ℤ g.ascent +ℤ g.descent
    pub wide : g.lbearing ≤ℤ g.rbearing
    pub bm_height : height g.bm ≡ to_u16 (g.ascent +ℤ g.descent)
    pub bm_width : width g.bm ≡ to_u16 (g.rbearing -ℤ g.lbearing)

  module _ (g : Font.Glyph L) (row vheight vwidth : ℕ) (sound : IsSound g)
      (small_row : row < u16_mod) (small_height : vheight < u16_mod)
      (small_width : vwidth < u16_mod) where
    rows_fit :
        (a d : ℤ)
        → IsShort a
        → IsShort d
        → pos 0 ≤ℤ a +ℤ d
        → to_u32 a ≤ row
        → add32 row (to_u32 d) ≤ vheight
        → sub32 row (to_u32 a) + to_u32 (a +ℤ d) ≤ vheight
    unfolding ◌+ℤ◌
    rows_fit (pos a) (pos d) sa sd t h k = ground arith
    rows_fit (pos a) (negsuc d) sa sd t h k = ground arith
    rows_fit (negsuc a) (pos d) sa sd t h k = ground arith
    rows_fit (negsuc a) (negsuc d) sa sd t h k = ground arith

    start_col-nonneg :
        (col : ℕ) → pos 0 ≤ℤ g.lbearing → start_col L g col ≡ add32 col (to_u32 g.lbearing)
    unfolding start_col
    start_col-nonneg col h = ground arith

    cols_fit :
        (l r : ℤ) (col : ℕ)
        → IsShort l
        → IsShort r
        → l ≤ℤ r
        → pos 0 ≤ℤ l
        → col < 2147483648
        → add32 (add32 col (to_u32 l)) (to_u32 r) ≤ vwidth
        → add32 col (to_u32 l) + to_u16 (r -ℤ l) ≤ vwidth
    unfolding ◌-ℤ◌
    cols_fit (pos l) (pos r) col sl sr o n b h = ground arith
    cols_fit (pos l) (negsuc r) col sl sr o n b h = absurd (omega arith)
    cols_fit (negsuc l) r col sl sr o n b h = absurd (omega arith)

    -- The dots of the label that the glyph covers: those of its bitmap, if it is drawn at all.
    abbrev pub placed : (col r c : ℕ) → Bool
    placed col r c =
        fits L g row (start_col L g col) vheight vwidth
        && glyph_dots L g.bm (sub32 row (to_u32 g.ascent)) (start_col L g col)
            (to_u32 (g.ascent +ℤ g.descent)) r c

    fits-true :
        (c : ℕ)
        → fits L g row c vheight vwidth ≡ true
        → (add32 c (to_u32 g.rbearing) ≤ vwidth)
          × (to_u32 g.ascent ≤ row)
          × (add32 row (to_u32 g.descent) ≤ vheight)
    unfolding fits
    fits-true c h = ground arith

    lines_fit :
        (c : ℕ)
        → fits L g row c vheight vwidth ≡ true
        → sub32 row (to_u32 g.ascent) + to_u32 (g.ascent +ℤ g.descent) ≤ vheight
    lines_fit c h =
        let f = fits-true c h in
        rows_fit g.ascent g.descent sound.ascent_short sound.descent_short sound.tall f.1 f.2

    width_fits :
        (col : ℕ)
        → col < 2147483648
        → pos 0 ≤ℤ g.lbearing
        → fits L g row (start_col L g col) vheight vwidth ≡ true
        → start_col L g col + width g.bm ≤ vwidth
    width_fits col small nonneg h =
        let e = start_col-nonneg col nonneg in
        let f = rw e at ((fits-true (start_col L g col) h).0) in
        rw (e, sound.bm_width)
          (cols_fit g.lbearing g.rbearing col sound.lbearing_short sound.rbearing_short sound.wide
            nonneg small f)

    pub put_glyph-Drawn :
        (a : Arena L) (col : ℕ)
        → col < 2147483648
        → pos 0 ≤ℤ g.lbearing
        → Oriented L vheight vwidth a.bm
        → Returns
            (put_glyph L a row col vheight vwidth g)
            (λ (b, n). (n ≡ next_col L g col) × Drawn L vheight vwidth a b (placed col))
    unfolding put_glyph
    put_glyph-Drawn a col small nonneg o =
        elim (Bool-cases (fits L g row (start_col L g col) vheight vwidth)) [
          | inr e ↦ rw e (
              returns (a, next_col L g col)
                (
                  refl,
                  Drawn-ext L vheight vwidth (placed col) (Drawn-nil L vheight vwidth a)
                      (λ r c _ _. rw e),
                ))
          | inl e ↦ rw e (
              bind _
                (put_rows-Drawn L vheight vwidth small_height small_width g.bm _ _ _ a
                  (lines_fit _ e) (width_fits col small nonneg e) o)
                (λ b d.
                  returns (b, next_col L g col)
                    (refl, Drawn-ext L vheight vwidth (placed col) d (λ r c _ _. rw e))))
        ]
