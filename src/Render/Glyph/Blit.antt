-- ===== src/Render/Glyph/Blit.antt =====
-- The loops of `put_glyph`: what they draw.
use slap.Base.{
  ℕ, ◌+◌, ◌-◌, ◌≤◌, ◌<◌, ◌≡◌, inl, inr, Bool, false, ◌&&◌, ◌||◌, ltb, leb, ◌==◌, arith, Bool-cases,
}
use slap.Base.Words.{add32, u16_mod}
use slap.Base.Result.{Returns, returns, mono}
use slap.Base.Loops.{for_range-Returns}
use slap.Bitmap.{BitmapLib}
use slap.Render.Glyph.{Arena, put_dot, put_row, put_rows}
use slap.Render.Glyph.Drawn.{
  Oriented, Drawn, Oriented-Drawn, Drawn-nil, Drawn-ext, Drawn-trans, set_labelimage_bit-Drawn,
}

module _ (L : BitmapLib) where
  open L use {Bitmap, width, tstb}

  module _ (gm : Bitmap) (row col : ℕ) where
    -- Row `i` of the glyph, up to its column `n`, placed at (row, col).
    abbrev row_dots : (i n r c : ℕ) → Bool
    row_dots i n r c = (r == row + i) && (leb col c && ltb c (col + n)) && tstb gm i (c - col)

    -- The first `m` rows of the glyph placed at (row, col).
    abbrev pub glyph_dots : (m r c : ℕ) → Bool
    glyph_dots m r c =
        (leb row r && ltb r (row + m))
        && (leb col c && ltb c (col + width gm))
        && tstb gm (r - row) (c - col)

module _ (L : BitmapLib) (vheight vwidth : ℕ) (small_height : vheight < u16_mod)
    (small_width : vwidth < u16_mod) where
  open L use {Bitmap, width, tstb}

  module _ (gm : Bitmap) (row col : ℕ) where
    put_dot-Drawn :
        (i j : ℕ) (a : Arena L)
        → row + i < vheight
        → col + j < vwidth
        → Oriented L vheight vwidth a.bm
        → Returns
            (put_dot L gm row col vheight vwidth i j a)
            (λ b. Drawn L vheight vwidth a b (λ r c. tstb gm i j && (r == row + i && c == col + j)))
    unfolding put_dot
    put_dot-Drawn i j a p q o = elim (Bool-cases (tstb gm i j)) [
      | inl e ↦
          let ei : add32 row i ≡ row + i = omega arith in
          let ej : add32 col j ≡ col + j = omega arith in
          rw (e, ei, ej) (set_labelimage_bit-Drawn L vheight vwidth a (row + i) (col + j) p q o)
      | inr e ↦ rw e (returns a (Drawn-nil L vheight vwidth a))
    ]

    row_dots-suc :
        (i j r c : ℕ)
        → (tstb gm i j && (r == row + i && c == col + j) || row_dots L gm row col i j r c)
          ≡ row_dots L gm row col i (j + 1) r c
    row_dots-suc i j r c = elim (Bool-cases (c == col + j)) [
      | inl e ↦ let f : c - col ≡ j = ground arith in rw f (ground arith)
      | inr e ↦ ground arith
    ]

    row_dots-zero : (i r c : ℕ) → false ≡ row_dots L gm row col i 0 r c
    row_dots-zero i r c = ground arith

    put_row-Drawn :
        (i : ℕ) (a : Arena L)
        → row + i < vheight
        → col + width gm ≤ vwidth
        → Oriented L vheight vwidth a.bm
        → Returns
            (put_row L gm row col vheight vwidth i a)
            (λ b. Drawn L vheight vwidth a b (row_dots L gm row col i (width gm)))
    unfolding put_row
    put_row-Drawn i a p q o =
        for_range-Returns (λ j t. Drawn L vheight vwidth a t (row_dots L gm row col i j)) _
          (width gm) 0 _ a (omega arith)
          (λ j t lo hi d.
            mono (put_dot-Drawn i j t p (omega arith) (Oriented-Drawn L vheight vwidth d o)) (λ b e.
              Drawn-ext L vheight vwidth (row_dots L gm row col i (j + 1))
                (Drawn-trans L vheight vwidth d e) (λ r c _ _. row_dots-suc i j r c)))
          (Drawn-ext L vheight vwidth (row_dots L gm row col i 0) (Drawn-nil L vheight vwidth a)
            (λ r c _ _. row_dots-zero i r c))

    glyph_dots-suc :
        (i r c : ℕ)
        → (row_dots L gm row col i (width gm) r c || glyph_dots L gm row col i r c)
          ≡ glyph_dots L gm row col (i + 1) r c
    glyph_dots-suc i r c = elim (Bool-cases (r == row + i)) [
      | inl e ↦ let f : r - row ≡ i = ground arith in rw f (ground arith)
      | inr e ↦ ground arith
    ]

    glyph_dots-zero : (r c : ℕ) → false ≡ glyph_dots L gm row col 0 r c
    glyph_dots-zero r c = ground arith

    -- The two loops run to their end, and set exactly the dots of the glyph.
    pub put_rows-Drawn :
        (m : ℕ) (a : Arena L)
        → row + m ≤ vheight
        → col + width gm ≤ vwidth
        → Oriented L vheight vwidth a.bm
        → Returns
            (put_rows L gm m row col vheight vwidth a)
            (λ b. Drawn L vheight vwidth a b (glyph_dots L gm row col m))
    unfolding put_rows
    put_rows-Drawn m a p q o =
        for_range-Returns (λ i t. Drawn L vheight vwidth a t (glyph_dots L gm row col i)) _ m 0 m a
          (omega arith)
          (λ i t lo hi d.
            mono (put_row-Drawn i t (omega arith) q (Oriented-Drawn L vheight vwidth d o)) (λ b e.
              Drawn-ext L vheight vwidth (glyph_dots L gm row col (i + 1))
                (Drawn-trans L vheight vwidth d e) (λ r c _ _. glyph_dots-suc i r c)))
          (Drawn-ext L vheight vwidth (glyph_dots L gm row col 0) (Drawn-nil L vheight vwidth a)
            (λ r c _ _. glyph_dots-zero r c))
