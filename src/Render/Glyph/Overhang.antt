-- ===== src/Render/Glyph/Overhang.antt =====
-- The dots of a glyph that would fall off the right of the label: the width test of `put_glyph`
-- adds the right bearing to a column that has the left bearing in it already.
use slap.Base.{ℕ, ◌+◌, ◌≤◌, ◌<◌, ◌≡◌, ◌⊎◌, inl, inr, refl, true, ◌&&◌, ltb, arith, Bool-cases}
use slap.Base.Int.{◌+ℤ◌, ◌-ℤ◌}
use slap.Base.Words.{add32, sub32, to_u32}
use slap.Base.Result.{ok, err, assertion}
use slap.Base.Loops.{for_range-err, for_range-cases}
use slap.Bitmap.{BitmapLib}
use slap.Font
use slap.Render.Glyph.{
  Arena, set_labelimage_bit, put_dot, put_row, put_rows, start_col, fits, put_glyph,
}
use slap.Render.Glyph.Place.{IsShort}

module _ (L : BitmapLib) where
  open L use {Bitmap, width, tstb}

  module _ (gm : Bitmap) (row col vheight vwidth : ℕ) where
    abbrev DotAt : ℕ → ℕ → Arena L → Type 0
    DotAt i j a =
        ((b : Arena L) × (put_dot L gm row col vheight vwidth i j a ≡ ok b))
        ⊎ (put_dot L gm row col vheight vwidth i j a ≡ err assertion)

    put_dot-cases : (i j : ℕ) (a : Arena L) → DotAt i j a
    unfolding put_dot set_labelimage_bit
    put_dot-cases i j a = elim (Bool-cases (tstb gm i j)) [
      | inr e ↦ rw e (inl (a, refl))
      | inl e ↦ elim (Bool-cases (ltb (add32 row i) vheight && ltb (add32 col j) vwidth)) [
        | inl f ↦ rw (e, f) (inl (_, refl))
        | inr f ↦ rw (e, f) (inr refl)
      ]
    ]

    put_dot-outside :
        (i j : ℕ) (a : Arena L)
        → tstb gm i j ≡ true
        → vwidth ≤ add32 col j
        → put_dot L gm row col vheight vwidth i j a ≡ err assertion
    unfolding put_dot set_labelimage_bit
    put_dot-outside i j a e h = ground arith

    put_rows-outside :
        (m i j : ℕ) (a : Arena L)
        → i < m
        → j < width gm
        → tstb gm i j ≡ true
        → vwidth ≤ add32 col j
        → put_rows L gm m row col vheight vwidth a ≡ err assertion
    unfolding put_rows put_row
    put_rows-outside m i j a p q e h =
        for_range-err _ assertion m 0 i a (omega arith) (omega arith)
          (λ k b. for_range-cases _ assertion (width gm) 0 b (put_dot-cases k))
          (λ b.
            for_range-err _ assertion (width gm) 0 j b (omega arith) (omega arith) (put_dot-cases i)
              (λ c. put_dot-outside i j c e h))

  module _ (g : Font.Glyph L) (row col vheight vwidth : ℕ) where
    start_col_small : IsShort g.lbearing → col < 2147483648 → start_col L g col < 2147516416
    unfolding start_col ◌-ℤ◌
    start_col_small s h = ground arith

    -- When the test lets a glyph through that has a dot beyond the right edge of the label, the
    -- assertion of `set_labelimage_bit` fails and the program aborts.
    pub put_glyph_overhang :
        (a : Arena L) (i j : ℕ)
        → IsShort g.lbearing
        → col < 2147483648
        → fits L g row (start_col L g col) vheight vwidth ≡ true
        → i < to_u32 (g.ascent +ℤ g.descent)
        → j < width g.bm
        → j < 65536
        → tstb g.bm i j ≡ true
        → vwidth ≤ start_col L g col + j
        → put_glyph L a row col vheight vwidth g ≡ err assertion
    unfolding put_glyph
    put_glyph_overhang a i j s small f p q jsmall e h =
        let bound = start_col_small s small in
        let out : vwidth ≤ add32 (start_col L g col) j = omega arith in
        rw (
          f,
          put_rows-outside g.bm (sub32 row (to_u32 g.ascent)) (start_col L g col) vheight vwidth
              (to_u32 (g.ascent +ℤ g.descent)) i j a p q e out,
        )
