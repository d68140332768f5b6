-- ===== src/Render/Glyph.antt =====
-- `set_labelimage_bit` and `put_glyph` of slap/render.c.
pub mod Drawn
pub mod Blit
pub mod Place
pub mod Overhang
use slap.Base.{
  ℕ, ◌+◌, ◌-◌, ◌≤◌, ◌<◌, ◌≡◌, Bool, true, false, ◌&&◌, if◌then◌else◌, ltb, leb, ◌==◌, not,
}
use slap.Base.Int.{ℤ, pos, ◌+ℤ◌, ◌-ℤ◌, ltb_ℤ}
use slap.Base.Words.{add32, sub32, to_u32}
use slap.Base.Result.{Result, ok, err, assertion, ◌>>=◌}
use slap.Base.Loops.{for_range}
use slap.Bitmap.{BitmapLib}
use slap.Font
use slap.Font.{Font}

module _ (L : BitmapLib) where
  open L use {Bitmap, height, width, tstb, setb}

  -- `ARENA` of slap/slap.h
  pub record Arena : Type 0 where
    pub bm : Bitmap
    pub dirty : Bool

  unfoldable pub set_labelimage_bit : Arena → (row col vheight vwidth : ℕ) → Result Arena
  set_labelimage_bit a row col vheight vwidth =
      if ltb row vheight && ltb col vwidth
      then ok (
          if not (height a.bm == vheight)
          then record { bm = setb a.bm col ((vheight - 1) - row); dirty = true }
          else record { bm = setb a.bm row col; dirty = true })
      else err assertion

  -- The body of the inner loop of `put_glyph`.
  unfoldable pub put_dot : Bitmap → (row col vheight vwidth i j : ℕ) → Arena → Result Arena
  put_dot gm row col vheight vwidth i j a =
      if tstb gm i j then set_labelimage_bit a (add32 row i) (add32 col j) vheight vwidth else ok a

  -- The inner loop over the columns of row `i` of the glyph.
  unfoldable pub put_row : Bitmap → (row col vheight vwidth i : ℕ) → Arena → Result Arena
  put_row gm row col vheight vwidth i = for_range (width gm) 0 (put_dot gm row col vheight vwidth i)

  -- The two loops, over `lines` rows of the glyph.
  unfoldable pub put_rows : Bitmap → (lines row col vheight vwidth : ℕ) → Arena → Result Arena
  put_rows gm lines row col vheight vwidth = for_range lines 0 (put_row gm row col vheight vwidth)

  -- A left bearing that would leave the bitmap on the left.
  abbrev pub hangs_out : Font.Glyph L → ℕ → Bool
  hangs_out g col = ltb_ℤ g.lbearing (pos 0) && ltb col (to_u32 (pos 0 -ℤ g.lbearing))

  -- `col` and `extrawidth` after the first `if`.
  unfoldable pub start_col : Font.Glyph L → ℕ → ℕ
  start_col g col = if hangs_out g col then 0 else add32 col (to_u32 g.lbearing)

  unfoldable pub extra_width : Font.Glyph L → ℕ → ℤ
  extra_width g col = if hangs_out g col then pos 0 -ℤ g.lbearing else pos 0

  -- The condition under which the glyph is drawn, `col` being the starting column.
  unfoldable pub fits : Font.Glyph L → (row col vheight vwidth : ℕ) → Bool
  fits g row col vheight vwidth =
      leb (add32 col (to_u32 g.rbearing)) vwidth
      && leb (to_u32 g.ascent) row
      && leb (add32 row (to_u32 g.descent)) vheight

  -- The column where the next glyph has its origin.
  unfoldable pub next_col : Font.Glyph L → ℕ → ℕ
  next_col g col = add32 (add32 (start_col g col) (to_u32 g.width)) (to_u32 (extra_width g col))

  -- Only the arena and the returned column are left when `put_glyph` returns.
  unfoldable pub put_glyph :
      Arena → (row col vheight vwidth : ℕ) → Font.Glyph L → Result (Arena × ℕ)
  put_glyph a row col vheight vwidth g =
      let c = start_col g col in
      if fits g row c vheight vwidth
      then (do
        b ←
            put_rows g.bm (to_u32 (g.ascent +ℤ g.descent)) (sub32 row (to_u32 g.ascent)) c vheight
              vwidth a
        ok (b, next_col g col))
      else ok (a, next_col g col)
