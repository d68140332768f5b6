-- ===== src/Render/Page.antt =====
-- `render1` and `render` of slap/render.c: the loops over the text, and the labels they print.
pub mod Tab
pub mod Sound
pub mod Steps
pub mod Labels
pub mod Copies
use slap.Base.{
  ℕ, zero, suc, ◌+◌, ◌/◌, ◌%◌, Bool, true, false, not, ◌&&◌, List, [], ◌∷◌, ◌++◌, ◌==◌, ltb, leb,
  max, min, if◌then◌else◌,
}
use slap.Base.Int.{ℤ, pos, negsuc, ◌+ℤ◌}
use slap.Base.Words.{add32, to_u32}
use slap.Base.Result.{Result, ok, err, division, fatal, out_of_fuel, ◌>>=◌}
use slap.Bitmap.{BitmapLib}
use slap.Font
use slap.Font.{Font, glyph_of}
use slap.Render.Glyph.{Arena, put_glyph}
use slap.Render.Overstrike.{overstrike}
use slap.Render.Box.{boxit}

abbrev pub is_zero : ℤ → Bool
is_zero (pos n) = n == 0
is_zero (negsuc n) = false

-- `do col += spacewidth; while ((col / spacewidth) % TABSIZE);` with TABSIZE 8. The division is
-- made in the first round, whatever the space width.
unfoldable pub tab_loop : (fuel spacewidth col : ℕ) → Result ℕ
tab_loop zero spacewidth col = err out_of_fuel
tab_loop (suc fuel) spacewidth col =
    let c = add32 col spacewidth in
    let rest = tab_loop fuel spacewidth c in
    if spacewidth == 0 then err division else if (c / spacewidth) % 8 == 0 then ok c else rest

-- The rounds that are enough when `col` does not wrap.
abbrev pub tab_rounds : ℕ
tab_rounds = 8

module _ (L : BitmapLib) where
  open L use {Bitmap, height, width, clr}

  -- `for (spacewidth = 0, p = " mM_"; !spacewidth && *p; ++p)`, over the characters of the string.
  unfoldable pub find_spacewidth : Font L → List ℕ → ℕ
  find_spacewidth f [] = 0
  find_spacewidth f (c ∷ cs) =
      let w = width (Font.Glyph.bm (glyph_of L f c)) in
      let rest = find_spacewidth f cs in if w == 0 then rest else w

  abbrev pub space_candidates : List ℕ
  space_candidates = b' ' ∷ b'm' ∷ b'M' ∷ b'_' ∷ []

  -- The parameters and the locals of `render1` that its loop leaves alone.
  pub record Job : Type 0 where
    pub font : Font L
    pub squeeze : Bool
    pub boxed : Bool
    pub vheight : ℕ
    pub vwidth : ℕ
    pub spacewidth : ℕ

  -- What the loop changes: the arena of the session, the position, and the labels sent to the
  -- driver so far.
  pub record Page : Type 0 where
    pub arena : Arena L
    pub row : ℕ
    pub col : ℕ
    pub printed : List (Arena L)

  -- `mbm_clr`, `boxit` if asked for, and `dirty = NO`.
  unfoldable pub blank : (boxed : Bool) → Bitmap → Arena L
  blank boxed b = record { bm = if boxed then boxit L (clr b) else clr b; dirty = false }

  -- Print the label if it is dirty.
  unfoldable pub flush : Page → Page
  flush p = if p.arena.dirty then record p { printed = p.printed ++ p.arena ∷ [] } else p

  -- Start a new label.
  unfoldable pub new_label : Job → Page → Page
  new_label j p = record p {
    arena = blank j.boxed p.arena.bm;
    row = add32 0 (to_u32 j.font.ascent);
    col = 0;
  }

  -- The case of a line-feed that is not suppressed.
  unfoldable pub line_feed : Job → Page → Page
  line_feed j p =
      let r = add32 p.row (to_u32 (j.font.descent +ℤ j.font.ascent)) in
      if leb j.vheight (add32 r (to_u32 j.font.descent))
      then new_label j (flush (record p { row = r; col = 0 }))
      else record p { row = r; col = 0 }

  -- The body of the loop that renders the buffer, for the character `c`.
  unfoldable pub render_char : Job → Page → ℕ → Result Page
  render_char j p c =
      let g = glyph_of L j.font c in
      if not (is_zero g.width)
      then (do
        (a, n) ← put_glyph L p.arena p.row p.col j.vheight j.vwidth g
        ok (record p { arena = a; col = n }))
      else if c == b'\t'
      then (do n ← tab_loop tab_rounds j.spacewidth p.col; ok (record p { col = n }))
      else if c == b'\n'
      then ok (if j.squeeze && not p.arena.dirty then p else line_feed j p)
      else if c == 13
      then ok (record p { col = 0 })
      else if c == 12
      then ok (new_label j (flush p))
      else ok (record p { col = add32 p.col j.spacewidth })

  unfoldable pub render_chars : Job → Page → List ℕ → Result Page
  render_chars j p [] = ok p
  render_chars j p (c ∷ cs) = do q ← render_char j p c; render_chars j q cs

  -- The loop over the buffers that `fgets` delivers.
  unfoldable pub render_lines : Job → Page → List (List ℕ) → Result Page
  render_lines j p [] = ok p
  render_lines j p (l ∷ ls) = do text ← overstrike l; q ← render_chars j p text; render_lines j q ls

  -- The size of the label as the text sees it.
  unfoldable pub job : Font L → (portrait squeeze boxed : Bool) → Bitmap → Job
  job font portrait squeeze boxed b = record {
    font = font;
    squeeze = squeeze;
    boxed = boxed;
    vheight = if portrait then max (width b) (height b) else min (width b) (height b);
    vwidth = if portrait then min (width b) (height b) else max (width b) (height b);
    spacewidth = find_spacewidth font space_candidates;
  }

  -- One copy: the labels printed, and the arena as it is left.
  unfoldable pub render1 :
      Arena L
      → List (List ℕ)
      → Font L
      → (portrait squeeze boxed : Bool) → Result (List (Arena L) × Arena L)
  render1 a lines font portrait squeeze boxed =
      let start = blank boxed a.bm in
      let j = job font portrait squeeze boxed start.bm in
      if ltb j.vheight (to_u32 (font.ascent +ℤ font.descent)) then err fatal else (do
        p ←
            render_lines j
              (record { arena = start; row = add32 0 (to_u32 font.ascent); col = 0; printed = [] })
              lines
        ok ((flush p).printed, p.arena))

  -- `numcopies` copies of a file that is rewound before each.
  unfoldable pub render :
      (numcopies : ℕ)
      → Arena L
      → List (List ℕ)
      → Font L
      → (portrait squeeze boxed : Bool) → Result (List (Arena L) × Arena L)
  render zero a lines font portrait squeeze boxed = ok ([], a)
  render (suc n) a lines font portrait squeeze boxed = do
    (first, b) ← render1 a lines font portrait squeeze boxed
    (rest, c) ← render n b lines font portrait squeeze boxed
    ok (first ++ rest, c)
