-- ===== src/Render/Page/Copies.antt =====
-- Each copy of a file is the same.
use slap.Base.{
  ℕ, zero, suc, ◌≡◌, refl, ◌∙◌, Bool, not, ◌&&◌, ◌==◌, arith, if-both, ltb, leb, List, [], ◌∷◌,
  ◌++◌,
}
use slap.Base.Result.{
  Result, ok, err, fatal, ◌>>=◌, Keeps, Keeps-bind, Keeps-if, Keeps-ok, Keeps-trivial,
}
use slap.Base.Loops.{for_range-Keeps}
use slap.Base.Int.{◌+ℤ◌}
use slap.Base.Words.{add32, to_u32}
use slap.Bitmap.{BitmapLib}
use slap.Font
use slap.Font.{Font, glyph_of}
use slap.Render.Glyph.{
  Arena, set_labelimage_bit, put_dot, put_row, put_rows, put_glyph, start_col, fits,
}
use slap.Render.Overstrike.{overstrike}
use slap.Render.Page.{
  tab_loop, Job, Page, blank, flush, new_label, line_feed, render_char, render_chars, render_lines,
  job, render1, render,
}
use slap.Render.Page.Sound.{blank-SameSize}

module _ (L : BitmapLib) where
  open L use {Bitmap, height, width, tstb, height-setb, width-setb, clr-ext}

  -- The arena's bitmap has this size.
  HasSize : (h w : ℕ) → Arena L → Type 0
  HasSize h w a = (height a.bm ≡ h) × (width a.bm ≡ w)

  module _ (h w : ℕ) where
    set_labelimage_bit-HasSize :
        (row col vheight vwidth : ℕ) (a : Arena L)
        → HasSize h w a
        → Keeps (HasSize h w) (set_labelimage_bit L a row col vheight vwidth)
    unfolding set_labelimage_bit HasSize
    set_labelimage_bit-HasSize row col vheight vwidth a s =
        Keeps-if (HasSize h w) (ltb row vheight && ltb col vwidth) _ _
          (if-both (HasSize h w) (not (height a.bm == vheight)) _ _
            (height-setb _ _ _ ∙ s.0, width-setb _ _ _ ∙ s.1)
            (height-setb _ _ _ ∙ s.0, width-setb _ _ _ ∙ s.1))
          tt

    put_rows-HasSize :
        (gm : Bitmap) (m row col vheight vwidth : ℕ) (a : Arena L)
        → HasSize h w a
        → Keeps (HasSize h w) (put_rows L gm m row col vheight vwidth a)
    unfolding put_rows put_row put_dot
    put_rows-HasSize gm m row col vheight vwidth a s =
        for_range-Keeps (HasSize h w) _
          (λ i t s'.
            for_range-Keeps (HasSize h w) _
              (λ k u s''.
                Keeps-if (HasSize h w) (tstb gm i k) _ (ok u)
                  (set_labelimage_bit-HasSize _ _ _ _ u s'') s'')
              (width gm) 0 t s')
          m 0 a s

    put_glyph-HasSize :
        (row col vheight vwidth : ℕ) (g : Font.Glyph L) (a : Arena L)
        → HasSize h w a
        → Keeps (λ (b, n). HasSize h w b) (put_glyph L a row col vheight vwidth g)
    unfolding put_glyph
    put_glyph-HasSize row col vheight vwidth g a s =
        Keeps-if _ (fits L g row (start_col L g col) vheight vwidth) _ (ok _)
          (Keeps-bind (HasSize h w) _ (put_rows L g.bm _ _ _ vheight vwidth a) _
            (put_rows-HasSize g.bm _ _ _ vheight vwidth a s) (λ b t. t))
          s

    abbrev Sized : Page L → Type 0
    Sized p = HasSize h w p.arena

    blank-HasSize : (boxed : Bool) (a : Arena L) → HasSize h w a → HasSize h w (blank L boxed a.bm)
    unfolding HasSize
    blank-HasSize boxed a s = let z = blank-SameSize L boxed a.bm in (z.0 ∙ s.0, z.1 ∙ s.1)

    flush-Sized : (p : Page L) → Sized p → Sized (flush L p)
    unfolding flush HasSize
    flush-Sized p s = ground arith

    new_label-Sized : (j : Job L) (p : Page L) → Sized p → Sized (new_label L j p)
    unfolding new_label
    new_label-Sized j p s = blank-HasSize j.boxed p.arena s

    line_feed-Sized : (j : Job L) (p : Page L) → Sized p → Sized (line_feed L j p)
    unfolding line_feed
    line_feed-Sized j p s =
        if-both Sized (leb j.vheight _) (new_label L j _) _
          (new_label-Sized j (flush L _) (flush-Sized _ s)) s

    render_char-Sized :
        (j : Job L) (p : Page L) (c : ℕ) → Sized p → Keeps Sized (render_char L j p c)
    unfolding render_char
    render_char-Sized j p c s =
        Keeps-if Sized _ _ _
          (Keeps-bind (λ (a, n). HasSize h w a) Sized (put_glyph L p.arena p.row p.col _ _ _) _
            (put_glyph-HasSize p.row p.col _ _ _ p.arena s) (λ b t. t))
          (Keeps-if Sized (c == b'\t') _ _
            (Keeps-bind (λ _. Unit {0}) Sized (tab_loop _ _ p.col) _ (Keeps-trivial _) (λ n _. s))
            (Keeps-if Sized (c == b'\n') _ _
              (if-both Sized (j.squeeze && not p.arena.dirty) p _ s (line_feed-Sized j p s))
              (Keeps-if Sized (c == 13) (ok _) _ s (
                Keeps-if Sized (c == 12) (ok _) (ok _)
                  (new_label-Sized j (flush L p) (flush-Sized p s)) s))))

    render_chars-Sized :
        (j : Job L) (cs : List ℕ) (p : Page L) → Sized p → Keeps Sized (render_chars L j p cs)
    unfolding render_chars
    render_chars-Sized j [] p s = s
    render_chars-Sized j (c ∷ cs) p s =
        Keeps-bind Sized Sized (render_char L j p c) _ (render_char-Sized j p c s)
          (λ q t. render_chars-Sized j cs q t)

    render_lines-Sized :
        (j : Job L) (ls : List (List ℕ)) (p : Page L)
        → Sized p
        → Keeps Sized (render_lines L j p ls)
    unfolding render_lines
    render_lines-Sized j [] p s = s
    render_lines-Sized j (l ∷ ls) p s =
        Keeps-bind (λ _. Unit {0}) Sized (overstrike l) _ (Keeps-trivial _)
          (λ text _.
            Keeps-bind Sized Sized (render_chars L j p text) _ (render_chars-Sized j text p s)
              (λ q t. render_lines-Sized j ls q t))

    render1-HasSize :
        (a : Arena L) (lines : List (List ℕ)) (f : Font L) (portrait squeeze boxed : Bool)
        → HasSize h w a
        → Keeps (λ (labels, b). HasSize h w b) (render1 L a lines f portrait squeeze boxed)
    unfolding render1
    render1-HasSize a lines f portrait squeeze boxed s =
        let P : List (Arena L) × Arena L → Type 0 = λ x. HasSize h w x.1 in
        let j = job L f portrait squeeze boxed (Arena.bm (blank L boxed a.bm)) in
        let start : Page L = record {
          arena = blank L boxed a.bm;
          row = add32 0 (to_u32 f.ascent);
          col = 0;
          printed = [];
        } in
        let finish : Page L → Result (List (Arena L) × Arena L) =
          λ p. ok (Page.printed (flush L p), p.arena) in
        Keeps-if P (ltb j.vheight (to_u32 (f.ascent +ℤ f.descent))) (err fatal)
          (render_lines L j start lines >>= finish) tt
          (Keeps-bind Sized P (render_lines L j start lines) finish
            (render_lines-Sized j lines start (blank-HasSize boxed a s)) (λ p t. t))

  -- What a copy prints depends on the size of the arena's bitmap alone.
  blank-eq :
      (boxed : Bool) (a b : Arena L)
      → (height a.bm ≡ height b.bm)
      → (width a.bm ≡ width b.bm)
      → blank L boxed a.bm ≡ blank L boxed b.bm
  unfolding blank
  blank-eq boxed a b h w = rw (clr-ext a.bm b.bm h w)

  pub render1-eq :
      (a b : Arena L) (lines : List (List ℕ)) (f : Font L) (portrait squeeze boxed : Bool)
      → (height a.bm ≡ height b.bm)
      → (width a.bm ≡ width b.bm)
      → render1 L a lines f portrait squeeze boxed ≡ render1 L b lines f portrait squeeze boxed
  unfolding render1
  render1-eq a b lines f portrait squeeze boxed h w = rw (blank-eq boxed a b h w)

  pub final_size :
      (a b : Arena L) (labels : List (Arena L)) (lines : List (List ℕ)) (f : Font L)
      (portrait squeeze boxed : Bool)
      → render1 L a lines f portrait squeeze boxed ≡ ok (labels, b)
      → (height b.bm ≡ height a.bm) × (width b.bm ≡ width a.bm)
  unfolding HasSize
  final_size a b labels lines f portrait squeeze boxed e =
      Keeps-ok (λ (x : List (Arena L) × Arena L). HasSize (height a.bm) (width a.bm) x.1)
        (render1 L a lines f portrait squeeze boxed)
        (render1-HasSize (height a.bm) (width a.bm) a lines f portrait squeeze boxed (refl, refl)) e

  -- `n` copies of a list.
  abbrev pub copies : ℕ → List (Arena L) → List (Arena L)
  copies zero labels = []
  copies (suc n) labels = labels ++ copies n labels

  -- If one copy prints some labels, any number of copies prints these labels that often, with
  -- nothing left over from one copy to the next.
  pub render-copies :
      (n : ℕ) (a b : Arena L) (labels : List (Arena L)) (lines : List (List ℕ)) (f : Font L)
      (portrait squeeze boxed : Bool)
      → render1 L a lines f portrait squeeze boxed ≡ ok (labels, b)
      → render L (suc n) a lines f portrait squeeze boxed ≡ ok (copies (suc n) labels, b)
  unfolding render
  render-copies zero a b labels lines f portrait squeeze boxed e = rw e refl
  render-copies (suc n) a b labels lines f portrait squeeze boxed e =
      let z = final_size a b labels lines f portrait squeeze boxed e in
      let again = render1-eq b a lines f portrait squeeze boxed z.0 z.1 ∙ e in
      rw (e, render-copies n b b labels lines f portrait squeeze boxed again)
