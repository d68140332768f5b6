-- ===== src/Render/Page/Steps.antt =====
-- Each step of the renderer keeps the label safe.
use slap.Base.{
  ℕ, suc, ◌+◌, ◌-◌, ◌*◌, ◌/◌, ◌%◌, ◌≤◌, ◌<◌, ◌≡◌, refl, sym, subst, Bool, true, false, not, ◌&&◌,
  ◌==◌, leb, arith, Bool-cases, inl, inr, List, [], ◌∷◌, ◌++◌, All, All-append, if◌then◌else◌,
}
use slap.Base.Int.{◌+ℤ◌}
use slap.Base.Words.{add32, to_u32}
use slap.Base.Result.{ok, ◌>>=◌, Returns, returns, bind, if-Returns}
use slap.Bitmap.{BitmapLib}
use slap.Font
use slap.Font.{Font, glyph_of}
use slap.Render.Glyph.{Arena, put_glyph}
use slap.Render.Glyph.Drawn.{Oriented, HasDot, Drawn, Oriented-Drawn}
use slap.Render.Glyph.Place.{put_glyph-Drawn}
use slap.Render.Page.{
  is_zero, tab_loop, tab_rounds, Job, Page, blank, flush, new_label, line_feed, render_char,
}
use slap.Render.Page.Tab.{tab_loop-stop}
use slap.Render.Page.Sound.{IsFit, IsSafe, blank-SameSize, next_col-le}

pub blank-dirty :
    (L : BitmapLib) (boxed : Bool) (b : BitmapLib.Bitmap L) → Arena.dirty (blank L boxed b) ≡ false
unfolding blank
blank-dirty L boxed b = refl

module _ (L : BitmapLib) (step ascent descent : ℕ) (j : Job L)
    (fit : IsFit L step ascent descent j) where
  open L use {Bitmap, height, width}

  abbrev Safe : Page L → Type 0
  Safe = IsSafe L ascent descent j

  flush_dirty :
      (p : Page L)
      → p.arena.dirty ≡ true
      → flush L p ≡ record p { printed = p.printed ++ p.arena ∷ [] }
  unfolding flush
  flush_dirty p e = ground arith

  flush_clean : (p : Page L) → p.arena.dirty ≡ false → flush L p ≡ p
  unfolding flush
  flush_clean p e = ground arith

  flush-arena : (p : Page L) → Page.arena (flush L p) ≡ p.arena
  unfolding flush
  flush-arena p = ground arith

  abbrev pub AllMarked : List (Arena L) → Type 0
  AllMarked = All (λ (a : Arena L). HasDot L j.vheight j.vwidth a.bm)

  pub flush-printed :
      (p : Page L)
      → (p.arena.dirty ≡ true → HasDot L j.vheight j.vwidth p.arena.bm)
      → AllMarked p.printed
      → AllMarked (Page.printed (flush L p))
  flush-printed p m all = elim (Bool-cases p.arena.dirty) [
    | inr e ↦ subst (λ q. AllMarked (Page.printed q)) (sym (flush_clean p e)) all
    | inl e ↦
        subst (λ q. AllMarked (Page.printed q)) (sym (flush_dirty p e))
          (All-append _ p.printed (p.arena ∷ []) all (m e, tt))
  ]

  flush-Oriented :
      (p : Page L)
      → Oriented L j.vheight j.vwidth p.arena.bm
      → Oriented L j.vheight j.vwidth (Arena.bm (Page.arena (flush L p)))
  flush-Oriented p o =
      subst (λ (a : Arena L). Oriented L j.vheight j.vwidth a.bm) (sym (flush-arena p)) o

  pub new_label-IsSafe :
      (p : Page L)
      → Oriented L j.vheight j.vwidth p.arena.bm
      → All (λ (a : Arena L). HasDot L j.vheight j.vwidth a.bm) p.printed
      → Safe (new_label L j p)
  unfolding new_label
  new_label-IsSafe p o all =
      let z = blank-SameSize L j.boxed p.arena.bm in
      let a : add32 0 (to_u32 j.font.ascent) ≡ ascent =
        rw fit.ascent_eq (omega (arith, fit.fits, fit.height_small)) in
      record {
        oriented = ground (arith, z.0, z.1);
        above = omega (arith, a);
        below = omega (arith, a, fit.fits);
        marked = λ e. cc (blank-dirty L j.boxed p.arena.bm);
        printed = all;
      }

  -- Where the next line lies.
  next_row :
      (p : Page L)
      → Safe p
      → (add32 p.row (to_u32 (j.font.descent +ℤ j.font.ascent)) ≡ p.row + ascent + descent)
        × (add32 (p.row + ascent + descent) (to_u32 j.font.descent)
            ≡ p.row + ascent + descent + descent)
  unfolding ◌+ℤ◌
  next_row p s =
      rw (fit.ascent_eq, fit.descent_eq)
        (
          ground (arith, fit.fits, fit.height_small, s.below),
          ground (arith, fit.fits, fit.height_small, s.below),
        )

  -- The label after a line-feed.
  line_feed-IsSafe : (p : Page L) → Safe p → Safe (line_feed L j p)
  unfolding line_feed
  line_feed-IsSafe p s =
      let e = next_row p s in
      rw (e.0, e.1)
        (elim (Bool-cases (leb j.vheight (p.row + ascent + descent + descent))) [
          | inl h ↦ rw h (
              let q : Page L = record p { row = p.row + ascent + descent; col = 0 } in
              new_label-IsSafe (flush L q) (flush-Oriented q s.oriented)
                (flush-printed q s.marked s.printed))
          | inr h ↦ rw h (record {
            oriented = s.oriented;
            above = omega arith;
            below = ground arith;
            marked = s.marked;
            printed = s.printed;
          })
        ])

  -- A page whose line and printed labels stay, with a new arena and column.
  moved :
      (p : Page L) (a : Arena L) (n : ℕ)
      → Safe p
      → Oriented L j.vheight j.vwidth a.bm
      → (a.dirty ≡ true → HasDot L j.vheight j.vwidth a.bm)
      → Safe (record p { arena = a; col = n })
  moved p a n s o m = record {
    oriented = o;
    above = s.above;
    below = s.below;
    marked = m;
    printed = s.printed;
  }

  Drawn-marked :
      {a b : Arena L} {D : ℕ → ℕ → Bool}
      → Drawn L j.vheight j.vwidth a b D
      → (a.dirty ≡ true → HasDot L j.vheight j.vwidth a.bm)
      → b.dirty ≡ true
      → HasDot L j.vheight j.vwidth b.bm
  Drawn-marked {a} {b} d m e = elim d.marked [
    | inr h ↦ h.1
    | inl same ↦
        subst (λ (x : Arena L). HasDot L j.vheight j.vwidth x.bm) (sym same)
          (m (subst (λ (x : Arena L). x.dirty ≡ true) same e))
  ]

  -- The case of a printing character.
  glyph_case :
      (n : ℕ) (p : Page L) (c : ℕ)
      → Safe p
      → p.col + suc n * step < 2147483648
      → Returns
          (do
            (a, k) ← put_glyph L p.arena p.row p.col j.vheight j.vwidth (glyph_of L j.font c)
            ok (let q : Page L = record p { arena = a; col = k } in q))
          (λ q. Safe q × (q.col + n * step < 2147483648))
  glyph_case n p c s b =
      let g = fit.glyphs c in
      bind _
        (put_glyph-Drawn L (glyph_of L j.font c) p.row j.vheight j.vwidth g.sound
          (omega (arith, s.below, fit.height_small)) fit.height_small fit.width_small p.arena p.col
          (omega arith) g.lbearing_nonneg s.oriented)
        (λ (a, k) (e, d). returns _ (
          moved p a k s (Oriented-Drawn L j.vheight j.vwidth d s.oriented)
              (Drawn-marked d s.marked),
          omega (arith, e, next_col-le L step p.col (glyph_of L j.font c) g (omega arith)),
        ))

  tab_case :
      (n : ℕ) (p : Page L)
      → Safe p
      → p.col + suc n * step < 2147483648
      → Returns
          (do
            k ← tab_loop tab_rounds j.spacewidth p.col
            ok (let q : Page L = record p { col = k } in q))
          (λ q. Safe q × (q.col + n * step < 2147483648))
  tab_case n p s b =
      let le : j.spacewidth * (8 - (p.col / j.spacewidth) % 8) ≤ j.spacewidth * 8 = grind arith in
      rw (tab_loop-stop j.spacewidth p.col fit.space_pos (omega (arith, fit.space_step))).0
        (returns _ (moved p p.arena _ s s.oriented s.marked, omega (arith, fit.space_step, le)))

  line_feed-col : (p : Page L) → Page.col (line_feed L j p) ≡ 0
  unfolding line_feed new_label
  line_feed-col p = ground arith

  line_feed_case :
      (n : ℕ) (p : Page L)
      → Safe p
      → p.col + suc n * step < 2147483648
      → Returns
          (ok (if j.squeeze && not p.arena.dirty then p else line_feed L j p))
          (λ q. Safe q × (q.col + n * step < 2147483648))
  line_feed_case n p s b = elim (Bool-cases (j.squeeze && not p.arena.dirty)) [
    | inl e ↦ rw e (returns p (s, omega arith))
    | inr e ↦
        rw e (returns (line_feed L j p) (line_feed-IsSafe p s, omega (arith, line_feed-col p)))
  ]

  form_feed_case :
      (n : ℕ) (p : Page L)
      → Safe p
      → p.col + suc n * step < 2147483648
      → Safe (new_label L j (flush L p))
        × (Page.col (new_label L j (flush L p)) + n * step < 2147483648)
  unfolding new_label
  form_feed_case n p s b = (
    new_label-IsSafe (flush L p) (flush-Oriented p s.oriented) (flush-printed p s.marked s.printed),
    omega arith,
  )

  -- One character, with `n` more to come.
  pub render_char-IsSafe :
      (n : ℕ) (p : Page L) (c : ℕ)
      → Safe p
      → p.col + suc n * step < 2147483648
      → Returns (render_char L j p c) (λ q. Safe q × (q.col + n * step < 2147483648))
  unfolding render_char
  render_char-IsSafe n p c s b =
      if-Returns (not (is_zero (Font.Glyph.width (glyph_of L j.font c))))
        (λ _. glyph_case n p c s b)
        λ _.
          if-Returns (c == 9) (λ _. tab_case n p s b)
            λ _.
              if-Returns (c == 10) (λ _. line_feed_case n p s b)
                λ _.
                  if-Returns (c == 13)
                    (λ _. returns _ (moved p p.arena 0 s s.oriented s.marked, omega arith))
                    λ _.
                      if-Returns (c == 12) (λ _. returns _ (form_feed_case n p s b))
                        λ _.
                          returns _
                            (moved p p.arena _ s s.oriented s.marked, omega (arith, fit.space_step))
