-- ===== src/Render/Page/Labels.antt =====
-- The loops over the text.
use slap.Base.{
  ℕ, ◌+◌, ◌*◌, ◌≤◌, ◌<◌, ◌≡◌, Bool, true, false, ltb, arith, inl, inr, List, [], ◌∷◌, All, length,
  max, min, ℕ_discrete,
}
use slap.Base.Int.{◌+ℤ◌}
use slap.Base.Words.{add32, to_u32}
use slap.Base.Result.{ok, Returns, returns, bind}
use slap.Bitmap.{BitmapLib}
use slap.Font.{Font}
use slap.Render.Glyph.{Arena}
use slap.Render.Glyph.Drawn.{Oriented, HasDot}
use slap.Render.Overstrike.Stack.{erased, overstrike-erased, length-erased}
use slap.Render.Page.{Job, Page, blank, render_chars, render_lines, job, render1}
use slap.Render.Page.Sound.{IsFit, IsSafe}
use slap.Render.Page.Steps.{render_char-IsSafe, flush-printed, blank-dirty}

-- The bytes of a text given as buffers.
abbrev pub total : List (List ℕ) → ℕ
total [] = 0
total (l ∷ ls) = length l + total ls

-- No backspace of a buffer lacks a byte to go back over.
abbrev pub IsErasable : List ℕ → Type 0
IsErasable l = (text : List ℕ) × (erased [] l ≡ ok text)

shorter :
    (step : ℕ) (text l : List ℕ) (n col : ℕ)
    → length text ≤ length l
    → col + (length l + n) * step < 2147483648
    → col + (length text + n) * step < 2147483648
shorter step text l n col h b = grind arith

module _ (L : BitmapLib) (step ascent descent : ℕ) (j : Job L)
    (fit : IsFit L step ascent descent j) where
  open L use {Bitmap, height, width}

  render_chars-IsSafe :
      (cs : List ℕ) (n : ℕ) (p : Page L)
      → IsSafe L ascent descent j p
      → p.col + (length cs + n) * step < 2147483648
      → Returns
          (render_chars L j p cs)
          (λ q. IsSafe L ascent descent j q × (q.col + n * step < 2147483648))
  unfolding render_chars
  render_chars-IsSafe [] n p s b = returns p (s, omega arith)
  render_chars-IsSafe (c ∷ cs) n p s b =
      bind _ (render_char-IsSafe L step ascent descent j fit (length cs + n) p c s (omega arith))
        (λ q (t, k). render_chars-IsSafe cs n q t k)

  -- From a page that is safe, the renderer goes through lines that are erasable without a fault, if
  -- the column cannot reach 2^31, and the page is safe afterwards.
  render_lines-IsSafe :
      (ls : List (List ℕ)) (p : Page L)
      → All IsErasable ls
      → IsSafe L ascent descent j p
      → p.col + total ls * step < 2147483648
      → Returns (render_lines L j p ls) (λ q. IsSafe L ascent descent j q)
  unfolding render_lines
  render_lines-IsSafe [] p h s b = returns p s
  render_lines-IsSafe (l ∷ ls) p ((text, e), h) s b =
      rw (overstrike-erased l, e)
        (bind _
          (render_chars-IsSafe text (total ls) p s
            (shorter step text l (total ls) p.col (omega (arith, length-erased l [] text e)) b))
          (λ q (t, k). render_lines-IsSafe ls q h t k))

module _ (L : BitmapLib) (step ascent descent : ℕ) where
  open L use {Bitmap, height, width}

  job-Oriented :
      (f : Font L) (portrait squeeze boxed : Bool) (b : Bitmap)
      → Oriented L
          (Job.vheight (job L f portrait squeeze boxed b))
          (Job.vwidth (job L f portrait squeeze boxed b))
          b
  unfolding job
  job-Oriented f true squeeze boxed b = elim (ℕ_discrete (height b) (max (width b) (height b))) [
    | yes e ↦ inl (e, omega arith)
    | no n ↦ inr (n, omega arith, omega arith)
  ]
  job-Oriented f false squeeze boxed b = elim (ℕ_discrete (height b) (min (width b) (height b))) [
    | yes e ↦ inl (e, omega arith)
    | no n ↦ inr (n, omega arith, omega arith)
  ]

  -- The job of a copy that starts with the arena `a`.
  abbrev pub job_for : Arena L → Font L → (portrait squeeze boxed : Bool) → Job L
  job_for a f portrait squeeze boxed =
      job L f portrait squeeze boxed (Arena.bm (blank L boxed a.bm))

  start-IsSafe :
      (a : Arena L) (f : Font L) (portrait squeeze boxed : Bool)
      → IsFit L step ascent descent (job_for a f portrait squeeze boxed)
      → IsSafe L ascent descent (job_for a f portrait squeeze boxed) (record {
        arena = blank L boxed a.bm;
        row = add32 0 (to_u32 f.ascent);
        col = 0;
        printed = [];
      })
  unfolding job
  start-IsSafe a f portrait squeeze boxed fit =
      let e : add32 0 (to_u32 f.ascent) ≡ ascent =
        rw fit.ascent_eq (omega (arith, fit.fits, fit.height_small)) in
      record {
        oriented = job-Oriented f portrait squeeze boxed _;
        above = omega (arith, e);
        below = omega (arith, e, fit.fits);
        marked = λ d. cc (blank-dirty L boxed a.bm);
        printed = tt;
      }

  tall_enough :
      (a : Arena L) (f : Font L) (portrait squeeze boxed : Bool)
      → IsFit L step ascent descent (job_for a f portrait squeeze boxed)
      → ltb (Job.vheight (job_for a f portrait squeeze boxed)) (to_u32 (f.ascent +ℤ f.descent))
        ≡ false
  unfolding job ◌+ℤ◌
  tall_enough a f portrait squeeze boxed fit =
      rw (fit.ascent_eq, fit.descent_eq) (ground (arith, fit.fits, fit.height_small))

  -- One copy of a text, on a font that fits: it is rendered without a fault, and every label
  -- that is printed has a dot on it.
  pub render1-labels :
      (a : Arena L) (lines : List (List ℕ)) (f : Font L) (portrait squeeze boxed : Bool)
      → IsFit L step ascent descent (job_for a f portrait squeeze boxed)
      → All IsErasable lines
      → total lines * step < 2147483648
      → Returns (render1 L a lines f portrait squeeze boxed) (λ (labels, b).
        All
          (λ (x : Arena L).
            HasDot L
              (Job.vheight (job_for a f portrait squeeze boxed))
              (Job.vwidth (job_for a f portrait squeeze boxed))
              x.bm)
          labels)
  unfolding render1
  render1-labels a lines f portrait squeeze boxed fit h b =
      rw (tall_enough a f portrait squeeze boxed fit) (
        bind _
          (render_lines-IsSafe L step ascent descent _ fit lines _ h
            (start-IsSafe a f portrait squeeze boxed fit) (omega arith))
          (λ p s. returns _ (flush-printed L step ascent descent _ fit p s.marked s.printed)))
