-- ===== src/Render/Glyph/Drawn.antt =====
-- What `set_labelimage_bit` does to the label as the renderer sees it, `vheight` by `vwidth` dots,
-- whichever way round the bitmap lies.
use slap.Base.{
  ap, ◌∙◌, ℕ, ◌-◌, ◌<◌, ◌≡◌, ◌≢◌, ◌⊎◌, inl, inr, refl, Bool, true, false, ◌&&◌, ◌||◌, if◌then◌else◌,
  ◌==◌, not, arith, lt→ltb,
}
use slap.Base.Result.{Returns, returns}
use slap.Bitmap.{BitmapLib}
use slap.Render.Glyph.{Arena, set_labelimage_bit}

module _ (L : BitmapLib) (vheight vwidth : ℕ) where
  open L use {Bitmap, height, width, tstb, setb, height-setb, width-setb, tstb-setb}

  -- The bitmap has the size of the label, or that of the label turned round.
  abbrev pub Oriented : Bitmap → Type 0
  Oriented b =
      ((height b ≡ vheight) × (width b ≡ vwidth))
      ⊎ ((height b ≢ vheight) × (height b ≡ vwidth) × (width b ≡ vheight))

  -- The dot of the label at row `r` and column `c`.
  abbrev pub dot : Bitmap → (r c : ℕ) → Bool
  dot b r c = if not (height b == vheight) then tstb b c ((vheight - 1) - r) else tstb b r c

  -- A dot of the label is set.
  pub record HasDot (b : Bitmap) : Type 0 where
    pub r : ℕ
    pub c : ℕ
    pub r_lt : r < vheight
    pub c_lt : c < vwidth
    pub is_set : dot b r c ≡ true

  -- `b` is `a` with the dots of `D` set as well; it is marked dirty if there are any.
  pub record Drawn (a b : Arena L) (D : ℕ → ℕ → Bool) : Type 0 where
    pub same_height : height b.bm ≡ height a.bm
    pub same_width : width b.bm ≡ width a.bm
    pub dots : (r c : ℕ) → r < vheight → c < vwidth → dot b.bm r c ≡ (D r c || dot a.bm r c)
    pub marked : (b ≡ a) ⊎ ((b.dirty ≡ true) × HasDot b.bm)

  pub Oriented-Drawn :
      {a b : Arena L} {D : ℕ → ℕ → Bool} → Drawn a b D → Oriented a.bm → Oriented b.bm
  Oriented-Drawn d o = ground (arith, d.same_height, d.same_width)

  pub Drawn-nil : (a : Arena L) → Drawn a a (λ r c. false)
  Drawn-nil a = record {
    same_height = refl;
    same_width = refl;
    dots = λ r c p q. refl;
    marked = inl refl;
  }

  pub Drawn-ext :
      {a b : Arena L} {D : ℕ → ℕ → Bool} (E : ℕ → ℕ → Bool)
      → Drawn a b D
      → ((r c : ℕ) → r < vheight → c < vwidth → D r c ≡ E r c)
      → Drawn a b E
  Drawn-ext E d same = record {
    same_height = d.same_height;
    same_width = d.same_width;
    dots = λ r c p q. rw (← same r c p q) (d.dots r c p q);
    marked = d.marked;
  }

  HasDot-Drawn : {a b : Arena L} {D : ℕ → ℕ → Bool} → Drawn a b D → HasDot a.bm → HasDot b.bm
  HasDot-Drawn d h = record {
    r = h.r;
    c = h.c;
    r_lt = h.r_lt;
    c_lt = h.c_lt;
    is_set = ground (arith, d.dots h.r h.c h.r_lt h.c_lt, h.is_set);
  }

  marked_trans :
      {a b c : Arena L} {E : ℕ → ℕ → Bool}
      → Drawn b c E
      → (c ≡ b) ⊎ ((c.dirty ≡ true) × HasDot c.bm)
      → (b ≡ a) ⊎ ((b.dirty ≡ true) × HasDot b.bm)
      → (c ≡ a) ⊎ ((c.dirty ≡ true) × HasDot c.bm)
  marked_trans e (inr h) k = inr h
  marked_trans e (inl p) (inl q) = inl (p ∙ q)
  marked_trans {b} {c} e (inl p) (inr h) = inr (ap (λ x. x.dirty) p ∙ h.0, HasDot-Drawn e h.1)

  pub Drawn-trans :
      {a b c : Arena L} {D E : ℕ → ℕ → Bool}
      → Drawn a b D
      → Drawn b c E
      → Drawn a c (λ i j. E i j || D i j)
  Drawn-trans {a} {b} {c} d e = record {
    same_height = ground (arith, d.same_height, e.same_height);
    same_width = ground (arith, d.same_width, e.same_width);
    dots = λ i j p q. ground (arith, d.dots i j p q, e.dots i j p q);
    marked = marked_trans e e.marked d.marked;
  }

  module _ (a : Arena L) (row col : ℕ) (p : row < vheight) (q : col < vwidth) where
    abbrev upright : Arena L
    upright = record { bm = setb a.bm row col; dirty = true }

    abbrev turned : Arena L
    turned = record { bm = setb a.bm col ((vheight - 1) - row); dirty = true }

    upright-Drawn :
        height a.bm ≡ vheight → width a.bm ≡ vwidth → Drawn a upright (λ r c. r == row && c == col)
    upright-Drawn h w =
        let dots : (r c : ℕ)
            → r < vheight
            → c < vwidth
            → dot (setb a.bm row col) r c ≡ (r == row && c == col || dot a.bm r c) =
          λ r c i j. ground (arith, height-setb a.bm row col, tstb-setb a.bm row col r c) in
        record {
          same_height = height-setb a.bm row col;
          same_width = width-setb a.bm row col;
          dots = dots;
          marked = inr (
            refl,
            record {
              r = row;
              c = col;
              r_lt = p;
              c_lt = q;
              is_set = ground (arith, dots row col p q);
            },
          );
        }

    turned-Drawn :
        height a.bm ≢ vheight
        → height a.bm ≡ vwidth
        → width a.bm ≡ vheight
        → Drawn a turned (λ r c. r == row && c == col)
    turned-Drawn n h w =
        let dots : (r c : ℕ)
            → r < vheight
            → c < vwidth
            → dot turned.bm r c ≡ (r == row && c == col || dot a.bm r c) =
          λ r c i j. ground (
            arith,
            height-setb a.bm col ((vheight - 1) - row),
            tstb-setb a.bm col ((vheight - 1) - row) c ((vheight - 1) - r),
          ) in
        record {
          same_height = height-setb a.bm col ((vheight - 1) - row);
          same_width = width-setb a.bm col ((vheight - 1) - row);
          dots = dots;
          marked = inr (
            refl,
            record {
              r = row;
              c = col;
              r_lt = p;
              c_lt = q;
              is_set = ground (arith, dots row col p q);
            },
          );
        }

    -- The bit is set without a failing assertion, on either orientation of the bitmap.
    pub set_labelimage_bit-Drawn :
        Oriented a.bm
        → Returns
            (set_labelimage_bit L a row col vheight vwidth)
            (λ b. Drawn a b (λ r c. r == row && c == col))
    unfolding set_labelimage_bit
    set_labelimage_bit-Drawn (inl (h, w)) =
        let e : (height a.bm == vheight) ≡ true = ground arith in
        rw (lt→ltb row vheight p, lt→ltb col vwidth q, e) (returns upright (upright-Drawn h w))
    set_labelimage_bit-Drawn (inr (n, h, w)) =
        let e : (height a.bm == vheight) ≡ false = ground arith in
        rw (lt→ltb row vheight p, lt→ltb col vwidth q, e) (returns turned (turned-Drawn n h w))
