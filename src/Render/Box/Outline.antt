-- ===== src/Render/Box/Outline.antt =====
-- The dots that `boxit` sets.
use slap.Base.{
  ℕ, zero, suc, ◌+◌, ◌-◌, ◌≤◌, ◌<◌, ◌≡◌, refl, Bool, false, ◌&&◌, ◌||◌, ◌==◌, leb, ltb, arith,
}
use slap.Bitmap.{BitmapLib}
use slap.Render.Box.{last, box_cols, box_rows, boxit}

module _ (L : BitmapLib) where
  open L use {Bitmap, height, width, tstb, setb, height-setb, width-setb, tstb-setb}

  -- `b` is `a` with the dots of `D` set as well.
  pub record Marked (a b : Bitmap) (D : ℕ → ℕ → Bool) : Type 0 where
    pub same_height : height b ≡ height a
    pub same_width : width b ≡ width a
    pub dots : (r c : ℕ) → r < height a → c < width a → tstb b r c ≡ (D r c || tstb a r c)

  Marked-nil : (a : Bitmap) → Marked a a (λ r c. false)
  Marked-nil a = record { same_height = refl; same_width = refl; dots = λ r c p q. refl }

  Marked-setb :
      {a b : Bitmap} {D : ℕ → ℕ → Bool} (i j : ℕ) (E : ℕ → ℕ → Bool)
      → Marked a b D
      → i < height a
      → j < width a
      → ((r c : ℕ) → (r == i && c == j || D r c) ≡ E r c)
      → Marked a (setb b i j) E
  Marked-setb {b} i j E m p q e = record {
    same_height = ground (arith, height-setb b i j, m.same_height);
    same_width = ground (arith, width-setb b i j, m.same_width);
    dots = λ r c x y.
        ground (arith, tstb-setb b i j r c, m.same_height, m.same_width, m.dots r c x y, e r c);
  }

  -- The dots of the top and bottom edges in the columns from `col` on, `n` of them.
  abbrev edges : (h col n r c : ℕ) → Bool
  edges h col n r c = (r == 0 || r == h - 1) && (leb col c && ltb c (col + n))

  -- The ends of the rows from 2 up to `k`.
  abbrev sides : (w k r c : ℕ) → Bool
  sides w k r c = (leb 2 r && leb r k) && (c == 0 || c == w - 1)

  Marked-trans :
      {a b c : Bitmap} {D E : ℕ → ℕ → Bool} (F : ℕ → ℕ → Bool)
      → Marked a b D
      → Marked b c E
      → ((i j : ℕ) → (E i j || D i j) ≡ F i j)
      → Marked a c F
  Marked-trans F m n e = record {
    same_height = ground (arith, m.same_height, n.same_height);
    same_width = ground (arith, m.same_width, n.same_width);
    dots =
        λ r c x y. ground (arith, m.dots r c x y, n.dots r c, m.same_height, m.same_width, e r c);
  }

  module _ (h w : ℕ) (h_pos : 0 < h) (w_pos : 0 < w) (h_small : h < 65536)
      (w_small : w < 65536) where
    two_ends :
        (b : Bitmap) (col : ℕ)
        → height b ≡ h
        → width b ≡ w
        → col < w
        → Marked b (setb (setb b 0 col) (last L (height b)) col) (edges h col 1)
    two_ends b col eh ew p =
        Marked-setb (last L (height b)) col (edges h col 1)
          (Marked-setb 0 col (λ r c. r == 0 && c == col) (Marked-nil b) (omega arith) (omega arith)
            (λ r c. ground arith))
          (omega arith) (omega arith) (λ r c. ground arith)

    box_cols-Marked :
        (n col : ℕ) (b : Bitmap)
        → height b ≡ h
        → width b ≡ w
        → col + n ≤ w
        → Marked b (box_cols L n col b) (edges h col n)
    unfolding box_cols
    box_cols-Marked zero col b eh ew p =
        Marked-trans (edges h col 0) (Marked-nil b) (Marked-nil b) (λ r c. ground arith)
    box_cols-Marked (suc n) col b eh ew p =
        let m = two_ends b col eh ew (omega arith) in
        Marked-trans (edges h col (suc n)) m
          (box_cols-Marked n (col + 1) _ (ground (arith, m.same_height))
            (ground (arith, m.same_width)) (omega arith))
          (λ r c. ground arith)

    row_ends :
        (b : Bitmap) (k : ℕ)
        → height b ≡ h
        → width b ≡ w
        → k < h
        → Marked b
            (setb (setb b k 0) k (last L (width b)))
            (λ r c. r == k && (c == 0 || c == w - 1))
    row_ends b k eh ew p =
        Marked-setb k (last L (width b)) _
          (Marked-setb k 0 (λ r c. r == k && c == 0) (Marked-nil b) (omega arith) (omega arith)
            (λ r c. ground arith))
          (omega arith) (omega arith) (λ r c. ground arith)

    box_rows-Marked :
        (k : ℕ) (b : Bitmap)
        → height b ≡ h
        → width b ≡ w
        → k < h
        → Marked b (box_rows L k b) (sides w k)
    unfolding box_rows
    box_rows-Marked zero b eh ew p =
        Marked-trans (sides w 0) (Marked-nil b) (Marked-nil b) (λ r c. ground arith)
    box_rows-Marked (suc zero) b eh ew p =
        Marked-trans (sides w 1) (Marked-nil b) (Marked-nil b) (λ r c. ground arith)
    box_rows-Marked (suc (suc k)) b eh ew p =
        let m = row_ends b (suc (suc k)) eh ew p in
        Marked-trans (sides w (suc (suc k))) m
          (box_rows-Marked (suc k) _ (ground (arith, m.same_height)) (ground (arith, m.same_width))
            (omega arith))
          (λ r c. ground arith)

  -- The dots of the outline that `boxit` draws: the whole top and bottom edges, and the two ends
  -- of every row but row 1.
  abbrev pub outline : (h w r c : ℕ) → Bool
  outline h w r c = (r == 0 || r == h - 1) || (leb 2 r && (c == 0 || c == w - 1))

  -- On a bitmap that is not empty, the dots set afterwards are those set before and those of the
  -- outline. The ends of row 1 are not among these.
  pub boxit-Marked :
      (b : Bitmap)
      → 0 < height b
      → 0 < width b
      → height b < 65536
      → width b < 65536
      → Marked b (boxit L b) (outline (height b) (width b))
  unfolding boxit
  boxit-Marked b hp wp hs ws =
      let m =
        box_cols-Marked (height b) (width b) hp wp hs ws (width b) 0 b refl refl (omega arith) in
      let e : last L (height (box_cols L (width b) 0 b)) ≡ height b - 1 =
        ground (arith, m.same_height) in
      let n =
        box_rows-Marked (height b) (width b) hp wp hs ws (height b - 1) (box_cols L (width b) 0 b)
          m.same_height m.same_width (omega arith) in
      rw e (record {
        same_height = ground (arith, m.same_height, n.same_height);
        same_width = ground (arith, m.same_width, n.same_width);
        dots = λ r c x y. ground (arith, m.dots r c x y, n.dots r c, m.same_height, m.same_width);
      })
