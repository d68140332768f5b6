-- ===== src/Slplus/Map/Correct.antt =====
-- The bands hold the dots of the bitmap, and the dirty zone of a band holds its dots.
use slap.Base.{
  ℕ, suc, ◌+◌, ◌*◌, ◌^◌, ◌≤◌, ◌<◌, ◌≡◌, ◌⊎◌, inl, inr, refl, Bool, true, false, if◌then◌else◌, min,
  max, arith, Bool-cases, ℕ_discrete, ◌≢◌,
}
use slap.Base.Counts.{repeat-inv, bits_below, bits_below-lt, bit_or-add}
use slap.Bitmap.{BitmapLib}
use slap.Slplus.Map.{Band, Pair, mark, update, map_dot, map_slice, map_pair}

-- Some dot of the slice is set.
pub record IsDirty (H : ℕ → ℕ → Bool) (slice : ℕ) : Type 0 where
  pub at : ℕ
  pub below : at < 8
  pub hit : H slice at ≡ true

-- `H k n` is the dot `n` of slice `k`. The slices below `s` are done, and of slice `s` the dots
-- below `n`.
pub record Holds (H : ℕ → ℕ → Bool) (nslices s n : ℕ) (b : Band) : Type 0 where
  pub done : (k : ℕ) → k < s → b.slices k ≡ bits_below 8 (H k)
  pub current : b.slices s ≡ bits_below n (H s)
  pub covers : (k m : ℕ) → k < s → m < 8 → H k m ≡ true → (b.min_slice ≤ k) × (k ≤ b.max_slice)
  pub covers_current : (m : ℕ) → m < n → H s m ≡ true → (b.min_slice ≤ s) × (s ≤ b.max_slice)
  pub tight :
      ((b.min_slice ≡ nslices) × (b.max_slice ≡ 0))
      ⊎ (IsDirty H b.min_slice
          × IsDirty H b.max_slice
          × (b.max_slice ≤ s)
          × (b.min_slice ≤ b.max_slice))

-- All slices below `s` are done: they hold the dots of `H`, and the zone of the band is exactly as
-- wide as its dots need.
pub record Done (H : ℕ → ℕ → Bool) (nslices s : ℕ) (b : Band) : Type 0 where
  pub done : (k : ℕ) → k < s → b.slices k ≡ bits_below 8 (H k)
  pub covers : (k m : ℕ) → k < s → m < 8 → H k m ≡ true → (b.min_slice ≤ k) × (k ≤ b.max_slice)
  pub tight :
      ((b.min_slice ≡ nslices) × (b.max_slice ≡ 0))
      ⊎ (IsDirty H b.min_slice
          × IsDirty H b.max_slice
          × (b.max_slice < s)
          × (b.min_slice ≤ b.max_slice))

module _ (H : ℕ → ℕ → Bool) (nslices s : ℕ) (small : s < nslices) where
  mark_done :
      {n : ℕ} {b : Band}
      → Holds H nslices s n b
      → (k : ℕ) → k < s
      → Band.slices (mark b s n) k ≡ bits_below 8 (H k)
  unfolding mark
  mark_done h k lt = ground (arith, h.done k lt)

  mark_current :
      (n : ℕ) (b : Band)
      → Holds H nslices s n b
      → n < 8
      → H s n ≡ true
      → Band.slices (mark b s n) s ≡ bits_below (suc n) (H s)
  unfolding mark bits_below
  mark_current n b h lt e =
      let o : bits_below n (H s) < 2 ^ n = bits_below-lt n (H s) in
      ground (arith, h.current, bit_or-add n (bits_below n (H s)) lt o)

  Holds-mark :
      (n : ℕ) (b : Band)
      → Holds H nslices s n b
      → n < 8
      → H s n ≡ true
      → Holds H nslices s (n + 1) (mark b s n)
  unfolding mark
  Holds-mark n b h lt e = record {
    done = λ k p. ground (arith, h.done k p);
    current = let i : n + 1 ≡ suc n = omega arith in rw i (mark_current n b h lt e);
    covers = λ k m p q hit. ground (arith, h.covers k m p q hit);
    covers_current = λ m p hit. omega arith;
    tight = elim h.tight [
      | inl (a, z) ↦
          let lo : min b.min_slice s ≡ s = omega arith in
          let hi : max b.max_slice s ≡ s = omega arith in
          let d : IsDirty H s = record { at = n; below = lt; hit = e } in
          inr (rw lo d, rw hi d, omega arith, omega arith)
      | inr (lo, hi, le, ord) ↦
          let a : max b.max_slice s ≡ s = omega arith in
          let c : min b.min_slice s ≡ b.min_slice = omega arith in
          let d : IsDirty H s = record { at = n; below = lt; hit = e } in
          inr (rw c lo, rw a d, omega arith, omega arith)
    ];
  }

  Holds-skip :
      (n : ℕ) (b : Band) → Holds H nslices s n b → H s n ≡ false → Holds H nslices s (n + 1) b
  unfolding bits_below
  Holds-skip n b h e = record {
    done = h.done;
    current =
        let i : n + 1 ≡ suc n = omega arith in rw (i, bits_below, e) (omega (arith, h.current));
    covers = h.covers;
    covers_current = λ m p hit. ground (arith, h.covers_current m, ne m hit);
    tight = h.tight;
  }
    where
      ne : (m : ℕ) → H s m ≡ true → m ≢ n
      ne m hit same = cc

  -- Slice `s` is cleared before its dots are looked at.
  Holds-clear :
      (b : Band)
      → Done H nslices s b
      → Holds H nslices s 0 (record b { slices = update b.slices s 0 })
  unfolding bits_below
  Holds-clear b h = record {
    done = λ k p. ground (arith, h.done k p);
    current = ground arith;
    covers = h.covers;
    covers_current = λ m p hit. elim p [ ];
    tight = elim h.tight [ inl z ↦ inl z | inr (lo, hi, le, ord) ↦ inr (lo, hi, omega arith, ord) ];
  }

  Holds-finish : (b : Band) → Holds H nslices s 8 b → Done H nslices (s + 1) b
  Holds-finish b h = record {
    done = λ k p. elim (ℕ_discrete k s) [ yes e ↦ rw e h.current | no e ↦ h.done k (omega arith) ];
    covers = λ k m p q hit. elim (ℕ_discrete k s) [
      | yes e ↦ rw e (h.covers_current m q (rw e at hit))
      | no e ↦ h.covers k m (omega arith) q hit
    ];
    tight = elim h.tight [ inl z ↦ inl z | inr (lo, hi, le, ord) ↦ inr (lo, hi, omega arith, ord) ];
  }

module _ (L : BitmapLib) (bm : BitmapLib.Bitmap L) (band : ℕ) where
  -- The dots of the even and of the odd band: every other row of the bitmap, 8 of them.
  abbrev pub even_dots : (slice n : ℕ) → Bool
  even_dots slice n = BitmapLib.tstb L bm (band * 8 + n * 2) slice

  abbrev pub odd_dots : (slice n : ℕ) → Bool
  odd_dots slice n = BitmapLib.tstb L bm (band * 8 + n * 2 + 1) slice

  map_dot-even :
      (s n : ℕ) (p : Pair)
      → Pair.even (map_dot L bm band s n p) ≡ (if even_dots s n then mark p.even s n else p.even)
  unfolding map_dot
  map_dot-even s n p = ground arith

  map_dot-odd :
      (s n : ℕ) (p : Pair)
      → Pair.odd (map_dot L bm band s n p) ≡ (if odd_dots s n then mark p.odd s n else p.odd)
  unfolding map_dot
  map_dot-odd s n p = ground arith

  abbrev BothDone : (nslices s : ℕ) → Pair → Type 0
  BothDone nslices s p = Done even_dots nslices s p.even × Done odd_dots nslices s p.odd

  abbrev BothHold : (nslices s n : ℕ) → Pair → Type 0
  BothHold nslices s n p = Holds even_dots nslices s n p.even × Holds odd_dots nslices s n p.odd

  module _ (nslices s : ℕ) (small : s < nslices) where
    Holds-dot :
        (H : ℕ → ℕ → Bool) (n : ℕ) (b : Band)
        → Holds H nslices s n b
        → n < 8
        → Holds H nslices s (n + 1) (if H s n then mark b s n else b)
    Holds-dot H n b h lt = elim (Bool-cases (H s n)) [
      | inl e ↦ rw e (Holds-mark H nslices s small n b h lt e)
      | inr e ↦ rw e (Holds-skip H nslices s small n b h e)
    ]

    map_slice-BothDone :
        (p : Pair) → BothDone nslices s p → BothDone nslices (s + 1) (map_slice L bm band s p)
    unfolding map_slice
    map_slice-BothDone p (d, d') =
        let h =
          repeat-inv (BothHold nslices s) (map_dot L bm band s) 8 0 8 _ (omega arith)
            (λ n q lo hi (e, o). (
              rw (map_dot-even s n q) (Holds-dot even_dots n q.even e hi),
              rw (map_dot-odd s n q) (Holds-dot odd_dots n q.odd o hi),
            ))
            (
              Holds-clear even_dots nslices s small p.even d,
              Holds-clear odd_dots nslices s small p.odd d',
            ) in
        (Holds-finish even_dots nslices s small _ h.0, Holds-finish odd_dots nslices s small _ h.1)

  -- Every byte of the two bands holds the eight dots of its column, bit 0 first, whatever was in
  -- the arrays before; and the zone of each band reaches from its first slice with a dot to its
  -- last.
  pub map_pair-Done :
      (nslices : ℕ) (old old' : ℕ → ℕ) (last : ℕ)
      → Done even_dots nslices nslices (Pair.even (map_pair L bm band nslices old old' last))
        × Done odd_dots nslices nslices (Pair.odd (map_pair L bm band nslices old old' last))
  unfolding map_pair
  map_pair-Done nslices old old' last =
      repeat-inv (BothDone nslices) (map_slice L bm band) nslices 0 nslices _ (omega arith)
        (λ s p lo hi d. map_slice-BothDone nslices s hi p d)
        (
          record {
            done = λ k p. elim p [ ];
            covers = λ k m p. elim p [ ];
            tight = inl (refl, refl);
          },
          record {
            done = λ k p. elim p [ ];
            covers = λ k m p. elim p [ ];
            tight = inl (refl, refl);
          },
        )
