-- ===== src/Slplus/Map/Last.antt =====
-- The band in which the mapping of slap/slplus.c finds its last dots: no later pair has any.
use slap.Base.{
  ℕ, zero, suc, ◌+◌, ◌*◌, ◌/◌, ◌%◌, ◌≤◌, ◌<◌, ◌≡◌, inl, inr, refl, ap, ◌∙◌, Bool, true, false, ◌||◌,
  if◌then◌else◌, arith, Bool-cases, ℕ_discrete, ltb,
}
use slap.Base.Counts.{repeat-inv}
use slap.Bitmap.{BitmapLib}
use slap.Slplus.Map.{Pair, map_dot, map_slice, map_pair, map_bands}
use slap.Slplus.Map.Correct.{even_dots, odd_dots}

module _ (L : BitmapLib) (bm : BitmapLib.Bitmap L) where
  module _ (band : ℕ) where
    -- A dot of either band.
    abbrev dots : (slice n : ℕ) → Bool
    dots slice n = even_dots L bm band slice n || odd_dots L bm band slice n

    map_dot-last :
        (s n : ℕ) (p : Pair)
        → Pair.lastband (map_dot L bm band s n p) ≡ (
            if odd_dots L bm band s n
            then band + 1
            else if even_dots L bm band s n
            then band
            else p.lastband)
    unfolding map_dot
    map_dot-last s n p = ground arith

    -- The dots of the slices below `s`, and of slice `s` those below `n`, are taken into account.
    record Counts (old s n : ℕ) (p : Pair) : Type 0 where
      low : old ≤ p.lastband
      high : p.lastband ≤ band + 1
      past : (k i : ℕ) → k < s → i < 8 → dots k i ≡ true → band ≤ p.lastband
      here : (i : ℕ) → i < n → dots s i ≡ true → band ≤ p.lastband

    Counts-dot :
        (old s n : ℕ) (p : Pair)
        → old ≤ band
        → Counts old s n p
        → Counts old s (n + 1) (map_dot L bm band s n p)
    Counts-dot old s n p small h =
        let e = map_dot-last s n p in
        let q = map_dot L bm band s n p in
        elim (Bool-cases (odd_dots L bm band s n)) [
          | inl odd ↦
              let v : q.lastband ≡ band + 1 = rw (e, odd) refl in
              record {
                low = omega (arith, v);
                high = omega (arith, v);
                past = λ k i a b c. omega (arith, v);
                here = λ i a b. omega (arith, v);
              }
          | inr none_ ↦ elim (Bool-cases (even_dots L bm band s n)) [
            | inl even ↦
                let v : q.lastband ≡ band = rw (e, none_, even) refl in
                record {
                  low = omega (arith, v);
                  high = omega (arith, v);
                  past = λ k i a b c. omega (arith, v);
                  here = λ i a b. omega (arith, v);
                }
            | inr empty ↦
                let v : q.lastband ≡ p.lastband = rw (e, none_, empty) refl in
                let blank : dots s n ≡ false = rw (none_, empty) refl in
                record {
                  low = omega (arith, v, h.low);
                  high = omega (arith, v, h.high);
                  past = λ k i a b c. omega (arith, v, h.past k i a b c);
                  here = λ i a b. elim (ℕ_discrete i n) [
                    | yes same ↦ absurd (both (rw same at b) blank)
                    | no other ↦ omega (arith, v, h.here i (omega arith) b)
                  ];
                }
          ]
        ]
      where
        both : {b : Bool} → b ≡ true → b ≡ false → ⊥
        both t f = cc

    Counts-slice :
        (old s : ℕ) (p : Pair)
        → old ≤ band
        → Counts old s 0 p
        → Counts old (s + 1) 0 (map_slice L bm band s p)
    unfolding map_slice
    Counts-slice old s p small h =
        let done =
          repeat-inv (Counts old s) (map_dot L bm band s) 8 0 8 _ (omega arith)
            (λ n q lo hi c. Counts-dot old s n q small c)
            (record { low = h.low; high = h.high; past = h.past; here = λ i a b. elim a [ ] }) in
        record {
          low = done.low;
          high = done.high;
          past = λ k i a b c. elim (ℕ_discrete k s) [
            | yes same ↦ done.here i b (rw same at c)
            | no other ↦ done.past k i (omega arith) b c
          ];
          here = λ i a b. elim a [ ];
        }

    map_pair-Counts :
        (nslices : ℕ) (old old' : ℕ → ℕ) (last : ℕ)
        → last ≤ band
        → Counts last nslices 0 (map_pair L bm band nslices old old' last)
    unfolding map_pair
    map_pair-Counts nslices old old' last small =
        repeat-inv (λ s p. Counts last s 0 p) (map_slice L bm band) nslices 0 nslices _
          (omega arith) (λ s p lo hi c. Counts-slice last s p small c)
          (record {
            low = omega arith;
            high = omega arith;
            past = λ k i a. elim a [ ];
            here = λ i a. elim a [ ];
          })

  -- The dot of a row is one of its pair.
  row_dots :
      (band row c : ℕ)
      → band % 2 ≡ 0
      → band * 8 ≤ row
      → row < band * 8 + 16
      → BitmapLib.tstb L bm row c ≡ true
      → dots band c (row % 16 / 2) ≡ true
  row_dots band row c even low high hit = elim (ℕ_discrete (row % 2) 0) [
    | yes e ↦
        let at : band * 8 + row % 16 / 2 * 2 ≡ row = omega arith in
        let dot : even_dots L bm band c (row % 16 / 2) ≡ true =
          ap (λ r. BitmapLib.tstb L bm r c) at ∙ hit in
        rw dot refl
    | no e ↦
        let at : band * 8 + row % 16 / 2 * 2 + 1 ≡ row = omega arith in
        let dot : odd_dots L bm band c (row % 16 / 2) ≡ true =
          ap (λ r. BitmapLib.tstb L bm r c) at ∙ hit in
        or_right (even_dots L bm band c (row % 16 / 2)) _ dot
  ]
    where
      or_right : (a b : Bool) → b ≡ true → (a || b) ≡ true
      or_right true b e = refl
      or_right false b e = e

  -- The last band is no earlier than the even band of any pair with a dot.
  pub map_bands-last :
      (pairs band nslices : ℕ) (old : ℕ → ℕ → ℕ) (last : ℕ)
      → band % 2 ≡ 0
      → last ≤ band
      → (last ≤ (map_bands L bm pairs band nslices old last).1)
        × ((row c : ℕ)
            → c < nslices
            → band * 8 ≤ row
            → row < band * 8 + pairs * 16
            → BitmapLib.tstb L bm row c ≡ true
            → row / 16 * 2 ≤ (map_bands L bm pairs band nslices old last).1)
  unfolding map_bands
  map_bands-last zero band nslices old last even small =
      (omega arith, λ row c inside low high hit. absurd (omega arith))
  map_bands-last (suc pairs) band nslices old last even small =
      let h = map_pair-Counts band nslices (old band) (old (band + 1)) last small in
      let (up, rest) =
        map_bands-last pairs (band + 2) nslices old
          (Pair.lastband (map_pair L bm band nslices (old band) (old (band + 1)) last))
          (omega arith) (omega (arith, h.high)) in
      (
        omega (arith, h.low),
        λ row c inside low high hit. elim (Bool-cases (ltb row (band * 8 + 16))) [
          | inl here ↦
              let under : row < band * 8 + 16 = ground arith in
              let mine =
                h.past c (row % 16 / 2) inside (omega arith)
                  (row_dots band row c even low under hit) in
              let same : row / 16 * 2 ≡ band = omega arith in rw same (omega (arith, up, mine))
          | inr later ↦ rest row c inside (ground arith) (omega arith) hit
        ],
      )
