-- ===== src/Slpro/Map/Packed.antt =====
-- The bands hold the dots of the bitmap, the highest bit first, and `lastband` is the last with
-- one.
use slap.Base.{
  ℕ, zero, suc, ◌+◌, ◌-◌, ◌*◌, ◌/◌, ◌^◌, ◌≤◌, ◌<◌, ◌≡◌, ◌⊎◌, inl, inr, refl, ap, ◌∙◌, Bool, true,
  false, ◌||◌, List, [], ◌∷◌, if◌then◌else◌, arith, Bool-cases, length, get_or,
}
use slap.Base.Bits.{with_bit}
use slap.Base.Counts.{repeat-inv}
use slap.Bitmap.{BitmapLib}
use slap.Slpro.Map.{Slice, column, map_dot, map_slice, map_slices, map_bands}

-- The number whose binary digits are the first `n` values of `f`, the first of them the highest.
unfoldable pub packed : ℕ → (ℕ → Bool) → ℕ
packed zero f = 0
packed (suc n) f = packed n f * 2 + (if f n then 1 else 0)

-- Some of the first `n` values is true.
unfoldable pub any : ℕ → (ℕ → Bool) → Bool
any zero f = false
any (suc n) f = any n f || f n

-- Setting, or not, the next bit of a byte whose bits from that one on are clear.
next_bit :
    (n q : ℕ)
    → n < 8
    → (with_bit (0x80 / 2 ^ n) (q * 2 ^ (8 - n)) ≡ (q * 2 + 1) * 2 ^ (8 - (n + 1)))
      × (q * 2 ^ (8 - n) ≡ (q * 2 + 0) * 2 ^ (8 - (n + 1)))
next_bit zero q h = (ground arith, omega arith)
next_bit (suc zero) q h = (ground arith, omega arith)
next_bit (suc (suc zero)) q h = (ground arith, omega arith)
next_bit (suc (suc (suc zero))) q h = (ground arith, omega arith)
next_bit (suc (suc (suc (suc zero)))) q h = (ground arith, omega arith)
next_bit (suc (suc (suc (suc (suc zero))))) q h = (ground arith, omega arith)
next_bit (suc (suc (suc (suc (suc (suc zero)))))) q h = (ground arith, omega arith)
next_bit (suc (suc (suc (suc (suc (suc (suc zero))))))) q h = (ground arith, omega arith)
next_bit (suc (suc (suc (suc (suc (suc (suc (suc n)))))))) q h = absurd (omega arith)

module _ (L : BitmapLib) (bm : BitmapLib.Bitmap L) (slop : Bool) (nslices : ℕ) where
  -- The dot `n` of a slice.
  abbrev pub dot : (band slice n : ℕ) → Bool
  dot band slice n = BitmapLib.tstb L bm band (column slop nslices (slice * 8 + n))

  -- The slice after its first `n` dots.
  record IsPart (band slice last n : ℕ) (p : Slice) : Type 0 where
    byte_eq : p.byte ≡ packed n (dot band slice) * 2 ^ (8 - n)
    last_eq : p.lastband ≡ (if any n (dot band slice) then band else last)

  map_dot-IsPart :
      (band slice last n : ℕ) (p : Slice)
      → n < 8
      → IsPart band slice last n p
      → IsPart band slice last (n + 1) (map_dot L bm slop nslices band slice n p)
  unfolding map_dot packed any
  map_dot-IsPart band slice last n p h i =
      let e : n + 1 ≡ suc n = omega arith in
      elim (Bool-cases (dot band slice n)) [
        | inl hit ↦
            rw (hit, e)
              (record {
                byte_eq =
                    rw (packed, hit)
                      (ap (with_bit (0x80 / 2 ^ n)) i.byte_eq ∙ (next_bit n _ h).0 ∙ rw e refl);
                last_eq = rw (any, hit) (ground arith);
              })
        | inr miss ↦
            rw (miss, e)
              (record {
                byte_eq = rw (packed, miss) (i.byte_eq ∙ (next_bit n _ h).1 ∙ rw e refl);
                last_eq = rw (any, miss) (ground (arith, i.last_eq));
              })
      ]

  map_slice-Packed :
      (band slice last : ℕ)
      → (Slice.byte (map_slice L bm slop nslices band slice last) ≡ packed 8 (dot band slice))
        × (Slice.lastband (map_slice L bm slop nslices band slice last)
            ≡ (if any 8 (dot band slice) then band else last))
  unfolding map_slice packed any
  map_slice-Packed band slice last =
      let r =
        repeat-inv (IsPart band slice last) (map_dot L bm slop nslices band slice) 8 0 8
          (record { byte = 0; lastband = last }) (omega arith)
          (λ n p lo hi i. map_dot-IsPart band slice last n p hi i)
          (record { byte_eq = refl; last_eq = refl }) in
      (r.byte_eq ∙ omega arith, r.last_eq)

  -- Some dot of the `n` slices from `slice` on is set.
  unfoldable pub any_in : (band n slice : ℕ) → Bool
  any_in band zero slice = false
  any_in band (suc n) slice = any 8 (dot band slice) || any_in band n (slice + 1)

  -- The slices of a band from `slice` on.
  record IsRow (band n slice : ℕ) (row : List ℕ) : Type 0 where
    wide : length row ≡ n
    at : (k : ℕ) → k < n → get_or row k 0 ≡ packed 8 (dot band (slice + k))

  IsRow-cons :
      (band n slice b : ℕ) (row : List ℕ)
      → b ≡ packed 8 (dot band slice)
      → IsRow band n (slice + 1) row
      → IsRow band (suc n) slice (b ∷ row)
  IsRow-cons band n slice b row first rest = record { wide = ap suc rest.wide; at = at }
    where
      at : (k : ℕ) → k < suc n → get_or (b ∷ row) k 0 ≡ packed 8 (dot band (slice + k))
      at zero h =
          let e : slice ≡ slice + 0 = omega arith in first ∙ ap (λ i. packed 8 (dot band i)) e
      at (suc j) h =
          let e : slice + 1 + j ≡ slice + suc j = omega arith in
          rest.at j (omega arith) ∙ ap (λ i. packed 8 (dot band i)) e

  map_slices-IsRow :
      (band n slice last : ℕ)
      → IsRow band n slice (map_slices L bm slop nslices band n slice last).0
        × ((map_slices L bm slop nslices band n slice last).1
            ≡ (if any_in band n slice then band else last))
  unfolding map_slices any_in
  map_slices-IsRow band zero slice last =
      (record { wide = refl; at = λ k h. absurd (omega arith) }, refl)
  map_slices-IsRow band (suc n) slice last =
      let (b, l) = map_slice-Packed band slice last in
      let (r, m) =
        map_slices-IsRow band n (slice + 1)
          (Slice.lastband (map_slice L bm slop nslices band slice last)) in
      (IsRow-cons band n slice _ _ b r, m ∙ ground (arith, l))

  -- The bands from `band` on, `n` of them, hold the dots of the bitmap, and `last` is the last of
  -- them with a dot; `before` is what it was before.
  pub record IsImage (n band before : ℕ) (bands : List (List ℕ)) (last : ℕ) : Type 0 where
    pub tall : length bands ≡ n
    pub wide : (j : ℕ) → j < n → length (get_or bands j []) ≡ nslices
    pub at :
        (j k : ℕ)
        → j < n
        → k < nslices
        → get_or (get_or bands j []) k 0 ≡ packed 8 (dot (band + j) k)
    pub after : (j : ℕ) → j < n → any_in (band + j) nslices 0 ≡ true → band + j ≤ last
    pub latest :
        (last ≡ before) ⊎ ((band ≤ last) × (last < band + n) × (any_in last nslices 0 ≡ true))

  IsImage-cons :
      (n band before mid last : ℕ) (row : List ℕ) (bands : List (List ℕ))
      → before ≤ band
      → IsRow band nslices 0 row
      → mid ≡ (if any_in band nslices 0 then band else before)
      → IsImage n (band + 1) mid bands last
      → IsImage (suc n) band before (row ∷ bands) last
  IsImage-cons n band before mid last row bands small r m i = record {
    tall = ap suc i.tall;
    wide = wide;
    at = at;
    after = after;
    latest = elim i.latest [
      | inl same ↦ elim (Bool-cases (any_in band nslices 0)) [
        | inl hit ↦
            let found : last ≡ band = same ∙ m ∙ rw hit refl in
            inr (omega arith, omega arith, rw found hit)
        | inr miss ↦ inl (same ∙ m ∙ rw miss refl)
      ]
      | inr (lo, hi, hit) ↦ inr (omega arith, omega arith, hit)
    ];
  }
    where
      e : (j : ℕ) → band + 1 + j ≡ band + suc j
      e j = omega arith

      z : band + 0 ≡ band
      z = omega arith

      wide : (j : ℕ) → j < suc n → length (get_or (row ∷ bands) j []) ≡ nslices
      wide zero h = r.wide
      wide (suc j) h = i.wide j (omega arith)

      at :
          (j k : ℕ)
          → j < suc n
          → k < nslices
          → get_or (get_or (row ∷ bands) j []) k 0 ≡ packed 8 (dot (band + j) k)
      at zero k h lt =
          let o : 0 + k ≡ k = omega arith in rw z (r.at k lt ∙ ap (λ i. packed 8 (dot band i)) o)
      at (suc j) k h lt = i.at j k (omega arith) lt ∙ ap (λ b. packed 8 (dot b k)) (e j)

      after : (j : ℕ) → j < suc n → any_in (band + j) nslices 0 ≡ true → band + j ≤ last
      after zero h hit =
          let hit' : any_in band nslices 0 ≡ true = rw z at hit in
          let found : mid ≡ band = m ∙ rw hit' refl in
          elim i.latest [ inl same ↦ omega arith | inr (lo, hi, rest) ↦ omega arith ]
      after (suc j) h hit = rw (← e j) (i.after j (omega arith) (rw (e j) hit))

  pub map_bands-IsImage :
      (n band last : ℕ)
      → last ≤ band
      → IsImage n band last
          (map_bands L bm slop nslices n band last).0
          (map_bands L bm slop nslices n band last).1
  unfolding map_bands
  map_bands-IsImage zero band last small = record {
    tall = refl;
    wide = λ j h. absurd (omega arith);
    at = λ j k h. absurd (omega arith);
    after = λ j h. absurd (omega arith);
    latest = inl refl;
  }
  map_bands-IsImage (suc n) band last small =
      let (r, m) = map_slices-IsRow band nslices 0 last in
      let mid = (map_slices L bm slop nslices band nslices 0 last).1 in
      let lo : mid ≤ band + 1 = ground (arith, m) in
      IsImage-cons n band last mid _ _ _ small r m (map_bands-IsImage n (band + 1) mid lo)
