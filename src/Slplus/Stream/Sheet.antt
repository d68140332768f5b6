-- ===== src/Slplus/Stream/Sheet.antt =====
-- A printer that carries out the commands of a label, and what stands on the paper afterwards.
use slap.Base.{
  ℕ, zero, suc, ◌+◌, ◌-◌, ◌*◌, ◌/◌, ◌%◌, ◌≤◌, ◌<◌, ◌≡◌, ◌≢◌, refl, ap, ◌∙◌, Bool, true, false, ◌&&◌,
  ◌||◌, ◌^◌, ℕ_discrete, List, [], ◌∷◌, ◌++◌, ◌==◌, if◌then◌else◌, leb, ltb, arith, Bool-cases, inl,
  inr,
}
use native.Mathlib.Nat.{pow-suc}
use slap.Slplus.Map.{Band}
use slap.Slplus.Stream.Head.{start_pos-le}
use slap.Base.Counts.{bits_below}
use slap.Slplus.Stream.{to_byte, slices_from, start_pos, move_bytes, band_bytes}

-- What the printer waits for.
pub data Mode : Type 0 where
  command right left count : Mode
  print : (n : ℕ) → Mode

-- The row and the slice in front of the head, and the slices that it has printed, each with its row
-- and its place, the latest first.
pub record Sheet : Type 0 where
  pub mode : Mode
  pub at : ℕ
  pub y : ℕ
  pub prints : List (ℕ × ℕ × ℕ)

abbrev pub sheet_at : (at y : ℕ) → List (ℕ × ℕ × ℕ) → Sheet
sheet_at at y prints = record { mode = command; at = at; y = y; prints = prints }

-- A slice is printed, with `n` to come after it.
abbrev after_slice : ℕ → Mode
after_slice zero = command
after_slice (suc n) = print n

-- 0x09 and 0x0B feed one row and fifteen, 0x0A a pair of bands; 0x07 and 0x08 move the head by the
-- slices that the next byte says, 0x0D back to the start, and 0x03 begins slices.
unfoldable pub sheet_byte : Mode → ℕ → Sheet → Sheet
sheet_byte command c s =
    if c == 0x7
    then record s { mode = right }
    else if c == 0x8
    then record s { mode = left }
    else if c == 0x3
    then record s { mode = count }
    else if c == 0xD
    then record s { at = 0 }
    else if c == 0x9
    then record s { y = s.y + 1 }
    else if c == 0xB
    then record s { y = s.y + 15 }
    else if c == 0xA
    then record s { y = s.y + 16 }
    else s
sheet_byte right c s = record s { mode = command; at = s.at + c }
sheet_byte left c s = record s { mode = command; at = s.at - c }
sheet_byte count zero s = record s { mode = command }
sheet_byte count (suc n) s = record s { mode = print n }
sheet_byte (print n) c s = record s {
  mode = after_slice n;
  at = s.at + 1;
  prints = (s.y, s.at, c) ∷ s.prints;
}

unfoldable pub sheet_bytes : List ℕ → Sheet → Sheet
sheet_bytes [] s = s
sheet_bytes (c ∷ cs) s = sheet_bytes cs (sheet_byte s.mode c s)

pub sheet_bytes-append :
    (cs ds : List ℕ) (s : Sheet) → sheet_bytes (cs ++ ds) s ≡ sheet_bytes ds (sheet_bytes cs s)
unfolding sheet_bytes
sheet_bytes-append [] ds s = refl
sheet_bytes-append (c ∷ cs) ds s = sheet_bytes-append cs ds (sheet_byte s.mode c s)

-- The prints of `n` slices from slice `k` on, where slice 0 lies at `margin`.
unfoldable pub strip : (y margin n k : ℕ) → (ℕ → ℕ) → List (ℕ × ℕ × ℕ) → List (ℕ × ℕ × ℕ)
strip y margin zero k f prints = prints
strip y margin (suc n) k f prints = strip y margin n (k + 1) f ((y, margin + k, f k) ∷ prints)

slices-strip :
    (n y margin k : ℕ) (f : ℕ → ℕ) (prints : List (ℕ × ℕ × ℕ))
    → sheet_bytes
        (slices_from (suc n) k f)
        (record { mode = print n; at = margin + k; y = y; prints = prints })
      ≡ sheet_at (margin + k + suc n) y (strip y margin (suc n) k f prints)
unfolding sheet_bytes sheet_byte slices_from strip
slices-strip zero y margin k f prints = refl
slices-strip (suc n) y margin k f prints =
    let e : margin + k + 1 ≡ margin + (k + 1) = omega arith in
    let e' : margin + (k + 1) + suc n ≡ margin + k + suc (suc n) = omega arith in
    let prints' : List (ℕ × ℕ × ℕ) = (y, margin + k, f k) ∷ prints in
    ap
      (λ a.
        sheet_bytes (slices_from (suc n) (k + 1) f)
          (record { mode = print n; at = a; y = y; prints = prints' }))
      e
    ∙ slices-strip n y margin (k + 1) f prints'
    ∙ ap (λ a. sheet_at a y (strip y margin (suc n) (k + 1) f prints')) e'

move-sheet :
    (b : Band) (pos margin y : ℕ) (prints : List (ℕ × ℕ × ℕ))
    → b.min_slice < 256
    → pos < 256
    → sheet_bytes (move_bytes b pos) (sheet_at (margin + pos) y prints)
      ≡ sheet_at (margin + start_pos b pos) y prints
unfolding sheet_bytes sheet_byte move_bytes start_pos
move-sheet b pos margin y prints h k = ground arith

-- What a band prints.
unfoldable pub band_prints : Band → (pos margin y : ℕ) → List (ℕ × ℕ × ℕ) → List (ℕ × ℕ × ℕ)
band_prints b pos margin y prints =
    if b.max_slice == 0
    then prints
    else strip y margin (b.max_slice + 1 - start_pos b pos) (start_pos b pos) b.slices prints

-- The zone of the band is in order, and a byte counts it.
abbrev pub IsCounted : Band → Type 0
IsCounted b = (b.max_slice ≢ 0 → b.min_slice ≤ b.max_slice) × (b.max_slice < 255)

pub band-sheet :
    (b : Band) (pos margin y : ℕ) (prints : List (ℕ × ℕ × ℕ))
    → IsCounted b
    → pos < 256
    → (sheet_bytes (band_bytes b pos).0 (sheet_at (margin + pos) y prints)
        ≡ sheet_at (margin + (band_bytes b pos).1) y (band_prints b pos margin y prints))
      × ((band_bytes b pos).1 < 256)
unfolding band_bytes band_prints sheet_bytes sheet_byte
band-sheet b pos margin y prints (ord, small) psmall = elim (Bool-cases (b.max_slice == 0)) [
  | inl none_ ↦ rw none_ (refl, psmall)
  | inr some_ ↦
      let st = start_pos b pos in
      let ne : b.max_slice ≢ 0 = ground arith in
      let le : st ≤ b.min_slice = start_pos-le b pos in
      let le' = ord ne in
      let n : b.max_slice + 1 - st ≡ suc (b.max_slice - st) = omega arith in
      let byte : to_byte (b.max_slice + 1 - st) ≡ suc (b.max_slice - st) = omega arith in
      let goes : leb st b.max_slice ≡ true = ground arith in
      let last : margin + st + suc (b.max_slice - st) ≡ margin + (b.max_slice + 1) = omega arith in
      rw (some_, goes, byte, n)
        (
          sheet_bytes-append (move_bytes b pos) _ (sheet_at (margin + pos) y prints)
              ∙ rw (move-sheet b pos margin y prints (omega arith) psmall) (
                  slices-strip (b.max_slice - st) y margin st b.slices prints
                  ∙ ap
                      (λ a.
                        sheet_at a y (strip y margin (suc (b.max_slice - st)) st b.slices prints))
                      last),
          omega arith,
        )
]

-- The dot `n` of a slice, in its bit `n`.
unfoldable pub dot_of : (n byte : ℕ) → Bool
dot_of zero byte = byte % 2 == 1
dot_of (suc n) byte = dot_of n (byte / 2)

bits_below-shift :
    (n : ℕ) (b : ℕ → Bool)
    → bits_below (suc n) b ≡ (if b 0 then 1 else 0) + bits_below n (λ i. b (suc i)) * 2
unfolding bits_below
bits_below-shift zero b = omega arith
bits_below-shift (suc n) b =
    let ih = bits_below-shift n b in
    let double : 2 ^ suc n ≡ 2 ^ n * 2 = pow-suc 2 n in
    elim (Bool-cases (b (suc n))) [
      | inl e ↦ rw e (omega (arith, ih, double))
      | inr e ↦ rw e (omega (arith, ih))
    ]

bit_parts :
    (t : Bool) (rest : ℕ)
    → ((((if t then 1 else 0) + rest * 2) % 2 == 1) ≡ t)
      × (((if t then 1 else 0) + rest * 2) / 2 ≡ rest)
bit_parts true rest = (ground arith, omega arith)
bit_parts false rest = (ground arith, omega arith)

pub dot_of-bits : (n k : ℕ) (b : ℕ → Bool) → n < k → dot_of n (bits_below k b) ≡ b n
unfolding dot_of
dot_of-bits n zero b h = elim h [ ]
dot_of-bits zero (suc k) b h =
    ap (λ x. x % 2 == 1) (bits_below-shift k b)
    ∙ (bit_parts (b 0) (bits_below k (λ i. b (suc i)))).0
dot_of-bits (suc n) (suc k) b h =
    ap (λ x. dot_of n (x / 2)) (bits_below-shift k b)
    ∙ ap (dot_of n) (bit_parts (b 0) (bits_below k (λ i. b (suc i)))).1
    ∙ dot_of-bits n k (λ i. b (suc i)) (omega arith)

-- A slice printed at row `y` sets this dot of its column: its dots are two rows apart.
unfoldable pub sets : (y byte row : ℕ) → Bool
sets y byte row =
    leb y row && ltb row (y + 16) && ((row - y) % 2 == 0) && dot_of ((row - y) / 2) byte

-- The dot at a row and a column is on the paper.
unfoldable pub shown : List (ℕ × ℕ × ℕ) → (row col : ℕ) → Bool
shown [] row col = false
shown ((y, x, byte) ∷ prints) row col = x == col && sets y byte row || shown prints row col

pub shown-strip :
    (y margin n k : ℕ) (f : ℕ → ℕ) (prints : List (ℕ × ℕ × ℕ)) (row c : ℕ)
    → shown (strip y margin n k f prints) row (margin + c)
      ≡ (leb k c && ltb c (k + n) && sets y (f c) row || shown prints row (margin + c))
unfolding strip shown
shown-strip y margin zero k f prints row c = ground arith
shown-strip y margin (suc n) k f prints row c =
    let ih = shown-strip y margin n (k + 1) f ((y, margin + k, f k) ∷ prints) row c in
    elim (ℕ_discrete k c) [
      | yes e ↦
          let same : sets y (f k) row ≡ sets y (f c) row = ap (λ i. sets y (f i) row) e in
          ih ∙ ground arith
      | no ne ↦ ih ∙ ground arith
    ]
