-- ===== src/Slpro/Label/Printer.antt =====
-- A printer of the SLP-Pro family as the driver takes it to be: what it makes of the bytes it gets.
use slap.Base.{
  ℕ, zero, suc, ◌+◌, ◌*◌, ◌/◌, ◌%◌, ◌<◌, ◌≡◌, refl, sym, ap, ◌∙◌, Bool, true, false, ◌==◌, List, [],
  ◌∷◌, ◌++◌, map, length, get_or, arith, if◌then◌else◌,
}
use slap.Slpro.Map.Packed.{packed}
use mathlib.Core.List.{append-nil, append_assoc}

-- What the next byte is: a command, the number of slices of a band, or one of the slices that are
-- still to come, after these dots of the band.
pub data Mode : Type 0 where
  command count : Mode
  slices : ℕ → List Bool → Mode

-- The rows on the label so far, and the labels that are finished.
pub record Printer : Type 0 where
  pub mode : Mode
  pub rows : List (List Bool)
  pub labels : List (List (List Bool))

-- The lowest `n` dots of a byte, the highest first.
unfoldable pub dots : (n b : ℕ) → List Bool
dots zero b = []
dots (suc n) b = dots n (b / 2) ++ (b % 2 == 1) ∷ []

-- The band is complete.
abbrev pub finish_row : List Bool → Printer → Printer
finish_row row p = record p { mode = command; rows = p.rows ++ row ∷ [] }

-- A slice more, with `n` to come after it.
abbrev pub take_slice : ℕ → List Bool → Printer → Printer
take_slice zero row p = finish_row row p
take_slice (suc n) row p = record p { mode = slices (suc n) row }

-- 0x0A feeds one band, 0x04 begins a band, and 0x0C feeds to the next label; others print nothing.
unfoldable pub take_byte : Mode → ℕ → Printer → Printer
take_byte command b p =
    if b == 0xA
    then finish_row [] p
    else if b == 0x4
    then record p { mode = count }
    else if b == 0xC
    then record p { rows = []; labels = p.labels ++ p.rows ∷ [] }
    else p
take_byte count zero p = finish_row [] p
take_byte count (suc n) p = record p { mode = slices (suc n) [] }
take_byte (slices zero row) b p = p
take_byte (slices (suc n) row) b p = take_slice n (row ++ dots 8 b) p

unfoldable pub take_bytes : List ℕ → Printer → Printer
take_bytes [] p = p
take_bytes (b ∷ bs) p = take_bytes bs (take_byte p.mode b p)

pub take_bytes-append :
    (cs bs : List ℕ) (p : Printer) → take_bytes (cs ++ bs) p ≡ take_bytes bs (take_bytes cs p)
unfolding take_bytes
take_bytes-append [] bs p = refl
take_bytes-append (c ∷ cs) bs p = take_bytes-append cs bs (take_byte p.mode c p)

-- The dots of some slices, one after the other.
unfoldable pub flat : List ℕ → List Bool
flat [] = []
flat (b ∷ bs) = dots 8 b ++ flat bs

-- The slices that the printer waits for make the rest of the row.
slices-row :
    (bs : List ℕ) (row : List Bool) (p : Printer)
    → take_bytes bs (take_slice (length bs) row p) ≡ finish_row (row ++ flat bs) p
unfolding take_bytes take_byte flat
slices-row [] row p = rw append-nil refl
slices-row (b ∷ bs) row p =
    slices-row bs (row ++ dots 8 b) (record p { mode = slices (suc (length bs)) row })
    ∙ ap (λ r. finish_row r p) (append_assoc row (dots 8 b) (flat bs))

-- A band of that many slices is a row.
pub band-row :
    (bs : List ℕ) (p : Printer)
    → p.mode ≡ command
    → take_bytes (0x4 ∷ length bs ∷ bs) p ≡ finish_row (flat bs) p
unfolding take_bytes take_byte flat
band-row [] p m = rw m refl
band-row (b ∷ bs) p m = rw m (slices-row (b ∷ bs) [] p)

-- The first `n` values.
unfoldable pub firsts {ℓ} : {A : Type ℓ} → (n : ℕ) → (ℕ → A) → List A
firsts zero f = []
firsts (suc n) f = firsts n f ++ f n ∷ []

firsts-add {ℓ} :
    {A : Type ℓ} (m n : ℕ) (f : ℕ → A) → firsts (m + n) f ≡ firsts m f ++ firsts n (λ i. f (m + i))
unfolding firsts
firsts-add m zero f =
    let e : m + 0 ≡ m = omega arith in ap (λ k. firsts k f) e ∙ sym (append-nil (firsts m f))
firsts-add m (suc n) f =
    let e : m + suc n ≡ suc (m + n) = omega arith in
    ap (λ k. firsts k f) e
    ∙ ap (λ xs. xs ++ f (m + n) ∷ []) (firsts-add m n f)
    ∙ append_assoc (firsts m f) (firsts n (λ i. f (m + i))) (f (m + n) ∷ [])

-- A digit more.
halves :
    (x : ℕ) (b : Bool)
    → ((x * 2 + (if b then 1 else 0)) / 2 ≡ x) × (((x * 2 + (if b then 1 else 0)) % 2 == 1) ≡ b)
halves x true = (omega arith, ground arith)
halves x false = (omega arith, ground arith)

-- A byte that packs eight dots.
dots-packed : (n : ℕ) (f : ℕ → Bool) → dots n (packed n f) ≡ firsts n f
unfolding dots packed firsts
dots-packed zero f = refl
dots-packed (suc n) f = let h = halves (packed n f) (f n) in rw (h.0, h.1, dots-packed n f) refl

moved : (k n : ℕ) → suc k * 8 + n ≡ 8 + (k * 8 + n)
moved k n = omega arith

one_more : (j : ℕ) → suc j ≡ 1 + j
one_more j = omega arith

below : {k n : ℕ} → k < n → suc k < suc n
below lt = omega arith

-- Slices that each pack eight dots of a row.
pub flat-packed :
    (bs : List ℕ) (f : ℕ → Bool)
    → ((k : ℕ) → k < length bs → get_or bs k 0 ≡ packed 8 (λ n. f (k * 8 + n)))
    → flat bs ≡ firsts (length bs * 8) f
unfolding flat firsts
flat-packed [] f h = refl
flat-packed (b ∷ bs) f h =
    let here : dots 8 b ≡ firsts 8 f = ap (dots 8) (h 0 (omega arith)) ∙ dots-packed 8 _ in
    let e : suc (length bs) * 8 ≡ 8 + length bs * 8 = omega arith in
    let next : (k : ℕ) → (λ n. f (suc k * 8 + n)) ≡ (λ n. f (8 + (k * 8 + n))) =
      λ k i n. f (moved k n i) in
    let rest =
      flat-packed bs (λ c. f (8 + c)) (λ k lt. h (suc k) (below lt) ∙ ap (packed 8) (next k)) in
    ap (λ xs. xs ++ flat bs) here
    ∙ ap (λ xs. firsts 8 f ++ xs) rest
    ∙ sym (firsts-add 8 (length bs * 8) f)
    ∙ ap (λ k. firsts k f) (sym e)

-- Rows that are known one by one.
pub map-firsts :
    (bands : List (List ℕ)) (f : ℕ → List Bool)
    → ((j : ℕ) → j < length bands → flat (get_or bands j []) ≡ f j)
    → map flat bands ≡ firsts (length bands) f
unfolding firsts
map-firsts [] f h = refl
map-firsts (b ∷ bands) f h =
    let e : 1 + length bands ≡ suc (length bands) = omega arith in
    let next : (j : ℕ) → f (suc j) ≡ f (1 + j) = λ j. ap f (one_more j) in
    let rest = map-firsts bands (λ j. f (1 + j)) (λ j lt. h (suc j) (below lt) ∙ next j) in
    ap (λ x. x ∷ map flat bands) (h 0 (omega arith))
    ∙ ap (λ xs. f 0 ∷ xs) rest
    ∙ sym (firsts-add 1 (length bands) f)
    ∙ ap (λ k. firsts k f) e
