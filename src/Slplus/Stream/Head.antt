-- ===== src/Slplus/Stream/Head.antt =====
-- A print head that carries out the commands, and what it prints for a band.
use slap.Base.{
  ℕ, zero, suc, ◌+◌, ◌-◌, ◌≤◌, ◌<◌, ◌≡◌, ◌≢◌, refl, ap, ◌∙◌, true, false, List, [], ◌∷◌, ◌++◌, ◌==◌,
  if◌then◌else◌, leb, arith,
}
use slap.Slplus.Map.{Band}
use slap.Slplus.Stream.{
  to_byte, cmd_print, cmd_right, cmd_left, cmd_home, slices_from, start_pos, move_bytes, band_bytes,
}

-- What the head waits for.
pub data Mode : Type 0 where
  command right left count : Mode
  print : (n : ℕ) → Mode

-- The slice in front of the head, and the slices that it has printed there, the latest first.
pub record Head : Type 0 where
  pub mode : Mode
  pub at : ℕ
  pub ink : List (ℕ × ℕ)

-- The head on one byte, by what it waits for. Commands that do not move it are passed over.
receive_in : Mode → Head → ℕ → Head
receive_in command h c =
    if c == cmd_right
    then record h { mode = right }
    else if c == cmd_left
    then record h { mode = left }
    else if c == cmd_print
    then record h { mode = count }
    else if c == cmd_home
    then record h { at = 0 }
    else h
receive_in right h c = record h { mode = command; at = h.at + c }
receive_in left h c = record h { mode = command; at = h.at - c }
receive_in count h zero = record h { mode = command }
receive_in count h (suc n) = record h { mode = print n }
receive_in (print zero) h c = record { mode = command; at = h.at + 1; ink = (h.at, c) ∷ h.ink }
receive_in (print (suc n)) h c = record { mode = print n; at = h.at + 1; ink = (h.at, c) ∷ h.ink }

unfoldable pub receive : Head → List ℕ → Head
unfolding receive_in
receive h [] = h
receive h (c ∷ cs) = receive (receive_in h.mode h c) cs

-- The ink of `n` slices of a band from slice `k` on, where slice 0 of the band lies at `margin`.
unfoldable pub inked : (margin n k : ℕ) → (ℕ → ℕ) → List (ℕ × ℕ) → List (ℕ × ℕ)
inked margin zero k f ink = ink
inked margin (suc n) k f ink = inked margin n (k + 1) f ((margin + k, f k) ∷ ink)

abbrev pub head_at : ℕ → List (ℕ × ℕ) → Head
head_at k ink = record { mode = command; at = k; ink = ink }

receive-append : (xs ys : List ℕ) (h : Head) → receive h (xs ++ ys) ≡ receive (receive h xs) ys
unfolding receive
receive-append [] ys h = refl
receive-append (x ∷ xs) ys h = receive-append xs ys _

receive-slices :
    (n margin k : ℕ) (f : ℕ → ℕ) (ink : List (ℕ × ℕ))
    → receive (record { mode = print n; at = margin + k; ink = ink }) (slices_from (suc n) k f)
      ≡ head_at (margin + k + suc n) (inked margin (suc n) k f ink)
unfolding receive slices_from inked
receive-slices zero margin k f ink = refl
receive-slices (suc n) margin k f ink =
    let e : margin + k + 1 ≡ margin + (k + 1) = omega arith in
    let e' : margin + (k + 1) + suc n ≡ margin + k + suc (suc n) = omega arith in
    let ink' : List (ℕ × ℕ) = (margin + k, f k) ∷ ink in
    ap
      (λ a. receive (record { mode = print n; at = a; ink = ink' }) (slices_from (suc n) (k + 1) f))
      e
    ∙ receive-slices n margin (k + 1) f ink'
    ∙ ap (λ a. head_at a (inked margin (suc n) (k + 1) f ink')) e'

receive-move :
    (b : Band) (pos margin : ℕ) (ink : List (ℕ × ℕ))
    → b.min_slice < 256
    → pos < 256
    → receive (head_at (margin + pos) ink) (move_bytes b pos)
      ≡ head_at (margin + start_pos b pos) ink
unfolding receive move_bytes start_pos
receive-move b pos margin ink h k = ground arith

receive-print :
    (n margin k : ℕ) (f : ℕ → ℕ) (ink : List (ℕ × ℕ))
    → receive (head_at (margin + k) ink) (cmd_print ∷ suc n ∷ slices_from (suc n) k f)
      ≡ head_at (margin + k + suc n) (inked margin (suc n) k f ink)
unfolding receive
receive-print n margin k f ink = receive-slices n margin k f ink

pub start_pos-le : (b : Band) (pos : ℕ) → start_pos b pos ≤ b.min_slice
unfolding start_pos
start_pos-le b pos = ground arith

-- For slices and positions that a byte counts, the bytes for a band that has a dot in some slice
-- but the first put the band's slices on the
-- paper, from one at or before its zone up to the end of the zone, each in its place, and leave the
-- head where the driver thinks it is. A head that is `margin` slices further right than the driver
-- counts stays so.
pub band_bytes-ink :
    (b : Band) (pos margin : ℕ) (ink : List (ℕ × ℕ))
    → b.max_slice ≢ 0
    → b.min_slice ≤ b.max_slice
    → b.max_slice < 255
    → pos < 256
    → (receive (head_at (margin + pos) ink) (band_bytes b pos).0
        ≡ head_at
            (margin + (band_bytes b pos).1)
            (inked margin (b.max_slice + 1 - start_pos b pos) (start_pos b pos) b.slices ink))
      × ((band_bytes b pos).1 ≡ b.max_slice + 1)
      × (start_pos b pos ≤ b.min_slice)
unfolding band_bytes
band_bytes-ink b pos margin ink ne ord small psmall =
    let st = start_pos b pos in
    let le : st ≤ b.min_slice = start_pos-le b pos in
    let n : b.max_slice + 1 - st ≡ suc (b.max_slice - st) = omega arith in
    let byte : to_byte (b.max_slice + 1 - st) ≡ suc (b.max_slice - st) = omega arith in
    let some_dots : (b.max_slice == 0) ≡ false = ground arith in
    let goes : leb st b.max_slice ≡ true = ground arith in
    let last : margin + st + suc (b.max_slice - st) ≡ margin + (b.max_slice + 1) = omega arith in
    rw (some_dots, goes, byte, n)
      (
        receive-append (move_bytes b pos) _ (head_at (margin + pos) ink)
            ∙ rw (receive-move b pos margin ink (omega arith) psmall) (
                receive-print (b.max_slice - st) margin st b.slices ink
                ∙ ap (λ a. head_at a (inked margin (suc (b.max_slice - st)) st b.slices ink)) last),
        refl,
        le,
      )
