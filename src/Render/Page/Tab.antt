-- ===== src/Render/Page/Tab.antt =====
-- Where the loop for a tab ends.
use native.Mathlib.Nat.{add-div_right, mod-add-div, add-mul-mod_self_left, mod-eq_of_lt, mod-lt}
use slap.Base.{ℕ, zero, suc, ◌+◌, ◌-◌, ◌*◌, ◌/◌, ◌%◌, ◌≤◌, ◌<◌, ◌≡◌, ap, false, ◌==◌, ◌∙◌, arith}
use slap.Base.Words.{add32}
use slap.Base.Result.{ok}
use slap.Render.Page.{tab_loop, tab_rounds}

-- `k` rounds are left to the next stop.
tab_loop-rounds :
    (f s c k : ℕ)
    → 0 < s
    → k ≤ f
    → (c / s) % 8 + k ≡ 8
    → c + s * k < 4294967296
    → tab_loop f s c ≡ ok (c + s * k)
unfolding tab_loop
tab_loop-rounds f s c zero h m e b = absurd (omega arith)
tab_loop-rounds zero s c (suc k) h m e b = absurd (omega arith)
tab_loop-rounds (suc f) s c (suc zero) h m e b =
    let n : add32 c s ≡ c + s = omega arith in
    let d : (c + s) / s ≡ c / s + 1 = add-div_right c h in
    let t : ((c + s) / s) % 8 ≡ 0 = rw d (omega arith) in
    let g : c + s * 1 ≡ c + s = omega arith in rw (n, t, g) (ground arith)
tab_loop-rounds (suc f) s c (suc (suc k)) h m e b =
    let n : add32 c s ≡ c + s = omega arith in
    let d : (c + s) / s ≡ c / s + 1 = add-div_right c h in
    let ih =
      tab_loop-rounds f s (c + s) (suc k) h (omega arith) (rw d (omega arith)) (omega arith) in
    let g : c + s * suc (suc k) ≡ c + s + s * suc k = omega arith in
    let t : (((c + s) / s) % 8 == 0) ≡ false = rw d (ground arith) in
    rw (n, g, t, ih) (ground arith)

round_up : (s q k n r c : ℕ) → r + s * q ≡ c → q + k ≡ 8 * n → c + s * k ≡ r + 8 * s * n
round_up s q k n r c m e =
    let scaled : s * (q + k) ≡ s * (8 * n) = ap (λ x. s * x) e in omega (arith, m, scaled)

-- When the space-width is not zero and the column does not wrap, a tab moves the column to the
-- right by 8 space-widths at most, and to a place that is as far past a multiple of 8 space-widths
-- as the column was past a multiple of one. So it comes to a tab stop when the column was a
-- multiple of the space-width, and else past the stop.
pub tab_loop-stop :
    (s c : ℕ)
    → 0 < s
    → c + s * 8 < 4294967296
    → let stop = c + s * (8 - (c / s) % 8) in
      (tab_loop tab_rounds s c ≡ ok stop)
      × (c < stop)
      × (stop ≤ c + s * 8)
      × (stop % (8 * s) ≡ c % s)
tab_loop-stop s c h b =
    let q = c / s in
    let k = 8 - q % 8 in
    let m = mod-add-div c s in
    let whole = round_up s q k (q / 8 + 1) (c % s) c m (omega arith) in
    let low : c % s % (8 * s) ≡ c % s = mod-eq_of_lt (grind (arith, mod-lt c h)) in
    let wide : 1 ≤ k = omega arith in
    (
      tab_loop-rounds tab_rounds s c k h (omega arith) (omega arith) (grind arith),
      grind arith,
      grind arith,
      rw whole (add-mul-mod_self_left (c % s) (8 * s) (q / 8 + 1) ∙ low),
    )
