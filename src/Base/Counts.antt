-- ===== src/Base/Counts.antt =====
-- Counted loops that cannot fail, their rule, and bytes built from bits.
use Prim.Native.Nat.{ℕ, zero, suc, ◌+◌, ◌*◌, ◌^◌, ◌≤◌, ◌<◌, bit_or}
use mathlib.Core.Path.{◌≡◌, refl}
use mathlib.Core.Bool.{Bool, true, ◌&&◌}
use native.Mathlib.Omega.{arith}
use native.Mathlib.Nat.{pow-suc}
use slap.Base.Bools.{◌==◌, if◌then◌else◌, ==_iff}

-- for (k = i; k < i + n; ++k) s = body k s
unfoldable pub repeat {ℓ} : {S : Type ℓ} → (n i : ℕ) → (ℕ → S → S) → S → S
repeat zero i body s = s
repeat (suc n) i body s = repeat n (i + 1) body (body i s)

pub repeat-inv {ℓ κ} :
    {S : Type ℓ} (P : ℕ → S → Type κ) (body : ℕ → S → S) (n i j : ℕ) (s : S)
    → i + n ≡ j
    → ((k : ℕ) (t : S) → i ≤ k → k < j → P k t → P (k + 1) (body k t))
    → P i s
    → P j (repeat n i body s)
unfolding repeat
repeat-inv P body zero i j s e keep h = let e' : i ≡ j = omega arith in rw (← e') h
repeat-inv P body (suc n) i j s e keep h =
    repeat-inv P body n (i + 1) j (body i s) (omega arith)
      (λ k t lo hi p. keep k t (omega arith) hi p) (keep i s (omega arith) (omega arith) h)

-- The test holds of every number that is smaller.
unfoldable pub holds_below : (ℕ → Bool) → ℕ → Bool
holds_below test zero = true
holds_below test (suc last) = holds_below test last && test last

pub below_holds :
    (test : ℕ → Bool) (bound k : ℕ) → k < bound → holds_below test bound ≡ true → test k ≡ true
unfolding holds_below
below_holds test zero k small all = absurd (omega arith)
below_holds test (suc last) k small all = ground (arith, below_holds test last k)

abbrev or_test : ℕ → Bool
or_test n = holds_below (λ v. bit_or v (2 ^ n) == v + 2 ^ n) (2 ^ n)

or_table : holds_below or_test 8 ≡ true
unfolding holds_below
or_table = refl

-- Setting a bit above all the bits of a number adds it.
pub bit_or-add : (n v : ℕ) → n < 8 → v < 2 ^ n → bit_or v (2 ^ n) ≡ v + 2 ^ n
bit_or-add n v h k = (==_iff _ _).0 (below_holds _ (2 ^ n) v k (below_holds or_test 8 n h or_table))

-- The number whose bits below `n` are given, the bit 0 first.
unfoldable pub bits_below : ℕ → (ℕ → Bool) → ℕ
bits_below zero b = 0
bits_below (suc n) b = bits_below n b + (if b n then 2 ^ n else 0)

pub bits_below-lt : (n : ℕ) (b : ℕ → Bool) → bits_below n b < 2 ^ n
unfolding bits_below
bits_below-lt zero b = omega arith
bits_below-lt (suc n) b =
    let e : 2 ^ suc n ≡ 2 ^ n * 2 = pow-suc 2 n in rw e (ground (arith, bits_below-lt n b))
