-- ===== src/Base/Loops.antt =====
-- Counted loops whose body may fault, and their rule.
use slap.Base.Result.{Fault, Result, ok, err, Returns, returns, Keeps}
use Prim.Native.Nat.{ℕ, zero, suc, ◌+◌, ◌≤◌, ◌<◌}
use mathlib.Core.Path.{◌≡◌, refl}
use mathlib.Core.Logic.{◌⊎◌, inl, inr}
use native.Mathlib.Decide.{ℕ_discrete}
use native.Mathlib.Omega.{arith}

module _ {ℓ} {S : Type ℓ} where
  -- for (k = i; k < i + n; ++k) s = body k s
  unfoldable pub for_range : (n i : ℕ) → (ℕ → S → Result S) → S → Result S
  for_range zero i body s = ok s
  for_range (suc n) i body s = elim (body i s) [ ok t ↦ for_range n (i + 1) body t | err e ↦ err e ]

module _ {ℓ κ} {S : Type ℓ} (P : ℕ → S → Type κ) (body : ℕ → S → Result S) where
  -- The invariant rule. The end `j` is a variable with an equation.
  pub for_range-Returns :
      (n i j : ℕ) (s : S)
      → i + n ≡ j
      → ((k : ℕ) (t : S) → i ≤ k → k < j → P k t → Returns (body k t) (P (k + 1)))
      → P i s
      → Returns (for_range n i body s) (P j)
  unfolding for_range
  for_range-Returns zero i j s e keep h = let e' : i ≡ j = omega arith in rw (← e') (returns s h)
  for_range-Returns (suc n) i j s e keep h =
      let step = keep i s (omega arith) (omega arith) h in
      rw (step.equals, for_range)
        (for_range-Returns n (i + 1) j step.value (omega arith)
          (λ k t lo hi p. keep k t (omega arith) hi p) step.holds)

module _ {ℓ} {S : Type ℓ} (body : ℕ → S → Result S) (e : Fault) where
  -- A loop whose body can only fail with `e`, and fails so in one of its rounds, fails with `e`.
  pub for_range-err :
      (n i k : ℕ) (s : S)
      → i ≤ k
      → k < i + n
      → ((j : ℕ) (t : S) → ((u : S) × (body j t ≡ ok u)) ⊎ (body j t ≡ err e))
      → ((t : S) → body k t ≡ err e)
      → for_range n i body s ≡ err e
  unfolding for_range
  for_range-err zero i k s lo hi cases fails = absurd (omega arith)
  for_range-err (suc n) i k s lo hi cases fails = elim (cases i s) [
    | inr h ↦ rw (h, for_range)
    | inl (t, h) ↦ elim (ℕ_discrete i k) [
      | yes p ↦ rw (p, fails s, for_range)
      | no p ↦
          rw (h, for_range) (for_range-err n (i + 1) k t (omega arith) (omega arith) cases fails)
    ]
  ]

  -- Such a loop ends well or fails with `e`.
  pub for_range-cases :
      (n i : ℕ) (s : S)
      → ((j : ℕ) (t : S) → ((u : S) × (body j t ≡ ok u)) ⊎ (body j t ≡ err e))
      → ((u : S) × (for_range n i body s ≡ ok u)) ⊎ (for_range n i body s ≡ err e)
  unfolding for_range
  for_range-cases zero i s cases = inl (s, refl)
  for_range-cases (suc n) i s cases = elim (cases i s) [
    | inr h ↦ inr (rw (h, for_range))
    | inl (t, h) ↦ rw (h, for_range) (for_range-cases n (i + 1) t cases)
  ]

-- What each round keeps holds at the end of a loop that does not fail.
pub for_range-Keeps {ℓ κ} :
    {S : Type ℓ} (P : S → Type κ) (body : ℕ → S → Result S)
    → ((k : ℕ) (t : S) → P t → Keeps P (body k t))
    → (n i : ℕ) (s : S) → P s
    → Keeps P (for_range n i body s)
unfolding for_range
for_range-Keeps P body keep zero i s h = h
for_range-Keeps {S} P body keep (suc n) i s h =
    rest (body i s) (keep i s h) (λ t k. for_range-Keeps P body keep n (i + 1) t k)
  where
    rest :
        (r : Result S)
        → Keeps P r
        → ((t : S) → P t → Keeps P (for_range n (i + 1) body t))
        → Keeps P (elim r [ ok t ↦ for_range n (i + 1) body t | err e ↦ err e ])
    rest (ok t) k next = next t k
    rest (err e) k next = tt
