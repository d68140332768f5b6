-- ===== src/Serial/Traffic.antt =====
-- What a driver's run writes to the port, when it ends without a fault.
use mathlib.Core.List.{append-nil, append_assoc}
use slap.Base.{ℕ, ◌+◌, some, ◌≡◌, refl, ap, sym, ◌∙◌, List, [], ◌∷◌, ◌++◌}
use slap.Base.Result.{Returns, returns, mono}
use slap.Serial.{Port, Over, ◌>>=◌, give}

-- From its `k`-th answer on, the port delivers these buffers, none of them empty, and then nothing.
abbrev pub Delivers : Port → ℕ → List (ℕ × List ℕ) → Type 0
Delivers port k [] = port.reads k ≡ some []
Delivers port k ((c, cs) ∷ bufs) = (port.reads k ≡ some (c ∷ cs)) × Delivers port (k + 1) bufs

abbrev pub IsAny : {A : Type 0} → A → Type 0
IsAny a = Unit {0}

-- The states that are ready for the next call, and what has been written so far in a state.
module _ {S X : Type 0} (IsReady : S → Type 0) (written : S → List X) where
  -- From a state that is ready the run ends without a fault in one that is ready, in a value with
  -- the property, and has written these.
  abbrev pub Writes : {A : Type 0} → List X → (A → Type 0) → Over S A → Type 0
  Writes bs Q m =
      (s : S)
      → IsReady s
      → Returns (m s) (λ (a, t). Q a × IsReady t × (written t ≡ written s ++ bs))

  pub Writes-bind :
      {A B : Type 0} (bs cs : List X) (Q : A → Type 0) (R : B → Type 0) (m : Over S A)
      (k : A → Over S B)
      → Writes bs Q m
      → ((a : A) → Q a → Writes cs R (k a))
      → Writes (bs ++ cs) R (m >>= k)
  Writes-bind bs cs Q R m k h next s b =
      let r = h s b in
      let r' = next (r.value).0 (r.holds).0 (r.value).1 (r.holds).1 in
      rw (◌>>=◌, r.equals)
        (mono r' (λ (c, u) (q, e, l).
          (q, e, l ∙ ap (λ x. x ++ cs) (r.holds).2 ∙ append_assoc (written s) bs cs)))

  -- A run that leaves the state ready, and what was written as it was.
  pub Writes-silent :
      {A : Type 0} (Q : A → Type 0) (m : Over S A)
      → ((s : S) → IsReady s → Returns (m s) (λ (a, t). Q a × IsReady t × (written t ≡ written s)))
      → Writes [] Q m
  Writes-silent Q m h s b =
      mono (h s b) (λ (a, t) (q, r, e). (q, r, e ∙ sym (append-nil (written s))))

  pub Writes-give : {A : Type 0} (Q : A → Type 0) (a : A) → Q a → Writes [] Q (give a)
  Writes-give Q a q = Writes-silent Q (give a) (λ s b. returns _ (q, b, refl))
