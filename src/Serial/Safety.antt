-- ===== src/Serial/Safety.antt =====
-- What holds of a driver's state wherever a run ends without a fault.
use slap.Base.{◌≡◌, refl, Bool, true, false, ◌⊎◌, inl, inr, if◌then◌else◌}
use slap.Base.Result.{Result, ok, err, Fault, Keeps}
use slap.Serial.{Over, ◌>>=◌, give, fail, done}

Result-cases :
    {A : Type 0} (r : Result A) → ((a : A) × (r ≡ ok a)) ⊎ ((why : Fault) × (r ≡ err why))
Result-cases (ok a) = inl (a, refl)
Result-cases (err why) = inr (why, refl)

module _ {S : Type 0} where
  pub Keeps-then :
      {A B : Type 0} (P : A × S → Type 0) (Q : B × S → Type 0) (m : Over S A) (k : A → Over S B)
      (s : S)
      → Keeps P (m s)
      → ((a : A) (t : S) → P (a, t) → Keeps Q (k a t))
      → Keeps Q ((m >>= k) s)
  Keeps-then P Q m k s h next = elim (Result-cases (m s)) [
    | inl ((a, t), e) ↦ rw (◌>>=◌, e) (next a t (rw e at h))
    | inr (why, e) ↦ rw (◌>>=◌, e) tt
  ]

  -- Where nothing need be known of the first run.
  pub Keeps-after :
      {A B : Type 0} (Q : B × S → Type 0) (m : Over S A) (k : A → Over S B) (s : S)
      → ((a : A) (t : S) → Keeps Q (k a t))
      → Keeps Q ((m >>= k) s)
  Keeps-after Q m k s next = elim (Result-cases (m s)) [
    | inl ((a, t), e) ↦ rw (◌>>=◌, e) (next a t)
    | inr (why, e) ↦ rw (◌>>=◌, e) tt
  ]

  module _ (P : S → Type 0) where
    -- The run leaves the property as it finds it.
    pub record Stays {A : Type 0} (m : Over S A) : Type 0 where
      pub run : (s : S) → P s → Keeps (λ (a, t). P t) (m s)

    pub Stays-bind :
        {A B : Type 0} (m : Over S A) (k : A → Over S B)
        → Stays m
        → ((a : A) → Stays (k a))
        → Stays (m >>= k)
    Stays-bind m k h next = record {
      run = λ s p.
          Keeps-then (λ (a, t). P t) (λ (b, t). P t) m k s (h.run s p) (λ a t q. (next a).run t q);
    }

    pub Stays-if :
        {A : Type 0} (b : Bool) (m n : Over S A) → Stays m → Stays n → Stays (if b then m else n)
    Stays-if true m n h k = h
    Stays-if false m n h k = k

    pub Stays-give : {A : Type 0} (a : A) → Stays (give a)
    Stays-give a = record { run = λ s p. p }

    pub Stays-done : Stays done
    Stays-done = record { run = λ s p. p }

    pub Stays-fail : {A : Type 0} (why : Fault) → Stays (fail {S = S} {A = A} why)
    Stays-fail why = record { run = λ s p. tt }
