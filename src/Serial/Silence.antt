-- ===== src/Serial/Silence.antt =====
-- A port where no printer answers, and runs that end on it.
use slap.Base.{ℕ, ◌+◌, ◌<◌, ◌≡◌, true, [], some}
use slap.Base.Result.{Returns}
use slap.Serial.{Port, Over, ◌>>=◌}

-- No byte ever arrives, no call fails, and the clock goes on by a second or more between two looks.
pub record IsSilent (port : Port) : Type 0 where
  pub nothing : (k : ℕ) → port.reads k ≡ some []
  pub writes_ok : (k : ℕ) → port.writes k ≡ true
  pub sets_ok : (k : ℕ) → port.sets k ≡ true
  pub goes_on : (k : ℕ) → port.clock k < port.clock (k + 1)

module _ {S : Type 0} (IsLost : S → Type 0) where
  -- From such a state the run ends without a fault in such a state, in a value with the property.
  abbrev pub Goes : {A : Type 0} → (A → Type 0) → Over S A → Type 0
  Goes Q m = (s : S) → IsLost s → Returns (m s) (λ (a, t). Q a × IsLost t)

  pub Goes-bind :
      {A B : Type 0} (Q : A → Type 0) (R : B → Type 0) (m : Over S A) (k : A → Over S B)
      → Goes Q m
      → ((a : A) → Q a → Goes R (k a))
      → Goes R (m >>= k)
  Goes-bind Q R m k h next s l =
      let r = h s l in rw (◌>>=◌, r.equals) (next (r.value).0 (r.holds).0 (r.value).1 (r.holds).1)
