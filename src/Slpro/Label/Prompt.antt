-- ===== src/Slpro/Label/Prompt.antt =====
-- What the driver's runs send to a printer of the SLP-Pro family that is always ready, as bytes.
use slap.Base.{ℕ, suc, ◌≡◌, refl, true, List, [], ◌∷◌, ◌++◌}
use slap.Base.Int.{ℤ}
use slap.Base.Result.{Returns}
use slap.Serial.{Port, Event, bytes, ◌>>=◌, give}
pub use slap.Serial.Traffic.{IsAny}
use slap.Slpro.Line.{Host, State, Run, emit, now}
use slap.Slpro.Status.{sense}
use slap.Slpro.Status.Quiet.{bytes-IsDeaf}
use slap.Slpro.Wait.{wait_for_idle_with}
use slap.Slpro.Wait.Polled
pub use slap.Slpro.Wait.Polled.{IsPrompt, IsReady}

-- The run ends without a fault, in a value with the property, and has written these bytes.
abbrev pub Sends : {A : Type 0} → List ℕ → (A → Type 0) → Run A → Type 0
Sends bs Q m = Polled.Sends bytes bytes-IsDeaf bs Q m

pub Sends-bind :
    {A B : Type 0} (bs cs : List ℕ) (Q : A → Type 0) (R : B → Type 0) (m : Run A) (k : A → Run B)
    → Sends bs Q m
    → ((a : A) → Q a → Sends cs R (k a))
    → Sends (bs ++ cs) R (m >>= k)
Sends-bind = Polled.Sends-bind bytes bytes-IsDeaf

pub Sends-silent :
    {A : Type 0} (Q : A → Type 0) (m : Run A)
    → ((s : State)
        → IsReady s
        → Returns (m s) (λ (a, t). Q a × IsReady t × (bytes t.log ≡ bytes s.log)))
    → Sends [] Q m
Sends-silent = Polled.Sends-silent bytes bytes-IsDeaf

pub Sends-give : {A : Type 0} (Q : A → Type 0) (a : A) → Q a → Sends [] Q (give a)
Sends-give = Polled.Sends-give bytes bytes-IsDeaf

pub Sends-emit :
    (e : Event) → ((es : List Event) → bytes (e ∷ es) ≡ bytes es) → Sends [] IsAny (emit e)
Sends-emit = Polled.Sends-emit bytes bytes-IsDeaf

module _ (port : Port) (prompt : IsPrompt port) where
  pub sense-Sends : (n : ℕ) (t : ℤ) → Sends [] (λ a. a ≡ 0x10) (sense port (suc (suc n)) t)
  sense-Sends = Polled.sense-Sends bytes bytes-IsDeaf port prompt

  pub now-Sends : Sends [] IsAny (now port)
  now-Sends = Polled.now-Sends bytes bytes-IsDeaf port prompt

  module _ (host : Host) (m : ℕ) where
    pub wait_for_idle-Sends :
        (fault : ℤ → Run ℕ) (t : ℕ)
        → Sends [] (λ a. a ≡ true) (wait_for_idle_with host port (suc (suc m)) fault t)
    unfolding bytes
    wait_for_idle-Sends =
        Polled.wait_for_idle-Sends bytes bytes-IsDeaf port prompt host m (λ es. refl)
