-- ===== src/Slpro/Status/Quiet.antt =====
-- Reading from the port changes nothing but the number of reads and the timeout.
use slap.Base.{ℕ, ◌+◌, ◌≡◌, refl, ap, true, not, Bool-cases, inl, inr, List, ◌∷◌, some}
use slap.Base.Int.{ℤ, eq_ℤ}
use slap.Base.Result.{Returns, returns}
use slap.Serial.{Port, Event, bytes, timeout_set, ◌>>=◌, ◌>>◌}
use slap.Slpro.Line.{State, read_port, set_port}
use slap.Slpro.Status.{set_timeout, recv_bytes}

-- What is kept of the events does not tell of another timeout.
pub record IsDeaf {X : Type 0} (seen : List Event → List X) : Type 0 where
  pub to_timeout : (t : ℤ) (es : List Event) → seen (timeout_set t ∷ es) ≡ seen es

pub bytes-IsDeaf : IsDeaf bytes
unfolding bytes
bytes-IsDeaf = record { to_timeout = λ t es. refl }

module _ {X : Type 0} (seen : List Event → List X) (deaf : IsDeaf seen) where
  -- The run ends in a state that is as before but for the port.
  abbrev pub Quiet : State → (reads : ℕ) → State → Type 0
  Quiet s reads u = (u.ps ≡ s.ps) × (u.nreads ≡ reads) × (seen u.log ≡ seen s.log)

  module _ (port : Port) (sets_ok : (k : ℕ) → port.sets k ≡ true) where
    set_timeout-Quiet :
        (t : ℤ) (s : State) → Returns (set_timeout port t s) (λ (a, u). Quiet s s.nreads u)
    unfolding set_timeout
    set_timeout-Quiet t s = elim (Bool-cases (not (eq_ℤ s.old_timeout t))) [
      | inl e ↦
          rw (◌>>=◌, ◌>>◌, set_port, e, sets_ok s.nsets)
            (returns _ (refl, refl, deaf.to_timeout _ s.log))
      | inr e ↦ rw e (returns _ (refl, refl, refl))
    ]

    pub recv_bytes-Quiet :
        (t : ℤ) (s : State) (buf : List ℕ)
        → port.reads s.nreads ≡ some buf
        → Returns (recv_bytes port t s) (λ (a, u). (a ≡ buf) × Quiet s (s.nreads + 1) u)
    unfolding recv_bytes
    recv_bytes-Quiet t s buf e =
        let r = set_timeout-Quiet t s in
        let e' : port.reads (State.nreads (r.value).1) ≡ some buf = rw (r.holds).1 e in
        rw (◌>>=◌, ◌>>◌, read_port, r.equals, e')
          (returns _ (refl, ((r.holds).0, ap (λ n. n + 1) (r.holds).1, (r.holds).2)))
