-- ===== src/Slpro/Wait/Polled.antt =====
-- A printer of the SLP-Pro family that is always ready, and what is written while it is polled.
use slap.Base.{
  ℕ, suc, ◌+◌, ◌*◌, ◌<◌, ◌≡◌, refl, ap, sym, subst, ◌∙◌, true, List, [], ◌∷◌, ◌++◌, some, arith,
}
use slap.Base.Int.{ℤ, pos}
use slap.Base.Result.{Returns, returns, mono}
use slap.Serial.{Port, Event, drained, ◌>>=◌, ◌>>◌, give}
pub use slap.Serial.Traffic.{IsAny}
use slap.Serial.Traffic.{Writes, Writes-bind, Writes-silent, Writes-give}
use slap.Slpro.Line.{Host, State, Run, emit, now}
use slap.Slpro.Status.{
  Look, checkpoint, ping_ok, garbled, logical, see_other, see_byte, see_bytes, inspect, sense_loop,
  sense,
}
use slap.Base.Bits.{without}
use slap.Slpro.Status.Quiet.{IsDeaf, Quiet, recv_bytes-Quiet}
use slap.Slpro.Wait.{idle_loop, wait_for_idle_with}

-- No call fails, and every poll of the port finds one byte that says that the printer is idle.
pub record IsPrompt (port : Port) : Type 0 where
  pub idle_byte : (k : ℕ) → port.reads (2 * k) ≡ some (0x50 ∷ [])
  pub then_nothing : (k : ℕ) → port.reads (2 * k + 1) ≡ some []
  pub writes_ok : (k : ℕ) → port.writes k ≡ true
  pub sets_ok : (k : ℕ) → port.sets k ≡ true

-- Between two polls, with none of the logical status bits set.
abbrev pub IsReady : State → Type 0
IsReady s = ((k : ℕ) × (s.nreads ≡ 2 * k)) × (s.ps < 64)

-- `seen` is what is kept of the events.
module _ {X : Type 0} (seen : List Event → List X) (deaf : IsDeaf seen) where
  -- The run ends without a fault, in a value with the property, and has written these.
  abbrev pub Sends : {A : Type 0} → List X → (A → Type 0) → Run A → Type 0
  Sends bs Q m = Writes IsReady (λ s. seen s.log) bs Q m

  pub Sends-bind :
      {A B : Type 0} (bs cs : List X) (Q : A → Type 0) (R : B → Type 0) (m : Run A) (k : A → Run B)
      → Sends bs Q m
      → ((a : A) → Q a → Sends cs R (k a))
      → Sends (bs ++ cs) R (m >>= k)
  Sends-bind = Writes-bind IsReady (λ s. seen s.log)

  pub Sends-silent :
      {A : Type 0} (Q : A → Type 0) (m : Run A)
      → ((s : State)
          → IsReady s
          → Returns (m s) (λ (a, t). Q a × IsReady t × (seen t.log ≡ seen s.log)))
      → Sends [] Q m
  Sends-silent = Writes-silent IsReady (λ s. seen s.log)

  pub Sends-give : {A : Type 0} (Q : A → Type 0) (a : A) → Q a → Sends [] Q (give a)
  Sends-give = Writes-give IsReady (λ s. seen s.log)

  pub Sends-emit :
      (e : Event) → ((es : List Event) → seen (e ∷ es) ≡ seen es) → Sends [] IsAny (emit e)
  Sends-emit e same = Sends-silent IsAny (emit e) (λ s b. returns _ (tt, b, same s.log))

  -- What `sense` makes of the byte of an idle printer.
  look_idle :
      (s : State) (t : ℤ)
      → s.ps < 64
      → inspect (see_bytes (0x50 ∷ []) (record { st = s; timeout = t; sb = 0 }))
        ≡ record { st = record s { ps = 0x10 }; timeout = pos 0; sb = 0x10 }
  unfolding inspect see_bytes see_byte see_other
  look_idle s t small = let e : logical (without garbled s.ps) ≡ 0 = ground arith in rw e refl

  module _ (port : Port) (prompt : IsPrompt port) where
    loop_end :
        (n : ℕ) (t : ℤ) (sb : ℕ) (s : State)
        → port.reads s.nreads ≡ some []
        → Returns (sense_loop port (suc n) t sb s) (λ (a, u). Quiet seen deaf s (s.nreads + 1) u)
    unfolding sense_loop
    loop_end n t sb s e =
        let r = recv_bytes-Quiet seen deaf port prompt.sets_ok t s [] e in
        rw (◌>>=◌, r.equals, (r.holds).0) (returns _ (r.holds).1)

    loop_idle :
        (n : ℕ) (t : ℤ) (s : State)
        → s.ps < 64
        → port.reads s.nreads ≡ some (0x50 ∷ [])
        → port.reads (s.nreads + 1) ≡ some []
        → Returns
            (sense_loop port (suc (suc n)) t 0 s)
            (λ (a, u). (u.ps ≡ 0x10) × (u.nreads ≡ s.nreads + 2) × (seen u.log ≡ seen s.log))
    unfolding sense_loop
    loop_idle n t s small e e' =
        let r = recv_bytes-Quiet seen deaf port prompt.sets_ok t s (0x50 ∷ []) e in
        let u = (r.value).1 in
        let next : port.reads u.nreads ≡ some [] = rw ((r.holds).1.1) e' in
        let l = look_idle u t (rw ((r.holds).1.0) small) in
        let q = loop_end n (pos 0) 0x10 (record u { ps = 0x10 }) next in
        rw (◌>>=◌, r.equals, (r.holds).0)
          (subst
            (λ (l : Look).
              Returns (sense_loop port (suc n) l.timeout l.sb l.st)
                (λ (a, v). (v.ps ≡ 0x10) × (v.nreads ≡ s.nreads + 2) × (seen v.log ≡ seen s.log)))
            (sym l)
            (mono q (λ (a, v) (x, y, z).
              (x, y ∙ ap (λ i. i + 1) ((r.holds).1.1) ∙ the_sum s.nreads, z ∙ (r.holds).1.2))))
      where
        the_sum : (i : ℕ) → i + 1 + 1 ≡ i + 2
        the_sum i = omega arith

    pub sense-Sends : (n : ℕ) (t : ℤ) → Sends [] (λ a. a ≡ 0x10) (sense port (suc (suc n)) t)
    unfolding sense
    sense-Sends n t = Sends-silent _ _ (λ s ((k, b), small).
        let same : without ping_ok (without checkpoint s.ps) ≡ s.ps = ground arith in
        let r = loop_idle n t s small (rw b (prompt.idle_byte k)) (rw b (prompt.then_nothing k)) in
        rw (◌>>=◌, ◌>>◌, same, r.equals)
          (returns _ (
            (r.holds).0,
            ((k + 1, (r.holds).1 ∙ omega (arith, b)), rw ((r.holds).0) (omega arith)),
            (r.holds).2,
          )))

    pub now-Sends : Sends [] IsAny (now port)
    now-Sends = Sends-silent IsAny (now port) (λ s k. returns _ (tt, k, refl))

    module _ (host : Host) (m : ℕ) where
      abbrev fuel : ℕ
      fuel = suc (suc m)

      idle_loop-Sends :
          (fault : ℤ → Run ℕ) (n t t1 : ℕ)
          → Sends [] (λ a. a ≡ true) (idle_loop host port fuel fault (suc n) t t1)
      unfolding idle_loop
      idle_loop-Sends fault n t t1 s b =
          let r = sense-Sends m (pos t) s b in
          rw (◌>>=◌, r.equals, (r.holds).0) (returns _ (refl, (r.holds).1, (r.holds).2))

      -- `wait_for_idle` after its drain.
      pub polls-Sends :
          (fault : ℤ → Run ℕ) (t : ℕ)
          → Sends [] (λ a. a ≡ true) (do t1 ← now port; idle_loop host port fuel fault fuel t t1)
      polls-Sends fault t =
          Sends-bind [] [] _ _ _ _ now-Sends (λ t1 _. idle_loop-Sends fault (suc m) t t1)

      pub wait_for_idle-Sends :
          ((es : List Event) → seen (drained ∷ es) ≡ seen es)
          → (fault : ℤ → Run ℕ) (t : ℕ)
          → Sends [] (λ a. a ≡ true) (wait_for_idle_with host port fuel fault t)
      unfolding wait_for_idle_with
      wait_for_idle-Sends same fault t =
          Sends-bind [] [] _ _ _ _ (Sends-emit drained same) (λ u _. polls-Sends fault t)
