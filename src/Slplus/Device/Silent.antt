-- ===== src/Slplus/Device/Silent.antt =====
-- `opendev` of slap/slplus.c on a port where no printer answers.
use slap.Base.{
  ℕ, zero, suc, ◌+◌, ◌<◌, ◌≤◌, ◌≡◌, refl, ap, true, false, not, Bool-cases, inl, inr, List, [], ◌∷◌,
  arith, ltb, if◌then◌else◌,
}
use slap.Base.Int.{ℤ, pos, eq_ℤ}
use slap.Base.Result.{Returns, returns, mono}
use slap.Media.{pt_none}
use slap.Serial.Silence
use slap.Serial.Silence.{IsSilent}
use slap.Serial.Traffic.{IsAny}
use slap.Slplus.Line.{
  Port, State, Event, Run, sent, drained, resume, flushed_in, flushed_out, flushed_both, baud_set,
  modes_set, ◌>>=◌, ◌>>◌, give, emit, set_port, write_port, read_port,
}
use slap.Slplus.Status.{
  set_timeout, recv_bytes, sense_loop, sense, force_loop, force, wants_reset, is_error,
}
use slap.Slplus.Wait.{
  send_blind, send_byte, idle_loop, wait_for_idle, wait_for_idle_with, reset_printer,
}
use slap.Slplus.Device.{
  bauds, answers, model_of, set_baud, ping_at, ping, connect, disconnect, new_state, opendev,
}

-- The device is open, and nothing is known of the printer.
abbrev IsLost : State → Type 0
IsLost s = (s.is_open ≡ true) × (s.tof ≡ true) × (s.ps ≡ 0)

abbrev Goes : {A : Type 0} → (A → Type 0) → Run A → Type 0
Goes Q m = Silence.Goes IsLost Q m

Goes-bind :
    {A B : Type 0} (Q : A → Type 0) (R : B → Type 0) (m : Run A) (k : A → Run B)
    → Goes Q m
    → ((a : A) → Q a → Goes R (k a))
    → Goes R (m >>= k)
Goes-bind = Silence.Goes-bind IsLost

emit-Goes : (e : Event) → Goes IsAny (emit e)
emit-Goes e s l = returns _ (tt, l)

module _ (port : Port) (silent : IsSilent port) where
  set_port-Goes : (e : Event) → Goes IsAny (set_port port e)
  set_port-Goes e s l = rw (silent.sets_ok s.nsets) (returns _ (tt, l))

  write-Goes : (b : ℕ) → Goes (λ a. a ≡ true) (write_port port b)
  write-Goes b s l = rw (silent.writes_ok s.nwrites) (returns _ (refl, l))

  -- A read leaves the number of looks at the clock.
  abbrev Same : ℕ → {A : Type 0} → (A → Type 0) → A × State → Type 0
  Same n Q (a, t) = Q a × IsLost t × (t.nlooks ≡ n)

  recv_bytes-Same :
      (t : ℤ) (s : State) → IsLost s → Returns (recv_bytes port t s) (Same s.nlooks (λ a. a ≡ []))
  unfolding recv_bytes set_timeout
  recv_bytes-Same t s l = elim (Bool-cases (not (eq_ℤ s.old_timeout t))) [
    | inl e ↦
        rw (◌>>=◌, e, silent.sets_ok s.nsets, read_port, silent.nothing s.nreads)
          (returns _ (refl, l, refl))
    | inr e ↦ rw (◌>>=◌, e, read_port, silent.nothing s.nreads) (returns _ (refl, l, refl))
  ]

  recv_bytes-Goes : (t : ℤ) → Goes (λ a. a ≡ []) (recv_bytes port t)
  recv_bytes-Goes t s l = mono (recv_bytes-Same t s l) (λ (a, u) (e, l', n). (e, l'))

  module _ (m : ℕ) where
    sense-Same :
        (t : ℤ) (s : State)
        → IsLost s
        → Returns (sense port (suc m) t s) (Same s.nlooks (λ a. a ≡ 0))
    unfolding sense sense_loop
    sense-Same t s (open_, top, status) =
        let r = recv_bytes-Same t (record s { ps = 0 }) (open_, top, refl) in
        rw (◌>>=◌, ◌>>◌, status, r.equals, (r.holds).0)
          (returns _ ((r.holds).1.2, (r.holds).1, (r.holds).2))

    sense-Goes : (t : ℤ) → Goes (λ a. a ≡ 0) (sense port (suc m) t)
    sense-Goes t s l = mono (sense-Same t s l) (λ (a, u) (e, l', n). (e, l'))

    send_blind-Goes : (b : ℕ) → Goes IsAny (send_blind port (suc m) b)
    unfolding send_blind
    send_blind-Goes b = Goes-bind _ IsAny _ _ (write-Goes b) (λ a e s l. rw e (returns _ (tt, l)))

    force_loop-Goes : (n : ℕ) → Goes IsAny (force_loop port (suc m) n)
    unfolding force_loop
    force_loop-Goes zero = λ s l. returns _ (tt, l)
    force_loop-Goes (suc n) =
        let again = Goes-bind IsAny IsAny (emit resume) _ (emit-Goes resume) (λ u _.
          Goes-bind (λ a. a ≡ true) IsAny (write_port port 0) _ (write-Goes 0)
            (λ a _.
              Goes-bind IsAny IsAny (emit drained) (λ u. force_loop port (suc m) n)
                (emit-Goes drained) (λ u _. force_loop-Goes n))) in
        Goes-bind _ IsAny _ _ (sense-Goes (pos 0)) (λ a e s l. rw e (again s l))

    force-Goes : Goes IsAny (force port (suc m))
    unfolding force
    force-Goes = Goes-bind IsAny IsAny (emit flushed_out) _ (emit-Goes flushed_out) (λ u _.
        Goes-bind IsAny IsAny (λ s. force_loop port (suc m) (s.nslices + 2) s) (λ u. emit resume)
          (λ s. force_loop-Goes (s.nslices + 2) s) (λ u _. emit-Goes resume))

    abbrev reset : Run ℕ
    reset = reset_printer port (suc m) (suc m)

    -- A round of the loop that waits: either the time is over, or there is a next round.
    idle_round :
        (n timeout t1 : ℕ) (s : State)
        → IsLost s
        → ((u : State)
            → IsLost u
            → u.nlooks ≡ s.nlooks + 1
            → port.clock s.nlooks < t1 + timeout
            → Returns (idle_loop port (suc m) reset n timeout t1 u) (λ (a, t). IsAny a × IsLost t))
        → Returns (idle_loop port (suc m) reset (suc n) timeout t1 s) (λ (a, t). IsAny a × IsLost t)
    unfolding idle_loop is_error wants_reset
    idle_round n timeout t1 s l next =
        let r = sense-Same (pos timeout) s l in
        let u = (r.value).1 in
        let same : u.nlooks ≡ s.nlooks = (r.holds).2 in
        elim (Bool-cases (ltb (port.clock u.nlooks) (t1 + timeout))) [
          | inr late ↦ rw (◌>>=◌, r.equals, (r.holds).0, late) (returns _ (tt, (r.holds).1))
          | inl early ↦
              let at : port.clock u.nlooks ≡ port.clock s.nlooks = ap port.clock same in
              rw (◌>>=◌, r.equals, (r.holds).0, early)
                (next (record u { nlooks = u.nlooks + 1 }) (r.holds).1 (ap (λ k. k + 1) same)
                  (ground (arith, at)))
        ]

    -- The clock goes on, so the time is over before the fuel is used up.
    idle_loop-Goes :
        (n timeout t1 : ℕ) (s : State)
        → IsLost s
        → t1 + timeout ≤ port.clock s.nlooks + n
        → Returns (idle_loop port (suc m) reset (suc n) timeout t1 s) (λ (a, t). IsAny a × IsLost t)
    idle_loop-Goes zero timeout t1 s l enough =
        idle_round zero timeout t1 s l (λ u l' e early. absurd (omega arith))
    idle_loop-Goes (suc n) timeout t1 s l enough =
        idle_round (suc n) timeout t1 s l (λ u l' e early.
          let on = silent.goes_on s.nlooks in
          let at : port.clock u.nlooks ≡ port.clock (s.nlooks + 1) = ap port.clock e in
          idle_loop-Goes n timeout t1 u l' (omega (arith, on, at)))

    wait_for_idle-Goes :
        (timeout : ℕ) → timeout ≤ m → Goes IsAny (wait_for_idle port (suc m) timeout)
    unfolding wait_for_idle wait_for_idle_with
    wait_for_idle-Goes timeout enough s l =
        idle_loop-Goes m timeout (port.clock s.nlooks)
          (record s { nlooks = s.nlooks + 1; log = drained ∷ s.log }) l
          (omega (arith, silent.goes_on s.nlooks))

    module _ (enough : 4 ≤ m) where
      set_baud-Goes : (rate : ℕ) → Goes IsAny (set_baud port (suc m) rate)
      unfolding set_baud
      set_baud-Goes rate s l =
          let start = record s {
            nsets = s.nsets + 1;
            log =
                flushed_in
                ∷ flushed_in
                ∷ flushed_in
                ∷ flushed_in
                ∷ flushed_in
                ∷ baud_set rate
                ∷ s.log;
          } in
          let r = wait_for_idle-Goes 1 (omega arith) start l in
          rw (◌>>=◌, ◌>>◌, silent.sets_ok s.nsets, r.equals) (returns _ (tt, (r.holds).1))

      ping_at-Goes : (rates : List ℕ) → Goes (λ a. a ≡ false) (ping_at port (suc m) rates)
      unfolding ping_at answers
      ping_at-Goes [] = λ s l. returns _ (refl, l)
      ping_at-Goes (rate ∷ rates) =
          Goes-bind IsAny (λ a. a ≡ false) _ _ (emit-Goes flushed_both)
            (λ u _.
              Goes-bind IsAny (λ a. a ≡ false) _ _ (set_baud-Goes rate)
                (λ u _.
                  Goes-bind IsAny (λ a. a ≡ false) _ _ force-Goes
                    (λ u _.
                      Goes-bind IsAny (λ a. a ≡ false) _ _ (send_blind-Goes 0x88)
                        (λ u _.
                          Goes-bind (λ a. a ≡ []) (λ a. a ≡ false) (recv_bytes port (pos 3))
                            (λ buf. if answers buf then give true else ping_at port (suc m) rates)
                            (recv_bytes-Goes (pos 3)) (λ a e s l. rw e (ping_at-Goes rates s l))))))

      ping-Goes : Goes (λ a. a ≡ pt_none) (ping port (suc m))
      unfolding ping model_of
      ping-Goes s l =
          let tried = ping_at-Goes bauds s l in
          let set_ = set_baud-Goes 19200 (tried.value).1 (tried.holds).1 in
          let asked = send_blind-Goes 0x02 (set_.value).1 (set_.holds).1 in
          let answer = recv_bytes-Goes (pos 2) (asked.value).1 (asked.holds).1 in
          rw
            (
              ◌>>=◌,
              ◌>>◌,
              tried.equals,
              (tried.holds).0,
              set_.equals,
              asked.equals,
              answer.equals,
              (answer.holds).0,
            )
            (returns _ (refl, (answer.holds).1))

      connect-Goes : Goes (λ a. a ≡ pt_none) (connect port (suc m))
      unfolding connect
      connect-Goes s l =
          let opened = record s { nsets = s.nsets + 1; log = flushed_both ∷ modes_set ∷ s.log } in
          let r = ping-Goes opened l in
          rw (◌>>=◌, ◌>>◌, silent.sets_ok s.nsets, r.equals, (r.holds).0)
            (returns _ (refl, (r.holds).1))

      disconnect-closes :
          (s : State) → IsLost s → Returns (disconnect port (suc m) s) (λ (a, t). t.is_open ≡ false)
      unfolding disconnect send_byte send_blind
      disconnect-closes s (open_, top, status) =
          let f =
            force-Goes (record s { is_open = true; log = drained ∷ resume ∷ s.log })
              (refl, top, status) in
          let t = (f.value).1 in
          let w =
            wait_for_idle-Goes 4 enough
              (record t { nwrites = t.nwrites + 1; log = sent 0x1 ∷ resume ∷ t.log }) (f.holds).1 in
          rw (open_, ◌>>=◌, ◌>>◌, f.equals, (f.holds).1.1, silent.writes_ok t.nwrites, w.equals)
            (returns _ refl)

-- On a port where no byte arrives and no call fails, with a clock that goes on between two looks,
-- and a fuel of five or more: `opendev` ends without a fault, finds no printer, and closes the
-- port, however it was found.
pub opendev_refused :
    (port : Port) (silent : IsSilent port) (m : ℕ) (clean : State)
    → 4 ≤ m
    → Returns (opendev port (suc m) clean) (λ (ptype, t). (ptype ≡ pt_none) × (t.is_open ≡ false))
unfolding opendev
opendev_refused port silent m clean enough =
    let c = connect-Goes port silent m enough (new_state port (suc m) clean) (refl, refl, refl) in
    let d = disconnect-closes port silent m enough (c.value).1 (c.holds).1 in
    rw (opendev, c.equals, (c.holds).0, d.equals) (returns _ (refl, d.holds))
