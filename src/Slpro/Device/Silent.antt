-- ===== src/Slpro/Device/Silent.antt =====
-- `opendev` of slap/slpro.c on a port where no printer answers.
use slap.Base.{
  ℕ, zero, suc, ◌+◌, ◌<◌, ◌≤◌, ◌≡◌, refl, ap, true, not, Bool-cases, inl, inr, List, [], ◌∷◌, none,
  arith, ltb, ◌==◌, ◌||◌, false, if◌then◌else◌,
}
use slap.Base.Int.{ℤ, pos, eq_ℤ}
use slap.Base.Result.{Returns, returns, mono, err, wild_pointer}
use slap.Media.{pt_none}
use slap.Slpro.Models.{Model}
use slap.Serial.{
  Port, Event, sent, drained, resume, flushed_in, flushed_out, flushed_both, baud_set, modes_set,
  ◌>>=◌, ◌>>◌, give, done,
}
use slap.Base.Bits.{has}
use slap.Serial.Silence
use slap.Serial.Silence.{IsSilent}
use slap.Serial.Traffic.{IsAny}
use slap.Slpro.Line.{Host, State, Run, emit, set_port, get_model, write_port, read_port, log_bytes}
use slap.Slpro.Status.{
  set_timeout, recv_bytes, sense_loop, sense, force_loop, force, wants_reset, is_error, ping_ok,
  garbled,
}
use slap.Slpro.Wait.{
  speeds, send_blind, set_baud, clear_error, idle_loop, wait_for_idle_with, wait_for_idle,
  send_bytes, send_byte, ping_at, ping_with, ping, check_fault,
}
use slap.Slpro.Device.{
  avoid_cts, connect, switch_baud, leave, disconnect, new_state, opendev, set_port_cts,
}
use slap.Tty.Baud.{val2baud}

-- Nothing is known of the printer.
abbrev IsLost : State → Type 0
IsLost s = (s.is_open ≡ true) × (s.tof ≡ true) × (s.m ≡ none) × (s.ps ≡ 0)

abbrev Goes : {A : Type 0} → (A → Type 0) → Run A → Type 0
Goes Q m = Silence.Goes IsLost Q m

Goes-bind :
    {A B : Type 0} (Q : A → Type 0) (R : B → Type 0) (m : Run A) (k : A → Run B)
    → Goes Q m
    → ((a : A) → Q a → Goes R (k a))
    → Goes R (m >>= k)
Goes-bind = Silence.Goes-bind IsLost

emit-Goes : (e : Event) → Goes IsAny (emit e)
emit-Goes e s l = returns _ (tt, l)

module _ (host_ : Host) (port : Port) (silent : IsSilent port) where
  set_port-Goes : (e : Event) → Goes IsAny (set_port port e)
  set_port-Goes e s l = rw (silent.sets_ok s.nsets) (returns _ (tt, l))

  -- A read leaves the number of looks at the clock.
  abbrev Same : ℕ → {A : Type 0} → (A → Type 0) → A × State → Type 0
  Same n Q (a, t) = Q a × IsLost t × (t.nlooks ≡ n)

  recv_bytes-Same :
      (t : ℤ) (s : State) → IsLost s → Returns (recv_bytes port t s) (Same s.nlooks (λ a. a ≡ []))
  unfolding recv_bytes set_timeout
  recv_bytes-Same t s l = elim (Bool-cases (not (eq_ℤ s.old_timeout t))) [
    | inl e ↦
        rw (◌>>=◌, e, silent.sets_ok s.nsets, read_port, silent.nothing s.nreads)
          (returns _ (refl, l, refl))
    | inr e ↦ rw (◌>>=◌, e, read_port, silent.nothing s.nreads) (returns _ (refl, l, refl))
  ]

  module _ (m : ℕ) where
    sense_loop-Same :
        (t : ℤ) (sb : ℕ) (s : State)
        → IsLost s
        → Returns (sense_loop port (suc m) t sb s) (Same s.nlooks IsAny)
    unfolding sense_loop
    sense_loop-Same t sb s l =
        let r = recv_bytes-Same t s l in
        rw (◌>>=◌, r.equals, (r.holds).0) (returns _ (tt, (r.holds).1, (r.holds).2))

    sense-Same :
        (t : ℤ) (s : State)
        → IsLost s
        → Returns (sense port (suc m) t s) (Same s.nlooks (λ a. a ≡ 0))
    unfolding sense
    sense-Same t s (open_, top, model, status) =
        let r = sense_loop-Same t 0 (record s { ps = 0 }) (open_, top, model, refl) in
        rw (◌>>=◌, ◌>>◌, status, r.equals) (returns _ ((r.holds).1.3, (r.holds).1, (r.holds).2))

    sense-Goes : (t : ℤ) → Goes (λ a. a ≡ 0) (sense port (suc m) t)
    sense-Goes t s l = mono (sense-Same t s l) (λ (a, u) (e, l', n). (e, l'))

    write-Goes : (bs : List ℕ) → Goes (λ a. a ≡ true) (write_port port bs)
    write-Goes bs s l = rw (silent.writes_ok s.nwrites) (returns _ (refl, l))

    send_blind-Goes : (bs : List ℕ) → Goes IsAny (send_blind host_ port (suc m) bs)
    unfolding send_blind
    send_blind-Goes bs = Goes-bind _ IsAny _ _ (write-Goes bs) (λ a e s l. rw e (returns _ (tt, l)))

    force_loop-Goes : (n : ℕ) → Goes IsAny (force_loop port (suc m) n)
    unfolding force_loop
    force_loop-Goes zero = λ s l. returns _ (tt, l)
    force_loop-Goes (suc n) =
        let again = Goes-bind IsAny IsAny (emit resume) _ (emit-Goes resume) (λ u _.
          Goes-bind (λ a. a ≡ true) IsAny (write_port port (0 ∷ [])) _ (write-Goes (0 ∷ []))
            (λ a _.
              Goes-bind IsAny IsAny (emit drained) (λ u. force_loop port (suc m) n)
                (emit-Goes drained) (λ u _. force_loop-Goes n))) in
        Goes-bind _ IsAny _ _ (sense-Goes (pos 0)) (λ a e s l. rw e (again s l))

    force-Goes : Goes IsAny (force port (suc m))
    unfolding force
    force-Goes = Goes-bind IsAny IsAny (emit flushed_out) _ (emit-Goes flushed_out) (λ u _ s l.
        Goes-bind IsAny IsAny (force_loop port (suc m) (s.nslices + 2)) (λ u. emit resume)
          (force_loop-Goes (s.nslices + 2)) (λ u _. emit-Goes resume) s l)

    set_baud-Goes : (speed : ℕ) → Goes IsAny (set_baud host_ port (suc m) speed)
    unfolding set_baud
    set_baud-Goes speed =
        Goes-bind IsAny IsAny _ _ (set_port-Goes (baud_set (val2baud host_.baudmap speed)))
          (λ u _. emit-Goes flushed_in)

    abbrev fault : ℤ → Run ℕ
    fault = check_fault host_ port (suc m)

    ping_at-Goes : (rates : List ℕ) → Goes (λ a. a ≡ false) (ping_at host_ port (suc m) fault rates)
    unfolding ping_at
    ping_at-Goes [] = λ s l. returns _ (refl, l)
    ping_at-Goes (speed ∷ rest) =
        let none_ = ping_at-Goes rest in
        elim (Bool-cases (val2baud host_.baudmap speed == 0)) [
          | inl e ↦ λ s l. rw (ping_at, e) (none_ s l)
          | inr e ↦ λ s l.
              rw (ping_at, e)
                (Goes-bind IsAny (λ a. a ≡ false) _ _ (emit-Goes flushed_both)
                  (λ u _.
                    Goes-bind IsAny (λ a. a ≡ false) _ _ (set_baud-Goes speed)
                      (λ u _.
                        Goes-bind IsAny (λ a. a ≡ false) _ _ force-Goes
                          (λ u _.
                            Goes-bind IsAny (λ a. a ≡ false) _ _ (send_blind-Goes (0xA5 ∷ []))
                              (λ u _.
                                Goes-bind (λ a. a ≡ 0) (λ a. a ≡ false) _
                                  (λ a.
                                    if has ping_ok a
                                    then give true
                                    else ping_at host_ port (suc m) fault rest)
                                  (sense-Goes (pos 10)) (λ a e s l. rw e (none_ s l))))))
                  s l)
        ]

    connect-Goes : Goes (λ a. a ≡ pt_none) (connect host_ port (suc m))
    unfolding connect ping ping_with
    connect-Goes =
        let pinged : Goes (λ a. a ≡ false) (ping host_ port (suc m)) =
          Goes-bind (λ a. a ≡ false) (λ a. a ≡ false) _ _ (ping_at-Goes speeds)
            (λ a e s l. rw e (returns _ (refl, l))) in
        λ s l.
          let opened = record s {
            nsets = s.nsets + 1;
            tm_cts = s.port_cts;
            log = flushed_in ∷ modes_set ∷ s.log;
          } in
          let r = pinged opened l in
          rw (◌>>=◌, ◌>>◌, silent.sets_ok s.nsets, r.equals, (r.holds).0)
            (returns _ (refl, (r.holds).1))

    avoid_cts-Goes : Goes IsAny (avoid_cts host_ port (suc m))
    unfolding avoid_cts
    avoid_cts-Goes s l = elim (Bool-cases host_.has_crtscts) [
      | inl e ↦ rw (e, set_port_cts, ◌>>=◌, silent.sets_ok s.nsets) (returns _ (tt, l))
      | inr e ↦ rw e (returns _ (tt, l))
    ]

    -- A round of the loop that waits: either the time is over, or there is a next round.
    idle_round :
        (n timeout t1 : ℕ) (s : State)
        → IsLost s
        → ((u : State)
            → IsLost u
            → u.nlooks ≡ s.nlooks + 1
            → port.clock s.nlooks < t1 + timeout
            → Returns (idle_loop host_ port (suc m) fault n timeout t1 u) (λ (a, t). IsLost t))
        → Returns (idle_loop host_ port (suc m) fault (suc n) timeout t1 s) (λ (a, t). IsLost t)
    unfolding idle_loop is_error wants_reset clear_error
    idle_round n timeout t1 s l next =
        let r = sense-Same (pos timeout) s l in
        let u = (r.value).1 in
        let same : u.nlooks ≡ s.nlooks = (r.holds).2 in
        let calm : is_error u.ps ≡ false = rw ((r.holds).1.3) refl in
        elim (Bool-cases (ltb (port.clock u.nlooks) (t1 + timeout))) [
          | inr late ↦
              rw (◌>>=◌, r.equals, (r.holds).0, clear_error, calm, late) (returns _ (r.holds).1)
          | inl early ↦
              let at : port.clock u.nlooks ≡ port.clock s.nlooks = ap port.clock same in
              rw (◌>>=◌, r.equals, (r.holds).0, clear_error, calm, early)
                (next (record u { nlooks = u.nlooks + 1 }) (r.holds).1 (ap (λ k. k + 1) same)
                  (ground (arith, at)))
        ]

    -- The clock goes on, so the time is over before the fuel is used up.
    idle_loop-ends :
        (n timeout t1 : ℕ) (s : State)
        → IsLost s
        → t1 + timeout ≤ port.clock s.nlooks + n
        → Returns (idle_loop host_ port (suc m) fault (suc n) timeout t1 s) (λ (a, t). IsLost t)
    idle_loop-ends zero timeout t1 s l enough =
        idle_round zero timeout t1 s l (λ u l' e early. absurd (omega arith))
    idle_loop-ends (suc n) timeout t1 s l enough =
        idle_round (suc n) timeout t1 s l (λ u l' e early.
          let on = silent.goes_on s.nlooks in
          let at : port.clock u.nlooks ≡ port.clock (s.nlooks + 1) = ap port.clock e in
          idle_loop-ends n timeout t1 u l' (omega (arith, on, at)))

    -- After the wait there is no model to look at.
    wait-fails :
        (k : Model → Run (Unit {0})) (s : State)
        → IsLost s
        → 8 ≤ m
        → (wait_for_idle host_ port (suc m) 8 >>= λ good. (get_model >>= k)) s ≡ err wild_pointer
    unfolding wait_for_idle wait_for_idle_with
    wait-fails k s l enough =
        let r =
          idle_loop-ends m 8 (port.clock s.nlooks)
            (record s { nlooks = s.nlooks + 1; log = drained ∷ s.log }) l
            (omega (arith, silent.goes_on s.nlooks)) in
        rw (◌>>=◌, ◌>>◌, r.equals, (r.holds).2) refl

    leave-fails : (s : State) → IsLost s → 8 ≤ m → leave host_ port (suc m) s ≡ err wild_pointer
    unfolding leave send_byte send_bytes send_blind log_bytes
    leave-fails s (open_, top, model, status) enough =
        rw (leave, ◌>>=◌, ◌>>◌, top, status, silent.writes_ok s.nwrites)
          (wait-fails
            (λ model. (switch_baud host_ port (suc m) model.default_baud >>= λ good. done))
            (record s {
              tof = true;
              ps = 0;
              nwrites = s.nwrites + 1;
              log = sent 0x1 ∷ resume ∷ s.log;
            })
            (open_, refl, model, refl) enough)

    disconnect-fails :
        (s : State) → IsLost s → 8 ≤ m → disconnect host_ port (suc m) s ≡ err wild_pointer
    unfolding disconnect wants_reset
    disconnect-fails s (open_, top, model, status) enough =
        let a = avoid_cts-Goes (record s { is_open = true }) (refl, top, model, status) in
        let t = (a.value).1 in
        let f = force-Goes (record t { log = drained ∷ resume ∷ t.log }) (a.holds).1 in
        let u = (f.value).1 in
        let calm : (has garbled u.ps || wants_reset u.ps) ≡ false = rw ((f.holds).1.3) refl in
        rw (open_, ◌>>=◌, ◌>>◌, a.equals, f.equals, calm, leave-fails u (f.holds).1 enough) refl

-- On a port where no byte arrives and no call fails, with a clock that goes on between two looks,
-- and a fuel of nine or more: `opendev` ends in a read through a null pointer, whatever the limit
-- of the rates and however the port was found.
pub opendev_silent :
    (host : Host) (port : Port) (silent : IsSilent port) (m : ℕ) (maxbaudval : ℤ) (clean : State)
    → 8 ≤ m
    → opendev host port (suc m) maxbaudval clean ≡ err wild_pointer
unfolding opendev
opendev_silent host port silent m maxbaudval clean enough =
    let c =
      connect-Goes host port silent m (new_state host port (suc m) maxbaudval clean)
        (refl, refl, refl, refl) in
    rw
      (
        ◌>>=◌,
        c.equals,
        (c.holds).0,
        disconnect-fails host port silent m (c.value).1 (c.holds).1 enough,
      )
      refl
