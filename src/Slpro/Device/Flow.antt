-- ===== src/Slpro/Device/Flow.antt =====
-- The hardware flow-control of the port when the driver has opened the printer.
use slap.Base.{ℕ, ◌≡◌, Bool, true, false, not, Bool-cases, inl, inr, if◌then◌else◌}
use slap.Base.Result.{Keeps, Keeps-mono}
use slap.Media.{pt_none, Density}
use slap.Serial.{
  Port, Event, resume, drained, flushed_in, modes_set, slept, ◌>>=◌, ◌>>◌, give, done,
}
use slap.Serial.Safety.{Stays, Stays-bind, Stays-if, Stays-give, Stays-done, Keeps-then}
use slap.Slpro.Device.{
  use_cts, set_density, set_printer_modes, switch_baud, connect, limited, speed_code, is_fast,
}
use slap.Slpro.Line.{Host, State, Run, emit, get, get_modes, get_model, set_port, try_modes}
use slap.Slpro.Setup.{set_margin}
use slap.Slpro.Wait.{set_baud, send_byte, wait_for_idle, ping, getmodel}
use slap.Slpro.Wait.Frame.{
  IsFramed, Keep, keeping, emit-Keep, get-Keep, get_model-Keep, try_modes-Keep,
}
use slap.Slpro.Wait.Kept.{send_byte-Keep, wait_for_idle-Keep, ping-Keep, getmodel-Keep}

module _ (host : Host) (port : Port) (fuel : ℕ) where
  module _ (P : State → Type 0) (framed : IsFramed P) where
    set_margin-Keep : Keep P framed (set_margin host port fuel)
    unfolding set_margin
    set_margin-Keep = search (keeping, send_byte-Keep)

    set_density-Keep : (d : Density) → Keep P framed (set_density host port fuel d)
    unfolding set_density
    set_density-Keep d = search (keeping, send_byte-Keep)

    set_printer_modes-Keep : Keep P framed (set_printer_modes host port fuel)
    unfolding set_printer_modes
    set_printer_modes-Keep =
        search (keeping, send_byte-Keep, set_density-Keep, set_margin-Keep, wait_for_idle-Keep)
          depth 60

  -- Whether CRTSCTS is set in the modes that the driver sets, and in those of the port as well.
  abbrev Wants : Bool → State → Type 0
  Wants v s = s.tm_cts ≡ v

  abbrev Has : Bool → State → Type 0
  Has v s = (s.tm_cts ≡ v) × (s.port_cts ≡ v)

  Wants-IsFramed : (v : Bool) → IsFramed (Wants v)
  Wants-IsFramed v = record {
    on_ps = λ s x p. p;
    on_tof = λ s x p. p;
    on_model = λ s x p. p;
    on_timeout = λ s x p. p;
    on_read = λ s x p. p;
    on_write = λ s x p. p;
    on_look = λ s x p. p;
    on_log = λ s x p. p;
    on_sets = λ s x p. p;
    on_modes = λ s p. p;
    on_close = λ s x p. p;
  }

  Has-IsFramed : (v : Bool) → IsFramed (Has v)
  Has-IsFramed v = record {
    on_ps = λ s x p. p;
    on_tof = λ s x p. p;
    on_model = λ s x p. p;
    on_timeout = λ s x p. p;
    on_read = λ s x p. p;
    on_write = λ s x p. p;
    on_look = λ s x p. p;
    on_log = λ s x p. p;
    on_sets = λ s x p. p;
    on_modes = λ s (w, h). (w, w);
    on_close = λ s x p. p;
  }

  -- The run leads from one property to another.
  record Leads (P Q : State → Type 0) {A : Type 0} (m : Run A) : Type 0 where
    run : (s : State) → P s → Keeps (λ (a, t). Q t) (m s)

  Leads-then :
      (P Q R : State → Type 0) {A B : Type 0} (m : Run A) (k : A → Run B)
      → Leads P Q m
      → ((a : A) → Leads Q R (k a))
      → Leads P R (m >>= k)
  Leads-then P Q R m k h next = record {
    run = λ s p.
        Keeps-then (λ (a, t). Q t) (λ (b, t). R t) m k s (h.run s p) (λ a t q. (next a).run t q);
  }

  Leads-if :
      (P Q : State → Type 0) {A : Type 0} (b : Bool) (m n : Run A)
      → Leads P Q m
      → Leads P Q n
      → Leads P Q (if b then m else n)
  Leads-if P Q true m n h k = h
  Leads-if P Q false m n h k = k

  stays : (P : State → Type 0) {A : Type 0} (m : Run A) → Stays P m → Leads P P m
  stays P m h = record { run = h.run }

  set_port-Leads : (v : Bool) (e : Event) → Leads (Wants v) (Has v) (set_port port e)
  set_port-Leads v e = record {
    run = λ s p. elim (Bool-cases (port.sets s.nsets)) [
      | inl good ↦ rw good (p, p)
      | inr bad ↦ rw bad tt
    ];
  }

  module _ (v : Bool) where
    abbrev W : State → Type 0
    W = Wants v

    abbrev H : State → Type 0
    H = Has v

    wants : IsFramed W
    wants = Wants-IsFramed v

    has_too : IsFramed H
    has_too = Has-IsFramed v

    set_baud-Leads : (speed : ℕ) → Leads W H (set_baud host port fuel speed)
    unfolding set_baud
    set_baud-Leads speed =
        Leads-then W H H (set_port port _) _ (set_port-Leads v _)
          (λ u. stays H _ (emit-Keep H has_too _))

    switch_baud-Leads : (wanted : ℕ) → Leads W H (switch_baud host port fuel wanted)
    unfolding switch_baud
    switch_baud-Leads wanted =
        Leads-then W W H (emit resume) _ (stays W _ (emit-Keep W wants _)) (λ u.
          Leads-then W W H (send_byte host port fuel 0x3 true) _
            (stays W _ (send_byte-Keep W wants host port fuel _ _))
            (λ u. Leads-then W W H (emit drained) _ (stays W _ (emit-Keep W wants _)) (λ u.
              Leads-then W W H get _ (stays W _ (get-Keep W wants)) (λ s.
                Leads-then W W H
                  (send_byte host port fuel (speed_code (limited s.maxbaud wanted)) true) _
                  (stays W _ (send_byte-Keep W wants host port fuel _ _))
                  (λ u. Leads-then W W H (emit drained) _ (stays W _ (emit-Keep W wants _)) (λ u.
                    Leads-then W W H (if host.early_drain then emit (slept 1) else done) _
                      (stays W _ (
                        Stays-if W host.early_drain (emit (slept 1)) done (emit-Keep W wants _)
                          (Stays-done W)))
                      (λ u.
                        Leads-then W H H (set_baud host port fuel (limited s.maxbaud wanted)) _
                          (set_baud-Leads _)
                          (λ u. stays H _ (
                            Stays-bind H (wait_for_idle host port fuel 1) _
                              (wait_for_idle-Keep H has_too host port fuel 1)
                              (λ a. Stays-give H true))))))))))

    use_cts-Leads : Leads H W (use_cts host port fuel)
    unfolding use_cts
    use_cts-Leads = elim (Bool-cases host.has_crtscts) [
      | inl with_cts ↦ rw with_cts (record {
        run = λ s p.
            Keeps-then (λ (a, t). W t) (λ (a, t). W t) (try_modes port modes_set) _ s
              (Stays.run (try_modes-Keep W wants port modes_set) s p.0) (λ good t q. q);
      })
      | inr without_cts ↦ rw without_cts (record { run = λ s p. p.0 })
    ]

    -- `use_cts`, if the printer and the system are fast enough.
    fast-Leads : (c : Bool) → Leads H W (if c then use_cts host port fuel else give false)
    fast-Leads true = use_cts-Leads
    fast-Leads false = record { run = λ s p. p.0 }

    -- `connect`, from the answer of the printer on.
    known-Leads :
        (c : Bool)
        → Leads H H (do
          fast ← (if c then use_cts host port fuel else give false)
          _ ← switch_baud host port fuel (if fast then 57600 else 38400)
          set_printer_modes host port fuel
          _ ← wait_for_idle host port fuel 2
          last ← get_model
          give last.ptype)
    known-Leads c =
        Leads-then H W H (if c then use_cts host port fuel else give false) _ (fast-Leads c)
          (λ fast.
            Leads-then W H H (switch_baud host port fuel (if fast then 57600 else 38400)) _
              (switch_baud-Leads _)
              (λ a. stays H _ (
                Stays-bind H (set_printer_modes host port fuel) _ (set_printer_modes-Keep H has_too)
                  (λ u.
                    Stays-bind H (wait_for_idle host port fuel 2) _
                      (wait_for_idle-Keep H has_too host port fuel 2)
                      (λ a.
                        Stays-bind H get_model _ (get_model-Keep H has_too)
                          (λ last. Stays-give H last.ptype))))))

    -- The modes that `connect` takes are those of the port.
    get_modes-Leads : Leads (λ s. s.port_cts ≡ v) W get_modes
    get_modes-Leads = record { run = λ s p. p }

    connect-Leads : Leads (λ s. s.port_cts ≡ v) H (connect host port fuel)
    unfolding connect
    connect-Leads =
        Leads-then (λ s. s.port_cts ≡ v) W H get_modes _ get_modes-Leads
          (λ u. Leads-then W H H (set_port port modes_set) _ (set_port-Leads v _) (λ u.
            Leads-then H H H (emit flushed_in) _ (stays H _ (emit-Keep H has_too _)) (λ u.
              Leads-then H H H (ping host port fuel) _
                (stays H _ (ping-Keep H has_too host port fuel))
                (λ found.
                  Leads-if H H (not found) (give pt_none) _ (stays H _ (Stays-give H pt_none)) (
                    Leads-then H H H (getmodel host port fuel) _
                      (stays H _ (getmodel-Keep H has_too host port fuel))
                      (λ m.
                        Leads-then H H H (try_modes port modes_set) _
                          (stays H _ (try_modes-Keep H has_too port modes_set))
                          (λ good.
                            Leads-then H H H get_model _ (stays H _ (get_model-Keep H has_too))
                              (λ model. known-Leads (is_fast host model)))))))))

  -- However the printer answers and whatever the port does: where `connect` comes to an end, the
  -- port has hardware flow-control only if the modes that it was opened with had it. What `use_cts`
  -- sets for the fast rate does not last.
  pub connect-cts :
      (s : State)
      → s.port_cts ≡ false
      → Keeps (λ (ptype, t). t.port_cts ≡ false) (connect host port fuel s)
  connect-cts s off =
      Keeps-mono _ _ (connect host port fuel s) (Leads.run (connect-Leads false) s off) (λ x h. h.1)
