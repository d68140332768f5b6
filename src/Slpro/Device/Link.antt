-- ===== src/Slpro/Device/Link.antt =====
-- The rates of the printer and of the port when `switch_baud` of slap/slpro.c has changed them.
use slap.Base.{
  ℕ, suc, ◌+◌, ◌≡◌, refl, ap, ◌∙◌, Bool, true, false, not, Bool-cases, inl, inr, ◌&&◌, ◌||◌, ◌==◌,
  List, [], ◌∷◌, ◌++◌, arith, if◌then◌else◌,
}
use mathlib.Core.List.{append-nil, append_assoc}
use slap.Base.Result.{Returns, returns, mono}
use slap.Serial.{Port, Event, sent, baud_set, drained, slept, wire, ◌>>=◌, ◌>>◌, give}
use slap.Tty.Baud.{Baudinfo, val2baud, baud2val}
use slap.Slpro.Line.{Host, State, log_bytes}
use slap.Slpro.Status.Quiet.{IsDeaf}
use slap.Slpro.Wait.{
  set_baud, send_blind, send_bytes, send_byte, wait_for_idle, wait_for_idle_with, check_fault,
}
use slap.Slpro.Wait.Polled.{IsPrompt, IsReady, polls-Sends}
use slap.Slpro.Device.{limited, speed_code, switch_baud}

-- Where the bytes are that were written: none is left in the port, some may wait there, or those
-- that waited are on their way through the serial chip.
pub data Queue : Type 0 where
  empty queued moving : Queue

abbrev pub is_empty : Queue → Bool
is_empty empty = true
is_empty _ = false

-- After a drain: on a system that drains early, the last bytes may still be moving.
abbrev pub drain : (early : Bool) → Queue → Queue
drain early queued = if early then moving else empty
drain early q = q

-- After a sleep of a second or more.
abbrev pub settle : Queue → Queue
settle moving = empty
settle q = q

-- The rates of the two ends, whether the next byte names a rate, and where the bytes are.
-- `is_clean` says that every byte was sent at the printer's rate, and that none was in the port
-- when its rate was changed.
pub record Link : Type 0 where
  pub printer : ℕ
  pub port : ℕ
  pub is_rate : Bool
  pub queue : Queue
  pub is_clean : Bool

-- The rate that the printer takes a byte to mean.
unfoldable pub rate_of : ℕ → ℕ
rate_of code =
    if code == 1 then 19200 else if code == 2 then 38400 else if code == 3 then 57600 else 9600

-- A byte for the printer: 0x03 says that the next one names the rate.
unfoldable pub receive : ℕ → Link → Link
receive b l = record l {
  printer = if l.is_rate then rate_of b else l.printer;
  is_rate = not l.is_rate && (b == 0x3);
  queue = queued;
  is_clean = l.is_clean && (l.printer == l.port);
}

-- What the two ends make of one event, and of several. `early` says whether the system drains
-- early.
unfoldable pub follow_event : (early : Bool) → List Baudinfo → Event → Link → Link
follow_event early baudmap (sent b) l = receive b l
follow_event early baudmap drained l = record l { queue = drain early l.queue }
follow_event early baudmap (slept n) l = record l {
  queue = if 0 == n then l.queue else settle l.queue;
}
follow_event early baudmap (baud_set v) l = record l {
  port = baud2val baudmap v;
  is_clean = l.is_clean && is_empty l.queue;
}
follow_event early baudmap _ l = l

unfoldable pub follow : (early : Bool) → List Baudinfo → List Event → Link → Link
follow early baudmap [] l = l
follow early baudmap (e ∷ es) l = follow early baudmap es (follow_event early baudmap e l)

-- Both ends have these rates, no byte is left in the port, and nothing has gone wrong.
abbrev pub ends : (printer port : ℕ) → Link
ends printer port = record {
  printer = printer;
  port = port;
  is_rate = false;
  queue = empty;
  is_clean = true;
}

-- What the printer makes of a rate: it can have four.
unfoldable pub told : ℕ → ℕ
told v = if v == 19200 || v == 38400 || v == 57600 then v else 9600

wire-IsDeaf : IsDeaf wire
unfolding wire
wire-IsDeaf = record { to_timeout = λ t es. refl }

module _ (host : Host) (port : Port) (prompt : IsPrompt port) (m : ℕ) where
  -- The second that is waited for on a system that drains early.
  abbrev pause : List Event
  pause = if host.early_drain then slept 1 ∷ [] else []

  -- The events of `switch_baud`, with the rate that it sets.
  abbrev switched : ℕ → List Event
  switched v =
      sent 0x3
      ∷ drained
      ∷ sent (speed_code v)
      ∷ drained
      ∷ (pause ++ baud_set (val2baud host.baudmap v) ∷ drained ∷ [])

  -- While the printer is waited for there is one drain.
  waits :
      (u : State) (es : List Event)
      → IsReady u
      → wire u.log ≡ es
      → Returns
          ((wait_for_idle host port (suc (suc m)) 1 >>= λ (a : Bool). give true) u)
          (λ (a, t). IsReady t × (wire t.log ≡ es ++ drained ∷ []))
  unfolding wait_for_idle wait_for_idle_with wire
  waits u es ready e =
      let r =
        polls-Sends wire wire-IsDeaf port prompt host m (check_fault host port (suc (suc m))) 1
          (record u { log = drained ∷ u.log }) ready in
      rw (◌>>=◌, ◌>>◌, r.equals)
        (returns _ ((r.holds).1, (r.holds).2 ∙ append-nil _ ∙ ap (λ es. es ++ drained ∷ []) e))

  switch_baud-Sends :
      (wanted : ℕ) (s : State)
      → IsReady s
      → Returns
          (switch_baud host port (suc (suc m)) wanted s)
          (λ (a, t). IsReady t × (wire t.log ≡ wire s.log ++ switched (limited s.maxbaud wanted)))
  unfolding switch_baud send_byte send_bytes send_blind set_baud wire log_bytes
  switch_baud-Sends wanted s ready = elim (Bool-cases host.early_drain) [
    | inl early ↦
        rw
          (
            switch_baud,
            ◌>>=◌,
            ◌>>◌,
            prompt.writes_ok s.nwrites,
            prompt.writes_ok (s.nwrites + 1),
            early,
            prompt.sets_ok s.nsets,
          )
          (mono (waits _ _ ready refl) (λ (a, t) (b, w). (b, w ∙ simp (append_assoc))))
    | inr late ↦
        rw
          (
            switch_baud,
            ◌>>=◌,
            ◌>>◌,
            prompt.writes_ok s.nwrites,
            prompt.writes_ok (s.nwrites + 1),
            late,
            prompt.sets_ok s.nsets,
          )
          (mono (waits _ _ ready refl) (λ (a, t) (b, w). (b, w ∙ simp (append_assoc))))
  ]

  -- The events, when both ends have the same rate and the table has the new one.
  switched-ends :
      (r v : ℕ)
      → baud2val host.baudmap (val2baud host.baudmap v) ≡ v
      → follow host.early_drain host.baudmap (switched v) (ends r r) ≡ ends (told v) v
  unfolding follow follow_event receive rate_of told speed_code
  switched-ends r v known =
      let clean : (r == r) ≡ true = ground arith in
      let rate : rate_of (speed_code v) ≡ told v = ground arith in
      elim (Bool-cases host.early_drain) [
        | inl early ↦ rw (early, clean, rate, known) refl
        | inr late ↦ rw (late, clean, rate, known) refl
      ]

  -- With a printer that is idle at every poll, a fuel of two or more, and a table that has the new
  -- rate, the limited one: `switch_baud` ends without a fault; if the two ends had one rate and no
  -- byte was left in the port before, then every byte is sent at the printer's rate, all have left
  -- the port before its rate changes, on a system that drains early as well, the port has the new
  -- rate, and the printer has it too if it is one of its four, else 9600.
  pub switch_baud-ends :
      (wanted r v : ℕ) (s : State)
      → IsReady s
      → limited s.maxbaud wanted ≡ v
      → baud2val host.baudmap (val2baud host.baudmap v) ≡ v
      → Returns (switch_baud host port (suc (suc m)) wanted s) (λ (a, t).
        (es : List Event) × (wire t.log ≡ wire s.log ++ es)
        × (follow host.early_drain host.baudmap es (ends r r) ≡ ends (told v) v)
        × IsReady t)
  switch_baud-ends wanted r v s ready e known =
      mono (switch_baud-Sends wanted s ready) (λ (a, t) (ready', w).
        (switched v, w ∙ ap (λ v. wire s.log ++ switched v) e, switched-ends r v known, ready'))
