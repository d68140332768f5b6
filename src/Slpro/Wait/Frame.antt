-- ===== src/Slpro/Wait/Frame.antt =====
-- What no waiting, sending or checking of slap/slpro.c changes.
use slap.Base.{
  ℕ, zero, suc, ◌/◌, ◌==◌, if-both, Bool, false, not, Bool-cases, List-cases, inl, inr, Option,
  none, some, List, [], ◌∷◌,
}
use slap.Base.Bits.{has}
use slap.Base.Int.{ℤ, pos, eq_ℤ}
use slap.Base.Result.{ok, err, Fault, Keeps}
use slap.Serial.{Port, Event, resume, drained}
use slap.Serial.Safety.{Stays, Stays-bind, Stays-if, Stays-give, Stays-done, Stays-fail}
use slap.Slpro.Line.{
  State, Run, emit, get, set_ps, set_tof, set_model, get_model, close_tty, read_port, write_port,
  try_modes, set_port, now,
}
use slap.Slpro.Models.{Model}
use slap.Slpro.Status.{
  Look, see_other, see_byte, see_bytes, inspect, set_timeout, recv_bytes, sense_loop, sense,
  force_loop, force,
}

-- The property does not depend on what waiting and sending change.
pub record IsFramed (P : State → Type 0) : Type 0 where
  pub on_ps : (s : State) (v : ℕ) → P s → P (record s { ps = v })
  pub on_tof : (s : State) (v : Bool) → P s → P (record s { tof = v })
  pub on_model : (s : State) (v : Option Model) → P s → P (record s { m = v })
  pub on_timeout : (s : State) (v : ℤ) → P s → P (record s { old_timeout = v })
  pub on_read : (s : State) (v : ℕ) → P s → P (record s { nreads = v })
  pub on_write : (s : State) (v : ℕ) → P s → P (record s { nwrites = v })
  pub on_look : (s : State) (v : ℕ) → P s → P (record s { nlooks = v })
  pub on_log : (s : State) (v : List Event) → P s → P (record s { log = v })
  pub on_sets : (s : State) (v : ℕ) → P s → P (record s { nsets = v })
  pub on_modes : (s : State) → P s → P (record s { port_cts = s.tm_cts })
  pub on_close : (s : State) (v : Bool) → P s → P (record s { is_open = v })

module _ (P : State → Type 0) (framed : IsFramed P) where
  abbrev pub Keep : {A : Type 0} → Run A → Type 0
  Keep m = Stays P m

  pub emit-Keep : (e : Event) → Keep (emit e)
  emit-Keep e = record { run = λ s p. framed.on_log s _ p }

  pub set_ps-Keep : (v : ℕ) → Keep (set_ps v)
  set_ps-Keep v = record { run = λ s p. framed.on_ps s v p }

  pub set_tof-Keep : (v : Bool) → Keep (set_tof v)
  set_tof-Keep v = record { run = λ s p. framed.on_tof s v p }

  pub set_model-Keep : (v : Option Model) → Keep (set_model v)
  set_model-Keep v = record { run = λ s p. framed.on_model s v p }

  pub close_tty-Keep : Keep close_tty
  close_tty-Keep = record { run = λ s p. framed.on_close s false p }

  pub get-Keep : Keep get
  get-Keep = record { run = λ s p. p }

  -- The outcomes of an access to an option.
  option-Keeps :
      {A B : Type 0} (o : Option A) (k : A → B × State) (why : Fault)
      → ((a : A) → P (k a).1)
      → Keeps (λ (b, t). P t) (elim o [ none ↦ err why | some a ↦ ok (k a) ])
  option-Keeps none k why h = tt
  option-Keeps (some a) k why h = h a

  pub get_model-Keep : Keep get_model
  get_model-Keep = record { run = λ s p. option-Keeps s.m (λ model. (model, s)) _ (λ a. p) }

  module _ (port : Port) where
    pub set_port-Keep : (e : Event) → Keep (set_port port e)
    set_port-Keep e = record {
      run = λ s p. elim (Bool-cases (port.sets s.nsets)) [
        | inl good ↦ rw good (framed.on_log _ _ (framed.on_modes _ (framed.on_sets s _ p)))
        | inr bad ↦ rw bad tt
      ];
    }

    pub try_modes-Keep : (e : Event) → Keep (try_modes port e)
    try_modes-Keep e = record {
      run = λ s p. elim (Bool-cases (port.sets s.nsets)) [
        | inl good ↦ rw good (framed.on_log _ _ (framed.on_modes _ (framed.on_sets s _ p)))
        | inr bad ↦ rw bad (framed.on_sets s _ p)
      ];
    }

    pub write_port-Keep : (bs : List ℕ) → Keep (write_port port bs)
    write_port-Keep bs = record {
      run = λ s p. elim (Bool-cases (port.writes s.nwrites)) [
        | inl good ↦ rw good (framed.on_log _ _ (framed.on_write s _ p))
        | inr bad ↦ rw bad (framed.on_write s _ p)
      ];
    }

    pub read_port-Keep : Keep (read_port port)
    read_port-Keep = record {
      run = λ s p. option-Keeps (port.reads s.nreads) _ _ (λ buf. framed.on_read s _ p);
    }

    pub now-Keep : Keep (now port)
    now-Keep = record { run = λ s p. framed.on_look s _ p }

    set_timeout-Keep : (t : ℤ) → Keep (set_timeout port t)
    unfolding set_timeout
    set_timeout-Keep t = record {
      run = λ s p. elim (Bool-cases (not (eq_ℤ s.old_timeout t))) [
        | inl e ↦ rw e (
            Stays.run
              (Stays-bind P (set_port port _) _ (set_port-Keep _)
                (λ u. record { run = λ r q. framed.on_timeout r _ q }))
              s p)
        | inr e ↦ rw e p
      ];
    }

    recv_bytes-Keep : (t : ℤ) → Keep (recv_bytes port t)
    unfolding recv_bytes
    recv_bytes-Keep t =
        Stays-bind P (set_timeout port t) _ (set_timeout-Keep t) (λ u. read_port-Keep)

    see_other-Keep : (b : ℕ) (l : Look) → P l.st → P (Look.st (see_other b l))
    unfolding see_other
    see_other-Keep b l p = elim (Bool-cases (b / 16 == 0xD)) [
      | inl d ↦ rw d (framed.on_ps _ _ p)
      | inr nd ↦ elim (Bool-cases (b / 16 == 0xE)) [
        | inl e ↦ rw (nd, e) (framed.on_model _ _ (framed.on_ps _ _ p))
        | inr ne ↦ elim (Bool-cases (b / 16 == 0x8)) [
          | inl v ↦ rw (nd, ne, v) (framed.on_ps _ _ p)
          | inr nv ↦ elim (Bool-cases (b / 64 == 1)) [
            | inl o ↦ rw (nd, ne, nv, o) (framed.on_ps _ _ p)
            | inr no_ ↦ rw (nd, ne, nv, no_) (framed.on_ps _ _ p)
          ]
        ]
      ]
    ]

    see_byte-Keep : (b : ℕ) (l : Look) → P l.st → P (Look.st (see_byte b l))
    unfolding see_byte
    see_byte-Keep b l p = elim (Bool-cases (b == 0x11)) [
      | inl xon ↦ rw xon (framed.on_log _ _ (framed.on_ps _ _ p))
      | inr n ↦ elim (Bool-cases (b == 0x13)) [
        | inl xoff ↦ rw (n, xoff) (framed.on_log _ _ (framed.on_ps _ _ p))
        | inr n' ↦ elim (Bool-cases (b == 0xC7)) [
          | inl c ↦ rw (n, n', c) (framed.on_ps _ _ p)
          | inr n'' ↦ elim (Bool-cases (b == 0xC9)) [
            | inl k ↦ rw (n, n', n'', k) (framed.on_ps _ _ p)
            | inr n3 ↦ rw (n, n', n'', n3) (see_other-Keep b l p)
          ]
        ]
      ]
    ]

    see_bytes-Keep : (bs : List ℕ) (l : Look) → P l.st → P (Look.st (see_bytes bs l))
    unfolding see_bytes
    see_bytes-Keep [] l p = p
    see_bytes-Keep (b ∷ bs) l p = see_bytes-Keep bs (see_byte b l) (see_byte-Keep b l p)

    inspect-Keep : (l : Look) → P l.st → P (Look.st (inspect l))
    unfolding inspect
    inspect-Keep l p = elim (Bool-cases (has 0x40 l.sb)) [
      | inl set ↦
          rw set (if-both (λ (x : Look). P x.st) _ _ _ (framed.on_ps _ _ p) (framed.on_ps _ _ p))
      | inr clear ↦ rw clear p
    ]

    sense_loop-Keep : (fuel : ℕ) (t : ℤ) (sb : ℕ) → Keep (sense_loop port fuel t sb)
    unfolding sense_loop
    sense_loop-Keep zero t sb = record { run = λ s p. tt }
    sense_loop-Keep (suc fuel) t sb = Stays-bind P (recv_bytes port t) _ (recv_bytes-Keep t) (λ buf.
        elim (List-cases buf) [
          | inl e ↦ rw e (Stays-done P)
          | inr (c, cs, e) ↦ rw e (record {
            run = λ s p.
                Stays.run (sense_loop-Keep fuel _ _) _
                  (inspect-Keep _ (see_bytes-Keep (c ∷ cs) _ p));
          })
        ])

    module _ (fuel : ℕ) where
      pub sense-Keep : (t : ℤ) → Keep (sense port fuel t)
      unfolding sense
      sense-Keep t = Stays-bind P get _ get-Keep (λ s.
          Stays-bind P (set_ps _) _ (set_ps-Keep _) (λ u.
            Stays-bind P (sense_loop port fuel t 0) _ (sense_loop-Keep fuel t 0)
              (λ u. Stays-bind P get _ get-Keep (λ s. Stays-give P s.ps))))

      force_loop-Keep : (n : ℕ) → Keep (force_loop port fuel n)
      unfolding force_loop
      force_loop-Keep zero = Stays-done P
      force_loop-Keep (suc n) = Stays-bind P (sense port fuel (pos 0)) _ (sense-Keep _) (λ a.
          Stays-if P _ (emit _) _ (emit-Keep _) (
            Stays-bind P (emit resume) _ (emit-Keep _) (λ u.
              Stays-bind P (write_port port (0 ∷ [])) _ (write_port-Keep _)
                (λ b. Stays-bind P (emit drained) _ (emit-Keep _) (λ u. force_loop-Keep n)))))

      pub force-Keep : Keep (force port fuel)
      unfolding force
      force-Keep = search (Stays-bind P, emit-Keep, get-Keep, force_loop-Keep)

pub ruleset keeping = (
  Stays-bind, Stays-if, Stays-give, Stays-done, Stays-fail, emit-Keep, set_ps-Keep, set_tof-Keep,
  set_model-Keep, close_tty-Keep, get-Keep, get_model-Keep, set_port-Keep, try_modes-Keep,
  write_port-Keep, now-Keep, sense-Keep, force-Keep,
)
