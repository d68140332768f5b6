-- ===== src/Slpro/Status/Seen.antt =====
-- What `sense` of slap/slpro.c reports, as a function of the bytes that have arrived.
use slap.Base.{
  ℕ, zero, suc, ◌+◌, ◌-◌, ◌/◌, ◌%◌, ◌<◌, ◌≡◌, refl, sym, ◌∙◌, subst, true, false, ◌==◌, Bool-cases,
  inl, inr, List, [], ◌∷◌, ◌++◌, arith, length, if◌then◌else◌,
}
use slap.Base.Bits.{has, without}
use slap.Base.Int.{ℤ}
use slap.Base.Result.{Returns, returns, mono}
use slap.Serial.{bytes, Port, ◌>>=◌, ◌>>◌}
use slap.Serial.Traffic.{Delivers}
use slap.Slpro.Line.{State}
use slap.Slpro.Status.{
  Look, buf_full, checkpoint, ping_ok, physical, see_other, see_byte, see_bytes, inspect,
  sense_loop, sense,
}
use slap.Slpro.Status.Quiet.{bytes-IsDeaf, recv_bytes-Quiet}
use slap.Slpro.Status.View.{
  View, see, see_all, Shows, view, with_checkpoint, with_ping, with_full, without_full,
  without-checkpoint, without_ping, without-garbled, with_garbled, with_physical,
}

-- The status word `p` together with the status byte `sb` that is still to be inspected.
record Pends (p sb : ℕ) (w : View) : Type 0 where
  phys_eq : (if has 0x40 sb then sb % 64 else physical p) ≡ w.phys
  full_eq : has buf_full p ≡ w.full
  check_eq : has checkpoint p ≡ w.check
  ping_eq : has ping_ok p ≡ w.ping
  low : sb < 128

Pends-same : {p q sb : ℕ} {w : View} → Shows q (view p) → Pends p sb w → Pends q sb w
Pends-same {p} {q} {sb} {w} e h = record {
  phys_eq = rw (e.phys_eq) h.phys_eq;
  full_eq = e.full_eq ∙ h.full_eq;
  check_eq = e.check_eq ∙ h.check_eq;
  ping_eq = e.ping_eq ∙ h.ping_eq;
  low = h.low;
}

Pends-change :
    {p q sb : ℕ} {v w w' : View}
    → Shows q v
    → Pends p sb w
    → v.phys ≡ physical p
    → w.phys ≡ w'.phys
    → v.full ≡ w'.full
    → v.check ≡ w'.check
    → v.ping ≡ w'.ping
    → Pends q sb w'
Pends-change e h old phys full check ping = record {
  phys_eq = rw (e.phys_eq, old) (h.phys_eq ∙ phys);
  full_eq = e.full_eq ∙ full;
  check_eq = e.check_eq ∙ check;
  ping_eq = e.ping_eq ∙ ping;
  low = h.low;
}

see_other-Pends :
    (b : ℕ) (l : Look) (w : View)
    → Pends l.st.ps l.sb w
    → Pends
        (Look.st (see_other b l)).ps
        (Look.sb (see_other b l))
        (if b / 64 == 1 then record w { phys = b % 64 } else w)
unfolding see_other
see_other-Pends b l w h =
    let h' = Pends-same (without-garbled l.st.ps) h in
    elim (Bool-cases (b / 16 == 0xD)) [
      | inl d ↦ let o : (b / 64 == 1) ≡ false = ground arith in rw (d, o) h'
      | inr nd ↦ elim (Bool-cases (b / 16 == 0xE)) [
        | inl e ↦ let o : (b / 64 == 1) ≡ false = ground arith in rw (nd, e, o) h'
        | inr ne ↦ elim (Bool-cases (b / 16 == 0x8)) [
          | inl v ↦ let o : (b / 64 == 1) ≡ false = ground arith in rw (nd, ne, v, o) h'
          | inr nv ↦ elim (Bool-cases (b / 64 == 1)) [
            | inl o ↦
                rw (nd, ne, nv, o)
                  (record {
                    phys_eq = ground arith;
                    full_eq = h'.full_eq;
                    check_eq = h'.check_eq;
                    ping_eq = h'.ping_eq;
                    low = ground arith;
                  })
            | inr no_ ↦ rw (nd, ne, nv, no_) (Pends-same (with_garbled _) h')
          ]
        ]
      ]
    ]

see_byte-Pends :
    (b : ℕ) (l : Look) (w : View)
    → Pends l.st.ps l.sb w
    → Pends (Look.st (see_byte b l)).ps (Look.sb (see_byte b l)) (see b w)
unfolding see_byte see
see_byte-Pends b l w h = elim (Bool-cases (b == 0x11)) [
  | inl xon ↦ rw xon (Pends-change (without_full l.st.ps) h refl refl refl h.check_eq h.ping_eq)
  | inr n ↦ elim (Bool-cases (b == 0x13)) [
    | inl xoff ↦
        rw (n, xoff) (Pends-change (with_full l.st.ps) h refl refl refl h.check_eq h.ping_eq)
    | inr n' ↦ elim (Bool-cases (b == 0xC7)) [
      | inl c ↦
          rw (n, n', c)
            (Pends-same (without-garbled _)
              (Pends-change (with_checkpoint l.st.ps) h refl refl h.full_eq refl h.ping_eq))
      | inr n'' ↦ elim (Bool-cases (b == 0xC9)) [
        | inl p ↦
            rw (n, n', n'', p)
              (Pends-same (without-garbled _)
                (Pends-change (with_ping l.st.ps) h refl refl h.full_eq h.check_eq refl))
        | inr n3 ↦ rw (n, n', n'', n3) (see_other-Pends b l w h)
      ]
    ]
  ]
]

see_bytes-Pends :
    (bs : List ℕ) (l : Look) (w : View)
    → Pends l.st.ps l.sb w
    → Pends (Look.st (see_bytes bs l)).ps (Look.sb (see_bytes bs l)) (see_all bs w)
unfolding see_bytes see_all
see_bytes-Pends [] l w h = h
see_bytes-Pends (b ∷ bs) l w h =
    see_bytes-Pends bs (see_byte b l) (see b w) (see_byte-Pends b l w h)

-- The inspected status word says it all.
inspect-Shows :
    (l : Look) (w : View)
    → Pends l.st.ps l.sb w
    → Shows (Look.st (inspect l)).ps w
      × (has 0x40 (Look.sb (inspect l)) ≡ false)
      × (Look.sb (inspect l) < 128)
unfolding inspect
inspect-Shows l w h = elim (Bool-cases (has 0x40 l.sb)) [
  | inl set ↦
      let same : ((l.sb - 64) % 64 == l.sb - 64) ≡ true = ground (arith, h.low) in
      let low : (l.sb - 64) % 64 < 64 = omega arith in
      let phys : l.sb % 64 ≡ w.phys = rw set at h.phys_eq in
      let e = with_physical l.st.ps ((l.sb - 64) % 64) low in
      rw (set, same)
        (
          record {
            phys_eq = e.phys_eq ∙ ground (arith, set, h.low, phys);
            full_eq = e.full_eq ∙ h.full_eq;
            check_eq = e.check_eq ∙ h.check_eq;
            ping_eq = e.ping_eq ∙ h.ping_eq;
          },
          ground (arith, set, h.low),
          ground (arith, set, h.low),
        )
  | inr clear ↦ rw clear (
    record {
      phys_eq = rw clear at h.phys_eq;
      full_eq = h.full_eq;
      check_eq = h.check_eq;
      ping_eq = h.ping_eq;
    },
    clear,
    h.low,
  )
]

Shows-Pends : (p sb : ℕ) (w : View) → Shows p w → has 0x40 sb ≡ false → sb < 128 → Pends p sb w
Shows-Pends p sb w h clear low = record {
  phys_eq = rw clear h.phys_eq;
  full_eq = h.full_eq;
  check_eq = h.check_eq;
  ping_eq = h.ping_eq;
  low = low;
}

-- The reading changes nothing else that the loop needs.
see_other-nreads : (b : ℕ) (l : Look) → (Look.st (see_other b l)).nreads ≡ l.st.nreads
unfolding see_other
see_other-nreads b l = ground arith

see_byte-nreads : (b : ℕ) (l : Look) → (Look.st (see_byte b l)).nreads ≡ l.st.nreads
unfolding see_byte
see_byte-nreads b l = ground (arith, see_other-nreads b l)

see_bytes-nreads : (bs : List ℕ) (l : Look) → (Look.st (see_bytes bs l)).nreads ≡ l.st.nreads
unfolding see_bytes
see_bytes-nreads [] l = refl
see_bytes-nreads (b ∷ bs) l = see_bytes-nreads bs (see_byte b l) ∙ see_byte-nreads b l

inspect-nreads : (l : Look) → (Look.st (inspect l)).nreads ≡ l.st.nreads
unfolding inspect
inspect-nreads l = ground arith

-- The bytes of all buffers, in their order.
abbrev pub joined : List (ℕ × List ℕ) → List ℕ
joined [] = []
joined ((c, cs) ∷ bufs) = (c ∷ cs) ++ joined bufs

see_all-append : (bs cs : List ℕ) (w : View) → see_all (bs ++ cs) w ≡ see_all cs (see_all bs w)
unfolding see_all
see_all-append [] cs w = refl
see_all-append (b ∷ bs) cs w = see_all-append bs cs (see b w)

module _ (port : Port) (sets_ok : (k : ℕ) → port.sets k ≡ true) where
  sense_loop-Shows :
      (bufs : List (ℕ × List ℕ)) (fuel : ℕ) (t : ℤ) (sb : ℕ) (s : State) (w : View)
      → length bufs < fuel
      → Delivers port s.nreads bufs
      → Shows s.ps w
      → has 0x40 sb ≡ false
      → sb < 128
      → Returns
          (sense_loop port fuel t sb s)
          (λ (a, u). Shows u.ps (see_all (joined bufs) w) × (u.nreads ≡ s.nreads + length bufs + 1))
  unfolding sense_loop see_all
  sense_loop-Shows bufs zero t sb s w h d p c low = absurd (omega arith)
  sense_loop-Shows [] (suc fuel) t sb s w h d p c low =
      let r = recv_bytes-Quiet bytes bytes-IsDeaf port sets_ok t s [] d in
      let n : s.nreads + 1 ≡ s.nreads + 0 + 1 = omega arith in
      rw (◌>>=◌, r.equals, (r.holds).0)
        (returns _ (subst (λ ps. Shows ps (see_all [] w)) (sym (r.holds).1.0) p, (r.holds).1.1 ∙ n))
  sense_loop-Shows ((b, bs) ∷ bufs) (suc fuel) t sb s w h (d, ds) p c low =
      let r = recv_bytes-Quiet bytes bytes-IsDeaf port sets_ok t s (b ∷ bs) d in
      let u = (r.value).1 in
      let l0 : Look = record { st = u; timeout = t; sb = sb } in
      let start = Shows-Pends u.ps sb w (subst (λ ps. Shows ps w) (sym (r.holds).1.0) p) c low in
      let pend = see_bytes-Pends (b ∷ bs) l0 w start in
      let l = see_bytes (b ∷ bs) l0 in
      let (shown, clear, low') = inspect-Shows l (see_all (b ∷ bs) w) pend in
      let reads : (Look.st (inspect l)).nreads ≡ s.nreads + 1 =
        inspect-nreads l ∙ see_bytes-nreads (b ∷ bs) l0 ∙ (r.holds).1.1 in
      let q =
        sense_loop-Shows bufs fuel (Look.timeout (inspect l)) (Look.sb (inspect l))
          (Look.st (inspect l)) (see_all (b ∷ bs) w) (omega arith) (rw reads ds) shown clear low' in
      rw (◌>>=◌, r.equals, (r.holds).0)
        (mono q (λ (a, v) (x, y).
          (rw (see_all-append (b ∷ bs) (joined bufs) w) x, y ∙ omega (arith, reads))))

  start-Shows :
      (p : ℕ)
      → Shows
          (without ping_ok (without checkpoint p))
          (record (view p) { check = false; ping = false })
  start-Shows p =
      let a = without-checkpoint p in
      let b = without_ping (without checkpoint p) in
      record {
        phys_eq = b.phys_eq ∙ a.phys_eq;
        full_eq = b.full_eq ∙ a.full_eq;
        check_eq = b.check_eq ∙ a.check_eq;
        ping_eq = b.ping_eq;
      }

  -- However the bytes that have arrived are split into buffers, `sense` reads them all and ends.
  -- The status that it reports has the printer's own bits as the last status byte among them has
  -- them, says whether to hold as the last XON or XOFF says, and whether a checkpoint was reached
  -- and a ping answered as the bytes say; of what no byte speaks it says what the old status says,
  -- but that there was no checkpoint and no answer.
  pub sense-Shows :
      (bufs : List (ℕ × List ℕ)) (fuel : ℕ) (t : ℤ) (s : State)
      → length bufs < fuel
      → Delivers port s.nreads bufs
      → Returns (sense port fuel t s) (λ (a, u).
        (a ≡ u.ps)
        × Shows a (see_all (joined bufs) (record (view s.ps) { check = false; ping = false }))
        × (u.nreads ≡ s.nreads + length bufs + 1))
  unfolding sense
  sense-Shows bufs fuel t s h d =
      let r =
        sense_loop-Shows bufs fuel t 0 (record s { ps = without ping_ok (without checkpoint s.ps) })
          _ h d (start-Shows s.ps) refl (omega arith) in
      rw (◌>>=◌, ◌>>◌, r.equals) (returns _ (refl, (r.holds).0, (r.holds).1))
