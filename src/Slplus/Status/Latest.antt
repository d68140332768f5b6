-- ===== src/Slplus/Status/Latest.antt =====
-- `sense` reports the latest status, and it comes to an end when the printer is silent.
use slap.Base.{
  ℕ, zero, suc, ◌+◌, ◌%◌, ◌||◌, leb, Bool, false, All, ◌<◌, ◌≡◌, refl, ap, ◌∙◌, true, not,
  Bool-cases, inl, inr, List, [], ◌∷◌, some, arith, length, if◌then◌else◌,
}
use slap.Base.Int.{ℤ, pos, eq_ℤ}
use slap.Base.Result.{Returns, returns, mono}
pub use slap.Serial.Traffic.{Delivers}
use slap.Slplus.Line.{Port, State, hold, resume, bytes, ◌>>=◌, ◌>>◌, read_port, set_port}
use slap.Slplus.Status.{
  has, ack, buf_full, without, status_of, acked, last_byte, set_timeout, recv_bytes, sense_loop,
  sense,
}

-- The last byte of a buffer, and whether one of its bytes has the highest bit.
unfoldable pub final : ℕ → List ℕ → ℕ
final c [] = c
final c (d ∷ ds) = final d ds

unfoldable pub any_high : List ℕ → Bool
any_high [] = false
any_high (c ∷ cs) = leb 128 c || any_high cs

-- What a buffer of bytes reports: the lower seven bits of its last byte, and the highest bit of
-- any.
unfoldable pub reported : ℕ → List ℕ → ℕ
reported c cs = final c cs % 128 + (if any_high (c ∷ cs) then 128 else 0)

-- What the last of the buffers reports, or the status before if there is none.
unfoldable pub latest : ℕ → List (ℕ × List ℕ) → ℕ
latest ps [] = ps
latest ps ((c, cs) ∷ []) = reported c cs
latest ps (_ ∷ b ∷ bufs) = latest ps (b ∷ bufs)

-- What the reads deliver are bytes.
abbrev pub AreBytes : List (ℕ × List ℕ) → Type 0
AreBytes = All (λ (c, cs). All (λ b. b < 256) (c ∷ cs))

acked-any_high : (cs : List ℕ) → All (λ b. b < 256) cs → acked cs ≡ any_high cs
unfolding acked any_high
acked-any_high [] h = refl
acked-any_high (c ∷ cs) (small, h) =
    let e : has ack c ≡ leb 128 c = ground arith in rw (e, acked-any_high cs h) refl

final-small : (c : ℕ) (cs : List ℕ) → All (λ b. b < 256) (c ∷ cs) → final c cs < 256
unfolding final
final-small c [] (h, hs) = h
final-small c (d ∷ ds) (h, hs) = final-small d ds hs

last_byte-final : (c : ℕ) (cs : List ℕ) → last_byte c cs ≡ final c cs
unfolding final
last_byte-final c [] = refl
last_byte-final c (d ∷ ds) = last_byte-final d ds

final-high : (c : ℕ) (cs : List ℕ) → any_high (c ∷ cs) ≡ false → final c cs < 128
unfolding final any_high
final-high c [] h = ground arith
final-high c (d ∷ ds) h = final-high d ds (ground arith)

status_of-reported :
    (c : ℕ) (cs : List ℕ) → All (λ b. b < 256) (c ∷ cs) → status_of c cs ≡ reported c cs
unfolding status_of reported
status_of-reported c cs h =
    let small = final-small c cs h in
    rw (acked-any_high (c ∷ cs) h, last_byte-final c cs)
      (elim (Bool-cases (any_high (c ∷ cs))) [
        | inl e ↦ rw e (ground arith)
        | inr e ↦ let low = final-high c cs e in rw e (ground arith)
      ])

-- The status after the buffers, one after the other.
abbrev status_after : ℕ → List (ℕ × List ℕ) → ℕ
status_after ps [] = ps
status_after ps ((c, cs) ∷ bufs) = status_after (status_of c cs) bufs

status_after-latest :
    (ps : ℕ) (bufs : List (ℕ × List ℕ)) → AreBytes bufs → status_after ps bufs ≡ latest ps bufs
unfolding latest
status_after-latest ps [] h = refl
status_after-latest ps ((c, cs) ∷ []) (h, hs) = status_of-reported c cs h
status_after-latest ps ((c, cs) ∷ (d, ds) ∷ bufs) (h, hs) =
    status_after-latest ps ((d, ds) ∷ bufs) hs

-- The run ends in a state that is as before but for the port.
abbrev pub Quiet : State → (reads : ℕ) → State → Type 0
Quiet s reads u = (u.ps ≡ s.ps) × (u.nreads ≡ reads) × (bytes u.log ≡ bytes s.log)

module _ (port : Port) (sets_ok : (k : ℕ) → port.sets k ≡ true) where
  set_timeout-Quiet :
      (t : ℤ) (s : State) → Returns (set_timeout port t s) (λ (a, u). Quiet s s.nreads u)
  unfolding set_timeout bytes
  set_timeout-Quiet t s = elim (Bool-cases (not (eq_ℤ s.old_timeout t))) [
    | inl e ↦ rw (◌>>=◌, ◌>>◌, set_port, e, sets_ok s.nsets) (returns _ (refl, refl, refl))
    | inr e ↦ rw e (returns _ (refl, refl, refl))
  ]

  pub recv_bytes-Quiet :
      (t : ℤ) (s : State) (buf : List ℕ)
      → port.reads s.nreads ≡ some buf
      → Returns (recv_bytes port t s) (λ (a, u). (a ≡ buf) × Quiet s (s.nreads + 1) u)
  unfolding recv_bytes
  recv_bytes-Quiet t s buf e =
      let r = set_timeout-Quiet t s in
      let e' : port.reads (State.nreads (r.value).1) ≡ some buf = rw (r.holds).1 e in
      rw (◌>>=◌, ◌>>◌, read_port, r.equals, e')
        (returns _ (refl, ((r.holds).0, ap (λ n. n + 1) (r.holds).1, (r.holds).2)))

  sense_loop-latest :
      (bufs : List (ℕ × List ℕ)) (fuel : ℕ) (t : ℤ) (s : State)
      → length bufs < fuel
      → Delivers port s.nreads bufs
      → Returns
          (sense_loop port fuel t s)
          (λ (a, u). (u.ps ≡ status_after s.ps bufs) × (u.nreads ≡ s.nreads + length bufs + 1))
  unfolding sense_loop
  sense_loop-latest bufs zero t s h d = absurd (omega arith)
  sense_loop-latest [] (suc fuel) t s h d =
      let r = recv_bytes-Quiet t s [] d in
      let n : s.nreads + 1 ≡ s.nreads + 0 + 1 = omega arith in
      rw (◌>>=◌, r.equals, (r.holds).0) (returns _ ((r.holds).1.0, (r.holds).1.1 ∙ n))
  sense_loop-latest ((c, cs) ∷ bufs) (suc fuel) t s h (d, ds) =
      let r = recv_bytes-Quiet t s (c ∷ cs) d in
      let u = (r.value).1 in
      let e = if has buf_full (status_of c cs) then hold else resume in
      let v : State = record u { ps = status_of c cs; log = e ∷ u.log } in
      let ds' : Delivers port v.nreads bufs = rw (r.holds).1.1 ds in
      let q = sense_loop-latest bufs fuel (pos 0) v (omega arith) ds' in
      rw (◌>>=◌, ◌>>◌, r.equals, (r.holds).0)
        (mono q (λ (a, w) (x, y). (x, y ∙ omega (arith, (r.holds).1.1))))

  -- When every change of the port's modes succeeds, and however many buffers of bytes have arrived,
  -- `sense` reads them all and ends, and it reports the status in the last byte of the last of
  -- them, with the acknowledgement if any byte of that buffer had it; when nothing has arrived, it
  -- reports the old status without the acknowledgement. The fuel it takes is one more than the
  -- number of the buffers.
  pub sense-latest :
      (bufs : List (ℕ × List ℕ)) (fuel : ℕ) (t : ℤ) (s : State)
      → length bufs < fuel
      → Delivers port s.nreads bufs
      → AreBytes bufs
      → Returns (sense port fuel t s) (λ (a, u).
        (a ≡ latest (without ack s.ps) bufs)
        × (u.ps ≡ latest (without ack s.ps) bufs)
        × (u.nreads ≡ s.nreads + length bufs + 1))
  unfolding sense
  sense-latest bufs fuel t s h d are =
      let e = status_after-latest (without ack s.ps) bufs are in
      let r = sense_loop-latest bufs fuel t (record s { ps = without ack s.ps }) h d in
      rw (◌>>=◌, ◌>>◌, r.equals) (returns _ ((r.holds).0 ∙ e, (r.holds).0 ∙ e, (r.holds).1))
