-- ===== src/Slplus/Label/Prompt.antt =====
-- A printer that is always ready, and what the driver's runs send to it.
use mathlib.Core.List.{append-nil}
use slap.Base.{ℕ, suc, ◌+◌, ◌*◌, ◌≡◌, ap, sym, ◌∙◌, true, List, [], ◌∷◌, ◌++◌, some, arith}
use slap.Base.Int.{ℤ, pos}
use slap.Base.Result.{Returns, returns, mono}
pub use slap.Serial.Traffic.{IsAny}
use slap.Serial.Traffic.{Writes, Writes-bind, Writes-give}
use slap.Slplus.Line.{Port, State, Event, bytes, Run, ◌>>=◌, ◌>>◌, resume, give, emit, set_ps}
use slap.Slplus.Status.{ack, without, acked, status_of, sense_loop, sense}
use slap.Slplus.Status.Latest.{Quiet, recv_bytes-Quiet}

-- No call fails, and every poll of the port finds one byte that says that the printer is idle.
pub record IsPrompt (port : Port) : Type 0 where
  pub idle_byte : (k : ℕ) → port.reads (2 * k) ≡ some (0x20 ∷ [])
  pub then_nothing : (k : ℕ) → port.reads (2 * k + 1) ≡ some []
  pub writes_ok : (k : ℕ) → port.writes k ≡ true
  pub sets_ok : (k : ℕ) → port.sets k ≡ true

-- Between two polls.
abbrev pub IsBetween : State → Type 0
IsBetween s = (k : ℕ) × (s.nreads ≡ 2 * k)

-- The run ends without a fault, in a value with the property, and has written these bytes.
abbrev pub Sends : {A : Type 0} → List ℕ → (A → Type 0) → Run A → Type 0
Sends bs Q m = Writes IsBetween (λ s. bytes s.log) bs Q m

pub Sends-bind :
    {A B : Type 0} (bs cs : List ℕ) (Q : A → Type 0) (R : B → Type 0) (m : Run A) (k : A → Run B)
    → Sends bs Q m
    → ((a : A) → Q a → Sends cs R (k a))
    → Sends (bs ++ cs) R (m >>= k)
Sends-bind = Writes-bind IsBetween (λ s. bytes s.log)

pub Sends-give : {A : Type 0} (Q : A → Type 0) (a : A) → Q a → Sends [] Q (give a)
Sends-give = Writes-give IsBetween (λ s. bytes s.log)

pub Sends-emit :
    (e : Event) → ((es : List Event) → bytes (e ∷ es) ≡ bytes es) → Sends [] IsAny (emit e)
Sends-emit e same s b = returns _ (tt, b, same s.log ∙ sym (append-nil (bytes s.log)))

pub Sends-set_ps : (v : ℕ) → Sends [] IsAny (set_ps v)
Sends-set_ps v s b = returns _ (tt, b, sym (append-nil (bytes s.log)))

module _ (port : Port) (prompt : IsPrompt port) where
  loop_end :
      (n : ℕ) (t : ℤ) (s : State)
      → port.reads s.nreads ≡ some []
      → Returns (sense_loop port (suc n) t s) (λ (a, u). Quiet s (s.nreads + 1) u)
  unfolding sense_loop
  loop_end n t s e =
      let r = recv_bytes-Quiet port prompt.sets_ok t s [] e in
      rw (◌>>=◌, r.equals, (r.holds).0) (returns _ (r.holds).1)

  loop_idle :
      (n : ℕ) (t : ℤ) (s : State)
      → port.reads s.nreads ≡ some (0x20 ∷ [])
      → port.reads (s.nreads + 1) ≡ some []
      → Returns
          (sense_loop port (suc (suc n)) t s)
          (λ (a, u). (u.ps ≡ 0x20) × (u.nreads ≡ s.nreads + 2) × (bytes u.log ≡ bytes s.log))
  unfolding sense_loop status_of acked bytes
  loop_idle n t s e e' =
      let r = recv_bytes-Quiet port prompt.sets_ok t s (0x20 ∷ []) e in
      let u = (r.value).1 in
      let next : port.reads u.nreads ≡ some [] = rw ((r.holds).1.1) e' in
      let q = loop_end n (pos 0) (record u { ps = 0x20; log = resume ∷ u.log }) next in
      rw (◌>>=◌, r.equals, (r.holds).0)
        (mono q (λ (a, v) (x, y, z).
          (x, y ∙ ap (λ i. i + 1) ((r.holds).1.1) ∙ the_sum s.nreads, z ∙ (r.holds).1.2)))
    where
      the_sum : (i : ℕ) → i + 1 + 1 ≡ i + 2
      the_sum i = omega arith

  pub sense-Sends : (n : ℕ) (t : ℤ) → Sends [] (λ a. a ≡ 0x20) (sense port (suc (suc n)) t)
  unfolding sense
  sense-Sends n t s (k, b) =
      let s' : State = record s { ps = without ack s.ps } in
      let r = loop_idle n t s' (rw b (prompt.idle_byte k)) (rw b (prompt.then_nothing k)) in
      rw (◌>>=◌, ◌>>◌, r.equals)
        (returns _ (
          (r.holds).0,
          (k + 1, (r.holds).1 ∙ omega (arith, b)),
          (r.holds).2 ∙ sym (append-nil (bytes s.log)),
        ))
