-- ===== src/Slpro/Wait/Clear.antt =====
-- After `check_fault` of slap/slpro.c there are labels in the printer.
use slap.Base.{◌∷◌, ℕ, zero, suc, ◌≡◌, refl, false, not, Bool-cases, inl, inr, if◌then◌else◌}
use slap.Base.Bits.{has, without}
use slap.Base.Int.{ℤ, pos}
use slap.Base.Result.{Keeps}
use slap.Serial.{Port, told, done}
use slap.Serial.Safety.{Keeps-after, Keeps-then}
use slap.Slpro.Line.{Host, State, Run}
use slap.Slpro.Status.{sense, sense_loop, checkpoint, ping_ok, paper_out, wants_reset}
use slap.Slpro.Wait.{
  warn_loop, check_closed, check_loaded, shut_down, reset_printer_with, formfeed_with,
  check_fault_at, check_fault,
}

abbrev Reports : ℕ × State → Type 0
Reports (v, t) = v ≡ t.ps

-- The status that `sense` returns is the one that it leaves.
sense-Reports :
    (port : Port) (fuel : ℕ) (timeout : ℤ) (s : State) → Keeps Reports (sense port fuel timeout s)
unfolding sense
sense-Reports port fuel timeout s =
    Keeps-after Reports (sense_loop port fuel timeout 0) _
      (record s { ps = without ping_ok (without checkpoint s.ps) }) (λ u t. refl)

module _ (host : Host) (port : Port) (fuel : ℕ) where
  -- The bit is off in the status.
  abbrev IsOff : {A : Type 0} → (bit : ℕ) → A × State → Type 0
  IsOff bit (a, t) = has bit t.ps ≡ false

  warn_loop-IsOff :
      (bit : ℕ) (timeout : ℤ) (n : ℕ) (s : State)
      → Keeps (IsOff bit) (warn_loop host port fuel bit timeout n s)
  unfolding warn_loop
  warn_loop-IsOff bit timeout zero s = tt
  warn_loop-IsOff bit timeout (suc n) s =
      let s' : State = record s { log = told ∷ s.log } in
      Keeps-then Reports (IsOff bit) (sense port fuel timeout) _ s'
        (sense-Reports port fuel timeout s')
        (λ v t e. elim (Bool-cases (has bit v)) [
          | inl on ↦ rw on (warn_loop-IsOff bit timeout n t)
          | inr off ↦ rw off (rw e at off)
        ])

  check_loaded-IsOff : (s : State) → Keeps (IsOff paper_out) (check_loaded host port fuel s)
  unfolding check_loaded
  check_loaded-IsOff s =
      Keeps-then Reports (IsOff paper_out) (sense port fuel (pos 0)) _ s
        (sense-Reports port fuel (pos 0) s)
        (λ v t e. elim (Bool-cases (has paper_out v)) [
          | inl on ↦ rw on (
              Keeps-then (IsOff paper_out) (IsOff paper_out)
                (warn_loop host port fuel paper_out (pos 97) fuel) _ t
                (warn_loop-IsOff paper_out (pos 97) fuel t) (λ u w off. off))
          | inr off ↦ rw off (rw e at off)
        ])

  abbrev Loaded : ℕ × State → Type 0
  Loaded (v, t) = (v ≡ t.ps) × (has paper_out v ≡ false)

  -- The program ends here.
  shut_down-ends : (fault : ℤ → Run ℕ) (s : State) → Keeps Loaded (shut_down host port fuel fault s)
  unfolding shut_down
  shut_down-ends fault s = Keeps-after Loaded (reset_printer_with host port fuel fault) _ s (λ a t.
      Keeps-after Loaded (if not t.tof then formfeed_with host port fuel fault else done) _ t
        (λ u w. tt))

  check_fault_at-Loaded :
      (depth : ℕ) (timeout : ℤ) (s : State)
      → Keeps Loaded (check_fault_at host port fuel depth timeout s)
  unfolding check_fault_at
  check_fault_at-Loaded zero timeout s = tt
  check_fault_at-Loaded (suc depth) timeout s =
      Keeps-after Loaded (sense port fuel timeout) _ s (λ v t. elim (Bool-cases (wants_reset v)) [
        | inl bad ↦ rw bad (shut_down-ends (check_fault_at host port fuel depth) t)
        | inr good ↦ rw good (
            Keeps-after Loaded (check_closed host port fuel) _ t (λ u w.
              Keeps-then (IsOff paper_out) Loaded (check_loaded host port fuel) _ w
                (check_loaded-IsOff w) (λ u x off. (refl, off))))
      ])

  -- Where `check_fault` goes on, the status that it returns is the one it leaves, and it does not
  -- say that the printer is out of labels.
  pub check_fault-IsLoaded :
      (timeout : ℤ) (s : State)
      → Keeps
          (λ (v, t). (v ≡ t.ps) × (has paper_out v ≡ false))
          (check_fault host port fuel timeout s)
  unfolding check_fault
  check_fault-IsLoaded timeout s = check_fault_at-Loaded fuel timeout s
