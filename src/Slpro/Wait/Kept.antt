-- ===== src/Slpro/Wait/Kept.antt =====
-- The waiting, sending and checking of slap/slpro.c keeps every property of the state that does not
-- depend on the status, the port, the model, or the position of the label.
use slap.Base.{
  ℕ, zero, suc, ◌+◌, ltb, ◌==◌, Bool, true, false, not, Option, none, some, List, [], ◌∷◌,
}
use slap.Base.Bits.{has}
use slap.Base.Int.{ℤ, pos}
use slap.Base.Result.{fatal}
use slap.Tty.Baud.{val2baud}
use slap.Media.{slp_pro}
use slap.Serial.{Port, told, flushed_both, give, done, fail}
use slap.Serial.Safety.{Stays-bind, Stays-if, Stays-give, Stays-done, Stays-fail}
use slap.Slpro.Line.{Host, State, Run, emit, get, set_model, now}
use slap.Slpro.Models.{Model, valid_ptype}
use slap.Slpro.Status.{sense, force, ping_ok, wants_reset, comm_err, idle, buf_full}
use slap.Slpro.Wait.{
  warn_loop, check_loaded, check_closed, send_blind, set_baud, getmodel, clear_error, idle_loop,
  wait_for_idle_with, ready_loop, wait_for_ready_with, send_bytes_with, formfeed_with, ping_at,
  ping_with, reset_printer_with, shut_down, check_fault_at, check_fault, wait_for_idle, send_bytes,
  send_byte, formfeed, ping,
}
use slap.Slpro.Wait.Frame.{
  IsFramed, Keep, keeping, emit-Keep, sense-Keep, set_model-Keep, get-Keep, now-Keep, force-Keep,
}

module _ (P : State → Type 0) (framed : IsFramed P) (host : Host) (port : Port) (fuel : ℕ) where
  pub send_blind-Keep : (bs : List ℕ) → Keep P framed (send_blind host port fuel bs)
  unfolding send_blind
  send_blind-Keep bs = search keeping

  pub set_baud-Keep : (speed : ℕ) → Keep P framed (set_baud host port fuel speed)
  unfolding set_baud
  set_baud-Keep speed = search keeping

  warn_loop-Keep : (bit : ℕ) (t : ℤ) (n : ℕ) → Keep P framed (warn_loop host port fuel bit t n)
  unfolding warn_loop
  warn_loop-Keep bit t zero = search keeping
  warn_loop-Keep bit t (suc n) = Stays-bind P (emit told) _ (emit-Keep P framed _) (λ u.
      Stays-bind P (sense port fuel t) _ (sense-Keep P framed port fuel t) (λ a.
        Stays-if P (has bit a) (warn_loop host port fuel bit t n) done (warn_loop-Keep bit t n)
          (Stays-done P)))

  check_loaded-Keep : Keep P framed (check_loaded host port fuel)
  unfolding check_loaded
  check_loaded-Keep = search (keeping, warn_loop-Keep)

  check_closed-Keep : Keep P framed (check_closed host port fuel)
  unfolding check_closed
  check_closed-Keep = search (keeping, warn_loop-Keep)

  abbrev pro : Option Model
  pro = valid_ptype slp_pro

  default-Keep :
      (m : Option Model) → Keep P framed (elim m [ none ↦ set_model pro | some found ↦ done ])
  default-Keep none = set_model-Keep P framed pro
  default-Keep (some found) = Stays-done P

  pub getmodel-Keep : Keep P framed (getmodel host port fuel)
  unfolding getmodel
  getmodel-Keep = Stays-bind P (set_model none) _ (set_model-Keep P framed none) (λ u.
      Stays-bind P (send_blind host port fuel (0x12 ∷ [])) _ (send_blind-Keep _) (λ u.
        Stays-bind P (sense port fuel (pos 5)) _ (sense-Keep P framed port fuel _) (λ s.
          Stays-bind P _ _
            (Stays-if P (has comm_err s) (set_model pro) _ (set_model-Keep P framed pro)
              (Stays-bind P get _ (get-Keep P framed) (λ t. default-Keep t.m)))
            (λ u. Stays-bind P get _ (get-Keep P framed) (λ t. Stays-give P t.m)))))

  module _ (fault : ℤ → Run ℕ) (kept : (t : ℤ) → Keep P framed (fault t)) where
    clear_error-Keep : (t : ℤ) (t1 : ℕ) → Keep P framed (clear_error host port fuel fault t t1)
    unfolding clear_error
    clear_error-Keep t t1 = search (keeping, kept)

    idle_loop-Keep :
        (n timeout t1 : ℕ) → Keep P framed (idle_loop host port fuel fault n timeout t1)
    unfolding idle_loop
    idle_loop-Keep zero timeout t1 = Stays-fail P _
    idle_loop-Keep (suc n) timeout t1 =
        Stays-bind P (sense port fuel (pos timeout)) _ (sense-Keep P framed port fuel _) (λ a.
          Stays-if P (has idle a) (give true) _ (Stays-give P true) (
            Stays-bind P (clear_error host port fuel fault (pos 23) t1) _ (clear_error-Keep _ _)
              (λ start. Stays-bind P (now port) _ (now-Keep P framed port) (λ t.
                Stays-if P (ltb t (start + timeout))
                  (idle_loop host port fuel fault n timeout start) (give false)
                  (idle_loop-Keep n timeout start) (Stays-give P false)))))

    ready_loop-Keep :
        (n timeout t1 : ℕ) → Keep P framed (ready_loop host port fuel fault n timeout t1)
    unfolding ready_loop
    ready_loop-Keep zero timeout t1 = Stays-fail P _
    ready_loop-Keep (suc n) timeout t1 =
        Stays-bind P (sense port fuel (pos 0)) _ (sense-Keep P framed port fuel _) (λ a.
          Stays-if P (not (has buf_full a)) (give true) _ (Stays-give P true) (
            Stays-bind P (clear_error host port fuel fault (pos 0) t1) _ (clear_error-Keep _ _)
              (λ start. Stays-bind P (now port) _ (now-Keep P framed port) (λ t.
                Stays-if P (ltb t (start + timeout))
                  (ready_loop host port fuel fault n timeout start) (give false)
                  (ready_loop-Keep n timeout start) (Stays-give P false)))))

    wait_for_idle_with-Keep : (t : ℕ) → Keep P framed (wait_for_idle_with host port fuel fault t)
    unfolding wait_for_idle_with
    wait_for_idle_with-Keep t = search (keeping, idle_loop-Keep)

    send_bytes_with-Keep : (bs : List ℕ) → Keep P framed (send_bytes_with host port fuel fault bs)
    unfolding send_bytes_with wait_for_ready_with
    send_bytes_with-Keep bs = search (keeping, ready_loop-Keep, send_blind-Keep)

    formfeed_with-Keep : Keep P framed (formfeed_with host port fuel fault)
    unfolding formfeed_with
    formfeed_with-Keep = search (keeping, send_bytes_with-Keep, wait_for_idle_with-Keep) depth 20

    ping_at-Keep : (speeds : List ℕ) → Keep P framed (ping_at host port fuel fault speeds)
    unfolding ping_at
    ping_at-Keep [] = Stays-give P false
    ping_at-Keep (speed ∷ rest) =
        Stays-if P (val2baud host.baudmap speed == 0) (ping_at host port fuel fault rest) _
          (ping_at-Keep rest)
          (Stays-bind P (emit flushed_both) _ (emit-Keep P framed _) (λ u.
            Stays-bind P (set_baud host port fuel speed) _ (set_baud-Keep speed) (λ u.
              Stays-bind P (force port fuel) _ (force-Keep P framed port fuel) (λ u.
                Stays-bind P (send_blind host port fuel (0xA5 ∷ [])) _ (send_blind-Keep _) (λ u.
                  Stays-bind P (sense port fuel (pos 10)) _ (sense-Keep P framed port fuel _) (λ s.
                    Stays-if P (has ping_ok s) (give true) (ping_at host port fuel fault rest)
                      (Stays-give P true) (ping_at-Keep rest)))))))

    ping_with-Keep : Keep P framed (ping_with host port fuel fault)
    unfolding ping_with
    ping_with-Keep =
        search (keeping, ping_at-Keep, send_blind-Keep, wait_for_idle_with-Keep) depth 20

    found-Keep :
        (m : Option Model)
        → Keep P framed (elim m as (λ m. Run (Unit {0})) [ none ↦ fail fatal | some model ↦ done ])
    found-Keep none = Stays-fail P fatal
    found-Keep (some model) = Stays-done P

    reset_printer_with-Keep : Keep P framed (reset_printer_with host port fuel fault)
    unfolding reset_printer_with
    reset_printer_with-Keep =
        search
          (
            keeping, ping_with-Keep, getmodel-Keep, found-Keep, set_baud-Keep, send_blind-Keep,
            wait_for_idle_with-Keep,
          )
          depth 40

    shut_down-Keep : Keep P framed (shut_down host port fuel fault)
    unfolding shut_down
    shut_down-Keep = search (keeping, reset_printer_with-Keep, formfeed_with-Keep) depth 20

  check_fault_at-Keep :
      (depth_ : ℕ) (t : ℤ) → Keep P framed (check_fault_at host port fuel depth_ t)
  unfolding check_fault_at
  check_fault_at-Keep zero t = Stays-fail P _
  check_fault_at-Keep (suc d) t =
      Stays-bind P (sense port fuel t) _ (sense-Keep P framed port fuel _) (λ s.
        Stays-if P (wants_reset s) (shut_down host port fuel (check_fault_at host port fuel d)) _
          (shut_down-Keep _ (check_fault_at-Keep d))
          (Stays-bind P (check_closed host port fuel) _ check_closed-Keep (λ u.
            Stays-bind P (check_loaded host port fuel) _ check_loaded-Keep
              (λ u. Stays-bind P get _ (get-Keep P framed) (λ t. Stays-give P t.ps)))))

  pub check_fault-Keep : (t : ℤ) → Keep P framed (check_fault host port fuel t)
  unfolding check_fault
  check_fault-Keep t = check_fault_at-Keep fuel t

  pub wait_for_idle-Keep : (t : ℕ) → Keep P framed (wait_for_idle host port fuel t)
  unfolding wait_for_idle
  wait_for_idle-Keep t = wait_for_idle_with-Keep _ check_fault-Keep t

  pub send_bytes-Keep :
      (bs : List ℕ) (blind : Bool) → Keep P framed (send_bytes host port fuel bs blind)
  unfolding send_bytes
  send_bytes-Keep bs true = send_blind-Keep bs
  send_bytes-Keep bs false = send_bytes_with-Keep _ check_fault-Keep bs

  pub send_byte-Keep : (b : ℕ) (blind : Bool) → Keep P framed (send_byte host port fuel b blind)
  unfolding send_byte
  send_byte-Keep b blind = send_bytes-Keep (b ∷ []) blind

  pub formfeed-Keep : (blind : Bool) → Keep P framed (formfeed host port fuel blind)
  unfolding formfeed
  formfeed-Keep true = search (keeping, send_blind-Keep) depth 20
  formfeed-Keep false = formfeed_with-Keep _ check_fault-Keep

  pub ping-Keep : Keep P framed (ping host port fuel)
  unfolding ping
  ping-Keep = ping_with-Keep _ check_fault-Keep
