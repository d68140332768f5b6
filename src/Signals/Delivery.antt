-- ===== src/Signals/Delivery.antt =====
-- A signal that is caught calls its handler, and the others do what they did.
use slap.Base.{
  ℕ, ◌≡◌, refl, ap, Bool, true, false, not, ◌&&◌, ◌==◌, ==_iff, Bool-cases, inl, inr, List, [], ◌∷◌,
  some, Option, if◌then◌else◌, arith,
}
use slap.Signals.{
  Handler, dfl, ign, own, Action, default, ignored, chained, State, update, is_listed, set_action,
  chain_handler, with_disposition, with_mask, mask_of, set_signal, change, sigcatch, Effect,
  nothing, by_default, called, deliver, is_ignored, of_call,
}

update_self :
    (sig h a : ℕ) (ps : List Action)
    → is_listed sig ps ≡ true
    → chain_handler sig (update sig h a ps) ≡ some (h, a)
unfolding update is_listed chain_handler
update_self sig h a [] l = absurd (ground arith)
update_self sig h a (p ∷ ps) l = elim (Bool-cases (p.sig == sig)) [
  | inl hit ↦ let self : (sig == sig) ≡ true = (==_iff sig sig).1 refl in rw (hit, self) refl
  | inr miss ↦ rw (miss, chain_handler, miss) (update_self sig h a ps (rw miss at l))
]

update-other :
    (sig s h a : ℕ) (ps : List Action)
    → (sig == s) ≡ false
    → chain_handler s (update sig h a ps) ≡ chain_handler s ps
unfolding update chain_handler
update-other sig s h a [] ne = refl
update-other sig s h a (p ∷ ps) ne = elim (Bool-cases (p.sig == sig)) [
  | inl hit ↦ let e : (p.sig == s) ≡ false = ground arith in rw (hit, ne, e) refl
  | inr miss ↦
      rw (miss, chain_handler)
        (if-eq (p.sig == s) (some (p.handler, p.arg)) (update-other sig s h a ps ne))
]
  where
    if-eq :
        {A : Type 0} (b : Bool) (x : A) {y z : A}
        → y ≡ z
        → (if b then x else y) ≡ (if b then x else z)
    if-eq b x e = ap (λ y. if b then x else y) e

set_action_self :
    (sig h a : ℕ) (ps : List Action) → chain_handler sig (set_action sig h a ps) ≡ some (h, a)
unfolding set_action chain_handler
set_action_self sig h a ps = elim (Bool-cases (is_listed sig ps)) [
  | inl l ↦ rw l (update_self sig h a ps l)
  | inr l ↦
      let self : (sig == sig) ≡ true = (==_iff sig sig).1 refl in rw (l, chain_handler, self) refl
]

set_action-other :
    (sig s h a : ℕ) (ps : List Action)
    → (sig == s) ≡ false
    → chain_handler s (set_action sig h a ps) ≡ chain_handler s ps
unfolding set_action chain_handler
set_action-other sig s h a ps ne = elim (Bool-cases (is_listed sig ps)) [
  | inl l ↦ rw l (update-other sig s h a ps ne)
  | inr l ↦ rw (l, chain_handler, ne) refl
]

-- What a handler asks for on its signal.
abbrev pub effect_of : Handler → (arg : ℕ) → Effect
effect_of dfl arg = by_default
effect_of ign arg = nothing
effect_of (own h) arg = called h arg

module _ (sig : ℕ) (arg : ℕ) (mask : Option (List ℕ)) (st : State) where
  change-on_it :
      (handler : Handler)
      → (sig == sig) ≡ true
      → deliver sig (change true sig handler arg mask st) ≡ effect_of handler arg
  unfolding change set_signal deliver with_disposition
  change-on_it dfl same = rw (deliver, same) refl
  change-on_it ign same = rw (deliver, same) refl
  change-on_it (own h) same = rw (deliver, same, set_action_self sig h arg st.actions) refl

  change-off_it :
      (handler : Handler) (s : ℕ)
      → (s == sig) ≡ false
      → deliver s (change true sig handler arg mask st) ≡ deliver s st
  unfolding change set_signal deliver with_disposition
  change-off_it dfl s other = rw (deliver, other) refl
  change-off_it ign s other = rw (deliver, other) refl
  change-off_it (own h) s other =
      let other' : (sig == s) ≡ false = ground arith in
      rw (deliver, other)
        (ap
          (λ o. elim (st.dispositions s) [
            | default ↦ by_default
            | ignored ↦ nothing
            | chained ↦ of_call o
          ])
          (set_action-other sig s h arg st.actions other'))

  change-deliver :
      (handler : Handler) (s : ℕ)
      → deliver s (change true sig handler arg mask st)
        ≡ (if s == sig then effect_of handler arg else deliver s st)
  change-deliver handler s = elim (Bool-cases (s == sig)) [
    | inl same ↦
        let e = (==_iff s sig).0 same in
        rw (same, e) (change-on_it handler ((==_iff sig sig).1 refl))
    | inr other ↦ rw other (change-off_it handler s other)
  ]

  change-masks :
      (handler : Handler) (s : ℕ)
      → (change true sig handler arg mask st).masks s
        ≡ (if s == sig then mask_of mask else st.masks s)
  unfolding change set_signal with_mask
  change-masks handler s = refl

-- For a signal whose action can be set: when `sigcatch` returns 0, the signal does from then on
-- what was asked for and blocks the signals of the mask while it is handled, and every other signal
-- does and blocks what it did before; when it fails, that holds of every signal. The signals that
-- are blocked are the same afterwards.
pub sigcatch-deliver :
    (is_signal : Bool) (sig : ℕ) (handler : Handler) (arg : ℕ) (mask : Option (List ℕ))
    (force : Bool) (st : State) (s : ℕ)
    → let r = sigcatch is_signal true sig handler arg mask force st in
      ((r.1).blocked ≡ st.blocked)
      × ((r.1).masks s ≡ (if r.0 && (s == sig) then mask_of mask else st.masks s))
      × (deliver s r.1 ≡ (if r.0 && (s == sig) then effect_of handler arg else deliver s st))
unfolding sigcatch deliver
sigcatch-deliver false sig handler arg mask force st s = (refl, refl, refl)
sigcatch-deliver true sig handler arg mask force st s =
    elim (Bool-cases (not force && is_ignored (st.dispositions sig))) [
      | inl refused ↦ rw refused (refl, refl, refl)
      | inr taken ↦
          rw taken
            (refl, change-masks sig arg mask _ handler s, change-deliver sig arg mask _ handler s)
    ]
