-- ===== src/Signals.antt =====
-- Handlers for signals that take an argument: slap/sig.c.
pub mod Delivery
use slap.Base.{
  ℕ, Bool, true, false, not, ◌&&◌, ◌||◌, ◌==◌, List, [], ◌∷◌, Option, none, some, if◌then◌else◌,
}

-- What a caller asks for: SIG_DFL, SIG_IGN, or a handler of its own, which a number names.
pub data Handler : Type 0 where
  dfl ign : Handler
  own : ℕ → Handler

-- `ACTION`, with the number of the handler and its argument.
pub record Action : Type 0 where
  pub sig : ℕ
  pub handler : ℕ
  pub arg : ℕ

-- `sa_handler`: SIG_DFL, SIG_IGN or `chain_handler`.
pub data Disposition : Type 0 where
  default ignored chained : Disposition

-- The list `actions`; for each signal what the system does on it, and the signals that it blocks
-- while the handler runs; and the signals that are blocked.
pub record State : Type 0 where
  pub actions : List Action
  pub dispositions : ℕ → Disposition
  pub masks : ℕ → List ℕ
  pub blocked : List ℕ

-- Set the handler of the entry for the signal, if there is one.
unfoldable pub update : (sig handler arg : ℕ) → List Action → List Action
update sig handler arg [] = []
update sig handler arg (p ∷ ps) =
    if p.sig == sig
    then record { sig = sig; handler = handler; arg = arg } ∷ ps
    else p ∷ update sig handler arg ps

unfoldable pub is_listed : (sig : ℕ) → List Action → Bool
is_listed sig [] = false
is_listed sig (p ∷ ps) = p.sig == sig || is_listed sig ps

-- The entry is changed, or a new one is put first.
unfoldable pub set_action : (sig handler arg : ℕ) → List Action → List Action
set_action sig handler arg ps =
    if is_listed sig ps
    then update sig handler arg ps
    else record { sig = sig; handler = handler; arg = arg } ∷ ps

-- The handler and the argument that `chain_handler` calls.
unfoldable pub chain_handler : (sig : ℕ) → List Action → Option (ℕ × ℕ)
chain_handler sig [] = none
chain_handler sig (p ∷ ps) = if p.sig == sig then some (p.handler, p.arg) else chain_handler sig ps

abbrev pub is_ignored : Disposition → Bool
is_ignored ignored = true
is_ignored _ = false

unfoldable pub with_disposition : (sig : ℕ) → Disposition → (ℕ → Disposition) → ℕ → Disposition
with_disposition sig d f s = if s == sig then d else f s

unfoldable pub with_mask : (sig : ℕ) → List ℕ → (ℕ → List ℕ) → ℕ → List ℕ
with_mask sig mask f s = if s == sig then mask else f s

-- `x.sa_handler`
abbrev pub disposition_of : Handler → Disposition
disposition_of dfl = default
disposition_of ign = ignored
disposition_of (own h) = chained

-- `x.sa_mask`
abbrev pub mask_of : Option (List ℕ) → List ℕ
mask_of none = []
mask_of (some mask) = mask

-- The list `actions` afterwards.
abbrev pub noted : (sig : ℕ) → Handler → (arg : ℕ) → List Action → List Action
noted sig (own h) arg ps = set_action sig h arg ps
noted sig _ arg ps = ps

-- The second call of `sigaction`, whose outcome `can_set` is.
unfoldable pub set_signal :
    (can_set : Bool) (sig : ℕ) → Disposition → (mask : List ℕ) → State → State
set_signal can_set sig d mask st =
    if can_set
    then record st {
      dispositions = with_disposition sig d st.dispositions;
      masks = with_mask sig mask st.masks;
    }
    else st

-- What is done between the two calls of `sigprocmask`; the signal is blocked there.
unfoldable pub change :
    (can_set : Bool) (sig : ℕ) → Handler → (arg : ℕ) → Option (List ℕ) → State → State
change can_set sig handler arg mask st =
    set_signal can_set sig (disposition_of handler) (mask_of mask)
      (record st { actions = noted sig handler arg st.actions })

-- Whether it returned 0, and the state afterwards. `is_signal` says that the first call of
-- `sigaction` takes the number, and `can_set` that the second one sets the action, which it does
-- not for a signal that cannot be caught; the code does not look at that.
unfoldable pub sigcatch :
    (is_signal can_set : Bool) (sig : ℕ)
    → Handler
    → (arg : ℕ) (mask : Option (List ℕ)) (force : Bool) → State
    → Bool × State
sigcatch is_signal can_set sig handler arg mask force st =
    if not is_signal
    then (false, st)
    else if not force && is_ignored (st.dispositions sig)
    then (false, st)
    else (
      true,
      record (change can_set sig handler arg mask (record st { blocked = sig ∷ st.blocked })) {
        blocked = st.blocked;
      },
    )

-- What happens on a signal: nothing, the default, or a call of a handler with its argument.
pub data Effect : Type 0 where
  nothing by_default : Effect
  called : ℕ → ℕ → Effect

abbrev pub of_call : Option (ℕ × ℕ) → Effect
of_call none = nothing
of_call (some (h, a)) = called h a

unfoldable pub deliver : (sig : ℕ) → State → Effect
deliver sig st = elim (st.dispositions sig) [
  | default ↦ by_default
  | ignored ↦ nothing
  | chained ↦ of_call (chain_handler sig st.actions)
]
