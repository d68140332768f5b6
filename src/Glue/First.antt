-- ===== src/Glue/First.antt =====
-- Which driver is loaded.
use slap.Base.{
  ℕ, ◌≡◌, refl, ap, Bool, ◌&&◌, ◌||◌, Bool-cases, inl, inr, List, [], ◌∷◌, Option, none, some,
  if◌then◌else◌,
}
use slap.Base.Text.{ascii, same_text}
use slap.Base.Result.{Result, ok, err, wild_pointer, ◌>>=◌}
use slap.Glue.{Drv, Entry, drivers, takes, load_driver}

-- An entry answers to a name: its own, or "auto" if it is for probing.
unfoldable pub answers_to : List ℕ → Entry → Bool
answers_to name e = same_text name (ascii "auto") && e.probe || same_text name e.name

unfoldable pub named : List ℕ → List Entry → List Entry
named name [] = []
named name (e ∷ es) = if answers_to name e then e ∷ named name es else named name es

module _ {Opd : Type 0} (open_entry : Entry → Result (Option Opd)) where
  -- The first device that opens.
  unfoldable pub first_open : List Entry → Result (Option (Drv × Opd))
  first_open [] = ok none
  first_open (e ∷ es) = do
    opd ← open_entry e
    elim opd [ none ↦ first_open es | some o ↦ ok (some (e.drv, o)) ]

  -- With a name, `load_driver` tries just the entries that answer to it, in the order of the table,
  -- up to the first that opens its device.
  pub load_driver-named :
      (name : List ℕ) (es : List Entry)
      → load_driver open_entry (some name) es ≡ first_open (named name es)
  unfolding load_driver takes first_open named answers_to
  load_driver-named name [] = refl
  load_driver-named name (e ∷ es) =
      elim (Bool-cases (same_text name (ascii "auto") && e.probe || same_text name e.name)) [
        | inl e0 ↦ rw e0 (
            ap
              (λ rest.
                open_entry e >>= (λ opd. elim opd [ none ↦ rest | some o ↦ ok (some (e.drv, o)) ]))
              (load_driver-named name es))
        | inr e0 ↦ rw (e0, load_driver-named name es) refl
      ]

  -- Without a name, when no device opens, the test on the second entry reads through a null
  -- pointer.
  pub load_driver-null :
      ((e : Entry) → open_entry e ≡ ok none)
      → load_driver open_entry none drivers ≡ err wild_pointer
  unfolding load_driver takes drivers
  load_driver-null silent = rw (silent _) refl
