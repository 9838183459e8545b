-- ===== src/Core/Exec.antt =====
-- Services that change a state and may raise. What was written before a raise stays written, so
-- the state comes back beside the error; `transaction.atomic()` rolls the state back.
use gechu_backend.Base.{◌≡◌, refl, Bool, true, false, Option, none, some}
use gechu_backend.Core.Errors.{Error, Result, ok, err}

abbrev pub Exec : Type 0 → Type 0 → Type 0
Exec S A = S → Result A × S

module _ {S A : Type 0} where
  abbrev pub pure : A → Exec S A
  pure a s = (ok a, s)

  abbrev pub raise : Error → Exec S A
  raise e s = (err e, s)

  abbrev pub lift : Result A → Exec S A
  lift r s = (r, s)

  abbrev pub gets : (S → A) → Exec S A
  gets f s = (ok (f s), s)

  -- What an optional row gives, or the error of its absence.
  abbrev pub or_raise : Option A → Error → Exec S A
  or_raise none e = raise e
  or_raise (some a) e = pure a

  -- `with transaction.atomic():` an exception undoes what the block wrote, and goes on up.
  abbrev pub roll_back : S → Result A × S → Result A × S
  roll_back s (ok a, s') = (ok a, s')
  roll_back s (err e, s') = (err e, s)

  abbrev pub atomic : Exec S A → Exec S A
  atomic m s = roll_back s (m s)

module _ {S : Type 0} where
  abbrev pub modify : (S → S) → Exec S (Unit {0})
  modify f s = (ok tt, f s)

  abbrev pub raise_if : Bool → Error → Exec S (Unit {0})
  raise_if true e s = (err e, s)
  raise_if false e s = (ok tt, s)

module _ {S A B : Type 0} where
  abbrev pub continue : Result A × S → (A → Exec S B) → Result B × S
  continue (ok a, s) f = f a s
  continue (err e, s) f = (err e, s)

  infixl 10 ◌>>=◌ ◌>>◌
  abbrev pub ◌>>=◌ : Exec S A → (A → Exec S B) → Exec S B
  ◌>>=◌ m f s = continue (m s) f

  abbrev pub ◌>>◌ : Exec S A → Exec S B → Exec S B
  m >> k = m >>= λ _. k

-- A block that raises leaves the state as it found it.
pub atomic_rolls_back :
    {S A : Type 0} (m : Exec S A) (s : S) (e : Error) → (atomic m s).0 ≡ err e → (atomic m s).1 ≡ s
atomic_rolls_back {S} {A} m s e h = go (m s) h
  where
    go : (r : Result A × S) → (roll_back s r).0 ≡ err e → (roll_back s r).1 ≡ s
    go (ok a, s') h' = cc
    go (err e', s') h' = refl
