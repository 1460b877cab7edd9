-- ===== src/Base/State.antt =====
-- Code that reads and writes a store: `none` is a failed assertion, a dereference of `NULL` or a
-- loop that has used up its fuel.
use mathlib.Core.Path.{◌≡◌}
use mathlib.Core.Bool.{Bool, true, false}
use mathlib.Core.Option.{Option, none, some}

abbrev pub Run : Type 0 → Type 0 → Type 0
Run S A = S → Option (A × S)

module _ {S : Type 0} where
  abbrev pub pure : {A : Type 0} → A → Run S A
  pure a s = some (a, s)

  abbrev pub fault : {A : Type 0} → Run S A
  fault s = none

  abbrev pub bind_result : {A B : Type 0} → Option (A × S) → (A → Run S B) → Option (B × S)
  bind_result none k = none
  bind_result (some (a, s)) k = k a s

  infixl 5 ◌>>=◌ ◌>>◌
  abbrev pub ◌>>=◌ : {A B : Type 0} → Run S A → (A → Run S B) → Run S B
  ◌>>=◌ m k s = bind_result (m s) k

  abbrev pub ◌>>◌ : {A B : Type 0} → Run S A → Run S B → Run S B
  m >> k = m >>= λ _. k

  abbrev pub assert : Bool → Run S (Unit {0})
  assert true s = some (tt, s)
  assert false s = none

  -- The store after the run, whatever it returns.
  abbrev pub modify : (S → S) → Run S (Unit {0})
  modify f s = some (tt, f s)

-- The run `r` ends, with no fault and within its fuel, in a result and a store that `P` holds of.
abbrev pub Returns : {S A : Type 0} → Option (A × S) → (A → S → Type 0) → Type 0
Returns {S} {A} r P = (a : A) × (s : S) × (r ≡ some (a, s)) × P a s
