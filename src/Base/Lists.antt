-- ===== src/Base/Lists.antt =====
-- Lists of addresses: length, membership, no repetition; functions changed at one argument.
use Prim.Native.Nat.{ℕ, suc, ◌+◌}
use mathlib.Core.Path.{◌≡◌, refl}
use mathlib.Core.Bool.{Bool, false, ◌||◌}
use mathlib.Core.List.{List, [], ◌∷◌, ◌++◌}
use native.Mathlib.Omega.{arith}
use ming.Base.Tests.{◌==◌, if◌then◌else◌}

module _ {ℓ} {A : Type ℓ} where
  abbrev pub length : List A → ℕ
  length [] = 0
  length (x ∷ xs) = suc (length xs)

  pub length-append : (xs ys : List A) → length (xs ++ ys) ≡ length xs + length ys
  length-append [] ys = omega arith
  length-append (x ∷ xs) ys = omega (arith, length-append xs ys)

  -- The value of a memory cell after `cell = v`.
  abbrev pub update : (ℕ → A) → ℕ → A → ℕ → A
  update f p v q = if q == p then v else f q

  pub update_at : (f : ℕ → A) (p : ℕ) (v : A) → update f p v p ≡ v
  update_at f p v = ground arith

abbrev pub elem : ℕ → List ℕ → Bool
elem a [] = false
elem a (x ∷ xs) = (a == x) || elem a xs

pub elem-append : (a : ℕ) (xs ys : List ℕ) → elem a (xs ++ ys) ≡ (elem a xs || elem a ys)
elem-append a [] ys = refl
elem-append a (x ∷ xs) ys = ground (arith, elem-append a xs ys)

abbrev pub Distinct : List ℕ → Type 0
Distinct [] = Unit
Distinct (x ∷ xs) = (elem x xs ≡ false) × Distinct xs

pub Distinct-insert :
    (a : ℕ) (xs ys : List ℕ)
    → Distinct (xs ++ ys)
    → elem a (xs ++ ys) ≡ false
    → Distinct (xs ++ a ∷ ys)
Distinct-insert a [] ys d h = (h, d)
Distinct-insert a (x ∷ xs) ys d h = (
  ground (arith, elem-append x xs ys, elem-append x xs (a ∷ ys)),
  Distinct-insert a xs ys d.1 (ground arith),
)

pub Distinct-remove :
    (a : ℕ) (xs ys : List ℕ)
    → Distinct (xs ++ a ∷ ys)
    → Distinct (xs ++ ys) × (elem a (xs ++ ys) ≡ false)
Distinct-remove a [] ys d = (d.1, d.0)
Distinct-remove a (x ∷ xs) ys d =
    let (e, f) = Distinct-remove a xs ys d.1 in
    (
      (ground (arith, elem-append x xs ys, elem-append x xs (a ∷ ys)), e),
      ground (arith, elem-append x xs (a ∷ ys)),
    )
