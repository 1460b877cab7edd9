-- ===== src/List/Traverse.antt =====
-- The traversal macros visit the nodes of a ring in order, and survive the removal of the current
-- node where the source says so.
use ming.List.Remove.{list_remove-IsRing}
use mathlib.Core.List.{reverse, reverse_aux}
use ming.Base.{
  ◌||◌, ◌+◌, ap, Returns, ℕ, zero, suc, ◌<◌, ◌≡◌, ◌⊎◌, inl, inr, ◌≢◌, refl, true, false, some, List,
  [], ◌∷◌, arith, elem, length, Run,
}
use ming.List.{
  Links, list_foreach_loop, list_foreach, list_foreach_r_loop, list_foreach_r,
  list_foreach_safe_loop, list_foreach_safe, list_remove, list_empty,
}
use ming.List.Ring.{Ring_head, Chain, IsRing, first, next-first}

-- `m_list_empty` is true exactly for a ring with no node.
pub list_empty-Ring :
    (s : Links) (head : ℕ) (xs : List ℕ)
    → IsRing s head xs
    → (list_empty head s ≡ some (true, s)) × (xs ≡ [])
      ⊎ (list_empty head s ≡ some (false, s)) × (xs ≢ [])
unfolding list_empty
list_empty-Ring s head [] r = inl (ground (arith, r.chain, r.nonnull), refl)
list_empty-Ring s head (x ∷ xs) r = inr (ground (arith, r.chain, r.nonnull, r.distinct), λ e. cc)

-- A body that leaves the links alone on the nodes of `xs`.
abbrev pub Quiet : (ℕ → Run Links (Unit {0})) → List ℕ → Links → Type 0
Quiet body xs s = (a : ℕ) → elem a xs ≡ true → body a s ≡ some (tt, s)

foreach_loop-Chain :
    (body : ℕ → Run Links (Unit {0})) (s : Links) (p head : ℕ) (xs : List ℕ) (fuel : ℕ)
    → Chain s p xs head
    → elem head xs ≡ false
    → elem 0 xs ≡ false
    → Quiet body xs s
    → length xs < fuel
    → list_foreach_loop body fuel head (first xs head) s ≡ some (xs, s)
unfolding list_foreach_loop
foreach_loop-Chain body s p head xs zero c out nz q lt = absurd (omega arith)
foreach_loop-Chain body s p head [] (suc fuel) c out nz q lt = ground arith
foreach_loop-Chain body s p head (x ∷ xs) (suc fuel) c out nz q lt =
    let ih =
      foreach_loop-Chain body s x head xs fuel c.1 (ground arith) (ground arith)
        (λ a h. q a (ground arith)) (omega arith) in
    ground (arith, q x, next-first s x head xs c.1, ih)

-- `m_list_foreach` with a body that leaves the ring alone visits the nodes in order, and ends.
pub list_foreach-visits :
    (body : ℕ → Run Links (Unit {0})) (s : Links) (head : ℕ) (xs : List ℕ) (fuel : ℕ)
    → IsRing s head xs
    → Quiet body xs s
    → length xs < fuel
    → list_foreach body fuel head s ≡ some (xs, s)
unfolding list_foreach
list_foreach-visits body s head xs fuel r q lt = ground (
  arith,
  Ring_head r,
  next-first s head head xs r.chain,
  foreach_loop-Chain body s head head xs fuel r.chain r.distinct.0 (ground (arith, r.nonnull)) q lt,
)

-- From `q` the `prev` links lead through the nodes `xs` to `p`.
abbrev Back : Links → ℕ → List ℕ → ℕ → Type 0
Back s q [] p = s.prev q ≡ p
Back s q (x ∷ xs) p = (s.prev q ≡ x) × Back s x xs p

Back-reverse_aux :
    (s : Links) (p q z : ℕ) (xs ys : List ℕ)
    → Chain s p xs q
    → Back s p ys z
    → Back s q (reverse_aux xs (p ∷ ys)) z
Back-reverse_aux s p q z [] ys c b = (c.1, b)
Back-reverse_aux s p q z (x ∷ xs) ys c b = Back-reverse_aux s x q z xs (p ∷ ys) c.1 (c.0.1, b)

Back-reverse : (s : Links) (p q : ℕ) (xs : List ℕ) → Chain s p xs q → Back s q (reverse xs) p
Back-reverse s p q [] c = c.1
Back-reverse s p q (x ∷ xs) c = Back-reverse_aux s x q p xs [] c.1 c.0.1

elem-reverse_aux : (a : ℕ) (xs ys : List ℕ) → elem a (reverse_aux xs ys) ≡ (elem a xs || elem a ys)
elem-reverse_aux a [] ys = refl
elem-reverse_aux a (x ∷ xs) ys = ground (arith, elem-reverse_aux a xs (x ∷ ys))

length-reverse_aux : (xs ys : List ℕ) → length (reverse_aux xs ys) ≡ length xs + length ys
length-reverse_aux [] ys = omega arith
length-reverse_aux (x ∷ xs) ys = omega (arith, length-reverse_aux xs (x ∷ ys))

foreach_r_loop-Back :
    (body : ℕ → Run Links (Unit {0})) (s : Links) (q head : ℕ) (xs : List ℕ) (fuel : ℕ)
    → Back s q xs head
    → elem head xs ≡ false
    → elem 0 xs ≡ false
    → Quiet body xs s
    → length xs < fuel
    → list_foreach_r_loop body fuel head (s.prev q) s ≡ some (xs, s)
unfolding list_foreach_r_loop
foreach_r_loop-Back body s p head xs zero c out nz q lt = absurd (omega arith)
foreach_r_loop-Back body s p head [] (suc fuel) c out nz q lt = ground arith
foreach_r_loop-Back body s p head (x ∷ xs) (suc fuel) c out nz q lt =
    let ih =
      foreach_r_loop-Back body s x head xs fuel c.1 (ground arith) (ground arith)
        (λ a h. q a (ground arith)) (omega arith) in
    ground (arith, q x, ih)

-- `m_list_foreach_r` with a body that leaves the ring alone visits the nodes in reverse order, and
-- ends.
pub list_foreach_r-visits :
    (body : ℕ → Run Links (Unit {0})) (s : Links) (head : ℕ) (xs : List ℕ) (fuel : ℕ)
    → IsRing s head xs
    → Quiet body xs s
    → length xs < fuel
    → list_foreach_r body fuel head s ≡ some (reverse xs, s)
unfolding list_foreach_r
list_foreach_r-visits body s head xs fuel r q lt =
    let loop =
      foreach_r_loop-Back body s head head (reverse xs) fuel (Back-reverse s head head xs r.chain)
        (ground (arith, elem-reverse_aux head xs [], r.distinct))
        (ground (arith, elem-reverse_aux 0 xs [], r.nonnull))
        (λ a h. q a (ground (arith, elem-reverse_aux a xs [])))
        (omega (arith, length-reverse_aux xs [])) in
    ground (arith, Ring_head r, loop)

foreach_safe_loop-remove :
    (s : Links) (head : ℕ) (xs : List ℕ) (fuel : ℕ)
    → IsRing s head xs
    → length xs < fuel
    → Returns
        (list_foreach_safe_loop list_remove fuel head (first xs head) s)
        (λ visited t. (visited ≡ xs) × IsRing t head [])
unfolding list_foreach_safe_loop
foreach_safe_loop-remove s head xs zero r lt = absurd (omega arith)
foreach_safe_loop-remove s head [] (suc fuel) r lt = ([], s, ground (arith, Ring_head r), (refl, r))
foreach_safe_loop-remove s head (x ∷ xs) (suc fuel) r lt =
    let (_, t, run, (ring, _)) = list_remove-IsRing s head x [] xs r in
    let (visited, u, loop, (same, empty)) =
      foreach_safe_loop-remove t head xs fuel ring (omega arith) in
    let next = next-first s x head xs r.chain.1 in
    (
      x ∷ visited,
      u,
      ground (arith, r.nonnull, r.distinct, next, run, loop),
      (ap (λ (l : List ℕ). x ∷ l) same, empty),
    )

-- `m_list_foreach_safe` whose body removes the current node visits every node of the ring once, in
-- order, ends without a fault, and leaves an empty ring.
pub list_foreach_safe-remove :
    (s : Links) (head : ℕ) (xs : List ℕ) (fuel : ℕ)
    → IsRing s head xs
    → length xs < fuel
    → Returns
        (list_foreach_safe list_remove fuel head s)
        (λ visited t. (visited ≡ xs) × IsRing t head [])
unfolding list_foreach_safe
list_foreach_safe-remove s head xs fuel r lt =
    let (visited, t, loop, p) = foreach_safe_loop-remove s head xs fuel r lt in
    let next = next-first s head head xs r.chain in
    (visited, t, ground (arith, Ring_head r, next, loop), p)
