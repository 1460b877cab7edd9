-- ===== src/RbTree/Search.antt =====
-- `m_rbt_lookup` and `m_rbt_lookup_insert` on a tree in memory.
use ming.RbTree.Moves.{down_left, down_right}
use ming.RbTree.InsertRotate.{carried}
use ming.RbTree.Access.{root-IsAddress}
use ming.RbTree.InsertNode.{place_of}
use ming.Cmp.Order.{Positive, Negative}
use ming.RbTree.Shape.{
  up, top, right_child, Zip, IsTrail, leaf, IsTree, left_child, node, Trail, plug, in_tree, Tree,
}
use Prim.Native.Nat.{max}
use ming.RbTree.{
  rbt_lookup_insert, left_of, right_of, get_right, Place, RbTree, get_left, rbt_lookup_insert_loop,
  get_root, load, RbTreeOps,
}
use ming.Base.{
  Option, inl, ℤ, inr, refl, sym, Returns, subst, ◌<◌, ◌⊎◌, arith, Bool, some, negsuc, zero, pos,
  suc, true, ◌≢◌, ◌+◌, ◌≡◌, ℕ,
}

unfoldable pub height : Tree → ℕ
height leaf = 0
height (node l a c r) = max (height l) (height r) + 1

-- The comparisons with the key led down this trail.
unfoldable pub Guided : RbTreeOps → ℕ → Trail → Type 0
Guided ops key top = Unit
Guided ops key (left_child a c r k) = Negative (ops.cmp key (ops.get_key a)) × Guided ops key k
Guided ops key (right_child l a c k) = Positive (ops.cmp key (ops.get_key a)) × Guided ops key k

-- What a search for a key in the tree `whole` may answer: a node with an equal key, or `NULL` and
-- the empty place that the comparisons lead to.
abbrev pub Answer : RbTreeOps → ℕ → RbTree → Tree → ℕ × (ℕ × Place) → Type 0
Answer ops key s whole (found, (parent, place)) =
    (found ≢ 0) × (in_tree found whole ≡ true) × (ops.cmp key (ops.get_key found) ≡ pos 0)
    ⊎ (found ≡ 0)
      × ((k : Trail) × Zip s leaf k
          × (plug k leaf ≡ whole)
          × (parent ≡ up k)
          × (place ≡ place_of k)
          × Guided ops key k)

in_tree-plug : (k : Trail) (t : Tree) (a : ℕ) → in_tree a t ≡ true → in_tree a (plug k t) ≡ true
unfolding in_tree plug
in_tree-plug top t a h = h
in_tree-plug (left_child b c r k) t a h = in_tree-plug k (node t b c r) a (ground arith)
in_tree-plug (right_child l b c k) t a h = in_tree-plug k (node l b c t) a (ground arith)

load-Zip :
    (k : Trail) (s : RbTree) (t : Tree) (z : Zip s t k) → load (place_of k) s ≡ some (z.place, s)
unfolding load get_root get_left get_right IsTrail
load-Zip top s t z = ground (arith, z.trail)
load-Zip (left_child a c r k) s t z = ground (arith, z.trail.0.nonnull, z.trail.1)
load-Zip (right_child l a c k) s t z = ground (arith, z.trail.0.nonnull, z.trail.1)

pub found_here :
    (s : RbTree) (l : Tree) (a : ℕ) (c : Bool) (r : Tree) (k : Trail) (whole : Tree)
    → plug k (node l a c r) ≡ whole
    → in_tree a whole ≡ true
unfolding in_tree
found_here s l a c r k whole e =
    subst (λ t. in_tree a t ≡ true) e (in_tree-plug k (node l a c r) a (ground arith))

pub plug_left :
    (l : Tree) (a : ℕ) (c : Bool) (r : Tree) (k : Trail) (whole : Tree)
    → plug k (node l a c r) ≡ whole
    → plug (left_child a c r k) l ≡ whole
unfolding plug
plug_left l a c r k whole e = e

pub plug_right :
    (l : Tree) (a : ℕ) (c : Bool) (r : Tree) (k : Trail) (whole : Tree)
    → plug k (node l a c r) ≡ whole
    → plug (right_child l a c k) r ≡ whole
unfolding plug
plug_right l a c r k whole e = e

module _ (ops : RbTreeOps) (key : ℕ) where
  lookup_leaf :
      (s : RbTree) (k : Trail) (fuel parent : ℕ)
      → Zip s leaf k
      → rbt_lookup_insert_loop ops (suc fuel) key parent (place_of k) s
        ≡ some ((0, (parent, place_of k)), s)
  unfolding rbt_lookup_insert_loop IsTree
  lookup_leaf s k fuel parent z = ground (arith, load-Zip k s leaf z, z.tree)

  -- One round of the loop at a node.
  lookup_node :
      (s : RbTree) (l : Tree) (a : ℕ) (c : Bool) (r : Tree) (k : Trail) (fuel parent : ℕ)
      → Zip s (node l a c r) k
      → rbt_lookup_insert_loop ops (suc fuel) key parent (place_of k) s
        ≡ (elim (ops.cmp key (ops.get_key a)) [
          | pos zero ↦ some ((a, (parent, place_of k)), s)
          | pos (suc v) ↦ rbt_lookup_insert_loop ops fuel key a (right_of a) s
          | negsuc v ↦ rbt_lookup_insert_loop ops fuel key a (left_of a) s
        ])
  unfolding rbt_lookup_insert_loop IsTree
  lookup_node s l a c r k fuel parent z =
      ground (arith, load-Zip k s (node l a c r) z, z.tree.0, z.tree.1.nonnull)

  pub Guided-right :
      (l : Tree) (a : ℕ) (c : Bool) (k : Trail) (v : ℕ)
      → ops.cmp key (ops.get_key a) ≡ pos (suc v)
      → Guided ops key k
      → Guided ops key (right_child l a c k)
  unfolding Guided
  Guided-right l a c k v q g = (subst Positive (sym q) (omega arith), g)

  pub Guided-left :
      (a : ℕ) (c : Bool) (r : Tree) (k : Trail) (v : ℕ)
      → ops.cmp key (ops.get_key a) ≡ negsuc v
      → Guided ops key k
      → Guided ops key (left_child a c r k)
  unfolding Guided
  Guided-left a c r k v q g = (subst Negative (sym q) tt, g)

  -- The three answers of a comparison.
  pub lookup_turn :
      {X : Type 0} {P : X → RbTree → Type 0} {here left right : Option (X × RbTree)} (v : ℤ)
      → (v ≡ pos 0 → Returns here P)
      → ((n : ℕ) → v ≡ pos (suc n) → Returns right P)
      → ((n : ℕ) → v ≡ negsuc n → Returns left P)
      → Returns (elim v [ pos zero ↦ here | pos (suc n) ↦ right | negsuc n ↦ left ]) P
  lookup_turn (pos zero) h r l = h refl
  lookup_turn (pos (suc n)) h r l = r n refl
  lookup_turn (negsuc n) h r l = l n refl

  lookup_loop :
      (t : Tree) (k : Trail) (s : RbTree) (fuel : ℕ) (whole : Tree)
      → Zip s t k
      → plug k t ≡ whole
      → Guided ops key k
      → height t < fuel
      → Returns
          (rbt_lookup_insert_loop ops fuel key (up k) (place_of k) s)
          (λ r u. (u ≡ s) × Answer ops key s whole r)
  unfolding height
  lookup_loop t k s zero whole z e g f = absurd (omega arith)
  lookup_loop leaf k s (suc fuel) whole z e g f = (
    (0, (up k, place_of k)),
    s,
    lookup_leaf s k fuel (up k) z,
    (refl, inr (refl, (k, z, e, refl, refl, g))),
  )
  lookup_loop (node l a c r) k s (suc fuel) whole z e g f =
      carried (lookup_node s l a c r k fuel (up k) z) (
        lookup_turn (ops.cmp key (ops.get_key a))
          (λ q. (
            (a, (up k, place_of k)),
            s,
            refl,
            (refl, inl ((root-IsAddress s l a c r k z).nonnull, found_here s l a c r k whole e, q)),
          ))
          (λ v q.
            lookup_loop r (right_child l a c k) s fuel whole (down_right s l a c r k z)
              (plug_right l a c r k whole e) (Guided-right l a c k v q g) (omega (arith, f)))
          (λ v q.
            lookup_loop l (left_child a c r k) s fuel whole (down_left s l a c r k z)
              (plug_left l a c r k whole e) (Guided-left a c r k v q g) (omega (arith, f))))

  -- `m_rbt_lookup_insert` on a tree in memory ends without a fault and changes nothing, if the fuel
  -- is more than the height. It returns a node of the tree whose key compares equal, or `NULL`; then
  -- the parent and the place that it stores are those of an empty subtree, and every comparison of
  -- the key on the way down to it says left or right as the way goes.
  pub rbt_lookup_insert-Answer :
      (s : RbTree) (t : Tree) (fuel : ℕ)
      → Zip s t top
      → height t < fuel
      → Returns (rbt_lookup_insert ops fuel key s) (λ r u. (u ≡ s) × Answer ops key s t r)
  unfolding rbt_lookup_insert plug Guided
  rbt_lookup_insert-Answer s t fuel z f = lookup_loop t top s fuel t z refl tt f
