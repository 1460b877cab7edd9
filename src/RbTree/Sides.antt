-- ===== src/RbTree/Sides.antt =====
-- The moves of RbTree.Moves for either side, and the sibling of a subtree.
use ming.RbTree.Frames.{not_left}
use ming.RbTree.Access.{rbt_color-root, root-IsAddress, rbt_parent-Zip, painted-Zip, painted}
use ming.RbTree.Moves.{down_right, up_left, up_right, down_left}
use ming.RbTree.Shape.{leaf, bit, node, up, Zip, Trail, Apart, Tree, in_tree, IsTree}
use ming.RbTree.Fix.{onto, join, on_left, on_right, Side}
use ming.RbTree.{rbt_parent, rbt_color, RbTree}
use ming.Base.{arith, refl, ◌≢◌, sym, ◌∙◌, ◌≡◌, some, true, false, Bool, ℕ}

abbrev pub other : Side → Side
other on_left = on_right
other on_right = on_left

pub up_side :
    (i : Side) (s : RbTree) (t : Tree) (a : ℕ) (c : Bool) (w : Tree) (k : Trail)
    → Zip s t (onto i a c w k)
    → Zip s (join i t a c w) k
up_side on_left s t a c w k z = up_left s t a c w k z
up_side on_right s t a c w k z = up_right s w a c t k z

pub down_side :
    (i : Side) (s : RbTree) (t : Tree) (a : ℕ) (c : Bool) (w : Tree) (k : Trail)
    → Zip s (join i t a c w) k
    → Zip s t (onto i a c w k)
down_side on_left s t a c w k z = down_left s t a c w k z
down_side on_right s t a c w k z = down_right s w a c t k z

pub down_other :
    (i : Side) (s : RbTree) (t : Tree) (a : ℕ) (c : Bool) (w : Tree) (k : Trail)
    → Zip s (join i t a c w) k
    → Zip s w (onto (other i) a c t k)
down_other on_left s t a c w k z = down_right s t a c w k z
down_other on_right s t a c w k z = down_left s w a c t k z

pub up_other :
    (i : Side) (s : RbTree) (t : Tree) (a : ℕ) (c : Bool) (w : Tree) (k : Trail)
    → Zip s w (onto (other i) a c t k)
    → Zip s (join i t a c w) k
up_other on_left s t a c w k z = up_right s t a c w k z
up_other on_right s t a c w k z = up_left s w a c t k z

pub painted-join :
    (i : Side) (s : RbTree) (t : Tree) (a : ℕ) (c c' : Bool) (w : Tree) (k : Trail)
    → Zip s (join i t a c w) k
    → Zip (painted s a c') (join i t a c' w) k
painted-join on_left s t a c c' w k z = painted-Zip s t a c c' w k z
painted-join on_right s t a c c' w k z = painted-Zip s w a c c' t k z

pub join-parent :
    (i : Side) (s : RbTree) (t : Tree) (a : ℕ) (c : Bool) (w : Tree) (k : Trail)
    → Zip s (join i t a c w) k
    → rbt_parent a s ≡ some (up k, s)
join-parent on_left s t a c w k z = rbt_parent-Zip s t a c w k z
join-parent on_right s t a c w k z = rbt_parent-Zip s w a c t k z

pub join-color :
    (i : Side) (s : RbTree) (t : Tree) (a : ℕ) (c : Bool) (w : Tree) (k : Trail)
    → Zip s (join i t a c w) k
    → rbt_color a s ≡ some (bit c, s)
join-color on_left s t a c w k z = rbt_color-root s t a c w k z
join-color on_right s t a c w k z = rbt_color-root s w a c t k z

pub join_nonnull :
    (i : Side) (s : RbTree) (t : Tree) (a : ℕ) (c : Bool) (w : Tree) (k : Trail)
    → Zip s (join i t a c w) k
    → a ≢ 0
join_nonnull on_left s t a c w k z = (root-IsAddress s t a c w k z).nonnull
join_nonnull on_right s t a c w k z = (root-IsAddress s w a c t k z).nonnull

pub up-onto : (i : Side) (a : ℕ) (c : Bool) (w : Tree) (k : Trail) → up (onto i a c w k) ≡ a
up-onto on_left a c w k = refl
up-onto on_right a c w k = refl

-- The two children of `a`, the one with the subtree first.
abbrev pub child_link : Side → RbTree → ℕ → ℕ
child_link on_left s a = s.left a
child_link on_right s a = s.right a

-- The child link of a node on either side leads to the tree there, and the two differ.
pub join_links :
    (i : Side) (s : RbTree) (l : Tree) (n : ℕ) (d : Bool) (r : Tree) (a : ℕ) (c : Bool) (w : Tree)
    (k : Trail)
    → Zip s (join i (node l n d r) a c w) k
    → (child_link i s a ≡ n)
      × IsTree s (child_link (other i) s a) a w
      × (child_link (other i) s a ≢ n)
unfolding IsTree in_tree Apart
join_links on_left s l n d r a c w k z = (
  z.tree.3.0,
  z.tree.4,
  not_left s n (s.right a) a w z.tree.3.1.nonnull (ground (arith, z.apart.2 n)) z.tree.4,
)
join_links on_right s l n d r a c w k z = (
  z.tree.4.0,
  z.tree.3,
  not_left s n (s.left a) a w z.tree.4.1.nonnull
      (Bool-not (in_tree n w) (λ h. ground (arith, z.apart.2 n h))) z.tree.3,
)
  where
    Bool-not : (b : Bool) → ¬ (b ≡ true) → b ≡ false
    Bool-not true h = absurd (h refl)
    Bool-not false h = refl

pub same_place :
    (s s' : RbTree) (p q p' q' : ℕ) (t : Tree) → IsTree s p q t → IsTree s' p' q' t → p ≡ p'
unfolding IsTree
same_place s s' p q p' q' leaf i j = i ∙ sym j
same_place s s' p q p' q' (node l a c r) i j = i.0 ∙ sym j.0
