-- ===== src/RbTree/Access.antt =====
-- What the accessors of a node give at a subtree, and the change of a colour.
use ming.RbTree.Moves.{up_right, up_left}
use ming.RbTree.Frames.{color_of, up_even}
use ming.RbTree.Shape.{
  IsTrail-frame, right_child, IsTree-frame, up, leaf, IsAddress, left_child, SameAt, top, node, bit,
  Apart, Zip, in_tree, Trail, plug, Tree, IsTree,
}
use ming.RbTree.{set_pcolor, get_pcolor, rbt_parent, rbt_color, rbt_set_color, RbTree}
use ming.Base.{subst, refl, some, false, ◌*◌, arith, ◌+◌, ◌≡◌, ◌/◌, update, ◌%◌, ◌≢◌, true, Bool, ℕ}

-- The colour of a subtree: a leaf is black.
abbrev pub tree_black : Tree → Bool
tree_black leaf = true
tree_black (node l a c r) = c

pub root-IsAddress :
    (s : RbTree) (l : Tree) (a : ℕ) (c : Bool) (r : Tree) (k : Trail)
    → Zip s (node l a c r) k
    → IsAddress a
unfolding IsTree
root-IsAddress s l a c r k z = z.tree.1

pub rbt_parent-Zip :
    (s : RbTree) (l : Tree) (a : ℕ) (c : Bool) (r : Tree) (k : Trail)
    → Zip s (node l a c r) k
    → rbt_parent a s ≡ some (up k, s)
unfolding rbt_parent get_pcolor IsTree
rbt_parent-Zip s l a true r k z =
    let ev = up_even s z.place k z.trail in ground (arith, z.tree.1.nonnull, z.tree.2, ev)
rbt_parent-Zip s l a false r k z =
    let ev = up_even s z.place k z.trail in ground (arith, z.tree.1.nonnull, z.tree.2, ev)

pub rbt_color-Zip :
    (s : RbTree) (t : Tree) (k : Trail) (z : Zip s t k)
    → rbt_color z.place s ≡ some (bit (tree_black t), s)
unfolding rbt_color get_pcolor IsTree
rbt_color-Zip s leaf k z = ground (arith, z.tree)
rbt_color-Zip s (node l a c r) k z =
    let ev = color_of (s.pcolor a) (up k) c (up_even s z.place k z.trail) z.tree.2 in
    ground (arith, z.tree.0, z.tree.1.nonnull, ev)

pub root-place :
    (s : RbTree) (l : Tree) (a : ℕ) (c : Bool) (r : Tree) (k : Trail) (z : Zip s (node l a c r) k)
    → z.place ≡ a
unfolding IsTree
root-place s l a c r k z = z.tree.0

pub rbt_color-root :
    (s : RbTree) (l : Tree) (a : ℕ) (c : Bool) (r : Tree) (k : Trail)
    → Zip s (node l a c r) k
    → rbt_color a s ≡ some (bit c, s)
rbt_color-root s l a c r k z =
    subst (λ p. rbt_color p s ≡ some (bit c, s)) (root-place s l a c r k z)
      (rbt_color-Zip s (node l a c r) k z)

-- The store after `m_rbt_set_color`.
abbrev pub painted : RbTree → ℕ → Bool → RbTree
painted s a c = record s { pcolor = update s.pcolor a (s.pcolor a / 2 * 2 + bit c) }

pub rbt_set_color-effect :
    (s : RbTree) (a : ℕ) (c : Bool) → a ≢ 0 → rbt_set_color a (bit c) s ≡ some (tt, painted s a c)
unfolding rbt_set_color get_pcolor set_pcolor
rbt_set_color-effect s a true n = ground arith
rbt_set_color-effect s a false n = ground arith

painted-SameAt : (s : RbTree) (a b : ℕ) (c : Bool) → b ≢ a → SameAt s (painted s a c) b
painted-SameAt s a b c n = record {
  same_pcolor = ground arith;
  same_left = refl;
  same_right = refl;
}

painted_color :
    (w q : ℕ) (c c' : Bool) → q % 2 ≡ 0 → w ≡ q + bit c → w / 2 * 2 + bit c' ≡ q + bit c'
painted_color w q true c' e h = ground arith
painted_color w q false c' e h = ground arith

pub painted-Zip :
    (s : RbTree) (l : Tree) (a : ℕ) (c c' : Bool) (r : Tree) (k : Trail)
    → Zip s (node l a c r) k
    → Zip (painted s a c') (node l a c' r) k
unfolding IsTree in_tree Apart
painted-Zip s l a c c' r k z =
    let u = painted s a c' in
    let ev = up_even s z.place k z.trail in
    record {
      place = z.place;
      tree = (
        z.tree.0,
        z.tree.1,
        ground (arith, painted_color (s.pcolor a) (up k) c c' ev z.tree.2),
        IsTree-frame s u (s.left a) a l
            (λ b i. painted-SameAt s a b c' (λ e. ground (arith, z.apart.0, i, e))) z.tree.3,
        IsTree-frame s u (s.right a) a r
            (λ b i. painted-SameAt s a b c' (λ e. ground (arith, z.apart.1, i, e))) z.tree.4,
      );
      trail =
          IsTrail-frame s u z.place k refl
            (λ b i. painted-SameAt s a b c' (λ e. ground (arith, z.outside a, i, e))) z.trail;
      apart = z.apart;
      apart_trail = z.apart_trail;
      outside = λ b i. z.outside b i;
    }

-- The children of a node are where its links say.
pub left_place :
    (s : RbTree) (l : Tree) (a : ℕ) (c : Bool) (r : Tree) (k : Trail)
    → Zip s (node l a c r) k
    → (a ≢ 0) × IsTree s (s.left a) a l × IsTree s (s.right a) a r
unfolding IsTree
left_place s l a c r k z = (z.tree.1.nonnull, z.tree.3, z.tree.4)

pub plug-Zip : (s : RbTree) (t : Tree) (k : Trail) → Zip s t k → Zip s (plug k t) top
unfolding plug
plug-Zip s t top z = z
plug-Zip s t (left_child a c r k) z = plug-Zip s (node t a c r) k (up_left s t a c r k z)
plug-Zip s t (right_child l a c k) z = plug-Zip s (node l a c t) k (up_right s l a c t k z)
