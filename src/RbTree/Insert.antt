-- ===== src/RbTree/Insert.antt =====
-- One round of the loop of `m_rbt_insert`, branch by branch.
use ming.RbTree.Moves.{down_right, down_left}
use ming.RbTree.Sides.{join_links, join_nonnull, other, child_link}
use ming.RbTree.Access.{rbt_parent-Zip, rbt_set_color-effect, painted}
use ming.RbTree.Shape.{right_child, left_child, node, Zip, Trail, Tree}
use ming.RbTree.Fix.{on_right, on_left, join, Side}
use ming.RbTree.Update.{insert_rebalance, rbt_rotate_left, rbt_rotate_right, insert_rotate}
use ming.RbTree.{black, red, rbt_color, rbt_parent, get_right, RbTree, get_left, rbt_sibling}
use ming.Base.{suc, arith, false, Bool, some, true, ◌≡◌, ◌≢◌, ℕ}

pub sibling-join :
    (j : Side) (s : RbTree) (l : Tree) (p : ℕ) (c : Bool) (r : Tree) (g : ℕ) (d : Bool) (u : Tree)
    (k : Trail)
    → Zip s (join j (node l p c r) g d u) k
    → rbt_sibling p s ≡ some (child_link (other j) s g, s)
unfolding rbt_sibling get_left get_right
sibling-join on_left s l p c r g d u k z = ground (
  arith,
  rbt_parent-Zip s l p c r (left_child g d u k) (down_left s (node l p c r) g d u k z),
  join_nonnull on_left s (node l p c r) g d u k z,
  join_links on_left s l p c r g d u k z,
)
sibling-join on_right s l p c r g d u k z = ground (
  arith,
  rbt_parent-Zip s l p c r (right_child u g d k) (down_right s u g d (node l p c r) k z),
  join_nonnull on_right s (node l p c r) g d u k z,
  join_links on_right s l p c r g d u k z,
)

module _ (fuel n p g q : ℕ) (s : RbTree) (np : p ≢ 0) (ng : g ≢ 0)
    (parent : rbt_parent n s ≡ some (p, s)) (color : rbt_color p s ≡ some (red, s))
    (gparent : rbt_parent p s ≡ some (g, s)) (sibling : rbt_sibling p s ≡ some (q, s)) where
  pub red_uncle :
      q ≢ 0
      → rbt_color q s ≡ some (red, s)
      → insert_rebalance (suc fuel) n s
        ≡ insert_rebalance fuel g (painted (painted (painted s p true) q true) g false)
  unfolding insert_rebalance
  red_uncle nq e = ground (
    arith,
    parent,
    color,
    gparent,
    sibling,
    e,
    rbt_set_color-effect s p true np,
    rbt_set_color-effect (painted s p true) q true nq,
    rbt_set_color-effect (painted (painted s p true) q true) g false ng,
  )

  pub black_uncle :
      rbt_color q s ≡ some (black, s) → insert_rebalance (suc fuel) n s ≡ insert_rotate n p g q s
  unfolding insert_rebalance
  black_uncle e = ground (arith, parent, color, gparent, sibling, e)

-- The branches of `insert_rotate`.
module _ (n p g q : ℕ) (s : RbTree) (np : p ≢ 0) (ng : g ≢ 0) where
  pub rotate_outer_left :
      s.right g ≡ q
      → s.right p ≢ n
      → s.left g ≢ q
      → insert_rotate n p g q s ≡ rbt_rotate_right g (painted (painted s p true) g false)
  unfolding insert_rotate get_left get_right
  rotate_outer_left e1 e2 e3 =
      ground (
        arith,
        rbt_set_color-effect s p true np,
        rbt_set_color-effect (painted s p true) g false ng,
      )

  pub rotate_outer_right :
      s.left g ≡ q
      → s.left p ≢ n
      → s.right g ≢ q
      → insert_rotate n p g q s ≡ rbt_rotate_left g (painted (painted s p true) g false)
  unfolding insert_rotate get_left get_right
  rotate_outer_right e1 e2 e3 =
      ground (
        arith,
        rbt_set_color-effect s p true np,
        rbt_set_color-effect (painted s p true) g false ng,
      )

  pub rotate_inner_left :
      (s' : RbTree)
      → n ≢ 0
      → s.right g ≡ q
      → s.right p ≡ n
      → rbt_rotate_left p s ≡ some (tt, s')
      → s'.right g ≡ q
      → insert_rotate n p g q s ≡ rbt_rotate_right g (painted (painted s' n true) g false)
  unfolding insert_rotate get_left get_right
  rotate_inner_left s' nn e1 e2 e3 e4 = ground (
    arith,
    e3,
    rbt_set_color-effect s' n true nn,
    rbt_set_color-effect (painted s' n true) g false ng,
  )

  pub rotate_inner_right :
      (s' : RbTree)
      → n ≢ 0
      → s.left g ≡ q
      → s.left p ≡ n
      → s.right g ≢ q
      → rbt_rotate_right p s ≡ some (tt, s')
      → s'.right g ≢ q
      → insert_rotate n p g q s ≡ rbt_rotate_left g (painted (painted s' n true) g false)
  unfolding insert_rotate get_left get_right
  rotate_inner_right s' nn e1 e2 e5 e3 e4 =
      ground
        (
          arith,
          e3,
          rbt_set_color-effect s' n true nn,
          rbt_set_color-effect (painted s' n true) g false ng,
        )
        steps 30000000
