-- ===== src/RbTree/Fix.antt =====
-- The rebalancing of an insertion on trees: what the loop of `m_rbt_insert` does to the shape.
use ming.RbTree.Access.{tree_black}
use ming.RbTree.Shape.{top, right_child, leaf, left_child, node, Trail, plug, Tree}
use ming.Base.{◌+◌, ◌≡◌, false, true, Bool, ℕ}

pub data Side : Type 0 where
  on_left on_right : Side

abbrev pub blacken : Tree → Tree
blacken leaf = leaf
blacken (node l a c r) = node l a true r

-- A node with one child here and the other there.
abbrev pub join : Side → Tree → ℕ → Bool → Tree → Tree
join on_left t a c w = node t a c w
join on_right t a c w = node w a c t

abbrev pub onto : Side → ℕ → Bool → Tree → Trail → Trail
onto on_left a c w k = left_child a c w k
onto on_right a c w k = right_child w a c k

-- The rotations for the red node `t` under the red node `p` under `g`: `i` says on which side of `p`
-- the node is, `j` on which side of `g` the node `p` is; `w` and `u` are the other children.
abbrev pub rotated : Side → Side → Tree → ℕ → Tree → ℕ → Tree → Tree
rotated on_left on_left t p w g u = node t p true (node w g false u)
rotated on_right on_right t p w g u = node (node u g false w) p true t
rotated on_right on_left leaf p w g u = leaf
rotated on_right on_left (node a n c b) p w g u = node (node w p false a) n true (node b g false u)
rotated on_left on_right leaf p w g u = leaf
rotated on_left on_right (node a n c b) p w g u = node (node u g false a) n true (node b p false w)

-- `t` has a red root, and is where `k` leads.
unfoldable pub insert_fix : Tree → Trail → Tree
unfolding plug
insert_fix t top = blacken t
insert_fix t (left_child p true w k) = plug (left_child p true w k) t
insert_fix t (right_child w p true k) = plug (right_child w p true k) t
insert_fix t (left_child p false w top) = node t p false w
insert_fix t (right_child w p false top) = node w p false t
insert_fix t (left_child p false w (left_child g d u k)) = elim (tree_black u) [
  | true ↦ plug k (rotated on_left on_left t p w g u)
  | false ↦ insert_fix (node (node t p true w) g false (blacken u)) k
]
insert_fix t (right_child w p false (left_child g d u k)) = elim (tree_black u) [
  | true ↦ plug k (rotated on_right on_left t p w g u)
  | false ↦ insert_fix (node (node w p true t) g false (blacken u)) k
]
insert_fix t (left_child p false w (right_child u g d k)) = elim (tree_black u) [
  | true ↦ plug k (rotated on_left on_right t p w g u)
  | false ↦ insert_fix (node (blacken u) g false (node t p true w)) k
]
insert_fix t (right_child w p false (right_child u g d k)) = elim (tree_black u) [
  | true ↦ plug k (rotated on_right on_right t p w g u)
  | false ↦ insert_fix (node (blacken u) g false (node w p true t)) k
]

unfoldable pub depth : Trail → ℕ
depth top = 0
depth (left_child a c r k) = depth k + 1
depth (right_child l a c k) = depth k + 1

-- The root of the tree that the trail begins at is black, if the trail has a node.
unfoldable pub Rooted : Trail → Type 0
Rooted top = Unit
Rooted (left_child a c r top) = c ≡ true
Rooted (right_child l a c top) = c ≡ true
Rooted (left_child a c r (left_child a' c' r' k)) = Rooted (left_child a' c' r' k)
Rooted (left_child a c r (right_child l' a' c' k)) = Rooted (right_child l' a' c' k)
Rooted (right_child l a c (left_child a' c' r' k)) = Rooted (left_child a' c' r' k)
Rooted (right_child l a c (right_child l' a' c' k)) = Rooted (right_child l' a' c' k)

pub Rooted-under :
    (i : Side) (a : ℕ) (c : Bool) (w : Tree) (k : Trail) → Rooted (onto i a c w k) → Rooted k
unfolding Rooted
Rooted-under on_left a c w top h = tt
Rooted-under on_right a c w top h = tt
Rooted-under on_left a c w (left_child a' c' r' k) h = h
Rooted-under on_left a c w (right_child l' a' c' k) h = h
Rooted-under on_right a c w (left_child a' c' r' k) h = h
Rooted-under on_right a c w (right_child l' a' c' k) h = h

pub red_root : (i : Side) (p : ℕ) (w : Tree) → ¬ Rooted (onto i p false w top)
unfolding Rooted
red_root on_left p w h = cc
red_root on_right p w h = cc
