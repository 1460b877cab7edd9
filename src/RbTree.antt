-- ===== src/RbTree.antt =====
-- include/m_rbtree.h: a red-black tree over intrusive nodes; the links, the colours, the search and
-- the traversal. The operations that change the shape are in
-- RbTree.Update and RbTree.Removal.
pub mod Update
pub mod Removal
pub mod Shape
pub mod Frames
pub mod Moves
pub mod RotatedLeft
pub mod RotateLeft
pub mod RotatedRight
pub mod RotateRight
pub mod Access
pub mod Fix
pub mod Sides
pub mod Insert
pub mod InsertCases
pub mod InsertRotate
pub mod InsertLoop
pub mod Balance
pub mod BalanceSteps
pub mod BalanceFix
pub mod Order
pub mod InsertNode
pub mod Search
pub mod Lookup
use Prim.Native.Nat.{max}
use ming.Base.{
  [], zero, negsuc, pos, true, false, update, none, ◌!=◌, ◌+◌, ◌==◌, ◌%◌, suc, ◌*◌, pure, Option,
  ◌>>=◌, ◌>>◌, fault, ℤ, if◌then◌else◌, some, ◌/◌, ℕ, Run,
}

-- An `M_RBTree` (the pointer to the root) and the fields of every `M_RBNode` by address. Address 0
-- is `NULL`; the lowest bit of `pcolor` is the colour, the others are the parent.
pub record RbTree : Type 0 where
  pub root : ℕ
  pub pcolor : ℕ → ℕ
  pub left : ℕ → ℕ
  pub right : ℕ → ℕ

-- `M_RBTreeOps`; `free_node` may be `NULL`.
pub record RbTreeOps : Type 0 where
  pub get_key : ℕ → ℕ
  pub cmp : ℕ → ℕ → ℤ
  pub free_node : Option (ℕ → Run RbTree (Unit {0}))

-- What an `M_RBNode**` points at.
pub data Place : Type 0 where
  root_of_tree : Place
  left_of right_of : (node : ℕ) → Place

abbrev pub black : ℕ
black = 1

abbrev pub red : ℕ
red = 0

-- `w | b` for a bit `b`
abbrev pub or_bit : ℕ → ℕ → ℕ
or_bit w b = w / 2 * 2 + max (w % 2) b

unfoldable pub get_root : Run RbTree ℕ
get_root s = some (s.root, s)

unfoldable pub get_left : ℕ → Run RbTree ℕ
get_left p s = if p == 0 then none else some (s.left p, s)

unfoldable pub get_right : ℕ → Run RbTree ℕ
get_right p s = if p == 0 then none else some (s.right p, s)

unfoldable pub get_pcolor : ℕ → Run RbTree ℕ
get_pcolor p s = if p == 0 then none else some (s.pcolor p, s)

unfoldable pub set_root : ℕ → Run RbTree (Unit {0})
set_root q s = some (tt, record s { root = q })

unfoldable pub set_left : ℕ → ℕ → Run RbTree (Unit {0})
set_left p q s = if p == 0 then none else some (tt, record s { left = update s.left p q })

unfoldable pub set_right : ℕ → ℕ → Run RbTree (Unit {0})
set_right p q s = if p == 0 then none else some (tt, record s { right = update s.right p q })

unfoldable pub set_pcolor : ℕ → ℕ → Run RbTree (Unit {0})
set_pcolor p w s = if p == 0 then none else some (tt, record s { pcolor = update s.pcolor p w })

unfoldable pub load : Place → Run RbTree ℕ
unfolding get_root get_left get_right
load root_of_tree = get_root
load (left_of p) = get_left p
load (right_of p) = get_right p

unfoldable pub store : Place → ℕ → Run RbTree (Unit {0})
unfolding set_root set_left set_right
store root_of_tree q = set_root q
store (left_of p) q = set_left p q
store (right_of p) q = set_right p q

unfoldable pub rbt_parent : ℕ → Run RbTree ℕ
unfolding get_pcolor
rbt_parent node = do w ← get_pcolor node; pure (w / 2 * 2)

unfoldable pub rbt_sibling : ℕ → Run RbTree ℕ
unfolding rbt_parent get_left get_right
rbt_sibling node = do
  parent ← rbt_parent node
  l ← get_left parent
  if l == node then get_right parent else get_left parent

unfoldable pub rbt_color : ℕ → Run RbTree ℕ
unfolding get_pcolor
rbt_color node = if node == 0 then pure black else (do w ← get_pcolor node; pure (w % 2))

unfoldable pub rbt_set_color : ℕ → ℕ → Run RbTree (Unit {0})
unfolding get_pcolor set_pcolor
rbt_set_color node color = do
  w ← get_pcolor node
  set_pcolor node (if color == 0 then w / 2 * 2 else or_bit w 1)

unfoldable pub rbt_set_parent : ℕ → ℕ → Run RbTree (Unit {0})
unfolding get_pcolor set_pcolor
rbt_set_parent node parent = do w ← get_pcolor node; set_pcolor node (or_bit parent (w % 2))

unfoldable pub rbt_set_parent_color : ℕ → ℕ → ℕ → Run RbTree (Unit {0})
unfolding set_pcolor
rbt_set_parent_color node parent color = set_pcolor node (or_bit parent color)

module _ (func : ℕ → Run RbTree (Unit {0})) where
  unfoldable pub rbt_free_node : ℕ → ℕ → Run RbTree (Unit {0})
  unfolding get_left get_right
  rbt_free_node zero node = fault
  rbt_free_node (suc fuel) node = do
    l ← get_left node
    elim (l == 0) [ true ↦ pure tt | false ↦ rbt_free_node fuel l ]
    r ← get_right node
    elim (r == 0) [ true ↦ pure tt | false ↦ rbt_free_node fuel r ]
    func node

-- `while (node->left) node = node->left`
unfoldable pub leftmost : ℕ → ℕ → Run RbTree ℕ
unfolding get_left
leftmost zero node = fault
leftmost (suc fuel) node = do
  l ← get_left node
  elim (l == 0) [ true ↦ pure node | false ↦ leftmost fuel l ]

-- `while (node->right) node = node->right`
unfoldable pub rightmost : ℕ → ℕ → Run RbTree ℕ
unfolding get_right
rightmost zero node = fault
rightmost (suc fuel) node = do
  r ← get_right node
  elim (r == 0) [ true ↦ pure node | false ↦ rightmost fuel r ]

unfoldable pub rbt_first_node : ℕ → Run RbTree ℕ
unfolding get_root leftmost
rbt_first_node fuel = do node ← get_root; if node == 0 then pure 0 else leftmost fuel node

unfoldable pub rbt_last_node : ℕ → Run RbTree ℕ
unfolding get_root rightmost
rbt_last_node fuel = do node ← get_root; if node == 0 then pure 0 else rightmost fuel node

-- The last loop of `m_rbt_next_node`: up to the first ancestor that is entered from its left.
unfoldable pub climb_from_left : ℕ → ℕ → ℕ → Run RbTree ℕ
unfolding get_left rbt_parent
climb_from_left zero node next = fault
climb_from_left (suc fuel) node next = elim (next == 0) [
  | true ↦ pure 0
  | false ↦ do
    l ← get_left next
    elim (l == node) [
      | true ↦ pure next
      | false ↦ do up ← rbt_parent next; climb_from_left fuel next up
    ]
]

-- The last loop of `m_rbt_prev_node`.
unfoldable pub climb_from_right : ℕ → ℕ → ℕ → Run RbTree ℕ
unfolding get_right rbt_parent
climb_from_right zero node prev = fault
climb_from_right (suc fuel) node prev = elim (prev == 0) [
  | true ↦ pure 0
  | false ↦ do
    r ← get_right prev
    elim (r == node) [
      | true ↦ pure prev
      | false ↦ do up ← rbt_parent prev; climb_from_right fuel prev up
    ]
]

unfoldable pub rbt_next_node : ℕ → ℕ → Run RbTree ℕ
unfolding get_right leftmost rbt_parent climb_from_left
rbt_next_node fuel node = if node == 0 then pure 0 else do
  next ← get_right node
  if next != 0 then leftmost fuel next else do up ← rbt_parent node; climb_from_left fuel node up

unfoldable pub rbt_prev_node : ℕ → ℕ → Run RbTree ℕ
unfolding get_left rightmost rbt_parent climb_from_right
rbt_prev_node fuel node = if node == 0 then pure 0 else do
  prev ← get_left node
  if prev != 0 then rightmost fuel prev else do up ← rbt_parent node; climb_from_right fuel node up

unfoldable pub rbt_init : Run RbTree (Unit {0})
unfolding set_root
rbt_init = set_root 0

unfoldable pub rbt_deinit : RbTreeOps → ℕ → Run RbTree (Unit {0})
unfolding get_root rbt_free_node
rbt_deinit ops fuel = elim ops.free_node [
  | none ↦ pure tt
  | some free ↦ do root ← get_root; if root == 0 then pure tt else rbt_free_node free fuel root
]

module _ (ops : RbTreeOps) where
  unfoldable pub rbt_lookup_loop : ℕ → ℕ → ℕ → Run RbTree ℕ
  unfolding get_left get_right
  rbt_lookup_loop zero key node = fault
  rbt_lookup_loop (suc fuel) key node = elim (node == 0) [
    | true ↦ pure 0
    | false ↦ elim (ops.cmp key (ops.get_key node)) [
      | pos zero ↦ pure node
      | pos (suc v) ↦ do r ← get_right node; rbt_lookup_loop fuel key r
      | negsuc v ↦ do l ← get_left node; rbt_lookup_loop fuel key l
    ]
  ]

  unfoldable pub rbt_lookup : ℕ → ℕ → Run RbTree ℕ
  unfolding get_root rbt_lookup_loop
  rbt_lookup fuel key = do node ← get_root; rbt_lookup_loop fuel key node

  unfoldable pub rbt_lookup_insert_loop : ℕ → ℕ → ℕ → Place → Run RbTree (ℕ × (ℕ × Place))
  unfolding load
  rbt_lookup_insert_loop zero key node pn = fault
  rbt_lookup_insert_loop (suc fuel) key node pn = do
    next ← load pn
    elim (next == 0) [
      | true ↦ pure (0, (node, pn))
      | false ↦ elim (ops.cmp key (ops.get_key next)) [
        | pos zero ↦ pure (next, (node, pn))
        | pos (suc v) ↦ rbt_lookup_insert_loop fuel key next (right_of next)
        | negsuc v ↦ rbt_lookup_insert_loop fuel key next (left_of next)
      ]
    ]

  -- Returns the node, or 0 and what is stored through `parent` and `pos`.
  unfoldable pub rbt_lookup_insert : ℕ → ℕ → Run RbTree (ℕ × (ℕ × Place))
  unfolding rbt_lookup_insert_loop
  rbt_lookup_insert fuel key = rbt_lookup_insert_loop fuel key 0 root_of_tree
