-- ===== src/RbTree/Update.antt =====
-- include/m_rbtree.h: rotations and insertion.
use ming.RbTree.{
  black, red, Place, RbTree, rbt_sibling, rbt_set_parent_color, set_root, rbt_color, rbt_set_parent,
  store, rbt_set_color, get_right, set_right, get_left, set_left, rbt_parent,
}
use ming.Base.{
  true, false, zero, ◌&&◌, pure, assert, suc, ◌==◌, ◌!=◌, fault, ◌>>◌, if◌then◌else◌, ◌>>=◌, Run, ℕ,
}

-- The places that point at `x` point at `y` from now on: a child link of the parent, or the root.
unfoldable pub replace_child : ℕ → ℕ → ℕ → Run RbTree (Unit {0})
unfolding get_left set_left set_right set_root
replace_child parent x y =
    if parent != 0
    then (do l ← get_left parent; if l == x then set_left parent y else set_right parent y)
    else set_root y

unfoldable pub rbt_rotate_left : ℕ → Run RbTree (Unit {0})
unfolding get_left get_right set_left set_right rbt_parent rbt_set_parent replace_child
rbt_rotate_left x = do
  y ← get_right x
  assert (y != 0)
  child ← get_left y
  parent ← rbt_parent x
  set_right x child
  set_left y x
  replace_child parent x y
  if child != 0 then rbt_set_parent child x else pure tt
  rbt_set_parent x y
  rbt_set_parent y parent

unfoldable pub rbt_rotate_right : ℕ → Run RbTree (Unit {0})
unfolding get_left get_right set_left set_right rbt_parent rbt_set_parent replace_child
rbt_rotate_right x = do
  y ← get_left x
  assert (y != 0)
  child ← get_right y
  parent ← rbt_parent x
  set_left x child
  set_right y x
  replace_child parent x y
  if child != 0 then rbt_set_parent child x else pure tt
  rbt_set_parent x y
  rbt_set_parent y parent

-- The end of the loop in `m_rbt_insert`, with a black uncle: at most two rotations.
unfoldable pub insert_rotate : ℕ → ℕ → ℕ → ℕ → Run RbTree (Unit {0})
unfolding get_left get_right rbt_rotate_left rbt_rotate_right rbt_set_color
insert_rotate node parent gparent uncle = do
  gr ← get_right gparent
  pr ← get_right parent
  gl ← get_left gparent
  pl ← get_left parent
  (node', parent') ←
      if uncle == gr && node == pr
      then (rbt_rotate_left parent >> pure (parent, node))
      else if uncle == gl && node == pl
      then (rbt_rotate_right parent >> pure (parent, node))
      else pure (node, parent)
  rbt_set_color parent' black
  rbt_set_color gparent red
  gr' ← get_right gparent
  if uncle == gr' then rbt_rotate_right gparent else rbt_rotate_left gparent

-- The loop in `m_rbt_insert`.
unfoldable pub insert_rebalance : ℕ → ℕ → Run RbTree (Unit {0})
unfolding rbt_parent rbt_set_color rbt_color rbt_sibling insert_rotate
insert_rebalance zero node = fault
insert_rebalance (suc fuel) node = do
  parent ← rbt_parent node
  elim (parent == 0) [
    | true ↦ rbt_set_color node black
    | false ↦ do
      pcol ← rbt_color parent
      elim (pcol == black) [
        | true ↦ pure tt
        | false ↦ do
          gparent ← rbt_parent parent
          assert (gparent != 0)
          uncle ← rbt_sibling parent
          ucol ← rbt_color uncle
          elim (ucol == red) [
            | true ↦ do
              rbt_set_color parent black
              rbt_set_color uncle black
              rbt_set_color gparent red
              insert_rebalance fuel gparent
            | false ↦ insert_rotate node parent gparent uncle
          ]
      ]
  ]

unfoldable pub rbt_insert : ℕ → ℕ → Place → ℕ → Run RbTree (Unit {0})
unfolding set_left set_right store rbt_set_parent_color insert_rebalance
rbt_insert fuel parent place node = do
  assert (node != 0)
  set_left node 0
  set_right node 0
  store place node
  rbt_set_parent_color node parent red
  insert_rebalance fuel node
