-- ===== src/RbTree/Removal.antt =====
-- include/m_rbtree.h: removal.
use ming.RbTree.Update.{rbt_rotate_right, replace_child, rbt_rotate_left}
use ming.RbTree.{
  set_pcolor, get_pcolor, rightmost, black, red, RbTree, rbt_sibling, rbt_set_parent_color,
  set_root, rbt_color, rbt_set_parent, rbt_set_color, get_right, set_right, get_left, set_left,
  rbt_parent,
}
use ming.Base.{
  true, false, Bool, zero, ◌&&◌, pure, assert, suc, ◌==◌, ◌!=◌, fault, ◌>>◌, if◌then◌else◌, ◌>>=◌,
  Run, ℕ,
}

-- One round of the loop in `m_rbt_remove_rebalance` that ends it: `sibling` is black and one of its
-- children is red.
unfoldable pub remove_rotate : ℕ → ℕ → ℕ → ℕ → ℕ → ℕ → ℕ → Run RbTree (Unit {0})
unfolding get_left rbt_rotate_left rbt_rotate_right rbt_set_color rbt_color
remove_rotate node parent sibling sleft sright slcol srcol = do
  pl ← get_left parent
  pr ← get_right parent
  (sibling', (sleft', sright')) ←
      if node == pl && slcol == red
      then (do
        rbt_set_color sleft black
        rbt_set_color sibling red
        rbt_rotate_right sibling
        pure (sleft, (sleft, sibling)))
      else if node == pr && srcol == red
      then (do
        rbt_set_color sright black
        rbt_set_color sibling red
        rbt_rotate_left sibling
        pure (sright, (sibling, sright)))
      else pure (sibling, (sleft, sright))
  pcol ← rbt_color parent
  rbt_set_color parent black
  rbt_set_color sibling' pcol
  pl' ← get_left parent
  if node == pl'
      then (rbt_set_color sright' black >> rbt_rotate_left parent)
      else (rbt_set_color sleft' black >> rbt_rotate_right parent)

-- `sibling ? sibling->left : NULL`
unfoldable pub left_or_null : ℕ → Run RbTree ℕ
unfolding get_left
left_or_null p = if p != 0 then get_left p else pure 0

unfoldable pub right_or_null : ℕ → Run RbTree ℕ
unfolding get_right
right_or_null p = if p != 0 then get_right p else pure 0

unfoldable pub rbt_remove_rebalance : ℕ → ℕ → Run RbTree (Unit {0})
unfolding rbt_parent rbt_set_color rbt_color rbt_sibling get_left rbt_rotate_left rbt_rotate_right
    left_or_null right_or_null remove_rotate
rbt_remove_rebalance zero node = fault
rbt_remove_rebalance (suc fuel) node = do
  col ← rbt_color node
  elim (col == red) [
    | true ↦ rbt_set_color node black
    | false ↦ do
      parent ← rbt_parent node
      elim (parent == 0) [
        | true ↦ pure tt
        | false ↦ do
          sibling ← rbt_sibling node
          scol ← rbt_color sibling
          elim (scol == red) [
            | true ↦ do
              rbt_set_color parent red
              rbt_set_color sibling black
              l ← get_left parent
              if node == l then rbt_rotate_left parent else rbt_rotate_right parent
              rbt_remove_rebalance fuel node
            | false ↦ do
              sleft ← left_or_null sibling
              sright ← right_or_null sibling
              slcol ← rbt_color sleft
              srcol ← rbt_color sright
              elim (slcol == black && srcol == black) [
                | true ↦ do
                  if sibling != 0 then rbt_set_color sibling red else pure tt
                  rbt_remove_rebalance fuel parent
                | false ↦ remove_rotate node parent sibling sleft sright slcol srcol
              ]
          ]
      ]
  ]

-- The first part of `m_rbt_remove`: `succ`, `child`, `parent` and `is_left`, which stays unset, here
-- false, where it is not read.
unfoldable pub find_victim : ℕ → ℕ → Run RbTree (ℕ × (ℕ × (ℕ × Bool)))
unfolding get_left get_right rightmost rbt_parent
find_victim fuel node = do
  l ← get_left node
  r ← get_right node
  if l != 0 && r != 0
      then (do
        succ ← rightmost fuel l
        (parent, is_left) ←
            if succ == l
            then pure (succ, true)
            else do parent ← rbt_parent succ; pl ← get_left parent; pure (parent, pl == succ)
        sl ← get_left succ
        sr ← get_right succ
        pure (succ, (if sl != 0 then sl else sr, (parent, is_left))))
      else (do
        parent ← rbt_parent node
        is_left ← if parent != 0 then (do pl ← get_left parent; pure (pl == node)) else pure false
        pure (node, (if l != 0 then l else r, (parent, is_left))))

-- The second part of `m_rbt_remove`: `succ` takes the place of `node`.
unfoldable pub take_place : ℕ → ℕ → Run RbTree (Unit {0})
unfolding get_left get_right get_pcolor set_left set_right set_pcolor rbt_parent rbt_set_parent
    replace_child
take_place succ node = do
  l ← get_left node
  let left = if succ == l then 0 else l
  right ← get_right node
  pcolor ← get_pcolor node
  oparent ← rbt_parent node
  set_left succ left
  set_right succ right
  set_pcolor succ pcolor
  if left != 0 then rbt_set_parent left succ else pure tt
  if right != 0 then rbt_set_parent right succ else pure tt
  replace_child oparent node succ

-- The last part of `m_rbt_remove`.
unfoldable pub detach : ℕ → ℕ → Bool → Run RbTree (Unit {0})
unfolding set_left set_right set_root rbt_set_parent_color
detach child parent is_left = do
  if parent != 0
      then (if is_left then set_left parent child else set_right parent child)
      else set_root child
  if child != 0 then rbt_set_parent_color child parent black else pure tt

unfoldable pub rbt_remove : ℕ → ℕ → Run RbTree (Unit {0})
unfolding find_victim rbt_remove_rebalance take_place detach
rbt_remove fuel node = do
  assert (node != 0)
  (succ, (child, (parent, is_left))) ← find_victim fuel node
  if child == 0 then rbt_remove_rebalance fuel succ else pure tt
  if succ != node then take_place succ node else pure tt
  detach child parent is_left
