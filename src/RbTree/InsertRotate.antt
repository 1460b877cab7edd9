-- ===== src/RbTree/InsertRotate.antt =====
-- The last round of the loop of `m_rbt_insert` under a black uncle, on a tree in memory.
use ming.RbTree.Insert.{
  rotate_inner_right, rotate_outer_left, rotate_outer_right, rotate_inner_left,
}
use ming.RbTree.Moves.{up_right, up_left}
use ming.RbTree.RotateLeft.{rbt_rotate_left-Zip}
use ming.RbTree.RotateRight.{rbt_rotate_right-Zip}
use ming.RbTree.Sides.{same_place, join_links}
use ming.RbTree.Fix.{on_left, on_right}
use ming.RbTree.InsertCases.{black_round, grand_nonnull, parent_nonnull, sibling-side, Zip-parent}
use ming.RbTree.Update.{insert_rebalance}
use ming.RbTree.Access.{painted-Zip, painted, root-IsAddress, tree_black}
use ming.RbTree.Shape.{left_child, right_child, Zip, node, Trail, Tree}
use ming.RbTree.{RbTree}
use ming.Base.{refl, ◌∙◌, suc, false, sym, subst, Bool, Returns, ℕ, ◌≡◌, true, Option}

-- A run that begins with the run of another store.
pub carried :
    {A : Type 0} {P : A → RbTree → Type 0} {m m' : Option (A × RbTree)}
    → m ≡ m'
    → Returns m' P
    → Returns m P
carried {A} {P} e r = subst (λ o. Returns o P) (sym e) r

module _ (s : RbTree) (l : Tree) (n : ℕ) (r : Tree) (p : ℕ) (w : Tree) (g : ℕ) (d : Bool) (u : Tree)
    (k : Trail) (fuel : ℕ) (black_u : tree_black u ≡ true) where
  abbrev t : Tree
  t = node l n false r

  pub outer_left :
      Zip s t (left_child p false w (left_child g d u k))
      → Returns
          (insert_rebalance (suc fuel) n s)
          (λ _ v. Zip v (node t p true (node w g false u)) k)
  outer_left z =
      let zp = Zip-parent on_left on_left s l n r p w g d u k fuel z in
      let links = join_links on_left s l n false r p false w (left_child g d u k) zp in
      let side = sibling-side on_left on_left s t p false w g d u k zp in
      let np = parent_nonnull on_left on_left s l n r p w g d u k fuel z in
      let ng = grand_nonnull on_left on_left s l n r p w g d u k fuel z in
      let s1 = painted s p true in
      let z1 =
        up_left s1 (node t p true w) g d u k
          (painted-Zip s t p false true w (left_child g d u k) zp) in
      let z2 = painted-Zip s1 (node t p true w) g d false u k z1 in
      carried
        (black_round on_left on_left s l n r p w g d u k fuel z black_u
          ∙ rotate_outer_left n p g (s.right g) s np ng refl links.2 (λ e. side.3 (sym e ∙ side.1)))
        (rbt_rotate_right-Zip (painted s1 g false) t p true w g false u k z2)

  pub outer_right :
      Zip s t (right_child w p false (right_child u g d k))
      → Returns
          (insert_rebalance (suc fuel) n s)
          (λ _ v. Zip v (node (node u g false w) p true t) k)
  outer_right z =
      let zp = Zip-parent on_right on_right s l n r p w g d u k fuel z in
      let links = join_links on_right s l n false r p false w (right_child u g d k) zp in
      let side = sibling-side on_right on_right s t p false w g d u k zp in
      let np = parent_nonnull on_right on_right s l n r p w g d u k fuel z in
      let ng = grand_nonnull on_right on_right s l n r p w g d u k fuel z in
      let s1 = painted s p true in
      let z1 =
        up_right s1 u g d (node w p true t) k
          (painted-Zip s w p false true t (right_child u g d k) zp) in
      let z2 = painted-Zip s1 u g d false (node w p true t) k z1 in
      carried
        (black_round on_right on_right s l n r p w g d u k fuel z black_u
          ∙ rotate_outer_right n p g (s.left g) s np ng refl links.2 (λ e. side.3 (sym e ∙ side.1)))
        (rbt_rotate_left-Zip (painted s1 g false) u g false w p true t k z2)

  pub inner_left :
      Zip s t (right_child w p false (left_child g d u k))
      → Returns
          (insert_rebalance (suc fuel) n s)
          (λ _ v. Zip v (node (node w p false l) n true (node r g false u)) k)
  inner_left z =
      let zp = Zip-parent on_right on_left s l n r p w g d u k fuel z in
      let nn =
        (root-IsAddress s l n false r (right_child w p false (left_child g d u k)) z).nonnull in
      let links = join_links on_right s l n false r p false w (left_child g d u k) zp in
      let side = sibling-side on_right on_left s t p false w g d u k zp in
      let np = parent_nonnull on_right on_left s l n r p w g d u k fuel z in
      let ng = grand_nonnull on_right on_left s l n r p w g d u k fuel z in
      let rot = rbt_rotate_left-Zip s w p false l n false r (left_child g d u k) zp in
      let s' = rot.1 in
      let m = node w p false l in
      let links' =
        join_links on_left s' m n false r g d u k (up_left s' (node m n false r) g d u k rot.3) in
      let s1 = painted s' n true in
      let z1 =
        up_left s1 (node m n true r) g d u k
          (painted-Zip s' m n false true r (left_child g d u k) rot.3) in
      let z2 = painted-Zip s1 (node m n true r) g d false u k z1 in
      carried
        (black_round on_right on_left s l n r p w g d u k fuel z black_u
          ∙ rotate_inner_left n p g (s.right g) s np ng s' nn refl links.0 rot.2
              (same_place s' s (s'.right g) g (s.right g) g u links'.1 side.2))
        (rbt_rotate_right-Zip (painted s1 g false) m n true r g false u k z2)

  pub inner_right :
      Zip s t (left_child p false w (right_child u g d k))
      → Returns
          (insert_rebalance (suc fuel) n s)
          (λ _ v. Zip v (node (node u g false l) n true (node r p false w)) k)
  inner_right z =
      let zp = Zip-parent on_left on_right s l n r p w g d u k fuel z in
      let nn =
        (root-IsAddress s l n false r (left_child p false w (right_child u g d k)) z).nonnull in
      let links = join_links on_left s l n false r p false w (right_child u g d k) zp in
      let side = sibling-side on_left on_right s t p false w g d u k zp in
      let np = parent_nonnull on_left on_right s l n r p w g d u k fuel z in
      let ng = grand_nonnull on_left on_right s l n r p w g d u k fuel z in
      let rot = rbt_rotate_right-Zip s l n false r p false w (right_child u g d k) zp in
      let s' = rot.1 in
      let m = node r p false w in
      let links' =
        join_links on_right s' l n false m g d u k (up_right s' u g d (node l n false m) k rot.3) in
      let same = same_place s' s (s'.left g) g (s.left g) g u links'.1 side.2 in
      let s1 = painted s' n true in
      let z1 =
        up_right s1 u g d (node l n true m) k
          (painted-Zip s' l n false true m (right_child u g d k) rot.3) in
      let z2 = painted-Zip s1 u g d false (node l n true m) k z1 in
      carried
        (black_round on_left on_right s l n r p w g d u k fuel z black_u
          ∙ rotate_inner_right n p g (s.left g) s np ng s' nn refl links.0
              (λ e. side.3 (sym e ∙ side.1)) rot.2 (λ e. links'.2 (same ∙ sym e ∙ links'.0)))
        (rbt_rotate_left-Zip (painted s1 g false) u g false l n true m k z2)
