-- ===== src/RbTree/InsertCases.antt =====
-- The rounds of the loop of `m_rbt_insert` on a tree in memory.
use ming.RbTree.Insert.{red_uncle, black_uncle, sibling-join}
use ming.RbTree.Update.{insert_rotate, insert_rebalance}
use ming.RbTree.Sides.{
  up_other, painted-join, up-onto, join-color, same_place, join_links, join-parent, join_nonnull,
  child_link, down_other, up_side, other,
}
use ming.RbTree.Access.{
  painted-Zip, root-IsAddress, root-place, painted, rbt_color-Zip, rbt_parent-Zip, tree_black,
}
use ming.RbTree.Shape.{leaf, bit, IsTree, node, Zip, Trail, Tree}
use ming.RbTree.Fix.{on_right, on_left, blacken, onto, join, Side}
use ming.RbTree.{rbt_color, rbt_sibling, rbt_parent, RbTree}
use ming.Base.{sym, ap, subst, ◌∙◌, suc, some, ◌≡◌, ◌≢◌, false, Bool, ℕ, true}

pub sibling-side :
    (i j : Side) (s : RbTree) (t : Tree) (p : ℕ) (c : Bool) (w : Tree) (g : ℕ) (d : Bool) (u : Tree)
    (k : Trail)
    → Zip s (join i t p c w) (onto j g d u k)
    → (rbt_sibling p s ≡ some (child_link (other j) s g, s))
      × (child_link j s g ≡ p)
      × IsTree s (child_link (other j) s g) g u
      × (child_link (other j) s g ≢ p)
sibling-side on_left j s t p c w g d u k z =
    let z' = up_side j s (node t p c w) g d u k z in
    let h = join_links j s t p c w g d u k z' in
    (sibling-join j s t p c w g d u k z', h.0, h.1, h.2)
sibling-side on_right j s t p c w g d u k z =
    let z' = up_side j s (node w p c t) g d u k z in
    let h = join_links j s w p c t g d u k z' in
    (sibling-join j s w p c t g d u k z', h.0, h.1, h.2)

painted-root :
    (v : Tree) (s : RbTree) (k : Trail) (z : Zip s v k)
    → tree_black v ≡ false
    → (z.place ≢ 0) × Zip (painted s z.place true) (blacken v) k
unfolding IsTree
painted-root leaf s k z b = cc
painted-root (node l a c r) s k z b = (
  subst (λ p. p ≢ 0) (sym (root-place s l a c r k z)) (root-IsAddress s l a c r k z).nonnull,
  subst (λ p. Zip (painted s p true) (node l a true r) k) (sym (root-place s l a c r k z))
      (painted-Zip s l a c true r k z),
)

module _ (i j : Side) (s : RbTree) (l : Tree) (n : ℕ) (r : Tree) (p : ℕ) (w : Tree) (g : ℕ)
    (d : Bool) (u : Tree) (k : Trail) (fuel : ℕ)
    (z : Zip s (node l n false r) (onto i p false w (onto j g d u k))) where
  abbrev t : Tree
  t = node l n false r

  abbrev above : Trail
  above = onto j g d u k

  pub Zip-parent : Zip s (join i t p false w) above
  Zip-parent = up_side i s t p false w above z

  pub Zip-grand : Zip s (join j (join i t p false w) g d u) k
  Zip-grand = up_side j s (join i t p false w) g d u k Zip-parent

  pub Zip-uncle : Zip s u (onto (other j) g d (join i t p false w) k)
  Zip-uncle = down_other j s (join i t p false w) g d u k Zip-grand

  reads_parent : rbt_parent n s ≡ some (p, s)
  reads_parent =
      rbt_parent-Zip s l n false r (onto i p false w above) z
      ∙ ap (λ a. some (a, s)) (up-onto i p false w above)

  reads_grand : rbt_parent p s ≡ some (g, s)
  reads_grand =
      join-parent i s t p false w above Zip-parent ∙ ap (λ a. some (a, s)) (up-onto j g d u k)

  pub parent_nonnull : p ≢ 0
  parent_nonnull = join_nonnull i s t p false w above Zip-parent

  pub grand_nonnull : g ≢ 0
  grand_nonnull = join_nonnull j s (join i t p false w) g d u k Zip-grand

  uncle_color : rbt_color (child_link (other j) s g) s ≡ some (bit (tree_black u), s)
  uncle_color =
      subst (λ q. rbt_color q s ≡ some (bit (tree_black u), s))
        (same_place s s Zip-uncle.place _ (child_link (other j) s g) g u Zip-uncle.tree
          (sibling-side i j s t p false w g d u k Zip-parent).2)
        (rbt_color-Zip s u (onto (other j) g d (join i t p false w) k) Zip-uncle)

  pub black_round :
      tree_black u ≡ true
      → insert_rebalance (suc fuel) n s ≡ insert_rotate n p g (child_link (other j) s g) s
  black_round b =
      black_uncle fuel n p g (child_link (other j) s g) s parent_nonnull grand_nonnull reads_parent
        (join-color i s t p false w above Zip-parent) reads_grand
        (sibling-side i j s t p false w g d u k Zip-parent).0
        (uncle_color ∙ ap (λ c. some (bit c, s)) b)

  abbrev uncle : ℕ
  uncle = child_link (other j) s g

  uncle_place :
      (s' : RbTree) (z' : Zip s' u (onto (other j) g d (join i t p true w) k)) → z'.place ≡ uncle
  uncle_place s' z' =
      same_place s' s z'.place _ uncle g u z'.tree
        (sibling-side i j s t p false w g d u k Zip-parent).2

  abbrev after_parent : RbTree
  after_parent = painted s p true

  parent_painted : Zip after_parent u (onto (other j) g d (join i t p true w) k)
  parent_painted = down_other j after_parent (join i t p true w) g d u k (
      up_side j after_parent (join i t p true w) g d u k
        (painted-join i s t p false true w above Zip-parent))

  pub red_round :
      (tree_black u ≡ false)
      → (s' : RbTree) × (insert_rebalance (suc fuel) n s ≡ insert_rebalance fuel g s')
        × Zip s' (join j (join i t p true w) g false (blacken u)) k
  red_round b =
      let at = uncle_place after_parent parent_painted in
      let painting = painted-root u after_parent _ parent_painted b in
      let z2 =
        subst
          (λ q.
            Zip (painted after_parent q true) (blacken u)
              (onto (other j) g d (join i t p true w) k))
          at painting.1 in
      let s2 = painted after_parent uncle true in
      (
        painted s2 g false,
        red_uncle fuel n p g uncle s parent_nonnull grand_nonnull reads_parent
            (join-color i s t p false w above Zip-parent) reads_grand
            (sibling-side i j s t p false w g d u k Zip-parent).0 (subst (λ q. q ≢ 0) at painting.0)
            (uncle_color ∙ ap (λ c. some (bit c, s)) b),
        painted-join j s2 (join i t p true w) g d false (blacken u) k
            (up_other j s2 (join i t p true w) g d (blacken u) k z2),
      )
