-- ===== src/RbTree/Lookup.antt =====
-- `m_rbt_lookup` on a tree in memory.
use ming.RbTree.Sides.{same_place}
use ming.RbTree.Moves.{down_left, down_right}
use ming.RbTree.InsertRotate.{carried}
use ming.RbTree.Access.{root-IsAddress, root-place}
use ming.RbTree.Shape.{
  left_child, right_child, node, leaf, top, IsTrail, in_tree, plug, Zip, Trail, Tree, IsTree,
}
use ming.RbTree.Search.{
  Guided-left, plug_left, Guided-right, plug_right, found_here, lookup_turn, Guided, height,
}
use ming.RbTree.{get_right, get_left, get_root, RbTree, rbt_lookup_loop, rbt_lookup, RbTreeOps}
use ming.Base.{
  inl, subst, inr, refl, ◌∙◌, sym, zero, arith, Returns, negsuc, ◌⊎◌, some, pos, ◌<◌, suc, ◌≡◌, ◌≢◌,
  true, ℕ,
}

-- What `m_rbt_lookup` may answer for the tree `whole`.
abbrev pub Found : RbTreeOps → ℕ → RbTree → Tree → ℕ → Type 0
Found ops key s whole found =
    (found ≢ 0) × (in_tree found whole ≡ true) × (ops.cmp key (ops.get_key found) ≡ pos 0)
    ⊎ (found ≡ 0) × ((k : Trail) × Zip s leaf k × (plug k leaf ≡ whole) × Guided ops key k)

module _ (ops : RbTreeOps) (key : ℕ) where
  find_leaf :
      (s : RbTree) (k : Trail) (fuel p : ℕ)
      → p ≡ 0
      → rbt_lookup_loop ops (suc fuel) key p s ≡ some (0, s)
  unfolding rbt_lookup_loop
  find_leaf s k fuel p e = ground arith

  find_node :
      (s : RbTree) (a fuel : ℕ)
      → a ≢ 0
      → rbt_lookup_loop ops (suc fuel) key a s ≡ (elim (ops.cmp key (ops.get_key a)) [
        | pos zero ↦ some (a, s)
        | pos (suc v) ↦ rbt_lookup_loop ops fuel key (s.right a) s
        | negsuc v ↦ rbt_lookup_loop ops fuel key (s.left a) s
      ])
  unfolding rbt_lookup_loop get_left get_right
  find_node s a fuel n = ground arith

  find_loop :
      (t : Tree) (k : Trail) (s : RbTree) (fuel p : ℕ) (whole : Tree) (z : Zip s t k)
      → z.place ≡ p
      → plug k t ≡ whole
      → Guided ops key k
      → height t < fuel
      → Returns (rbt_lookup_loop ops fuel key p s) (λ r u. (u ≡ s) × Found ops key s whole r)
  unfolding height IsTree
  find_loop t k s zero p whole z q e g f = absurd (omega arith)
  find_loop leaf k s (suc fuel) p whole z q e g f =
      (0, s, find_leaf s k fuel p (sym q ∙ z.tree), (refl, inr (refl, (k, z, e, g))))
  find_loop (node l a c r) k s (suc fuel) p whole z q e g f =
      subst
        (λ x.
          Returns (rbt_lookup_loop ops (suc fuel) key x s)
            (λ r u. (u ≡ s) × Found ops key s whole r))
        (sym (root-place s l a c r k z) ∙ q)
        (carried (find_node s a fuel (root-IsAddress s l a c r k z).nonnull) (
          lookup_turn ops key (ops.cmp key (ops.get_key a))
            (λ h. (
              a,
              s,
              refl,
              (
                refl,
                inl ((root-IsAddress s l a c r k z).nonnull, found_here s l a c r k whole e, h),
              ),
            ))
            (λ v h.
              find_loop r (right_child l a c k) s fuel (s.right a) whole (down_right s l a c r k z)
                (let z' = down_right s l a c r k z in
                  same_place s s z'.place a (s.right a) a r z'.tree z.tree.4)
                (plug_right l a c r k whole e) (Guided-right ops key l a c k v h g)
                (omega (arith, f)))
            (λ v h.
              find_loop l (left_child a c r k) s fuel (s.left a) whole (down_left s l a c r k z)
                (let z' = down_left s l a c r k z in
                  same_place s s z'.place a (s.left a) a l z'.tree z.tree.3)
                (plug_left l a c r k whole e) (Guided-left ops key a c r k v h g)
                (omega (arith, f)))))

  -- `m_rbt_lookup` on a tree in memory ends without a fault and changes nothing, if the fuel is more
  -- than the height. It returns a node of the tree whose key compares equal, or `NULL`; then the
  -- comparisons of the key lead down the tree to an empty place.
  pub rbt_lookup-Found :
      (s : RbTree) (t : Tree) (fuel : ℕ)
      → Zip s t top
      → height t < fuel
      → Returns (rbt_lookup ops fuel key s) (λ r u. (u ≡ s) × Found ops key s t r)
  unfolding rbt_lookup get_root plug Guided IsTrail
  rbt_lookup-Found s t fuel z f = find_loop t top s fuel s.root t z (sym z.trail) refl tt f
