-- ===== src/RbTree/RotateRight.antt =====
-- `m_rbt_rotate_right` keeps the tree in memory and its order.
use ming.RbTree.Frames.{
  up-in_trail, IsTrail-relink, not_left, IsTree-reparent, up_even, differ_trail, differ, color_of,
  not_up, root-in_tree, Relinked,
}
use ming.RbTree.Update.{rbt_rotate_right}
use ming.RbTree.Shape.{
  IsTree-frame, bit, IsAddress, Apart, SameAt, up, in_tree, IsTree, node, Zip, Trail, in_trail,
  Tree, IsTrail,
}
use ming.RbTree.{RbTree}
use ming.Base.{
  ◌∙◌, refl, inr, inl, sym, Returns, subst, ◌%◌, true, ◌+◌, false, arith, ◌≡◌, ◌≢◌, Bool, ℕ,
}
use ming.RbTree.RotatedRight.{right_rotated, rotate_right_effect, right_rotated-Relinked}

module _ (s : RbTree) (a : Tree) (y : ℕ) (d : Bool) (b : Tree) (x : ℕ) (c : Bool) (e : Tree)
    (k : Trail) (z : Zip s (node (node a y d b) x c e) k) where
  abbrev right_store : RbTree
  right_store = right_rotated s x y (s.right y) (up k)

  right_x : IsAddress x × (s.pcolor x ≡ up k + bit c) × IsTree s (s.right x) x e × (s.left x ≡ y)
  unfolding IsTree
  right_x = (z.tree.1, z.tree.2, z.tree.4, z.tree.3.0)

  right_y :
      IsAddress y × (s.pcolor y ≡ x + bit d) × IsTree s (s.right y) y b × IsTree s (s.left y) y a
  unfolding IsTree
  right_y = (z.tree.3.1, z.tree.3.2, z.tree.3.4, z.tree.3.3)

  right-IsTrail : IsTrail s x k
  unfolding IsTree
  right-IsTrail = subst (λ p. IsTrail s p k) z.tree.0 z.trail

  -- Where a node of the five parts is, and where it is not.
  right_apart :
      (q : ℕ)
      → (in_tree q a ≡ true
          → (q ≢ x)
            × (q ≢ y)
            × (in_tree q b ≡ false)
            × (in_tree q e ≡ false)
            × (in_trail q k ≡ false))
        × (in_tree q b ≡ true
            → (q ≢ x)
              × (q ≢ y)
              × (in_tree q a ≡ false)
              × (in_tree q e ≡ false)
              × (in_trail q k ≡ false))
        × (in_tree q e ≡ true
            → (q ≢ x)
              × (q ≢ y)
              × (in_tree q a ≡ false)
              × (in_tree q b ≡ false)
              × (in_trail q k ≡ false))
        × (in_trail q k ≡ true → (q ≢ x) × (q ≢ y))
        × (x ≢ y)
  unfolding in_tree Apart
  right_apart q = ground (
    arith,
    z.apart.0,
    z.apart.1,
    z.apart.2 q,
    z.apart.2 y,
    z.apart.3.0,
    z.apart.3.1,
    z.apart.3.2 q,
    z.outside q,
    z.outside x,
    z.outside y,
  )

  right_root :
      (s.right y ≢ 0 → in_tree (s.right y) b ≡ true) × (up k ≢ 0 → in_trail (up k) k ≡ true)
  right_root = (
    (λ n. elim (root-in_tree s (s.right y) y b right_y.2) [ inl z ↦ absurd (n z) | inr i ↦ i ]),
    (λ n. elim (up-in_trail k) [ inl z ↦ absurd (n z) | inr i ↦ i ]),
  )

  right_same :
      (q : ℕ)
      → q ≢ x
      → q ≢ y
      → (s.right y ≢ 0 → q ≢ s.right y)
      → (up k ≢ 0 → q ≢ up k)
      → SameAt s right_store q
  right_same q nx ny nc np = record {
    same_pcolor = ground (arith, nc);
    same_left = ground (arith, np);
    same_right = ground (arith, np);
  }

  right_same_a : (q : ℕ) → in_tree q a ≡ true → SameAt s right_store q
  right_same_a q i =
      let h = (right_apart q).0 i in
      right_same q h.0 h.1 (differ q (s.right y) b h.2 right_root.0)
        (differ_trail q (up k) k h.4 right_root.1)

  right_same_e : (q : ℕ) → in_tree q e ≡ true → SameAt s right_store q
  right_same_e q i =
      let h = (right_apart q).2 i in
      right_same q h.0 h.1 (differ q (s.right y) b h.3 right_root.0)
        (differ_trail q (up k) k h.4 right_root.1)

  right_same_b : (q : ℕ) → in_tree q b ≡ true → q ≢ s.right y → SameAt s right_store q
  right_same_b q i n =
      let h = (right_apart q).1 i in
      right_same q h.0 h.1 (λ _. n) (differ_trail q (up k) k h.4 right_root.1)

  right_same_k : (q : ℕ) → in_trail q k ≡ true → q ≢ up k → SameAt s right_store q
  right_same_k q i n =
      let h = (right_apart q).3 i in
      right_same q h.0 h.1
        (λ m e. ground (arith, ((right_apart (s.right y)).1 (right_root.0 m)).4, i, e)) (λ _. n)

  right_child_b :
      s.right y ≢ 0
      → (right_store.left (s.right y) ≡ s.left (s.right y))
        × (right_store.right (s.right y) ≡ s.right (s.right y))
        × (right_store.pcolor (s.right y) ≡ x + s.pcolor (s.right y) % 2)
  right_child_b n =
      let h = (right_apart (s.right y)).1 (right_root.0 n) in
      let m = differ_trail (s.right y) (up k) k h.4 right_root.1 in
      (ground (arith, h.0, h.1, m), ground (arith, h.0, h.1, m), ground (arith, h.0, h.1, m))

  right-Relinked : Relinked s right_store y k
  unfolding in_tree
  right-Relinked =
      right_rotated-Relinked s x y (s.right y) k right_x.0.nonnull (ground (arith, z.outside x))
        (ground (arith, z.outside y)) (λ m. ((right_apart (s.right y)).1 (right_root.0 m)).4)
        right-IsTrail

  right_fields :
      (right_store.pcolor x ≡ y + bit c)
      × (right_store.right x ≡ s.right x)
      × (right_store.left x ≡ s.right y)
  unfolding in_tree
  right_fields =
      let col = color_of (s.pcolor x) (up k) c (up_even s x k right-IsTrail) right_x.1 in
      let ne = ((right_apart x).4) in
      let nu = not_up x k (z.outside x (ground arith)) in
      (ground (arith, col, ne), ground (arith, ne, nu), ground (arith, ne, nu))

  right_fields_y :
      (right_store.pcolor y ≡ up k + bit d)
      × (right_store.right y ≡ x)
      × (right_store.left y ≡ s.left y)
  unfolding in_tree
  right_fields_y =
      let col = color_of (s.pcolor y) x d right_x.0.even right_y.1 in
      let ne = ((right_apart x).4) in
      let nu = not_up y k (z.outside y (ground arith)) in
      (ground (arith, col, ne), ground (arith, ne, nu), ground (arith, ne, nu))

  right-IsTree_x : IsTree right_store x y (node b x c e)
  unfolding IsTree Apart
  right-IsTree_x = (
    refl,
    right_x.0,
    right_fields.0,
    subst (λ p. IsTree right_store p x b) (sym right_fields.2)
        (IsTree-reparent s right_store (s.right y) y x b right_y.0.even right_child_b right_same_b
          z.apart.3.4 right_y.2),
    subst (λ p. IsTree right_store p x e) (sym right_fields.1)
        (IsTree-frame s right_store (s.right x) x e right_same_e right_x.2),
  )

  right_rotated-Zip : Zip right_store (node a y d (node b x c e)) k
  unfolding IsTree in_tree Apart
  right_rotated-Zip = record {
    place = y;
    tree = (
      refl,
      right_y.0,
      right_fields_y.0,
      subst (λ p. IsTree right_store p y a) (sym right_fields_y.2)
          (IsTree-frame s right_store (s.left y) y a right_same_a right_y.3),
      subst (λ p. IsTree right_store p y (node b x c e)) (sym right_fields_y.1) right-IsTree_x,
    );
    trail =
        IsTrail-relink s right_store x y k right-Relinked right_same_k z.apart_trail right-IsTrail;
    apart = (
      z.apart.3.0,
      ground (arith, z.apart.3.1, z.apart.2 y, (right_apart x).4),
      λ q i. ground (arith, z.apart.3.2 q, z.apart.2 q, z.apart.0),
      z.apart.3.3,
      (
        ground (arith, z.apart.0),
        z.apart.1,
        λ q i. ground (arith, z.apart.2 q),
        z.apart.3.4,
        z.apart.4,
      ),
    );
    apart_trail = z.apart_trail;
    outside = λ q i. ground (arith, z.outside q);
  }

  -- `m_rbt_rotate_right` at the end of any trail ends without a fault; the store then holds the tree
  -- with the subtree rotated to the right, every node with its colour, and the same tree around it.
  pub rbt_rotate_right-Zip :
      Returns (rbt_rotate_right x s) (λ _ u. Zip u (node a y d (node b x c e)) k)
  unfolding in_tree Apart
  rbt_rotate_right-Zip = (
    tt,
    right_store,
    rotate_right_effect s x y (s.right y) (up k) c right_x.0.nonnull right_y.0.nonnull
        (right_apart x).4
        (not_left s x (s.right y) y b right_x.0.nonnull (ground (arith, z.apart.0)) right_y.2)
        (not_left s y (s.right y) y b right_y.0.nonnull z.apart.3.1 right_y.2)
        (λ q. not_up x k (z.outside x (ground arith)) (λ n. right_x.0.nonnull (sym q ∙ n)) q)
        right_x.0.even right_y.0.even (up_even s x k right-IsTrail) right_x.3 refl right_x.1,
    right_rotated-Zip,
  )
