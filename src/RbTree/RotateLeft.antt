-- ===== src/RbTree/RotateLeft.antt =====
-- `m_rbt_rotate_left` keeps the tree in memory and its order.
use ming.RbTree.Frames.{
  differ_trail, differ, not_left, not_up, up_even, IsTree-reparent, color_of, IsTrail-relink,
  Relinked, up-in_trail, root-in_tree,
}
use ming.RbTree.Shape.{
  IsTree-frame, SameAt, in_trail, Apart, IsTrail, IsAddress, up, in_tree, IsTree, node, Zip, Trail,
  Tree, bit,
}
use ming.RbTree.Update.{rbt_rotate_left}
use ming.RbTree.{RbTree}
use ming.Base.{
  Returns, ◌∙◌, sym, refl, inr, inl, subst, true, false, arith, ◌≡◌, ◌≢◌, Bool, ◌%◌, ◌+◌, ℕ,
}
use ming.RbTree.RotatedLeft.{left_rotated, rotate_left_effect, left_rotated-Relinked}

module _ (s : RbTree) (a : Tree) (x : ℕ) (c : Bool) (b : Tree) (y : ℕ) (d : Bool) (e : Tree)
    (k : Trail) (z : Zip s (node a x c (node b y d e)) k) where
  abbrev left_store : RbTree
  left_store = left_rotated s x y (s.left y) (up k)

  left_x : IsAddress x × (s.pcolor x ≡ up k + bit c) × IsTree s (s.left x) x a × (s.right x ≡ y)
  unfolding IsTree
  left_x = (z.tree.1, z.tree.2, z.tree.3, z.tree.4.0)

  left_y :
      IsAddress y × (s.pcolor y ≡ x + bit d) × IsTree s (s.left y) y b × IsTree s (s.right y) y e
  unfolding IsTree
  left_y = (z.tree.4.1, z.tree.4.2, z.tree.4.3, z.tree.4.4)

  left-IsTrail : IsTrail s x k
  unfolding IsTree
  left-IsTrail = subst (λ p. IsTrail s p k) z.tree.0 z.trail

  -- Where a node of the five parts is, and where it is not.
  left_apart :
      (q : ℕ)
      → (in_tree q a ≡ true
          → (q ≢ x)
            × (q ≢ y)
            × (in_tree q b ≡ false)
            × (in_tree q e ≡ false)
            × (in_trail q k ≡ false))
        × (in_tree q b ≡ true
            → (q ≢ x)
              × (q ≢ y)
              × (in_tree q a ≡ false)
              × (in_tree q e ≡ false)
              × (in_trail q k ≡ false))
        × (in_tree q e ≡ true
            → (q ≢ x)
              × (q ≢ y)
              × (in_tree q a ≡ false)
              × (in_tree q b ≡ false)
              × (in_trail q k ≡ false))
        × (in_trail q k ≡ true → (q ≢ x) × (q ≢ y))
        × (x ≢ y)
  unfolding in_tree Apart
  left_apart q = ground (
    arith,
    z.apart.0,
    z.apart.1,
    z.apart.2 q,
    z.apart.2 y,
    z.apart.4.0,
    z.apart.4.1,
    z.apart.4.2 q,
    z.outside q,
    z.outside x,
    z.outside y,
  )

  left_root : (s.left y ≢ 0 → in_tree (s.left y) b ≡ true) × (up k ≢ 0 → in_trail (up k) k ≡ true)
  left_root = (
    (λ n. elim (root-in_tree s (s.left y) y b left_y.2) [ inl z ↦ absurd (n z) | inr i ↦ i ]),
    (λ n. elim (up-in_trail k) [ inl z ↦ absurd (n z) | inr i ↦ i ]),
  )

  left_same :
      (q : ℕ)
      → q ≢ x
      → q ≢ y
      → (s.left y ≢ 0 → q ≢ s.left y)
      → (up k ≢ 0 → q ≢ up k)
      → SameAt s left_store q
  left_same q nx ny nc np = record {
    same_pcolor = ground (arith, nc);
    same_left = ground (arith, np);
    same_right = ground (arith, np);
  }

  left_same_a : (q : ℕ) → in_tree q a ≡ true → SameAt s left_store q
  left_same_a q i =
      let h = (left_apart q).0 i in
      left_same q h.0 h.1 (differ q (s.left y) b h.2 left_root.0)
        (differ_trail q (up k) k h.4 left_root.1)

  left_same_e : (q : ℕ) → in_tree q e ≡ true → SameAt s left_store q
  left_same_e q i =
      let h = (left_apart q).2 i in
      left_same q h.0 h.1 (differ q (s.left y) b h.3 left_root.0)
        (differ_trail q (up k) k h.4 left_root.1)

  left_same_b : (q : ℕ) → in_tree q b ≡ true → q ≢ s.left y → SameAt s left_store q
  left_same_b q i n =
      let h = (left_apart q).1 i in
      left_same q h.0 h.1 (λ _. n) (differ_trail q (up k) k h.4 left_root.1)

  left_same_k : (q : ℕ) → in_trail q k ≡ true → q ≢ up k → SameAt s left_store q
  left_same_k q i n =
      let h = (left_apart q).3 i in
      left_same q h.0 h.1
        (λ m e. ground (arith, ((left_apart (s.left y)).1 (left_root.0 m)).4, i, e)) (λ _. n)

  left_child_b :
      s.left y ≢ 0
      → (left_store.left (s.left y) ≡ s.left (s.left y))
        × (left_store.right (s.left y) ≡ s.right (s.left y))
        × (left_store.pcolor (s.left y) ≡ x + s.pcolor (s.left y) % 2)
  left_child_b n =
      let h = (left_apart (s.left y)).1 (left_root.0 n) in
      let m = differ_trail (s.left y) (up k) k h.4 left_root.1 in
      (ground (arith, h.0, h.1, m), ground (arith, h.0, h.1, m), ground (arith, h.0, h.1, m))

  left-Relinked : Relinked s left_store y k
  unfolding in_tree
  left-Relinked =
      left_rotated-Relinked s x y (s.left y) k left_x.0.nonnull (ground (arith, z.outside x))
        (ground (arith, z.outside y)) (λ m. ((left_apart (s.left y)).1 (left_root.0 m)).4)
        left-IsTrail

  left_fields :
      (left_store.pcolor x ≡ y + bit c)
      × (left_store.left x ≡ s.left x)
      × (left_store.right x ≡ s.left y)
  unfolding in_tree
  left_fields =
      let col = color_of (s.pcolor x) (up k) c (up_even s x k left-IsTrail) left_x.1 in
      let ne = ((left_apart x).4) in
      let nu = not_up x k (z.outside x (ground arith)) in
      (ground (arith, col, ne), ground (arith, ne, nu), ground (arith, ne, nu))

  left_fields_y :
      (left_store.pcolor y ≡ up k + bit d)
      × (left_store.left y ≡ x)
      × (left_store.right y ≡ s.right y)
  unfolding in_tree
  left_fields_y =
      let col = color_of (s.pcolor y) x d left_x.0.even left_y.1 in
      let ne = ((left_apart x).4) in
      let nu = not_up y k (z.outside y (ground arith)) in
      (ground (arith, col, ne), ground (arith, ne, nu), ground (arith, ne, nu))

  left-IsTree_x : IsTree left_store x y (node a x c b)
  unfolding IsTree Apart
  left-IsTree_x = (
    refl,
    left_x.0,
    left_fields.0,
    subst (λ p. IsTree left_store p x a) (sym left_fields.1)
        (IsTree-frame s left_store (s.left x) x a left_same_a left_x.2),
    subst (λ p. IsTree left_store p x b) (sym left_fields.2)
        (IsTree-reparent s left_store (s.left y) y x b left_y.0.even left_child_b left_same_b
          z.apart.4.3 left_y.2),
  )

  left_rotated-Zip : Zip left_store (node (node a x c b) y d e) k
  unfolding IsTree in_tree Apart
  left_rotated-Zip = record {
    place = y;
    tree = (
      refl,
      left_y.0,
      left_fields_y.0,
      subst (λ p. IsTree left_store p y (node a x c b)) (sym left_fields_y.1) left-IsTree_x,
      subst (λ p. IsTree left_store p y e) (sym left_fields_y.2)
          (IsTree-frame s left_store (s.right y) y e left_same_e left_y.3),
    );
    trail = IsTrail-relink s left_store x y k left-Relinked left_same_k z.apart_trail left-IsTrail;
    apart = (
      ground (arith, z.apart.4.0, z.apart.2 y, (left_apart x).4),
      z.apart.4.1,
      λ q i. ground (arith, z.apart.4.2 q, z.apart.2 q, z.apart.1),
      (
        z.apart.0,
        ground (arith, z.apart.1),
        λ q i. ground (arith, z.apart.2 q),
        z.apart.3,
        z.apart.4.3,
      ),
      z.apart.4.4,
    );
    apart_trail = z.apart_trail;
    outside = λ q i. ground (arith, z.outside q);
  }

  -- `m_rbt_rotate_left` at the end of any trail ends without a fault; the store then holds the tree
  -- with the subtree rotated to the left, every node with its colour, and the same tree around it.
  pub rbt_rotate_left-Zip :
      Returns (rbt_rotate_left x s) (λ _ u. Zip u (node (node a x c b) y d e) k)
  unfolding in_tree Apart
  rbt_rotate_left-Zip = (
    tt,
    left_store,
    rotate_left_effect s x y (s.left y) (up k) c left_x.0.nonnull left_y.0.nonnull (left_apart x).4
        (not_left s x (s.left y) y b left_x.0.nonnull (ground (arith, z.apart.1)) left_y.2)
        (not_left s y (s.left y) y b left_y.0.nonnull z.apart.4.0 left_y.2)
        (λ q. not_up y k (z.outside y (ground arith)) (λ n. left_y.0.nonnull (sym q ∙ n)) q)
        left_x.0.even left_y.0.even (up_even s x k left-IsTrail) left_x.3 refl left_x.1,
    left_rotated-Zip,
  )
