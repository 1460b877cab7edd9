-- ===== src/RbTree/InsertLoop.antt =====
-- The loop of `m_rbt_insert`, and the whole operation, do to the tree in memory what `insert_fix`
-- says.
use ming.RbTree.InsertCases.{red_round}
use ming.RbTree.InsertRotate.{outer_right, inner_right, inner_left, carried, outer_left}
use ming.RbTree.Sides.{join_nonnull, join-color, up-onto, up_side}
use ming.RbTree.Access.{
  painted-Zip, root-IsAddress, tree_black, rbt_set_color-effect, rbt_parent-Zip, painted, plug-Zip,
}
use ming.RbTree.Update.{insert_rebalance}
use ming.RbTree.Shape.{top, plug, node, right_child, Zip, Tree, left_child, Trail}
use ming.RbTree.Fix.{
  red_root, Rooted-under, Rooted, depth, blacken, on_right, on_left, onto, insert_fix, Side,
}
use ming.RbTree.{RbTree}
use ming.Base.{
  inr, ap, inl, ◌∙◌, Bool-cases, arith, ◌<◌, some, zero, suc, false, Returns, true, Option, ℕ,
}

plugged :
    {m : Option (Unit {0} × RbTree)} (t : Tree) (k : Trail)
    → Returns m (λ _ v. Zip v t k)
    → Returns m (λ _ v. Zip v (plug k t) top)
plugged t k r = (r.0, r.1, r.2, plug-Zip r.1 t k r.3)

black_parent :
    (i : Side) (s : RbTree) (l : Tree) (n : ℕ) (r : Tree) (p : ℕ) (w : Tree) (k : Trail) (fuel : ℕ)
    → Zip s (node l n false r) (onto i p true w k)
    → Returns
        (insert_rebalance (suc fuel) n s)
        (λ _ v. Zip v (plug (onto i p true w k) (node l n false r)) top)
unfolding insert_rebalance
black_parent i s l n r p w k fuel z =
    let zp = up_side i s (node l n false r) p true w k z in
    (
      tt,
      s,
      ground (
        arith,
        rbt_parent-Zip s l n false r (onto i p true w k) z
            ∙ ap (λ a. some (a, s)) (up-onto i p true w k),
        join-color i s (node l n false r) p true w k zp,
        join_nonnull i s (node l n false r) p true w k zp,
      ),
      plug-Zip s (node l n false r) (onto i p true w k) z,
    )

no_parent :
    (s : RbTree) (l : Tree) (n : ℕ) (r : Tree) (fuel : ℕ)
    → Zip s (node l n false r) top
    → Returns (insert_rebalance (suc fuel) n s) (λ _ v. Zip v (node l n true r) top)
unfolding insert_rebalance
no_parent s l n r fuel z = (
  tt,
  painted s n true,
  ground (
    arith,
    rbt_parent-Zip s l n false r top z,
    rbt_set_color-effect s n true (root-IsAddress s l n false r top z).nonnull,
  ),
  painted-Zip s l n false true r top z,
)

-- The loop of `m_rbt_insert`, started at a red node in a tree with a black root, ends without a
-- fault and leaves the tree that `insert_fix` says, if the fuel is more than the depth of the node.
pub insert_rebalance-Zip :
    (k : Trail) (fuel : ℕ) (s : RbTree) (l : Tree) (n : ℕ) (r : Tree)
    → Zip s (node l n false r) k
    → Rooted k
    → depth k < fuel
    → Returns (insert_rebalance fuel n s) (λ _ v. Zip v (insert_fix (node l n false r) k) top)
unfolding depth insert_fix
insert_rebalance-Zip k zero s l n r z h f = absurd (omega arith)
insert_rebalance-Zip top (suc fuel) s l n r z h f = no_parent s l n r fuel z
insert_rebalance-Zip (left_child p true w k) (suc fuel) s l n r z h f =
    black_parent on_left s l n r p w k fuel z
insert_rebalance-Zip (right_child w p true k) (suc fuel) s l n r z h f =
    black_parent on_right s l n r p w k fuel z
insert_rebalance-Zip (left_child p false w top) (suc fuel) s l n r z h f =
    absurd (red_root on_left p w h)
insert_rebalance-Zip (right_child w p false top) (suc fuel) s l n r z h f =
    absurd (red_root on_right p w h)
insert_rebalance-Zip (left_child p false w (left_child g d u k)) (suc fuel) s l n r z h f =
    let t = node l n false r in
    elim (Bool-cases (tree_black u)) [
      | inl b ↦
          rw (b, insert_fix)
            (plugged (node t p true (node w g false u)) k (outer_left s l n r p w g d u k fuel b z))
      | inr b ↦
          let round = red_round on_left on_left s l n r p w g d u k fuel z b in
          let below =
            Rooted-under on_left g d u k (Rooted-under on_left p false w (left_child g d u k) h) in
          rw (b, insert_fix)
            (carried round.1 (
              insert_rebalance-Zip k fuel round.0 (node t p true w) g (blacken u) round.2 below
                (omega (arith, f))))
    ]
insert_rebalance-Zip (right_child w p false (left_child g d u k)) (suc fuel) s l n r z h f =
    let t = node l n false r in
    elim (Bool-cases (tree_black u)) [
      | inl b ↦
          rw (b, insert_fix)
            (plugged (node (node w p false l) n true (node r g false u)) k
              (inner_left s l n r p w g d u k fuel b z))
      | inr b ↦
          let round = red_round on_right on_left s l n r p w g d u k fuel z b in
          let below =
            Rooted-under on_left g d u k (Rooted-under on_right p false w (left_child g d u k) h) in
          rw (b, insert_fix)
            (carried round.1 (
              insert_rebalance-Zip k fuel round.0 (node w p true t) g (blacken u) round.2 below
                (omega (arith, f))))
    ]
insert_rebalance-Zip (left_child p false w (right_child u g d k)) (suc fuel) s l n r z h f =
    let t = node l n false r in
    elim (Bool-cases (tree_black u)) [
      | inl b ↦
          rw (b, insert_fix)
            (plugged (node (node u g false l) n true (node r p false w)) k
              (inner_right s l n r p w g d u k fuel b z))
      | inr b ↦
          let round = red_round on_left on_right s l n r p w g d u k fuel z b in
          let below =
            Rooted-under on_right g d u k
              (Rooted-under on_left p false w (right_child u g d k) h) in
          rw (b, insert_fix)
            (carried round.1 (
              insert_rebalance-Zip k fuel round.0 (blacken u) g (node t p true w) round.2 below
                (omega (arith, f))))
    ]
insert_rebalance-Zip (right_child w p false (right_child u g d k)) (suc fuel) s l n r z h f =
    let t = node l n false r in
    elim (Bool-cases (tree_black u)) [
      | inl b ↦
          rw (b, insert_fix)
            (plugged (node (node u g false w) p true t) k
              (outer_right s l n r p w g d u k fuel b z))
      | inr b ↦
          let round = red_round on_right on_right s l n r p w g d u k fuel z b in
          let below =
            Rooted-under on_right g d u k
              (Rooted-under on_right p false w (right_child u g d k) h) in
          rw (b, insert_fix)
            (carried round.1 (
              insert_rebalance-Zip k fuel round.0 (blacken u) g (node w p true t) round.2 below
                (omega (arith, f))))
    ]
