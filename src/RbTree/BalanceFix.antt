-- ===== src/RbTree/BalanceFix.antt =====
-- `insert_fix` makes a red-black tree.
use ming.RbTree.Access.{tree_black}
use ming.RbTree.BalanceSteps.{
  blacken_red, recolored, red_node, rotated_pair, black_node, red_children, around, plug-IsRedBlack,
  RedAt,
}
use ming.RbTree.Shape.{top, right_child, left_child, node, Tree, Trail}
use ming.RbTree.Balance.{IsRedBlack, BalancedTrail, NoRedTrail, Balanced, NoRedPair}
use ming.RbTree.Fix.{
  on_left, on_right, blacken, blacken, red_root, on_right, on_left, Rooted-under, insert_fix,
}
use ming.Base.{refl, inr, inl, Bool-cases, arith, ◌+◌, false, true, ℕ}

pub insert_fix-IsRedBlack :
    (k : Trail) (l : Tree) (n : ℕ) (r : Tree) (h top_h : ℕ)
    → RedAt (node l n false r) h top_h k
    → IsRedBlack (insert_fix (node l n false r) k)
unfolding insert_fix NoRedPair Balanced NoRedTrail BalancedTrail
insert_fix-IsRedBlack top l n r h top_h (nt, bt, rk, nk, bk) = record {
  black_root = refl;
  no_red_pair = (λ f. cc, nt.1, nt.2);
  height = h + 1;
  balanced = (bt.0, ground (arith, bt.1), bt.2, bt.3);
}
insert_fix-IsRedBlack (left_child p true w k) l n r h top_h (nt, bt, rk, nk, bk) =
    plug-IsRedBlack k (node (node l n false r) p true w) (h + 1) top_h refl (λ f. cc, nt, nk.1)
      (h, refl, bt, bk.0) (Rooted-under on_left p true w k rk) nk.2 bk.1
insert_fix-IsRedBlack (right_child w p true k) l n r h top_h (nt, bt, rk, nk, bk) =
    plug-IsRedBlack k (node w p true (node l n false r)) (h + 1) top_h refl (λ f. cc, nk.1, nt)
      (h, refl, bk.0, bt) (Rooted-under on_right p true w k rk) nk.2 bk.1
insert_fix-IsRedBlack (left_child p false w top) l n r h top_h (nt, bt, rk, nk, bk) =
    absurd (red_root on_left p w rk)
insert_fix-IsRedBlack (right_child w p false top) l n r h top_h (nt, bt, rk, nk, bk) =
    absurd (red_root on_right p w rk)
insert_fix-IsRedBlack (left_child p false w (left_child g d u k)) l n r h top_h red =
    let t = node l n false r in
    let facts = around on_left on_left t p w g d u k h top_h red in
    let nt = red.0 in
    let bt = red.1 in
    let cw = facts.0 in
    let nw = facts.1 in
    let bw = facts.2 in
    let nu = facts.3 in
    let bu = facts.4 in
    let (cl, cr, nl, nr, bl, br) = red_children l n r h nt bt in
    let (n1, b1) = black_node t p w h nt nw bt bw in
    elim (Bool-cases (tree_black u)) [
      | inl b ↦
          rw (b, insert_fix)
            (rotated_pair (t) p (node w g false u) k w u h top_h facts ((nt, bt))
              (red_node w g u h cw b nw nu bw bu))
      | inr b ↦
          rw (b, insert_fix)
            (insert_fix-IsRedBlack k (node t p true w) g (blacken u) (h + 1) top_h (
              recolored (node t p true w) g (blacken u) k w u h top_h facts ((refl, n1, b1))
                (blacken_red u h b nu bu)))
    ]
insert_fix-IsRedBlack (right_child w p false (left_child g d u k)) l n r h top_h red =
    let t = node l n false r in
    let facts = around on_right on_left t p w g d u k h top_h red in
    let nt = red.0 in
    let bt = red.1 in
    let cw = facts.0 in
    let nw = facts.1 in
    let bw = facts.2 in
    let nu = facts.3 in
    let bu = facts.4 in
    let (cl, cr, nl, nr, bl, br) = red_children l n r h nt bt in
    let (n1, b1) = black_node w p t h nw nt bw bt in
    elim (Bool-cases (tree_black u)) [
      | inl b ↦
          rw (b, insert_fix)
            (rotated_pair (node w p false l) n (node r g false u) k w u h top_h facts
              (red_node w p l h cw cl nw nl bw bl) (red_node r g u h cr b nr nu br bu))
      | inr b ↦
          rw (b, insert_fix)
            (insert_fix-IsRedBlack k (node w p true t) g (blacken u) (h + 1) top_h (
              recolored (node w p true t) g (blacken u) k w u h top_h facts ((refl, n1, b1))
                (blacken_red u h b nu bu)))
    ]
insert_fix-IsRedBlack (left_child p false w (right_child u g d k)) l n r h top_h red =
    let t = node l n false r in
    let facts = around on_left on_right t p w g d u k h top_h red in
    let nt = red.0 in
    let bt = red.1 in
    let cw = facts.0 in
    let nw = facts.1 in
    let bw = facts.2 in
    let nu = facts.3 in
    let bu = facts.4 in
    let (cl, cr, nl, nr, bl, br) = red_children l n r h nt bt in
    let (n1, b1) = black_node t p w h nt nw bt bw in
    elim (Bool-cases (tree_black u)) [
      | inl b ↦
          rw (b, insert_fix)
            (rotated_pair (node u g false l) n (node r p false w) k w u h top_h facts
              (red_node u g l h b cl nu nl bu bl) (red_node r p w h cr cw nr nw br bw))
      | inr b ↦
          rw (b, insert_fix)
            (insert_fix-IsRedBlack k (blacken u) g (node t p true w) (h + 1) top_h (
              recolored (blacken u) g (node t p true w) k w u h top_h facts
                (blacken_red u h b nu bu) ((refl, n1, b1))))
    ]
insert_fix-IsRedBlack (right_child w p false (right_child u g d k)) l n r h top_h red =
    let t = node l n false r in
    let facts = around on_right on_right t p w g d u k h top_h red in
    let nt = red.0 in
    let bt = red.1 in
    let cw = facts.0 in
    let nw = facts.1 in
    let bw = facts.2 in
    let nu = facts.3 in
    let bu = facts.4 in
    let (cl, cr, nl, nr, bl, br) = red_children l n r h nt bt in
    let (n1, b1) = black_node w p t h nw nt bw bt in
    elim (Bool-cases (tree_black u)) [
      | inl b ↦
          rw (b, insert_fix)
            (rotated_pair (node u g false w) p (t) k w u h top_h facts
              (red_node u g w h b cw nu nw bu bw) ((nt, bt)))
      | inr b ↦
          rw (b, insert_fix)
            (insert_fix-IsRedBlack k (blacken u) g (node w p true t) (h + 1) top_h (
              recolored (blacken u) g (node w p true t) k w u h top_h facts
                (blacken_red u h b nu bu) ((refl, n1, b1))))
    ]
