-- ===== src/RbTree/InsertNode.antt =====
-- `m_rbt_insert` on a red-black tree.
use mathlib.Core.List.{append_assoc, append-nil}
use ming.RbTree.Order.{insert_fix-order, addresses-plug}
use ming.RbTree.InsertRotate.{carried}
use ming.RbTree.InsertLoop.{insert_rebalance-Zip}
use ming.RbTree.BalanceFix.{insert_fix-IsRedBlack}
use ming.RbTree.BalanceSteps.{Rooted-unplug}
use ming.RbTree.Fix.{insert_fix, depth}
use ming.RbTree.Balance.{Balanced-unplug, NoRedPair-unplug, IsRedBlack, Balanced, NoRedPair}
use ming.RbTree.Frames.{up_even, not_up, Relinked, IsTrail-relink}
use ming.RbTree.Update.{insert_rebalance, rbt_insert}
use ming.RbTree.Shape.{
  after, before, Tree, plug, SameAt, addresses, up, node, IsTrail, IsAddress, leaf, top,
  right_child, Zip, Apart, left_child, in_trail, in_tree, IsTree, Trail,
}
use ming.RbTree.{
  set_pcolor, rbt_set_parent_color, right_of, left_of, set_root, store, root_of_tree, set_right,
  set_left, Place, RbTree,
}
use ming.Base.{
  ap, ◌++◌, Bool, ◌∷◌, Returns, ◌<◌, sym, ◌∙◌, subst, ◌+◌, refl, ◌%◌, arith, ◌≢◌, ◌≡◌, false, [],
  update, ℕ,
}

-- What `m_rbt_lookup_insert` stores through `pos` at the end of a trail.
abbrev pub place_of : Trail → Place
place_of top = root_of_tree
place_of (left_child a c r k) = left_of a
place_of (right_child l a c k) = right_of a

-- The store when the loop of `m_rbt_insert` begins.
abbrev pub linked : RbTree → ℕ → Trail → RbTree
linked s n top = record {
  root = n;
  pcolor = update s.pcolor n 0;
  left = update s.left n 0;
  right = update s.right n 0;
}
linked s n (left_child a c r k) = record {
  root = s.root;
  pcolor = update s.pcolor n a;
  left = update (update s.left n 0) a n;
  right = update s.right n 0;
}
linked s n (right_child l a c k) = record {
  root = s.root;
  pcolor = update s.pcolor n a;
  left = update s.left n 0;
  right = update (update s.right n 0) a n;
}

linked-effect :
    (k : Trail) (fuel : ℕ) (s : RbTree) (n : ℕ)
    → n ≢ 0
    → (up k ≢ 0 → up k ≢ n)
    → up k % 2 ≡ 0
    → IsTrail s 0 k
    → rbt_insert fuel (up k) (place_of k) n s ≡ insert_rebalance fuel n (linked s n k)
unfolding rbt_insert set_left set_right store set_root rbt_set_parent_color set_pcolor IsTrail
linked-effect top fuel s n nn a e t = ground arith
linked-effect (left_child a c r k) fuel s n nn h e t =
    let na = t.0.nonnull in let d = h na in ground arith
linked-effect (right_child l a c k) fuel s n nn h e t =
    let na = t.0.nonnull in let d = h na in ground arith

linked_left :
    (s : RbTree) (n a : ℕ) (c : Bool) (r : Tree) (k : Trail)
    → a ≢ n
    → Relinked s (linked s n (left_child a c r k)) n (left_child a c r k)
linked_left s n a c r k d = (refl, ground arith, ground arith, ground arith)

linked_right :
    (s : RbTree) (n a : ℕ) (c : Bool) (l : Tree) (k : Trail)
    → a ≢ n
    → Relinked s (linked s n (right_child l a c k)) n (right_child l a c k)
linked_right s n a c l k d = (refl, ground arith, ground arith, ground arith)

linked-Relinked :
    (k : Trail) (s : RbTree) (n : ℕ)
    → (up k ≢ 0 → up k ≢ n)
    → IsTrail s 0 k
    → Relinked s (linked s n k) n k
unfolding IsTrail
linked-Relinked top s n h t = refl
linked-Relinked (left_child a c r k) s n h t = linked_left s n a c r k (h t.0.nonnull)
linked-Relinked (right_child l a c k) s n h t = linked_right s n a c l k (h t.0.nonnull)

linked-SameAt : (k : Trail) (s : RbTree) (n b : ℕ) → b ≢ n → b ≢ up k → SameAt s (linked s n k) b
linked-SameAt top s n b d e = record {
  same_pcolor = ground arith;
  same_left = ground arith;
  same_right = ground arith;
}
linked-SameAt (left_child a c r k) s n b d e = record {
  same_pcolor = ground arith;
  same_left = ground arith;
  same_right = ground arith;
}
linked-SameAt (right_child l a c k) s n b d e = record {
  same_pcolor = ground arith;
  same_left = ground arith;
  same_right = ground arith;
}

-- The new node is red and has no children.
linked_node :
    (k : Trail) (s : RbTree) (n : ℕ)
    → n ≢ up k
    → let u = linked s n k in (u.pcolor n ≡ up k + 0) × (u.left n ≡ 0) × (u.right n ≡ 0)
linked_node top s n d = (ground arith, ground arith, ground arith)
linked_node (left_child a c r k) s n d = (ground arith, ground arith, ground arith)
linked_node (right_child l a c k) s n d = (ground arith, ground arith, ground arith)

pub linked-Zip :
    (k : Trail) (s : RbTree) (n : ℕ)
    → Zip s leaf k
    → IsAddress n
    → in_trail n k ≡ false
    → Zip (linked s n k) (node leaf n false leaf) k
unfolding IsTree in_tree Apart
linked-Zip k s n z ad i =
    let t = subst (λ p. IsTrail s p k) z.tree z.trail in
    let h = not_up n k i in
    let new = linked_node k s n (λ e. h (λ q. ad.nonnull (e ∙ q)) (sym e)) in
    record {
      place = n;
      tree = (refl, ad, new.0, new.1, new.2);
      trail =
          IsTrail-relink s (linked s n k) 0 n k (linked-Relinked k s n h t)
            (λ b m d. linked-SameAt k s n b (λ e. ground (arith, m, i, e)) d) z.apart_trail t;
      apart = (refl, refl, λ b m. cc, tt, tt);
      apart_trail = z.apart_trail;
      outside = λ b m. ground (arith, i, m);
    }

order_leaf : (k : Trail) → addresses (plug k leaf) ≡ before k ++ after k
unfolding addresses
order_leaf k = addresses-plug k leaf ∙ ap (λ x. x ++ after k) (append-nil (before k))

order_node :
    (k : Trail) (n : ℕ) → addresses (plug k (node leaf n false leaf)) ≡ before k ++ n ∷ after k
unfolding addresses
order_node k n =
    addresses-plug k (node leaf n false leaf) ∙ append_assoc (before k) (n ∷ []) (after k)

-- `m_rbt_insert` of a node that is not in the tree, at an empty place of a red-black tree, ends
-- without a fault if the fuel is more than the depth of the place. Memory then holds a red-black
-- tree of the old nodes and the new one, in the old order, with the new node at the place.
pub rbt_insert-IsRedBlack :
    (s : RbTree) (k : Trail) (n fuel : ℕ)
    → Zip s leaf k
    → IsRedBlack (plug k leaf)
    → IsAddress n
    → in_trail n k ≡ false
    → depth k < fuel
    → Returns (rbt_insert fuel (up k) (place_of k) n s) (λ _ u.
      (t : Tree) × Zip u t top
      × IsRedBlack t
      × (addresses (plug k leaf) ≡ before k ++ after k)
      × (addresses t ≡ before k ++ n ∷ after k))
unfolding addresses NoRedPair Balanced IsTree
rbt_insert-IsRedBlack s k n fuel z rb ad i f =
    let t = subst (λ p. IsTrail s p k) z.tree z.trail in
    let rk = Rooted-unplug k leaf rb.black_root in
    let new = node leaf n false leaf in
    let run =
      insert_rebalance-Zip k fuel (linked s n k) leaf n leaf (linked-Zip k s n z ad i) rk f in
    let (nl, nk, _) = NoRedPair-unplug k leaf rb.no_red_pair in
    let (h, bl, bk) = Balanced-unplug k leaf rb.height rb.balanced in
    carried (linked-effect k fuel s n ad.nonnull (not_up n k i) (up_even s 0 k t) t) (
      run.0,
      run.1,
      run.2,
      (
        insert_fix new k,
        run.3,
        insert_fix-IsRedBlack k leaf n leaf h rb.height
            ((λ _. (refl, refl), tt, tt), (h, omega arith, bl, bl), rk, nk, bk),
        order_leaf k,
        insert_fix-order k leaf n leaf ∙ order_node k n,
      ),
    )
