-- ===== src/RbTree/Shape.antt =====
-- Trees in memory: the tree that a pointer leads to, and the trail from the root down to a subtree.
use ming.RbTree.{RbTree}
use ming.Base.{
  ◌∙◌, ◌||◌, ◌+◌, arith, ◌%◌, ◌==◌, ◌∷◌, ◌++◌, ◌≢◌, false, [], ◌≡◌, true, Bool, ℕ, List,
}

-- A node has its address and whether it is black.
pub data Tree : Type 0 where
  leaf : Tree
  node : (l : Tree) (a : ℕ) (c : Bool) (r : Tree) → Tree

-- The way from the root to a subtree, from its end: the subtree is the left child of a node with
-- this right child, or the other way round.
pub data Trail : Type 0 where
  top : Trail
  left_child : (a : ℕ) (c : Bool) (r : Tree) (k : Trail) → Trail
  right_child : (l : Tree) (a : ℕ) (c : Bool) (k : Trail) → Trail

abbrev pub bit : Bool → ℕ
bit true = 1
bit false = 0

unfoldable pub addresses : Tree → List ℕ
addresses leaf = []
addresses (node l a c r) = addresses l ++ a ∷ addresses r

-- The parent of the subtree, 0 for the root.
abbrev pub up : Trail → ℕ
up top = 0
up (left_child a c r k) = a
up (right_child l a c k) = a

-- The addresses that come before and after the subtree in order.
unfoldable pub before : Trail → List ℕ
unfolding addresses
before top = []
before (left_child a c r k) = before k
before (right_child l a c k) = before k ++ addresses l ++ a ∷ []

unfoldable pub after : Trail → List ℕ
unfolding addresses
after top = []
after (left_child a c r k) = a ∷ addresses r ++ after k
after (right_child l a c k) = after k

unfoldable pub plug : Trail → Tree → Tree
plug top t = t
plug (left_child a c r k) t = plug k (node t a c r)
plug (right_child l a c k) t = plug k (node l a c t)

-- A place for a node: aligned, so that the lowest bit is free for the colour.
pub record IsAddress (a : ℕ) : Type 0 where
  pub nonnull : a ≢ 0
  pub even : a % 2 ≡ 0

-- `p` leads to the tree `t`, whose parent is `q`.
unfoldable pub IsTree : RbTree → ℕ → ℕ → Tree → Type 0
IsTree s p q leaf = p ≡ 0
IsTree s p q (node l a c r) =
    (p ≡ a)
    × IsAddress a
    × (s.pcolor a ≡ q + bit c)
    × IsTree s (s.left a) a l
    × IsTree s (s.right a) a r

-- The subtree at the end of the trail is at `p`.
unfoldable pub IsTrail : RbTree → ℕ → Trail → Type 0
unfolding IsTree
IsTrail s p top = s.root ≡ p
IsTrail s p (left_child a c r k) =
    IsAddress a
    × (s.left a ≡ p)
    × (s.pcolor a ≡ up k + bit c)
    × IsTree s (s.right a) a r
    × IsTrail s a k
IsTrail s p (right_child l a c k) =
    IsAddress a
    × (s.right a ≡ p)
    × (s.pcolor a ≡ up k + bit c)
    × IsTree s (s.left a) a l
    × IsTrail s a k

-- A node is in a tree, or outside the subtree of a trail.
unfoldable pub in_tree : ℕ → Tree → Bool
in_tree a leaf = false
in_tree a (node l b c r) = (a == b) || (in_tree a l || in_tree a r)

unfoldable pub in_trail : ℕ → Trail → Bool
unfolding in_tree
in_trail a top = false
in_trail a (left_child b c r k) = (a == b) || (in_tree a r || in_trail a k)
in_trail a (right_child l b c k) = (a == b) || (in_tree a l || in_trail a k)

-- The three fields of a node are the same in two stores.
pub record SameAt (s t : RbTree) (a : ℕ) : Type 0 where
  pub same_pcolor : t.pcolor a ≡ s.pcolor a
  pub same_left : t.left a ≡ s.left a
  pub same_right : t.right a ≡ s.right a

pub IsTree-frame :
    (s u : RbTree) (p q : ℕ) (t : Tree)
    → ((a : ℕ) → in_tree a t ≡ true → SameAt s u a)
    → IsTree s p q t
    → IsTree u p q t
unfolding IsTree in_tree
IsTree-frame s u p q leaf h e = e
IsTree-frame s u p q (node l a c r) h (e, ad, pc, tl, tr) =
    let same = h a (ground arith) in
    (
      e,
      ad,
      same.same_pcolor ∙ pc,
      rw (same.same_left) (IsTree-frame s u (s.left a) a l (λ b i. h b (ground arith)) tl),
      rw (same.same_right) (IsTree-frame s u (s.right a) a r (λ b i. h b (ground arith)) tr),
    )

-- No node is at two places of a tree, or of a trail.
unfoldable pub Apart : Tree → Type 0
unfolding in_tree
Apart leaf = Unit
Apart (node l a c r) =
    (in_tree a l ≡ false)
    × (in_tree a r ≡ false)
    × ((b : ℕ) → in_tree b l ≡ true → in_tree b r ≡ false)
    × Apart l
    × Apart r

unfoldable pub ApartTrail : Trail → Type 0
unfolding in_tree in_trail Apart
ApartTrail top = Unit
ApartTrail (left_child a c r k) =
    (in_tree a r ≡ false)
    × (in_trail a k ≡ false)
    × ((b : ℕ) → in_tree b r ≡ true → in_trail b k ≡ false)
    × Apart r
    × ApartTrail k
ApartTrail (right_child l a c k) =
    (in_tree a l ≡ false)
    × (in_trail a k ≡ false)
    × ((b : ℕ) → in_tree b l ≡ true → in_trail b k ≡ false)
    × Apart l
    × ApartTrail k

-- The store holds a tree, seen as the subtree `t` and the trail `k` to it.
pub record Zip (s : RbTree) (t : Tree) (k : Trail) : Type 0 where
  pub place : ℕ
  pub tree : IsTree s place (up k) t
  pub trail : IsTrail s place k
  pub apart : Apart t
  pub apart_trail : ApartTrail k
  pub outside : (b : ℕ) → in_tree b t ≡ true → in_trail b k ≡ false

pub IsTrail-frame :
    (s u : RbTree) (p : ℕ) (k : Trail)
    → u.root ≡ s.root
    → ((a : ℕ) → in_trail a k ≡ true → SameAt s u a)
    → IsTrail s p k
    → IsTrail u p k
unfolding IsTrail in_trail
IsTrail-frame s u p top e h i = e ∙ i
IsTrail-frame s u p (left_child a c r k) e h (ad, lk, pc, tr, tk) =
    let same = h a (ground arith) in
    (
      ad,
      same.same_left ∙ lk,
      same.same_pcolor ∙ pc,
      rw (same.same_right) (IsTree-frame s u (s.right a) a r (λ b i. h b (ground arith)) tr),
      IsTrail-frame s u a k e (λ b i. h b (ground arith)) tk,
    )
IsTrail-frame s u p (right_child l a c k) e h (ad, lk, pc, tr, tk) =
    let same = h a (ground arith) in
    (
      ad,
      same.same_right ∙ lk,
      same.same_pcolor ∙ pc,
      rw (same.same_left) (IsTree-frame s u (s.left a) a l (λ b i. h b (ground arith)) tr),
      IsTrail-frame s u a k e (λ b i. h b (ground arith)) tk,
    )
