-- ===== src/RbTree/Frames.antt =====
-- What a change of single fields leaves of a tree or a trail in memory.
use ming.RbTree.Shape.{
  top, leaf, IsTrail-frame, IsTree-frame, bit, SameAt, node, IsAddress, right_child, left_child,
  Tree, up, Apart, in_tree, Trail, ApartTrail, IsTree, in_trail, IsTrail,
}
use ming.RbTree.{RbTree}
use ming.Base.{
  refl, sym, ◌==◌, subst, arith, Bool, Bool-cases, ◌∙◌, inr, false, ◌+◌, inl, ◌≢◌, ◌%◌, true, ◌⊎◌,
  ◌≡◌, ℕ,
}

pub root-in_tree :
    (s : RbTree) (p q : ℕ) (t : Tree) → IsTree s p q t → (p ≡ 0) ⊎ (in_tree p t ≡ true)
unfolding IsTree in_tree
root-in_tree s p q leaf e = inl e
root-in_tree s p q (node l a c r) i = inr (ground arith)

pub up-in_trail : (k : Trail) → (up k ≡ 0) ⊎ (in_trail (up k) k ≡ true)
unfolding in_trail
up-in_trail top = inl refl
up-in_trail (left_child a c r k) = inr (ground arith)
up-in_trail (right_child l a c k) = inr (ground arith)

pub up_even : (s : RbTree) (p : ℕ) (k : Trail) → IsTrail s p k → up k % 2 ≡ 0
unfolding IsTrail
up_even s p top i = refl
up_even s p (left_child a c r k) i = i.0.even
up_even s p (right_child l a c k) i = i.0.even

pub in_tree-IsAddress :
    (s : RbTree) (p q b : ℕ) (t : Tree) → IsTree s p q t → in_tree b t ≡ true → IsAddress b
unfolding IsTree in_tree
in_tree-IsAddress s p q b leaf i h = cc
in_tree-IsAddress s p q b (node l a c r) (e, ad, pc, tl, tr) h = elim (Bool-cases (b == a)) [
  | inl same ↦ subst IsAddress (ground arith) ad
  | inr other ↦ elim (Bool-cases (in_tree b l)) [
    | inl here ↦ in_tree-IsAddress s (s.left a) a b l tl here
    | inr there ↦ in_tree-IsAddress s (s.right a) a b r tr (ground arith)
  ]
]

-- The root of the tree gets the parent `q'`, and keeps its colour; nothing else in the tree changes.
pub IsTree-reparent :
    (s u : RbTree) (p q q' : ℕ) (t : Tree)
    → q % 2 ≡ 0
    → (p ≢ 0 → (u.left p ≡ s.left p) × (u.right p ≡ s.right p) × (u.pcolor p ≡ q' + s.pcolor p % 2))
    → ((a : ℕ) → in_tree a t ≡ true → a ≢ p → SameAt s u a)
    → Apart t
    → IsTree s p q t
    → IsTree u p q' t
unfolding IsTree in_tree Apart
IsTree-reparent s u p q q' leaf eq h o ap i = i
IsTree-reparent s u p q q' (node l a c r) eq h o ap i =
    let here = h (ground (arith, i.1.nonnull)) in
    (
      i.0,
      i.1,
      color c i.2,
      subst (λ w. IsTree u w a l) (ground (arith, here))
          (IsTree-frame s u (s.left a) a l (λ b m. o b (ground arith) (ground arith)) i.3),
      subst (λ w. IsTree u w a r) (ground (arith, here))
          (IsTree-frame s u (s.right a) a r (λ b m. o b (ground arith) (ground arith)) i.4),
    )
  where
    color : (c : Bool) → s.pcolor a ≡ q + bit c → u.pcolor a ≡ q' + bit c
    color true e = ground (arith, h (ground (arith, i.1.nonnull)))
    color false e = ground (arith, h (ground (arith, i.1.nonnull)))

-- The link to the subtree at the end of the trail leads to `y` in `u`.
abbrev pub Relinked : RbTree → RbTree → ℕ → Trail → Type 0
Relinked s u y top = u.root ≡ y
Relinked s u y (left_child a c r k) =
    (u.root ≡ s.root) × (u.left a ≡ y) × (u.right a ≡ s.right a) × (u.pcolor a ≡ s.pcolor a)
Relinked s u y (right_child l a c k) =
    (u.root ≡ s.root) × (u.right a ≡ y) × (u.left a ≡ s.left a) × (u.pcolor a ≡ s.pcolor a)

pub IsTrail-relink :
    (s u : RbTree) (x y : ℕ) (k : Trail)
    → Relinked s u y k
    → ((b : ℕ) → in_trail b k ≡ true → b ≢ up k → SameAt s u b)
    → ApartTrail k
    → IsTrail s x k
    → IsTrail u y k
unfolding IsTrail in_trail ApartTrail
IsTrail-relink s u x y top e o ap i = e
IsTrail-relink s u x y (left_child a c r k) (e, lk, rk, pk) o ap (ad, l, pc, tr, tk) = (
  ad,
  lk,
  pk ∙ pc,
  subst (λ w. IsTree u w a r) (sym rk)
      (IsTree-frame s u (s.right a) a r (λ b m. o b (ground arith) (ground arith)) tr),
  IsTrail-frame s u a k e (λ b m. o b (ground arith) (ground arith)) tk,
)
IsTrail-relink s u x y (right_child l a c k) (e, rk, lk, pk) o ap (ad, r, pc, tl, tk) = (
  ad,
  rk,
  pk ∙ pc,
  subst (λ w. IsTree u w a l) (sym lk)
      (IsTree-frame s u (s.left a) a l (λ b m. o b (ground arith) (ground arith)) tl),
  IsTrail-frame s u a k e (λ b m. o b (ground arith) (ground arith)) tk,
)

pub color_of : (w q : ℕ) (c : Bool) → q % 2 ≡ 0 → w ≡ q + bit c → w % 2 ≡ bit c
color_of w q true e h = ground arith
color_of w q false e h = ground arith

pub not_left :
    (s : RbTree) (x p q : ℕ) (t : Tree) → x ≢ 0 → in_tree x t ≡ false → IsTree s p q t → p ≢ x
not_left s x p q t n i w e = elim (root-in_tree s p q t w) [
  | inl z ↦ n (sym e ∙ z)
  | inr h ↦ ground (arith, h, e)
]

pub not_up : (q : ℕ) (k : Trail) → in_trail q k ≡ false → up k ≢ 0 → up k ≢ q
not_up q k i n e = elim (up-in_trail k) [ inl z ↦ n z | inr h ↦ ground (arith, h, e) ]

pub differ :
    (q r : ℕ) (t : Tree) → in_tree q t ≡ false → (r ≢ 0 → in_tree r t ≡ true) → r ≢ 0 → q ≢ r
differ q r t i h n e = ground (arith, h n)

pub differ_trail :
    (q r : ℕ) (t : Trail) → in_trail q t ≡ false → (r ≢ 0 → in_trail r t ≡ true) → r ≢ 0 → q ≢ r
differ_trail q r t i h n e = ground (arith, h n)
