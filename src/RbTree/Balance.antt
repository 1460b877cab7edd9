-- ===== src/RbTree/Balance.antt =====
-- The red-black conditions, on trees and along a trail.
use ming.RbTree.Access.{tree_black}
use ming.RbTree.Shape.{top, right_child, bit, leaf, node, left_child, Trail, Tree, plug}
use ming.Base.{refl, sym, arith, subst, ◌+◌, true, false, Bool, ◌≡◌, ℕ}

-- Every way down from the root has `h` black nodes.
unfoldable pub Balanced : Tree → ℕ → Type 0
Balanced leaf h = h ≡ 0
Balanced (node l a c r) h = (m : ℕ) × (h ≡ m + bit c) × Balanced l m × Balanced r m

-- No red node has a red child.
unfoldable pub NoRedPair : Tree → Type 0
NoRedPair leaf = Unit
NoRedPair (node l a c r) =
    (c ≡ false → (tree_black l ≡ true) × (tree_black r ≡ true)) × NoRedPair l × NoRedPair r

pub record IsRedBlack (t : Tree) : Type 0 where
  pub black_root : tree_black t ≡ true
  pub no_red_pair : NoRedPair t
  pub height : ℕ
  pub balanced : Balanced t height

abbrev pub trail_black : Trail → Bool
trail_black top = true
trail_black (left_child a c r k) = c
trail_black (right_child l a c k) = c

-- With a balanced tree of height `h` at its end, the whole tree is balanced, of height `top_h`.
unfoldable pub BalancedTrail : Trail → ℕ → ℕ → Type 0
unfolding Balanced
BalancedTrail top h top_h = top_h ≡ h
BalancedTrail (left_child a c r k) h top_h = Balanced r h × BalancedTrail k (h + bit c) top_h
BalancedTrail (right_child l a c k) h top_h = Balanced l h × BalancedTrail k (h + bit c) top_h

unfoldable pub NoRedTrail : Trail → Type 0
unfolding NoRedPair
NoRedTrail top = Unit
NoRedTrail (left_child a c r k) =
    (c ≡ false → (tree_black r ≡ true) × (trail_black k ≡ true)) × NoRedPair r × NoRedTrail k
NoRedTrail (right_child l a c k) =
    (c ≡ false → (tree_black l ≡ true) × (trail_black k ≡ true)) × NoRedPair l × NoRedTrail k

pub Balanced-plug :
    (k : Trail) (t : Tree) (h top_h : ℕ)
    → Balanced t h
    → BalancedTrail k h top_h
    → Balanced (plug k t) top_h
unfolding Balanced BalancedTrail plug
Balanced-plug top t h top_h b e = subst (Balanced t) (sym e) b
Balanced-plug (left_child a c r k) t h top_h b e =
    Balanced-plug k (node t a c r) (h + bit c) top_h (h, refl, b, e.0) e.1
Balanced-plug (right_child l a c k) t h top_h b e =
    Balanced-plug k (node l a c t) (h + bit c) top_h (h, refl, e.0, b) e.1

pub Balanced-unplug :
    (k : Trail) (t : Tree) (top_h : ℕ)
    → Balanced (plug k t) top_h
    → (h : ℕ) × Balanced t h × BalancedTrail k h top_h
unfolding Balanced BalancedTrail plug
Balanced-unplug top t top_h b = (top_h, b, refl)
Balanced-unplug (left_child a c r k) t top_h b =
    let (h, (m, e, bt, br), bk) = Balanced-unplug k (node t a c r) top_h b in
    (m, bt, (br, subst (λ x. BalancedTrail k x top_h) e bk))
Balanced-unplug (right_child l a c k) t top_h b =
    let (h, (m, e, bl, bt), bk) = Balanced-unplug k (node l a c t) top_h b in
    (m, bt, (bl, subst (λ x. BalancedTrail k x top_h) e bk))

pub NoRedPair-plug :
    (k : Trail) (t : Tree)
    → NoRedPair t
    → NoRedTrail k
    → (trail_black k ≡ false → tree_black t ≡ true)
    → NoRedPair (plug k t)
unfolding NoRedPair NoRedTrail plug
NoRedPair-plug top t n nk b = n
NoRedPair-plug (left_child a c r k) t n nk b =
    NoRedPair-plug k (node t a c r) (λ e. (b e, (nk.0 e).0), n, nk.1) nk.2
      (λ e. ground (arith, nk.0))
NoRedPair-plug (right_child l a c k) t n nk b =
    NoRedPair-plug k (node l a c t) (λ e. ((nk.0 e).0, b e), nk.1, n) nk.2
      (λ e. ground (arith, nk.0))

pub NoRedPair-unplug :
    (k : Trail) (t : Tree)
    → NoRedPair (plug k t)
    → NoRedPair t × NoRedTrail k × (trail_black k ≡ false → tree_black t ≡ true)
unfolding NoRedPair NoRedTrail plug
NoRedPair-unplug top t n = (n, tt, λ e. cc)
NoRedPair-unplug (left_child a c r k) t n =
    let (nt, nk, b) = NoRedPair-unplug k (node t a c r) n in
    (nt.1, (λ e. ((nt.0 e).1, ground (arith, b)), nt.2, nk), λ e. (nt.0 e).0)
NoRedPair-unplug (right_child l a c k) t n =
    let (nt, nk, b) = NoRedPair-unplug k (node l a c t) n in
    (nt.2, (λ e. ((nt.0 e).0, ground (arith, b)), nt.1, nk), λ e. (nt.0 e).1)
