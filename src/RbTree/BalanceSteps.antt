-- ===== src/RbTree/BalanceSteps.antt =====
-- The cases of the proof that `insert_fix` makes a red-black tree.
use ming.RbTree.Access.{tree_black}
use ming.RbTree.Fix.{Rooted-under, on_left, on_right, blacken, onto, Side, Rooted}
use ming.RbTree.Shape.{top, leaf, right_child, left_child, node, plug, Tree, Trail}
use ming.RbTree.Balance.{
  Balanced-plug, NoRedPair-plug, IsRedBlack, BalancedTrail, Balanced, NoRedPair, NoRedTrail,
}
use ming.Base.{refl, arith, subst, ◌+◌, false, true, ◌≡◌, Bool, ℕ}

abbrev is_top : Trail → Bool
is_top top = true
is_top (left_child a c r k) = false
is_top (right_child l a c k) = false

plug_black :
    (k : Trail) (t : Tree)
    → Rooted k
    → (is_top k ≡ true → tree_black t ≡ true)
    → tree_black (plug k t) ≡ true
unfolding plug Rooted
plug_black top t h b = b refl
plug_black (left_child a c r top) t h b = h
plug_black (right_child l a c top) t h b = h
plug_black (left_child a c r (left_child a' c' r' k)) t h b =
    plug_black (left_child a' c' r' k) (node t a c r) h (λ e. cc)
plug_black (left_child a c r (right_child l' a' c' k)) t h b =
    plug_black (right_child l' a' c' k) (node t a c r) h (λ e. cc)
plug_black (right_child l a c (left_child a' c' r' k)) t h b =
    plug_black (left_child a' c' r' k) (node l a c t) h (λ e. cc)
plug_black (right_child l a c (right_child l' a' c' k)) t h b =
    plug_black (right_child l' a' c' k) (node l a c t) h (λ e. cc)

pub Rooted-unplug : (k : Trail) (t : Tree) → tree_black (plug k t) ≡ true → Rooted k
unfolding plug Rooted
Rooted-unplug top t b = tt
Rooted-unplug (left_child a c r top) t b = b
Rooted-unplug (right_child l a c top) t b = b
Rooted-unplug (left_child a c r (left_child a' c' r' k)) t b =
    Rooted-unplug (left_child a' c' r' k) (node t a c r) b
Rooted-unplug (left_child a c r (right_child l' a' c' k)) t b =
    Rooted-unplug (right_child l' a' c' k) (node t a c r) b
Rooted-unplug (right_child l a c (left_child a' c' r' k)) t b =
    Rooted-unplug (left_child a' c' r' k) (node l a c t) b
Rooted-unplug (right_child l a c (right_child l' a' c' k)) t b =
    Rooted-unplug (right_child l' a' c' k) (node l a c t) b

pub plug-IsRedBlack :
    (k : Trail) (t : Tree) (h top_h : ℕ)
    → tree_black t ≡ true
    → NoRedPair t
    → Balanced t h
    → Rooted k
    → NoRedTrail k
    → BalancedTrail k h top_h
    → IsRedBlack (plug k t)
plug-IsRedBlack k t h top_h bt n b rk nk bk = record {
  black_root = plug_black k t rk (λ _. bt);
  no_red_pair = NoRedPair-plug k t n nk (λ _. bt);
  height = top_h;
  balanced = Balanced-plug k t h top_h b bk;
}

pub blacken_red :
    (u : Tree) (h : ℕ)
    → tree_black u ≡ false
    → NoRedPair u
    → Balanced u h
    → (tree_black (blacken u) ≡ true) × NoRedPair (blacken u) × Balanced (blacken u) (h + 1)
unfolding NoRedPair Balanced
blacken_red leaf h e n b = cc
blacken_red (node l a c r) h e n (m, q, bl, br) =
    (refl, (λ f. cc, n.1, n.2), (m, ground (arith, q, e), bl, br))

-- What a red node brings that was put at the end of a trail.
abbrev pub RedAt : Tree → ℕ → ℕ → Trail → Type 0
RedAt t h top_h k = NoRedPair t × Balanced t h × Rooted k × NoRedTrail k × BalancedTrail k h top_h

-- What the red-black conditions say of a red node under a red node `p` under `g`.
abbrev Around : ℕ → ℕ → Tree → Tree → Trail → Type 0
Around h top_h w u k =
    (tree_black w ≡ true)
    × NoRedPair w
    × Balanced w h
    × NoRedPair u
    × Balanced u h
    × Rooted k
    × NoRedTrail k
    × BalancedTrail k (h + 1) top_h

pub around :
    (i j : Side) (t : Tree) (p : ℕ) (w : Tree) (g : ℕ) (d : Bool) (u : Tree) (k : Trail)
    (h top_h : ℕ)
    → RedAt t h top_h (onto i p false w (onto j g d u k))
    → Around h top_h w u k
unfolding NoRedTrail BalancedTrail
around on_left on_left t p w g d u k h top_h (nt, bt, rk, nk, bk) =
    let d_black = (nk.0 refl).1 in
    (
      (nk.0 refl).0,
      nk.1,
      bk.0,
      nk.2.1,
      subst (Balanced u) (omega arith) bk.1.0,
      Rooted-under on_left g d u k (Rooted-under on_left p false w (left_child g d u k) rk),
      nk.2.2,
      subst (λ x. BalancedTrail k x top_h) (ground (arith, d_black)) bk.1.1,
    )
around on_left on_right t p w g d u k h top_h (nt, bt, rk, nk, bk) =
    let d_black = (nk.0 refl).1 in
    (
      (nk.0 refl).0,
      nk.1,
      bk.0,
      nk.2.1,
      subst (Balanced u) (omega arith) bk.1.0,
      Rooted-under on_right g d u k (Rooted-under on_left p false w (right_child u g d k) rk),
      nk.2.2,
      subst (λ x. BalancedTrail k x top_h) (ground (arith, d_black)) bk.1.1,
    )
around on_right on_left t p w g d u k h top_h (nt, bt, rk, nk, bk) =
    let d_black = (nk.0 refl).1 in
    (
      (nk.0 refl).0,
      nk.1,
      bk.0,
      nk.2.1,
      subst (Balanced u) (omega arith) bk.1.0,
      Rooted-under on_left g d u k (Rooted-under on_right p false w (left_child g d u k) rk),
      nk.2.2,
      subst (λ x. BalancedTrail k x top_h) (ground (arith, d_black)) bk.1.1,
    )
around on_right on_right t p w g d u k h top_h (nt, bt, rk, nk, bk) =
    let d_black = (nk.0 refl).1 in
    (
      (nk.0 refl).0,
      nk.1,
      bk.0,
      nk.2.1,
      subst (Balanced u) (omega arith) bk.1.0,
      Rooted-under on_right g d u k (Rooted-under on_right p false w (right_child u g d k) rk),
      nk.2.2,
      subst (λ x. BalancedTrail k x top_h) (ground (arith, d_black)) bk.1.1,
    )

pub red_node :
    (x : Tree) (a : ℕ) (y : Tree) (h : ℕ)
    → tree_black x ≡ true
    → tree_black y ≡ true
    → NoRedPair x
    → NoRedPair y
    → Balanced x h
    → Balanced y h
    → NoRedPair (node x a false y) × Balanced (node x a false y) h
unfolding NoRedPair Balanced
red_node x a y h cx cy nx ny bx by = ((λ _. (cx, cy), nx, ny), (h, omega arith, bx, by))

pub black_node :
    (x : Tree) (a : ℕ) (y : Tree) (h : ℕ)
    → NoRedPair x
    → NoRedPair y
    → Balanced x h
    → Balanced y h
    → NoRedPair (node x a true y) × Balanced (node x a true y) (h + 1)
unfolding NoRedPair Balanced
black_node x a y h nx ny bx by = ((λ f. cc, nx, ny), (h, refl, bx, by))

pub red_children :
    (l : Tree) (n : ℕ) (r : Tree) (h : ℕ)
    → NoRedPair (node l n false r)
    → Balanced (node l n false r) h
    → (tree_black l ≡ true)
      × (tree_black r ≡ true)
      × NoRedPair l
      × NoRedPair r
      × Balanced l h
      × Balanced r h
unfolding NoRedPair Balanced
red_children l n r h nt (m, e, bl, br) = (
  (nt.0 refl).0,
  (nt.0 refl).1,
  nt.1,
  nt.2,
  subst (Balanced l) (omega (arith, e)) bl,
  subst (Balanced r) (omega (arith, e)) br,
)

-- The subtree after the rotations.
pub rotated_pair :
    (x : Tree) (a : ℕ) (y : Tree) (k : Trail) (w u : Tree) (h top_h : ℕ)
    → Around h top_h w u k
    → NoRedPair x × Balanced x h
    → NoRedPair y × Balanced y h
    → IsRedBlack (plug k (node x a true y))
rotated_pair x a y k w u h top_h (cw, nw, bw, nu, bu, rk, nk, bk) (nx, bx) (ny, by) =
    let (n, b) = black_node x a y h nx ny bx by in
    plug-IsRedBlack k (node x a true y) (h + 1) top_h refl n b rk nk bk

-- The subtree after the colours are changed.
pub recolored :
    (x : Tree) (g : ℕ) (y : Tree) (k : Trail) (w u : Tree) (h top_h : ℕ)
    → Around h top_h w u k
    → (tree_black x ≡ true) × NoRedPair x × Balanced x (h + 1)
    → (tree_black y ≡ true) × NoRedPair y × Balanced y (h + 1)
    → RedAt (node x g false y) (h + 1) top_h k
recolored x g y k w u h top_h (cw, nw, bw, nu, bu, rk, nk, bk) (cx, nx, bx) (cy, ny, by) =
    let (n, b) = red_node x g y (h + 1) cx cy nx ny bx by in (n, b, rk, nk, bk)
