-- ===== src/RbTree/RotatedLeft.antt =====
-- `m_rbt_rotate_left` changes the store, and the links to the rotated tree.
use ming.RbTree.Frames.{not_left, not_up, Relinked}
use ming.RbTree.Shape.{top, right_child, left_child, in_trail, IsTrail, up, Trail, bit}
use ming.RbTree.Update.{replace_child, rbt_rotate_left}
use ming.RbTree.{
  set_pcolor, set_root, set_right, set_left, get_pcolor, get_right, get_left, rbt_set_parent,
  rbt_parent, RbTree,
}
use ming.Base.{
  refl, true, false, arith, some, ◌≡◌, ◌≢◌, Bool, ◌&&◌, ◌!=◌, ◌%◌, ◌+◌, update, ◌==◌, if◌then◌else◌,
  ℕ,
}

-- The store after `m_rbt_rotate_left`.
abbrev pub left_rotated : RbTree → ℕ → ℕ → ℕ → ℕ → RbTree
left_rotated s x y child parent = record {
  root = if parent == 0 then y else s.root;
  pcolor =
      update
        (update (if child == 0 then s.pcolor else update s.pcolor child (x + s.pcolor child % 2)) x
          (y + s.pcolor x % 2))
        y (parent + s.pcolor y % 2);
  left =
      if parent != 0 && s.left parent == x
      then update (update s.left y x) parent y
      else update s.left y x;
  right =
      if parent != 0 && s.left parent != x
      then update (update s.right x child) parent y
      else update s.right x child;
}

pub rotate_left_effect :
    (s : RbTree) (x y child parent : ℕ) (c : Bool)
    → x ≢ 0
    → y ≢ 0
    → x ≢ y
    → child ≢ x
    → child ≢ y
    → parent ≢ y
    → x % 2 ≡ 0
    → y % 2 ≡ 0
    → parent % 2 ≡ 0
    → s.right x ≡ y
    → s.left y ≡ child
    → s.pcolor x ≡ parent + bit c
    → rbt_rotate_left x s ≡ some (tt, left_rotated s x y child parent)
unfolding rbt_rotate_left replace_child rbt_parent rbt_set_parent get_left get_right get_pcolor
    set_left set_right set_root set_pcolor
rotate_left_effect s x y child parent true nx ny d1 d2 d3 d4 ex ey ep er el ec = ground arith
rotate_left_effect s x y child parent false nx ny d1 d2 d3 d4 ex ey ep er el ec = ground arith

relink_left :
    (s : RbTree) (x y child a : ℕ)
    → a ≢ 0
    → a ≢ x
    → a ≢ y
    → (child ≢ 0 → a ≢ child)
    → s.left a ≡ x
    → let u = left_rotated s x y child a in
      (u.root ≡ s.root) × (u.left a ≡ y) × (u.right a ≡ s.right a) × (u.pcolor a ≡ s.pcolor a)
relink_left s x y child a na nx ny nc l =
    (ground arith, ground arith, ground arith, ground (arith, nc))

relink_right :
    (s : RbTree) (x y child a : ℕ)
    → a ≢ 0
    → a ≢ x
    → a ≢ y
    → (child ≢ 0 → a ≢ child)
    → s.left a ≢ x
    → let u = left_rotated s x y child a in
      (u.root ≡ s.root) × (u.right a ≡ y) × (u.left a ≡ s.left a) × (u.pcolor a ≡ s.pcolor a)
relink_right s x y child a na nx ny nc l =
    (ground arith, ground arith, ground arith, ground (arith, nc))

pub left_rotated-Relinked :
    (s : RbTree) (x y child : ℕ) (k : Trail)
    → x ≢ 0
    → in_trail x k ≡ false
    → in_trail y k ≡ false
    → (child ≢ 0 → in_trail child k ≡ false)
    → IsTrail s x k
    → Relinked s (left_rotated s x y child (up k)) y k
unfolding IsTrail in_trail
left_rotated-Relinked s x y child top n ix iy ic t = refl
left_rotated-Relinked s x y child (left_child a c r k) n ix iy ic t =
    let k' = left_child a c r k in
    let na = t.0.nonnull in
    relink_left s x y child a na (not_up x k' ix na) (not_up y k' iy na)
      (λ m. not_up child k' (ic m) na) t.1
left_rotated-Relinked s x y child (right_child l a c k) n ix iy ic t =
    let k' = right_child l a c k in
    let na = t.0.nonnull in
    relink_right s x y child a na (not_up x k' ix na) (not_up y k' iy na)
      (λ m. not_up child k' (ic m) na) (not_left s x (s.left a) a l n (ground arith) t.3)
