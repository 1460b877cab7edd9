-- ===== src/RbTree/Order.antt =====
-- `insert_fix` keeps the nodes in order.
use ming.RbTree.Access.{tree_black}
use ming.RbTree.Fix.{blacken, insert_fix}
use ming.RbTree.Shape.{
  top, right_child, leaf, node, left_child, after, Trail, before, Tree, plug, addresses,
}
use mathlib.Core.List.{append-nil, append_assoc}
use ming.Base.{◌∙◌, inr, inl, Bool-cases, refl, ◌∷◌, sym, false, ap, true, ◌++◌, ◌≡◌, ℕ}

plug-same :
    (k : Trail) (t t' : Tree)
    → addresses t ≡ addresses t'
    → addresses (plug k t) ≡ addresses (plug k t')
unfolding addresses plug
plug-same top t t' e = e
plug-same (left_child a c r k) t t' e =
    plug-same k (node t a c r) (node t' a c r) (ap (λ x. x ++ a ∷ addresses r) e)
plug-same (right_child l a c k) t t' e =
    plug-same k (node l a c t) (node l a c t') (ap (λ x. addresses l ++ a ∷ x) e)

pub addresses-plug :
    (k : Trail) (t : Tree) → addresses (plug k t) ≡ before k ++ addresses t ++ after k
unfolding addresses plug before after
addresses-plug top t = sym (append-nil (addresses t))
addresses-plug (left_child a c r k) t = simp (addresses-plug k (node t a c r), append_assoc) refl
addresses-plug (right_child l a c k) t = simp (addresses-plug k (node l a c t), append_assoc) refl

blacken-order : (u : Tree) → addresses (blacken u) ≡ addresses u
unfolding addresses
blacken-order leaf = refl
blacken-order (node l a c r) = refl

pub insert_fix-order :
    (k : Trail) (l : Tree) (n : ℕ) (r : Tree)
    → addresses (insert_fix (node l n false r) k) ≡ addresses (plug k (node l n false r))
unfolding insert_fix addresses plug
insert_fix-order top l n r = refl
insert_fix-order (left_child p true w k) l n r = refl
insert_fix-order (right_child w p true k) l n r = refl
insert_fix-order (left_child p false w top) l n r = refl
insert_fix-order (right_child w p false top) l n r = refl
insert_fix-order (left_child p false w (left_child g d u k)) l n r =
    let t = node l n false r in
    elim (Bool-cases (tree_black u)) [
      | inl b ↦
          rw (b, insert_fix)
            (plug-same k (node t p true (node w g false u)) (node (node t p false w) g d u)
              (simp append_assoc refl))
      | inr b ↦
          rw (b, insert_fix)
            (insert_fix-order k (node t p true w) g (blacken u)
              ∙ plug-same k (node (node t p true w) g false (blacken u))
                  (node (node t p false w) g d u) (simp (blacken-order u) refl))
    ]
insert_fix-order (right_child w p false (left_child g d u k)) l n r =
    let t = node l n false r in
    elim (Bool-cases (tree_black u)) [
      | inl b ↦
          rw (b, insert_fix)
            (plug-same k (node (node w p false l) n true (node r g false u))
              (node (node w p false t) g d u) (simp append_assoc refl))
      | inr b ↦
          rw (b, insert_fix)
            (insert_fix-order k (node w p true t) g (blacken u)
              ∙ plug-same k (node (node w p true t) g false (blacken u))
                  (node (node w p false t) g d u) (simp (blacken-order u) refl))
    ]
insert_fix-order (left_child p false w (right_child u g d k)) l n r =
    let t = node l n false r in
    elim (Bool-cases (tree_black u)) [
      | inl b ↦
          rw (b, insert_fix)
            (plug-same k (node (node u g false l) n true (node r p false w))
              (node u g d (node t p false w)) (simp append_assoc refl))
      | inr b ↦
          rw (b, insert_fix)
            (insert_fix-order k (blacken u) g (node t p true w)
              ∙ plug-same k (node (blacken u) g false (node t p true w))
                  (node u g d (node t p false w)) (simp (blacken-order u) refl))
    ]
insert_fix-order (right_child w p false (right_child u g d k)) l n r =
    let t = node l n false r in
    elim (Bool-cases (tree_black u)) [
      | inl b ↦
          rw (b, insert_fix)
            (plug-same k (node (node u g false w) p true t) (node u g d (node w p false t))
              (simp append_assoc refl))
      | inr b ↦
          rw (b, insert_fix)
            (insert_fix-order k (blacken u) g (node w p true t)
              ∙ plug-same k (node (blacken u) g false (node w p true t))
                  (node u g d (node w p false t)) (simp (blacken-order u) refl))
    ]
