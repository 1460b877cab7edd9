-- ===== src/List/Insert.antt =====
-- `m_list_append` and `m_list_prepend` put a node at an end of the ring.
use ming.Base.{
  ℕ, ◌≡◌, ◌≢◌, false, some, List, [], ◌∷◌, ◌++◌, arith, update, elem, elem-append, Distinct,
  Distinct-insert, Returns,
}
use ming.List.{Links, list_append, list_prepend}
use mathlib.Core.List.{append-nil}
use ming.List.Ring.{
  SameOutside, Ring_head, Ring-prev, Ring-next, Chain, IsRing, last, first, elem-last, elem-first,
  Chain-frame,
}

-- The links after `node` has been put between `p` and `q`.
abbrev pub link_between : Links → ℕ → ℕ → ℕ → Links
link_between s p node q = record {
  prev = update (update s.prev node p) q node;
  next = update (update s.next node q) p node;
}

list_append_effect :
    (s : Links) (head node : ℕ)
    → head ≢ 0
    → node ≢ 0
    → node ≢ head
    → s.prev head ≢ 0
    → list_append head node s ≡ some (tt, link_between s (s.prev head) node head)
unfolding list_append
list_append_effect s head node h n d l = ground arith

list_prepend_effect :
    (s : Links) (head node : ℕ)
    → head ≢ 0
    → node ≢ 0
    → node ≢ head
    → s.next head ≢ 0
    → list_prepend head node s ≡ some (tt, link_between s head node (s.next head))
unfolding list_prepend
list_prepend_effect s head node h n d l = ground arith

Chain-insert :
    (s : Links) (a b node : ℕ) (xs ys : List ℕ)
    → Chain s a (xs ++ ys) b
    → Distinct (a ∷ xs ++ ys)
    → elem b (xs ++ ys) ≡ false
    → elem node (a ∷ b ∷ xs ++ ys) ≡ false
    → Chain (link_between s (last a xs) node (first ys b)) a (xs ++ node ∷ ys) b
Chain-insert s a b node [] [] c d e f = ((ground arith, ground arith), (ground arith, ground arith))
Chain-insert s a b node [] (y ∷ ys) c d e f = (
  (ground arith, ground arith),
  (
    (ground arith, ground arith),
    Chain-frame s _ y b ys (λ q h. ground arith) (λ q h. ground arith) c.1,
  ),
)
Chain-insert s a b node (x ∷ xs) ys c d e f = (
  (
    ground (
      arith,
      elem-last x xs,
      elem-append a xs ys,
      elem-append (last x xs) xs ys,
      elem-append node xs ys,
    ),
    ground (
      arith,
      elem-first ys b,
      elem-append x xs ys,
      elem-append (first ys b) xs ys,
      elem-append node xs ys,
    ),
  ),
  Chain-insert s x b node xs ys c.1 d.1 (ground arith) (ground arith),
)

-- A fresh node put between the last node and the head extends the ring at the end.
Ring_insert :
    (s : Links) (head node : ℕ) (xs ys : List ℕ)
    → IsRing s head (xs ++ ys)
    → elem node (0 ∷ head ∷ xs ++ ys) ≡ false
    → IsRing (link_between s (last head xs) node (first ys head)) head (xs ++ node ∷ ys)
Ring_insert s head node xs ys r f = record {
  chain = Chain-insert s head head node xs ys r.chain r.distinct r.distinct.0 (ground arith);
  nonnull = ground (arith, r.nonnull, elem-append 0 xs ys, elem-append 0 xs (node ∷ ys));
  distinct = (
    ground (arith, r.distinct, elem-append head xs ys, elem-append head xs (node ∷ ys)),
    Distinct-insert node xs ys r.distinct.1 (ground arith),
  );
}

-- `m_list_append` of a fresh node ends without a fault, the ring has the node at its end, and the
-- links of all other nodes are untouched.
pub list_append-IsRing :
    (s : Links) (head node : ℕ) (xs : List ℕ)
    → IsRing s head xs
    → elem node (0 ∷ head ∷ xs) ≡ false
    → Returns
        (list_append head node s)
        (λ _ t. IsRing t head (xs ++ node ∷ []) × SameOutside (node ∷ head ∷ xs) s t)
list_append-IsRing s head node xs r f =
    let (e, n) = Ring-prev s head xs r in
    (
      tt,
      link_between s (s.prev head) node head,
      list_append_effect s head node (Ring_head r) (ground arith) (ground arith) n,
      (
        rw e (Ring_insert s head node xs [] (rw append-nil r) (rw append-nil f)),
        λ a h. rw e (ground (arith, elem-last head xs)),
      ),
    )

-- `m_list_prepend` of a fresh node ends without a fault, the ring has the node at its start, and
-- the links of all other nodes are untouched.
pub list_prepend-IsRing :
    (s : Links) (head node : ℕ) (xs : List ℕ)
    → IsRing s head xs
    → elem node (0 ∷ head ∷ xs) ≡ false
    → Returns
        (list_prepend head node s)
        (λ _ t. IsRing t head (node ∷ xs) × SameOutside (node ∷ head ∷ xs) s t)
list_prepend-IsRing s head node xs r f =
    let (e, n) = Ring-next s head xs r in
    (
      tt,
      link_between s head node (s.next head),
      list_prepend_effect s head node (Ring_head r) (ground arith) (ground arith) n,
      (rw e (Ring_insert s head node [] xs r f), λ a h. rw e (ground (arith, elem-first xs head))),
    )
