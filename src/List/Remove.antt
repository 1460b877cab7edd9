-- ===== src/List/Remove.antt =====
-- `m_list_remove` takes a node out of its ring.
use ming.Base.{
  ℕ, ◌≡◌, ◌≢◌, false, some, List, [], ◌∷◌, ◌++◌, arith, update, elem, elem-append, Distinct,
  Distinct-remove, Returns,
}
use ming.List.{Links, list_remove}
use ming.List.Ring.{
  SameOutside, Chain, IsRing, last, first, elem-last, elem-first, prev-last, next-first,
  Chain-frame, Chain-split,
}

-- The links after the node between `p` and `n` has been taken out.
abbrev pub unlink : Links → ℕ → ℕ → Links
unlink s p n = record { prev = update s.prev n p; next = update s.next p n }

list_remove_effect :
    (s : Links) (x : ℕ)
    → x ≢ 0
    → s.prev x ≢ 0
    → s.next x ≢ 0
    → s.prev x ≢ x
    → list_remove x s ≡ some (tt, unlink s (s.prev x) (s.next x))
unfolding list_remove
list_remove_effect s x h p n d = ground arith

Chain-remove :
    (s : Links) (a b x : ℕ) (xs ys : List ℕ)
    → Chain s a (xs ++ x ∷ ys) b
    → Distinct (a ∷ xs ++ ys)
    → elem b (xs ++ ys) ≡ false
    → Chain (unlink s (last a xs) (first ys b)) a (xs ++ ys) b
Chain-remove s a b x [] [] c d e = (ground arith, ground arith)
Chain-remove s a b x [] (y ∷ ys) c d e = (
  (ground arith, ground arith),
  Chain-frame s _ y b ys (λ q h. ground arith) (λ q h. ground arith) c.1.1,
)
Chain-remove s a b x (z ∷ xs) ys c d e = (
  (
    ground (arith, elem-last z xs, elem-append a xs ys, elem-append (last z xs) xs ys),
    ground (arith, elem-first ys b, elem-append z xs ys, elem-append (first ys b) xs ys),
  ),
  Chain-remove s z b x xs ys c.1 d.1 (ground arith),
)

-- `m_list_remove` of any node of a ring ends without a fault, the other nodes form the ring in the
-- same order, and the links of nodes that were not in the ring are untouched.
pub list_remove-IsRing :
    (s : Links) (head x : ℕ) (xs ys : List ℕ)
    → IsRing s head (xs ++ x ∷ ys)
    → Returns
        (list_remove x s)
        (λ _ t. IsRing t head (xs ++ ys) × SameOutside (head ∷ xs ++ ys) s t)
list_remove-IsRing s head x xs ys r =
    let (before, after) = Chain-split s head head x xs ys r.chain in
    let p = prev-last s head x xs before in
    let n = next-first s x head ys after in
    let (d, out) = Distinct-remove x xs ys r.distinct.1 in
    let fresh : elem head (xs ++ ys) ≡ false =
      ground (arith, r.distinct, elem-append head xs ys, elem-append head xs (x ∷ ys)) in
    (
      tt,
      unlink s (s.prev x) (s.next x),
      list_remove_effect s x (ground (arith, r.nonnull, elem-append 0 xs (x ∷ ys)))
          (ground (arith, p, elem-last head xs, r.nonnull, elem-append 0 xs (x ∷ ys)))
          (ground (arith, n, elem-first ys head, r.nonnull, elem-append 0 xs (x ∷ ys)))
          (ground (
            arith,
            p,
            elem-last head xs,
            r.distinct,
            elem-append x xs ys,
            elem-append head xs (x ∷ ys),
          )),
      (
        rw (p, n)
            (record {
              chain = Chain-remove s head head x xs ys r.chain (fresh, d) fresh;
              nonnull = ground (arith, r.nonnull, elem-append 0 xs ys, elem-append 0 xs (x ∷ ys));
              distinct = (fresh, d);
            }),
        λ a h.
            rw (p, n) (ground (arith, elem-last head xs, elem-first ys head, elem-append a xs ys)),
      ),
    )
