-- ===== src/SList/Ends.antt =====
-- A single linked list is a stack: what `m_slist_push`, `m_slist_pop` and the loops do to it.
-- The list behind `head` holds the nodes `xs`, none of which is the head.
use ming.SList.Chain.{SChain-frame, SChain}
use ming.SList.{
  slist_foreach_loop, slist_empty, slist_foreach, slist_foreach_safe_loop, slist_foreach_safe,
  slist_pop, slist_init, slist_push, SLinks,
}
use ming.Base.{
  refl, inr, inl, ap, ◌⊎◌, ◌<◌, length, some, true, ◌∷◌, Run, arith, false, update, [], ◌≡◌, elem,
  Returns, ◌≢◌, List, ℕ, zero, suc,
}

pub record IsSList (s : SLinks) (head : ℕ) (xs : List ℕ) : Type 0 where
  pub chain : SChain s.next (s.next head) xs
  pub head_nonnull : head ≢ 0
  pub apart : elem head xs ≡ false

-- `m_slist_init` makes an empty list of any node.
pub slist_init-IsSList :
    (s : SLinks) (head : ℕ) → head ≢ 0 → Returns (slist_init head s) (λ _ t. IsSList t head [])
unfolding slist_init
slist_init-IsSList s head h = (
  tt,
  record { next = update s.next head 0 },
  ground arith,
  record { chain = ground arith; head_nonnull = h; apart = refl },
)

-- `m_slist_push` of a node that is not in the list puts it in front, and `m_slist_pop` then returns
-- that node and leaves the list as it was.
pub slist_push-pop :
    (s : SLinks) (head node : ℕ) (xs : List ℕ)
    → IsSList s head xs
    → node ≢ 0
    → elem node (head ∷ xs) ≡ false
    → Returns (slist_push head node s) (λ _ t.
      IsSList t head (node ∷ xs)
      × Returns (slist_pop head t) (λ n u. (n ≡ node) × IsSList u head xs))
unfolding slist_push slist_pop
slist_push-pop s head node xs l h f =
    let pushed = update (update s.next node (s.next head)) head node in
    let kept =
      SChain-frame s.next pushed (s.next head) (pushed node) xs (ground arith)
        (λ a e. ground (arith, l.apart)) l.chain in
    let popped = update pushed head (pushed node) in
    (
      tt,
      record { next = pushed },
      ground (arith, l.head_nonnull),
      (
        record {
          chain = (ground arith, h, ground arith, kept);
          head_nonnull = l.head_nonnull;
          apart = ground (arith, l.apart);
        },
        (
          node,
          record { next = popped },
          ground (arith, l.head_nonnull),
          (
            refl,
            record {
              chain =
                  SChain-frame s.next popped (s.next head) (popped head) xs (ground arith)
                    (λ a e. ground (arith, l.apart)) l.chain;
              head_nonnull = l.head_nonnull;
              apart = l.apart;
            },
          ),
        ),
      ),
    )

-- `m_slist_pop` of an empty list returns `NULL` and changes nothing; of another list it returns the
-- first node and leaves the list of the others. `m_slist_empty` tells the two cases apart.
pub slist_pop_cases :
    (s : SLinks) (head : ℕ) (xs : List ℕ)
    → IsSList s head xs
    → (xs ≡ []) × (slist_empty head s ≡ some (true, s)) × (slist_pop head s ≡ some (0, s))
      ⊎ (slist_empty head s ≡ some (false, s))
        × Returns (slist_pop head s) (λ n t. (ys : List ℕ) × (xs ≡ n ∷ ys) × IsSList t head ys)
unfolding slist_empty slist_pop
slist_pop_cases s head [] l =
    inl (refl, ground (arith, l.chain, l.head_nonnull), ground (arith, l.chain, l.head_nonnull))
slist_pop_cases s head (x ∷ xs) l =
    let popped = update s.next head (s.next x) in
    let (here, nz, out, rest) = l.chain in
    inr (
      ground (arith, l.head_nonnull),
      (
        x,
        record { next = popped },
        ground (arith, l.head_nonnull),
        (
          xs,
          refl,
          record {
            chain =
                SChain-frame s.next popped (s.next x) (popped head) xs (ground arith)
                  (λ a e. ground (arith, l.apart)) rest;
            head_nonnull = l.head_nonnull;
            apart = ground (arith, l.apart);
          },
        ),
      ),
    )

foreach_loop-SChain :
    (body : ℕ → Run SLinks (Unit {0})) (s : SLinks) (p : ℕ) (xs : List ℕ) (fuel : ℕ)
    → SChain s.next p xs
    → ((a : ℕ) → elem a xs ≡ true → body a s ≡ some (tt, s))
    → length xs < fuel
    → slist_foreach_loop body fuel p s ≡ some (xs, s)
unfolding slist_foreach_loop
foreach_loop-SChain body s p xs zero c q lt = absurd (omega arith)
foreach_loop-SChain body s p [] (suc fuel) c q lt = ground arith
foreach_loop-SChain body s p (x ∷ xs) (suc fuel) c q lt = ground (
  arith,
  q x,
  foreach_loop-SChain body s (s.next x) xs fuel c.3 (λ a e. q a (ground arith)) (omega arith),
)

-- `m_slist_foreach` with a body that leaves the links alone visits the nodes in order, and ends.
pub slist_foreach-visits :
    (body : ℕ → Run SLinks (Unit {0})) (s : SLinks) (head : ℕ) (xs : List ℕ) (fuel : ℕ)
    → IsSList s head xs
    → ((a : ℕ) → elem a xs ≡ true → body a s ≡ some (tt, s))
    → length xs < fuel
    → slist_foreach body fuel head s ≡ some (xs, s)
unfolding slist_foreach
slist_foreach-visits body s head xs fuel l q lt =
    ground (arith, l.head_nonnull, foreach_loop-SChain body s (s.next head) xs fuel l.chain q lt)

-- A body that may overwrite the link of the node that it is given, as `free` does, and no other.
abbrev pub Frees : (ℕ → Run SLinks (Unit {0})) → (ℕ → ℕ → ℕ) → Type 0
Frees body junk =
    (a : ℕ) (s : SLinks)
    → body a s ≡ some (tt, record { next = update s.next a (junk a (s.next a)) })

foreach_safe_loop-SChain :
    (body : ℕ → Run SLinks (Unit {0})) (junk : ℕ → ℕ → ℕ) (s : SLinks) (p : ℕ) (xs : List ℕ)
    (fuel : ℕ)
    → SChain s.next p xs
    → Frees body junk
    → length xs < fuel
    → Returns
        (slist_foreach_safe_loop body fuel p s)
        (λ visited t. (visited ≡ xs) × ((a : ℕ) → elem a xs ≡ false → t.next a ≡ s.next a))
unfolding slist_foreach_safe_loop
foreach_safe_loop-SChain body junk s p xs zero c q lt = absurd (omega arith)
foreach_safe_loop-SChain body junk s p [] (suc fuel) c q lt =
    ([], s, ground arith, (refl, λ a e. refl))
foreach_safe_loop-SChain body junk s p (x ∷ xs) (suc fuel) c q lt =
    let f = update s.next x (junk x (s.next x)) in
    let chain = SChain-frame s.next f (s.next x) (s.next x) xs refl (λ a e. ground arith) c.3 in
    let (visited, t, run, (same, kept)) =
      foreach_safe_loop-SChain body junk (record { next = f }) (s.next x) xs fuel chain q
        (omega arith) in
    (
      x ∷ visited,
      t,
      ground (arith, q x s, run),
      (ap (λ (l : List ℕ). x ∷ l) same, λ a e. ground (arith, kept a)),
    )

-- `m_slist_foreach_safe` visits every node in order even if the body destroys the current node's
-- link, as freeing it does, and touches no link of another node.
pub slist_foreach_safe-visits :
    (body : ℕ → Run SLinks (Unit {0})) (junk : ℕ → ℕ → ℕ) (s : SLinks) (head : ℕ) (xs : List ℕ)
    (fuel : ℕ)
    → IsSList s head xs
    → Frees body junk
    → length xs < fuel
    → Returns
        (slist_foreach_safe body fuel head s)
        (λ visited t. (visited ≡ xs) × ((a : ℕ) → elem a xs ≡ false → t.next a ≡ s.next a))
unfolding slist_foreach_safe
slist_foreach_safe-visits body junk s head xs fuel l q lt =
    let (visited, t, run, p) =
      foreach_safe_loop-SChain body junk s (s.next head) xs fuel l.chain q lt in
    (visited, t, ground (arith, l.head_nonnull, run), p)
