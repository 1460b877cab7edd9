-- ===== src/Hash/Release.antt =====
-- `m_hash_init` and `m_hash_deinit`, and the order of `m_hash_foreach_safe`.
use ming.Hash.Grown.{Table-Pending}
use mathlib.Core.List.{append_assoc, append-nil}
use ming.Hash.Rehash.{Pending}
use ming.Hash.Table.{total, IsTable}
use ming.SList.Chain.{SChain}
use ming.Hash.{hash_size, hash_init, pointer_size, free_buf, free_node, HashOps, Call, Hash}
use ming.Hash.Storage.{free_body, hash_deinit, hash_foreach_safe, chain_foreach_safe}
use ming.Base.{
  false, inl, sym, inr, Bool-cases, ◌*◌, arith, if◌then◌else◌, Returns, refl, some, ◌<◌, length, ap,
  ◌∷◌, ◌≡◌, ◌++◌, [], ◌+◌, List, ℕ, zero, suc,
}

-- The nodes of the lists from `pos` on, in the order of the loops.
unfoldable pub nodes : ℕ → ℕ → (ℕ → List ℕ) → List ℕ
nodes zero pos bs = []
nodes (suc r) pos bs = bs pos ++ nodes r (pos + 1) bs

abbrev pub frees : List ℕ → List Call
frees [] = []
frees (x ∷ xs) = free_node x ∷ frees xs

frees-append : (xs ys : List ℕ) → frees (xs ++ ys) ≡ frees xs ++ frees ys
frees-append [] ys = refl
frees-append (x ∷ xs) ys = ap (λ l. free_node x ∷ l) (frees-append xs ys)

-- The store with more releases logged.
abbrev logged : Hash → List Call → Hash
logged s l = record s { calls = s.calls ++ l }

free_chain :
    (s : Hash) (p : ℕ) (xs : List ℕ) (fuel : ℕ)
    → SChain s.next p xs
    → length xs < fuel
    → chain_foreach_safe free_body fuel p tt s ≡ some (tt, logged s (frees xs))
unfolding chain_foreach_safe free_body
free_chain s p xs zero c h = absurd (omega arith)
free_chain s p [] (suc fuel) c h = ground (arith, append-nil s.calls)
free_chain s p (x ∷ xs) (suc fuel) c h = ground (
  arith,
  free_chain (logged s (free_node x ∷ [])) (s.next x) xs fuel c.3 (omega arith),
  append_assoc s.calls (free_node x ∷ []) (frees xs),
)

free_lists :
    (r pos : ℕ) (s : Hash) (bs : ℕ → List ℕ) (fuel : ℕ)
    → pos + r ≡ s.nlist
    → Pending s bs fuel pos
    → hash_foreach_safe free_body fuel r pos tt s ≡ some (tt, logged s (frees (nodes r pos bs)))
unfolding hash_foreach_safe nodes
free_lists zero pos s bs fuel e p = ground (arith, append-nil s.calls)
free_lists (suc r) pos s bs fuel e p =
    let here : pos < s.nlist = omega arith in
    let s' = logged s (frees (bs pos)) in
    let next : Pending s' bs fuel (pos + 1) = record {
      allocated = λ h. p.allocated here;
      chains = λ j lo hi. p.chains j (omega arith) hi;
      apart = p.apart;
      short = p.short;
    } in
    ground (
      arith,
      p.allocated,
      free_chain s (s.lists pos) (bs pos) fuel (p.chains pos (omega arith) here) (p.short pos here),
      free_lists r (pos + 1) s' bs fuel (omega arith) next,
      frees-append (bs pos) (nodes r (pos + 1) bs),
      append_assoc s.calls (frees (bs pos)) (frees (nodes r (pos + 1) bs)),
    )

-- `m_hash_deinit` of a table ends without a fault. If the table has a buffer, it releases the nodes,
-- list by list in order, if `free_node` is set, and then the buffer; it releases nothing else.
pub hash_deinit-calls :
    (ops : HashOps) (s : Hash) (bs : ℕ → List ℕ) (fuel : ℕ)
    → IsTable ops s bs
    → s.size < fuel
    → Returns (hash_deinit ops fuel s) (λ _ t.
      t.calls
      ≡ s.calls
        ++ (if s.allocated
            then (if ops.has_free_node then frees (nodes s.nlist 0 bs) else [])
              ++ free_buf (pointer_size * s.nlist) ∷ []
            else []))
unfolding hash_deinit
hash_deinit-calls ops s bs fuel table f =
    let loop =
      free_lists s.nlist 0 s bs fuel (omega arith) (Table-Pending ops s bs fuel 0 table f) in
    elim (Bool-cases s.allocated) [
      | inr e ↦ (tt, s, ground arith, rw e (sym (append-nil s.calls)))
      | inl e ↦ elim (Bool-cases ops.has_free_node) [
        | inl g ↦ (
          tt,
          logged (logged s (frees (nodes s.nlist 0 bs))) (free_buf (pointer_size * s.nlist) ∷ []),
          ground (arith, loop),
          rw (e, g) (append_assoc s.calls _ _),
        )
        | inr g ↦ (tt, logged s (free_buf (pointer_size * s.nlist) ∷ []), ground arith, rw (e, g))
      ]
    ]

-- `m_hash_init` leaves an empty table, whatever the structure held before.
pub hash_init-IsTable :
    (ops : HashOps) (s : Hash)
    → Returns (hash_init s) (λ _ t. IsTable ops t (λ _. []) × (hash_size t ≡ some (0, t)))
unfolding hash_init hash_size total
hash_init-IsTable ops s = (
  tt,
  record s { allocated = false; size = 0; nlist = 0 },
  refl,
  (
    record {
      buf = λ h. absurd (omega arith);
      chains = λ i h. absurd (omega arith);
      homes = λ i a m. cc;
      count = refl;
      small = omega arith;
    },
    refl,
  ),
)
