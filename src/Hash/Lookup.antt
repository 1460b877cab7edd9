-- ===== src/Hash/Lookup.antt =====
-- The searches `m_hash_lookup`, `m_hash_lookup_with_kv` and `m_hash_lookup_with_prev`.
use ming.SList.Chain.{SChain}
use ming.Hash.Table.{
  nil_of_no_elem, empty-Holds, SChain-nonnull, first_match-Finds, Finds-FindsIn, length-le-size,
  nlist_pos, FindsIn, IsTable, Lawful, first_match,
}
use ming.Hash.{hash_lookup_with_kv, hash_lookup, Hash, hash_lookup_loop, HashOps}
use ming.Base.{
  refl, inr, inl, [], ◌∷◌, ◌==◌, Bool-cases, arith, length, some, ◌≡◌, ◌<◌, ◌≢◌, ◌%◌, List, ℕ, zero,
  suc,
}

module _ (ops : HashOps) (key : ℕ) where
  lookup_loop-first_match :
      (s : Hash) (p : ℕ) (xs : List ℕ) (fuel : ℕ)
      → SChain s.next p xs
      → length xs < fuel
      → hash_lookup_loop ops fuel key p s ≡ some (first_match ops key xs, s)
  unfolding hash_lookup_loop first_match
  lookup_loop-first_match s p xs zero c h = absurd (omega arith)
  lookup_loop-first_match s p [] (suc fuel) c h = ground arith
  lookup_loop-first_match s p (x ∷ xs) (suc fuel) c h =
      ground (arith, lookup_loop-first_match s (s.next x) xs fuel c.3 (omega arith))

  module _ (s : Hash) (bs : ℕ → List ℕ) (fuel : ℕ) where
    abbrev answer : ℕ
    answer = first_match ops key (bs (ops.kv key % s.nlist))

    pub answer-FindsIn : Lawful ops → IsTable ops s bs → s.size ≢ 0 → FindsIn ops key bs answer
    answer-FindsIn law table h =
        let nz = nlist_pos table h in
        let i = ops.kv key % s.nlist in
        let lt : i < s.nlist = grind arith in
        Finds-FindsIn table key answer law (
          first_match-Finds ops key (bs i)
            (SChain-nonnull s.next (s.lists i) (bs i) (table.chains i lt)))

    lookup_with_kv-answer :
        IsTable ops s bs
        → s.size < fuel
        → s.size ≢ 0
        → hash_lookup_with_kv ops fuel key s ≡ some ((answer, ops.kv key), s)
    unfolding hash_lookup_with_kv
    lookup_with_kv-answer table f h =
        let nz = nlist_pos table h in
        let i = ops.kv key % s.nlist in
        let lt : i < s.nlist = grind arith in
        let buf = table.buf (omega arith) in
        let loop =
          lookup_loop-first_match s (s.lists i) (bs i) fuel (table.chains i lt)
            (omega (arith, length-le-size table i lt)) in
        ground (arith, loop)

    -- On a table, `m_hash_lookup_with_kv` ends without a fault, changes nothing, stores the `kv` of
    -- the key, and returns a node of the table with an equal key, or `NULL` exactly if no node of
    -- the table has one. `m_hash_lookup` returns the same node.
    pub hash_lookup-FindsIn :
        IsTable ops s bs
        → Lawful ops
        → s.size < fuel
        → (n : ℕ) × (hash_lookup_with_kv ops fuel key s ≡ some ((n, ops.kv key), s))
          × (hash_lookup ops fuel key s ≡ some (n, s))
          × FindsIn ops key bs n
    unfolding hash_lookup hash_lookup_with_kv
    hash_lookup-FindsIn table law f = elim (Bool-cases (s.size == 0)) [
      | inl e ↦ (
        0,
        ground arith,
        ground arith,
        inr (refl, λ a h. absurd (empty-Holds table (ground arith) a h)),
      )
      | inr e ↦
          let h : s.size ≢ 0 = ground arith in
          let run = lookup_with_kv-answer table f h in
          (answer, run, rw run, answer-FindsIn law table h)
    ]

    empty_answer : IsTable ops s bs → s.size ≡ 0 → answer ≡ 0
    unfolding first_match
    empty_answer table h =
        let i = ops.kv key % s.nlist in
        let none_there : bs i ≡ [] = nil_of_no_elem (bs i) (λ a e. empty-Holds table h a (i, e)) in
        rw none_there

    -- The answer of a search, also for a table with no node.
    pub hash_lookup-answer :
        IsTable ops s bs → s.size < fuel → hash_lookup ops fuel key s ≡ some (answer, s)
    unfolding hash_lookup hash_lookup_with_kv
    hash_lookup-answer table f = elim (Bool-cases (s.size == 0)) [
      | inl e ↦ ground (arith, empty_answer table)
      | inr e ↦ rw (lookup_with_kv-answer table f (ground arith))
    ]
