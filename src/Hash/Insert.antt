-- ===== src/Hash/Insert.antt =====
-- `m_hash_insert` and `m_hash_insert_with_kv`.
use ming.Hash.Lookup.{hash_lookup-answer}
use ming.SList.Chain.{SChain-frame}
use ming.Hash.Bucket.{Holds-old, Holds-update, Changes-IsTable, Changes}
use ming.Hash.Table.{Holds, Lawful, IsTable, first_match}
use ming.Hash.{hash_lookup, u32, hash_insert, Hash, HashOps}
use ming.Base.{
  ap, ◌∙◌, refl, ◌==◌, inr, inl, true, Bool-cases, if◌then◌else◌, false, elem, ◌⊎◌, ◌∷◌, ◌↔◌,
  Returns, arith, ◌^◌, some, ◌<◌, ◌≡◌, ◌+◌, ◌≢◌, update, ◌%◌, List, ℕ,
}

module _ (ops : HashOps) (s : Hash) (bs : ℕ → List ℕ) (node : ℕ) where
  abbrev home : ℕ
  home = ops.kv (ops.get_key node) % s.nlist

  abbrev inserted : Hash
  inserted = record s {
    lists = update s.lists home node;
    size = u32 (s.size + 1);
    next = update s.next node (s.lists home);
  }

  insert_effect :
      IsTable ops s bs → s.nlist ≢ 0 → node ≢ 0 → hash_insert ops node s ≡ some (tt, inserted)
  unfolding hash_insert
  insert_effect table n z =
      let lt : home < s.nlist = grind arith in ground (arith, table.buf (omega arith))

  inserted-Changes :
      IsTable ops s bs
      → s.nlist ≢ 0
      → node ≢ 0
      → ¬ Holds bs node
      → s.size + 1 < 2 ^ 32
      → Changes s inserted home (bs home) (node ∷ bs home)
  inserted-Changes table n z out room =
      let lt : home < s.nlist = grind arith in
      let fresh : elem node (bs home) ≡ false = elim (Bool-cases (elem node (bs home))) [
        | inl e ↦ absurd (out (home, e))
        | inr e ↦ e
      ] in
      record {
        allocated = refl;
        nlist = refl;
        chain = (
          ground arith,
          z,
          fresh,
          SChain-frame s.next _ (s.lists home) _ (bs home) (ground arith) (λ a e. ground arith)
              (table.chains home lt),
        );
        lists = λ j e. ground arith;
        next = λ a e f. ground arith;
        size = omega arith;
        small = omega arith;
      }

  insert_answer :
      Lawful ops
      → (q m : ℕ) → m ≡ first_match ops q (bs (ops.kv q % s.nlist))
      → first_match ops q (update bs home (node ∷ bs home) (ops.kv q % s.nlist))
        ≡ (if ops.equal q (ops.get_key node) then node else m)
  unfolding first_match
  insert_answer law q m e = elim (Bool-cases (ops.equal q (ops.get_key node))) [
    | inl hit ↦
        let same : ops.kv q ≡ ops.kv (ops.get_key node) = law.equal-kv q (ops.get_key node) hit in
        rw (same, hit) (ground arith)
    | inr miss ↦ elim (Bool-cases (ops.kv q % s.nlist == home)) [
      | inl here ↦ let same : ops.kv q % s.nlist ≡ home = ground arith in ground arith
      | inr there ↦ ground arith
    ]
  ]

  -- `m_hash_insert` of a new node into a table that has lists, and room for one more in the 32 bits of
  -- its size, ends without a fault. The result is a
  -- table of the old nodes and the new one, and a search for any key `q` finds the new node if its
  -- key is equal to `q`, and what it found before otherwise.
  pub hash_insert-IsTable :
      IsTable ops s bs
      → Lawful ops
      → s.nlist ≢ 0
      → node ≢ 0
      → ¬ Holds bs node
      → s.size + 1 < 2 ^ 32
      → Returns (hash_insert ops node s) (λ _ t.
        (cs : ℕ → List ℕ) × IsTable ops t cs
        × (t.size ≡ s.size + 1)
        × ((a : ℕ) → Holds cs a ↔ ((a ≡ node) ⊎ Holds bs a))
        × ((q fuel n : ℕ)
            → s.size + 1 < fuel
            → hash_lookup ops fuel q s ≡ some (n, s)
            → hash_lookup ops fuel q t
              ≡ some ((if ops.equal q (ops.get_key node) then node else n), t)))
  hash_insert-IsTable table law n z out room =
      let lt : home < s.nlist = grind arith in
      let ch = inserted-Changes table n z out room in
      let there : (a : ℕ)
          → elem a (node ∷ bs home) ≡ true
          → ops.kv (ops.get_key a) % s.nlist ≡ home =
        λ a e. ground (arith, table.homes home a) in
      let table' = Changes-IsTable table lt there ch in
      (
        tt,
        inserted,
        insert_effect table n z,
        (
          update bs home (node ∷ bs home),
          table',
          omega arith,
          λ a. (
            λ h. elim (Holds-update table lt there ch a h) [
              | inl e ↦ elim (Bool-cases (a == node)) [
                | inl same ↦ inl (ground arith)
                | inr ne ↦ inr (home, ground arith)
              ]
              | inr (_, old) ↦ inr old
            ],
            λ h. elim h [
              | inl e ↦ (home, ground arith)
              | inr (j, e) ↦ elim (Bool-cases (elem a (bs home))) [
                | inl m ↦ (home, ground arith)
                | inr m ↦ Holds-old table lt there ch a (j, e) (inl m)
              ]
            ],
          ),
          λ q fuel m f run.
              hash_lookup-answer ops q inserted _ fuel table' (omega arith)
              ∙ ap (λ r. some (r, inserted))
                  (insert_answer law q m
                    (ground (arith, hash_lookup-answer ops q s bs fuel table (omega arith)))),
        ),
      )
