-- ===== src/Hash/Bucket.antt =====
-- A change of one list of a table.
use ming.SList.Chain.{SChain-frame, SChain}
use ming.Hash.Table.{Holds, total-update, IsTable}
use ming.Base.{
  ap, sym, ◌⊎◌, inr, inl, Bool-cases, ◌^◌, arith, update, length, ◌%◌, ◌+◌, true, false, ◌==◌, elem,
  ◌<◌, ◌≡◌, List, ℕ,
}
use ming.Hash.{Hash, HashOps}

-- `t` differs from `s` in list `i`, which holds the nodes `c` there instead of `old`.
pub record Changes (s t : Hash) (i : ℕ) (old c : List ℕ) : Type 0 where
  pub allocated : t.allocated ≡ s.allocated
  pub nlist : t.nlist ≡ s.nlist
  pub chain : SChain t.next (t.lists i) c
  pub lists : (j : ℕ) → (i == j) ≡ false → t.lists j ≡ s.lists j
  pub next : (a : ℕ) → elem a old ≡ false → elem a c ≡ false → t.next a ≡ s.next a
  pub size : t.size + length old ≡ s.size + length c
  pub small : t.size < 2 ^ 32

module _ {ops : HashOps} {s t : Hash} {bs : ℕ → List ℕ} {i : ℕ} {c : List ℕ}
    (table : IsTable ops s bs) (lt : i < s.nlist)
    (home : (a : ℕ) → elem a c ≡ true → ops.kv (ops.get_key a) % s.nlist ≡ i)
    (ch : Changes s t i (bs i) c) where
  other_chain : (j : ℕ) → j < s.nlist → (i == j) ≡ false → SChain t.next (t.lists j) (bs j)
  other_chain j lj ne =
      SChain-frame s.next t.next (s.lists j) (t.lists j) (bs j) (ch.lists j ne)
        (λ a e. ground (arith, ch.next a, home a, table.homes i a, table.homes j a))
        (table.chains j lj)

  -- The changed table holds `c` in list `i`, and what it held elsewhere.
  pub Changes-IsTable : IsTable ops t (update bs i c)
  Changes-IsTable = record {
    buf = λ h. ground (arith, table.buf, ch.allocated, ch.nlist);
    chains = λ j lj. elim (Bool-cases (j == i)) [
      | inl e ↦ let same : j ≡ i = ground arith in rw e (rw same ch.chain)
      | inr ne ↦ rw ne (other_chain j (ground (arith, ch.nlist)) (ground arith))
    ];
    homes = λ j a e. ground (arith, home a, table.homes j a, ch.nlist);
    count = rw ch.nlist (omega (arith, total-update s.nlist bs i c lt, table.count, ch.size));
    small = ch.small;
  }

  -- Membership after the change.
  pub Holds-update :
      (a : ℕ) → Holds (update bs i c) a → (elem a c ≡ true) ⊎ (elem a (bs i) ≡ false) × Holds bs a
  Holds-update a (j, e) = elim (Bool-cases (j == i)) [
    | inl same ↦ inl (ground arith)
    | inr ne ↦ inr (ground (arith, table.homes i a, table.homes j a), (j, ground arith))
  ]

  pub Holds-old :
      (a : ℕ) → Holds bs a → (elem a (bs i) ≡ false) ⊎ (elem a c ≡ true) → Holds (update bs i c) a
  Holds-old a (j, e) (inr h) = (i, ground arith)
  Holds-old a (j, e) (inl h) = (
    j,
    elim (Bool-cases (j == i)) [
      | inl same ↦
          let eq : j ≡ i = ground arith in absurd (cc (sym h, ap (λ k. elem a (bs k)) (sym eq), e))
      | inr ne ↦ rw ne e
    ],
  )
