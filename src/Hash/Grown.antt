-- ===== src/Hash/Grown.antt =====
-- The table after `m_hash_resize` has moved every node of the old lists.
use ming.SList.Chain.{SChain}
use ming.Hash.Rehash.{elem-move, new_home, total-move, move, Pending, moves}
use ming.Hash.{Hash, HashOps}
use ming.Hash.Table.{length-le-size, Holds, IsTable, total}
use ming.Base.{
  inr, ◌&&◌, ◌↔◌, ◌==◌, inl, Bool-cases, ◌||◌, false, true, elem, refl, arith, ◌<◌, length, ◌+◌,
  ◌≤◌, ◌≡◌, [], Bool, List, ℕ, zero, suc,
}

held : ℕ → (ℕ → List ℕ) → ℕ → ℕ → Bool
held a bs zero pos = false
held a bs (suc r) pos = elem a (bs pos) || held a bs r (pos + 1)

held_intro :
    (a : ℕ) (bs : ℕ → List ℕ) (r pos j : ℕ)
    → pos ≤ j
    → j < pos + r
    → elem a (bs j) ≡ true
    → held a bs r pos ≡ true
unfolding held
held_intro a bs zero pos j lo hi m = absurd (omega arith)
held_intro a bs (suc r) pos j lo hi m = elim (Bool-cases (pos == j)) [
  | inl e ↦ let same : pos ≡ j = ground arith in rw same (rw m)
  | inr ne ↦ ground (arith, held_intro a bs r (pos + 1) j (ground arith) (omega arith) m)
]

held-Holds : (a : ℕ) (bs : ℕ → List ℕ) (r pos : ℕ) → held a bs r pos ≡ true → Holds bs a
unfolding held
held-Holds a bs zero pos h = cc
held-Holds a bs (suc r) pos h = elim (Bool-cases (elem a (bs pos))) [
  | inl e ↦ (pos, e)
  | inr e ↦ held-Holds a bs r (pos + 1) (ground arith)
]

lengths_from : ℕ → ℕ → (ℕ → List ℕ) → ℕ
lengths_from zero pos bs = 0
lengths_from (suc r) pos bs = length (bs pos) + lengths_from r (pos + 1) bs

total-lengths_from :
    (r pos n : ℕ) (bs : ℕ → List ℕ)
    → pos + r ≡ n
    → total pos bs + lengths_from r pos bs ≡ total n bs
unfolding lengths_from total
total-lengths_from zero pos n bs e = let same : pos ≡ n = omega arith in rw same (omega arith)
total-lengths_from (suc r) pos n bs e =
    let ih = total-lengths_from r (suc pos) n bs (omega arith) in
    let next : pos + 1 ≡ suc pos = omega arith in rw next (omega (arith, ih))

module _ (ops : HashOps) (nsize : ℕ) where
  elem-moves :
      (a i r pos : ℕ) (bs ds : ℕ → List ℕ)
      → elem a (moves ops nsize r pos bs ds i)
        ≡ (elem a (ds i) || (held a bs r pos && (new_home ops nsize a == i)))
  unfolding moves held
  elem-moves a i zero pos bs ds = ground arith
  elem-moves a i (suc r) pos bs ds = ground (
    arith,
    elem-moves a i r (pos + 1) bs (move ops nsize (bs pos) ds),
    elem-move ops nsize a i (bs pos) ds,
  )

  total-moves :
      (r pos : ℕ) (bs ds : ℕ → List ℕ)
      → 0 < nsize
      → total nsize (moves ops nsize r pos bs ds) ≡ total nsize ds + lengths_from r pos bs
  unfolding moves lengths_from
  total-moves zero pos bs ds h = omega arith
  total-moves (suc r) pos bs ds h = omega (
    arith,
    total-moves r (pos + 1) bs (move ops nsize (bs pos) ds) h,
    total-move ops nsize (bs pos) ds h,
  )

zero_total : (bs : ℕ → List ℕ) → total 0 bs ≡ 0
unfolding total
zero_total bs = refl

total-empty : (n : ℕ) → total n (λ _. []) ≡ 0
unfolding total
total-empty zero = refl
total-empty (suc n) = omega (arith, total-empty n)

module _ (ops : HashOps) (s : Hash) (bs : ℕ → List ℕ) (fuel nsize : ℕ) where
  -- The lists of the new buffer.
  abbrev pub grown : ℕ → List ℕ
  grown = moves ops nsize s.nlist 0 bs (λ _. [])

  pub Table-Pending : IsTable ops s bs → s.size < fuel → Pending s bs fuel 0
  Table-Pending table f = record {
    allocated = table.buf;
    chains = λ j lo hi. table.chains j hi;
    apart = λ i j a m n. ground (arith, table.homes i a m, table.homes j a n);
    short = λ j h. omega (arith, length-le-size table j h);
  }

  pub grown-IsTable :
      (t : Hash) (nbuf : ℕ → ℕ)
      → IsTable ops s bs
      → 0 < nsize
      → t.size ≡ s.size
      → ((i : ℕ) → i < nsize → SChain t.next (nbuf i) (grown i))
      → t.allocated ≡ true
      → t.lists ≡ nbuf
      → t.nlist ≡ nsize
      → IsTable ops t grown
  grown-IsTable t nbuf table pos size chains al li nl = record {
    buf = λ h. al;
    chains = λ i lt. rw li (chains i (omega arith));
    homes = λ i a m.
        let there : (new_home ops nsize a == i) ≡ true =
          ground (arith, elem-moves ops nsize a i s.nlist 0 bs (λ _. [])) in
        let eq : new_home ops nsize a ≡ i = ground arith in
        let lt : new_home ops nsize a < nsize = grind arith in (omega arith, rw nl eq);
    count = rw nl (
        omega (
          arith,
          size,
          table.count,
          total-moves ops nsize s.nlist 0 bs (λ _. []) pos,
          total-empty nsize,
          total-lengths_from s.nlist 0 s.nlist bs (omega arith),
          zero_total bs,
        ));
    small = omega (arith, size, table.small);
  }

  pub grown-Holds : IsTable ops s bs → (a : ℕ) → Holds grown a ↔ Holds bs a
  grown-Holds table a = (
    λ (i, m).
        held-Holds a bs s.nlist 0 (ground (arith, elem-moves ops nsize a i s.nlist 0 bs (λ _. []))),
    λ (i, m). (
      new_home ops nsize a,
      ground (
        arith,
        elem-moves ops nsize a (new_home ops nsize a) s.nlist 0 bs (λ _. []),
        held_intro a bs s.nlist 0 i (omega arith) (ground (arith, table.homes i a m)) m,
      ),
    ),
  )
