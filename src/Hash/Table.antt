-- ===== src/Hash/Table.antt =====
-- When an `M_Hash` is a table of the nodes in `bs`, list by list.
use ming.SList.Chain.{SChain}
use ming.Base.{
  subst, ltb, inl, Bool-cases, refl, [], inr, ◌%◌, ◌⊎◌, false, true, if◌then◌else◌, arith, ◌+◌,
  elem, ◌^◌, update, ◌≢◌, length, ◌≤◌, ◌∷◌, ◌≡◌, ◌<◌, List, ℕ, zero, suc,
}
use ming.Hash.{Hash, HashOps}

-- The number of nodes in the first `n` lists.
unfoldable pub total : ℕ → (ℕ → List ℕ) → ℕ
total zero bs = 0
total (suc n) bs = total n bs + length (bs n)

total-update_of_le :
    (n : ℕ) (bs : ℕ → List ℕ) (i : ℕ) (c : List ℕ) → n ≤ i → total n (update bs i c) ≡ total n bs
unfolding total
total-update_of_le zero bs i c h = refl
total-update_of_le (suc n) bs i c h = ground (arith, total-update_of_le n bs i c)

pub total-update :
    (n : ℕ) (bs : ℕ → List ℕ) (i : ℕ) (c : List ℕ)
    → i < n
    → total n (update bs i c) + length (bs i) ≡ total n bs + length c
unfolding total
total-update zero bs i c h = absurd (omega arith)
total-update (suc n) bs i c h = elim (Bool-cases (ltb i n)) [
  | inl below ↦ ground (arith, total-update n bs i c)
  | inr here ↦ ground (arith, total-update_of_le n bs i c)
]

pub length-le-total : (n : ℕ) (bs : ℕ → List ℕ) (i : ℕ) → i < n → length (bs i) ≤ total n bs
unfolding total
length-le-total zero bs i h = absurd (omega arith)
length-le-total (suc n) bs i h = elim (Bool-cases (ltb i n)) [
  | inl below ↦ ground (arith, length-le-total n bs i)
  | inr here ↦ ground arith
]

-- The documented behaviour of the callbacks: equal keys have the same `kv`.
pub record Lawful (ops : HashOps) : Type 0 where
  pub kv-lt : (k : ℕ) → ops.kv k < 2 ^ 32
  pub equal-kv : (j k : ℕ) → ops.equal j k ≡ true → ops.kv j ≡ ops.kv k

-- Every list of the buffer is a chain of distinct nodes, every node stands in the list that its
-- key selects, and `size` counts the nodes.
pub record IsTable (ops : HashOps) (s : Hash) (bs : ℕ → List ℕ) : Type 0 where
  pub buf : 0 < s.nlist → s.allocated ≡ true
  pub chains : (i : ℕ) → i < s.nlist → SChain s.next (s.lists i) (bs i)
  pub homes :
      (i a : ℕ) → elem a (bs i) ≡ true → (i < s.nlist) × (ops.kv (ops.get_key a) % s.nlist ≡ i)
  pub count : s.size ≡ total s.nlist bs
  pub small : s.size < 2 ^ 32

-- The node `a` is in the table.
abbrev pub Holds : (ℕ → List ℕ) → ℕ → Type 0
Holds bs a = (i : ℕ) × (elem a (bs i) ≡ true)

module _ (ops : HashOps) (key : ℕ) where
  -- The first node of a list whose key is equal to `key`, or 0.
  unfoldable pub first_match : List ℕ → ℕ
  first_match [] = 0
  first_match (x ∷ xs) = if ops.equal key (ops.get_key x) then x else first_match xs

  unfoldable pub erase_match : List ℕ → List ℕ
  erase_match [] = []
  erase_match (x ∷ xs) = if ops.equal key (ops.get_key x) then xs else x ∷ erase_match xs

  -- The node that a search of `xs` finds has an equal key; where none is found, none has.
  abbrev pub Finds : ℕ → List ℕ → Type 0
  Finds n xs =
      (n ≢ 0) × (elem n xs ≡ true) × (ops.equal key (ops.get_key n) ≡ true)
      ⊎ (n ≡ 0) × ((a : ℕ) → elem a xs ≡ true → ops.equal key (ops.get_key a) ≡ false)

  pub first_match-Finds : (xs : List ℕ) → elem 0 xs ≡ false → Finds (first_match xs) xs
  unfolding first_match
  first_match-Finds [] h = inr (refl, λ a e. cc)
  first_match-Finds (x ∷ xs) h = elim (Bool-cases (ops.equal key (ops.get_key x))) [
    | inl hit ↦ rw hit (inl (ground arith, ground arith, hit))
    | inr miss ↦
        let same : first_match xs ≡ first_match (x ∷ xs) = rw miss in
        subst (λ n. Finds n (x ∷ xs)) same
          (elim (first_match-Finds xs (ground arith)) [
            | inl (n, e, k) ↦ inl (n, ground arith, k)
            | inr (n, all) ↦ inr (n, λ a e. ground (arith, all a))
          ])
  ]

  pub elem-erase_match : (a : ℕ) (xs : List ℕ) → elem a (erase_match xs) ≡ true → elem a xs ≡ true
  unfolding erase_match
  elem-erase_match a [] h = h
  elem-erase_match a (x ∷ xs) h = ground (arith, elem-erase_match a xs)

  pub elem-erase_match_ne :
      (a : ℕ) (xs : List ℕ) → a ≢ first_match xs → elem a xs ≡ true → elem a (erase_match xs) ≡ true
  unfolding erase_match first_match
  elem-erase_match_ne a [] n h = h
  elem-erase_match_ne a (x ∷ xs) n h = ground (arith, elem-erase_match_ne a xs)

  pub length-erase_match :
      (xs : List ℕ) → first_match xs ≢ 0 → length xs ≡ suc (length (erase_match xs))
  unfolding erase_match first_match
  length-erase_match [] n = absurd (n refl)
  length-erase_match (x ∷ xs) n = ground (arith, length-erase_match xs)

  pub erase_match_none :
      (xs : List ℕ) → elem 0 xs ≡ false → first_match xs ≡ 0 → erase_match xs ≡ xs
  unfolding erase_match first_match
  erase_match_none [] h e = refl
  erase_match_none (x ∷ xs) h e = ground (arith, erase_match_none xs)

pub SChain-nonnull : (f : ℕ → ℕ) (p : ℕ) (xs : List ℕ) → SChain f p xs → elem 0 xs ≡ false
SChain-nonnull f p [] c = refl
SChain-nonnull f p (x ∷ xs) c = ground (arith, SChain-nonnull f (f x) xs c.3)

pub length-pos_of_elem : (a : ℕ) (xs : List ℕ) → elem a xs ≡ true → 0 < length xs
length-pos_of_elem a [] h = cc
length-pos_of_elem a (x ∷ xs) h = omega arith

pub nil_of_no_elem : (xs : List ℕ) → ((a : ℕ) → ¬ (elem a xs ≡ true)) → xs ≡ []
nil_of_no_elem [] h = refl
nil_of_no_elem (x ∷ xs) h = absurd (h x (ground arith))

-- What a search of the whole table for `key` may answer.
abbrev pub FindsIn : HashOps → ℕ → (ℕ → List ℕ) → ℕ → Type 0
FindsIn ops key bs n =
    (n ≢ 0) × Holds bs n × (ops.equal key (ops.get_key n) ≡ true)
    ⊎ (n ≡ 0) × ((a : ℕ) → Holds bs a → ops.equal key (ops.get_key a) ≡ false)

module _ {ops : HashOps} {s : Hash} {bs : ℕ → List ℕ} (table : IsTable ops s bs) where
  pub nlist_pos : s.size ≢ 0 → s.nlist ≢ 0
  unfolding total
  nlist_pos h e = ground (arith, table.count)

  pub length-le-size : (i : ℕ) → i < s.nlist → length (bs i) ≤ s.size
  length-le-size i h = omega (arith, table.count, length-le-total s.nlist bs i h)

  pub empty-Holds : s.size ≡ 0 → (a : ℕ) → ¬ Holds bs a
  empty-Holds e a (i, m) =
      omega (arith, length-pos_of_elem a (bs i) m, length-le-size i (table.homes i a m).0)

  -- A search of the list that the key selects answers for the whole table.
  pub Finds-FindsIn :
      (key : ℕ) (n : ℕ)
      → Lawful ops
      → Finds ops key n (bs (ops.kv key % s.nlist))
      → FindsIn ops key bs n
  Finds-FindsIn key n law (inl (h, e, k)) = inl (h, (ops.kv key % s.nlist, e), k)
  Finds-FindsIn key n law (inr (h, all)) = inr (
    h,
    λ a (i, m). elim (Bool-cases (ops.equal key (ops.get_key a))) [
      | inr miss ↦ miss
      | inl hit ↦
          let home = (table.homes i a m).1 in
          let same = law.equal-kv key (ops.get_key a) hit in all a (rw (same, home) m)
    ],
  )
