-- ===== src/Hash/Remove/Table.antt =====
-- `m_hash_remove` on a table.
use ming.Hash.Lookup.{answer-FindsIn}
use ming.Hash.Bucket.{Changes-IsTable, Holds-old, Holds-update, Changes}
use ming.Hash.Remove.{remove_loop-Unlinked, Unlinked}
use ming.SList.Chain.{SChain}
use ming.Hash.Table.{
  nlist_pos, empty-Holds, FindsIn, Lawful, erase_match_none, length-erase_match,
  elem-erase_match_ne, length-le-size, elem-erase_match, SChain-nonnull, first_match-Finds,
  erase_match, IsTable, Holds, first_match,
}
use ming.Hash.{
  hash_remove_from_prev, next_of, hash_lookup_prev_loop, hash_lookup_with_prev, hash_remove,
  load_slot, hash_remove_loop, Slot, list_head, Hash, HashOps,
}
use ming.Base.{
  ◌-◌, pure, Option-cases, ◌>>=◌, if◌then◌else◌, Returns, Run, ◌^◌, length, update, ◌+◌, true, some,
  [], arith, ◌==◌, inr, inl, refl, Bool-cases, ◌∷◌, false, elem, ◌≡◌, ◌≢◌, ◌<◌, ◌↔◌, ◌%◌, List, ℕ,
  zero, suc,
}

module _ (ops : HashOps) (key : ℕ) where
  elem-first_match :
      (f : ℕ → ℕ) (p : ℕ) (xs : List ℕ)
      → SChain f p xs
      → elem (first_match ops key xs) (erase_match ops key xs) ≡ false
  unfolding first_match erase_match
  elem-first_match f p [] c = refl
  elem-first_match f p (x ∷ xs) c = elim (Bool-cases (ops.equal key (ops.get_key x))) [
    | inl hit ↦ rw hit c.2
    | inr miss ↦
        let ih = elem-first_match f (f x) xs c.3 in
        let other : (first_match ops key xs == x) ≡ false =
          elim (first_match-Finds ops key xs (SChain-nonnull f (f x) xs c.3)) [
            | inl (n, e, k) ↦ ground (arith, c.2)
            | inr (n, all) ↦ ground (arith, c.1)
          ] in
        rw (miss, other) ih
  ]

  -- The members of a table after `m_hash_remove` has returned `n`.
  abbrev pub Drops : ℕ → (ℕ → List ℕ) → (ℕ → List ℕ) → Type 0
  Drops n bs cs = (a : ℕ) → Holds cs a ↔ Holds bs a × (a ≢ n)

  module _ (s : Hash) (bs : ℕ → List ℕ) where
    abbrev bucket : ℕ
    bucket = ops.kv key % s.nlist

    abbrev remaining : List ℕ
    remaining = erase_match ops key (bs bucket)

    remove-Changes :
        (t : Hash) (n : ℕ)
        → IsTable ops s bs
        → bucket < s.nlist
        → n ≡ first_match ops key (bs bucket)
        → SChain t.next (t.lists bucket) remaining
        → Unlinked s (list_head bucket) (bs bucket) n t
        → Changes s t bucket (bs bucket) remaining
    remove-Changes t n table lt found chain u = record {
      allocated = u.allocated;
      nlist = u.nlist;
      chain = chain;
      lists = λ j e. u.lists j e;
      next = λ a e f. u.next a refl e;
      size = counts.0;
      small = counts.1;
    }
      where
        counts : (t.size + length (bs bucket) ≡ s.size + length remaining) × (t.size < 2 ^ 32)
        counts = ground (
          arith,
          u.size,
          table.small,
          length-le-size table bucket lt,
          length-erase_match ops key (bs bucket),
          erase_match_none ops key (bs bucket)
              (SChain-nonnull s.next (s.lists bucket) (bs bucket) (table.chains bucket lt)),
        )

    remaining_homes :
        IsTable ops s bs
        → (a : ℕ) → elem a remaining ≡ true
        → ops.kv (ops.get_key a) % s.nlist ≡ bucket
    remaining_homes table a e = (table.homes bucket a (elem-erase_match ops key a (bs bucket) e)).1

    remaining-Drops :
        (t : Hash) (table : IsTable ops s bs) (lt : bucket < s.nlist)
        → Changes s t bucket (bs bucket) remaining
        → Drops (first_match ops key (bs bucket)) bs (update bs bucket remaining)
    remaining-Drops t table lt ch a = (
      λ h. elim (Holds-update table lt (remaining_homes table) ch a h) [
        | inl e ↦ ((bucket, elem-erase_match ops key a (bs bucket) e), λ same. ground (arith, gone))
        | inr (out, old) ↦ (old, λ same. not_elsewhere a out old same)
      ],
      λ (h, ne).
          Holds-old table lt (remaining_homes table) ch a h
            (elim (Bool-cases (elem a (bs bucket))) [
              | inl e ↦ inr (elem-erase_match_ne ops key a (bs bucket) ne e)
              | inr e ↦ inl e
            ]),
    )
      where
        not_elsewhere :
            (b : ℕ) → elem b (bs bucket) ≡ false → Holds bs b → b ≢ first_match ops key (bs bucket)
        not_elsewhere b out (j, e) same =
            elim (first_match-Finds ops key (bs bucket)
              (SChain-nonnull s.next (s.lists bucket) (bs bucket) (table.chains bucket lt))) [
                | inl (n, i, k) ↦ ground arith
                | inr (n, all) ↦ ground (
                  arith,
                  SChain-nonnull s.next (s.lists j) (bs j) (table.chains j (table.homes j b e).0),
                )
              ]

        gone : elem (first_match ops key (bs bucket)) remaining ≡ false
        gone = elem-first_match s.next (s.lists bucket) (bs bucket) (table.chains bucket lt)

    -- `m_hash_remove` on a table ends without a fault, in a table. If no node has a key equal to
    -- `key` it returns `NULL` and keeps all nodes; otherwise it returns such a node, the table loses
    -- exactly that node, and `size` is one less.
    pub hash_remove-IsTable :
        (fuel : ℕ)
        → IsTable ops s bs
        → Lawful ops
        → s.size < fuel
        → Returns (hash_remove ops fuel key s) (λ n t.
          FindsIn ops key bs n
          × (t.size ≡ (if n == 0 then s.size else s.size - 1))
          × (cs : ℕ → List ℕ) × IsTable ops t cs
          × Drops n bs cs)
    unfolding hash_remove
    hash_remove-IsTable fuel table law f = elim (Bool-cases (s.size == 0)) [
      | inl e ↦
          let empty = empty-Holds table (ground arith) in
          (
            0,
            s,
            ground arith,
            (
              inr (refl, λ a h. absurd (empty a h)),
              refl,
              bs,
              table,
              λ a. (λ h. absurd (empty a h), λ (h, ne). h),
            ),
          )
      | inr e ↦
          let h : s.size ≢ 0 = ground arith in
          let nz = nlist_pos table h in
          let lt : bucket < s.nlist = grind arith in
          let (n, t, run, (found, chain, u)) =
            remove_loop-Unlinked ops key s (list_head bucket) (bs bucket) fuel
              (table.chains bucket lt) (table.buf (omega arith), lt)
              (omega (arith, length-le-size table bucket lt)) in
          let ch = remove-Changes t n table lt found chain u in
          (
            n,
            t,
            ground arith,
            (
              rw found (answer-FindsIn ops key s bs fuel law table h),
              ground (arith, u.size, table.small),
              update bs bucket remaining,
              Changes-IsTable table lt (remaining_homes table) ch,
              rw found (remaining-Drops t table lt ch),
            ),
          )
    ]

-- What a caller does with the result of a lookup to remove what it found.
abbrev pub unlink_found : ℕ × Slot → Run Hash ℕ
unlink_found (node, prev) = if node == 0 then pure 0 else hash_remove_from_prev prev

load_slot-eq : (slot : Slot) (s t : Hash) (n : ℕ) → load_slot slot s ≡ some (n, t) → t ≡ s
unfolding load_slot
load_slot-eq (list_head i) s t n e = ground arith
load_slot-eq (next_of p) s t n e = ground arith

remove_loop-lookup_prev_loop :
    (ops : HashOps) (fuel key : ℕ) (slot : Slot) (s : Hash)
    → hash_remove_loop ops fuel key slot s
      ≡ (hash_lookup_prev_loop ops fuel key slot >>= unlink_found) s
unfolding hash_remove_loop hash_lookup_prev_loop hash_remove_from_prev
remove_loop-lookup_prev_loop ops zero key slot s = refl
remove_loop-lookup_prev_loop ops (suc fuel) key slot s = elim (Option-cases (load_slot slot s)) [
  | inl e ↦ rw e
  | inr ((n, t), e) ↦
      ground
        (arith, load_slot-eq slot s t n e, remove_loop-lookup_prev_loop ops fuel key (next_of n) s)
]

-- `m_hash_lookup_with_prev` followed, if it finds a node, by `m_hash_remove_from_prev` with the slot
-- that it stored, is `m_hash_remove`, on every table, well-formed or not.
pub hash_remove-lookup_with_prev :
    (ops : HashOps) (fuel key : ℕ) (s : Hash)
    → hash_remove ops fuel key s ≡ (hash_lookup_with_prev ops fuel key >>= unlink_found) s
unfolding hash_remove hash_lookup_with_prev
hash_remove-lookup_with_prev ops fuel key s =
    ground (arith, remove_loop-lookup_prev_loop ops fuel key (list_head (ops.kv key % s.nlist)) s)
