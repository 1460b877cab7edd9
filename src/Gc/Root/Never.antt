-- ===== src/Gc/Root/Never.antt =====
-- A search of the root table compares the root pointer with the addresses of the root nodes.
use ming.Hash.Remove.{load_slot-value, IsSlot, slot_value}
use ming.SList.Chain.{SChain}
use ming.Gc.Root.{Roots, gc_root_get_key, gc_root_hash_ops, gc_add_root, gc_remove_root}
use ming.Hash.{
  list_head, next_of, u32, Slot, hash_insert_with_kv, ptr_hash_kv_func, hash_lookup_with_prev,
  ptr_hash_equal_func, HashOps, hash_lookup_prev_loop, hash_lookup_loop, hash_lookup_with_kv, Hash,
}
use ming.Hash.Storage.{hash_resize}
use ming.Base.{
  update, ◌%◌, Returns, inr, ◌^◌, inl, ◌+◌, [], ◌==◌, ◌∷◌, ◌*◌, Bool-cases, arith, some, length,
  true, false, ◌≡◌, ◌<◌, elem, ◌≢◌, List, Option, ℕ, zero, suc,
}

-- Each list is a chain of distinct nodes shorter than the fuel; nothing is said of where nodes are.
pub record IsChained (s : Hash) (bs : ℕ → List ℕ) (fuel : ℕ) : Type 0 where
  pub lists : s.size ≢ 0 → (0 < s.nlist) × (s.allocated ≡ true)
  pub chains : (i : ℕ) → i < s.nlist → SChain s.next (s.lists i) (bs i)
  pub short : (i : ℕ) → i < s.nlist → length (bs i) < fuel

-- No list has a node at address `p`.
abbrev pub NoNode : (ℕ → List ℕ) → ℕ → Type 0
NoNode bs p = (i : ℕ) → elem p (bs i) ≡ false

module _ (alloc : ℕ → Option (ℕ → ℕ)) (p : ℕ) where
  abbrev root_ops : HashOps
  root_ops = gc_root_hash_ops alloc

  lookup_loop_misses :
      (s : Hash) (node : ℕ) (xs : List ℕ) (fuel : ℕ)
      → SChain s.next node xs
      → elem p xs ≡ false
      → length xs < fuel
      → hash_lookup_loop root_ops fuel p node s ≡ some (0, s)
  unfolding hash_lookup_loop ptr_hash_equal_func gc_root_get_key
  lookup_loop_misses s node xs zero c out h = absurd (omega arith)
  lookup_loop_misses s node [] (suc fuel) c out h = ground arith
  lookup_loop_misses s node (x ∷ xs) (suc fuel) c out h =
      ground (arith, lookup_loop_misses s (s.next x) xs fuel c.3 (ground arith) (omega arith))

  prev_loop_misses :
      (s : Hash) (slot : Slot) (xs : List ℕ) (fuel : ℕ)
      → SChain s.next (slot_value s slot) xs
      → IsSlot s xs slot
      → elem p xs ≡ false
      → length xs < fuel
      → (last : Slot) × (hash_lookup_prev_loop root_ops fuel p slot s ≡ some ((0, last), s))
  unfolding hash_lookup_prev_loop ptr_hash_equal_func gc_root_get_key
  prev_loop_misses s slot xs zero c ok out h = absurd (omega arith)
  prev_loop_misses s slot [] (suc fuel) c ok out h =
      (slot, ground (arith, load_slot-value s slot [] ok))
  prev_loop_misses s slot (x ∷ xs) (suc fuel) c ok out h =
      let (last, run) =
        prev_loop_misses s (next_of x) xs fuel c.3 (c.1, c.2) (ground arith) (omega arith) in
      (last, ground (arith, load_slot-value s slot (x ∷ xs) ok, run))

  -- `m_gc_remove_root` of a pointer that is not the address of a root node of the table changes
  -- nothing, although the table may have a node for that pointer.
  pub gc_remove_root_ignores :
      (s : Roots) (bs : ℕ → List ℕ) (fuel : ℕ)
      → IsChained s.hash bs fuel
      → NoNode bs p
      → p ≢ 0
      → gc_remove_root alloc fuel p s ≡ some (tt, s)
  unfolding gc_remove_root hash_lookup_with_prev ptr_hash_kv_func
  gc_remove_root_ignores s bs fuel c out nz = elim (Bool-cases (s.hash.size == 0)) [
    | inl e ↦ ground arith
    | inr e ↦
        let (pos, al) = c.lists (ground arith) in
        let i = u32 p % s.hash.nlist in
        let lt : i < s.hash.nlist = grind arith in
        let (last, run) =
          prev_loop_misses s.hash (list_head i) (bs i) fuel (c.chains i lt) (al, lt) (out i)
            (c.short i lt) in
        ground (arith, run)
  ]

  lookup_with_kv_misses :
      (s : Hash) (bs : ℕ → List ℕ) (fuel : ℕ)
      → IsChained s bs fuel
      → NoNode bs p
      → hash_lookup_with_kv root_ops fuel p s ≡ some ((0, u32 p), s)
  unfolding hash_lookup_with_kv ptr_hash_kv_func
  lookup_with_kv_misses s bs fuel c out = elim (Bool-cases (s.size == 0)) [
    | inl e ↦ ground arith
    | inr e ↦
        let (pos, al) = c.lists (ground arith) in
        let i = u32 p % s.nlist in
        let lt : i < s.nlist = grind arith in
        ground (
          arith,
          lookup_loop_misses s (s.lists i) (bs i) fuel (c.chains i lt) (out i) (c.short i lt),
        )
  ]

  -- `m_gc_add_root` of a pointer that is not the address of a root node of the table, where the table
  -- has room, puts in a new root node with count 1, also if the table has a node for the pointer.
  pub gc_add_root_again :
      (s : Roots) (bs : ℕ → List ℕ) (fuel fresh : ℕ)
      → IsChained s.hash bs fuel
      → NoNode bs p
      → p ≢ 0
      → fresh ≢ 0
      → s.hash.size < u32 (s.hash.nlist * 3)
      → 0 < s.hash.nlist
      → s.hash.allocated ≡ true
      → s.hash.size + 1 < 2 ^ 32
      → Returns (gc_add_root alloc fuel fresh p s) (λ _ t.
        (t.hash.size ≡ s.hash.size + 1)
        × (t.ref fresh ≡ 1)
        × (t.ptr fresh ≡ p)
        × (t.hash.lists (u32 p % s.hash.nlist) ≡ fresh))
  unfolding gc_add_root hash_resize hash_insert_with_kv
  gc_add_root_again s bs fuel fresh c out nz f room pos al small =
      let i = u32 p % s.hash.nlist in
      let lt : i < s.hash.nlist = grind arith in
      (
        tt,
        record {
          hash = record s.hash {
            lists = update s.hash.lists i fresh;
            size = u32 (s.hash.size + 1);
            next = update s.hash.next fresh (s.hash.lists i);
          };
          ptr = update s.ptr fresh p;
          ref = update s.ref fresh 1;
        },
        ground (arith, lookup_with_kv_misses s.hash bs fuel c out),
        (omega arith, ground arith, ground arith, ground arith),
      )
