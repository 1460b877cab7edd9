-- ===== src/Tests/Hashes.antt =====
-- A table of three nodes in two lists, whose keys are their addresses.
use ming.Hash.Resize.{hash_resize-IsTable, SameNodes}
use ming.Hash.Remove.Table.{hash_remove-IsTable, hash_remove-lookup_with_prev, unlink_found, Drops}
use ming.Hash.Lookup.{hash_lookup-FindsIn}
use ming.Hash.Insert.{hash_insert-IsTable}
use ming.SList.Chain.{SChain}
use ming.Hash.Release.{hash_deinit-calls, nodes}
use ming.Gc.Root.Never.{gc_remove_root_ignores, NoNode, IsChained}
use ming.Hash.Table.{Holds, FindsIn, IsTable, total, Lawful}
use ming.Gc.Root.{Roots, gc_remove_root}
use Prim.Native.Nat.{max}
use ming.Hash.{
  pointer_size, ok, free_buf, hash_lookup, hash_lookup_with_prev, free_node, err_no_mem,
  hash_insert, hash_remove, Hash, hash_lookup_with_kv, HashOps,
}
use ming.Hash.Storage.{hash_deinit, hash_resize}
use ming.Base.{
  ◌*◌, ◌>>=◌, ◌==◌, ◌⊎◌, zero, [], ◌^◌, ◌↔◌, refl, if◌then◌else◌, some, arith, true, ◌%◌, ◌≡◌,
  update, ◌∷◌, suc, length, elem, none, List, Option, ◌<◌, ◌≤◌, Returns, ℕ,
}

abbrev ops : HashOps
ops = record {
  get_key = λ n. n;
  kv = λ k. k % 2 ^ 32;
  equal = λ j k. j == k;
  has_free_node = true;
  alloc_buf = λ n. some (λ i. 0xdead);
}

ops-Lawful : Lawful ops
ops-Lawful = record { kv-lt = λ k. omega arith; equal-kv = λ j k e. ground arith }

abbrev lists : ℕ → List ℕ
lists zero = 4 ∷ []
lists (suc zero) = 3 ∷ 5 ∷ []
lists (suc (suc i)) = []

abbrev table : Hash
table = record {
  allocated = true;
  lists = update (update (λ _. 0) 0 4) 1 3;
  size = 3;
  nlist = 2;
  next = update (λ _. 0) 3 5;
  calls = [];
}

table_chains : (i : ℕ) → i < 2 → SChain table.next (table.lists i) (lists i)
table_chains zero h = (refl, omega arith, refl, refl)
table_chains (suc zero) h = (refl, omega arith, refl, (refl, omega arith, refl, refl))
table_chains (suc (suc i)) h = absurd (omega arith)

table_homes : (i a : ℕ) → elem a (lists i) ≡ true → (i < 2) × (a % 2 ^ 32 % 2 ≡ i)
table_homes zero a e = ground arith
table_homes (suc zero) a e = ground arith
table_homes (suc (suc i)) a e = cc

table-IsTable : IsTable ops table lists
unfolding total
table-IsTable = record {
  buf = λ h. refl;
  chains = table_chains;
  homes = table_homes;
  count = refl;
  small = omega arith;
}

hash_lookup-FindsIn_example :
    (n : ℕ) × (hash_lookup_with_kv ops 4 5 table ≡ some ((n, 5), table))
    × (hash_lookup ops 4 5 table ≡ some (n, table))
    × FindsIn ops 5 lists n
hash_lookup-FindsIn_example =
    hash_lookup-FindsIn ops 5 table lists 4 table-IsTable ops-Lawful (omega arith)

not_held : (n : ℕ) → 6 ≤ n → ¬ Holds lists n
not_held n h (zero, e) = ground arith
not_held n h (suc zero, e) = ground arith
not_held n h (suc (suc i), e) = cc

hash_insert-IsTable_example : Returns (hash_insert ops 7 table) (λ _ t.
    (cs : ℕ → List ℕ) × IsTable ops t cs
    × (t.size ≡ 4)
    × ((a : ℕ) → Holds cs a ↔ ((a ≡ 7) ⊎ Holds lists a))
    × ((q fuel n : ℕ)
        → 4 < fuel
        → hash_lookup ops fuel q table ≡ some (n, table)
        → hash_lookup ops fuel q t ≡ some ((if q == 7 then 7 else n), t)))
hash_insert-IsTable_example =
    hash_insert-IsTable ops table lists 7 table-IsTable ops-Lawful (omega arith) (omega arith)
      (not_held 7 (omega arith)) (omega arith)

hash_remove-IsTable_example : Returns (hash_remove ops 4 5 table) (λ n t.
    FindsIn ops 5 lists n
    × (t.size ≡ (if n == 0 then 3 else 2))
    × (cs : ℕ → List ℕ) × IsTable ops t cs
    × Drops ops 5 n lists cs)
hash_remove-IsTable_example =
    hash_remove-IsTable ops 5 table lists 4 table-IsTable ops-Lawful (omega arith)

hash_remove-lookup_with_prev_example :
    hash_remove ops 4 5 table ≡ (hash_lookup_with_prev ops 4 5 >>= unlink_found) table
hash_remove-lookup_with_prev_example = hash_remove-lookup_with_prev ops 4 5 table

hash_resize-IsTable_example : Returns (hash_resize ops 4 table) (λ r t.
    (table.size < table.nlist * 3) × (r ≡ ok) × (t ≡ table)
    ⊎ (table.nlist * 3 ≤ table.size)
      × ((ops.alloc_buf (pointer_size * max table.size 9) ≡ none) × (r ≡ err_no_mem) × (t ≡ table)
          ⊎ ((buf : ℕ → ℕ) × (ops.alloc_buf (pointer_size * max table.size 9) ≡ some buf))
            × (r ≡ ok)
            × ((cs : ℕ → List ℕ) × SameNodes ops table lists 4 t cs)
            × (t.nlist ≡ max table.size 9)
            × (t.size < t.nlist * 3)
            × (t.calls ≡ free_buf 16 ∷ [])))
hash_resize-IsTable_example =
    hash_resize-IsTable ops table lists 4 table-IsTable (omega arith) (omega arith)

hash_deinit-calls_example :
    Returns
      (hash_deinit ops 4 table)
      (λ _ t. t.calls ≡ free_node 4 ∷ free_node 3 ∷ free_node 5 ∷ free_buf 16 ∷ [])
unfolding nodes
hash_deinit-calls_example = hash_deinit-calls ops table lists 4 table-IsTable (omega arith)

abbrev no_memory : ℕ → Option (ℕ → ℕ)
no_memory n = none

-- The nodes 4, 3 and 5 are root nodes for the pointers 100, 101 and 103.
abbrev roots : Roots
roots = record {
  hash = table;
  ptr = update (update (update (λ _. 0) 4 100) 3 101) 5 103;
  ref = λ _. 1;
}

table-IsChained : IsChained table lists 4
table-IsChained = record { lists = λ h. (omega arith, refl); chains = table_chains; short = short }
  where
    short : (i : ℕ) → i < 2 → length (lists i) < 4
    short zero h = omega arith
    short (suc zero) h = omega arith
    short (suc (suc i)) h = omega arith

no_node : NoNode lists 101
no_node zero = refl
no_node (suc zero) = refl
no_node (suc (suc i)) = refl

gc_remove_root_ignores_example : gc_remove_root no_memory 4 101 roots ≡ some (tt, roots)
gc_remove_root_ignores_example =
    gc_remove_root_ignores no_memory 101 roots lists 4 table-IsChained no_node (omega arith)
