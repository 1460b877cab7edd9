-- ===== src/Hash/Storage.antt =====
-- include/m_hash.h: the walk through a hash table, and the operations that release or replace its
-- lists.
use Prim.Native.Nat.{max}
use ming.Base.{
  zero, leb, ◌>>=◌, ◌>>◌, true, suc, false, update, none, ◌+◌, some, fault, ltb, ◌==◌, ◌*◌, pure,
  ◌%◌, Run, if◌then◌else◌, ℕ,
}
use ming.Hash.{
  Hash, HashOps, Result, ok, err_no_mem, free_node, free_buf, get_next, set_next, get_list, log,
  get_nlist, get_allocated, get_size, pointer_size, u32,
}

-- `m_hash_foreach_safe` over the lists from `pos` on, `rounds` of them. The body carries a value of
-- the local variables that it changes.
module _ {A : Type 0} (body : ℕ → A → Run Hash A) where
  unfoldable pub chain_foreach_safe : ℕ → ℕ → A → Run Hash A
  unfolding get_next
  chain_foreach_safe zero node a = fault
  chain_foreach_safe (suc fuel) node a = elim (node == 0) [
    | true ↦ pure a
    | false ↦ do nnext ← get_next node; a' ← body node a; chain_foreach_safe fuel nnext a'
  ]

  unfoldable pub hash_foreach_safe : ℕ → ℕ → ℕ → A → Run Hash A
  unfolding chain_foreach_safe get_list
  hash_foreach_safe fuel zero pos a = pure a
  hash_foreach_safe fuel (suc rounds) pos a = do
    node ← get_list pos
    a' ← chain_foreach_safe fuel node a
    hash_foreach_safe fuel rounds (pos + 1) a'

unfoldable pub free_body : ℕ → Unit {0} → Run Hash (Unit {0})
unfolding log
free_body node a = log (free_node node)

unfoldable pub hash_deinit : HashOps → ℕ → Run Hash (Unit {0})
unfolding hash_foreach_safe free_body log
hash_deinit ops fuel = do
  b ← get_allocated
  if b
      then (do
        n ← get_nlist
        if ops.has_free_node then hash_foreach_safe free_body fuel n 0 tt else pure tt
        log (free_buf (pointer_size * n)))
      else pure tt

-- One round of the loop in `m_hash_resize`: the node goes to the front of its new list.
unfoldable pub rehash_body : HashOps → ℕ → ℕ → (ℕ → ℕ) → Run Hash (ℕ → ℕ)
unfolding set_next
rehash_body ops nsize node nbuf = do
  let i = ops.kv (ops.get_key node) % nsize
  set_next node (nbuf i)
  pure (update nbuf i node)

unfoldable pub set_lists : (ℕ → ℕ) → ℕ → Run Hash (Unit {0})
set_lists nbuf nsize s = some (tt, record s { allocated = true; lists = nbuf; nlist = nsize })

-- `memset(nbuf, 0, …)` over `nsize` entries
abbrev pub cleared : ℕ → (ℕ → ℕ) → ℕ → ℕ
cleared nsize nbuf i = if ltb i nsize then 0 else nbuf i

unfoldable pub hash_grow : HashOps → ℕ → ℕ → Run Hash Result
unfolding hash_foreach_safe rehash_body log set_lists
hash_grow ops fuel nsize = elim (ops.alloc_buf (pointer_size * nsize)) [
  | none ↦ pure err_no_mem
  | some buf ↦ do
    n ← get_nlist
    nbuf ← hash_foreach_safe (rehash_body ops nsize) fuel n 0 (cleared nsize buf)
    b ← get_allocated
    if b then log (free_buf (pointer_size * n)) else pure tt
    set_lists nbuf nsize
    pure ok
]

unfoldable pub hash_resize : HashOps → ℕ → Run Hash Result
unfolding hash_grow
hash_resize ops fuel = do
  n ← get_nlist
  size ← get_size
  if leb (u32 (n * 3)) size then hash_grow ops fuel (max size 9) else pure ok
