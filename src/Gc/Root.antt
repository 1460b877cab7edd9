-- ===== src/Gc/Root.antt =====
-- src/m_gc_root.c: the hash table of root objects, with a reference count for each.
pub mod Never
use ming.Hash.{
  free_node, log, hash_remove_from_prev, hash_insert_with_kv, u32, hash_lookup_with_prev,
  hash_lookup_with_kv, ptr_hash_equal_func, ptr_hash_kv_func, hash_init, HashOps, Result, Hash,
}
use ming.Hash.Storage.{hash_resize, hash_deinit}
use ming.Base.{
  pure, ◌^◌, ◌+◌, false, [], true, ◌!=◌, zero, suc, assert, update, none, ◌-◌, ◌>>=◌, ◌>>◌, some,
  ◌==◌, if◌then◌else◌, Option, Run, ℕ,
}

-- `gc_root_hash`, and the fields `ptr` and `ref` of every `M_GCRootNode` by its address. The hash
-- node is the first member of a root node, so it has the same address.
pub record Roots : Type 0 where
  pub hash : Hash
  pub ptr : ℕ → ℕ
  pub ref : ℕ → ℕ  -- uint32_t

abbrev pub on_hash : {A : Type 0} → Run Hash A → Run Roots A
on_hash m s = elim (m s.hash) [ none ↦ none | some (a, h) ↦ some (a, record s { hash = h }) ]

-- `m_node_value(node, M_GCRootNode, node)`: the root node that contains a hash node.
unfoldable pub gc_root_get_key : ℕ → ℕ
gc_root_get_key node = if node == 0 then 0 else node - 0

-- `gc_root_hash_ops`; `alloc` is what `m_gc_alloc_buf` answers.
abbrev pub gc_root_hash_ops : (ℕ → Option (ℕ → ℕ)) → HashOps
gc_root_hash_ops alloc = record {
  get_key = gc_root_get_key;
  kv = ptr_hash_kv_func;
  equal = ptr_hash_equal_func;
  has_free_node = true;
  alloc_buf = alloc;
}

unfoldable pub gc_root_hash_startup : Run Roots (Unit {0})
gc_root_hash_startup = on_hash hash_init

unfoldable pub gc_root_hash_shutdown : (ℕ → Option (ℕ → ℕ)) → ℕ → Run Roots (Unit {0})
gc_root_hash_shutdown alloc fuel = on_hash (hash_deinit (gc_root_hash_ops alloc) fuel)

abbrev pub get_ref : ℕ → Run Roots ℕ
get_ref node s = some (s.ref node, s)

abbrev pub set_ref : ℕ → ℕ → Run Roots (Unit {0})
set_ref node n s = some (tt, record s { ref = update s.ref node n })

abbrev pub set_ptr : ℕ → ℕ → Run Roots (Unit {0})
set_ptr node p s = some (tt, record s { ptr = update s.ptr node p })

abbrev pub assert_ok : Result → Run Roots (Unit {0})
assert_ok Result.ok s = some (tt, s)
assert_ok Result.err_no_mem s = none

-- `fresh` is the address that `m_gc_alloc_buf` gives for a new root node, 0 for `NULL`.
unfoldable pub gc_add_root : (ℕ → Option (ℕ → ℕ)) → ℕ → ℕ → ℕ → Run Roots (Unit {0})
gc_add_root alloc fuel fresh p = do
  assert (p != 0)
  (node, kv) ← on_hash (hash_lookup_with_kv (gc_root_hash_ops alloc) fuel p)
  if node != 0 then (do n ← get_ref node; set_ref node (u32 (n + 1))) else do
    assert (fresh != 0)
    set_ref fresh 1
    set_ptr fresh p
    r ← on_hash (hash_resize (gc_root_hash_ops alloc) fuel)
    assert_ok r
    on_hash (hash_insert_with_kv fresh kv)

unfoldable pub gc_remove_root : (ℕ → Option (ℕ → ℕ)) → ℕ → ℕ → Run Roots (Unit {0})
gc_remove_root alloc fuel p = do
  assert (p != 0)
  (node, prev) ← on_hash (hash_lookup_with_prev (gc_root_hash_ops alloc) fuel p)
  if node != 0
      then (do
        n ← get_ref node
        if n == 1
            then on_hash (hash_remove_from_prev prev >> log (free_node node))
            else set_ref node (u32 (n + 2 ^ 32 - 1)))
      else pure tt
