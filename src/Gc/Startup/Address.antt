-- ===== src/Gc/Startup/Address.antt =====
-- From the address of a cell to its pool and its number.
use ming.Gc.Bitmap.{gc_obj_get_bitmap}
use ming.Base.{◌≤◌, ◌^◌, ◌+◌, ◌≡◌, ◌%◌, ◌<◌, ℕ}
use ming.Gc.Obj.{
  Stub, Gc, mark_unused, pool_header, Pool, Descr, gc_obj_get_pool, gc_obj_get_id, cells,
}

-- A cell of the pool `p` of `num` cells and `bs` bytes of bitmap.
pub record PoolCell (descr : Descr) (pool_size p num bs : ℕ) (pool : Pool) (c : ℕ) : Type 0 where
  pub found : gc_obj_get_pool pool_size c ≡ p
  pub number : gc_obj_get_id descr pool c < num
  pub unused : gc_obj_get_bitmap pool.bitmap (gc_obj_get_id descr pool c) ≡ mark_unused
  pub behind : p + pool_header + bs ≤ c
  pub inside : c + descr.size ≤ p + pool_size

-- The pool that `gc_alloc_pool` makes.
abbrev new_pool : ℕ → ℕ → Descr → Stub → Pool
new_pool fresh type descr stub = record {
  free_cells = cells (stub.cell_num % 2 ^ 32) descr.size (fresh + pool_header + stub.bitmap_size);
  bitmap = λ _. 0;
  begin = fresh + pool_header + stub.bitmap_size;
  type = type;
}
