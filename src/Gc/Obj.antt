-- ===== src/Gc/Obj.antt =====
-- src/m_gc_obj.c: the object pools, and the marking of objects. The sweep is in Gc.Sweep, the
-- collection and the allocation in Gc.Collect.
use ming.Gc.Bitmap.{gc_obj_set_bitmap, gc_obj_get_bitmap}
use ming.Base.{
  modify, not, ◌*◌, ◌||◌, none, zero, ◌/◌, false, true, ◌-◌, length, suc, ◌∷◌, ◌++◌, ltb, update,
  ◌^◌, ◌==◌, ◌>>◌, pure, some, ◌>>=◌, ◌+◌, Option, ◌%◌, [], if◌then◌else◌, List, Run, Bool, ℕ,
}

-- `M_GCObjDescr`, an entry of the generated `gc_obj_descrs`.
pub record Descr : Type 0 where
  pub flags : ℕ  -- uint32_t
  pub size : ℕ  -- uint32_t

-- `M_GCCellPool`. An `M_SList` is the list of the addresses of its nodes, see SList.
pub record Pool : Type 0 where
  pub free_cells : List ℕ
  pub bitmap : ℕ → ℕ
  pub begin : ℕ
  pub type : ℕ

-- `M_GCPoolStub`
pub record Stub : Type 0 where
  pub usable_pools : List ℕ
  pub full_pools : List ℕ
  pub cell_num : ℕ
  pub bitmap_size : ℕ

-- The new born stack of a thread.
pub record NbStack : Type 0 where
  pub slots : ℕ → ℕ
  pub top : ℕ
  pub size : ℕ

pub data Status : Type 0 where
  idle mark_root mark_obj sweep compact : Status

-- The static variables of the file, the pools by address and the stubs by type, the new born stacks
-- by thread (`threads` is `m_thread_list`), the pointers in `gc_root_hash` in the order of its lists,
-- and what was given to `gc_final` and to `gc_munmap`. `gray` is the gray stack, its top first.
pub record Gc : Type 0 where
  pub pools : ℕ → Pool
  pub stubs : ℕ → Stub
  pub threads : List ℕ
  pub nb_stacks : ℕ → NbStack
  pub roots : List ℕ
  pub gray : List ℕ
  pub gray_size : ℕ
  pub need_scan_gray : Bool
  pub status : Status
  pub gc_thread : Option ℕ
  pub cell_pool_size : ℕ
  pub begin_size : ℕ
  pub allocated_size : ℕ
  pub last_allocated_size : ℕ
  pub finals : List ℕ
  pub unmapped : List ℕ

abbrev pub mark_unused : ℕ
mark_unused = 0

abbrev pub mark_white : ℕ
mark_white = 1

abbrev pub mark_gray : ℕ
mark_gray = 2

abbrev pub mark_black : ℕ
mark_black = 3

-- `M_GC_OBJ_COUNT`
abbrev pub obj_count : ℕ
obj_count = 7

-- `sizeof(M_GCCellPool)`
abbrev pub pool_header : ℕ
pool_header = 40

-- `ptr & gc_cell_pool_mask`, for a pool size that is a power of 2.
unfoldable pub gc_obj_get_pool : ℕ → ℕ → ℕ
gc_obj_get_pool pool_size ptr = if pool_size == 0 then 0 else ptr / pool_size * pool_size

-- The difference is a `size_t`, the result an `int`, given by its 32 bits. A negative one is no
-- number of a mark.
unfoldable pub gc_obj_get_id : Descr → Pool → ℕ → ℕ
gc_obj_get_id descr pool ptr = (ptr + 2 ^ 64 - pool.begin) % 2 ^ 64 / descr.size % 2 ^ 32

unfoldable pub has_pointers : Descr → Bool
has_pointers descr = descr.flags % 2 == 1

unfoldable pub put_pool : ℕ → Pool → Run Gc (Unit {0})
put_pool p pool s = some (tt, record s { pools = update s.pools p pool })

unfoldable pub put_stub : ℕ → Stub → Run Gc (Unit {0})
put_stub t stub s = some (tt, record s { stubs = update s.stubs t stub })

unfoldable pub get_state : Run Gc Gc
get_state s = some (s, s)

-- The addresses of `num` cells from `ptr` on.
unfoldable pub cells : ℕ → ℕ → ℕ → List ℕ
cells zero size ptr = []
cells (suc num) size ptr = ptr ∷ cells num size (ptr + size)

-- `fresh` is what `gc_mmap` gives, 0 for `NULL`. The number of cells is copied to an `int`, which
-- `while (num --)` counts down to 0.
unfoldable pub gc_alloc_pool : ℕ → ℕ → Descr → Run Gc ℕ
unfolding get_state put_pool put_stub
gc_alloc_pool fresh type descr = if fresh == 0 then pure 0 else do
  s ← get_state
  let stub = s.stubs type
  let begin = fresh + pool_header + stub.bitmap_size
  put_pool fresh (record {
    free_cells = cells (stub.cell_num % 2 ^ 32) descr.size begin;
    bitmap = λ _. 0;
    begin = begin;
    type = type;
  })
  put_stub type (record stub { usable_pools = fresh ∷ stub.usable_pools })
  pure fresh

unfoldable pub gc_free_pool : ℕ → Run Gc (Unit {0})
gc_free_pool p s = some (tt, record s { unmapped = s.unmapped ++ p ∷ [] })

unfoldable pub gc_push_gray_stack : ℕ → Run Gc Bool
gc_push_gray_stack ptr s =
    if length s.gray == s.gray_size
    then some (false, record s { need_scan_gray = true })
    else some (true, record s { gray = ptr ∷ s.gray })

module _ (descrs : ℕ → Descr) where
  unfoldable pub gc_obj_get_descr : ℕ → Run Gc Descr
  gc_obj_get_descr type s = if ltb type obj_count then some (descrs type, s) else none

  unfoldable pub gc_mark_with_color : ℕ → ℕ → Run Gc (Unit {0})
  unfolding get_state put_pool gc_obj_get_descr gc_push_gray_stack
  gc_mark_with_color ptr set_flags = do
    s ← get_state
    let p = gc_obj_get_pool s.cell_pool_size ptr
    let pool = s.pools p
    descr ← gc_obj_get_descr pool.type
    let id = gc_obj_get_id descr pool ptr
    let flags = gc_obj_get_bitmap pool.bitmap id
    if flags == mark_white
        then (do
          let flags' =
              if set_flags == mark_black || not (has_pointers descr) then mark_black else flags
          put_pool p (record pool { bitmap = gc_obj_set_bitmap pool.bitmap id flags' })
          if flags' == mark_gray then gc_push_gray_stack ptr >> pure tt else pure tt)
        else pure tt

  unfoldable pub gc_mark : ℕ → Run Gc (Unit {0})
  unfolding gc_mark_with_color
  gc_mark ptr = gc_mark_with_color ptr mark_gray

  -- The loop over the new born stack of one thread, from `i` on.
  unfoldable pub gc_mark_nb_stack : (ℕ → ℕ) → ℕ → ℕ → Run Gc (Unit {0})
  unfolding gc_mark_with_color gc_mark
  gc_mark_nb_stack slots zero i = pure tt
  gc_mark_nb_stack slots (suc rounds) i = do
    let w = slots i
    if w % 2 == 1 then gc_mark_with_color (w - 1) mark_black else gc_mark w
    gc_mark_nb_stack slots rounds (i + 1)

  unfoldable pub gc_mark_nb_threads : List ℕ → Run Gc (Unit {0})
  unfolding gc_mark_nb_stack get_state
  gc_mark_nb_threads [] = pure tt
  gc_mark_nb_threads (th ∷ ths) = do
    s ← get_state
    let nb = s.nb_stacks th
    gc_mark_nb_stack nb.slots nb.top 0
    gc_mark_nb_threads ths

  unfoldable pub gc_mark_nb_stacks : Run Gc (Unit {0})
  unfolding get_state gc_mark_nb_threads
  gc_mark_nb_stacks = do s ← get_state; gc_mark_nb_threads s.threads

  unfoldable pub gc_mark_all : List ℕ → Run Gc (Unit {0})
  unfolding gc_mark
  gc_mark_all [] = pure tt
  gc_mark_all (p ∷ ps) = do gc_mark p; gc_mark_all ps

  unfoldable pub gc_mark_root_hash : Run Gc (Unit {0})
  unfolding get_state gc_mark_all
  gc_mark_root_hash = do s ← get_state; gc_mark_all s.roots

  unfoldable pub gc_mark_root : Run Gc (Unit {0})
  unfolding gc_mark_nb_stacks gc_mark_root_hash
  gc_mark_root = do
    modify (λ s. record s { need_scan_gray = false })
    gc_mark_nb_stacks
    gc_mark_root_hash
