-- ===== src/Tests/Pools.antt =====
-- A collector with one pool of objects of 24 bytes, at 4096.
use ming.Base.{
  ◌*◌, ◌/◌, ◌<◌, inr, inl, false, ◌^◌, pure, ◌≤◌, [], arith, some, true, if◌then◌else◌, Option,
  none, Run, ◌==◌, refl, ◌%◌, List, ◌-◌, ◌≡◌, Bool-cases, Returns, update, ℕ, ◌∷◌,
}
use ming.Gc.Obj.{has_pointers, obj_count, Gc, Pool, Stub, Descr, idle, pool_header}
use ming.Gc.Sweep.{gc_sweep_pool, gc_sweep}
use ming.Gc.Sweep.Types.{TypesSwept}
use ming.Gc.Sweep.Whole.{gc_sweep-TypesSwept}
use ming.Gc.Sweep.Word.{no_gray}
use ming.Gc.Sweep.Pools.{NoGray, dead_cells, black_words}
use ming.Gc.Sweep.Outcome.{PoolSwept, sweep_pool-PoolSwept}
use ming.Gc.Startup.{page_size, pool_layout, pool_size_setting}
use ming.Gc.Startup.Layout.{BestLayout, pool_layout-BestLayout}
use ming.Gc.Startup.Size.{PowerOfTwo, pool_size_setting-PowerOfTwo}
use ming.Gc.Unmarked.{RootsHavePointers, gc_do_collect-clears}
use ming.Gc.Collect.{gc_do_collect}
use ming.Gc.Api.{m_gc_alloc_obj}
use ming.Gc.Api.Alloc.{Allocated, alloc_obj-Allocated}
use ming.Gc.Map.{Call, gc_mmap}
use ming.Gc.Map.Aligned.{Good, pages, mmap-Good}
use ming.Gc.Buf.{Heap, m_gc_realloc_buf, m_gc_free_buf}
use ming.Gc.Buf.Room.{Resized, realloc_buf-Resized, free_buf-cut_size}

abbrev descrs : ℕ → Descr
descrs type = record { flags = 1; size = 24 }

-- The objects 0 and 1 are white and black; the cells from the second on are free.
abbrev pool : Pool
pool = record {
  free_cells = 4232 ∷ 4256 ∷ [];
  bitmap = update (λ _. 0) 0 13;
  begin = 4184;
  type = 1;
}

abbrev stub : Stub
stub = record { usable_pools = 4096 ∷ []; full_pools = []; cell_num = 167; bitmap_size = 48 }

abbrev collector : Gc
collector = record {
  pools = λ _. pool;
  stubs = λ _. stub;
  threads = 64 ∷ [];
  nb_stacks = λ _. record { slots = λ _. 4208; top = 1; size = 32 };
  roots = 4184 ∷ [];
  gray = [];
  gray_size = 256;
  need_scan_gray = false;
  status = idle;
  gc_thread = none;
  cell_pool_size = 4096;
  begin_size = 131072;
  allocated_size = 48;
  last_allocated_size = 0;
  finals = [];
  unmapped = [];
}

pool-NoGray : NoGray pool.bitmap
unfolding no_gray
pool-NoGray n = elim (Bool-cases (n == 0)) [
  | inl first ↦ rw first (omega arith, refl)
  | inr later ↦ rw later (omega arith, refl)
]

sweep_pool-PoolSwept_example : Returns (gc_sweep_pool (descrs 1) 1 4096 collector) (λ _ s'.
    PoolSwept
      (dead_cells 4184 24 12 0 pool.bitmap)
      (black_words 12 0 pool.bitmap)
      12
      24
      4096
      1
      collector
      s')
sweep_pool-PoolSwept_example =
    sweep_pool-PoolSwept (descrs 1) 1 4096 collector pool-NoGray (omega arith)

abbrev no_pools : Stub
no_pools = record { usable_pools = []; full_pools = []; cell_num = 167; bitmap_size = 48 }

-- The only pool is listed once, for type 1.
abbrev sweeping : Gc
sweeping = record collector { stubs = update (λ _. no_pools) 1 stub }

sweeping_small :
    (t : ℕ) → t < obj_count → (sweeping.stubs t).bitmap_size / 4 * 16 * (descrs t).size < 2 ^ 32
sweeping_small t l = elim (Bool-cases (t == 1)) [
  | inl one ↦ rw one (omega arith)
  | inr other ↦ rw other (omega arith)
]

gc_sweep-TypesSwept_example : Returns (gc_sweep descrs sweeping) (λ _ s'.
    TypesSwept descrs obj_count 0 sweeping s' × (s'.last_allocated_size ≡ s'.allocated_size))
gc_sweep-TypesSwept_example =
    gc_sweep-TypesSwept descrs sweeping (refl, tt) (λ p i. pool-NoGray) sweeping_small

abbrev scan_nothing : ℕ → ℕ → Run Gc (Unit {0})
scan_nothing type ptr = pure tt

collector-RootsHavePointers : RootsHavePointers descrs collector
unfolding has_pointers
collector-RootsHavePointers = record {
  at_rest = refl;
  gray_empty = refl;
  scanned = refl;
  of_table = λ p e. (omega arith, refl);
  of_threads = λ th j e l. (refl, (omega arith, refl));
}

gc_do_collect-clears_example :
    gc_do_collect descrs scan_nothing 100 0 collector
    ≡ gc_do_collect descrs scan_nothing 100 2 collector
gc_do_collect-clears_example =
    gc_do_collect-clears descrs scan_nothing collector 99 collector-RootsHavePointers

pool_layout-BestLayout_example :
    (num : ℕ) × (bs : ℕ) × (pool_layout 4096 24 ≡ some (num, bs))
    × BestLayout (4096 - pool_header) 24 num bs
pool_layout-BestLayout_example =
    pool_layout-BestLayout 4096 24 (omega arith) (omega arith) (omega arith) (omega arith)

pool_size_setting-PowerOfTwo_example :
    (size : ℕ) × (pool_size_setting (some 8192) ≡ some size) × PowerOfTwo size × (page_size ≤ size)
pool_size_setting-PowerOfTwo_example = pool_size_setting-PowerOfTwo (some 8192)

-- The new born stack is full.
abbrev full_stack : Gc
full_stack = record collector { nb_stacks = λ _. record { slots = λ _. 4208; top = 32; size = 32 } }

alloc_obj-Allocated_example :
    Returns (m_gc_alloc_obj descrs scan_nothing (pure tt) 100 0 true 64 1 full_stack) (λ r s'.
      (r.0 ≡ 4232) × (r.1 ≡ 32) × Allocated (descrs 1) 64 4096 4232 (4256 ∷ []) full_stack s')
alloc_obj-Allocated_example =
    alloc_obj-Allocated descrs scan_nothing (pure tt) true 100 0 64 1 4096 4232 [] (4256 ∷ [])
      full_stack (omega arith) refl (omega arith) refl (omega arith) (omega arith) (λ e. refl)
      (inl (omega arith))

-- The first map is not at a page; those with a hint are where the hint says.
abbrev system_map : List Call → ℕ → ℕ → Option ℕ
system_map cs h n = if h == 0 then some 5000 else some h

mmap-Good_example : Returns (gc_mmap system_map 10000 []) (λ p cs. Good (pages 10000) p [] cs)
mmap-Good_example = mmap-Good system_map 10000 []

abbrev heap : Heap
heap = update (λ _. none) 64 (some 16)

abbrev malloc_128 : Heap → ℕ → ℕ
malloc_128 h size = 128

abbrev realloc_128 : Heap → ℕ → ℕ → ℕ
realloc_128 h ptr size = 128

realloc_buf-Resized_example :
    Returns (m_gc_realloc_buf malloc_128 realloc_128 64 16 40 heap) (λ p h'. Resized heap 40 p h')
realloc_buf-Resized_example =
    realloc_buf-Resized malloc_128 realloc_128 heap 64 16 40 (λ x y. (16, refl, omega arith))
      (omega arith)

free_buf-cut_size_example : Returns (m_gc_free_buf 64 4294967296 heap) (λ _ h'.
    (h' 64 ≡ (if 4294967296 % 2 ^ 32 == 0 then some 16 else none))
    × ((p : ℕ) → (p == 64) ≡ false → h' p ≡ heap p))
free_buf-cut_size_example = free_buf-cut_size heap 64 4294967296 16 refl (omega arith)
