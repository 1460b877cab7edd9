-- ===== src/Gc/Buf.antt =====
-- src/m_gc_buf.c and include/m_malloc.h: the buffers, which are blocks of the C library's heap.
pub mod Room
use ming.Base.{
  leb, ◌>>◌, ◌>>=◌, ◌*◌, pure, none, ◌/◌, ◌||◌, update, ◌==◌, ◌^◌, some, if◌then◌else◌, ◌%◌, Run,
  Option, ◌+◌, ℕ,
}

-- The size of the block at an address.
abbrev pub Heap : Type 0
Heap = ℕ → Option ℕ

-- `M_ALIGN_UP(size, sizeof(uintptr_t))`
unfoldable pub gc_size_align : ℕ → ℕ
gc_size_align size = (size + 7) % 2 ^ 64 / 8 * 8

unfoldable pub m_free : ℕ → Run Heap (Unit {0})
m_free p h = some (tt, update h p none)

-- The size is a `uint32_t` here.
unfoldable pub m_gc_free_buf : ℕ → ℕ → Run Heap (Unit {0})
unfolding m_free
m_gc_free_buf ptr size = if ptr == 0 || size % 2 ^ 32 == 0 then pure tt else m_free ptr

-- `malloc` and `realloc` are the C library's: the address of the block, 0 for `NULL`.
module _ (malloc : Heap → ℕ → ℕ) (realloc : Heap → ℕ → ℕ → ℕ) where
  unfoldable pub m_malloc : ℕ → Run Heap ℕ
  m_malloc size h =
      let p = malloc h size in if p == 0 then some (0, h) else some (p, update h p (some size))

  unfoldable pub m_realloc : ℕ → ℕ → Run Heap ℕ
  m_realloc ptr size h =
      let p = realloc h ptr size in
      if p == 0 then some (0, h) else some (p, update (update h ptr none) p (some size))

  unfoldable pub m_gc_alloc_buf : ℕ → Run Heap ℕ
  unfolding m_malloc gc_size_align
  m_gc_alloc_buf size = m_malloc (gc_size_align size)

  unfoldable pub m_gc_realloc_buf : ℕ → ℕ → ℕ → Run Heap ℕ
  unfolding m_gc_alloc_buf m_gc_free_buf m_realloc gc_size_align
  m_gc_realloc_buf ptr old_size new_size =
      if ptr == 0 || old_size == 0
      then m_gc_alloc_buf new_size
      else if new_size == 0
      then (do m_gc_free_buf ptr old_size; pure 0)
      else if leb new_size old_size
      then pure ptr
      else m_realloc ptr (gc_size_align new_size)
