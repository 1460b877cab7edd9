-- ===== src/Gc/Map.antt =====
-- src/m_gc_map.c: memory maps at addresses that are multiples of a page.
pub mod Covered
pub mod Aligned
use ming.Base.{
  ◌*◌, ◌/◌, pure, ◌==◌, ◌^◌, ◌%◌, if◌then◌else◌, ◌-◌, ◌∷◌, suc, none, pos, true, zero, false, [],
  ◌+◌, some, negsuc, ◌>>=◌, ◌>>◌, Run, Option, List, ℕ,
}

-- The calls of `mmap` and `munmap`, the latest first: a map has its hint, its size and its address.
pub data Call : Type 0 where
  mmapped : ℕ → ℕ → ℕ → Call
  munmapped : ℕ → ℕ → Call

-- `M_PAGE_SIZE`
abbrev pub map_page : ℕ
map_page = 4096

-- `mmap` is the system's: the calls before, the hint and the size give the address, or none for
-- `MAP_FAILED`.
module _ (mmap : List Call → ℕ → ℕ → Option ℕ) where
  -- Returns 0 for `NULL`.
  unfoldable pub sys_mmap : ℕ → ℕ → Run (List Call) ℕ
  sys_mmap ptr size cs = elim (mmap cs ptr size) [
    | none ↦ some (0, cs)
    | some r ↦ some (r, mmapped ptr size r ∷ cs)
  ]

  unfoldable pub sys_munmap : ℕ → ℕ → Run (List Call) (Unit {0})
  sys_munmap ptr size cs = some (tt, munmapped ptr size ∷ cs)

  -- The larger buffer, cut to a page at both ends.
  unfoldable pub map_and_cut : ℕ → Run (List Call) ℕ
  unfolding sys_mmap sys_munmap
  map_and_cut size = do
    p ← sys_mmap 0 (size + map_page - 1)
    if p == 0
        then pure 0
        else if p % map_page == 0
        then (do sys_munmap (p + size) (map_page - 1); pure p)
        else (do
          let diff = map_page - p % map_page
          sys_munmap p diff
          sys_munmap (p + diff + size) (map_page - 1 - diff)
          pure (p + diff))

  -- The test `pu8 == MAP_FAILED` is never true, since `sys_mmap` gives `NULL` instead; 0 passes for
  -- an aligned address and is returned. `room` is the size in whole pages.
  unfoldable pub gc_mmap : ℕ → Run (List Call) ℕ
  unfolding sys_mmap sys_munmap map_and_cut
  gc_mmap size = do
    let room = (size + (map_page - 1)) % 2 ^ 64 / map_page * map_page
    p ← sys_mmap 0 room
    if p % map_page == 0 then pure p else (do
      let over = p % map_page
      q ← sys_mmap (p + room) (map_page - over)
      if q == 0
          then (do
            r ← sys_mmap (p - over) over
            if r == 0
                then (do sys_munmap p room; map_and_cut room)
                else (do sys_munmap (p + room - over) over; pure (p - over)))
          else (do sys_munmap p (map_page - over); pure (p + (map_page - over))))

  unfoldable pub gc_munmap : ℕ → ℕ → Run (List Call) (Unit {0})
  unfolding sys_munmap
  gc_munmap ptr size = sys_munmap ptr size
