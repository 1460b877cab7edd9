-- ===== src/Gc/Startup.antt =====
-- src/m_gc_obj.c: the start of the object manager, its settings from the environment and the layout
-- of the pools.
pub mod Size
pub mod Layout
pub mod Address
use ming.Base.{
  modify, assert, ◌>>=◌, ◌>>◌, fault, ◌==◌, ltb, pure, [], negsuc, pos, ◌/◌, true, false, ◌&&◌,
  zero, ◌!=◌, suc, ◌%◌, Run, leb, if◌then◌else◌, ◌-◌, ◌^◌, none, Bool, ◌+◌, ◌*◌, some, ℕ, Option,
}
use ming.Gc.Obj.{obj_count, idle, put_stub, pool_header, Gc, get_state, Descr}

-- A `long int` is its 64 bits. `strtol` gives `LONG_MAX` for a number that is too large.
abbrev pub long_max : ℕ
long_max = 2 ^ 63 - 1

-- `(n != LONG_MAX) && (n > 0)`, a test of a signed number
unfoldable pub usable : ℕ → Bool
usable n = n != long_max && (ltb 0 n && ltb n (2 ^ 63))

abbrev pub setting : ℕ → Option ℕ → ℕ
setting default none = default
setting default (some n) = if usable n then n else default

-- `do { if (v >= n) break; } while (v <<= 1)`, the value of `v` at the end.
unfoldable pub shift_until : ℕ → ℕ → ℕ → Option ℕ
shift_until zero n v = none
shift_until (suc fuel) n v = elim (leb n v) [
  | true ↦ some v
  | false ↦ elim (v * 2 % 2 ^ 64 == 0) [
    | true ↦ some 0
    | false ↦ shift_until fuel n (v * 2 % 2 ^ 64)
  ]
]

-- `M_PAGE_SIZE`
abbrev pub page_size : ℕ
page_size = 4096

-- `n` is the size if it is `v`, the end of the loop.
unfoldable pub checked_size : ℕ → Option ℕ → Option ℕ
checked_size n none = none
checked_size n (some v) = some (if n != v then page_size else n)

-- `n > gc_cell_pool_size` compares `n` as an unsigned number.
unfoldable pub pool_size_setting : Option ℕ → Option ℕ
unfolding checked_size
pool_size_setting none = some page_size
pool_size_setting (some n) =
    if n != long_max && ltb page_size n then checked_size n (shift_until 65 n 1) else some page_size

-- `M_ALIGN_UP(num * 2, sizeof(uintptr_t) * 8) / 8`
unfoldable pub bitmap_bytes : ℕ → ℕ
bitmap_bytes num = (num * 2 % 2 ^ 64 + 63) % 2 ^ 64 / 64 * 64 / 8

-- `num * descr->size + bs <= size`
unfoldable pub cells_fit : ℕ → ℕ → ℕ → Bool
cells_fit size cell num = leb ((num * cell % 2 ^ 64 + bitmap_bytes num) % 2 ^ 64) size

-- The loop that finds the number of cells, from `num` on down.
unfoldable pub fit_loop : ℕ → ℕ → ℕ → ℕ → Option (ℕ × ℕ)
unfolding cells_fit
fit_loop zero size cell num = none
fit_loop (suc fuel) size cell num = elim (cells_fit size cell num) [
  | true ↦ some (num, bitmap_bytes num)
  | false ↦ fit_loop fuel size cell ((num + 2 ^ 64 - 1) % 2 ^ 64)
]

-- The number of cells that the loop begins with; `descr->size * 8 + 2` is a `uint32_t`.
unfoldable pub first_num : ℕ → ℕ → ℕ
first_num size cell = size * 8 % 2 ^ 64 / ((cell * 8 + 2) % 2 ^ 32)

unfoldable pub pool_layout : ℕ → ℕ → Option (ℕ × ℕ)
unfolding fit_loop first_num
pool_layout pool_size cell =
    let size = (pool_size + 2 ^ 64 - pool_header) % 2 ^ 64 in
    let num = first_num size cell in fit_loop (suc num) size cell num

module _ (descrs : ℕ → Descr) where
  -- The stubs of the types from `type` on, `rounds` of them.
  unfoldable pub init_stubs : ℕ → ℕ → Run Gc (Unit {0})
  unfolding get_state put_stub pool_layout
  init_stubs zero type = pure tt
  init_stubs (suc rounds) type = do
    s ← get_state
    elim (pool_layout s.cell_pool_size (descrs type).size) [
      | none ↦ fault
      | some (num, bs) ↦ do
        put_stub type
            (record { usable_pools = []; full_pools = []; cell_num = num; bitmap_size = bs })
        init_stubs rounds (type + 1)
    ]

  -- The three arguments are the environment variables, each what `strtol` makes of it, and `room`
  -- says whether `M_NEW` gives the gray stack.
  unfoldable pub gc_obj_startup : Option ℕ → Option ℕ → Option ℕ → Bool → Run Gc (Unit {0})
  unfolding init_stubs pool_size_setting
  gc_obj_startup begin_size pool_size gray_size room = elim (pool_size_setting pool_size) [
    | none ↦ fault
    | some size ↦ do
      assert room
      modify (λ s. record s {
        status = idle;
        gc_thread = none;
        begin_size = setting (128 * 1024) begin_size;
        cell_pool_size = size;
        gray = [];
        gray_size = setting 256 gray_size;
      })
      init_stubs obj_count 0
  ]
