-- ===== src/Gc/Sweep.antt =====
-- src/m_gc_obj.c: the scan for gray objects, and the sweep.
pub mod Word
pub mod Pools
pub mod Marks
pub mod Outcome
pub mod Lists
pub mod Types
pub mod Listed
pub mod Whole
use ming.Gc.Bitmap.{put_mark}
use ming.Gc.Obj.{
  mark_black, mark_white, mark_gray, obj_count, Gc, gc_free_pool, gc_obj_get_descr, put_stub,
  get_state, gc_push_gray_stack, Pool, put_pool, Descr,
}
use ming.Base.{
  modify, ◌-◌, ◌^◌, ◌++◌, zero, ◌*◌, update, ◌+◌, [], assert, ◌%◌, ◌∷◌, true, if◌then◌else◌, ◌/◌,
  ◌==◌, ◌>>=◌, false, ◌>>◌, pure, fault, suc, none, Bool, some, Option, List, Run, ℕ,
}

-- The inner loop of `gc_scan_pool_gray`: the cells of one word that is not 0, `ptr` the first. A
-- word has 16 marks, so 16 rounds are enough.
unfoldable pub scan_word : ℕ → ℕ → ℕ → ℕ → Run Gc Bool
unfolding gc_push_gray_stack
scan_word zero size flags ptr = fault
scan_word (suc fuel) size flags ptr = do
  pushed ← if flags % 4 == mark_gray then gc_push_gray_stack ptr else pure true
  elim pushed [
    | false ↦ pure false
    | true ↦ elim (flags / 4 == 0) [
      | true ↦ pure true
      | false ↦ scan_word fuel size (flags / 4) (ptr + size)
    ]
  ]

-- `pool->begin + id * descr->size` for the first cell of the word `n`: the product is a `uint32_t`.
abbrev pub word_begin : ℕ → ℕ → ℕ → ℕ
word_begin begin size n = begin + n * 16 * size % 2 ^ 32

-- The words of the bitmap from `n` on, `words` of them.
unfoldable pub scan_words : Pool → ℕ → ℕ → ℕ → Run Gc Bool
unfolding scan_word
scan_words pool size zero n = pure true
scan_words pool size (suc words) n = do
  go_on ←
      if pool.bitmap n == 0
      then pure true
      else scan_word 16 size (pool.bitmap n) (word_begin pool.begin size n)
  elim go_on [ true ↦ scan_words pool size words (n + 1) | false ↦ pure false ]

module _ (descrs : ℕ → Descr) where
  unfoldable pub gc_scan_pool_gray : ℕ → Run Gc Bool
  unfolding get_state gc_obj_get_descr scan_words
  gc_scan_pool_gray p = do
    s ← get_state
    let pool = s.pools p
    descr ← gc_obj_get_descr descrs pool.type
    scan_words pool descr.size ((s.stubs pool.type).bitmap_size / 4) 0

  unfoldable pub scan_pools : List ℕ → Run Gc Bool
  unfolding gc_scan_pool_gray
  scan_pools [] = pure true
  scan_pools (p ∷ ps) = do
    b ← gc_scan_pool_gray p
    elim b [ true ↦ scan_pools ps | false ↦ pure false ]

  -- The types from `type` on, `rounds` of them.
  unfoldable pub scan_types : ℕ → ℕ → Run Gc Bool
  unfolding get_state scan_pools
  scan_types zero type = pure true
  scan_types (suc rounds) type = do
    s ← get_state
    b ← scan_pools (s.stubs type).full_pools
    elim b [
      | false ↦ pure false
      | true ↦ do
        s' ← get_state
        c ← scan_pools (s'.stubs type).usable_pools
        elim c [ true ↦ scan_types rounds (type + 1) | false ↦ pure false ]
    ]

  unfoldable pub gc_scan_gray : Run Gc (Unit {0})
  unfolding get_state scan_types
  gc_scan_gray = do
    s ← get_state
    assert s.need_scan_gray
    modify (λ u. record u { need_scan_gray = false })
    b ← scan_types obj_count 0
    pure tt

-- What the sweep of one pool changes: the word of the bitmap that it is at, the free cells, the
-- finalised objects, the size, and `have_black`.
pub record Swept : Type 0 where
  pub word : ℕ
  pub free : List ℕ
  pub finals : List ℕ
  pub allocated : ℕ
  pub have_black : Bool

-- The inner loop of `gc_sweep_pool`: `flags` is what is left of the word, `k` the mark that it
-- begins with. `none` is the failed assertion on a gray object, or used up fuel.
unfoldable pub sweep_word : ℕ → ℕ → ℕ → ℕ → ℕ → Swept → Option Swept
sweep_word zero size flags ptr k w = none
sweep_word (suc fuel) size flags ptr k w =
    let mark = flags % 4 in
    let w' =
      if mark == mark_white
      then record w {
        word = put_mark k 0 w.word;
        free = ptr ∷ w.free;
        finals = w.finals ++ ptr ∷ [];
        allocated = (w.allocated + 2 ^ 64 - size) % 2 ^ 64;
      }
      else if mark == mark_black
      then record w { word = put_mark k mark_white w.word; have_black = true }
      else w in
    elim (mark == mark_gray) [
      | true ↦ none
      | false ↦ elim (flags / 4 == 0) [
        | true ↦ some w'
        | false ↦ sweep_word fuel size (flags / 4) (ptr + size) (k + 1) w'
      ]
    ]

-- The outer loop over the words from `n` on.
unfoldable pub sweep_words : ℕ → ℕ → ℕ → ℕ → (ℕ → ℕ) → Swept → Option ((ℕ → ℕ) × Swept)
unfolding sweep_word
sweep_words begin size zero n bmp w = some (bmp, w)
sweep_words begin size (suc words) n bmp w = elim (bmp n == 0) [
  | true ↦ sweep_words begin size words (n + 1) bmp w
  | false ↦
      elim (sweep_word 16 size (bmp n) (word_begin begin size n) 0 (record w { word = bmp n })) [
        | none ↦ none
        | some w' ↦ sweep_words begin size words (n + 1) (update bmp n w'.word) w'
      ]
]

-- The end of `gc_sweep_pool`: the pool goes on a list of its stub, or is unmapped.
unfoldable pub finish_pool : ℕ → ℕ → (ℕ → ℕ) → Swept → Run Gc (Unit {0})
unfolding put_stub gc_free_pool
finish_pool type p bmp w s =
    let s' = record s {
      pools = update s.pools p (record (s.pools p) { bitmap = bmp; free_cells = w.free });
      finals = w.finals;
      allocated_size = w.allocated;
    } in
    let stub = s.stubs type in
    elim w.have_black [
      | false ↦ gc_free_pool p s'
      | true ↦ elim w.free [
        | [] ↦ put_stub type (record stub { full_pools = p ∷ stub.full_pools }) s'
        | _ ∷ _ ↦ put_stub type (record stub { usable_pools = p ∷ stub.usable_pools }) s'
      ]
    ]

unfoldable pub gc_sweep_pool : Descr → ℕ → ℕ → Run Gc (Unit {0})
unfolding sweep_words finish_pool
gc_sweep_pool descr type p s =
    let pool = s.pools p in
    let start : Swept = record {
      word = 0;
      free = pool.free_cells;
      finals = s.finals;
      allocated = s.allocated_size;
      have_black = false;
    } in
    elim (sweep_words pool.begin descr.size ((s.stubs type).bitmap_size / 4) 0 pool.bitmap start) [
      | none ↦ none
      | some (bmp, w) ↦ finish_pool type p bmp w s
    ]

unfoldable pub sweep_pools : Descr → ℕ → List ℕ → Run Gc (Unit {0})
unfolding gc_sweep_pool
sweep_pools descr type [] = pure tt
sweep_pools descr type (p ∷ ps) = do gc_sweep_pool descr type p; sweep_pools descr type ps

module _ (descrs : ℕ → Descr) where
  unfoldable pub sweep_types : ℕ → ℕ → Run Gc (Unit {0})
  unfolding get_state put_stub gc_obj_get_descr sweep_pools
  sweep_types zero type = pure tt
  sweep_types (suc rounds) type = do
    s ← get_state
    descr ← gc_obj_get_descr descrs type
    let stub = s.stubs type
    put_stub type (record stub { full_pools = []; usable_pools = [] })
    sweep_pools descr type stub.full_pools
    sweep_pools descr type stub.usable_pools
    sweep_types rounds (type + 1)

  unfoldable pub gc_sweep : Run Gc (Unit {0})
  unfolding sweep_types
  gc_sweep = do
    sweep_types obj_count 0
    modify (λ s. record s { last_allocated_size = s.allocated_size })
