-- ===== src/Gc/Collect.antt =====
-- src/m_gc_obj.c: the collection, and the allocation of objects.
use ming.Gc.Bitmap.{gc_obj_set_bitmap}
use Prim.Native.Nat.{max}
use ming.Gc.Sweep.{gc_scan_gray, gc_sweep}
use ming.Gc.Obj.{
  mark_white, mark_root, put_stub, gc_alloc_pool, gc_obj_get_pool, gc_obj_get_descr, gc_obj_get_id,
  put_pool, mark_obj, compact, idle, gc_mark_root, sweep, get_state, Descr, Gc, Status,
}
use ming.Base.{
  modify, ◌*◌, not, ◌^◌, ltb, update, length, ◌+◌, assert, ◌==◌, Option, ◌∷◌, pure, ◌&&◌, zero,
  ◌>>◌, fault, ◌>>=◌, none, some, suc, false, leb, [], ◌%◌, ◌/◌, true, Bool, if◌then◌else◌, Run, ℕ,
}

-- `M_GC_COLLECT_FL_INCREMENT`, `M_GC_COLLECT_FL_CLEAR`
unfoldable pub is_increment : ℕ → Bool
is_increment flags = flags % 2 == 1

unfoldable pub is_clear : ℕ → Bool
is_clear flags = flags / 2 % 2 == 1

abbrev pub is_idle : Status → Bool
is_idle idle = true
is_idle mark_root = false
is_idle mark_obj = false
is_idle sweep = false
is_idle compact = false

-- `w | GC_NB_FL_NO_PTR`
abbrev pub set_low : ℕ → ℕ
set_low w = if w % 2 == 0 then w + 1 else w

unfoldable pub set_status : Status → Run Gc (Unit {0})
set_status st s = some (tt, record s { status = st })

unfoldable pub pop_gray : Run Gc ℕ
pop_gray s = elim s.gray [ [] ↦ none | p ∷ ps ↦ some (p, record s { gray = ps }) ]

-- `scan` is the generated `gc_scan`: given a type and an object, it marks what the object points at.
module _ (descrs : ℕ → Descr) (scan : ℕ → ℕ → Run Gc (Unit {0})) where
  -- The loop of `gc_mark_objs`.
  unfoldable pub mark_objs_loop : ℕ → Run Gc (Unit {0})
  unfolding get_state pop_gray
  mark_objs_loop zero = fault
  mark_objs_loop (suc fuel) = do
    ptr ← pop_gray
    s ← get_state
    scan (s.pools (gc_obj_get_pool s.cell_pool_size ptr)).type ptr
    s' ← get_state
    elim s'.gray [ [] ↦ pure tt | _ ∷ _ ↦ mark_objs_loop fuel ]

  unfoldable pub gc_mark_objs : ℕ → Run Gc Bool
  unfolding get_state mark_objs_loop gc_scan_gray
  gc_mark_objs fuel = do
    s ← get_state
    elim (length s.gray == 0 && not s.need_scan_gray) [
      | true ↦ pure true
      | false ↦ do
        if length s.gray == 0 then gc_scan_gray descrs else pure tt
        s' ← get_state
        assert (ltb 0 (length s'.gray))
        mark_objs_loop fuel
        s'' ← get_state
        pure (not s''.need_scan_gray)
    ]

  -- The `do … while` of the state `GC_STATUS_MARK_OBJ`; the result says whether `gc_do_collect`
  -- returns `M_FALSE` here. `rounds` bounds the loop, `fuel` the loops inside.
  unfoldable pub mark_loop : ℕ → ℕ → ℕ → Run Gc Bool
  unfolding gc_mark_objs set_status
  mark_loop zero fuel flags = fault
  mark_loop (suc rounds) fuel flags = do
    b ← gc_mark_objs fuel
    if b then set_status sweep else pure tt
    elim (is_increment flags) [
      | true ↦ pure true
      | false ↦ elim b [ true ↦ pure false | false ↦ mark_loop rounds fuel flags ]
    ]

  -- The cases of the `switch`, each with those that it falls through to.
  unfoldable pub collect_compact : Run Gc Bool
  unfolding set_status
  collect_compact = do set_status idle; pure true

  unfoldable pub collect_sweep : ℕ → Run Gc Bool
  unfolding gc_sweep set_status collect_compact
  collect_sweep flags = do
    gc_sweep descrs
    set_status compact
    if is_increment flags then pure false else collect_compact

  unfoldable pub collect_mark_obj : ℕ → ℕ → Run Gc Bool
  unfolding mark_loop set_status collect_sweep
  collect_mark_obj fuel flags =
      if is_clear flags
      then (set_status sweep >> collect_sweep flags)
      else do stop ← mark_loop fuel fuel flags; if stop then pure false else collect_sweep flags

  unfoldable pub collect_mark_root : ℕ → ℕ → Run Gc Bool
  unfolding gc_mark_root set_status collect_mark_obj
  collect_mark_root fuel flags =
      if is_clear flags then (set_status mark_obj >> collect_mark_obj fuel flags) else do
        gc_mark_root descrs
        set_status mark_obj
        if is_increment flags then pure false else collect_mark_obj fuel flags

  unfoldable pub gc_do_collect : ℕ → ℕ → Run Gc Bool
  unfolding get_state set_status collect_mark_root collect_mark_obj collect_sweep collect_compact
  gc_do_collect fuel flags = do
    s ← get_state
    elim s.status [
      | idle ↦ set_status mark_root >> collect_mark_root fuel flags
      | mark_root ↦ collect_mark_root fuel flags
      | mark_obj ↦ collect_mark_obj fuel flags
      | sweep ↦ collect_sweep flags
      | compact ↦ collect_compact
    ]

  -- `self` is the calling thread; `wait` is what the other threads do while it waits in
  -- `m_thread_check_nl`. The result is `none` where the variable `r` is not set. The calls of
  -- `m_thread_pause_all` and `m_thread_resume_all` are modelled in Thread.
  unfoldable pub gc_collect_objs : Run Gc (Unit {0}) → ℕ → ℕ → ℕ → Run Gc (Option Bool)
  unfolding get_state gc_do_collect
  gc_collect_objs wait fuel self flags = do
    s ← get_state
    elim s.gc_thread [
      | none ↦ do
        modify (λ u. record u { gc_thread = some self })
        b ← gc_do_collect fuel flags
        modify (λ u. record u { gc_thread = none })
        pure none
      | some th ↦
          if th == self
          then pure (some false)
          else (do wait; s' ← get_state; pure (some (is_idle s'.status)))
    ]

  -- The new born stack of the thread has room for one more entry afterwards; `room` says whether
  -- `m_gc_realloc_buf` succeeds.
  unfoldable pub grow_nb_stack : Bool → ℕ → Run Gc (Unit {0})
  unfolding get_state
  grow_nb_stack room self = do
    s ← get_state
    let nb = s.nb_stacks self
    if nb.top == nb.size
        then (do
          assert room
          let size = max (nb.size * 2 % 2 ^ 32) 32
          modify
              (λ u. record u { nb_stacks = update u.nb_stacks self (record nb { size = size }) }))
        else pure tt

  -- A free cell of the first usable pool `p`, which moves to the full pools if that was its last.
  unfoldable pub take_cell : ℕ → ℕ → Run Gc ℕ
  unfolding get_state put_pool put_stub
  take_cell type p = do
    s ← get_state
    let pool = s.pools p
    let stub = s.stubs type
    elim pool.free_cells [
      | [] ↦ fault
      | cell ∷ [] ↦ do
        put_pool p (record pool { free_cells = [] })
        elim stub.usable_pools [
          | [] ↦ fault
          | q ∷ qs ↦ do
            put_stub type (record stub { usable_pools = qs; full_pools = q ∷ stub.full_pools })
            pure cell
        ]
      | cell ∷ other ∷ more ↦ do put_pool p (record pool { free_cells = other ∷ more }); pure cell
    ]

  -- The new object is white, and on the new born stack with the flag "not initialised". The buffer of
  -- the stack has `nb.size` entries; a write behind them is a fault.
  unfoldable pub enter_object : Descr → ℕ → ℕ → ℕ → Run Gc ℕ
  unfolding get_state
  enter_object descr self p cell s =
      let nb = s.nb_stacks self in
      let pool = s.pools p in
      let id = gc_obj_get_id descr pool cell in
      if leb nb.size nb.top
      then none
      else some (
        nb.top,
        record s {
          nb_stacks = update s.nb_stacks self (record nb {
            slots = update nb.slots nb.top (set_low cell);
            top = (nb.top + 1) % 2 ^ 32;
          });
          pools =
              update s.pools p
                (record pool { bitmap = gc_obj_set_bitmap pool.bitmap id mark_white });
          allocated_size = (s.allocated_size + descr.size) % 2 ^ 64;
        },
      )

  -- `needed` is the test for a collection, at the end of `gc_alloc_obj`.
  unfoldable pub collection_needed : Gc → Bool
  collection_needed s =
      leb s.begin_size s.allocated_size
      && ltb (s.last_allocated_size * 3 % 2 ^ 64) (s.allocated_size * 2 % 2 ^ 64)

  -- Returns the cell, 0 for `NULL`, and the index on the new born stack.
  unfoldable pub gc_alloc_obj : Run Gc (Unit {0}) → ℕ → ℕ → Bool → ℕ → ℕ → Run Gc (ℕ × ℕ)
  unfolding get_state gc_obj_get_descr gc_alloc_pool grow_nb_stack take_cell enter_object
      gc_collect_objs
  gc_alloc_obj wait fuel fresh room self type = do
    descr ← gc_obj_get_descr descrs type
    s ← get_state
    p ← elim (s.stubs type).usable_pools [ [] ↦ gc_alloc_pool fresh type descr | q ∷ qs ↦ pure q ]
    elim (p == 0) [
      | true ↦ pure (0, 0)
      | false ↦ do
        grow_nb_stack room self
        cell ← take_cell type p
        oid ← enter_object descr self p cell
        s' ← get_state
        if collection_needed s' then gc_collect_objs wait fuel self 0 >> pure tt else pure tt
        pure (cell, oid)
    ]
