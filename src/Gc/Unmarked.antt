-- ===== src/Gc/Unmarked.antt =====
-- Objects with pointers are never marked.
use ming.Gc.Collect.{
  set_status, is_increment, is_clear, mark_loop, collect_sweep, collect_mark_obj, collect_mark_root,
  gc_mark_objs, gc_do_collect,
}
use ming.Gc.Obj.{
  mark_obj, mark_root, Status, gc_mark_root_hash, gc_mark_nb_stacks, gc_mark_all,
  gc_mark_nb_threads, idle, gc_mark_root, gc_mark_nb_stack, gc_obj_get_id, gc_obj_get_descr,
  put_pool, mark_white, has_pointers, obj_count, gc_obj_get_pool, gc_mark, Gc, Descr,
}
use ming.Gc.Bitmap.{shift_right_2, gc_obj_get_bitmap, gc_obj_set_bitmap, put_mark}
use mathlib.Core.Path.{fun_ext}
use ming.Base.{
  length, ap, ◌∷◌, elem, false, ◌+◌, Run, List, [], refl, inl, inr, ◌==◌, Bool-cases, subst, true,
  zero, suc, ◌<◌, some, sym, arith, update, ◌%◌, ◌/◌, ◌≡◌, ℕ,
}

put_mark_same : (k w : ℕ) → put_mark k (shift_right_2 k w % 4) w ≡ w
unfolding put_mark shift_right_2
put_mark_same zero w = omega arith
put_mark_same (suc k) w = omega (arith, put_mark_same k (w / 4))

pub update_same : {A : Type 0} (f : ℕ → A) (p : ℕ) (a : A) → f p ≡ a → update f p a ≡ f
update_same f p a e = fun_ext (λ q. ground (arith, e))

set_bitmap_same : (bmp : ℕ → ℕ) (id : ℕ) → gc_obj_set_bitmap bmp id (gc_obj_get_bitmap bmp id) ≡ bmp
unfolding gc_obj_set_bitmap gc_obj_get_bitmap
set_bitmap_same bmp id = update_same bmp (id / 16) _ (sym (put_mark_same (id % 16) (bmp (id / 16))))

-- The pointer leads into a pool of a type of objects with pointers.
abbrev pub PointsAtPointers : (ℕ → Descr) → Gc → ℕ → Type 0
PointsAtPointers descrs s ptr =
    let type = (s.pools (gc_obj_get_pool s.cell_pool_size ptr)).type in
    (type < obj_count) × (has_pointers (descrs type) ≡ true)

set_white :
    (bmp : ℕ → ℕ) (id : ℕ)
    → gc_obj_get_bitmap bmp id ≡ mark_white
    → gc_obj_set_bitmap bmp id mark_white ≡ bmp
set_white bmp id e = subst (λ m. gc_obj_set_bitmap bmp id m ≡ bmp) e (set_bitmap_same bmp id)

module _ (descrs : ℕ → Descr) where
  -- `gc_mark` of an object with pointers changes nothing: a white one stays white, and off the gray
  -- stack.
  pub gc_mark-PointsAtPointers :
      (s : Gc) (ptr : ℕ) → PointsAtPointers descrs s ptr → gc_mark descrs ptr s ≡ some (tt, s)
  unfolding gc_mark put_pool gc_obj_get_descr
  gc_mark-PointsAtPointers s ptr h =
      let p = gc_obj_get_pool s.cell_pool_size ptr in
      let pool = s.pools p in
      let id = gc_obj_get_id (descrs pool.type) pool ptr in
      elim (Bool-cases (gc_obj_get_bitmap pool.bitmap id == mark_white)) [
        | inr other ↦ ground (arith, h.0, other)
        | inl white ↦
            let w : gc_obj_get_bitmap pool.bitmap id ≡ mark_white = ground arith in
            ground (arith, h.0, h.1, w, set_white pool.bitmap id w, update_same s.pools p pool refl)
      ]

  mark_all-PointsAtPointers :
      (s : Gc) (ps : List ℕ)
      → ((p : ℕ) → elem p ps ≡ true → PointsAtPointers descrs s p)
      → gc_mark_all descrs ps s ≡ some (tt, s)
  unfolding gc_mark_all
  mark_all-PointsAtPointers s [] h = refl
  mark_all-PointsAtPointers s (p ∷ ps) h =
      rw (gc_mark-PointsAtPointers s p (h p (ground arith)))
        (mark_all-PointsAtPointers s ps (λ q i. h q (ground arith)))

  -- An entry of a new born stack for an initialised object with pointers.
  mark_nb_stack-PointsAtPointers :
      (s : Gc) (slots : ℕ → ℕ) (rounds i : ℕ)
      → ((j : ℕ) → j < i + rounds → (slots j % 2 ≡ 0) × PointsAtPointers descrs s (slots j))
      → gc_mark_nb_stack descrs slots rounds i s ≡ some (tt, s)
  unfolding gc_mark_nb_stack
  mark_nb_stack-PointsAtPointers s slots zero i h = refl
  mark_nb_stack-PointsAtPointers s slots (suc rounds) i h =
      let here = h i (omega arith) in
      let rest =
        mark_nb_stack-PointsAtPointers s slots rounds (i + 1) (λ j l. h j (omega (arith, l))) in
      ground (arith, here.0, gc_mark-PointsAtPointers s (slots i) here.1, rest)

  mark_nb_threads-PointsAtPointers :
      (s : Gc) (ths : List ℕ)
      → ((th j : ℕ)
          → elem th ths ≡ true
          → j < (s.nb_stacks th).top
          → ((s.nb_stacks th).slots j % 2 ≡ 0)
            × PointsAtPointers descrs s ((s.nb_stacks th).slots j))
      → gc_mark_nb_threads descrs ths s ≡ some (tt, s)
  unfolding gc_mark_nb_threads
  mark_nb_threads-PointsAtPointers s [] h = refl
  mark_nb_threads-PointsAtPointers s (th ∷ ths) h =
      rw
        (mark_nb_stack-PointsAtPointers s (s.nb_stacks th).slots (s.nb_stacks th).top 0
          (λ j l. h th j (ground arith) (omega (arith, l))))
        (mark_nb_threads-PointsAtPointers s ths (λ q j i. h q j (ground arith)))

-- The collector is at rest, and every root is an object with pointers that is initialised.
pub record RootsHavePointers (descrs : ℕ → Descr) (s : Gc) : Type 0 where
  pub at_rest : s.status ≡ idle
  pub gray_empty : s.gray ≡ []
  pub scanned : s.need_scan_gray ≡ false
  pub of_table : (p : ℕ) → elem p s.roots ≡ true → PointsAtPointers descrs s p
  pub of_threads :
      (th j : ℕ)
      → elem th s.threads ≡ true
      → j < (s.nb_stacks th).top
      → ((s.nb_stacks th).slots j % 2 ≡ 0) × PointsAtPointers descrs s ((s.nb_stacks th).slots j)

mark_root_same :
    (descrs : ℕ → Descr) (s : Gc) (st : Status)
    → RootsHavePointers descrs s
    → gc_mark_root descrs (record s { status = st }) ≡ some (tt, record s { status = st })
unfolding gc_mark_root gc_mark_nb_stacks gc_mark_root_hash
mark_root_same descrs s st h =
    let s1 : Gc = record s { status = st } in
    let same : record s1 { need_scan_gray = false } ≡ s1 =
      ap (λ b. record s1 { need_scan_gray = b }) (sym h.scanned) in
    rw same (
      rw (mark_nb_threads-PointsAtPointers descrs s1 s.threads (λ th j i l. h.of_threads th j i l))
        (mark_all-PointsAtPointers descrs s1 s.roots (λ p i. h.of_table p i)))

mark_objs_done :
    (descrs : ℕ → Descr) (scan : ℕ → ℕ → Run Gc (Unit {0})) (s : Gc) (fuel : ℕ)
    → s.gray ≡ []
    → s.need_scan_gray ≡ false
    → gc_mark_objs descrs scan fuel s ≡ some (true, s)
unfolding gc_mark_objs
mark_objs_done descrs scan s fuel g n = ground (arith, ap length g)

-- If every root is an initialised object with pointers, a full collection does exactly what the
-- clearing of all objects at shutdown does: no object survives on account of a root.
pub gc_do_collect-clears :
    (descrs : ℕ → Descr) (scan : ℕ → ℕ → Run Gc (Unit {0})) (s : Gc) (fuel : ℕ)
    → RootsHavePointers descrs s
    → gc_do_collect descrs scan (suc fuel) 0 s ≡ gc_do_collect descrs scan (suc fuel) 2 s
unfolding gc_do_collect collect_mark_root collect_mark_obj collect_sweep mark_loop is_clear
    is_increment set_status
gc_do_collect-clears descrs scan s fuel h = rw h.at_rest (
    rw (mark_root_same descrs s mark_root h) (
      rw
        (mark_objs_done descrs scan (record s { status = mark_obj }) (suc fuel) h.gray_empty
          h.scanned)
        refl))
