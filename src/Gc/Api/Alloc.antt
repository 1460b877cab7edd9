-- ===== src/Gc/Api/Alloc.antt =====
-- The allocation of an object.
use ming.Gc.Api.{m_gc_alloc_obj}
use ming.Gc.Bitmap.Laws.{get_bitmap-set_bitmap_other, get_bitmap-set_bitmap}
use ming.Base.{
  ◌*◌, if◌then◌else◌, none, leb, ◌≤◌, Bool, ◌⊎◌, subst, ltb, inr, inl, ◌<◌, ◌==◌, ◌∷◌, [], false,
  some, true, refl, arith, sym, ◌∙◌, update, update_at, ap, ◌^◌, ◌%◌, ◌+◌, ◌≢◌, Returns, ◌≡◌, List,
  Run, ℕ,
}
use ming.Gc.Obj.{
  obj_count, gc_obj_get_descr, get_state, put_stub, put_pool, NbStack, Pool, mark_white,
  gc_obj_get_id, Gc, Descr,
}
use ming.Gc.Bitmap.{gc_obj_set_bitmap, gc_obj_get_bitmap}
use ming.Gc.Api.Grow.{Grown, grow-Grown}
use ming.Gc.Collect.{
  collection_needed, gc_alloc_obj, grow_nb_stack, take_cell, set_low, enter_object,
}

-- The cell of the pool `p` is an object now, on top of the new born stack of `self`.
pub record Allocated (descr : Descr) (self p cell : ℕ) (rest : List ℕ) (s s' : Gc) : Type 0 where
  pub white :
      gc_obj_get_bitmap (s'.pools p).bitmap (gc_obj_get_id descr (s.pools p) cell) ≡ mark_white
  pub others :
      (id : ℕ)
      → id ≢ gc_obj_get_id descr (s.pools p) cell
      → gc_obj_get_bitmap (s'.pools p).bitmap id ≡ gc_obj_get_bitmap (s.pools p).bitmap id
  pub taken : (s'.pools p).free_cells ≡ rest
  pub pushed : (s'.nb_stacks self).slots (s.nb_stacks self).top ≡ set_low cell
  pub grown : (s'.nb_stacks self).top ≡ ((s.nb_stacks self).top + 1) % 2 ^ 32
  pub bounded : (s'.nb_stacks self).top ≤ (s'.nb_stacks self).size
  pub limit : s'.begin_size ≡ s.begin_size
  pub last : s'.last_allocated_size ≡ s.last_allocated_size
  pub counted : s'.allocated_size ≡ (s.allocated_size + descr.size) % 2 ^ 64

if_false : {A : Type 0} (b : Bool) (x y : A) → b ≡ false → (if b then x else y) ≡ y
if_false b x y e = rw e refl

module _ (descrs : ℕ → Descr) (scan : ℕ → ℕ → Run Gc (Unit {0})) where
  enter-Allocated :
      (descr : Descr) (self p cell : ℕ) (rest : List ℕ) (s s1 : Gc)
      → (s1.nb_stacks self).top ≡ (s.nb_stacks self).top
      → (s1.nb_stacks self).top < (s1.nb_stacks self).size
      → s1.begin_size ≡ s.begin_size
      → s1.last_allocated_size ≡ s.last_allocated_size
      → s1.allocated_size ≡ s.allocated_size
      → s1.pools p ≡ record (s.pools p) { free_cells = rest }
      → Returns
          (enter_object descrs scan descr self p cell s1)
          (λ oid s'. (oid ≡ (s.nb_stacks self).top) × Allocated descr self p cell rest s s')
  unfolding enter_object gc_obj_get_id
  enter-Allocated descr self p cell rest s s1 top room b last a e =
      let id = gc_obj_get_id descr (s1.pools p) cell in
      let pid : id ≡ gc_obj_get_id descr (s.pools p) cell =
        ap (λ x. gc_obj_get_id descr x cell) e in
      let bm : (s1.pools p).bitmap ≡ (s.pools p).bitmap = ap (λ x. x.bitmap) e in
      let new : Pool = record (s1.pools p) {
        bitmap = gc_obj_set_bitmap (s1.pools p).bitmap id mark_white;
      } in
      let at = update_at s1.pools p new in
      let nb = s1.nb_stacks self in
      let nb' : NbStack = record nb {
        slots = update nb.slots nb.top (set_low cell);
        top = (nb.top + 1) % 2 ^ 32;
      } in
      let at' = update_at s1.nb_stacks self nb' in
      (
        nb.top,
        _,
        if_false (leb nb.size nb.top) none _ (ground (arith, room)),
        (
          top,
          record {
            white =
                ap (λ x. gc_obj_get_bitmap x.bitmap (gc_obj_get_id descr (s.pools p) cell)) at
                ∙ ap (gc_obj_get_bitmap new.bitmap) (sym pid)
                ∙ get_bitmap-set_bitmap (s1.pools p).bitmap id mark_white (omega arith);
            others = λ j d.
                ap (λ x. gc_obj_get_bitmap x.bitmap j) at
                ∙ get_bitmap-set_bitmap_other (s1.pools p).bitmap id j mark_white (omega arith)
                    (λ q. d (q ∙ pid))
                ∙ ap (λ x. gc_obj_get_bitmap x j) bm;
            taken = ap (λ x. x.free_cells) at ∙ ap (λ x. x.free_cells) e;
            pushed =
                ap (λ x. x.slots (s.nb_stacks self).top) at'
                ∙ ap (λ x. nb'.slots x) (sym top)
                ∙ update_at nb.slots nb.top (set_low cell);
            grown = ap (λ x. x.top) at' ∙ ap (λ x. (x + 1) % 2 ^ 32) top;
            bounded = subst (λ x. x.top ≤ x.size) (sym at') (omega (arith, room));
            limit = b;
            last = last;
            counted = ap (λ x. (x + descr.size) % 2 ^ 64) a;
          },
        ),
      )

  -- The state after `take_cell`.
  taken_state : ℕ → ℕ → List ℕ → List ℕ → Gc → Gc
  taken_state type p rest qs s =
      let s1 : Gc = record s {
        pools = update s.pools p (record (s.pools p) { free_cells = rest });
      } in
      let stub = s.stubs type in
      elim rest [
        | [] ↦ record s1 {
          stubs =
              update s.stubs type
                (record stub { usable_pools = qs; full_pools = p ∷ stub.full_pools });
        }
        | _ ∷ _ ↦ s1
      ]

  take_cell-run :
      (type p cell : ℕ) (rest qs : List ℕ) (s : Gc)
      → (s.stubs type).usable_pools ≡ p ∷ qs
      → (s.pools p).free_cells ≡ cell ∷ rest
      → take_cell descrs scan type p s ≡ some (cell, taken_state type p rest qs s)
  unfolding take_cell put_pool put_stub get_state taken_state
  take_cell-run type p cell [] qs s u f = simp (f, u) refl
  take_cell-run type p cell (x ∷ xs) qs s u f = simp f refl

  taken-Allocated :
      (descr : Descr) (self type p cell : ℕ) (rest qs : List ℕ) (s s1 : Gc)
      → Grown descrs scan self s s1
      → Returns
          (enter_object descrs scan descr self p cell (taken_state type p rest qs s1))
          (λ oid s'. (oid ≡ (s.nb_stacks self).top) × Allocated descr self p cell rest s s')
  unfolding taken_state
  taken-Allocated descr self type p cell [] qs s s1 g =
      enter-Allocated descr self p cell [] s (taken_state type p [] qs s1) g.same_top g.has_room
        g.same_begin g.same_last g.same_allocated
        (update_at s1.pools p _ ∙ ap (λ x. record (x p) { free_cells = [] }) g.same_pools)
  taken-Allocated descr self type p cell (x ∷ xs) qs s s1 g =
      enter-Allocated descr self p cell (x ∷ xs) s (taken_state type p (x ∷ xs) qs s1) g.same_top
        g.has_room g.same_begin g.same_last g.same_allocated
        (update_at s1.pools p _ ∙ ap (λ y. record (y p) { free_cells = x ∷ xs }) g.same_pools)

  not_due :
      (s : Gc) (a b c : ℕ)
      → s.allocated_size ≡ a
      → s.begin_size ≡ b
      → s.last_allocated_size ≡ c
      → (a < b) ⊎ (a * 2 % 2 ^ 64 ≤ c * 3 % 2 ^ 64)
      → collection_needed descrs scan s ≡ false
  unfolding collection_needed
  not_due s a b c e f g (inl l) = rw (e, f) (ground (arith, l))
  not_due s a b c e f g (inr l) = rw (e, g) (ground (arith, l))

  alloc_run :
      (wait : Run Gc (Unit {0})) (room : Bool) (fuel fresh self type p cell oid : ℕ) (qs : List ℕ)
      (s s1 s2 s3 : Gc)
      → ltb type obj_count ≡ true
      → (s.stubs type).usable_pools ≡ p ∷ qs
      → (p == 0) ≡ false
      → grow_nb_stack descrs scan room self s ≡ some (tt, s1)
      → take_cell descrs scan type p s1 ≡ some (cell, s2)
      → enter_object descrs scan (descrs type) self p cell s2 ≡ some (oid, s3)
      → collection_needed descrs scan s3 ≡ false
      → gc_alloc_obj descrs scan wait fuel fresh room self type s ≡ some ((cell, oid), s3)
  unfolding gc_alloc_obj gc_obj_get_descr get_state
  alloc_run wait room fuel fresh self type p cell oid qs s s1 s2 s3 t u z g k e c =
      simp (t, u) (ground (arith, z, g, k, e, c))

  -- The allocation of an object of a type that has a usable pool, where no collection is due after it,
  -- by a thread whose new born stack is within its buffer of fewer than `2 ^ 31` entries, and, if it is
  -- full, can be given a larger one: the allocation returns the first free cell and the level of the new
  -- born stack. The cell's mark is white and no other mark of the pool changes; the stack has the cell on
  -- top, and is still within its buffer.
  pub alloc_obj-Allocated :
      (wait : Run Gc (Unit {0})) (room : Bool) (fuel fresh self type p cell : ℕ) (qs rest : List ℕ)
      (s : Gc)
      → type < obj_count
      → (s.stubs type).usable_pools ≡ p ∷ qs
      → 0 < p
      → (s.pools p).free_cells ≡ cell ∷ rest
      → (s.nb_stacks self).top ≤ (s.nb_stacks self).size
      → (s.nb_stacks self).size < 2 ^ 31
      → ((s.nb_stacks self).top ≡ (s.nb_stacks self).size → room ≡ true)
      → ((s.allocated_size + (descrs type).size) % 2 ^ 64 < s.begin_size)
        ⊎ ((s.allocated_size + (descrs type).size) % 2 ^ 64 * 2 % 2 ^ 64
            ≤ s.last_allocated_size * 3 % 2 ^ 64)
      → Returns (m_gc_alloc_obj descrs scan wait fuel fresh room self type s) (λ r s'.
        (r.0 ≡ cell)
        × (r.1 ≡ (s.nb_stacks self).top)
        × Allocated (descrs type) self p cell rest s s')
  unfolding m_gc_alloc_obj
  alloc_obj-Allocated wait room fuel fresh self type p cell qs rest s t u z f le small have b =
      let (_, s1, e1, g) = grow-Grown descrs scan room self s le small have in
      let (oid, s2, e2, (o, h)) = taken-Allocated (descrs type) self type p cell rest qs s s1 g in
      let run =
        take_cell-run type p cell rest qs s1 (ap (λ x. (x type).usable_pools) g.same_stubs ∙ u)
          (ap (λ x. (x p).free_cells) g.same_pools ∙ f) in
      let p0 : (p == 0) ≡ false = ground arith in
      let t0 : ltb type obj_count ≡ true = ground arith in
      let c : collection_needed descrs scan s2 ≡ false =
        not_due s2 _ s.begin_size s.last_allocated_size h.counted h.limit h.last b in
      (
        (cell, oid),
        s2,
        alloc_run wait room fuel fresh self type p cell oid qs s s1 (taken_state type p rest qs s1)
            s2 t0 u p0 e1 run e2 c,
        (refl, o, h),
      )
