-- ===== src/Value/Boxes.antt =====
-- Values that point to a cell of the collector's memory.
use ming.Value.{
  or_two, or_one, obj_ptr, value_get_array, value_get_closure, value_get_object, value_is_array,
  obj_double, value_is_closure, value_is_ptr, value_is_object, value_get_double, value_from_array,
  value_is_number, value_from_closure, value_from_double, value_from_object, ObjType, Store,
}
use ming.Base.{
  ◌*◌, arith, ◌/◌, update, true, ◌!=◌, none, false, Returns, some, ◌<◌, ◌≢◌, ◌≡◌, ◌%◌, Run, ℕ,
}

-- A cell that `m_gc_alloc_obj` has given: an address that is a multiple of 8, and an index below
-- the top of the new born stack.
pub record IsCell (p id : ℕ) (s : Store) : Type 0 where
  pub aligned : p % 8 ≡ 0
  pub nonnull : p ≢ 0
  pub index : id < s.nb_top

module _ (gc_alloc_obj : ObjType → Run Store (ℕ × ℕ)) (s t : Store) (p id : ℕ)
    (cell : IsCell p id t) where
  -- `m_value_from_object`, `m_value_from_closure` and `m_value_from_array` of an address that is a
  -- multiple of 4, and for objects not `NULL`, give a value that tests as what it is, and from which
  -- the address is read back. The new born entry loses its two low bits.
  pub value_from_object-get :
      (o : ℕ)
      → gc_alloc_obj obj_ptr s ≡ some ((p, id), t)
      → o % 4 ≡ 0
      → o ≢ 0
      → Returns (value_from_object gc_alloc_obj o s) (λ v u.
        (value_is_object u.mem v ≡ true)
        × (value_get_object u.mem v ≡ some o)
        × (u.nb_stack id ≡ t.nb_stack id / 4 * 4))
        × Returns (value_from_closure gc_alloc_obj o s) (λ v u.
          (value_is_closure u.mem v ≡ true)
          × (value_get_closure u.mem v ≡ some o)
          × (u.nb_stack id ≡ t.nb_stack id / 4 * 4))
        × Returns (value_from_array gc_alloc_obj o s) (λ v u.
          (value_is_array u.mem v ≡ true)
          × (value_get_array u.mem v ≡ some o)
          × (u.nb_stack id ≡ t.nb_stack id / 4 * 4))
  unfolding value_from_object value_from_closure value_from_array value_is_object value_is_closure
      value_is_array value_get_object value_get_closure value_get_array
  value_from_object-get o got al nz = (
    (p, boxed o, ground (arith, cell), (ground (arith, cell), ground (arith, cell), ground arith)),
    (
      p,
      boxed (or_one o),
      ground (arith, cell),
      (ground (arith, cell), ground (arith, cell), ground arith),
    ),
    (
      p,
      boxed (or_two o),
      ground (arith, cell),
      (ground (arith, cell), ground (arith, cell), ground arith),
    ),
  )
    where
      boxed : ℕ → Store
      boxed w = record t {
        mem = update t.mem p w;
        nb_stack = update t.nb_stack id (t.nb_stack id / 4 * 4);
      }

  -- The value that `m_value_from_double` makes of any number has no tag: it does not test as a
  -- number, it cannot be read back, and unless all bits of the number are 0 it tests as a pointer.
  pub value_from_double-is_ptr :
      (d : ℕ)
      → gc_alloc_obj obj_double s ≡ some ((p, id), t)
      → Returns (value_from_double gc_alloc_obj d s) (λ v u.
        (value_is_number v ≡ false)
        × (value_get_double u.mem v ≡ none)
        × (value_is_ptr u.mem v ≡ (d != 0)))
  unfolding value_from_double value_is_number value_get_double value_is_ptr
  value_from_double-is_ptr d got = (
    p,
    record t { mem = update t.mem p d },
    ground (arith, cell),
    (ground (arith, cell), ground (arith, cell), ground (arith, cell)),
  )
