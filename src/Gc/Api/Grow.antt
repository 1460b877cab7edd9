-- ===== src/Gc/Api/Grow.antt =====
-- The growth of the new born stack, src/m_gc_obj.c.
use ming.Base.{
  ◌≤◌, Bool, subst, inr, inl, ◌<◌, ◌==◌, Bool-cases, true, refl, arith, sym, update_at, ap, ◌^◌,
  Returns, ◌≡◌, Run, ℕ,
}
use ming.Gc.Obj.{get_state, Gc, Descr}
use ming.Gc.Collect.{grow_nb_stack}

module _ (descrs : ℕ → Descr) (scan : ℕ → ℕ → Run Gc (Unit {0})) where
  -- After `grow_nb_stack` the new born stack has room; nothing but its size is another.
  pub record Grown (self : ℕ) (s s' : Gc) : Type 0 where
    pub same_top : (s'.nb_stacks self).top ≡ (s.nb_stacks self).top
    pub has_room : (s'.nb_stacks self).top < (s'.nb_stacks self).size
    pub same_begin : s'.begin_size ≡ s.begin_size
    pub same_last : s'.last_allocated_size ≡ s.last_allocated_size
    pub same_allocated : s'.allocated_size ≡ s.allocated_size
    pub same_pools : s'.pools ≡ s.pools
    pub same_stubs : s'.stubs ≡ s.stubs

  pub grow-Grown :
      (room : Bool) (self : ℕ) (s : Gc)
      → (s.nb_stacks self).top ≤ (s.nb_stacks self).size
      → (s.nb_stacks self).size < 2 ^ 31
      → ((s.nb_stacks self).top ≡ (s.nb_stacks self).size → room ≡ true)
      → Returns (grow_nb_stack descrs scan room self s) (λ _ s'. Grown self s s')
  unfolding grow_nb_stack get_state
  grow-Grown room self s le small have =
      elim (Bool-cases ((s.nb_stacks self).top == (s.nb_stacks self).size)) [
        | inl full ↦
            rw (full, have (ground arith))
              (
                tt,
                _,
                refl,
                record {
                  same_top = ap (λ x. x.top) (update_at s.nb_stacks self _);
                  has_room =
                      subst (λ x. x.top < x.size) (sym (update_at s.nb_stacks self _))
                        (ground (arith, full, le, small));
                  same_begin = refl;
                  same_last = refl;
                  same_allocated = refl;
                  same_pools = refl;
                  same_stubs = refl;
                },
              )
        | inr free ↦ rw free (
          tt,
          s,
          refl,
          record {
            same_top = refl;
            has_room = ground (arith, free, le);
            same_begin = refl;
            same_last = refl;
            same_allocated = refl;
            same_pools = refl;
            same_stubs = refl;
          },
        )
      ]
