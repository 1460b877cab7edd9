-- ===== src/Gc/Sweep/Whole.antt =====
-- `gc_sweep`: the pools of all the types.
use mathlib.Core.List.{append_assoc, append-nil}
use ming.Base.{◌/◌, ◌^◌, ◌*◌, Returns, Distinct, modify, bind_result}
use ming.Base.{
  subst, zero, sym, false, refl, ltb, ◌∙◌, arith, some, ◌++◌, ap, true, ◌+◌, elem, suc, ◌≡◌, ◌<◌,
  ◌≤◌, ℕ,
}
use ming.Gc.Obj.{obj_count, put_stub, gc_obj_get_descr, Gc, get_state, Descr}
use ming.Gc.Sweep.{gc_sweep, sweep_pools, sweep_types}
use ming.Gc.Sweep.Pools.{NoGray}
use ming.Gc.Sweep.Lists.{all_dead}
use ming.Gc.Sweep.Types.{
  not_both, listed, Distinct-append, words_of, dead_types, TypesSwept, both-BothSwept, emptied,
}
use ming.Gc.Sweep.Listed.{here, later, outside, listed-same, dead_types-same, done_types}

module _ (descrs : ℕ → Descr) where
  types_run :
      (rounds t : ℕ) (s s1 s2 : Gc)
      → t < obj_count
      → sweep_pools (descrs t) t (s.stubs t).full_pools (emptied descrs t s) ≡ some (tt, s1)
      → sweep_pools (descrs t) t (s.stubs t).usable_pools s1 ≡ some (tt, s2)
      → sweep_types descrs (suc rounds) t s ≡ sweep_types descrs rounds (t + 1) s2
  unfolding sweep_types get_state gc_obj_get_descr put_stub emptied
  types_run rounds t s s1 s2 l e1 e2 =
      let b : ltb t obj_count ≡ true = ground arith in simp b (simp e1 (simp e2 refl))

  types-TypesSwept :
      (rounds t : ℕ) (s : Gc)
      → t + rounds ≤ obj_count
      → Distinct (listed s.stubs rounds t)
      → ((p : ℕ) → elem p (listed s.stubs rounds t) ≡ true → NoGray (s.pools p).bitmap)
      → ((u : ℕ) → t ≤ u → u < t + rounds → words_of descrs s u * 16 * (descrs u).size < 2 ^ 32)
      → Returns (sweep_types descrs rounds t s) (λ _ s'. TypesSwept descrs rounds t s s')
  unfolding sweep_types
  types-TypesSwept zero t s l d g below = (
    tt,
    s,
    refl,
    record {
      done = λ u p a b i. absurd (omega (arith, a, b));
      same = λ p n. refl;
      finalised = sym (append-nil s.finals);
    },
  )
  types-TypesSwept (suc rounds) t s l d g below =
      let full = (s.stubs t).full_pools in
      let usable = (s.stubs t).usable_pools in
      let rest = listed s.stubs rounds (t + 1) in
      let (db, dr, apart) =
        Distinct-append (full ++ usable) rest
          (subst Distinct (sym (append_assoc full usable rest)) d) in
      let a = all_dead (descrs t).size (words_of descrs s t) s.pools full in
      let b = all_dead (descrs t).size (words_of descrs s t) s.pools usable in
      let (s1, s2, e1, e2, h) =
        both-BothSwept descrs t s db (λ p i. g p (here p full usable rest i))
          (below t (omega arith) (omega arith)) in
      let stubs : (u : ℕ) → t + 1 ≤ u → s2.stubs u ≡ s.stubs u =
        λ u m. h.stubs u (ground (arith, m)) in
      let below' : (u : ℕ)
          → t + 1 ≤ u
          → u < t + 1 + rounds
          → words_of descrs s2 u * 16 * (descrs u).size < 2 ^ 32 =
        λ u n m.
          subst (λ x. x.bitmap_size / 4 * 16 * (descrs u).size < 2 ^ 32) (sym (stubs u n))
            (below u (omega (arith, n)) (omega (arith, m))) in
      let at : listed s2.stubs rounds (t + 1) ≡ rest =
        listed-same s2.stubs s.stubs rounds (t + 1) stubs in
      let kept : (p : ℕ) → elem p rest ≡ true → s2.pools p ≡ s.pools p =
        λ p i. h.others p (not_both p (full ++ usable) rest apart i) in
      let (_, s3, e3, h3) =
        types-TypesSwept rounds (t + 1) s2 (omega (arith, l)) (subst Distinct (sym at) dr)
          (λ p i.
            let i' = subst (λ x. elem p x ≡ true) at i in
            subst (λ x. NoGray x.bitmap) (sym (kept p i')) (g p (later p full usable rest i')))
          below' in
      let after : (p : ℕ) → elem p rest ≡ false → s3.pools p ≡ s2.pools p =
        λ p n. h3.same p (subst (λ x. elem p x ≡ false) (sym at) n) in
      (
        tt,
        s3,
        types_run rounds t s s1 s2 (omega (arith, l)) e1 e2 ∙ e3,
        record {
          done = done_types descrs rounds t s s2 s3 h apart kept after stubs h3.done;
          same = λ p n. let (a, b) = outside p full usable rest n in after p b ∙ h.others p a;
          finalised =
              h3.finalised
              ∙ ap (λ x. x ++ dead_types descrs s2 rounds (t + 1)) h.final_calls
              ∙ append_assoc s.finals (a ++ b) (dead_types descrs s2 rounds (t + 1))
              ∙ ap (λ x. s.finals ++ x)
                  (append_assoc a b (dead_types descrs s2 rounds (t + 1))
                    ∙ ap (λ x. a ++ (b ++ x))
                        (dead_types-same descrs s s2 rounds (t + 1) stubs kept));
        },
      )

  -- When no pool is listed twice, no listed pool shows a gray object, and the bitmap of each type is for
  -- cells of less than `2 ^ 32` bytes together, the sweep of all the types ends without a failed assertion. Then each listed pool has its black objects white, its white
  -- objects freed and on its free cells in the order of their addresses; a pool that is not listed
  -- is as it was; the finalised objects are the white objects of all the types, type by type and
  -- pool by pool, the full pools first; and `last_allocated_size` is the allocated size.
  pub gc_sweep-TypesSwept :
      (s : Gc)
      → Distinct (listed s.stubs obj_count 0)
      → ((p : ℕ) → elem p (listed s.stubs obj_count 0) ≡ true → NoGray (s.pools p).bitmap)
      → ((t : ℕ) → t < obj_count → words_of descrs s t * 16 * (descrs t).size < 2 ^ 32)
      → Returns (gc_sweep descrs s) (λ _ s'.
        TypesSwept descrs obj_count 0 s s' × (s'.last_allocated_size ≡ s'.allocated_size))
  unfolding gc_sweep
  gc_sweep-TypesSwept s d g below =
      let (_, s1, e, h) =
        types-TypesSwept obj_count 0 s (omega arith) d g (λ u a b. below u (omega (arith, b))) in
      (
        tt,
        record s1 { last_allocated_size = s1.allocated_size },
        ap
            (λ r.
              bind_result r
                (λ _. modify (λ u. record u { last_allocated_size = u.allocated_size })))
            e,
        (record { done = h.done; same = h.same; finalised = h.finalised }, refl),
      )
