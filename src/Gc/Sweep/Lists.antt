-- ===== src/Gc/Sweep/Lists.antt =====
-- The sweep of a list of pools.
use mathlib.Core.List.{append_assoc, append-nil}
use ming.Base.{
  ◌^◌, bind_result, subst, refl, inl, ◌∙◌, sym, inr, arith, Bool-cases, ◌/◌, ap, Returns, ◌==◌,
  false, true, [], Distinct, ◌++◌, ◌≡◌, ◌*◌, elem, ◌<◌, ◌∷◌, List, ℕ,
}
use ming.Gc.Obj.{Gc, Pool, Descr}
use ming.Gc.Bitmap.{gc_obj_get_bitmap}
use ming.Gc.Sweep.{sweep_pools}
use ming.Gc.Sweep.Word.{push_all, swept_mark}
use ming.Gc.Sweep.Pools.{NoGray, dead_cells}
use ming.Gc.Sweep.Outcome.{sweep_pool-PoolSwept}

abbrev pub dead : ℕ → ℕ → Pool → List ℕ
dead size words pool = dead_cells pool.begin size words 0 pool.bitmap

-- The marks and the free cells of a pool before and after.
pub record PoolDone (size words : ℕ) (pool pool' : Pool) : Type 0 where
  pub marks :
      (id : ℕ)
      → id < 16 * words
      → gc_obj_get_bitmap pool'.bitmap id ≡ swept_mark (gc_obj_get_bitmap pool.bitmap id)
  pub pushed : pool'.free_cells ≡ push_all (dead size words pool) pool.free_cells

abbrev pub all_dead : ℕ → ℕ → (ℕ → Pool) → List ℕ → List ℕ
all_dead size words pools [] = []
all_dead size words pools (p ∷ ps) = dead size words (pools p) ++ all_dead size words pools ps

pub record ListSwept (size words type : ℕ) (ps : List ℕ) (s s' : Gc) : Type 0 where
  pub done : (p : ℕ) → elem p ps ≡ true → PoolDone size words (s.pools p) (s'.pools p)
  pub same : (p : ℕ) → elem p ps ≡ false → s'.pools p ≡ s.pools p
  pub finalised : s'.finals ≡ s.finals ++ all_dead size words s.pools ps
  pub other_stubs : (t : ℕ) → (t == type) ≡ false → s'.stubs t ≡ s.stubs t
  pub same_size : (s'.stubs type).bitmap_size ≡ (s.stubs type).bitmap_size

pub all_dead-same :
    (size words : ℕ) (f g : ℕ → Pool) (ps : List ℕ)
    → ((p : ℕ) → elem p ps ≡ true → f p ≡ g p)
    → all_dead size words f ps ≡ all_dead size words g ps
all_dead-same size words f g [] h = refl
all_dead-same size words f g (p ∷ ps) h =
    ap (λ x. dead size words x ++ all_dead size words f ps) (h p (ground arith))
    ∙ ap (λ x. dead size words (g p) ++ x)
        (all_dead-same size words f g ps (λ q e. h q (ground arith)))

not_here : (p q : ℕ) (ps : List ℕ) → elem p ps ≡ false → elem q ps ≡ true → (q == p) ≡ false
not_here p q ps n e = elim (Bool-cases (q == p)) [
  | inr x ↦ x
  | inl x ↦
      let at : q ≡ p = ground arith in
      let z : elem p ps ≡ true = subst (λ y. elem y ps ≡ true) at e in absurd (ground (arith, n, z))
]

elem_head : (p : ℕ) (ps : List ℕ) → elem p (p ∷ ps) ≡ true
elem_head p ps = ground arith

elem_tail : (q p : ℕ) (ps : List ℕ) → elem q (p ∷ ps) ≡ false → elem q ps ≡ false
elem_tail q p ps n = ground (arith, n)

head_other : (q p : ℕ) (ps : List ℕ) → elem q (p ∷ ps) ≡ false → (q == p) ≡ false
head_other q p ps n = ground (arith, n)

done_cons :
    (size words p : ℕ) (ps : List ℕ) (f f1 f2 : ℕ → Pool)
    → elem p ps ≡ false
    → PoolDone size words (f p) (f1 p)
    → ((q : ℕ) → elem q ps ≡ true → f1 q ≡ f q)
    → ((q : ℕ) → elem q ps ≡ false → f2 q ≡ f1 q)
    → ((q : ℕ) → elem q ps ≡ true → PoolDone size words (f1 q) (f2 q))
    → (q : ℕ) → elem q (p ∷ ps) ≡ true
    → PoolDone size words (f q) (f2 q)
done_cons size words p ps f f1 f2 n now kept same later q i = elim (Bool-cases (elem q ps)) [
  | inl there ↦ subst (λ x. PoolDone size words x (f2 q)) (kept q there) (later q there)
  | inr other ↦
      let at : q ≡ p = ground (arith, i, other) in
      subst (λ x. PoolDone size words (f x) (f2 x)) (sym at)
        (subst (PoolDone size words (f p)) (sym (same p n)) now)
]

pub sweep_pools-ListSwept :
    (descr : Descr) (type : ℕ) (ps : List ℕ) (s : Gc)
    → Distinct ps
    → ((p : ℕ) → elem p ps ≡ true → NoGray (s.pools p).bitmap)
    → (s.stubs type).bitmap_size / 4 * 16 * descr.size < 2 ^ 32
    → Returns
        (sweep_pools descr type ps s)
        (λ _ s'. ListSwept descr.size ((s.stubs type).bitmap_size / 4) type ps s s')
unfolding sweep_pools
sweep_pools-ListSwept descr type [] s d g below = (
  tt,
  s,
  refl,
  record {
    done = λ p e. absurd (ground arith);
    same = λ p e. refl;
    finalised = sym (append-nil s.finals);
    other_stubs = λ t n. refl;
    same_size = refl;
  },
)
sweep_pools-ListSwept descr type (p ∷ ps) s d g below =
    let words = (s.stubs type).bitmap_size / 4 in
    let size = descr.size in
    let (_, s1, e1, h1) = sweep_pool-PoolSwept descr type p s (g p (elem_head p ps)) below in
    let kept : (q : ℕ) → elem q ps ≡ true → s1.pools q ≡ s.pools q =
      λ q i. h1.other_pools q (not_here p q ps d.0 i) in
    let (_, s2, e2, h2) =
      sweep_pools-ListSwept descr type ps s1 d.1
        (λ q i. subst (λ x. NoGray x.bitmap) (sym (kept q i)) (g q (ground arith)))
        (subst (λ x. x / 4 * 16 * size < 2 ^ 32) (sym h1.same_size) below) in
    let h = subst (λ w. ListSwept size (w / 4) type ps s1 s2) h1.same_size h2 in
    (
      tt,
      s2,
      ap (λ r. bind_result r (λ _. sweep_pools descr type ps)) e1 ∙ e2,
      record {
        done =
            done_cons size words p ps s.pools s1.pools s2.pools d.0
              (record { marks = h1.marks; pushed = h1.pushed }) kept h.same h.done;
        same = λ q n. h.same q (elem_tail q p ps n) ∙ h1.other_pools q (head_other q p ps n);
        finalised =
            h.finalised
            ∙ ap (λ l. l ++ all_dead size words s1.pools ps) h1.finalised
            ∙ append_assoc s.finals (dead size words (s.pools p)) (all_dead size words s1.pools ps)
            ∙ ap (λ l. s.finals ++ (dead size words (s.pools p) ++ l))
                (all_dead-same size words s1.pools s.pools ps kept);
        other_stubs = λ t n. h.other_stubs t n ∙ h1.other_stubs t n;
        same_size = h.same_size ∙ h1.same_size;
      },
    )
