-- ===== src/Gc/Sweep/Listed.antt =====
-- The pools that the sweep of `gc_sweep` is still to come to.
use ming.Base.{
  inr, subst, inl, ◌==◌, Bool-cases, elem-append, zero, ◌/◌, sym, false, refl, ◌∙◌, List, arith,
  ◌++◌, ap, true, ◌+◌, elem, suc, ◌≡◌, ◌<◌, ◌≤◌, ℕ,
}
use ming.Gc.Obj.{Pool, Gc, Stub, Descr}
use ming.Gc.Sweep.Lists.{PoolDone, all_dead, all_dead-same}
use ming.Gc.Sweep.Types.{in_right, in_left, listed, words_of, dead_types, BothSwept}

pub here : (p : ℕ) (xs ys zs : List ℕ) → elem p (xs ++ ys) ≡ true → elem p (xs ++ (ys ++ zs)) ≡ true
here p xs ys zs e =
    ground (arith, sym (elem-append p xs ys) ∙ e, elem-append p xs (ys ++ zs), elem-append p ys zs)

pub later : (p : ℕ) (xs ys zs : List ℕ) → elem p zs ≡ true → elem p (xs ++ (ys ++ zs)) ≡ true
later p xs ys zs e = ground (arith, e, elem-append p xs (ys ++ zs), elem-append p ys zs)

pub outside :
    (p : ℕ) (xs ys zs : List ℕ)
    → elem p (xs ++ (ys ++ zs)) ≡ false
    → (elem p (xs ++ ys) ≡ false) × (elem p zs ≡ false)
outside p xs ys zs n = (
  ground (arith, sym (elem-append p xs (ys ++ zs)) ∙ n, elem-append p ys zs, elem-append p xs ys),
  ground (arith, sym (elem-append p xs (ys ++ zs)) ∙ n, elem-append p ys zs),
)

pub listed-same :
    (f g : ℕ → Stub) (rounds t : ℕ)
    → ((u : ℕ) → t ≤ u → f u ≡ g u)
    → listed f rounds t ≡ listed g rounds t
listed-same f g zero t h = refl
listed-same f g (suc rounds) t h =
    ap (λ x. x.full_pools ++ (x.usable_pools ++ listed f rounds (t + 1))) (h t (omega arith))
    ∙ ap (λ l. (g t).full_pools ++ ((g t).usable_pools ++ l))
        (listed-same f g rounds (t + 1) (λ u l. h u (omega (arith, l))))

pub elem-listed :
    (f : ℕ → Stub) (rounds t u p : ℕ)
    → t ≤ u
    → u < t + rounds
    → elem p ((f u).full_pools ++ (f u).usable_pools) ≡ true
    → elem p (listed f rounds t) ≡ true
elem-listed f zero t u p l m e = absurd (omega (arith, l, m))
elem-listed f (suc rounds) t u p l m e = elim (Bool-cases (u == t)) [
  | inl same ↦
      let at : u ≡ t = ground arith in
      let e' = subst (λ x. elem p ((f x).full_pools ++ (f x).usable_pools) ≡ true) at e in
      here p (f t).full_pools (f t).usable_pools (listed f rounds (t + 1)) e'
  | inr other ↦
      later p (f t).full_pools (f t).usable_pools (listed f rounds (t + 1))
        (elem-listed f rounds (t + 1) u p (ground (arith, l, other)) (omega (arith, m)) e)
]

module _ (descrs : ℕ → Descr) where
  pub dead_types-same :
      (s s2 : Gc) (rounds t : ℕ)
      → ((u : ℕ) → t ≤ u → s2.stubs u ≡ s.stubs u)
      → ((p : ℕ) → elem p (listed s.stubs rounds t) ≡ true → s2.pools p ≡ s.pools p)
      → dead_types descrs s2 rounds t ≡ dead_types descrs s rounds t
  dead_types-same s s2 zero t h k = refl
  dead_types-same s s2 (suc rounds) t h k =
      let size = (descrs t).size in
      let A : Stub → (ℕ → Pool) → List ℕ → List ℕ = λ x f l.
        all_dead size (x.bitmap_size / 4) f x.full_pools
        ++ (all_dead size (x.bitmap_size / 4) f x.usable_pools ++ l) in
      let stub = s.stubs t in
      ap (λ x. A x s2.pools (dead_types descrs s2 rounds (t + 1))) (h t (omega arith))
      ∙ ap (A stub s2.pools) (
          dead_types-same s s2 rounds (t + 1) (λ u l. h u (omega (arith, l)))
            (λ p i.
              k p (later p stub.full_pools stub.usable_pools (listed s.stubs rounds (t + 1)) i)))
      ∙ ap
          (λ l.
            l
            ++ (all_dead size (stub.bitmap_size / 4) s2.pools stub.usable_pools
                ++ dead_types descrs s rounds (t + 1)))
          (all_dead-same size (stub.bitmap_size / 4) s2.pools s.pools stub.full_pools
            (λ p i. k p (in_left p stub.full_pools _ i)))
      ∙ ap
          (λ l.
            all_dead size (stub.bitmap_size / 4) s.pools stub.full_pools
            ++ (l ++ dead_types descrs s rounds (t + 1)))
          (all_dead-same size (stub.bitmap_size / 4) s2.pools s.pools stub.usable_pools (λ p i.
            k p (
              here p stub.full_pools stub.usable_pools _
                (in_right p stub.full_pools stub.usable_pools i))))

  pub done_types :
      (rounds t : ℕ) (s s2 s3 : Gc)
      → BothSwept descrs t s s2
      → ((p : ℕ)
          → elem p ((s.stubs t).full_pools ++ (s.stubs t).usable_pools) ≡ true
          → elem p (listed s.stubs rounds (t + 1)) ≡ false)
      → ((p : ℕ) → elem p (listed s.stubs rounds (t + 1)) ≡ true → s2.pools p ≡ s.pools p)
      → ((p : ℕ) → elem p (listed s.stubs rounds (t + 1)) ≡ false → s3.pools p ≡ s2.pools p)
      → ((u : ℕ) → t + 1 ≤ u → s2.stubs u ≡ s.stubs u)
      → ((u p : ℕ)
          → t + 1 ≤ u
          → u < t + 1 + rounds
          → elem p ((s2.stubs u).full_pools ++ (s2.stubs u).usable_pools) ≡ true
          → PoolDone (descrs u).size (words_of descrs s2 u) (s2.pools p) (s3.pools p))
      → (u p : ℕ) → t ≤ u
      → u < t + suc rounds
      → elem p ((s.stubs u).full_pools ++ (s.stubs u).usable_pools) ≡ true
      → PoolDone (descrs u).size (words_of descrs s u) (s.pools p) (s3.pools p)
  done_types rounds t s s2 s3 h apart kept after stubs next u p a b i = elim (Bool-cases (u == t)) [
    | inl same ↦
        let at : u ≡ t = ground arith in
        let i' =
          subst (λ x. elem p ((s.stubs x).full_pools ++ (s.stubs x).usable_pools) ≡ true) at i in
        subst (λ x. PoolDone (descrs x).size (words_of descrs s x) (s.pools p) (s3.pools p))
          (sym at)
          (subst (PoolDone (descrs t).size (words_of descrs s t) (s.pools p))
            (sym (after p (apart p i'))) (h.both p i'))
    | inr other ↦
        let above : t + 1 ≤ u = ground (arith, a, other) in
        let below : u < t + 1 + rounds = omega (arith, b) in
        let same = stubs u above in
        let i' = subst (λ x. elem p (x.full_pools ++ x.usable_pools) ≡ true) (sym same) i in
        subst (λ x. PoolDone (descrs u).size (words_of descrs s u) x (s3.pools p))
          (kept p (elem-listed s.stubs rounds (t + 1) u p above below i))
          (subst (λ x. PoolDone (descrs u).size (x.bitmap_size / 4) (s2.pools p) (s3.pools p)) same
            (next u p above below i'))
  ]
