-- ===== src/Gc/Sweep/Types.antt =====
-- The sweep of the pools of all types.
use mathlib.Core.List.{append_assoc}
use ming.Base.{
  ◌^◌, ◌*◌, refl, subst, update_at, ◌∙◌, ap, inl, sym, inr, ◌||◌, Bool, Bool-cases, ◌∷◌,
  elem-append, ◌==◌, arith, zero, true, some, false, ◌+◌, ◌≡◌, ◌<◌, elem, ◌/◌, suc, ◌≤◌, update,
  ◌++◌, [], Distinct, ℕ, List,
}
use ming.Gc.Obj.{Gc, Stub, Descr}
use ming.Gc.Sweep.{sweep_pools}
use ming.Gc.Sweep.Pools.{NoGray}
use ming.Gc.Sweep.Lists.{all_dead-same, PoolDone, ListSwept, all_dead, sweep_pools-ListSwept}

-- The pools of the types from `t` on, `rounds` of them, in the order of the sweep.
abbrev pub listed : (ℕ → Stub) → ℕ → ℕ → List ℕ
listed stubs zero t = []
listed stubs (suc rounds) t =
    (stubs t).full_pools ++ ((stubs t).usable_pools ++ listed stubs rounds (t + 1))

pub in_left : (p : ℕ) (xs ys : List ℕ) → elem p xs ≡ true → elem p (xs ++ ys) ≡ true
in_left p xs ys i = ground (arith, elem-append p xs ys, i)

pub in_right : (p : ℕ) (xs ys : List ℕ) → elem p ys ≡ true → elem p (xs ++ ys) ≡ true
in_right p xs ys i = ground (arith, elem-append p xs ys, i)

pub only_right :
    (p : ℕ) (xs ys : List ℕ) → elem p (xs ++ ys) ≡ true → elem p xs ≡ false → elem p ys ≡ true
only_right p xs ys i n = ground (arith, sym (elem-append p xs ys) ∙ i, n)

pub neither_left : (p : ℕ) (xs ys : List ℕ) → elem p (xs ++ ys) ≡ false → elem p xs ≡ false
neither_left p xs ys n = ground (arith, sym (elem-append p xs ys) ∙ n)

pub neither_right : (p : ℕ) (xs ys : List ℕ) → elem p (xs ++ ys) ≡ false → elem p ys ≡ false
neither_right p xs ys n = ground (arith, sym (elem-append p xs ys) ∙ n)

pub not_both :
    (p : ℕ) (xs ys : List ℕ)
    → ((q : ℕ) → elem q xs ≡ true → elem q ys ≡ false)
    → elem p ys ≡ true
    → elem p xs ≡ false
not_both p xs ys a i = elim (Bool-cases (elem p xs)) [
  | inr n ↦ n
  | inl e ↦ absurd (ground (arith, a p e, i))
]

pub Distinct-append :
    (xs ys : List ℕ)
    → Distinct (xs ++ ys)
    → Distinct xs × Distinct ys × ((p : ℕ) → elem p xs ≡ true → elem p ys ≡ false)
Distinct-append [] ys d = (tt, d, λ p e. absurd (ground arith))
Distinct-append (x ∷ xs) ys d =
    let (a, b, c) = Distinct-append xs ys d.1 in
    let (here, there) = split (elem x xs) (elem x ys) (sym (elem-append x xs ys) ∙ d.0) in
    (
      (here, a),
      b,
      λ p e. elim (Bool-cases (p == x)) [
        | inl same ↦ let at : p ≡ x = ground arith in subst (λ y. elem y ys ≡ false) (sym at) there
        | inr other ↦ c p (ground (arith, e, other))
      ],
    )
  where
    split : (a b : Bool) → a || b ≡ false → (a ≡ false) × (b ≡ false)
    split false b h = (refl, h)
    split true b h = absurd (ground (arith, h))

module _ (descrs : ℕ → Descr) where
  abbrev pub words_of : Gc → ℕ → ℕ
  words_of s t = (s.stubs t).bitmap_size / 4

  abbrev pub dead_types : Gc → ℕ → ℕ → List ℕ
  dead_types s zero t = []
  dead_types s (suc rounds) t =
      all_dead (descrs t).size (words_of s t) s.pools (s.stubs t).full_pools
      ++ (all_dead (descrs t).size (words_of s t) s.pools (s.stubs t).usable_pools
          ++ dead_types s rounds (t + 1))

  pub record TypesSwept (rounds t : ℕ) (s s' : Gc) : Type 0 where
    pub done :
        (u p : ℕ)
        → t ≤ u
        → u < t + rounds
        → elem p ((s.stubs u).full_pools ++ (s.stubs u).usable_pools) ≡ true
        → PoolDone (descrs u).size (words_of s u) (s.pools p) (s'.pools p)
    pub same : (p : ℕ) → elem p (listed s.stubs rounds t) ≡ false → s'.pools p ≡ s.pools p
    pub finalised : s'.finals ≡ s.finals ++ dead_types s rounds t

  -- Both lists of a type, after the stub's lists are set to empty.
  pub record BothSwept (t : ℕ) (s s' : Gc) : Type 0 where
    pub both :
        (p : ℕ)
        → elem p ((s.stubs t).full_pools ++ (s.stubs t).usable_pools) ≡ true
        → PoolDone (descrs t).size (words_of s t) (s.pools p) (s'.pools p)
    pub others :
        (p : ℕ)
        → elem p ((s.stubs t).full_pools ++ (s.stubs t).usable_pools) ≡ false
        → s'.pools p ≡ s.pools p
    pub final_calls :
        s'.finals
        ≡ s.finals
          ++ (all_dead (descrs t).size (words_of s t) s.pools (s.stubs t).full_pools
              ++ all_dead (descrs t).size (words_of s t) s.pools (s.stubs t).usable_pools)
    pub stubs : (u : ℕ) → (u == t) ≡ false → s'.stubs u ≡ s.stubs u

  unfoldable pub emptied : ℕ → Gc → Gc
  emptied t s = record s {
    stubs = update s.stubs t (record (s.stubs t) { full_pools = []; usable_pools = [] });
  }

  pub both-BothSwept :
      (t : ℕ) (s : Gc)
      → Distinct ((s.stubs t).full_pools ++ (s.stubs t).usable_pools)
      → ((p : ℕ)
          → elem p ((s.stubs t).full_pools ++ (s.stubs t).usable_pools) ≡ true
          → NoGray (s.pools p).bitmap)
      → words_of s t * 16 * (descrs t).size < 2 ^ 32
      → (s1 s2 : Gc) × (sweep_pools (descrs t) t (s.stubs t).full_pools (emptied t s)
          ≡ some (tt, s1))
        × (sweep_pools (descrs t) t (s.stubs t).usable_pools s1 ≡ some (tt, s2))
        × BothSwept t s s2
  unfolding emptied
  both-BothSwept t s d g below =
      let full = (s.stubs t).full_pools in
      let usable = (s.stubs t).usable_pools in
      let size = (descrs t).size in
      let s0 = emptied t s in
      let (df, du, apart) = Distinct-append full usable d in
      let z : (s0.stubs t).bitmap_size ≡ (s.stubs t).bitmap_size =
        ap (λ x. x.bitmap_size) (update_at s.stubs t _) in
      let (_, s1, e1, h1) =
        sweep_pools-ListSwept (descrs t) t full s0 df (λ p i. g p (in_left p full usable i))
          (subst (λ x. x / 4 * 16 * size < 2 ^ 32) (sym z) below) in
      let kept : (p : ℕ) → elem p usable ≡ true → s1.pools p ≡ s.pools p =
        λ p i. h1.same p (not_both p full usable apart i) in
      let (_, s2, e2, h2) =
        sweep_pools-ListSwept (descrs t) t usable s1 du
          (λ p i. subst (λ x. NoGray x.bitmap) (sym (kept p i)) (g p (in_right p full usable i)))
          (subst (λ x. x / 4 * 16 * size < 2 ^ 32) (sym (h1.same_size ∙ z)) below) in
      let h1' = subst (λ w. ListSwept size (w / 4) t full s0 s1) z h1 in
      let h2' = subst (λ w. ListSwept size (w / 4) t usable s1 s2) (h1.same_size ∙ z) h2 in
      (
        s1,
        s2,
        e1,
        e2,
        record {
          both = λ p i. elim (Bool-cases (elem p full)) [
            | inl e ↦
                subst (PoolDone size (words_of s t) (s.pools p)) (sym (h2'.same p (apart p e)))
                  (h1'.done p e)
            | inr n ↦
                let e = only_right p full usable i n in
                subst (λ x. PoolDone size (words_of s t) x (s2.pools p)) (kept p e) (h2'.done p e)
          ];
          others = λ p n.
              h2'.same p (neither_right p full usable n)
              ∙ h1'.same p (neither_left p full usable n);
          final_calls =
              h2'.finalised
              ∙ ap (λ l. l ++ all_dead size (words_of s t) s1.pools usable) h1'.finalised
              ∙ append_assoc s.finals (all_dead size (words_of s t) s.pools full)
                  (all_dead size (words_of s t) s1.pools usable)
              ∙ ap (λ l. s.finals ++ (all_dead size (words_of s t) s.pools full ++ l))
                  (all_dead-same size (words_of s t) s1.pools s.pools usable kept);
          stubs = λ u n. h2'.other_stubs u n ∙ h1'.other_stubs u n ∙ elsewhere u n;
        },
      )
    where
      elsewhere : (u : ℕ) → (u == t) ≡ false → (emptied t s).stubs u ≡ s.stubs u
      elsewhere u n = rw n refl
