-- ===== src/Gc/Startup/Size.antt =====
-- The size of a pool, and the pool of a cell.
use native.Mathlib.Nat.{pow-suc, mod-eq_of_lt, pow-le-pow_right, one-le-pow}
use ming.Base.{
  sym, ◌∙◌, ◌%◌, ◌*◌, if◌then◌else◌, refl, none, zero, true, false, ◌==◌, ltb, ◌&&◌, inr, inl, ◌!=◌,
  leb, suc, Bool-cases, ◌⊎◌, arith, ◌+◌, some, ◌^◌, ◌≤◌, Option, ◌≡◌, ◌<◌, ℕ,
}
use ming.Gc.Startup.{checked_size, long_max, page_size, pool_size_setting, shift_until}

abbrev pub PowerOfTwo : ℕ → Type 0
PowerOfTwo n = (k : ℕ) × (n ≡ 2 ^ k)

double_pow : (k : ℕ) → k < 63 → 2 ^ k * 2 % 2 ^ 64 ≡ 2 ^ suc k
double_pow k h =
    mod-eq_of_lt (
      omega (
        arith,
        pow-suc 2 k,
        pow-le-pow_right {n = 2} (omega arith) {i = k} {j = 62} (omega (arith, h)),
      ))
    ∙ sym (pow-suc 2 k)

shift_end : (fuel n v : ℕ) → leb n v ≡ true → shift_until (suc fuel) n v ≡ some v
unfolding shift_until
shift_end fuel n v e = ground (arith, e)

shift_next :
    (fuel n v : ℕ)
    → leb n v ≡ false
    → shift_until (suc fuel) n v
      ≡ (if v * 2 % 2 ^ 64 == 0 then some 0 else shift_until fuel n (v * 2 % 2 ^ 64))
unfolding shift_until
shift_next fuel n v e = ground (arith, e)

-- The loop ends within 64 rounds, in 0 or a power of two.
shift_until-PowerOfTwo :
    (fuel k n : ℕ)
    → k < 64
    → 64 ≤ fuel + k
    → (v : ℕ) × (shift_until fuel n (2 ^ k) ≡ some v) × ((v ≡ 0) ⊎ PowerOfTwo v)
shift_until-PowerOfTwo zero k n b f = absurd (omega arith)
shift_until-PowerOfTwo (suc fuel) k n b f = elim (Bool-cases (leb n (2 ^ k))) [
  | inl end ↦ (2 ^ k, shift_end fuel n (2 ^ k) end, inr (k, refl))
  | inr more ↦ elim (Bool-cases (k == 63)) [
    | inl top ↦
        let at : k ≡ 63 = ground arith in (0, shift_next fuel n (2 ^ k) more ∙ rw at refl, inl refl)
    | inr low ↦
        let below : k < 63 = ground arith in
        let (v, e, h) =
          shift_until-PowerOfTwo fuel (suc k) n (omega (arith, below)) (omega (arith, f)) in
        (
          v,
          shift_next fuel n (2 ^ k) more
              ∙ rw (double_pow k below) (
                  nonzero (2 ^ suc k) (shift_until fuel n (2 ^ suc k))
                    (one-le-pow (suc k) 2 (omega arith))
                  ∙ e),
          h,
        )
  ]
]
  where
    nonzero : (v : ℕ) (o : Option ℕ) → 1 ≤ v → (if v == 0 then some 0 else o) ≡ o
    nonzero v o h = ground arith

checked_size-PowerOfTwo :
    (n v : ℕ)
    → page_size < n
    → (v ≡ 0) ⊎ PowerOfTwo v
    → (size : ℕ) × (checked_size n (some v) ≡ some size) × PowerOfTwo size × (page_size ≤ size)
unfolding checked_size
checked_size-PowerOfTwo n v l h = elim (Bool-cases (n == v)) [
  | inr other ↦ (page_size, ground (arith, other), (12, refl), omega arith)
  | inl same ↦ let e : n ≡ v = ground arith in (n, ground (arith, same), power e h, omega arith)
]
  where
    power : n ≡ v → (v ≡ 0) ⊎ PowerOfTwo v → PowerOfTwo n
    power e (inl z) = absurd (omega (arith, e, z, l))
    power e (inr (k, p)) = (k, e ∙ p)

-- Whatever the environment says, the loop over the powers of two ends, and the size of a pool is a
-- power of two that is at least a page.
pub pool_size_setting-PowerOfTwo :
    (env : Option ℕ)
    → (size : ℕ) × (pool_size_setting env ≡ some size) × PowerOfTwo size × (page_size ≤ size)
unfolding pool_size_setting
pool_size_setting-PowerOfTwo none = (page_size, refl, (12, refl), omega arith)
pool_size_setting-PowerOfTwo (some n) = elim (Bool-cases (n != long_max && ltb page_size n)) [
  | inr small ↦ (page_size, rw small refl, (12, refl), omega arith)
  | inl big ↦
      let (v, e, h) = shift_until-PowerOfTwo 65 0 n (omega arith) (omega arith) in
      let (size, c, p, l) = checked_size-PowerOfTwo n v (ground arith) h in
      (size, rw (big, e) c, p, l)
]
