-- ===== src/Gc/Startup/Layout.antt =====
-- The layout of the pools: the number of cells, and the size of the bitmap.
use ming.Gc.Obj.{pool_header}
use native.Mathlib.Nat.{div-lt_iff_lt-mul, div-mul-le_self, mul-le-mul_right}
use ming.Base.{
  refl, subst, zero, ◌==◌, inr, leb→le, sym, inl, Bool-cases, ◌-◌, false, ◌∙◌, true, suc, ap, ◌%◌,
  some, leb, arith, ◌/◌, ◌^◌, ◌≤◌, ◌+◌, ◌*◌, ◌≡◌, ◌<◌, ℕ,
}
use ming.Gc.Startup.{page_size, first_num, pool_layout, fit_loop, bitmap_bytes, cells_fit}

-- The bytes of a bitmap of `num` marks, in words of 64 bits.
abbrev pub map_bytes : ℕ → ℕ
map_bytes num = (num * 2 + 63) / 64 * 8

-- A layout of `num` cells for `size` bytes.
pub record BestLayout (size cell num bs : ℕ) : Type 0 where
  pub bitmap : bs ≡ map_bytes num
  pub marks : num ≤ bs * 4
  pub fits : num * cell + bs ≤ size
  pub most : (m : ℕ) → num < m → size < m * cell + map_bytes m

bitmap_bytes-small : (num : ℕ) → num < 2 ^ 61 → bitmap_bytes num ≡ map_bytes num
unfolding bitmap_bytes
bitmap_bytes-small num h = omega arith

cells_fit-small :
    (size cell num : ℕ)
    → num < 2 ^ 61
    → num * cell ≤ size
    → size < 2 ^ 61
    → cells_fit size cell num ≡ leb (num * cell + map_bytes num) size
unfolding cells_fit
cells_fit-small size cell num h l b =
    rw (bitmap_bytes-small num h)
      (ap (λ x. leb x size) (no_wrap (num * cell) (map_bytes num) (omega (arith, l)) (omega arith)))
  where
    no_wrap : (a b : ℕ) → a < 2 ^ 61 → b < 2 ^ 62 → (a % 2 ^ 64 + b) % 2 ^ 64 ≡ a + b
    no_wrap a b h l = omega arith

fit_loop_found :
    (fuel size cell num : ℕ)
    → cells_fit size cell num ≡ true
    → fit_loop (suc fuel) size cell num ≡ some (num, bitmap_bytes num)
unfolding fit_loop
fit_loop_found fuel size cell num e = ground (arith, e)

fit_loop_down :
    (fuel size cell num : ℕ)
    → cells_fit size cell (suc num) ≡ false
    → num < 2 ^ 61
    → fit_loop (suc fuel) size cell (suc num) ≡ fit_loop fuel size cell num
unfolding fit_loop
fit_loop_down fuel size cell num e h = ground (arith, e, ap (fit_loop fuel size cell) (pred num h))
  where
    pred : (n : ℕ) → n < 2 ^ 61 → (suc n + 2 ^ 64 - 1) % 2 ^ 64 ≡ n
    pred n h = omega arith

best :
    (size cell num : ℕ)
    → num < 2 ^ 61
    → num * cell + map_bytes num ≤ size
    → ((m : ℕ) → num < m → size < m * cell + map_bytes m)
    → BestLayout size cell num (bitmap_bytes num)
best size cell num h f most =
    let e = bitmap_bytes-small num h in
    record { bitmap = e; marks = rw e (omega arith); fits = rw e f; most = most }

pred_le : (n : ℕ) → n ≤ suc n
pred_le n = omega arith

==-eq : (a b : ℕ) → (a == b) ≡ true → a ≡ b
==-eq a b e = ground arith

leb-false : (a b : ℕ) → leb a b ≡ false → b < a
leb-false a b e = ground arith

-- The loop ends at the largest number that fits.
fit_loop-BestLayout :
    (size cell num : ℕ)
    → num < 2 ^ 61
    → num * cell ≤ size
    → size < 2 ^ 61
    → ((m : ℕ) → num < m → size < m * cell + map_bytes m)
    → (k : ℕ) × (bs : ℕ) × (fit_loop (suc num) size cell num ≡ some (k, bs))
      × BestLayout size cell k bs
fit_loop-BestLayout size cell zero h l b most = (
  0,
  bitmap_bytes 0,
  fit_loop_found 0 size cell 0 (cells_fit-small size cell 0 h l b ∙ ground arith),
  best size cell 0 h (omega arith) most,
)
fit_loop-BestLayout size cell (suc num) h l b most =
    elim (Bool-cases (cells_fit size cell (suc num))) [
      | inl fit ↦
          let test = sym (cells_fit-small size cell (suc num) h l b) ∙ fit in
          (
            suc num,
            bitmap_bytes (suc num),
            fit_loop_found (suc num) size cell (suc num) fit,
            best size cell (suc num) h (leb→le (suc num * cell + map_bytes (suc num)) size test)
                most,
          )
      | inr not_yet ↦
          let test = sym (cells_fit-small size cell (suc num) h l b) ∙ not_yet in
          let less : num * cell ≤ size = omega (arith, mul-le-mul_right cell (pred_le num), l) in
          let (k, bs, e, y) = fit_loop-BestLayout size cell num (omega (arith, h)) less b (λ m j.
            elim (Bool-cases (m == suc num)) [
              | inl same ↦
                  subst (λ x. size < x * cell + map_bytes x) (sym (==-eq m (suc num) same))
                    (leb-false (suc num * cell + map_bytes (suc num)) size test)
              | inr other ↦ most m (ground arith)
            ]) in
          (k, bs, fit_loop_down (suc num) size cell num not_yet (omega (arith, h)) ∙ e, y)
    ]

-- A cell and its mark take `cell * 8 + 2` bits.
bits : (num cell : ℕ) → num * (cell * 8 + 2) ≡ num * cell * 8 + num * 2
bits num cell = omega arith

num_bound : (num cell size : ℕ) → num * (cell * 8 + 2) ≤ size * 8 → num ≤ size * 4
num_bound num cell size h = omega (arith, bits num cell, h)

cells_bound : (num cell size : ℕ) → num * (cell * 8 + 2) ≤ size * 8 → num * cell ≤ size
cells_bound num cell size h = omega (arith, bits num cell, h)

-- More cells than the first number do not fit.
too_many : (m cell size : ℕ) → size * 8 / (cell * 8 + 2) < m → size < m * cell + map_bytes m
too_many m cell size l = omega (
  arith,
  bits m cell,
  (div-lt_iff_lt-mul {k = cell * 8 + 2} {x = size * 8} {y = m} (omega arith)).0 l,
)

layout_fit :
    (pool_size cell : ℕ)
    → page_size ≤ pool_size
    → pool_size < 2 ^ 59
    → cell < 2 ^ 28
    → pool_layout pool_size cell
      ≡ fit_loop
          (suc ((pool_size - pool_header) * 8 / (cell * 8 + 2)))
          (pool_size - pool_header)
          cell
          ((pool_size - pool_header) * 8 / (cell * 8 + 2))
unfolding pool_layout first_num
layout_fit pool_size cell h b c =
    let e : (pool_size + 2 ^ 64 - pool_header) % 2 ^ 64 ≡ pool_size - pool_header = omega arith in
    let f : (pool_size - pool_header) * 8 % 2 ^ 64 ≡ (pool_size - pool_header) * 8 = omega arith in
    let g : (cell * 8 + 2) % 2 ^ 32 ≡ cell * 8 + 2 = omega arith in rw (e, f, g) refl

-- The layout of the pools of a type, for pools of a page at least and less than `2 ^ 59` bytes, and
-- cells of 1 byte at least and less than `2 ^ 28`: the loop ends, the bitmap has a mark for each cell,
-- cells and bitmap fit behind the header of the pool, and no larger number of cells would.
pub pool_layout-BestLayout :
    (pool_size cell : ℕ)
    → page_size ≤ pool_size
    → pool_size < 2 ^ 59
    → 0 < cell
    → cell < 2 ^ 28
    → (num : ℕ) × (bs : ℕ) × (pool_layout pool_size cell ≡ some (num, bs))
      × BestLayout (pool_size - pool_header) cell num bs
unfolding pool_layout first_num
pool_layout-BestLayout pool_size cell h b p c =
    let size = pool_size - pool_header in
    let num = size * 8 / (cell * 8 + 2) in
    let d : 0 < cell * 8 + 2 = omega arith in
    let cap : num * (cell * 8 + 2) ≤ size * 8 = div-mul-le_self (size * 8) (cell * 8 + 2) in
    let (k, bs, e, y) =
      fit_loop-BestLayout size cell num (omega (arith, num_bound num cell size cap))
        (cells_bound num cell size cap) (omega arith) (λ m l. too_many m cell size l) in
    (k, bs, layout_fit pool_size cell h b c ∙ e, y)
