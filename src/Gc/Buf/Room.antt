-- ===== src/Gc/Buf/Room.antt =====
-- The room of a buffer.
use ming.Base.{
  true, leb→le, refl, update, update_at, leb, inr, false, inl, none, ◌||◌, ◌==◌, ◌%◌, if◌then◌else◌,
  arith, Bool-cases, Returns, ◌-◌, ◌^◌, some, ◌≤◌, ◌<◌, ◌≢◌, ◌≡◌, ℕ,
}
use ming.Gc.Buf.{
  m_gc_alloc_buf, m_realloc, m_malloc, m_gc_realloc_buf, m_free, Heap, m_gc_free_buf, gc_size_align,
}

-- The block at `p` has room for `size` bytes.
abbrev pub HasRoom : Heap → ℕ → ℕ → Type 0
HasRoom h p size = (c : ℕ) × (h p ≡ some c) × (size ≤ c)

pub size_align-le : (size : ℕ) → size < 2 ^ 64 - 8 → size ≤ gc_size_align size
unfolding gc_size_align
size_align-le size b = omega arith

-- What `m_gc_realloc_buf` gives for a buffer: `NULL`, or a block with room. If it gives `NULL` and
-- was asked for room, the heap is as before.
pub record Resized (h : Heap) (new_size p : ℕ) (h' : Heap) : Type 0 where
  pub room : p ≢ 0 → HasRoom h' p new_size
  pub failed : p ≡ 0 → new_size ≢ 0 → h' ≡ h

module _ (malloc : Heap → ℕ → ℕ) (realloc : Heap → ℕ → ℕ → ℕ) where
  alloc-Resized :
      (h : Heap) (size n : ℕ)
      → n ≤ size
      → Returns (m_malloc malloc realloc size h) (λ p h'. Resized h n p h')
  unfolding m_malloc
  alloc-Resized h size n l = elim (Bool-cases (malloc h size == 0)) [
    | inl e ↦ rw e (0, h, refl, record { room = λ x. absurd (x refl); failed = λ x y. refl })
    | inr e ↦ rw e (
      malloc h size,
      _,
      refl,
      record {
        room = λ x. (size, update_at h (malloc h size) (some size), l);
        failed = λ x y. absurd (ground arith);
      },
    )
  ]

  move-Resized :
      (h : Heap) (ptr size n : ℕ)
      → n ≤ size
      → Returns (m_realloc malloc realloc ptr size h) (λ p h'. Resized h n p h')
  unfolding m_realloc
  move-Resized h ptr size n l = elim (Bool-cases (realloc h ptr size == 0)) [
    | inl e ↦ rw e (0, h, refl, record { room = λ x. absurd (x refl); failed = λ x y. refl })
    | inr e ↦ rw e (
      realloc h ptr size,
      _,
      refl,
      record {
        room = λ x. (size, update_at (update h ptr none) (realloc h ptr size) (some size), l);
        failed = λ x y. absurd (ground arith);
      },
    )
  ]

  -- `m_gc_realloc_buf` of a buffer whose block has room for its size, to a new size below
  -- `2 ^ 64 - 8`, returns. Its result is `NULL`, or a block with room for the new size; if it is `NULL`
  -- though the new size is not 0, the heap is as before.
  pub realloc_buf-Resized :
      (h : Heap) (ptr old_size new_size : ℕ)
      → (ptr ≢ 0 → old_size ≢ 0 → HasRoom h ptr old_size)
      → new_size < 2 ^ 64 - 8
      → Returns
          (m_gc_realloc_buf malloc realloc ptr old_size new_size h)
          (λ p h'. Resized h new_size p h')
  unfolding m_gc_realloc_buf m_gc_alloc_buf m_gc_free_buf
  realloc_buf-Resized h ptr old_size new_size have b =
      elim (Bool-cases (ptr == 0 || old_size == 0)) [
        | inl fresh ↦
            rw fresh (alloc-Resized h (gc_size_align new_size) new_size (size_align-le new_size b))
        | inr known ↦ elim (Bool-cases (new_size == 0)) [
          | inl nothing ↦ elim (Bool-cases (ptr == 0 || old_size % 2 ^ 32 == 0)) [
            | inl cut ↦
                rw (known, nothing, cut)
                  (
                    0,
                    _,
                    refl,
                    record { room = λ x. absurd (x refl); failed = λ x y. absurd (ground arith) },
                  )
            | inr whole ↦
                rw (known, nothing, whole)
                  (
                    0,
                    _,
                    refl,
                    record { room = λ x. absurd (x refl); failed = λ x y. absurd (ground arith) },
                  )
          ]
          | inr some_room ↦ elim (Bool-cases (leb new_size old_size)) [
            | inl less ↦
                let (c, e, l) = have (λ x. absurd (ground arith)) (λ x. absurd (ground arith)) in
                rw (known, some_room, less)
                  (
                    ptr,
                    h,
                    refl,
                    record {
                      room = λ x. (c, e, omega (arith, l, leb→le new_size old_size less));
                      failed = λ x y. refl;
                    },
                  )
            | inr more ↦
                rw (known, some_room, more)
                  (move-Resized h ptr (gc_size_align new_size) new_size (size_align-le new_size b))
          ]
        ]
      ]

-- The block is given back exactly if the size, cut to 32 bits, is not 0. A buffer whose size is a
-- multiple of `2 ^ 32` stays allocated.
pub free_buf-cut_size :
    (h : Heap) (ptr size c : ℕ)
    → h ptr ≡ some c
    → 0 < ptr
    → Returns (m_gc_free_buf ptr size h) (λ _ h'.
      (h' ptr ≡ (if size % 2 ^ 32 == 0 then some c else none))
      × ((p : ℕ) → (p == ptr) ≡ false → h' p ≡ h p))
unfolding m_gc_free_buf m_free
free_buf-cut_size h ptr size c e l = elim (Bool-cases (size % 2 ^ 32 == 0)) [
  | inl cut ↦
      let test : ptr == 0 || size % 2 ^ 32 == 0 ≡ true = ground arith in
      rw (test, cut) (tt, h, refl, (e, λ p x. refl))
  | inr whole ↦
      let test : ptr == 0 || size % 2 ^ 32 == 0 ≡ false = ground arith in
      rw (test, whole) (tt, update h ptr none, refl, (update_at h ptr none, λ p x. if_other p x))
]
  where
    if_other : (p : ℕ) → (p == ptr) ≡ false → update h ptr none p ≡ h p
    if_other p x = rw x refl
