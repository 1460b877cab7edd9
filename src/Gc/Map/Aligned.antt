-- ===== src/Gc/Map/Aligned.antt =====
-- The address that `gc_mmap` gives, and the memory behind it.
use ming.Base.{
  ◌!=◌, pure, if◌then◌else◌, ◌>>=◌, ◌>>◌, Run, refl, [], ◌==◌, arith, Option-cases, Bool-cases, inr,
  ◌∷◌, ◌*◌, true, ◌<◌, inl, ◌&&◌, ◌⊎◌, ◌/◌, some, ◌^◌, ◌≤◌, Returns, false, ◌-◌, ◌≡◌, ◌%◌, Option,
  ◌+◌, List, ℕ,
}
use ming.Gc.Map.{Call, mmapped, munmapped, map_page, sys_mmap, sys_munmap, map_and_cut, gc_mmap}
use ming.Gc.Map.Covered.{covered, after_cover, before_cover}

-- The number of calls whose hint the system did not take.
abbrev pub missed : List Call → ℕ
missed [] = 0
missed (mmapped h n p ∷ cs) = (if h != 0 && h != p then 1 else 0) + missed cs
missed (munmapped p n ∷ cs) = missed cs

-- All the memory of the map at `p` is mapped.
abbrev pub Whole : ℕ → ℕ → List Call → Type 0
Whole size p cs = (a : ℕ) → p ≤ a → a < p + size → covered cs a ≡ true

-- The result is `NULL`, or at a page, and then all of its memory is mapped or the system did not
-- take a hint of a call that was made since `old`.
pub record Good (size p : ℕ) (old cs : List Call) : Type 0 where
  pub aligned : p % map_page ≡ 0
  pub whole : (p ≡ 0) ⊎ (Whole size p cs ⊎ (missed old < missed cs))

null-Good : (size : ℕ) (old cs : List Call) → Good size 0 old cs
null-Good size old cs = record { aligned = refl; whole = inl refl }

-- The size in whole pages.
abbrev pub pages : ℕ → ℕ
pages size = (size + (map_page - 1)) % 2 ^ 64 / map_page * map_page

module _ (mmap : List Call → ℕ → ℕ → Option ℕ) where
  sys_mmap-cases :
      (h n : ℕ) (cs : List Call)
      → (sys_mmap mmap h n cs ≡ some (0, cs))
        ⊎ ((p : ℕ) × (mmap cs h n ≡ some p) × (sys_mmap mmap h n cs ≡ some (p, mmapped h n p ∷ cs)))
  unfolding sys_mmap
  sys_mmap-cases h n cs = elim (Option-cases (mmap cs h n)) [
    | inl e ↦ inl (ground (arith, e))
    | inr (p, e) ↦ inr (p, e, ground (arith, e))
  ]

  map_and_cut-Good :
      (size : ℕ) (cs : List Call)
      → size % map_page ≡ 0
      → (old : List Call) → Returns (map_and_cut mmap size cs) (λ p cs'. Good size p old cs')
  unfolding map_and_cut sys_munmap
  map_and_cut-Good size cs z old = elim (sys_mmap-cases 0 (size + map_page - 1) cs) [
    | inl e ↦ rw e (0, _, refl, null-Good _ _ _)
    | inr (p, _, e) ↦ elim (Bool-cases (p == 0)) [
      | inl zero_address ↦ rw (e, zero_address) (0, _, refl, null-Good _ _ _)
      | inr p0 ↦ elim (Bool-cases (p % map_page == 0)) [
        | inl at_page ↦
            rw (e, p0, at_page)
              (
                p,
                _,
                refl,
                record {
                  aligned = ground arith;
                  whole = inr (inl (λ a l h. ground (arith, l, h)));
                },
              )
        | inr off ↦
            rw (e, p0, off)
              (
                _,
                _,
                refl,
                record { aligned = omega arith; whole = inr (inl (λ a l h. ground (arith, l, h))) },
              )
      ]
    ]
  ]

  -- The second try, with memory in front of the map at `p`, and the third.
  in_front : ℕ → ℕ → Run (List Call) ℕ
  in_front room p = do
    let over = p % map_page
    r ← sys_mmap mmap (p - over) over
    if r == 0
        then (do sys_munmap mmap p room; map_and_cut mmap room)
        else (do sys_munmap mmap (p + room - over) over; pure (p - over))

  -- The map at `p` is not at a page.
  unaligned : ℕ → ℕ → Run (List Call) ℕ
  unfolding in_front
  unaligned room p = do
    let over = p % map_page
    q ← sys_mmap mmap (p + room) (map_page - over)
    if q == 0
        then in_front room p
        else (do sys_munmap mmap p (map_page - over); pure (p + (map_page - over)))

  holds_new :
      (p n : ℕ) (cs : List Call) (a : ℕ) → p ≤ a → a < p + n → covered (mmapped 0 n p ∷ cs) a ≡ true
  holds_new p n cs a l h = ground (arith, l, h)

  in_front-Good :
      (room p : ℕ) (cs old : List Call)
      → room % map_page ≡ 0
      → ((a : ℕ) → p ≤ a → a < p + room → covered cs a ≡ true)
      → missed old ≤ missed cs
      → Returns (in_front room p cs) (λ q cs'. Good room q old cs')
  unfolding in_front sys_munmap
  in_front-Good room p cs old z have less =
      elim (sys_mmap-cases (p - p % map_page) (p % map_page) cs) [
        | inl f ↦ rw f (map_and_cut-Good room (munmapped p room ∷ cs) z old)
        | inr (r, m, f) ↦ elim (Bool-cases (r == 0)) [
          | inl zero_address ↦
              rw (f, zero_address)
                (map_and_cut-Good room
                  (munmapped p room ∷ mmapped (p - p % map_page) (p % map_page) r ∷ cs) z old)
          | inr there ↦
              rw (f, there) (_, _, refl, record { aligned = omega arith; whole = in_place r there })
        ]
      ]
    where
      in_place :
          (r : ℕ)
          → (r == 0) ≡ false
          → (p - p % map_page ≡ 0)
            ⊎ (Whole room (p - p % map_page) (
                  munmapped (p + room - p % map_page) (p % map_page)
                  ∷ mmapped (p - p % map_page) (p % map_page) r
                  ∷ cs)
                ⊎ (missed old < missed (mmapped (p - p % map_page) (p % map_page) r ∷ cs)))
      in_place r there = elim (Bool-cases (p - p % map_page == r)) [
        | inl taken ↦
            let at : r ≡ p - p % map_page = ground arith in
            inr (
              inl (λ a l h.
                before_cover p room (p % map_page) r a (covered cs a) at (omega arith) l h
                  (have a)))
        | inr other ↦ elim (Bool-cases (p - p % map_page == 0)) [
          | inl null ↦ inl (ground arith)
          | inr hint ↦ inr (inr (ground (arith, less, other, hint)))
        ]
      ]

  unaligned-Good :
      (room p : ℕ) (cs old : List Call)
      → room % map_page ≡ 0
      → (p % map_page == 0) ≡ false
      → ((a : ℕ) → p ≤ a → a < p + room → covered cs a ≡ true)
      → missed old ≤ missed cs
      → Returns (unaligned room p cs) (λ q cs'. Good room q old cs')
  unfolding unaligned sys_munmap
  unaligned-Good room p cs old z off have less =
      elim (sys_mmap-cases (p + room) (map_page - p % map_page) cs) [
        | inl e ↦ rw e (in_front-Good room p cs old z have less)
        | inr (q, m, e) ↦ elim (Bool-cases (q == 0)) [
          | inl null ↦
              rw (e, null)
                (in_front-Good room p (mmapped (p + room) (map_page - p % map_page) q ∷ cs) old z
                  (λ a l h. ground (arith, have a l h)) (ground (arith, less)))
          | inr there ↦
              rw (e, there) (_, _, refl, record { aligned = ground arith; whole = inr (behind q) })
        ]
      ]
    where
      behind :
          (q : ℕ)
          → Whole room (p + (map_page - p % map_page)) (
              munmapped p (map_page - p % map_page)
              ∷ mmapped (p + room) (map_page - p % map_page) q
              ∷ cs)
            ⊎ (missed old < missed (mmapped (p + room) (map_page - p % map_page) q ∷ cs))
      behind q = elim (Bool-cases (p + room == q)) [
        | inl taken ↦
            let at : q ≡ p + room = ground arith in
            inl (λ a l h.
              after_cover p room (map_page - p % map_page) q a (covered cs a) at l h
                (λ x. have a (omega (arith, l)) x))
        | inr other ↦
            let hint : (p + room == 0) ≡ false = ground (arith, off) in
            inr (ground (arith, less, other, hint))
      ]

  -- `gc_mmap` returns, whatever the system answers. Its result is `NULL`, or the address of a page;
  -- then all of the memory asked for is mapped, or the system gave one of the maps of this call at
  -- another address than its hint.
  pub mmap-Good :
      (size : ℕ) (cs : List Call)
      → Returns (gc_mmap mmap size cs) (λ p cs'. Good (pages size) p cs cs')
  unfolding gc_mmap sys_munmap unaligned in_front
  mmap-Good size cs = elim (sys_mmap-cases 0 (pages size) cs) [
    | inl e ↦ rw e (0, _, refl, null-Good _ _ _)
    | inr (p, _, e) ↦ elim (Bool-cases (p % map_page == 0)) [
      | inl at_page ↦
          rw (e, at_page)
            (
              p,
              _,
              refl,
              record { aligned = ground arith; whole = inr (inl (λ a l h. ground (arith, l, h))) },
            )
      | inr off ↦
          rw (e, off)
            (unaligned-Good (pages size) p (mmapped 0 (pages size) p ∷ cs) cs (ground arith) off
              (holds_new p (pages size) cs) (omega arith))
    ]
  ]
