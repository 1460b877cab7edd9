-- ===== src/Gc/Sweep/Pools.antt =====
-- What the sweep does to a pool, and to the mark of each of its cells.
use ming.Gc.Unmarked.{update_same}
use mathlib.Core.List.{append-nil, append_assoc}
use ming.Base.{
  subst, ◌≤◌, inr, inl, ltb, ◌&&◌, Bool-cases, leb, ◌==◌, if◌then◌else◌, arith, sym, ap, ◌∙◌, ◌%◌,
  refl, ◌-◌, ◌∷◌, true, zero, some, ◌||◌, ◌*◌, update, ◌≡◌, ◌++◌, false, ◌^◌, ◌+◌, [], ◌<◌, suc,
  Bool, List, ℕ,
}
use ming.Gc.Sweep.Word.{
  sweep_word-swept, no_gray, swept_word_zero, any_black_zero, white_cells_zero, swept_word,
  any_black, white_cells, swept, shrink, push_all,
}
use native.Mathlib.Nat.{mul-le-mul_right}
use ming.Gc.Sweep.{word_begin, sweep_word, sweep_words, Swept}

-- The white objects of the words from `n` on, `words` of them.
unfoldable pub dead_cells : ℕ → ℕ → ℕ → ℕ → (ℕ → ℕ) → List ℕ
dead_cells begin size zero n bmp = []
dead_cells begin size (suc words) n bmp =
    white_cells 16 size (bmp n) (begin + n * 16 * size) ++ dead_cells begin size words (n + 1) bmp

unfoldable pub black_words : ℕ → ℕ → (ℕ → ℕ) → Bool
black_words zero n bmp = false
black_words (suc words) n bmp = any_black 16 (bmp n) || black_words words (n + 1) bmp

-- The bitmap after the words from `n` on, `words` of them, are swept.
unfoldable pub swept_bitmap : ℕ → ℕ → (ℕ → ℕ) → (ℕ → ℕ)
swept_bitmap words n bmp i =
    if leb n i && ltb i (n + words) then swept_word 16 (bmp i) 0 (bmp i) else bmp i

-- The words are in range and show no gray object.
abbrev pub NoGray : (ℕ → ℕ) → Type 0
NoGray bmp = (n : ℕ) → (bmp n < 4 ^ 16) × (no_gray 16 (bmp n) ≡ true)

push_all-append : (xs ys free : List ℕ) → push_all (xs ++ ys) free ≡ push_all ys (push_all xs free)
push_all-append [] ys free = refl
push_all-append (x ∷ xs) ys free = push_all-append xs ys (x ∷ free)

shrink-append :
    (xs ys : List ℕ) (n size : ℕ) → shrink n size (xs ++ ys) ≡ shrink (shrink n size xs) size ys
shrink-append [] ys n size = refl
shrink-append (x ∷ xs) ys n size = shrink-append xs ys ((n + 2 ^ 64 - size) % 2 ^ 64) size

-- What `sweep_words` gives.
pub record SweptAll (cells : List ℕ) (black : Bool) (size : ℕ) (w w' : Swept) : Type 0 where
  pub free_cells : w'.free ≡ push_all cells w.free
  pub final_calls : w'.finals ≡ w.finals ++ cells
  pub new_size : w'.allocated ≡ shrink w.allocated size cells
  pub seen_black : w'.have_black ≡ (w.have_black || black)

SweptAll-append :
    {xs ys : List ℕ} {b c : Bool} {size : ℕ} {u v w : Swept}
    → SweptAll xs b size u v
    → SweptAll ys c size v w
    → SweptAll (xs ++ ys) (b || c) size u w
SweptAll-append {xs} {ys} {b} {c} {size} {u} h k = record {
  free_cells = k.free_cells ∙ ap (push_all ys) h.free_cells ∙ sym (push_all-append xs ys u.free);
  final_calls = k.final_calls ∙ ap (λ l. l ++ ys) h.final_calls ∙ append_assoc u.finals xs ys;
  new_size =
      k.new_size
      ∙ ap (λ n. shrink n size ys) h.new_size
      ∙ sym (shrink-append xs ys u.allocated size);
  seen_black = ground (arith, h.seen_black, k.seen_black);
}

-- A word that is 0 has nothing to sweep.
SweptAll-zero :
    (size ptr word : ℕ) (w : Swept)
    → word ≡ 0
    → SweptAll (white_cells 16 size word ptr) (any_black 16 word) size w w
SweptAll-zero size ptr word w e =
    let c : white_cells 16 size word ptr ≡ [] = rw e (white_cells_zero 16 size ptr) in
    record {
      free_cells = rw c refl;
      final_calls = rw c (sym (append-nil w.finals));
      new_size = rw c refl;
      seen_black = ground (arith, any_black_zero 16, ap (any_black 16) e);
    }

sweep_words_zero :
    (begin size words n : ℕ) (bmp : ℕ → ℕ) (w : Swept)
    → bmp n ≡ 0
    → sweep_words begin size (suc words) n bmp w ≡ sweep_words begin size words (n + 1) bmp w
unfolding sweep_words
sweep_words_zero begin size words n bmp w e = ground (arith, e)

sweep_words_other :
    (begin size words n : ℕ) (bmp : ℕ → ℕ) (w w' : Swept)
    → (bmp n == 0) ≡ false
    → sweep_word 16 size (bmp n) (word_begin begin size n) 0 (record w { word = bmp n }) ≡ some w'
    → sweep_words begin size (suc words) n bmp w
      ≡ sweep_words begin size words (n + 1) (update bmp n w'.word) w'
unfolding sweep_words
sweep_words_other begin size words n bmp w w' z e = ground (arith, z, e)

word_begin-small :
    (begin size n : ℕ) → n * 16 * size < 2 ^ 32 → word_begin begin size n ≡ begin + n * 16 * size
word_begin-small begin size n below = omega (arith, below)

first_below : (n words size : ℕ) → (n + words) * 16 * size < 2 ^ 32 → n * 16 * size < 2 ^ 32
first_below n words size below =
    let less : n * 16 ≤ (n + words) * 16 = omega arith in
    omega (arith, below, mul-le-mul_right size less)

-- The sweep of the word `n`.
sweep_words_step :
    (begin size words n : ℕ) (bmp : ℕ → ℕ) (w : Swept)
    → bmp n < 4 ^ 16
    → no_gray 16 (bmp n) ≡ true
    → n * 16 * size < 2 ^ 32
    → (bmp' : ℕ → ℕ) × (w' : Swept) × (sweep_words begin size (suc words) n bmp w
        ≡ sweep_words begin size words (n + 1) bmp' w')
      × SweptAll
          (white_cells 16 size (bmp n) (begin + n * 16 * size))
          (any_black 16 (bmp n))
          size
          w
          w'
      × ((i : ℕ) → bmp' i ≡ update bmp n (swept_word 16 (bmp n) 0 (bmp n)) i)
sweep_words_step begin size words n bmp w b g below =
    let ptr = begin + n * 16 * size in
    elim (Bool-cases (bmp n == 0)) [
      | inl z ↦
          let o : bmp n ≡ 0 = ground arith in
          let same : swept_word 16 (bmp n) 0 (bmp n) ≡ bmp n =
            ap (λ x. swept_word 16 x 0 (bmp n)) o ∙ swept_word_zero 16 0 (bmp n) in
          (
            bmp,
            w,
            sweep_words_zero begin size words n bmp w o,
            SweptAll-zero size ptr (bmp n) w o,
            λ i. ap (λ f. f i) (sym (update_same bmp n _ (sym same))),
          )
      | inr nz ↦
          let w1 : Swept = record w { word = bmp n } in
          (
            update bmp n (swept_word 16 (bmp n) 0 (bmp n)),
            swept 16 size (bmp n) ptr 0 w1,
            sweep_words_other begin size words n bmp w _ nz (
                ap (λ x. sweep_word 16 size (bmp n) x 0 w1) (word_begin-small begin size n below)
                ∙ sweep_word-swept 16 size (bmp n) ptr 0 w1 b (omega arith) g),
            record { free_cells = refl; final_calls = refl; new_size = refl; seen_black = refl },
            λ i. refl,
          )
    ]

update_above : (bmp : ℕ → ℕ) (n v i : ℕ) → n + 1 ≤ i → update bmp n v i ≡ bmp i
update_above bmp n v i l = ground arith

-- The marks after the sweep of the word `n` and of those behind it.
swept_bitmap_step :
    (words n : ℕ) (old bmp bmp1 : ℕ → ℕ) (i : ℕ)
    → bmp n ≡ old n
    → bmp1 i ≡ update bmp n (swept_word 16 (bmp n) 0 (bmp n)) i
    → (if leb (n + 1) i then swept_bitmap words (n + 1) old i else bmp1 i)
      ≡ (if leb n i then swept_bitmap (suc words) n old i else bmp i)
unfolding swept_bitmap
swept_bitmap_step words n old bmp bmp1 i e r = elim (Bool-cases (i == n)) [
  | inl same ↦
      let j : i ≡ n = ground arith in
      let at : swept_word 16 (bmp n) 0 (bmp n) ≡ swept_word 16 (old i) 0 (old i) =
        ap (λ x. swept_word 16 x 0 x) (e ∙ ap old (sym j)) in
      ground (arith, j, r, at)
  | inr other ↦ ground (arith, r)
]

-- The sweep of the words from `n` on, in a bitmap in range with no gray object, whose cells end
-- within `2 ^ 32` bytes: `old` is the bitmap
-- before the sweep, `bmp` the one when the words below `n` are done.
pub sweep_words-swept :
    (begin size words n : ℕ) (old bmp : ℕ → ℕ) (w : Swept)
    → NoGray old
    → (n + words) * 16 * size < 2 ^ 32
    → ((i : ℕ) → n ≤ i → bmp i ≡ old i)
    → (bmp' : ℕ → ℕ) × (w' : Swept) × (sweep_words begin size words n bmp w ≡ some (bmp', w'))
      × SweptAll (dead_cells begin size words n old) (black_words words n old) size w w'
      × ((i : ℕ) → bmp' i ≡ (if leb n i then swept_bitmap words n old i else bmp i))
unfolding dead_cells black_words swept_bitmap sweep_words
sweep_words-swept begin size zero n old bmp w g below same = (
  bmp,
  w,
  refl,
  record {
    free_cells = refl;
    final_calls = sym (append-nil w.finals);
    new_size = refl;
    seen_black = ground arith;
  },
  λ i. ground (arith, same i),
)
sweep_words-swept begin size (suc words) n old bmp w g below same =
    let here : bmp n ≡ old n = same n (omega arith) in
    let (bmp1, w1, run1, all1, read1) =
      sweep_words_step begin size words n bmp w (subst (λ x. x < 4 ^ 16) (sym here) (g n).0)
        (subst (λ x. no_gray 16 x ≡ true) (sym here) (g n).1)
        (first_below n (suc words) size below) in
    let (bmp2, w2, run2, all2, read2) =
      sweep_words-swept begin size words (n + 1) old bmp1 w1 g
        (subst (λ x. x * 16 * size < 2 ^ 32) (omega arith) below)
        (λ i l. read1 i ∙ update_above bmp n _ i l ∙ same i (omega (arith, l))) in
    (
      bmp2,
      w2,
      run1 ∙ run2,
      SweptAll-append
          (subst
            (λ x.
              SweptAll (white_cells 16 size x (begin + n * 16 * size)) (any_black 16 x) size w w1)
            here all1)
          all2,
      λ i. read2 i ∙ swept_bitmap_step words n old bmp bmp1 i here (read1 i),
    )
