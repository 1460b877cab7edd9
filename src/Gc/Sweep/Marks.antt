-- ===== src/Gc/Sweep/Marks.antt =====
-- The marks of a pool after its sweep.
use ming.Gc.Sweep.Pools.{swept_bitmap}
use ming.Base.{
  ◌*◌, ap, refl, ◌∙◌, inr, ◌/◌, zero, inl, Bool-cases, ◌==◌, if◌then◌else◌, suc, ◌≡◌, arith, ◌+◌,
  ◌%◌, ◌<◌, ℕ,
}
use ming.Gc.Sweep.Word.{swept_mark, swept_word}
use ming.Gc.Bitmap.{gc_obj_get_bitmap, put_mark, shift_right_2}
use ming.Gc.Bitmap.Laws.{put_mark-read, put_mark-other}

swept_mark_bound : (m : ℕ) → swept_mark m < 4
swept_mark_bound m = ground arith

-- The marks below the one that the sweep is at stay.
swept_word_below :
    (fuel flags k word j : ℕ)
    → j < k
    → shift_right_2 j (swept_word fuel flags k word) % 4 ≡ shift_right_2 j word % 4
unfolding swept_word
swept_word_below zero flags k word j l = refl
swept_word_below (suc fuel) flags k word j l = elim (Bool-cases (flags % 4 == 0)) [
  | inl z ↦ rw z (swept_word_below fuel (flags / 4) (k + 1) word j (omega (arith, l)))
  | inr z ↦ rw z (
      swept_word_below fuel (flags / 4) (k + 1) (put_mark k (swept_mark (flags % 4)) word) j
        (omega (arith, l))
      ∙ put_mark-other k j (swept_mark (flags % 4)) word (swept_mark_bound (flags % 4))
          (λ e. absurd (omega arith)))
]

-- The word after one round, at the mark of the round and at another.
round_word : ℕ → ℕ → ℕ → ℕ
round_word m k word = if m == 0 then word else put_mark k (swept_mark m) word

round_word-read :
    (m k word : ℕ)
    → shift_right_2 k (round_word m k word) % 4
      ≡ (if m == 0 then shift_right_2 k word % 4 else swept_mark m)
unfolding round_word
round_word-read m k word = elim (Bool-cases (m == 0)) [
  | inl z ↦ rw z refl
  | inr z ↦ rw z (put_mark-read k (swept_mark m) word (swept_mark_bound m))
]

round_word-other :
    (m k word j : ℕ) → k < j → shift_right_2 j (round_word m k word) % 4 ≡ shift_right_2 j word % 4
unfolding round_word
round_word-other m k word j l = elim (Bool-cases (m == 0)) [
  | inl z ↦ rw z refl
  | inr z ↦ rw z (
      put_mark-other k j (swept_mark m) word (swept_mark_bound m)
        (λ e. absurd (omega (arith, e, l))))
]

-- The other marks become `swept_mark` of what they are in `flags`.
swept_word_at :
    (fuel flags k word d j : ℕ)
    → d < fuel
    → j ≡ k + d
    → shift_right_2 j (swept_word fuel flags k word) % 4 ≡ (
        if shift_right_2 d flags % 4 == 0
        then shift_right_2 j word % 4
        else swept_mark (shift_right_2 d flags % 4))
unfolding swept_word shift_right_2 round_word
swept_word_at zero flags k word d j l e = absurd (omega arith)
swept_word_at (suc fuel) flags k word zero j l e =
    let at : j ≡ k = omega (arith, e) in
    rw at (
      swept_word_below fuel (flags / 4) (k + 1) (round_word (flags % 4) k word) k (omega arith)
      ∙ round_word-read (flags % 4) k word)
swept_word_at (suc fuel) flags k word (suc d) j l e =
    swept_word_at fuel (flags / 4) (k + 1) (round_word (flags % 4) k word) d j (omega (arith, l))
      (omega (arith, e))
    ∙ ap
        (λ x.
          if shift_right_2 d (flags / 4) % 4 == 0
          then x
          else swept_mark (shift_right_2 d (flags / 4) % 4))
        (round_word-other (flags % 4) k word j (omega (arith, e)))

swept_word-read :
    (word j : ℕ)
    → j < 16
    → shift_right_2 j (swept_word 16 word 0 word) % 4 ≡ swept_mark (shift_right_2 j word % 4)
swept_word-read word j l =
    swept_word_at 16 word 0 word j j l (omega arith) ∙ zero_mark (shift_right_2 j word % 4)
  where
    zero_mark : (m : ℕ) → (if m == 0 then m else swept_mark m) ≡ swept_mark m
    zero_mark m = ground arith

-- The marks of the cells below `16 * words` after the sweep.
pub swept_bitmap-read :
    (words : ℕ) (old bmp : ℕ → ℕ) (id : ℕ)
    → ((i : ℕ) → bmp i ≡ swept_bitmap words 0 old i)
    → id < 16 * words
    → gc_obj_get_bitmap bmp id ≡ swept_mark (gc_obj_get_bitmap old id)
unfolding gc_obj_get_bitmap swept_bitmap
swept_bitmap-read words old bmp id e l =
    ap (λ x. shift_right_2 (id % 16) x % 4) (e (id / 16) ∙ inside)
    ∙ swept_word-read (old (id / 16)) (id % 16) (omega arith)
  where
    inside : swept_bitmap words 0 old (id / 16) ≡ swept_word 16 (old (id / 16)) 0 (old (id / 16))
    inside = ground (arith, l)
