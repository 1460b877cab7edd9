-- ===== src/Gc/Bitmap/Laws.antt =====
-- Reading and writing marks.
use ming.Gc.Bitmap.{gc_obj_set_bitmap, gc_obj_get_bitmap, shift_left_2, shift_right_2, put_mark}
use native.Mathlib.Nat.{pow-suc}
use ming.Base.{
  inr, inl, ◌==◌, Bool-cases, refl, ◌*◌, ◌/◌, suc, zero, arith, ◌≡◌, ◌+◌, ◌≢◌, ◌^◌, ◌%◌, ◌<◌, ℕ,
}

pub put_mark-read : (k f w : ℕ) → f < 4 → shift_right_2 k (put_mark k f w) % 4 ≡ f
unfolding put_mark shift_right_2
put_mark-read zero f w h = omega arith
put_mark-read (suc k) f w h = rw (quarter (put_mark k f (w / 4)) w) (put_mark-read k f (w / 4) h)
  where
    quarter : (x v : ℕ) → (x * 4 + v % 4) / 4 ≡ x
    quarter x v = omega arith

pub put_mark-other :
    (k j f w : ℕ) → f < 4 → j ≢ k → shift_right_2 j (put_mark k f w) % 4 ≡ shift_right_2 j w % 4
unfolding put_mark shift_right_2
put_mark-other zero zero f w h d = absurd (d refl)
put_mark-other zero (suc j) f w h d = rw (quarter w f h) refl
  where
    quarter : (v g : ℕ) → g < 4 → (v / 4 * 4 + g) / 4 ≡ v / 4
    quarter v g h = omega arith
put_mark-other (suc k) zero f w h d = omega arith
put_mark-other (suc k) (suc j) f w h d =
    rw (quarter (put_mark k f (w / 4)) w)
      (put_mark-other k j f (w / 4) h (λ e. d (omega (arith, e))))
  where
    quarter : (x v : ℕ) → (x * 4 + v % 4) / 4 ≡ x
    quarter x v = omega arith

-- What the shifts say: the old mark is taken away and the new one added.
put_mark-shift :
    (k f w : ℕ) → put_mark k f w + shift_left_2 k (shift_right_2 k w % 4) ≡ w + shift_left_2 k f
unfolding put_mark shift_right_2 shift_left_2
put_mark-shift zero f w = omega arith
put_mark-shift (suc k) f w = omega (arith, put_mark-shift k f (w / 4))

pub put_mark_bound : (k f w b : ℕ) → f < 4 → k < b → w < 4 ^ b → put_mark k f w < 4 ^ b
unfolding put_mark
put_mark_bound k f w zero h l e = absurd (omega arith)
put_mark_bound zero f w (suc b) h l e = omega (arith, pow-suc 4 b)
put_mark_bound (suc k) f w (suc b) h l e =
    omega (
      arith,
      pow-suc 4 b,
      put_mark_bound k f (w / 4) b h (omega arith) (omega (arith, pow-suc 4 b)),
    )

pub get_bitmap-set_bitmap :
    (bmp : ℕ → ℕ) (id f : ℕ) → f < 4 → gc_obj_get_bitmap (gc_obj_set_bitmap bmp id f) id ≡ f
unfolding gc_obj_get_bitmap gc_obj_set_bitmap
get_bitmap-set_bitmap bmp id f h = ground (arith, put_mark-read (id % 16) f (bmp (id / 16)) h)

pub get_bitmap-set_bitmap_other :
    (bmp : ℕ → ℕ) (id j f : ℕ)
    → f < 4
    → j ≢ id
    → gc_obj_get_bitmap (gc_obj_set_bitmap bmp id f) j ≡ gc_obj_get_bitmap bmp j
unfolding gc_obj_get_bitmap gc_obj_set_bitmap
get_bitmap-set_bitmap_other bmp id j f h d = elim (Bool-cases (j / 16 == id / 16)) [
  | inl e ↦ ground (arith, put_mark-other (id % 16) (j % 16) f (bmp (id / 16)) h)
  | inr n ↦ ground arith
]
