-- ===== src/Gc/Bitmap.antt =====
-- src/m_gc_obj.c: the bitmap of a pool, two bits for a cell, sixteen cells in a `uint32_t`.
pub mod Laws
use ming.Base.{◌+◌, negsuc, none, pos, zero, true, [], false, some, ◌*◌, suc, update, ◌%◌, ◌/◌, ℕ}

-- `w >> 2 * k`
unfoldable pub shift_right_2 : ℕ → ℕ → ℕ
shift_right_2 zero w = w
shift_right_2 (suc k) w = shift_right_2 k (w / 4)

-- `w << 2 * k`
unfoldable pub shift_left_2 : ℕ → ℕ → ℕ
shift_left_2 zero w = w
shift_left_2 (suc k) w = shift_left_2 k w * 4

-- `(w & ~(3 << 2 * k)) | (f << 2 * k)` for a mark `f` below 4
unfoldable pub put_mark : ℕ → ℕ → ℕ → ℕ
put_mark zero f w = w / 4 * 4 + f
put_mark (suc k) f w = put_mark k f (w / 4) * 4 + w % 4

unfoldable pub gc_obj_set_bitmap : (ℕ → ℕ) → ℕ → ℕ → (ℕ → ℕ)
gc_obj_set_bitmap bmp id flags = update bmp (id / 16) (put_mark (id % 16) flags (bmp (id / 16)))

unfoldable pub gc_obj_get_bitmap : (ℕ → ℕ) → ℕ → ℕ
gc_obj_get_bitmap bmp id = shift_right_2 (id % 16) (bmp (id / 16)) % 4
