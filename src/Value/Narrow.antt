-- ===== src/Value/Narrow.antt =====
-- include/m_value.h on a machine with 32-bit pointers.
use ming.Base.{
  ◌+◌, ◌*◌, not, some, arith, ◌-◌, ◌&&◌, leb_ℤ, none, negsuc, if◌then◌else◌, ◌||◌, ◌^◌, Option,
  ◌==◌, pos, ◌≡◌, ◌%◌, ℤ, Bool, ℕ,
}

abbrev pub value_true_32 : ℕ
value_true_32 = 0x7FFFFFFF

abbrev pub value_false_32 : ℕ
value_false_32 = 0x80000003

abbrev pub value_int_max_32 : ℤ
value_int_max_32 = pos 0x1FFFFFFE

abbrev pub value_int_min_32 : ℤ
value_int_min_32 = pos 0x20000001

unfoldable pub value_is_bool_32 : ℕ → Bool
value_is_bool_32 v = (v == value_true_32) || (v == value_false_32)

unfoldable pub value_is_int_32 : ℕ → Bool
unfolding value_is_bool_32
value_is_int_32 v = (v % 2 ^ 2 == 3) && not (value_is_bool_32 v)

-- The bit pattern of an `int`.
abbrev pub word32 : ℤ → ℕ
word32 (pos n) = n
word32 (negsuc n) = 2 ^ 32 - 1 - n

unfoldable pub value_from_int_32 : ℤ → Option ℕ
value_from_int_32 i =
    if leb_ℤ value_int_min_32 i && leb_ℤ i value_int_max_32
    then some (word32 i * 2 ^ 2 % 2 ^ 32 + 3)
    else none

-- With 32-bit pointers the assertion of `m_value_from_int` fails for every number: the lower bound
-- is above the upper one.
pub value_from_int_32_fails : (i : ℤ) → value_from_int_32 i ≡ none
unfolding value_from_int_32
value_from_int_32_fails (pos n) = ground arith
value_from_int_32_fails (negsuc n) = ground arith
