-- ===== src/Value/Numbers.antt =====
-- Numbers in values.
use ming.Value.{value_get_int, value_from_int, value_is_int}
use ming.Base.{arith, ◌↔◌, some, true, ◌≡◌, negsuc, ◌^◌, IsInt32, ◌<◌, pos, ℤ}

-- The integers that fit in 29 bits.
abbrev pub Fits : ℤ → Type 0
Fits (pos n) = n < 2 ^ 28
Fits (negsuc n) = n < 2 ^ 28

-- Every `int` becomes a value that tests as an integer. `m_value_get_int` reads the number back
-- exactly if it lies between -2 ^ 28 and 2 ^ 28 - 1.
pub value_from_int-get_int :
    (i : ℤ)
    → IsInt32 i
    → (value_is_int (value_from_int i) ≡ true)
      × ((value_get_int (value_from_int i) ≡ some i) ↔ Fits i)
unfolding value_is_int value_from_int value_get_int
value_from_int-get_int (pos n) h = (ground arith, (λ e. ground arith, λ f. ground arith))
value_from_int-get_int (negsuc n) h = (ground arith, (λ e. ground arith, λ f. ground arith))
