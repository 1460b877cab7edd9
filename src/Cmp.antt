-- ===== src/Cmp.antt =====
-- include/m_cmp.h: comparison functions for the keys of trees. A result is an `int`.
pub mod Order
use ming.Base.{◌%◌, ◌-◌, negsuc, pos}
use ming.Base.{◌^◌, ◌==◌, ◌+◌, signed32, if◌then◌else◌, ℤ, ℕ}

-- `m_int_cmp_func`, `m_ptr_cmp_func`: the difference of two `size_t`, cut to an `int`.
unfoldable pub int_cmp_func : ℕ → ℕ → ℤ
int_cmp_func key1 key2 = signed32 ((key1 + 2 ^ 64 - key2) % 2 ^ 64 % 2 ^ 32)

unfoldable pub ptr_cmp_func : ℕ → ℕ → ℤ
ptr_cmp_func key1 key2 = signed32 ((key1 + 2 ^ 64 - key2) % 2 ^ 64 % 2 ^ 32)

-- The C library's `strcmp` or `strcasecmp` is the parameter.
unfoldable pub cstr_cmp_func : (ℕ → ℕ → ℤ) → ℕ → ℕ → ℤ
cstr_cmp_func strcmp s1 s2 =
    if s1 == s2
    then pos 0
    else if s1 == 0
    then negsuc 0
    else if s2 == 0
    then pos 1
    else strcmp s1 s2

unfoldable pub cstr_casecmp_func : (ℕ → ℕ → ℤ) → ℕ → ℕ → ℤ
cstr_casecmp_func strcasecmp s1 s2 =
    if s1 == s2
    then pos 0
    else if s1 == 0
    then negsuc 0
    else if s2 == 0
    then pos 1
    else strcasecmp s1 s2
