-- ===== src/Value/Tags.antt =====
-- The tests of include/m_value.h tell the kinds of values apart.
use ming.Value.{
  value_is_array, value_is_closure, value_is_object, value_is_number, value_is_ptr,
  value_get_string, value_from_string, value_is_null, value_is_double, value_is_string,
  value_from_bool, value_is_int, value_get_bool, value_is_bool,
}
use ming.Base.{◌≤◌, ◌+◌, arith, ◌≡◌, ◌%◌, some, false, true, Bool, ℕ}

abbrev pub one_if : Bool → ℕ
one_if true = 1
one_if false = 0

-- For every word and memory at most one of the six basic tests passes, and `m_value_is_number` is
-- the two number tests; at most one of the tests for objects, closures and arrays passes, and only
-- for pointers.
pub value_tests-exclusive :
    (mem : ℕ → ℕ) (v : ℕ)
    → (one_if (value_is_bool v)
          + one_if (value_is_int v)
          + one_if (value_is_double v)
          + one_if (value_is_string v)
          + one_if (value_is_null mem v)
          + one_if (value_is_ptr mem v)
        ≤ 1)
      × (one_if (value_is_number v) ≡ one_if (value_is_int v) + one_if (value_is_double v))
      × (one_if (value_is_object mem v)
            + one_if (value_is_closure mem v)
            + one_if (value_is_array mem v)
          ≤ one_if (value_is_ptr mem v))
unfolding value_is_bool value_is_int value_is_double value_is_string value_is_null value_is_ptr
    value_is_number value_is_object value_is_closure value_is_array
value_tests-exclusive mem v = (ground arith, ground arith, ground arith)

-- A boolean is read back as it was stored, and a string at an address that is a multiple of 8 too.
pub value_from_bool-get :
    (b : Bool) (str : ℕ)
    → str % 8 ≡ 0
    → (value_get_bool (value_from_bool b) ≡ some b)
      × (value_is_string (value_from_string str) ≡ true)
      × (value_get_string (value_from_string str) ≡ some str)
unfolding value_get_bool value_from_bool value_is_string value_from_string value_get_string
value_from_bool-get b str h = (ground arith, ground arith, ground arith)
