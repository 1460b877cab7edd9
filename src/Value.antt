-- ===== src/Value.antt =====
-- include/m_value.h on a machine with 64-bit pointers: a value is a word whose low three bits say
-- what it stands for. `& 7` is `% 8`, `& ~7` is `/ 8 * 8`.
pub mod Tags
pub mod Numbers
pub mod Boxes
pub mod Narrow
use mathlib.Core.Option
use ming.Base.{
  signed32, ◌!=◌, shift_right, ◌*◌, assert, update, true, false, ◌+◌, ◌||◌, ◌>>◌, ◌>>=◌, ◌==◌, pure,
  none, ltb, word64, not, some, ◌^◌, Bool, ℤ, Run, Option, if◌then◌else◌, ◌/◌, ◌%◌, ℕ,
}

-- The memory that values point into, word by word, and the new born stack of the thread.
pub record Store : Type 0 where
  pub mem : ℕ → ℕ
  pub nb_stack : ℕ → ℕ
  pub nb_top : ℕ

-- `M_GC_OBJ_PTR`, `M_GC_OBJ_DOUBLE` of include/m_gc.h, as far as this file allocates them.
pub data ObjType : Type 0 where
  obj_ptr obj_double : ObjType

abbrev pub type_ptr : ℕ
type_ptr = 0

abbrev pub type_double : ℕ
type_double = 1

abbrev pub type_string : ℕ
type_string = 2

abbrev pub type_int : ℕ
type_int = 3

abbrev pub value_true : ℕ
value_true = 0xC

abbrev pub value_false : ℕ
value_false = 0x4

-- `v & M_VALUE_TYPE_MASK`
abbrev pub type_of : ℕ → ℕ
type_of v = v % 2 ^ 3

-- `v & ~M_VALUE_TYPE_MASK`
abbrev pub data_of : ℕ → ℕ
data_of v = v / 2 ^ 3 * 2 ^ 3

unfoldable pub value_is_bool : ℕ → Bool
value_is_bool v = (v == value_true) || (v == value_false)

unfoldable pub value_is_int : ℕ → Bool
value_is_int v = type_of v == type_int

unfoldable pub value_is_double : ℕ → Bool
value_is_double v = type_of v == type_double

unfoldable pub value_is_number : ℕ → Bool
unfolding value_is_int value_is_double
value_is_number v = value_is_int v || value_is_double v

unfoldable pub value_is_string : ℕ → Bool
value_is_string v = type_of v == type_string

-- `*ptr` is read from `mem`.
unfoldable pub value_is_null : (ℕ → ℕ) → ℕ → Bool
value_is_null mem v =
    if v == 0
    then true
    else if type_of v != type_ptr
    then false
    else if mem v == 0
    then true
    else false

unfoldable pub value_is_ptr : (ℕ → ℕ) → ℕ → Bool
value_is_ptr mem v =
    if v == 0
    then false
    else if type_of v != type_ptr
    then false
    else if mem v == 0
    then false
    else true

-- `*ptr & M_PTR_TYPE_MASK`
abbrev pub ptr_type_of : ℕ → ℕ
ptr_type_of w = w % 2 ^ 2

abbrev pub ptr_object : ℕ
ptr_object = 0

abbrev pub ptr_closure : ℕ
ptr_closure = 1

abbrev pub ptr_array : ℕ
ptr_array = 2

unfoldable pub value_is_object : (ℕ → ℕ) → ℕ → Bool
unfolding value_is_ptr
value_is_object mem v =
    if not (value_is_ptr mem v) then false else ptr_type_of (mem v) == ptr_object

unfoldable pub value_is_closure : (ℕ → ℕ) → ℕ → Bool
unfolding value_is_ptr
value_is_closure mem v =
    if not (value_is_ptr mem v) then false else ptr_type_of (mem v) == ptr_closure

unfoldable pub value_is_array : (ℕ → ℕ) → ℕ → Bool
unfolding value_is_ptr
value_is_array mem v = if not (value_is_ptr mem v) then false else ptr_type_of (mem v) == ptr_array

-- The getters: `none` is a failed assertion.
unfoldable pub value_get_bool : ℕ → Option Bool
unfolding value_is_bool
value_get_bool v = if value_is_bool v then some (v == value_true) else none

-- `((int32_t)v) >> M_VALUE_TYPE_SHIFT`
unfoldable pub value_get_int : ℕ → Option ℤ
unfolding value_is_int
value_get_int v = if value_is_int v then some (shift_right (signed32 (v % 2 ^ 32)) 3) else none

-- A `double` is its bit pattern, the word at its address.
unfoldable pub value_get_double : (ℕ → ℕ) → ℕ → Option ℕ
unfolding value_is_double
value_get_double mem v = if value_is_double v then some (mem (data_of v)) else none

-- `of_int` converts an `int` to a `double`.
unfoldable pub value_get_number : (ℤ → ℕ) → (ℕ → ℕ) → ℕ → Option ℕ
unfolding value_is_int value_get_int value_get_double
value_get_number of_int mem v =
    if value_is_int v then Option.map of_int (value_get_int v) else value_get_double mem v

unfoldable pub value_get_string : ℕ → Option ℕ
unfolding value_is_string
value_get_string v = if value_is_string v then some (data_of v) else none

-- `*(uintptr_t*)v & ~M_PTR_TYPE_MASK`
unfoldable pub value_get_ptr : (ℕ → ℕ) → ℕ → Option ℕ
unfolding value_is_ptr
value_get_ptr mem v = if value_is_ptr mem v then some (mem v / 2 ^ 2 * 2 ^ 2) else none

unfoldable pub value_get_object : (ℕ → ℕ) → ℕ → Option ℕ
unfolding value_is_object value_get_ptr
value_get_object mem v = if value_is_object mem v then value_get_ptr mem v else none

unfoldable pub value_get_closure : (ℕ → ℕ) → ℕ → Option ℕ
unfolding value_is_closure value_get_ptr
value_get_closure mem v = if value_is_closure mem v then value_get_ptr mem v else none

unfoldable pub value_get_array : (ℕ → ℕ) → ℕ → Option ℕ
unfolding value_is_array value_get_ptr
value_get_array mem v = if value_is_array mem v then value_get_ptr mem v else none

unfoldable pub value_from_bool : Bool → ℕ
value_from_bool b = if b then value_true else value_false

-- `((M_Value)i) << 3 | 3`: the shifted word has its low bits clear.
unfoldable pub value_from_int : ℤ → ℕ
value_from_int i = word64 i * 2 ^ 3 % 2 ^ 64 + type_int

-- `w | 1` and `w | 2`
abbrev pub or_one : ℕ → ℕ
or_one w = if w % 2 == 0 then w + 1 else w

abbrev pub or_two : ℕ → ℕ
or_two w = if w / 2 % 2 == 0 then w + 2 else w

unfoldable pub value_from_string : ℕ → ℕ
value_from_string str = or_two str

unfoldable pub value_from_ptr : ℕ → ℕ
value_from_ptr ptr = ptr

unfoldable pub write : ℕ → ℕ → Run Store (Unit {0})
write p w s = some (tt, record s { mem = update s.mem p w })

-- `m_gc_add_obj`: the entry is marked as initialised, `&= ~3`.
unfoldable pub gc_add_obj : ℕ → Run Store (Unit {0})
gc_add_obj oid s =
    if ltb oid s.nb_top
    then some (tt, record s { nb_stack = update s.nb_stack oid (s.nb_stack oid / 2 ^ 2 * 2 ^ 2) })
    else none

-- `m_gc_alloc_obj` gives an address, 0 for `NULL`, and an index; `m_assert_alloc` aborts on `NULL`.
module _ (gc_alloc_obj : ObjType → Run Store (ℕ × ℕ)) where
  unfoldable pub value_from_double : ℕ → Run Store ℕ
  unfolding write
  value_from_double d = do (pd, id) ← gc_alloc_obj obj_double; assert (pd != 0); write pd d; pure pd

  -- `to_int` and `of_int` convert between `double` and `int`, `eq` compares two `double`.
  unfoldable pub value_from_number : (ℕ → ℤ) → (ℤ → ℕ) → (ℕ → ℕ → Bool) → ℕ → Run Store ℕ
  unfolding value_from_int value_from_double
  value_from_number to_int of_int eq d =
      let i = to_int d in if eq (of_int i) d then pure (value_from_int i) else value_from_double d

  unfoldable pub value_from_object : ℕ → Run Store ℕ
  unfolding write gc_add_obj value_from_ptr
  value_from_object obj = do
    (ptr, id) ← gc_alloc_obj obj_ptr
    assert (ptr != 0)
    write ptr obj
    gc_add_obj id
    pure (value_from_ptr ptr)

  unfoldable pub value_from_closure : ℕ → Run Store ℕ
  unfolding write gc_add_obj value_from_ptr
  value_from_closure clos = do
    (ptr, id) ← gc_alloc_obj obj_ptr
    assert (ptr != 0)
    write ptr (or_one clos)
    gc_add_obj id
    pure (value_from_ptr ptr)

  unfoldable pub value_from_array : ℕ → Run Store ℕ
  unfolding write gc_add_obj value_from_ptr
  value_from_array array = do
    (ptr, id) ← gc_alloc_obj obj_ptr
    assert (ptr != 0)
    write ptr (or_two array)
    gc_add_obj id
    pure (value_from_ptr ptr)
