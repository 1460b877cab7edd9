-- ===== src/Tests/Values.antt =====
-- Values and comparisons at concrete words.
use ming.Value.Numbers.{value_from_int-get_int}
use ming.Value.Narrow.{value_from_int_32_fails, value_from_int_32}
use ming.Value.Tags.{value_tests-exclusive, one_if}
use ming.Value.Boxes.{value_from_object-get, value_from_double-is_ptr, IsCell}
use ming.Cmp.Order.{Positive, int_cmp_func_collides, Negative, Tells, IsCompare}
use ming.Value.{
  value_get_array, value_from_array, value_is_array, value_get_closure, value_is_ptr,
  value_is_closure, value_get_double, value_from_closure, value_is_null, value_is_string,
  value_get_int, value_is_double, value_get_object, value_is_number, value_is_object,
  value_from_double, value_from_object, value_is_bool, value_from_int, Store, value_is_int, ObjType,
}
use ming.Cmp.{ptr_cmp_func, int_cmp_func}
use ming.Base.{
  inr, ltb→lt, inl, ap, Bool-cases, ◌≤◌, ◌^◌, ◌<◌, ◌↔◌, ◌-◌, false, negsuc, true, none, ltb, some,
  refl, ◌+◌, pos, arith, if◌then◌else◌, Run, ◌≢◌, ◌≡◌, Returns, ℤ, ℕ,
}

value_tests-exclusive_example :
    (one_if (value_is_bool 12)
        + one_if (value_is_int 12)
        + one_if (value_is_double 12)
        + one_if (value_is_string 12)
        + one_if (value_is_null (λ _. 1) 12)
        + one_if (value_is_ptr (λ _. 1) 12)
      ≤ 1)
    × (one_if (value_is_number 12) ≡ one_if (value_is_int 12) + one_if (value_is_double 12))
    × (one_if (value_is_object (λ _. 1) 12)
          + one_if (value_is_closure (λ _. 1) 12)
          + one_if (value_is_array (λ _. 1) 12)
        ≤ one_if (value_is_ptr (λ _. 1) 12))
value_tests-exclusive_example = value_tests-exclusive (λ _. 1) 12

value_from_int-get_int_example :
    (value_is_int (value_from_int (negsuc 41)) ≡ true)
    × ((value_get_int (value_from_int (negsuc 41)) ≡ some (negsuc 41)) ↔ (41 < 2 ^ 28))
value_from_int-get_int_example = value_from_int-get_int (negsuc 41) (omega arith)

abbrev store : Store
store = record { mem = λ _. 0; nb_stack = λ _. 65; nb_top = 1 }

-- An allocator that gives the cell at address 64.
abbrev alloc_64 : ObjType → Run Store (ℕ × ℕ)
alloc_64 t s = some ((64, 0), s)

box-IsCell : IsCell 64 0 store
box-IsCell = record { aligned = refl; nonnull = omega arith; index = omega arith }

value_from_object-get_example :
    Returns (value_from_object alloc_64 40 store) (λ v u.
      (value_is_object u.mem v ≡ true) × (value_get_object u.mem v ≡ some 40) × (u.nb_stack 0 ≡ 64))
    × Returns (value_from_closure alloc_64 40 store) (λ v u.
      (value_is_closure u.mem v ≡ true)
      × (value_get_closure u.mem v ≡ some 40)
      × (u.nb_stack 0 ≡ 64))
    × Returns (value_from_array alloc_64 40 store) (λ v u.
      (value_is_array u.mem v ≡ true) × (value_get_array u.mem v ≡ some 40) × (u.nb_stack 0 ≡ 64))
value_from_object-get_example =
    value_from_object-get alloc_64 store store 64 0 box-IsCell 40 refl refl (omega arith)

value_from_double-is_ptr_example : Returns (value_from_double alloc_64 7 store) (λ v u.
    (value_is_number v ≡ false) × (value_get_double u.mem v ≡ none) × (value_is_ptr u.mem v ≡ true))
value_from_double-is_ptr_example =
    value_from_double-is_ptr alloc_64 store store 64 0 box-IsCell 7 refl

value_from_int_32_fails_example : value_from_int_32 (pos 5) ≡ none
value_from_int_32_fails_example = value_from_int_32_fails (pos 5)

int_cmp_func_collides_example :
    (int_cmp_func 5 0x1_0000_0005 ≡ pos 0)
    × (ptr_cmp_func 5 0x1_0000_0005 ≡ pos 0)
    × ¬ Tells (int_cmp_func 5 0x1_0000_0005) 5 0x1_0000_0005
int_cmp_func_collides_example =
    int_cmp_func_collides 5 0x1_0000_0005 (omega arith) (omega arith) (omega arith) refl

-- A comparison of strings by their addresses.
abbrev by_address : ℕ → ℕ → ℤ
by_address a b = if ltb a b then negsuc 0 else pos (a - b)

by_address_below : (a b : ℕ) → a < b → by_address a b ≡ negsuc 0
by_address_below a b lt = ground arith

by_address_above : (a b : ℕ) → b ≤ a → by_address a b ≡ pos (a - b)
by_address_above a b le = ground arith

by_address_signs :
    (a b : ℕ) → (Negative (by_address a b) ↔ (a < b)) × (Positive (by_address a b) ↔ (b < a))
by_address_signs a b = elim (Bool-cases (ltb a b)) [
  | inl lt ↦ rw (by_address_below a b (ltb→lt a b lt)) (
    (λ _. ltb→lt a b lt, λ _. tt),
    (λ p. absurd p, λ h. absurd (omega (arith, h, ltb→lt a b lt))),
  )
  | inr ge ↦
      let le : b ≤ a = ground arith in
      rw (by_address_above a b le)
        ((λ n. absurd n, λ h. absurd (omega arith)), (λ p. omega arith, λ h. omega arith))
]

by_address_trans : (a b c : ℕ) → ¬ (b < a) → ¬ (c < b) → ¬ (c < a)
by_address_trans a b c h k p = omega arith

by_address-IsCompare : IsCompare (λ p. p ≢ 0) by_address
by_address-IsCompare = record {
  flip = λ a b _ _. (
    λ n. (by_address_signs b a).1.1 ((by_address_signs a b).0.0 n),
    λ p. (by_address_signs a b).0.1 ((by_address_signs b a).1.0 p),
  );
  trans = λ a b c _ _ _ h k p.
      by_address_trans a b c (λ l. h ((by_address_signs a b).1.1 l))
        (λ l. k ((by_address_signs b c).1.1 l)) ((by_address_signs a c).1.0 p);
}

by_address_self : (p : ℕ) → by_address p p ≡ pos 0
by_address_self p = rw (by_address_above p p (omega arith)) (ap pos (omega arith))
