-- ===== src/Cmp/Order.antt =====
-- Where the comparison functions order their keys.
use ming.Cmp.{cstr_casecmp_func, cstr_cmp_func, ptr_cmp_func, int_cmp_func}
use ming.Base.{
  zero, suc, sym, refl, ◌==◌, inr, ltb→lt, inl, ltb, ◌≤◌, ◌-◌, Bool-cases, arith, ◌%◌, ◌+◌, ◌≢◌,
  ◌^◌, negsuc, ◌↔◌, ◌≡◌, ◌<◌, pos, ℤ, ℕ,
}

abbrev pub Negative : ℤ → Type 0
Negative (pos n) = ⊥
Negative (negsuc n) = Unit

abbrev pub Positive : ℤ → Type 0
Positive (pos n) = 0 < n
Positive (negsuc n) = ⊥

-- A comparison result that tells the order of two numbers.
pub record Tells (r : ℤ) (a b : ℕ) : Type 0 where
  pub equal : (r ≡ pos 0) ↔ (a ≡ b)
  pub less : Negative r ↔ (a < b)
  pub greater : Positive r ↔ (b < a)

int_cmp_func_lt :
    (a b : ℕ) → b < 2 ^ 64 → a < b → b < a + 2 ^ 31 → int_cmp_func a b ≡ negsuc (b - a - 1)
unfolding int_cmp_func
int_cmp_func_lt a b hb lt near = ground arith

int_cmp_func_ge : (a b : ℕ) → a < 2 ^ 64 → b ≤ a → a < b + 2 ^ 31 → int_cmp_func a b ≡ pos (a - b)
unfolding int_cmp_func
int_cmp_func_ge a b ha le near = ground arith

Tells-lt : (a b : ℕ) → a < b → Tells (negsuc (b - a - 1)) a b
Tells-lt a b lt = record {
  equal = (λ e. cc, λ e. absurd (omega arith));
  less = (λ _. lt, λ _. tt);
  greater = (λ p. absurd p, λ h. absurd (omega arith));
}

Tells-ge : (a b : ℕ) → b ≤ a → Tells (pos (a - b)) a b
Tells-ge a b le = record {
  equal = (λ e. ground arith, λ e. ground arith);
  less = (λ p. absurd p, λ h. absurd (omega arith));
  greater = (λ p. omega arith, λ h. omega arith);
}

-- For 64-bit keys at most 2 ^ 31 - 1 apart `m_int_cmp_func` tells their order, as documented.
pub int_cmp_func-Tells :
    (a b : ℕ)
    → a < 2 ^ 64
    → b < 2 ^ 64
    → a < b + 2 ^ 31
    → b < a + 2 ^ 31
    → Tells (int_cmp_func a b) a b
int_cmp_func-Tells a b ha hb near near' = elim (Bool-cases (ltb a b)) [
  | inl lt ↦ rw (int_cmp_func_lt a b hb (ltb→lt a b lt) near') (Tells-lt a b (ltb→lt a b lt))
  | inr ge ↦ let le : b ≤ a = ground arith in rw (int_cmp_func_ge a b ha le near) (Tells-ge a b le)
]

-- Two different keys that agree in their low 32 bits are equal to `m_int_cmp_func` and to
-- `m_ptr_cmp_func`.
pub int_cmp_func_collides :
    (a b : ℕ)
    → a < 2 ^ 64
    → b < 2 ^ 64
    → a ≢ b
    → a % 2 ^ 32 ≡ b % 2 ^ 32
    → (int_cmp_func a b ≡ pos 0) × (ptr_cmp_func a b ≡ pos 0) × ¬ Tells (int_cmp_func a b) a b
unfolding int_cmp_func ptr_cmp_func
int_cmp_func_collides a b ha hb ne same =
    (ground arith, ground arith, λ t. ne (t.equal.0 (ground arith)))

-- A comparison of the pointers that `P` holds of: swapped arguments swap the sign, and "not above"
-- is transitive.
pub record IsCompare (P : ℕ → Type 0) (r : ℕ → ℕ → ℤ) : Type 0 where
  pub flip : (a b : ℕ) → P a → P b → Negative (r a b) ↔ Positive (r b a)
  pub trans :
      (a b c : ℕ) → P a → P b → P c → ¬ Positive (r a b) → ¬ Positive (r b c) → ¬ Positive (r a c)

module _ (strcmp : ℕ → ℕ → ℤ) (self : (p : ℕ) → strcmp p p ≡ pos 0) where
  cstr_null_null : cstr_cmp_func strcmp 0 0 ≡ pos 0
  unfolding cstr_cmp_func
  cstr_null_null = refl

  cstr_null_left : (b : ℕ) → b ≢ 0 → cstr_cmp_func strcmp 0 b ≡ negsuc 0
  unfolding cstr_cmp_func
  cstr_null_left b h = ground arith

  cstr_null_right : (a : ℕ) → a ≢ 0 → cstr_cmp_func strcmp a 0 ≡ pos 1
  unfolding cstr_cmp_func
  cstr_null_right a h = ground arith

  cstr_both : (a b : ℕ) → a ≢ 0 → b ≢ 0 → cstr_cmp_func strcmp a b ≡ strcmp a b
  unfolding cstr_cmp_func
  cstr_both a b ha hb = elim (Bool-cases (a == b)) [
    | inl e ↦ let same : a ≡ b = ground arith in rw e (sym (rw same (self b)))
    | inr ne ↦ ground arith
  ]

  cstr_flip :
      IsCompare (λ p. p ≢ 0) strcmp
      → (a b : ℕ) → Negative (cstr_cmp_func strcmp a b) ↔ Positive (cstr_cmp_func strcmp b a)
  cstr_flip law zero zero = rw cstr_null_null (λ h. absurd h, λ h. absurd (omega arith))
  cstr_flip law zero (suc b) =
      rw (cstr_null_left (suc b) (omega arith), cstr_null_right (suc b) (omega arith))
        (λ _. omega arith, λ _. tt)
  cstr_flip law (suc a) zero =
      rw (cstr_null_left (suc a) (omega arith), cstr_null_right (suc a) (omega arith))
        (λ h. absurd h, λ h. absurd h)
  cstr_flip law (suc a) (suc b) =
      rw
        (
          cstr_both (suc a) (suc b) (omega arith) (omega arith),
          cstr_both (suc b) (suc a) (omega arith) (omega arith),
        )
        (law.flip (suc a) (suc b) (omega arith) (omega arith))

  cstr_trans :
      IsCompare (λ p. p ≢ 0) strcmp
      → (a b c : ℕ) → ¬ Positive (cstr_cmp_func strcmp a b)
      → ¬ Positive (cstr_cmp_func strcmp b c)
      → ¬ Positive (cstr_cmp_func strcmp a c)
  cstr_trans law zero b zero h k = rw cstr_null_null (λ p. absurd (omega arith))
  cstr_trans law zero b (suc c) h k = rw (cstr_null_left (suc c) (omega arith)) (λ p. absurd p)
  cstr_trans law (suc a) zero c h k =
      absurd (h (rw (cstr_null_right (suc a) (omega arith)) (omega arith)))
  cstr_trans law (suc a) (suc b) zero h k =
      absurd (k (rw (cstr_null_right (suc b) (omega arith)) (omega arith)))
  cstr_trans law (suc a) (suc b) (suc c) h k =
      rw (cstr_both (suc a) (suc c) (omega arith) (omega arith)) (
        law.trans (suc a) (suc b) (suc c) (omega arith) (omega arith) (omega arith)
          (rw (cstr_both (suc a) (suc b) (omega arith) (omega arith)) at h)
          (rw (cstr_both (suc b) (suc c) (omega arith) (omega arith)) at k))

cstr_casecmp_eq : (r : ℕ → ℕ → ℤ) → cstr_casecmp_func r ≡ cstr_cmp_func r
unfolding cstr_cmp_func cstr_casecmp_func
cstr_casecmp_eq r = refl

-- `m_cstr_cmp_func` and `m_cstr_casecmp_func` extend the C library's comparison of strings to all
-- pointers: if that is a comparison of the pointers that are not `NULL`, and puts every string level
-- with itself, then they are comparisons of all pointers, with `NULL` below every other one.
pub cstr_cmp_func-IsCompare :
    (strcmp : ℕ → ℕ → ℤ)
    → IsCompare (λ p. p ≢ 0) strcmp
    → ((p : ℕ) → strcmp p p ≡ pos 0)
    → IsCompare (λ p. Unit {0}) (cstr_cmp_func strcmp)
      × IsCompare (λ p. Unit {0}) (cstr_casecmp_func strcmp)
      × ((p : ℕ) → p ≢ 0 → Negative (cstr_cmp_func strcmp 0 p))
cstr_cmp_func-IsCompare strcmp law self =
    let c : IsCompare (λ p. Unit {0}) (cstr_cmp_func strcmp) = record {
      flip = λ a b _ _. cstr_flip strcmp self law a b;
      trans = λ a b c _ _ _. cstr_trans strcmp self law a b c;
    } in
    (c, rw (cstr_casecmp_eq strcmp) c, λ p h. rw (cstr_null_left strcmp self p h) tt)
