-- ===== src/Gc/Map/Covered.antt =====
-- The memory that calls of mmap and munmap leave mapped, src/m_gc_map.c.
use ming.Base.{
  ltb→lt, leb→le, [], arith, not, Bool-cases, ◌||◌, ltb, inr, ◌∷◌, true, ◌<◌, inl, ◌&&◌, ◌≤◌, leb,
  false, ◌-◌, ◌≡◌, ◌+◌, Bool, List, ℕ,
}
use ming.Gc.Map.{Call, mmapped, munmapped}

-- Whether the calls leave the address `a` mapped.
abbrev pub covered : List Call → ℕ → Bool
covered [] a = false
covered (mmapped h n p ∷ cs) a = (leb p a && ltb a (p + n)) || covered cs a
covered (munmapped p n ∷ cs) a = not (leb p a && ltb a (p + n)) && covered cs a

pub after_cover :
    (p room d q a : ℕ) (c : Bool)
    → q ≡ p + room
    → p + d ≤ a
    → a < p + d + room
    → (a < p + room → c ≡ true)
    → not (leb p a && ltb a (p + d)) && (leb q a && ltb a (q + d) || c) ≡ true
after_cover p room d q a c e l h old = elim (Bool-cases (ltb a (p + room))) [
  | inl inside ↦ let o = old (ltb→lt a (p + room) inside) in ground (arith, o)
  | inr outside ↦ ground (arith, outside)
]

pub before_cover :
    (p room d r a : ℕ) (c : Bool)
    → r ≡ p - d
    → d ≤ p
    → p - d ≤ a
    → a < p - d + room
    → (p ≤ a → a < p + room → c ≡ true)
    → not (leb (p + room - d) a && ltb a (p + room - d + d)) && (leb r a && ltb a (r + d) || c)
      ≡ true
before_cover p room d r a c e f l h old = elim (Bool-cases (leb p a)) [
  | inl inside ↦ let o = old (leb→le p a inside) (omega (arith, h, f)) in ground (arith, o)
  | inr outside ↦ ground (arith, outside)
]
