-- ===== src/Thread/Count.antt =====
-- The numbers of threads and of paused threads, as the thread list and the flags give them.
use ming.Base.{
  ◌∙◌, refl, inr, [], arith, update, inl, false, if◌then◌else◌, ◌+◌, length, Bool-cases, true, ◌∷◌,
  ◌++◌, ◌≡◌, ◌≤◌, Distinct, Bool, elem, ◌==◌, ℕ, List,
}
use ming.Thread.{without}

abbrev pub paused_count : (ℕ → Bool) → List ℕ → ℕ
paused_count f [] = 0
paused_count f (t ∷ ts) = (if f t then 1 else 0) + paused_count f ts

pub paused_count_bound : (f : ℕ → Bool) (ts : List ℕ) → paused_count f ts ≤ length ts
paused_count_bound f [] = omega arith
paused_count_bound f (t ∷ ts) = ground (arith, paused_count_bound f ts)

-- If all threads of the list are paused, then each is.
pub paused_count-all :
    (f : ℕ → Bool) (ts : List ℕ) (t : ℕ)
    → paused_count f ts ≡ length ts
    → elem t ts ≡ true
    → f t ≡ true
paused_count-all f [] t e h = absurd (ground arith)
paused_count-all f (u ∷ us) t e h = elim (Bool-cases (t == u)) [
  | inl same ↦ let at : t ≡ u = ground arith in rw at (ground (arith, paused_count_bound f us))
  | inr other ↦ paused_count-all f us t (ground (arith, paused_count_bound f us)) (ground arith)
]

paused_count-append :
    (f : ℕ → Bool) (ts us : List ℕ)
    → paused_count f (ts ++ us) ≡ paused_count f ts + paused_count f us
paused_count-append f [] us = omega arith
paused_count-append f (t ∷ ts) us = omega (arith, paused_count-append f ts us)

-- The flag of a thread that is not in the list does not paused_count.
pub paused_count-update_other :
    (f : ℕ → Bool) (ts : List ℕ) (t : ℕ) (b : Bool)
    → elem t ts ≡ false
    → paused_count (update f t b) ts ≡ paused_count f ts
paused_count-update_other f [] t b h = refl
paused_count-update_other f (u ∷ us) t b h = ground (arith, paused_count-update_other f us t b)

pub paused_count-set :
    (f : ℕ → Bool) (ts : List ℕ) (t : ℕ)
    → Distinct ts
    → elem t ts ≡ true
    → f t ≡ false
    → paused_count (update f t true) ts ≡ paused_count f ts + 1
paused_count-set f [] t d h e = absurd (ground arith)
paused_count-set f (u ∷ us) t d h e = elim (Bool-cases (t == u)) [
  | inl same ↦
      let at : t ≡ u = ground arith in
      ground (arith, at, e, paused_count-update_other f us t true (rw at d.0))
  | inr other ↦ ground (arith, paused_count-set f us t d.1 (ground arith) e)
]

pub paused_count-clear :
    (f : ℕ → Bool) (ts : List ℕ) (t : ℕ)
    → Distinct ts
    → elem t ts ≡ true
    → f t ≡ true
    → paused_count (update f t false) ts + 1 ≡ paused_count f ts
paused_count-clear f [] t d h e = absurd (ground arith)
paused_count-clear f (u ∷ us) t d h e = elim (Bool-cases (t == u)) [
  | inl same ↦
      let at : t ≡ u = ground arith in
      ground (arith, at, e, paused_count-update_other f us t false (rw at d.0))
  | inr other ↦ ground (arith, paused_count-clear f us t d.1 (ground arith) e)
]

-- A new thread at the end of the list, which is not paused.
pub paused_count-add :
    (f : ℕ → Bool) (ts : List ℕ) (t : ℕ)
    → f t ≡ false
    → paused_count f (ts ++ t ∷ []) ≡ paused_count f ts
paused_count-add f ts t e = ground (arith, e, paused_count-append f ts (t ∷ []))

-- The removal of a thread.
pub paused_count-without :
    (f : ℕ → Bool) (ts : List ℕ) (t : ℕ)
    → elem t ts ≡ true
    → paused_count f (without t ts) + (if f t then 1 else 0) ≡ paused_count f ts
paused_count-without f [] t h = absurd (ground arith)
paused_count-without f (u ∷ us) t h = elim (Bool-cases (t == u)) [
  | inl same ↦ let at : t ≡ u = ground arith in rw at (ground arith)
  | inr other ↦ ground (arith, paused_count-without f us t (ground arith))
]

pub length-without :
    (ts : List ℕ) (t : ℕ) → elem t ts ≡ true → length (without t ts) + 1 ≡ length ts
length-without [] t h = absurd (ground arith)
length-without (u ∷ us) t h = elim (Bool-cases (t == u)) [
  | inl same ↦ ground arith
  | inr other ↦ ground (arith, length-without us t (ground arith))
]

pub elem-without_other :
    (ts : List ℕ) (t u : ℕ) → (u == t) ≡ false → elem u (without t ts) ≡ elem u ts
elem-without_other [] t u n = refl
elem-without_other (v ∷ vs) t u n = ground (arith, elem-without_other vs t u n)

pub elem-without : (ts : List ℕ) (t : ℕ) → Distinct ts → elem t (without t ts) ≡ false
elem-without [] t d = refl
elem-without (u ∷ us) t d = elim (Bool-cases (t == u)) [
  | inl same ↦ let at : t ≡ u = ground arith in rw at (ground (arith, d.0))
  | inr other ↦ ground (arith, elem-without us t d.1)
]

pub Distinct-without : (ts : List ℕ) (t : ℕ) → Distinct ts → Distinct (without t ts)
Distinct-without [] t d = tt
Distinct-without (u ∷ us) t d = elim (Bool-cases (t == u)) [
  | inl same ↦ rw same d.1
  | inr other ↦ rw other (elem-without_other us t u (ground arith) ∙ d.0, Distinct-without us t d.1)
]
