-- ===== src/List/Ring.antt =====
-- Segments and rings of doubly linked nodes, and what a change elsewhere leaves of them.
use ming.Base.{ℕ, ◌≡◌, ◌≢◌, true, false, ◌||◌, List, [], ◌∷◌, ◌++◌, arith, ◌==◌, elem, Distinct}
use ming.List.{Links}

-- `q` follows `p`, in both directions.
abbrev pub Linked : Links → ℕ → ℕ → Type 0
Linked s p q = (s.next p ≡ q) × (s.prev q ≡ p)

-- From `p` the links lead through the nodes `xs` to `q`.
abbrev pub Chain : Links → ℕ → List ℕ → ℕ → Type 0
Chain s p [] q = Linked s p q
Chain s p (x ∷ xs) q = Linked s p x × Chain s x xs q

abbrev pub NonNull : List ℕ → Type 0
NonNull xs = elem 0 xs ≡ false

-- The head node `head` and the nodes `xs` form a ring of distinct nodes.
pub record IsRing (s : Links) (head : ℕ) (xs : List ℕ) : Type 0 where
  pub chain : Chain s head xs head
  pub nonnull : NonNull (head ∷ xs)
  pub distinct : Distinct (head ∷ xs)

abbrev pub last : ℕ → List ℕ → ℕ
last p [] = p
last p (x ∷ xs) = last x xs

abbrev pub first : List ℕ → ℕ → ℕ
first [] q = q
first (x ∷ xs) q = x

pub elem-last : (p : ℕ) (xs : List ℕ) → elem (last p xs) (p ∷ xs) ≡ true
elem-last p [] = ground arith
elem-last p (x ∷ xs) = ground (arith, elem-last x xs)

pub elem-first : (xs : List ℕ) (q : ℕ) → elem (first xs q) (q ∷ xs) ≡ true
elem-first [] q = ground arith
elem-first (x ∷ xs) q = ground arith

pub prev-last : (s : Links) (p q : ℕ) (xs : List ℕ) → Chain s p xs q → s.prev q ≡ last p xs
prev-last s p q [] c = c.1
prev-last s p q (x ∷ xs) c = prev-last s x q xs c.1

pub next-first : (s : Links) (p q : ℕ) (xs : List ℕ) → Chain s p xs q → s.next p ≡ first xs q
next-first s p q [] c = c.0
next-first s p q (x ∷ xs) c = c.0.0

-- A segment survives a change of links that its own nodes do not have.
pub Chain-frame :
    (s t : Links) (p q : ℕ) (xs : List ℕ)
    → ((a : ℕ) → elem a (p ∷ xs) ≡ true → t.next a ≡ s.next a)
    → ((a : ℕ) → (elem a xs || (a == q)) ≡ true → t.prev a ≡ s.prev a)
    → Chain s p xs q
    → Chain t p xs q
Chain-frame s t p q [] hn hp c = (ground (arith, hn p), ground (arith, hp q))
Chain-frame s t p q (x ∷ xs) hn hp c = (
  (ground (arith, hn p), ground (arith, hp x)),
  Chain-frame s t x q xs (λ a h. hn a (ground arith)) (λ a h. hp a (ground arith)) c.1,
)

pub Chain-split :
    (s : Links) (p q x : ℕ) (xs ys : List ℕ)
    → Chain s p (xs ++ x ∷ ys) q
    → Chain s p xs x × Chain s x ys q
Chain-split s p q x [] ys c = (c.0, c.1)
Chain-split s p q x (y ∷ xs) ys c = let (l, r) = Chain-split s y q x xs ys c.1 in ((c.0, l), r)

-- Links of nodes outside `xs` are the same in `t` as in `s`.
abbrev pub SameOutside : List ℕ → Links → Links → Type 0
SameOutside xs s t = (a : ℕ) → elem a xs ≡ false → (t.prev a ≡ s.prev a) × (t.next a ≡ s.next a)

pub Ring_head : {s : Links} {head : ℕ} {xs : List ℕ} → IsRing s head xs → head ≢ 0
Ring_head r = ground (arith, r.nonnull)

pub Ring-prev :
    (s : Links) (head : ℕ) (xs : List ℕ)
    → IsRing s head xs
    → (s.prev head ≡ last head xs) × (s.prev head ≢ 0)
Ring-prev s head xs r =
    let e = prev-last s head head xs r.chain in (e, ground (arith, e, elem-last head xs, r.nonnull))

pub Ring-next :
    (s : Links) (head : ℕ) (xs : List ℕ)
    → IsRing s head xs
    → (s.next head ≡ first xs head) × (s.next head ≢ 0)
Ring-next s head xs r =
    let e = next-first s head head xs r.chain in
    (e, ground (arith, e, elem-first xs head, r.nonnull))
