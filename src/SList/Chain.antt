-- ===== src/SList/Chain.antt =====
-- What a chain of `next` links to `NULL` stands for; also used for the buckets of include/m_hash.h.
use ming.Base.{ℕ, ◌≡◌, ◌≢◌, false, true, List, [], ◌∷◌, arith, elem, ◌∙◌}

-- From `p` the links lead through the distinct nodes `xs` to `NULL`.
abbrev pub SChain : (ℕ → ℕ) → ℕ → List ℕ → Type 0
SChain next p [] = p ≡ 0
SChain next p (x ∷ xs) = (p ≡ x) × (x ≢ 0) × (elem x xs ≡ false) × SChain next (next x) xs

-- A chain survives a change of links that its own nodes do not have.
pub SChain-frame :
    (f g : ℕ → ℕ) (p q : ℕ) (xs : List ℕ)
    → q ≡ p
    → ((a : ℕ) → elem a xs ≡ true → g a ≡ f a)
    → SChain f p xs
    → SChain g q xs
SChain-frame f g p q [] e h c = e ∙ c
SChain-frame f g p q (x ∷ xs) e h c = (
  e ∙ c.0,
  c.1,
  c.2,
  SChain-frame f g (f x) (g x) xs (h x (ground arith)) (λ a i. h a (ground arith)) c.3,
)
