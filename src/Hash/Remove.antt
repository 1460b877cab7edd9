-- ===== src/Hash/Remove.antt =====
-- `m_hash_remove`, and `m_hash_lookup_with_prev` followed by `m_hash_remove_from_prev`.
pub mod Table
use ming.SList.Chain.{SChain-frame, SChain}
use ming.Hash.Table.{elem-erase_match, erase_match, first_match}
use ming.Hash.{
  load_slot, store_slot, u32, next_of, list_head, hash_remove_loop, HashOps, Hash, Slot,
}
use ming.Base.{
  ◌∙◌, [], some, inr, refl, inl, ◌-◌, Bool-cases, update, ◌^◌, arith, Returns, elem, ◌+◌, length,
  ◌≢◌, ◌<◌, ◌∷◌, if◌then◌else◌, true, ◌≡◌, false, ◌==◌, List, Bool, ℕ, zero, suc,
}

-- What a slot holds.
abbrev pub slot_value : Hash → Slot → ℕ
slot_value s (list_head i) = s.lists i
slot_value s (next_of p) = s.next p

-- The slot can be read and written, and is no `next` field of the nodes `xs`.
abbrev pub IsSlot : Hash → List ℕ → Slot → Type 0
IsSlot s xs (list_head i) = (s.allocated ≡ true) × (i < s.nlist)
IsSlot s xs (next_of p) = (p ≢ 0) × (elem p xs ≡ false)

abbrev pub is_list : Slot → ℕ → Bool
is_list (list_head i) j = i == j
is_list (next_of p) j = false

abbrev pub is_next : Slot → ℕ → Bool
is_next (list_head i) a = false
is_next (next_of p) a = p == a

-- The store `t` after the node `n`, unless it is 0, has been unlinked behind `slot` from `xs`.
pub record Unlinked (s : Hash) (slot : Slot) (xs : List ℕ) (n : ℕ) (t : Hash) : Type 0 where
  pub allocated : t.allocated ≡ s.allocated
  pub nlist : t.nlist ≡ s.nlist
  pub size : t.size ≡ (if n == 0 then s.size else u32 (s.size + 2 ^ 32 - 1))
  pub lists : (i : ℕ) → is_list slot i ≡ false → t.lists i ≡ s.lists i
  pub next : (a : ℕ) → is_next slot a ≡ false → elem a xs ≡ false → t.next a ≡ s.next a

abbrev pub write_slot : Hash → Slot → ℕ → Hash
write_slot s (list_head i) v = record s { lists = update s.lists i v }
write_slot s (next_of p) v = record s { next = update s.next p v }

pub load_slot-value :
    (s : Hash) (slot : Slot) (xs : List ℕ)
    → IsSlot s xs slot
    → load_slot slot s ≡ some (slot_value s slot, s)
unfolding load_slot
load_slot-value s (list_head i) xs h = ground arith
load_slot-value s (next_of p) xs h = ground arith

store_slot-write :
    (s : Hash) (slot : Slot) (xs : List ℕ) (v : ℕ)
    → IsSlot s xs slot
    → store_slot slot v s ≡ some (tt, write_slot s slot v)
unfolding store_slot
store_slot-write s (list_head i) xs v h = ground arith
store_slot-write s (next_of p) xs v h = ground arith

-- The store after `m_hash_remove` has unlinked `x`.
abbrev removed : Hash → Slot → ℕ → Hash
removed s slot x = record (write_slot s slot (s.next x)) {
  size = u32 ((write_slot s slot (s.next x)).size + 2 ^ 32 - 1);
}

removed-SChain :
    (s : Hash) (slot : Slot) (x : ℕ) (xs : List ℕ)
    → IsSlot s (x ∷ xs) slot
    → SChain s.next (slot_value s slot) (x ∷ xs)
    → SChain (removed s slot x).next (slot_value (removed s slot x) slot) xs
removed-SChain s (list_head i) x xs ok c =
    SChain-frame s.next s.next (s.next x) _ xs (ground arith) (λ a e. refl) c.3
removed-SChain s (next_of p) x xs ok c =
    SChain-frame s.next _ (s.next x) _ xs (ground arith) (λ a e. ground arith) c.3

removed-Unlinked :
    (s : Hash) (slot : Slot) (x : ℕ) (xs : List ℕ) → x ≢ 0 → Unlinked s slot xs x (removed s slot x)
removed-Unlinked s (list_head i) x xs nz = record {
  allocated = refl;
  nlist = refl;
  size = ground arith;
  lists = λ j e. ground arith;
  next = λ a e f. refl;
}
removed-Unlinked s (next_of p) x xs nz = record {
  allocated = refl;
  nlist = refl;
  size = ground arith;
  lists = λ j e. refl;
  next = λ a e f. ground arith;
}

-- What is unlinked further down leaves the slot in front as it was.
Unlinked-value :
    (s t : Hash) (slot : Slot) (x n : ℕ) (xs : List ℕ)
    → IsSlot s (x ∷ xs) slot
    → Unlinked s (next_of x) xs n t
    → slot_value t slot ≡ slot_value s slot
Unlinked-value s t (list_head i) x n xs ok u = u.lists i refl
Unlinked-value s t (next_of p) x n xs ok u = u.next p (ground arith) (ground arith)

Unlinked-widen :
    (s t : Hash) (slot : Slot) (x n : ℕ) (xs : List ℕ)
    → Unlinked s (next_of x) xs n t
    → Unlinked s slot (x ∷ xs) n t
Unlinked-widen s t slot x n xs u = record {
  allocated = u.allocated;
  nlist = u.nlist;
  size = u.size;
  lists = λ j e. u.lists j refl;
  next = λ a e f. u.next a (ground arith) (ground arith);
}

module _ (ops : HashOps) (key : ℕ) where
  -- The loop unlinks the first node with an equal key, if there is one.
  pub remove_loop-Unlinked :
      (s : Hash) (slot : Slot) (xs : List ℕ) (fuel : ℕ)
      → SChain s.next (slot_value s slot) xs
      → IsSlot s xs slot
      → length xs < fuel
      → Returns (hash_remove_loop ops fuel key slot s) (λ n t.
        (n ≡ first_match ops key xs)
        × SChain t.next (slot_value t slot) (erase_match ops key xs)
        × Unlinked s slot xs n t)
  unfolding hash_remove_loop first_match erase_match
  remove_loop-Unlinked s slot xs zero c ok h = absurd (omega arith)
  remove_loop-Unlinked s slot [] (suc fuel) c ok h = (
    0,
    s,
    ground (arith, load_slot-value s slot [] ok),
    (
      refl,
      c,
      record {
        allocated = refl;
        nlist = refl;
        size = refl;
        lists = λ j e. refl;
        next = λ a e f. refl;
      },
    ),
  )
  remove_loop-Unlinked s slot (x ∷ xs) (suc fuel) c ok h =
      elim (Bool-cases (ops.equal key (ops.get_key x))) [
        | inl hit ↦ (
          x,
          removed s slot x,
          ground (
            arith,
            load_slot-value s slot (x ∷ xs) ok,
            store_slot-write s slot (x ∷ xs) (s.next x) ok,
          ),
          rw hit (refl, removed-SChain s slot x xs ok c, removed-Unlinked s slot x (x ∷ xs) c.1),
        )
        | inr miss ↦
            let (n, t, run, (found, rest, u)) =
              remove_loop-Unlinked s (next_of x) xs fuel c.3 (c.1, c.2) (omega arith) in
            (
              n,
              t,
              ground (arith, load_slot-value s slot (x ∷ xs) ok),
              rw miss (
                found,
                (
                  Unlinked-value s t slot x n xs ok u ∙ c.0,
                  c.1,
                  ground (arith, elem-erase_match ops key x xs),
                  rest,
                ),
                Unlinked-widen s t slot x n xs u,
              ),
            )
      ]
