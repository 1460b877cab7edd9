-- ===== src/Hash/Rehash.antt =====
-- The loops of `m_hash_resize`: every node is moved to the front of its list in the new buffer.
use ming.Hash.Table.{total-update, total}
use ming.SList.Chain.{SChain-frame, SChain}
use ming.Hash.{Hash, HashOps}
use ming.Hash.Storage.{hash_foreach_safe, chain_foreach_safe, rehash_body}
use ming.Base.{
  ap, ◌≤◌, inr, inl, Bool-cases, refl, ◌==◌, Returns, length, ◌&&◌, arith, some, ◌||◌, [], false,
  true, ◌+◌, update, ◌≡◌, ◌∷◌, elem, ◌≢◌, Bool, ◌<◌, ◌%◌, List, ℕ, zero, suc,
}

-- `t` differs from `s` at most in the links of the nodes that `moved` accepts.
pub record Relinks (s t : Hash) (moved : ℕ → Bool) : Type 0 where
  pub only_next : t ≡ record s { next = t.next }
  pub next : (a : ℕ) → moved a ≡ false → t.next a ≡ s.next a

-- The old lists from `pos` on are chains of `s`, and no two share a node.
pub record Pending (s : Hash) (bs : ℕ → List ℕ) (fuel pos : ℕ) : Type 0 where
  pub allocated : pos < s.nlist → s.allocated ≡ true
  pub chains : (j : ℕ) → pos ≤ j → j < s.nlist → SChain s.next (s.lists j) (bs j)
  pub apart : (i j a : ℕ) → elem a (bs i) ≡ true → elem a (bs j) ≡ true → i ≡ j
  pub short : (j : ℕ) → j < s.nlist → length (bs j) < fuel

Pending-next :
    (s t : Hash) (bs : ℕ → List ℕ) (fuel pos : ℕ)
    → Pending s bs fuel pos
    → Relinks s t (λ a. elem a (bs pos))
    → Pending t bs fuel (pos + 1)
Pending-next s t bs fuel pos p re =
    let e = re.only_next in
    record {
      allocated = λ h. ground (arith, p.allocated, e);
      chains = λ j lo hi.
          SChain-frame s.next t.next (s.lists j) (t.lists j) (bs j) (ap (λ (u : Hash). u.lists j) e)
            (λ a m. re.next a (elim (Bool-cases (elem a (bs pos))) [
              | inl there ↦ let same = p.apart j pos a m there in absurd (omega arith)
              | inr away ↦ away
            ]))
            (p.chains j (omega arith) (ground (arith, e)));
      apart = p.apart;
      short = λ j h. p.short j (ground (arith, e));
    }

module _ (ops : HashOps) (nsize : ℕ) where
  abbrev pub new_home : ℕ → ℕ
  new_home a = ops.kv (ops.get_key a) % nsize

  -- The lists `ds` of the new buffer after the nodes `xs` have been moved there.
  unfoldable pub move : List ℕ → (ℕ → List ℕ) → ℕ → List ℕ
  move [] ds = ds
  move (x ∷ xs) ds = move xs (update ds (new_home x) (x ∷ ds (new_home x)))

  pub elem-move :
      (a i : ℕ) (xs : List ℕ) (ds : ℕ → List ℕ)
      → elem a (move xs ds i) ≡ (elem a (ds i) || (elem a xs && (new_home a == i)))
  unfolding move
  elem-move a i [] ds = ground arith
  elem-move a i (x ∷ xs) ds =
      ground (arith, elem-move a i xs (update ds (new_home x) (x ∷ ds (new_home x))))

  pub total-move :
      (xs : List ℕ) (ds : ℕ → List ℕ)
      → 0 < nsize
      → total nsize (move xs ds) ≡ total nsize ds + length xs
  unfolding move
  total-move [] ds h = omega arith
  total-move (x ∷ xs) ds h =
      let i = new_home x in
      let lt : i < nsize = grind arith in
      omega (arith, total-move xs (update ds i (x ∷ ds i)) h, total-update nsize ds i (x ∷ ds i) lt)

  rehash_step :
      (s : Hash) (x : ℕ) (nbuf : ℕ → ℕ)
      → x ≢ 0
      → rehash_body ops nsize x nbuf s
        ≡ some (update nbuf (new_home x) x, record s { next = update s.next x (nbuf (new_home x)) })
  unfolding rehash_body
  rehash_step s x nbuf h = ground arith

  new_lists :
      (s : Hash) (x : ℕ) (nbuf : ℕ → ℕ) (ds : ℕ → List ℕ)
      → x ≢ 0
      → ((j : ℕ) → elem x (ds j) ≡ false)
      → ((j : ℕ) → j < nsize → SChain s.next (nbuf j) (ds j))
      → (j : ℕ) → j < nsize
      → SChain
          (update s.next x (nbuf (new_home x)))
          (update nbuf (new_home x) x j)
          (update ds (new_home x) (x ∷ ds (new_home x)) j)
  new_lists s x nbuf ds z out new j lt = elim (Bool-cases (j == new_home x)) [
    | inl e ↦
        let same : new_home x ≡ j = ground arith in
        rw e (
          refl,
          z,
          out (new_home x),
          SChain-frame s.next _ (nbuf (new_home x)) _ (ds (new_home x)) (ground arith)
              (λ a m. ground (arith, out (new_home x))) (new (new_home x) (rw same lt)),
        )
    | inr ne ↦ rw ne (
        SChain-frame s.next _ (nbuf j) (nbuf j) (ds j) refl (λ a m. ground (arith, out j))
          (new j lt))
  ]

  not_there :
      (x : ℕ) (xs ds : List ℕ) → (elem x ds ≡ true → elem x (x ∷ xs) ≡ false) → elem x ds ≡ false
  not_there x xs ds h = elim (Bool-cases (elem x ds)) [
    | inl e ↦ absurd (ground (arith, h e))
    | inr e ↦ e
  ]

  pub rehash_chain :
      (s : Hash) (p : ℕ) (xs : List ℕ) (nbuf : ℕ → ℕ) (ds : ℕ → List ℕ) (fuel : ℕ)
      → SChain s.next p xs
      → ((i a : ℕ) → elem a (ds i) ≡ true → elem a xs ≡ false)
      → ((i : ℕ) → i < nsize → SChain s.next (nbuf i) (ds i))
      → length xs < fuel
      → Returns (chain_foreach_safe (rehash_body ops nsize) fuel p nbuf s) (λ nbuf' t.
        Relinks s t (λ a. elem a xs)
        × ((i : ℕ) → i < nsize → SChain t.next (nbuf' i) (move xs ds i)))
  unfolding chain_foreach_safe move
  rehash_chain s p xs nbuf ds zero c apart new h = absurd (omega arith)
  rehash_chain s p [] nbuf ds (suc fuel) c apart new h =
      (nbuf, s, ground arith, (record { only_next = refl; next = λ a e. refl }, new))
  rehash_chain s p (x ∷ xs) nbuf ds (suc fuel) c apart new h =
      let i = new_home x in
      let f = update s.next x (nbuf i) in
      let s' = record s { next = f } in
      let ds' = update ds i (x ∷ ds i) in
      let rest = SChain-frame s.next f (s.next x) (s.next x) xs refl (λ a e. ground arith) c.3 in
      let (nbuf', t, run, (re, chains)) =
        rehash_chain s' (s.next x) xs (update nbuf i x) ds' fuel rest
          (λ j a e. ground (arith, apart i a, apart j a))
          (new_lists s x nbuf ds c.1 (λ j. not_there x xs (ds j) (apart j x)) new) (omega arith) in
      (
        nbuf',
        t,
        ground (arith, rehash_step s x nbuf c.1, run),
        (record { only_next = re.only_next; next = λ a e. ground (arith, re.next a) }, chains),
      )

  -- The lists after the loop over the old lists from `pos` on.
  unfoldable pub moves : ℕ → ℕ → (ℕ → List ℕ) → (ℕ → List ℕ) → ℕ → List ℕ
  moves zero pos bs ds = ds
  moves (suc r) pos bs ds = moves r (pos + 1) bs (move (bs pos) ds)

  moved_apart :
      (pos i j a : ℕ) (bs ds : ℕ → List ℕ)
      → ((i j a : ℕ) → elem a (bs i) ≡ true → elem a (bs j) ≡ true → i ≡ j)
      → ((i j a : ℕ) → elem a (ds i) ≡ true → pos ≤ j → elem a (bs j) ≡ false)
      → elem a (move (bs pos) ds i) ≡ true
      → pos + 1 ≤ j
      → elem a (bs j) ≡ false
  moved_apart pos i j a bs ds once apart m lo =
      ground (arith, elem-move a i (bs pos) ds, once pos j a, apart i j a)

  pub rehash_lists :
      (r pos : ℕ) (s : Hash) (bs ds : ℕ → List ℕ) (nbuf : ℕ → ℕ) (fuel : ℕ)
      → pos + r ≡ s.nlist
      → Pending s bs fuel pos
      → ((i j a : ℕ) → elem a (ds i) ≡ true → pos ≤ j → elem a (bs j) ≡ false)
      → ((i : ℕ) → i < nsize → SChain s.next (nbuf i) (ds i))
      → Returns (hash_foreach_safe (rehash_body ops nsize) fuel r pos nbuf s) (λ nbuf' t.
        (t ≡ record s { next = t.next })
        × ((i : ℕ) → i < nsize → SChain t.next (nbuf' i) (moves r pos bs ds i)))
  unfolding hash_foreach_safe moves
  rehash_lists zero pos s bs ds nbuf fuel e p apart new = (nbuf, s, refl, (refl, new))
  rehash_lists (suc r) pos s bs ds nbuf fuel e p apart new =
      let here : pos < s.nlist = omega arith in
      let (nbuf1, t, run, (re, new1)) =
        rehash_chain s (s.lists pos) (bs pos) nbuf ds fuel (p.chains pos (omega arith) here)
          (λ i a m. apart i pos a m (omega arith)) new (p.short pos here) in
      let (nbuf2, u, run2, (only, new2)) =
        rehash_lists r (pos + 1) t bs (move (bs pos) ds) nbuf1 fuel
          (omega (arith, ap (λ (v : Hash). v.nlist) re.only_next))
          (Pending-next s t bs fuel pos p re)
          (λ i j a m lo. moved_apart pos i j a bs ds p.apart apart m lo) new1 in
      (nbuf2, u, ground (arith, p.allocated, run, run2), (ground (arith, only, re.only_next), new2))
