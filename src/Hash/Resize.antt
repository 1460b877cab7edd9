-- ===== src/Hash/Resize.antt =====
-- `m_hash_resize` on a table.
use Prim.Native.Nat.{max}
use mathlib.Core.List.{append-nil}
use ming.Hash.Rehash.{rehash_lists}
use ming.Hash.Grown.{grown-Holds, grown-IsTable, Table-Pending, grown}
use ming.Hash.Table.{Holds, IsTable}
use ming.Hash.{u32, err_no_mem, ok, free_buf, pointer_size, Call, Hash, HashOps}
use ming.Hash.Storage.{hash_resize, cleared, hash_grow}
use ming.Base.{
  ◌≤◌, Option-cases, inl, inr, Bool-cases, leb, none, ◌⊎◌, ◌^◌, refl, true, arith, ◌++◌, Returns,
  [], ◌∷◌, some, ◌*◌, ◌↔◌, ◌≡◌, if◌then◌else◌, ◌<◌, List, ℕ,
}

module _ (ops : HashOps) (s : Hash) (bs : ℕ → List ℕ) (fuel : ℕ) where
  -- The table `t` has the nodes and the size of `s`.
  pub record SameNodes (t : Hash) (cs : ℕ → List ℕ) : Type 0 where
    pub table : IsTable ops t cs
    pub size : t.size ≡ s.size
    pub members : (a : ℕ) → Holds cs a ↔ Holds bs a

  -- The releases of `m_hash_resize`: the old buffer, if there is one.
  abbrev pub old_buffer : List Call
  old_buffer = if s.allocated then free_buf (pointer_size * s.nlist) ∷ [] else []

  grow-SameNodes :
      (nsize : ℕ) (buf : ℕ → ℕ)
      → IsTable ops s bs
      → s.size < fuel
      → 0 < nsize
      → ops.alloc_buf (pointer_size * nsize) ≡ some buf
      → Returns (hash_grow ops fuel nsize s) (λ r t.
        (r ≡ ok)
        × SameNodes t (grown ops s bs fuel nsize)
        × (t.nlist ≡ nsize)
        × (t.calls ≡ s.calls ++ old_buffer))
  unfolding hash_grow
  grow-SameNodes nsize buf table f pos got =
      let (nbuf, t, run, (only, chains)) =
        rehash_lists ops nsize s.nlist 0 s bs (λ _. []) (cleared nsize buf) fuel (omega arith)
          (Table-Pending ops s bs fuel nsize table f) (λ i j a m lo. cc) (λ i lt. ground arith) in
      (
        ok,
        record s {
          allocated = true;
          lists = nbuf;
          nlist = nsize;
          next = t.next;
          calls = s.calls ++ old_buffer;
        },
        ground (arith, got, run, only, append-nil s.calls),
        (
          refl,
          record {
            table = grown-IsTable ops s bs fuel nsize _ nbuf table pos refl chains refl refl refl;
            size = refl;
            members = grown-Holds ops s bs fuel nsize table;
          },
          refl,
          refl,
        ),
      )

  grow_none :
      (nsize : ℕ)
      → ops.alloc_buf (pointer_size * nsize) ≡ none
      → hash_grow ops fuel nsize s ≡ some (err_no_mem, s)
  unfolding hash_grow
  grow_none nsize e = rw (e, hash_grow)

  -- `m_hash_resize` on a table with fewer than 2 ^ 32 / 3 lists ends without a fault. With fewer than
  -- three nodes per list it returns M_OK and changes nothing. Else it asks for a buffer of as many
  -- lists as there are nodes, and of 9 at least. If there is none it returns M_ERR_NO_MEM and
  -- changes nothing. If there is one it returns M_OK and leaves a table of the same nodes with that
  -- number of lists, so with fewer than three nodes per list on average; the old buffer is released
  -- once, if there was one, and nothing else is.
  pub hash_resize-IsTable :
      IsTable ops s bs
      → s.size < fuel
      → s.nlist * 3 < 2 ^ 32
      → Returns (hash_resize ops fuel s) (λ r t.
        (s.size < s.nlist * 3) × (r ≡ ok) × (t ≡ s)
        ⊎ (s.nlist * 3 ≤ s.size)
          × ((ops.alloc_buf (pointer_size * max s.size 9) ≡ none) × (r ≡ err_no_mem) × (t ≡ s)
              ⊎ ((buf : ℕ → ℕ) × (ops.alloc_buf (pointer_size * max s.size 9) ≡ some buf))
                × (r ≡ ok)
                × ((cs : ℕ → List ℕ) × SameNodes t cs)
                × (t.nlist ≡ max s.size 9)
                × (t.size < t.nlist * 3)
                × (t.calls ≡ s.calls ++ old_buffer)))
  unfolding hash_resize
  hash_resize-IsTable table f room = elim (Bool-cases (leb (u32 (s.nlist * 3)) s.size)) [
    | inr big ↦ (ok, s, ground arith, inl (ground arith, refl, refl))
    | inl full ↦
        let nsize = max s.size 9 in
        elim (Option-cases (ops.alloc_buf (pointer_size * nsize))) [
          | inl none_left ↦ (
            err_no_mem,
            s,
            ground (arith, grow_none nsize none_left),
            inr (ground arith, inl (none_left, refl, refl)),
          )
          | inr (buf, got) ↦
              let (r, t, run, (is_ok, same, width, calls)) =
                grow-SameNodes nsize buf table f (omega arith) got in
              (
                r,
                t,
                ground (arith, run),
                inr (
                  ground arith,
                  inr (
                    (buf, got),
                    is_ok,
                    (grown ops s bs fuel nsize, same),
                    width,
                    omega (arith, same.size, width),
                    calls,
                  ),
                ),
              )
        ]
  ]
