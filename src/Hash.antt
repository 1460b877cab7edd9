-- ===== src/Hash.antt =====
-- include/m_hash.h: a chained hash table over intrusive nodes.
pub mod Storage
pub mod Table
pub mod Bucket
pub mod Lookup
pub mod Insert
pub mod Remove
pub mod Rehash
pub mod Grown
pub mod Resize
pub mod Release
use Prim.Native.Nat.{max}
use ming.Base.{
  zero, ◌!=◌, assert, leb, ◌>>=◌, ◌>>◌, [], ◌-◌, ◌∷◌, true, suc, false, update, ◌++◌, none, ◌+◌,
  List, some, fault, Option, ltb, ◌==◌, ◌^◌, ◌&&◌, ◌*◌, pure, ◌%◌, Run, Bool, if◌then◌else◌, ℕ,
}

-- What the callbacks of a table have been asked to release, in order.
pub data Call : Type 0 where
  free_node : (node : ℕ) → Call
  free_buf : (bytes : ℕ) → Call

-- An `M_Hash` (`lists` is `NULL` while `allocated` is false), the `next` field of every
-- `M_HashNode` by address, and the releases made so far. Address 0 is `NULL`.
pub record Hash : Type 0 where
  pub allocated : Bool
  pub lists : ℕ → ℕ
  pub size : ℕ  -- uint32_t
  pub nlist : ℕ  -- uint32_t
  pub next : ℕ → ℕ
  pub calls : List Call

-- `M_HashOps`. A key is a `void*`. `alloc_buf` gives the contents of the fresh buffer, or `none`
-- for `NULL`; `has_free_node` says whether `free_node` is set.
pub record HashOps : Type 0 where
  pub get_key : ℕ → ℕ
  pub kv : ℕ → ℕ
  pub equal : ℕ → ℕ → Bool
  pub has_free_node : Bool
  pub alloc_buf : ℕ → Option (ℕ → ℕ)

-- What an `M_HashNode**` points at: an entry of `lists`, or the `next` field of a node.
pub data Slot : Type 0 where
  list_head : (pos : ℕ) → Slot
  next_of : (node : ℕ) → Slot

abbrev pub u32 : ℕ → ℕ
u32 n = n % 2 ^ 32

abbrev pub pointer_size : ℕ
pointer_size = 8

-- M_OK and M_ERR_NO_MEM of include/m_types.h, as far as this file returns them.
pub data Result : Type 0 where
  ok err_no_mem : Result

unfoldable pub get_next : ℕ → Run Hash ℕ
get_next p s = if p == 0 then none else some (s.next p, s)

unfoldable pub set_next : ℕ → ℕ → Run Hash (Unit {0})
set_next p q s = if p == 0 then none else some (tt, record s { next = update s.next p q })

-- `lists[pos]`: a fault outside the buffer.
unfoldable pub get_list : ℕ → Run Hash ℕ
get_list pos s = if s.allocated && ltb pos s.nlist then some (s.lists pos, s) else none

unfoldable pub set_list : ℕ → ℕ → Run Hash (Unit {0})
set_list pos p s =
    if s.allocated && ltb pos s.nlist
    then some (tt, record s { lists = update s.lists pos p })
    else none

unfoldable pub load_slot : Slot → Run Hash ℕ
unfolding get_list get_next
load_slot (list_head pos) = get_list pos
load_slot (next_of p) = get_next p

unfoldable pub store_slot : Slot → ℕ → Run Hash (Unit {0})
unfolding set_list set_next
store_slot (list_head pos) v = set_list pos v
store_slot (next_of p) v = set_next p v

abbrev pub get_size : Run Hash ℕ
get_size s = some (s.size, s)

-- `kv % hash->nlist`: a fault if there is no list.
unfoldable pub position : ℕ → Run Hash ℕ
position kv s = if s.nlist == 0 then none else some (kv % s.nlist, s)

unfoldable pub hash_size : Run Hash ℕ
hash_size = get_size

unfoldable pub hash_init : Run Hash (Unit {0})
hash_init s = some (tt, record s { allocated = false; size = 0; nlist = 0 })

module _ (ops : HashOps) where
  unfoldable pub hash_lookup_loop : ℕ → ℕ → ℕ → Run Hash ℕ
  unfolding get_next
  hash_lookup_loop zero key node = fault
  hash_lookup_loop (suc fuel) key node = elim (node == 0) [
    | true ↦ pure 0
    | false ↦ elim (ops.equal key (ops.get_key node)) [
      | true ↦ pure node
      | false ↦ do n ← get_next node; hash_lookup_loop fuel key n
    ]
  ]

  -- Returns the node, or 0, and the `kv` stored through `pkv`.
  unfoldable pub hash_lookup_with_kv : ℕ → ℕ → Run Hash (ℕ × ℕ)
  unfolding hash_lookup_loop position get_list
  hash_lookup_with_kv fuel key = do
    let kv = ops.kv key
    size ← get_size
    if size == 0 then pure (0, kv) else do
      pos ← position kv
      node ← get_list pos
      found ← hash_lookup_loop fuel key node
      pure (found, kv)

  unfoldable pub hash_lookup : ℕ → ℕ → Run Hash ℕ
  unfolding hash_lookup_with_kv
  hash_lookup fuel key = do (node, _) ← hash_lookup_with_kv fuel key; pure node

  unfoldable pub hash_lookup_prev_loop : ℕ → ℕ → Slot → Run Hash (ℕ × Slot)
  unfolding load_slot
  hash_lookup_prev_loop zero key prev = fault
  hash_lookup_prev_loop (suc fuel) key prev = do
    node ← load_slot prev
    elim (node == 0) [
      | true ↦ pure (0, prev)
      | false ↦ elim (ops.equal key (ops.get_key node)) [
        | true ↦ pure (node, prev)
        | false ↦ hash_lookup_prev_loop fuel key (next_of node)
      ]
    ]

  -- Returns the node, or 0, and, if there is a node, the slot stored through `pprev`.
  unfoldable pub hash_lookup_with_prev : ℕ → ℕ → Run Hash (ℕ × Slot)
  unfolding hash_lookup_prev_loop position
  hash_lookup_with_prev fuel key = do
    let kv = ops.kv key
    size ← get_size
    if size == 0
        then pure (0, list_head 0)
        else do pos ← position kv; hash_lookup_prev_loop fuel key (list_head pos)

-- `hash->size --`
unfoldable pub size_dec : Run Hash (Unit {0})
size_dec s = some (tt, record s { size = u32 (s.size + 2 ^ 32 - 1) })

unfoldable pub size_inc : Run Hash (Unit {0})
size_inc s = some (tt, record s { size = u32 (s.size + 1) })

unfoldable pub hash_remove_from_prev : Slot → Run Hash ℕ
unfolding get_next size_dec
hash_remove_from_prev pnode = do
  node ← load_slot pnode
  assert (node != 0)
  n ← get_next node
  store_slot pnode n
  size_dec
  pure node

module _ (ops : HashOps) where
  unfoldable pub hash_remove_loop : ℕ → ℕ → Slot → Run Hash ℕ
  unfolding get_next size_dec
  hash_remove_loop zero key pnode = fault
  hash_remove_loop (suc fuel) key pnode = do
    node ← load_slot pnode
    elim (node == 0) [
      | true ↦ pure 0
      | false ↦ elim (ops.equal key (ops.get_key node)) [
        | true ↦ do n ← get_next node; store_slot pnode n; size_dec; pure node
        | false ↦ hash_remove_loop fuel key (next_of node)
      ]
    ]

  unfoldable pub hash_remove : ℕ → ℕ → Run Hash ℕ
  unfolding hash_remove_loop position
  hash_remove fuel key = do
    size ← get_size
    if size == 0
        then pure 0
        else do pos ← position (ops.kv key); hash_remove_loop fuel key (list_head pos)

unfoldable pub hash_insert_with_kv : ℕ → ℕ → Run Hash (Unit {0})
unfolding position get_list set_next set_list size_inc
hash_insert_with_kv node kv = do
  assert (node != 0)
  pos ← position kv
  p ← get_list pos
  set_next node p
  set_list pos node
  size_inc

unfoldable pub hash_insert : HashOps → ℕ → Run Hash (Unit {0})
unfolding hash_insert_with_kv
hash_insert ops node = hash_insert_with_kv node (ops.kv (ops.get_key node))

unfoldable pub log : Call → Run Hash (Unit {0})
log c s = some (tt, record s { calls = s.calls ++ c ∷ [] })

abbrev pub get_nlist : Run Hash ℕ
get_nlist s = some (s.nlist, s)

abbrev pub get_allocated : Run Hash Bool
get_allocated s = some (s.allocated, s)

-- A pointer-sized key cut to 32 bits.
unfoldable pub ptr_hash_kv_func : ℕ → ℕ
ptr_hash_kv_func key = u32 key

unfoldable pub ptr_hash_equal_func : ℕ → ℕ → Bool
ptr_hash_equal_func key1 key2 = key1 == key2

unfoldable pub int_hash_kv_func : ℕ → ℕ
int_hash_kv_func key = u32 key

unfoldable pub int_hash_equal_func : ℕ → ℕ → Bool
int_hash_equal_func key1 key2 = key1 == key2
