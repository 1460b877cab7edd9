-- ===== src/SList.antt =====
-- include/m_list.h, second part: single linked lists behind a head node.
pub mod Chain
pub mod Ends
use ming.Base.{
  ℕ, zero, suc, Bool, List, [], ◌∷◌, ◌==◌, ◌!=◌, ◌&&◌, if◌then◌else◌, update, Run, pure, fault,
  ◌>>=◌, ◌>>◌, assert, none, some, true, false,
}

-- The `next` field of every `M_SList` node, by the node's address. Address 0 is `NULL`.
pub record SLinks : Type 0 where
  pub next : ℕ → ℕ

unfoldable pub get_snext : ℕ → Run SLinks ℕ
get_snext p s = if p == 0 then none else some (s.next p, s)

unfoldable pub set_snext : ℕ → ℕ → Run SLinks (Unit {0})
set_snext p q s = if p == 0 then none else some (tt, record { next = update s.next p q })

unfoldable pub slist_init : ℕ → Run SLinks (Unit {0})
unfolding set_snext
slist_init head = do assert (head != 0); set_snext head 0

unfoldable pub slist_empty : ℕ → Run SLinks Bool
unfolding get_snext
slist_empty head = do n ← get_snext head; pure (n == 0)

unfoldable pub slist_push : ℕ → ℕ → Run SLinks (Unit {0})
unfolding get_snext set_snext
slist_push head node = do
  assert (head != 0 && node != 0)
  n ← get_snext head
  set_snext node n
  set_snext head node

unfoldable pub slist_pop : ℕ → Run SLinks ℕ
unfolding get_snext set_snext
slist_pop head = do
  assert (head != 0)
  node ← get_snext head
  if node != 0 then (do n ← get_snext node; set_snext head n; pure node) else pure node

-- `m_slist_foreach`, returning the nodes that it visits; `fuel` bounds the rounds.
unfoldable pub slist_foreach_loop : (ℕ → Run SLinks (Unit {0})) → ℕ → ℕ → Run SLinks (List ℕ)
unfolding get_snext
slist_foreach_loop body zero node = fault
slist_foreach_loop body (suc fuel) node = elim (node == 0) [
  | true ↦ pure []
  | false ↦ do
    body node
    n ← get_snext node
    rest ← slist_foreach_loop body fuel n
    pure (node ∷ rest)
]

unfoldable pub slist_foreach : (ℕ → Run SLinks (Unit {0})) → ℕ → ℕ → Run SLinks (List ℕ)
unfolding slist_foreach_loop
slist_foreach body fuel head = do n ← get_snext head; slist_foreach_loop body fuel n

-- `m_slist_foreach_safe`: the next node is read before the body runs.
unfoldable pub slist_foreach_safe_loop : (ℕ → Run SLinks (Unit {0})) → ℕ → ℕ → Run SLinks (List ℕ)
unfolding get_snext
slist_foreach_safe_loop body zero node = fault
slist_foreach_safe_loop body (suc fuel) node = elim (node == 0) [
  | true ↦ pure []
  | false ↦ do
    nnext ← get_snext node
    body node
    rest ← slist_foreach_safe_loop body fuel nnext
    pure (node ∷ rest)
]

unfoldable pub slist_foreach_safe : (ℕ → Run SLinks (Unit {0})) → ℕ → ℕ → Run SLinks (List ℕ)
unfolding slist_foreach_safe_loop
slist_foreach_safe body fuel head = do n ← get_snext head; slist_foreach_safe_loop body fuel n
