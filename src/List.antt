-- ===== src/List.antt =====
-- include/m_list.h, first part: doubly linked lists, as rings through a head node.
pub mod Ring
pub mod Insert
pub mod Remove
pub mod Traverse
use ming.Base.{
  ℕ, zero, suc, ◌≡◌, Bool, true, false, ◌&&◌, Option, none, some, List, [], ◌∷◌, ◌==◌, ◌!=◌, List,
  [], ◌∷◌, if◌then◌else◌, update, Run, pure, fault, ◌>>=◌, ◌>>◌, assert,
}

-- The `prev` and `next` fields of every `M_List` node, by the node's address. Address 0 is `NULL`.
pub record Links : Type 0 where
  pub prev : ℕ → ℕ
  pub next : ℕ → ℕ

unfoldable pub get_prev : ℕ → Run Links ℕ
get_prev p s = if p == 0 then none else some (s.prev p, s)

unfoldable pub get_next : ℕ → Run Links ℕ
get_next p s = if p == 0 then none else some (s.next p, s)

unfoldable pub set_prev : ℕ → ℕ → Run Links (Unit {0})
set_prev p q s = if p == 0 then none else some (tt, record s { prev = update s.prev p q })

unfoldable pub set_next : ℕ → ℕ → Run Links (Unit {0})
set_next p q s = if p == 0 then none else some (tt, record s { next = update s.next p q })

unfoldable pub list_empty : ℕ → Run Links Bool
unfolding get_next
list_empty head = do n ← get_next head; pure (n == head)

unfoldable pub list_init : ℕ → Run Links (Unit {0})
unfolding set_prev set_next
list_init head = do assert (head != 0); set_prev head head; set_next head head

unfoldable pub list_append : ℕ → ℕ → Run Links (Unit {0})
unfolding get_prev set_prev set_next
list_append head node = do
  assert (head != 0 && node != 0)
  last ← get_prev head
  set_prev node last
  set_next node head
  last' ← get_prev head
  set_next last' node
  set_prev head node

unfoldable pub list_prepend : ℕ → ℕ → Run Links (Unit {0})
unfolding get_next set_prev set_next
list_prepend head node = do
  assert (head != 0 && node != 0)
  set_prev node head
  first ← get_next head
  set_next node first
  first' ← get_next head
  set_prev first' node
  set_next head node

unfoldable pub list_remove : ℕ → Run Links (Unit {0})
unfolding get_prev get_next set_prev set_next
list_remove node = do
  p ← get_prev node
  n ← get_next node
  set_next p n
  n' ← get_next node
  p' ← get_prev node
  set_prev n' p'

-- The loops return the nodes that they visit, in order. `fuel` bounds the rounds.
-- `m_list_foreach`: the next node is read after the body has run.
unfoldable pub list_foreach_loop : (ℕ → Run Links (Unit {0})) → ℕ → ℕ → ℕ → Run Links (List ℕ)
unfolding get_next
list_foreach_loop body zero head node = fault
list_foreach_loop body (suc fuel) head node = elim (node == head) [
  | true ↦ pure []
  | false ↦ do
    body node
    n ← get_next node
    rest ← list_foreach_loop body fuel head n
    pure (node ∷ rest)
]

unfoldable pub list_foreach : (ℕ → Run Links (Unit {0})) → ℕ → ℕ → Run Links (List ℕ)
unfolding list_foreach_loop
list_foreach body fuel head = do n ← get_next head; list_foreach_loop body fuel head n

-- `m_list_foreach_r`
unfoldable pub list_foreach_r_loop : (ℕ → Run Links (Unit {0})) → ℕ → ℕ → ℕ → Run Links (List ℕ)
unfolding get_prev
list_foreach_r_loop body zero head node = fault
list_foreach_r_loop body (suc fuel) head node = elim (node == head) [
  | true ↦ pure []
  | false ↦ do
    body node
    n ← get_prev node
    rest ← list_foreach_r_loop body fuel head n
    pure (node ∷ rest)
]

unfoldable pub list_foreach_r : (ℕ → Run Links (Unit {0})) → ℕ → ℕ → Run Links (List ℕ)
unfolding list_foreach_r_loop
list_foreach_r body fuel head = do n ← get_prev head; list_foreach_r_loop body fuel head n

-- `m_list_foreach_safe`: the next node is read before the test and the body.
unfoldable pub list_foreach_safe_loop : (ℕ → Run Links (Unit {0})) → ℕ → ℕ → ℕ → Run Links (List ℕ)
unfolding get_next
list_foreach_safe_loop body zero head node = fault
list_foreach_safe_loop body (suc fuel) head node = do
  nnext ← get_next node
  elim (node == head) [
    | true ↦ pure []
    | false ↦ do body node; rest ← list_foreach_safe_loop body fuel head nnext; pure (node ∷ rest)
  ]

unfoldable pub list_foreach_safe : (ℕ → Run Links (Unit {0})) → ℕ → ℕ → Run Links (List ℕ)
unfolding list_foreach_safe_loop
list_foreach_safe body fuel head = do n ← get_next head; list_foreach_safe_loop body fuel head n

-- `m_list_foreach_safe_r`: the previous node is read before the body runs.
unfoldable pub list_foreach_safe_r_loop :
    (ℕ → Run Links (Unit {0})) → ℕ → ℕ → ℕ → Run Links (List ℕ)
unfolding get_prev
list_foreach_safe_r_loop body zero head node = fault
list_foreach_safe_r_loop body (suc fuel) head node = do
  nprev ← get_prev node
  elim (node == head) [
    | true ↦ pure []
    | false ↦ do body node; rest ← list_foreach_safe_r_loop body fuel head nprev; pure (node ∷ rest)
  ]

unfoldable pub list_foreach_safe_r : (ℕ → Run Links (Unit {0})) → ℕ → ℕ → Run Links (List ℕ)
unfolding get_prev list_foreach_safe_r_loop
list_foreach_safe_r body fuel head = do
  node ← get_prev head
  list_foreach_safe_r_loop body fuel head node
