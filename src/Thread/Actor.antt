-- ===== src/Thread/Actor.antt =====
-- src/m_thread.c: the threads that run actors, from `m_thread_create` to `m_thread_shutdown`.
use mathlib.Core.List.{append_assoc, append-nil}
use ming.Base.{
  ◌||◌, inr, inl, bind_result, ap, Bool-cases, refl, ◌∙◌, [], modify, arith, ◌>>◌, sym, ◌==◌, some,
  false, ◌+◌, ◌∷◌, Returns, true, ◌++◌, pure, if◌then◌else◌, ◌≡◌, ℕ, Bool, Run, List,
}

-- `actor_thread_list`, an `M_SList`, is the list of the addresses of its nodes; the joined threads
-- and the freed nodes are kept in order. A node is known by its address, and so is its thread.
pub record Actors : Type 0 where
  pub actor_thread_list : List ℕ
  pub thread_exit_flag : Bool
  pub joined : List ℕ
  pub freed : List ℕ

-- `node` is what `m_gc_alloc_buf` gives, 0 for `NULL`, `failed` whether `pthread_create` fails.
unfoldable pub m_thread_create : ℕ → Bool → Run Actors (Unit {0})
m_thread_create node failed s =
    if s.thread_exit_flag
    then some (tt, s)
    else if node == 0
    then some (tt, s)
    else if failed
    then some (tt, record s { freed = s.freed ++ node ∷ [] })
    else some (tt, record s { actor_thread_list = node ∷ s.actor_thread_list })

-- One test of the loop of `thread_entry`: whether the thread ends.
unfoldable pub thread_entry : Actors → Bool
thread_entry s = s.thread_exit_flag

-- The loop of `m_thread_shutdown`.
unfoldable pub join_all : List ℕ → Run Actors (Unit {0})
join_all [] = pure tt
join_all (n ∷ ns) = do
  modify (λ s. record s { joined = s.joined ++ n ∷ []; freed = s.freed ++ n ∷ [] })
  join_all ns

-- The data of the calling thread is freed by `thread_key_destructor`, see Thread.
unfoldable pub m_thread_shutdown : Run Actors (Unit {0})
unfolding join_all
m_thread_shutdown s = join_all s.actor_thread_list (record s { thread_exit_flag = true })

unfoldable pub create_all : List (ℕ × Bool) → Run Actors (Unit {0})
unfolding m_thread_create
create_all [] = pure tt
create_all ((n, f) ∷ cs) = do m_thread_create n f; create_all cs

-- The nodes of the calls, of which those that are not 0 exist.
abbrev pub nodes : List (ℕ × Bool) → List ℕ
nodes [] = []
nodes ((n, f) ∷ cs) = if n == 0 then nodes cs else n ∷ nodes cs

-- The nodes of the calls that start a thread.
abbrev pub started_nodes : List (ℕ × Bool) → List ℕ
started_nodes [] = []
started_nodes ((n, f) ∷ cs) = if n == 0 || f then started_nodes cs else n ∷ started_nodes cs

abbrev pub times : ℕ → List ℕ → ℕ
times a [] = 0
times a (x ∷ xs) = (if a == x then 1 else 0) + times a xs

times-append : (a : ℕ) (xs ys : List ℕ) → times a (xs ++ ys) ≡ times a xs + times a ys
times-append a [] ys = omega arith
times-append a (x ∷ xs) ys = omega (arith, times-append a xs ys)

join_all-frees :
    (ns : List ℕ) (s : Actors)
    → Returns (join_all ns s) (λ _ s'.
      (s'.joined ≡ s.joined ++ ns)
      × (s'.freed ≡ s.freed ++ ns)
      × (s'.thread_exit_flag ≡ s.thread_exit_flag))
unfolding join_all
join_all-frees [] s = (tt, s, refl, (sym (append-nil s.joined), sym (append-nil s.freed), refl))
join_all-frees (n ∷ ns) s =
    let (_, s', e, (j, f, x)) =
      join_all-frees ns (record s { joined = s.joined ++ n ∷ []; freed = s.freed ++ n ∷ [] }) in
    (tt, s', e, (j ∙ append_assoc s.joined (n ∷ []) ns, f ∙ append_assoc s.freed (n ∷ []) ns, x))

-- The state after `m_thread_create` while the exit flag is not set.
created : ℕ → Bool → Actors → Actors
created n true s = if n == 0 then s else record s { freed = s.freed ++ n ∷ [] }
created n false s = if n == 0 then s else record s { actor_thread_list = n ∷ s.actor_thread_list }

create-created :
    (n : ℕ) (f : Bool) (s : Actors)
    → s.thread_exit_flag ≡ false
    → m_thread_create n f s ≡ some (tt, created n f s)
unfolding m_thread_create created
create-created n true s e = elim (Bool-cases (n == 0)) [
  | inl z ↦ ground (arith, e, z)
  | inr z ↦ ground (arith, e, z)
]
create-created n false s e = elim (Bool-cases (n == 0)) [
  | inl z ↦ ground (arith, e, z)
  | inr z ↦ ground (arith, e, z)
]

created-kept :
    (n : ℕ) (f : Bool) (s : Actors)
    → ((created n f s).thread_exit_flag ≡ s.thread_exit_flag)
      × ((created n f s).joined ≡ s.joined)
      × ((a : ℕ)
          → times a (created n f s).freed + times a (created n f s).actor_thread_list
            ≡ times a s.freed
              + times a s.actor_thread_list
              + times a (if n == 0 then [] else n ∷ []))
      × ((a : ℕ)
          → times a (created n f s).actor_thread_list
            ≡ times a s.actor_thread_list + times a (if n == 0 || f then [] else n ∷ []))
unfolding created
created-kept n true s = elim (Bool-cases (n == 0)) [
  | inl z ↦ rw z (refl, refl, λ a. omega arith, λ a. omega arith)
  | inr z ↦ rw z (refl, refl, λ a. omega (arith, times-append a s.freed (n ∷ [])), λ a. omega arith)
]
created-kept n false s = elim (Bool-cases (n == 0)) [
  | inl z ↦ rw z (refl, refl, λ a. omega arith, λ a. omega arith)
  | inr z ↦ rw z (refl, refl, λ a. omega arith, λ a. omega arith)
]

nodes-cons :
    (a n : ℕ) (skip : Bool) (ns : List ℕ)
    → times a (if skip then ns else n ∷ ns) ≡ times a (if skip then [] else n ∷ []) + times a ns
nodes-cons a n skip ns = elim (Bool-cases skip) [
  | inl z ↦ rw z (omega arith)
  | inr z ↦ rw z (omega arith)
]

create_all-kept :
    (cs : List (ℕ × Bool)) (s : Actors)
    → s.thread_exit_flag ≡ false
    → Returns (create_all cs s) (λ _ s'.
      (s'.thread_exit_flag ≡ false)
      × (s'.joined ≡ s.joined)
      × ((a : ℕ)
          → times a s'.freed + times a s'.actor_thread_list
            ≡ times a s.freed + times a s.actor_thread_list + times a (nodes cs))
      × ((a : ℕ)
          → times a s'.actor_thread_list
            ≡ times a s.actor_thread_list + times a (started_nodes cs)))
unfolding create_all
create_all-kept [] s e = (tt, s, refl, (e, refl, λ a. omega arith, λ a. omega arith))
create_all-kept ((n, f) ∷ cs) s e =
    let (x, j, k, q) = created-kept n f s in
    let (_, s', r, (y, i, l, m)) = create_all-kept cs (created n f s) (x ∙ e) in
    (
      tt,
      s',
      ap (λ o. bind_result o (λ _. create_all cs)) (create-created n f s e) ∙ r,
      (
        y,
        i ∙ j,
        λ a. omega (arith, k a, l a, nodes-cons a n (n == 0) (nodes cs)),
        λ a. omega (arith, q a, m a, nodes-cons a n (n == 0 || f) (started_nodes cs)),
      ),
    )

abbrev pub no_actors : Actors
no_actors = record { actor_thread_list = []; thread_exit_flag = false; joined = []; freed = [] }

-- However many threads are created, and whichever allocations and creations fail: after
-- `m_thread_shutdown` every node that was allocated has been freed exactly as often as it was
-- allocated, a thread has been joined exactly as often as it was started, and a thread that tests the
-- flag ends.
pub create_all-shutdown :
    (cs : List (ℕ × Bool))
    → Returns (create_all cs no_actors) (λ _ s. Returns (m_thread_shutdown s) (λ _ s'.
      ((a : ℕ) → times a s'.freed ≡ times a (nodes cs))
      × ((a : ℕ) → times a s'.joined ≡ times a (started_nodes cs))
      × (thread_entry s' ≡ true)))
unfolding m_thread_shutdown thread_entry
create_all-shutdown cs =
    let (_, s, e, (x, j, k, q)) = create_all-kept cs no_actors refl in
    let (_, s', r, (i, f, y)) =
      join_all-frees s.actor_thread_list (record s { thread_exit_flag = true }) in
    (
      tt,
      s,
      e,
      (
        tt,
        s',
        r,
        (
          λ a. ap (times a) f ∙ times-append a s.freed s.actor_thread_list ∙ k a ∙ omega arith,
          λ a. ap (times a) (i ∙ ap (λ l. l ++ s.actor_thread_list) j) ∙ q a ∙ omega arith,
          y,
        ),
      ),
    )
