-- ===== src/Thread/Invariant.antt =====
-- What holds of the threads in every state that they reach.
use ming.Base.{
  ◌<◌, ◌||◌, update_at, inr, inl, Bool-cases, ◌∙◌, ◌^◌, update, arith, sym, false, if◌then◌else◌,
  ◌==◌, ◌%◌, ap, length, true, refl, ◌&&◌, Distinct, not, elem, ◌≡◌, ℕ, Bool,
}
use ming.Thread.{
  incr, decr, at, Threads, place_num, Place, absent, outside, entering, registering, running,
  leaving, checking, pausing, collecting,
}
use ming.Thread.Count.{
  paused_count-all, paused_count_bound, paused_count-clear, paused_count-set, paused_count,
}

-- Whether a thread at a place is in the list, has data and is paused, as it should.
abbrev pub fits : Place → Bool → Bool → Bool → Bool
fits absent l d p = not l && not d
fits outside l d p = l && (d && p)
fits entering l d p = if d then l && p else not l
fits registering l d p = not l && (d && not p)
fits running l d p = l && (d && not p)
fits leaving l d p = l && (d && p)
fits checking l d p = l && (d && p)
fits pausing l d p = l && (d && p)
fits collecting l d p = l && (d && p)

abbrev pub fit : Threads → ℕ → Bool
fit s t = fits (s.place t) (elem t s.thread_list) (s.has_data t) (s.paused t)

-- The list, the flags and the counters agree, and each thread is where its data say.
pub record Consistent (s : Threads) : Type 0 where
  pub distinct : Distinct s.thread_list
  pub number : s.thread_num ≡ length s.thread_list % 2 ^ 32
  pub paused_number : s.paused_thread_num ≡ paused_count s.paused s.thread_list % 2 ^ 32
  pub fitting : (t : ℕ) → fit s t ≡ true

paused_more :
    (s : Threads) (t : ℕ)
    → Consistent s
    → elem t s.thread_list ≡ true
    → s.paused t ≡ false
    → incr s.paused_thread_num ≡ paused_count (update s.paused t true) s.thread_list % 2 ^ 32
paused_more s t c h e =
    omega (arith, c.paused_number, paused_count-set s.paused s.thread_list t c.distinct h e)

paused_less :
    (s : Threads) (t : ℕ)
    → Consistent s
    → elem t s.thread_list ≡ true
    → s.paused t ≡ true
    → decr s.paused_thread_num ≡ paused_count (update s.paused t false) s.thread_list % 2 ^ 32
paused_less s t c h e =
    omega (arith, c.paused_number, paused_count-clear s.paused s.thread_list t c.distinct h e)

place_of : ℕ → Place
place_of n =
    if n == 0
    then absent
    else if n == 1
    then outside
    else if n == 2
    then entering
    else if n == 3
    then registering
    else if n == 4
    then running
    else if n == 5
    then leaving
    else if n == 6
    then checking
    else if n == 7
    then pausing
    else collecting

place_of-num : (p : Place) → place_of (place_num p) ≡ p
unfolding place_of
place_of-num absent = refl
place_of-num outside = refl
place_of-num entering = refl
place_of-num registering = refl
place_of-num running = refl
place_of-num leaving = refl
place_of-num checking = refl
place_of-num pausing = refl
place_of-num collecting = refl

pub at-place : (p q : Place) → at p q ≡ true → p ≡ q
at-place p q e =
    sym (place_of-num p) ∙ ap place_of (num_eq (place_num p) (place_num q) e) ∙ place_of-num q
  where
    num_eq : (a b : ℕ) → (a == b) ≡ true → a ≡ b
    num_eq a b h = ground arith

-- What a thread's place says of it.
pub fit_at :
    (s : Threads) (t : ℕ) (p : Place)
    → Consistent s
    → at (s.place t) p ≡ true
    → fits p (elem t s.thread_list) (s.has_data t) (s.paused t) ≡ true
fit_at s t p c h =
    ap (λ q. fits q (elem t s.thread_list) (s.has_data t) (s.paused t))
      (sym (at-place (s.place t) p h))
    ∙ c.fitting t

-- The data of a thread in the loop of `m_thread_enter`.
pub entering_cases :
    (l d p : Bool)
    → fits entering l d p ≡ true
    → (d ≡ true → (p ≡ true) × (fits leaving l d p ≡ true)) × (d ≡ false → l ≡ false)
entering_cases l true p f = (λ e. ground arith, λ e. absurd (ground arith))
entering_cases l false p f = (λ e. absurd (ground arith), λ e. ground arith)

-- A thread out of the environment, as `m_thread_enter` finds it.
pub out_of :
    (s : Threads) (t : ℕ)
    → Consistent s
    → at (s.place t) absent || at (s.place t) outside ≡ true
    → fits entering (elem t s.thread_list) (s.has_data t) (s.paused t) ≡ true
out_of s t c h = elim (Bool-cases (at (s.place t) absent)) [
  | inl a ↦ let f = fit_at s t absent c a in ground arith
  | inr o ↦ let f = fit_at s t outside c (ground arith) in ground arith
]

-- A step of the thread `t` that leaves the list and the data alone.
moved :
    (s s' : Threads) (t : ℕ) (f : ℕ → Bool) (g : ℕ → Place)
    → Consistent s
    → s'.thread_list ≡ s.thread_list
    → s'.thread_num ≡ s.thread_num
    → s'.has_data ≡ s.has_data
    → s'.paused ≡ f
    → s'.place ≡ g
    → s'.paused_thread_num ≡ paused_count f s.thread_list % 2 ^ 32
    → ((u : ℕ) → (u == t) ≡ false → (g u ≡ s.place u) × (f u ≡ s.paused u))
    → fits (g t) (elem t s.thread_list) (s.has_data t) (f t) ≡ true
    → Consistent s'
moved s s' t f g c l n d a b p others here = record {
  distinct = rw l c.distinct;
  number = rw (l, n) c.number;
  paused_number = rw (l, a) p;
  fitting = λ u.
      rw (l, d, a, b)
        (elim (Bool-cases (u == t)) [
          | inl same ↦ rw (at-eq u t same) here
          | inr other ↦ rw ((others u other).0, (others u other).1) (c.fitting u)
        ]);
}
  where
    at-eq : (a b : ℕ) → (a == b) ≡ true → a ≡ b
    at-eq a b h = ground arith

-- The three kinds of such a step.
pub Consistent-pauses :
    (s s' : Threads) (t : ℕ) (p : Place)
    → Consistent s
    → fits running (elem t s.thread_list) (s.has_data t) (s.paused t) ≡ true
    → fits p true true true ≡ true
    → s'.thread_list ≡ s.thread_list
    → s'.thread_num ≡ s.thread_num
    → s'.has_data ≡ s.has_data
    → s'.paused ≡ update s.paused t true
    → s'.place ≡ update s.place t p
    → s'.paused_thread_num ≡ incr s.paused_thread_num
    → Consistent s'
Consistent-pauses s s' t p c r q l n d a b e =
    let in_list : elem t s.thread_list ≡ true = ground arith in
    let known : s.has_data t ≡ true = ground arith in
    moved s s' t (update s.paused t true) (update s.place t p) c l n d a b
      (e ∙ paused_more s t c (ground arith) (ground arith)) (λ u o. (ground arith, ground arith))
      (rw (update_at s.place t p, update_at s.paused t true, in_list, known) q)

pub Consistent-resumes :
    (s s' : Threads) (t : ℕ)
    → Consistent s
    → fits leaving (elem t s.thread_list) (s.has_data t) (s.paused t) ≡ true
    → s'.thread_list ≡ s.thread_list
    → s'.thread_num ≡ s.thread_num
    → s'.has_data ≡ s.has_data
    → s'.paused ≡ update s.paused t false
    → s'.place ≡ update s.place t running
    → s'.paused_thread_num ≡ decr s.paused_thread_num
    → Consistent s'
Consistent-resumes s s' t c r l n d a b e =
    moved s s' t (update s.paused t false) (update s.place t running) c l n d a b
      (e ∙ paused_less s t c (ground arith) (ground arith)) (λ u o. (ground arith, ground arith))
      (ground arith)

pub Consistent-goes :
    (s s' : Threads) (t : ℕ) (p : Place)
    → Consistent s
    → fits p (elem t s.thread_list) (s.has_data t) (s.paused t) ≡ true
    → s'.thread_list ≡ s.thread_list
    → s'.thread_num ≡ s.thread_num
    → s'.has_data ≡ s.has_data
    → s'.paused ≡ s.paused
    → s'.place ≡ update s.place t p
    → s'.paused_thread_num ≡ s.paused_thread_num
    → Consistent s'
Consistent-goes s s' t p c r l n d a b e =
    moved s s' t s.paused (update s.place t p) c l n d a b (e ∙ c.paused_number)
      (λ u o. (ground arith, refl)) (rw (update_at s.place t p) r)

-- A listed thread that runs is not paused.
pub active_thread :
    (s : Threads) (t : ℕ)
    → Consistent s
    → length s.thread_list < 2 ^ 32
    → at (s.place t) running ≡ true
    → s.thread_num == s.paused_thread_num ≡ false
active_thread s t c b r = elim (Bool-cases (s.thread_num == s.paused_thread_num)) [
  | inr n ↦ n
  | inl all ↦
      let f = fit_at s t running c r in
      let same : s.thread_num ≡ s.paused_thread_num = ground arith in
      let whole : paused_count s.paused s.thread_list ≡ length s.thread_list =
        omega (arith, c.number, c.paused_number, same, paused_count_bound s.paused s.thread_list) in
      absurd (ground (arith, paused_count-all s.paused s.thread_list t whole))
]
