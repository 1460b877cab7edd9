-- ===== src/Thread/World.antt =====
-- A collection runs while no other thread is in the ming environment, unless a new thread
-- registers meanwhile.
use ming.Base.{◌∙◌, sym, inr, subst, inl, ◌==◌, Bool-cases, arith, update, false, true, ◌≡◌, ℕ}
use ming.Thread.{at, Threads, Place, running, collecting}
use ming.Thread.Cases.{all_paused}
use ming.Thread.Runs.{world_resumed}
use ming.Thread.Wake.{same_place, other_place, same_thread, clash, stops}

-- At most one thread is at a collection, and while it collects all threads are paused.
pub record Stopped (s : Threads) : Type 0 where
  pub flagged : (t : ℕ) → stops (s.place t) ≡ true → s.thread_pause_flag ≡ true
  pub alone : (t u : ℕ) → stops (s.place t) ≡ true → stops (s.place u) ≡ true → t ≡ u
  pub all : (t : ℕ) → at (s.place t) collecting ≡ true → all_paused s ≡ true

pub stops_collecting : (p : Place) → at p collecting ≡ true → stops p ≡ true
stops_collecting p e = ground arith

-- A step that takes the thread `t` to the place `p`.
pub quiet :
    (s s' : Threads) (t : ℕ) (p : Place)
    → Stopped s
    → (stops p ≡ true → stops (s.place t) ≡ true)
    → s'.thread_pause_flag ≡ s.thread_pause_flag
    → s'.place ≡ update s.place t p
    → (at p collecting ≡ true → all_paused s' ≡ true)
    → ((u : ℕ) → at (s.place u) collecting ≡ true → all_paused s' ≡ true)
    → Stopped s'
quiet s s' t p h k f e w a = record {
  flagged = λ v c. f ∙ h.flagged v (before v (subst (λ x. stops (x v) ≡ true) e c));
  alone = λ v u c d.
      h.alone v u (before v (subst (λ x. stops (x v) ≡ true) e c))
        (before u (subst (λ x. stops (x u) ≡ true) e d));
  all = λ v c. paused v (subst (λ x. at (x v) collecting ≡ true) e c);
}
  where
    before : (v : ℕ) → stops (update s.place t p v) ≡ true → stops (s.place v) ≡ true
    before v c = elim (Bool-cases (v == t)) [
      | inl same ↦
          subst (λ x. stops (s.place x) ≡ true) (sym (same_thread v t same))
            (k (same_place (λ q. stops q) s.place t p v same c))
      | inr other ↦ other_place (λ q. stops q) s.place t p v other c
    ]

    paused : (v : ℕ) → at (update s.place t p v) collecting ≡ true → all_paused s' ≡ true
    paused v c = elim (Bool-cases (v == t)) [
      | inl same ↦ w (same_place (λ q. at q collecting) s.place t p v same c)
      | inr other ↦ a v (other_place (λ q. at q collecting) s.place t p v other c)
    ]

-- A thread stops the world while no other does.
pub stops_first :
    (s s' : Threads) (t : ℕ) (p : Place)
    → Stopped s
    → s.thread_pause_flag ≡ false
    → s'.thread_pause_flag ≡ true
    → s'.place ≡ update s.place t p
    → (at p collecting ≡ true → all_paused s' ≡ true)
    → Stopped s'
stops_first s s' t p h n f e w = record {
  flagged = λ v c. f;
  alone = λ v u c d.
      self v (subst (λ x. stops (x v) ≡ true) e c)
      ∙ sym (self u (subst (λ x. stops (x u) ≡ true) e d));
  all = λ v c. w (collects v (subst (λ x. at (x v) collecting ≡ true) e c));
}
  where
    self : (v : ℕ) → stops (update s.place t p v) ≡ true → v ≡ t
    self v c = elim (Bool-cases (v == t)) [
      | inl same ↦ same_thread v t same
      | inr other ↦ absurd (
          clash s.thread_pause_flag (h.flagged v (other_place (λ x. stops x) s.place t p v other c))
            n)
    ]

    collects : (v : ℕ) → at (update s.place t p v) collecting ≡ true → at p collecting ≡ true
    collects v c = elim (Bool-cases (v == t)) [
      | inl same ↦ same_place (λ x. at x collecting) s.place t p v same c
      | inr other ↦
          let z = other_place (λ x. at x collecting) s.place t p v other c in
          absurd (clash s.thread_pause_flag (h.flagged v (stops_collecting (s.place v) z)) n)
    ]

pub resume-Stopped :
    (s : Threads) (t : ℕ)
    → Stopped s
    → at (s.place t) collecting ≡ true
    → Stopped (world_resumed t s)
resume-Stopped s t h c = record {
  flagged = λ v x. absurd (nobody v x);
  alone = λ v u x y. absurd (nobody v x);
  all = λ v x. absurd (nobody v (ground (arith, x)));
}
  where
    nobody : (v : ℕ) → stops (update s.place t running v) ≡ true → ⊥
    nobody v x = elim (Bool-cases (v == t)) [
      | inl same ↦ absurd (ground (arith, same, x))
      | inr other ↦
          absurd (ground (arith, other, h.alone v t (ground (arith, other, x)) (ground (arith, c))))
    ]
