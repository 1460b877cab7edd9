-- ===== src/Thread/Reach.antt =====
-- Induction over the reachable states.
use ming.Base.{
  arith, ◌<◌, length, inr, inl, ◌==◌, Bool-cases, update_at, ◌^◌, ◌%◌, update, ◌+◌, true, [], none,
  refl, if◌then◌else◌, ◌∙◌, ◌∷◌, Returns, ap, false, sym, ◌≡◌, some, subst, Option, ℕ,
}
use ming.Thread.{m_thread_startup, Threads, registering, running}
use ming.Thread.Step.{Event, perform, may, Reachable, started, step, Blank}
use ming.Thread.Invariant.{Consistent}
use ming.Thread.Cases.{perform-cases, Outcome}
use ming.Thread.Keeps.{perform-Consistent}

-- The state after `m_thread_startup`.
abbrev pub after_startup : ℕ → Threads → Threads
after_startup t s = record s {
  thread_num = 1;
  paused_thread_num = 0;
  thread_pause_flag = false;
  thread_list = t ∷ [];
  paused = update s.paused t false;
  has_data = update s.has_data t true;
  place = update (update s.place t registering) t running;
}

pub startup-after_startup :
    (t : ℕ) (s : Threads) → m_thread_startup t s ≡ some (tt, after_startup t s)
unfolding m_thread_startup
startup-after_startup t s = refl

after_startup-Consistent : (t : ℕ) (s : Threads) → Blank s → Consistent (after_startup t s)
after_startup-Consistent t s b = record {
  distinct = (refl, tt);
  number = refl;
  paused_number = ap (λ x. ((if x then 1 else 0) + 0) % 2 ^ 32) (sym (update_at s.paused t false));
  fitting = λ u. elim (Bool-cases (u == t)) [
    | inl same ↦ rw same refl
    | inr other ↦ rw (other, b.nowhere u, b.no_data u) refl
  ];
}

pub same_state :
    (s s' : Threads) → ◌≡◌ {A = Option (Unit {0} × Threads)} (some (tt, s)) (some (tt, s')) → s ≡ s'
same_state s s' e = ap (λ o. elim o [ none ↦ s | some (x, v) ↦ v ]) e

pub same_result :
    (P : Threads → Type 0) (r : Option (Unit {0} × Threads)) (s : Threads)
    → Returns r (λ _ s'. P s')
    → r ≡ some (tt, s)
    → P s
same_result P r s (x, s', e, h) f = subst P (same_state s' s (sym e ∙ f)) h

pub Reachable-Consistent : (s : Threads) → Reachable s → Consistent s
Reachable-Consistent s (started s0 t s' b e) =
    subst Consistent (same_state (after_startup t s0) s (sym (startup-after_startup t s0) ∙ e))
      (after_startup-Consistent t s0 b)
Reachable-Consistent s (step e s0 s' r m p) =
    same_result Consistent (perform e s0) s (perform-Consistent e s0 (Reachable-Consistent s0 r) m)
      p

-- The states that the steps that `ok` allows reach, with fewer than `2 ^ 32` threads at a time.
pub data Paths (ok : Event → Threads → Type 0) : Threads → Type 0 where
  begins :
      (s : Threads) (t : ℕ) (s' : Threads)
      → Blank s
      → m_thread_startup t s ≡ some (tt, s')
      → Paths ok s'
  goes :
      (e : Event) (s s' : Threads)
      → Paths ok s
      → may e s ≡ true
      → ok e s
      → perform e s ≡ some (tt, s')
      → length s'.thread_list < 2 ^ 32
      → Paths ok s'

-- A property of the states with fewer than `2 ^ 32` threads.
abbrev pub Few : (Threads → Type 0) → Threads → Type 0
Few P s = length s.thread_list < 2 ^ 32 → P s

module _ (ok : Event → Threads → Type 0) where
  pub Paths-Reachable : (s : Threads) → Paths ok s → Reachable s
  Paths-Reachable s (begins s0 t s' b e) = started s0 t s b e
  Paths-Reachable s (goes e s0 s' r m o p l) = step e s0 s (Paths-Reachable s0 r) m p

  pub Paths-length : (s : Threads) → Paths ok s → length s.thread_list < 2 ^ 32
  Paths-length s (begins s0 t s' b e) =
      subst (λ x. length x.thread_list < 2 ^ 32)
        (same_state (after_startup t s0) s (sym (startup-after_startup t s0) ∙ e)) (omega arith)
  Paths-length s (goes e s0 s' r m o p l) = l

  pub Paths-rec :
      (P : Threads → Type 0)
      → ((s : Threads) (t : ℕ) → Blank s → P (after_startup t s))
      → ((e : Event) (s : Threads)
          → Consistent s
          → length s.thread_list < 2 ^ 32
          → P s
          → may e s ≡ true
          → ok e s
          → Outcome (Few P) e s)
      → (s : Threads) → Paths ok s
      → P s
  Paths-rec P z k s (begins s0 t s' b e) =
      subst P (same_state (after_startup t s0) s (sym (startup-after_startup t s0) ∙ e)) (z s0 t b)
  Paths-rec P z k s (goes e s0 s' r m o p l) =
      let c = Reachable-Consistent s0 (Paths-Reachable s0 r) in
      same_result (Few P) (perform e s0) s
        (perform-cases (Few P) e s0 c m (k e s0 c (Paths-length s0 r) (Paths-rec P z k s0 r) m o)) p
        l
