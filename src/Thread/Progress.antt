-- ===== src/Thread/Progress.antt =====
-- The thread that stops the others gets on, or loses its wake-up.
use ming.Base.{
  refl, if◌then◌else◌, ◌==◌, some, Bool, inr, inl, Returns, ap, ◌+◌, ◌⊎◌, false, ◌∙◌, arith, true,
  ◌≡◌, ◌^◌, ◌<◌, ℕ,
}
use ming.Thread.{
  decr, place_num, at, put_place, signal_pause, thread_key_destructor, leave_signal, Threads,
  running, leaving, pausing, collecting,
}
use ming.Thread.Step.{pause_wake, signal, perform, may, Blank}
use ming.Thread.Invariant.{Consistent, fit_at}
use ming.Thread.Cases.{gone, all_paused}
use ming.Thread.Runs.{if_true, pause_test-run, collector}
use ming.Thread.Reach.{Paths-rec, after_startup}
use ming.Thread.Wake.{stops, Woken}
use ming.Thread.Liveness.{orderly, Orderly, Outcome-Woken}

after_startup-Woken : (s : Threads) (t : ℕ) → Blank s → Woken (after_startup t s)
after_startup-Woken s t b = record {
  flagged = λ v c. absurd (nobody v c);
  alone = λ v u c d. absurd (nobody v c);
  resume_signal = λ v c d. absurd (ground (arith, c, ap place_num (b.nowhere v)));
  pause_signal = λ v c d. absurd (nobody v (ground (arith, c)));
}
  where
    nobody : (v : ℕ) → stops ((after_startup t s).place v) ≡ true → ⊥
    nobody v c = absurd (ground (arith, ap place_num (b.nowhere v)))

pub Orderly-Woken : (s : Threads) → Orderly s → Woken s
Orderly-Woken =
    Paths-rec (λ e s. orderly e s ≡ true) Woken (λ s t b. after_startup-Woken s t b)
      (λ e s c l h m o. Outcome-Woken e s c h m o)

-- No wake-up is lost while threads end only out of the ming environment. When a thread waits in
-- `m_thread_pause_all` and all threads are paused, it has the signal, or a thread in
-- `m_thread_leave` is about to give it and does so in its next step; and when it wakes it collects.
pub pause_all-progress :
    (s : Threads) (t : ℕ)
    → Orderly s
    → at (s.place t) pausing ≡ true
    → all_paused s ≡ true
    → ((s.signalled t ≡ true)
        ⊎ ((u : ℕ) × (may (signal u) s ≡ true)
            × Returns (perform (signal u) s) (λ _ s'.
              (s'.signalled t ≡ true) × (at (s'.place t) pausing ≡ true) × (all_paused s' ≡ true))))
      × Returns (perform (pause_wake t) s) (λ _ s'. at (s'.place t) collecting ≡ true)
unfolding may perform leave_signal signal_pause put_place
pause_all-progress s t r w a = (
  elim ((Orderly-Woken s r).pause_signal t w a) [
    | inl x ↦ inl x
    | inr (u, l) ↦ inr (u, l, (tt, _, refl, (ground (arith, w), ground (arith, w, l), a)))
  ],
  (
    tt,
    collector t s,
    pause_test-run t s ∙ ap (λ x. some (tt, x)) (if_true (all_paused s) _ _ a),
    ground arith,
  ),
)

-- A thread that ends in the ming environment gives no signal. If it was the last that was not
-- paused, then the thread in `m_thread_pause_all` sleeps on, although all threads are paused, and
-- though no thread is left to give the signal.
pub key_destructor-lost_wakeup :
    (s : Threads) (p t : ℕ)
    → Consistent s
    → at (s.place p) pausing ≡ true
    → s.signalled p ≡ false
    → at (s.place t) running ≡ true
    → s.thread_num ≡ s.paused_thread_num + 1
    → ((u : ℕ) → at (s.place u) leaving ≡ false)
    → Returns (thread_key_destructor t s) (λ _ s'.
      (all_paused s' ≡ true)
      × (at (s'.place p) pausing ≡ true)
      × (s'.signalled p ≡ false)
      × ((u : ℕ) → at (s'.place u) leaving ≡ false))
unfolding thread_key_destructor
key_destructor-lost_wakeup s p t c w n r e l =
    let f = fit_at s t running c r in
    let active : s.paused t ≡ false = ground arith in
    (
      tt,
      gone t s,
      refl,
      (
        last (s.paused t) s.thread_num s.paused_thread_num active e (omega (arith, c.number)),
        ground (arith, w, r),
        n,
        λ u. ground (arith, l u),
      ),
    )
  where
    last :
        (b : Bool) (n m : ℕ)
        → b ≡ false
        → n ≡ m + 1
        → n < 2 ^ 32
        → (decr n == (if b then decr m else m)) ≡ true
    last true n m x y z = absurd (ground arith)
    last false n m x y z = ground arith
