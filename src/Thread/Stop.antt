-- ===== src/Thread/Stop.antt =====
-- Stop the world.
use ming.Base.{
  inl, if◌then◌else◌, inr, Bool-cases, Bool, refl, ap, ◌==◌, arith, ◌||◌, ◌^◌, true, false, ◌<◌,
  ◌≡◌, length, ℕ,
}
use ming.Thread.{
  decr, place_num, at, Threads, absent, outside, entering, registering, running, leaving, checking,
  pausing, collecting,
}
use ming.Thread.Step.{
  Event, pause, pause_wake, resume, leave, signal, enter, enter_wake, register, check, check_wake,
  exit, may, Blank,
}
use ming.Thread.Invariant.{Consistent, fit_at, active_thread}
use ming.Thread.Cases.{gone, all_paused, Outcome, Entered}
use ming.Thread.Reach.{
  Paths-length, Paths-Reachable, Reachable-Consistent, Few, after_startup, Paths, Paths-rec,
}
use ming.Thread.Wake.{clash, stops}
use ming.Thread.World.{Stopped, quiet, stops_first, resume-Stopped, stops_collecting}

-- No thread registers while another collects.
abbrev pub NoLateEntry : Event → Threads → Type 0
NoLateEntry (register t) s = (u : ℕ) → at (s.place u) collecting ≡ false
NoLateEntry (pause t) s = Unit
NoLateEntry (pause_wake t) s = Unit
NoLateEntry (resume t) s = Unit
NoLateEntry (leave t) s = Unit
NoLateEntry (signal t) s = Unit
NoLateEntry (enter t) s = Unit
NoLateEntry (enter_wake t) s = Unit
NoLateEntry (check t) s = Unit
NoLateEntry (check_wake t) s = Unit
NoLateEntry (exit t) s = Unit

abbrev pub Careful : Threads → Type 0
Careful = Paths NoLateEntry

-- Where the flag is not set, nobody collects.
no_collector :
    (s : Threads) {A : Type 0}
    → Stopped s
    → s.thread_pause_flag ≡ false
    → (u : ℕ) → at (s.place u) collecting ≡ true
    → A
no_collector s h n u c =
    absurd (clash s.thread_pause_flag (h.flagged u (stops_collecting (s.place u) c)) n)

-- A thread in the environment: nobody collects.
not_beside :
    (s : Threads) (t : ℕ) {A : Type 0}
    → Consistent s
    → length s.thread_list < 2 ^ 32
    → Stopped s
    → at (s.place t) running ≡ true
    → (u : ℕ) → at (s.place u) collecting ≡ true
    → A
not_beside s t c l h r u k = absurd (clash (all_paused s) (h.all u k) (active_thread s t c l r))

Entered-Stopped : (s : Threads) (t : ℕ) → Stopped s → Entered (Few Stopped) t s
Entered-Stopped s t h = (
  λ f _.
      quiet s _ t entering h (λ x. absurd (ground arith)) refl refl (λ x. absurd (ground arith))
        (λ u c. h.all u c),
  λ f d _.
      quiet s _ t running h (λ x. absurd (ground arith)) refl refl (λ x. absurd (ground arith))
        (no_collector s h f),
  λ f d _.
      quiet s _ t registering h (λ x. absurd (ground arith)) refl refl (λ x. absurd (ground arith))
        (no_collector s h f),
)

exit-Stopped :
    (s : Threads) (t : ℕ)
    → Consistent s
    → length s.thread_list < 2 ^ 32
    → Stopped s
    → at (s.place t) running || at (s.place t) outside ≡ true
    → Stopped (gone t s)
exit-Stopped s t c l h o = elim (Bool-cases (at (s.place t) running)) [
  | inl r ↦
      quiet s _ t absent h (λ x. absurd (ground arith)) refl refl (λ x. absurd (ground arith))
        (not_beside s t c l h r)
  | inr n ↦
      let out : at (s.place t) outside ≡ true = ground arith in
      let f = fit_at s t outside c out in
      quiet s _ t absent h (λ x. absurd (ground arith)) refl refl (λ x. absurd (ground arith))
        (λ u k. decr_both (s.paused t) s.thread_num s.paused_thread_num (ground arith) (h.all u k))
]
  where
    same_num : (a b : ℕ) → (a == b) ≡ true → a ≡ b
    same_num a b x = ground arith

    decr_both :
        (p : Bool) (a b : ℕ)
        → p ≡ true
        → (a == b) ≡ true
        → (decr a == (if p then decr b else b)) ≡ true
    decr_both true a b e x = ground (arith, ap decr (same_num a b x))
    decr_both false a b e x = absurd (ground arith)

Outcome-Stopped :
    (e : Event) (s : Threads)
    → Consistent s
    → length s.thread_list < 2 ^ 32
    → Stopped s
    → may e s ≡ true
    → NoLateEntry e s
    → Outcome (Few Stopped) e s
unfolding may
Outcome-Stopped (pause t) s c l h m o =
    let n : s.thread_pause_flag ≡ false = ground arith in
    (
      λ a _. stops_first s _ t collecting h n refl refl (λ x. a),
      λ a _. stops_first s _ t pausing h n refl refl (λ x. absurd (ground arith)),
    )
Outcome-Stopped (pause_wake t) s c l h m o = (
  λ a _. quiet s _ t collecting h (λ x. ground (arith, m)) refl refl (λ x. a) (λ u k. a),
  λ a _.
      quiet s _ t pausing h (λ x. ground (arith, m)) refl refl (λ x. absurd (ground arith))
        (λ u k. h.all u k),
)
Outcome-Stopped (resume t) s c l h m o = λ _. resume-Stopped s t h m
Outcome-Stopped (leave t) s c l h m o = λ _.
    quiet s _ t leaving h (λ x. absurd (ground arith)) refl refl (λ x. absurd (ground arith))
      (not_beside s t c l h m)
Outcome-Stopped (signal t) s c l h m o = λ _.
    quiet s _ t outside h (λ x. absurd (ground arith)) refl refl (λ x. absurd (ground arith))
      (λ u k. h.all u k)
Outcome-Stopped (enter t) s c l h m o = Entered-Stopped s t h
Outcome-Stopped (enter_wake t) s c l h m o = Entered-Stopped s t h
Outcome-Stopped (register t) s c l h m o = λ _.
    quiet s _ t running h (λ x. absurd (ground arith)) refl refl (λ x. absurd (ground arith))
      (λ u k. absurd (clash (at (s.place u) collecting) k (o u)))
Outcome-Stopped (check t) s c l h m o = (
  λ f _.
      quiet s _ t checking h (λ x. absurd (ground arith)) refl refl (λ x. absurd (ground arith))
        (not_beside s t c l h m),
  λ f _. h,
)
Outcome-Stopped (check_wake t) s c l h m o = (
  λ f _.
      quiet s _ t checking h (λ x. absurd (ground arith)) refl refl (λ x. absurd (ground arith))
        (λ u k. h.all u k),
  λ f _.
      quiet s _ t running h (λ x. absurd (ground arith)) refl refl (λ x. absurd (ground arith))
        (no_collector s h f),
)
Outcome-Stopped (exit t) s c l h m o = λ _. exit-Stopped s t c l h m

after_startup-Stopped : (s : Threads) (t : ℕ) → Blank s → Stopped (after_startup t s)
after_startup-Stopped s t b = record {
  flagged = λ v c. absurd (nobody v c);
  alone = λ v u c d. absurd (nobody v c);
  all = λ v c. absurd (nobody v (stops_collecting ((after_startup t s).place v) c));
}
  where
    nobody : (v : ℕ) → stops ((after_startup t s).place v) ≡ true → ⊥
    nobody v c = absurd (ground (arith, ap place_num (b.nowhere v)))

pub Careful-Stopped : (s : Threads) → Careful s → Stopped s
Careful-Stopped = Paths-rec NoLateEntry Stopped after_startup-Stopped Outcome-Stopped

-- If no thread registers while another collects: in every state that the threads reach, with fewer
-- than `2 ^ 32` threads at a time, while a thread is between `m_thread_pause_all` and
-- `m_thread_resume_all` no thread is in the ming environment, and no other thread stops the world.
pub stop_the_world :
    (s : Threads) (t : ℕ)
    → Careful s
    → at (s.place t) collecting ≡ true
    → (u : ℕ) → (at (s.place u) running ≡ false) × ((u == t) ≡ false → stops (s.place u) ≡ false)
stop_the_world s t r c u =
    let h = Careful-Stopped s r in
    let k = Reachable-Consistent s (Paths-Reachable NoLateEntry s r) in
    (
      elim (Bool-cases (at (s.place u) running)) [
        | inr n ↦ n
        | inl active ↦ not_beside s u k (Paths-length NoLateEntry s r) h active t c
      ],
      λ n. elim (Bool-cases (stops (s.place u))) [
        | inr m ↦ m
        | inl both ↦ absurd (ground (arith, n, h.alone u t both (stops_collecting (s.place t) c)))
      ],
    )
