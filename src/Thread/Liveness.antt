-- ===== src/Thread/Liveness.antt =====
-- The thread that stops the others is woken when all have stopped, unless one ends in the ming
-- environment.
use ming.Thread.Reach.{Few, Paths}
use ming.Base.{
  if◌then◌else◌, sym, Bool-cases, subst, inr, inl, ◌==◌, update, refl, arith, false, true, ◌^◌, ◌≡◌,
  ◌<◌, Bool, ℕ,
}
use ming.Thread.{
  decr, awaits_resume, at, Threads, Place, absent, outside, entering, registering, running, leaving,
  checking, pausing, collecting,
}
use ming.Thread.Step.{
  Event, pause, pause_wake, resume, leave, signal, enter, enter_wake, register, check, check_wake,
  exit, may,
}
use ming.Thread.Invariant.{Consistent, fit_at, active_thread}
use ming.Thread.Cases.{all_paused, gone, registered, Outcome, Entered}
use ming.Thread.Keeps.{Outcome-Consistent}
use ming.Thread.Runs.{collector, asleep, pause_signalled, world_resumed}
use ming.Thread.Wake.{clash, starts, stops, still, calm, Woken}

-- A thread ends only out of the ming environment.
unfoldable pub orderly : Event → Threads → Bool
orderly (exit t) s = at (s.place t) outside
orderly (pause t) s = true
orderly (pause_wake t) s = true
orderly (resume t) s = true
orderly (leave t) s = true
orderly (signal t) s = true
orderly (enter t) s = true
orderly (enter_wake t) s = true
orderly (register t) s = true
orderly (check t) s = true
orderly (check_wake t) s = true

-- The states that such steps reach.
abbrev pub Orderly : Threads → Type 0
Orderly = Paths (λ e s. orderly e s ≡ true)

resume-Woken :
    (s : Threads) (t : ℕ) → Woken s → at (s.place t) collecting ≡ true → Woken (world_resumed t s)
resume-Woken s t h c = record {
  flagged = λ v x. absurd (nobody v x);
  alone = λ v u x y. absurd (nobody v x);
  resume_signal = λ v x y. ground (arith, x);
  pause_signal = λ v x y. absurd (nobody v (ground (arith, x)));
}
  where
    nobody : (v : ℕ) → stops (update s.place t running v) ≡ true → ⊥
    nobody v x = elim (Bool-cases (v == t)) [
      | inl same ↦ absurd (ground (arith, same, x))
      | inr other ↦
          absurd (ground (arith, other, h.alone v t (ground (arith, other, x)) (ground (arith, c))))
    ]

signal-Woken :
    (s : Threads) (t : ℕ)
    → Woken s
    → Woken (record (pause_signalled s) { place = update s.place t outside })
signal-Woken s t h =
    calm s _ t outside h (λ x. absurd (ground arith)) refl refl (λ u o x. ground (arith, x))
      (λ x. absurd (ground arith)) (λ x. absurd (ground arith)) (λ u o x y. inl (ground (arith, x)))

-- The threads of `m_thread_enter` and of the loop of `m_thread_check_nl`.
sleeps-Woken :
    (s : Threads) (t : ℕ) (p : Place)
    → Woken s
    → at (s.place t) leaving ≡ false
    → s.thread_pause_flag ≡ true
    → stops p ≡ false
    → Woken (asleep t p s)
sleeps-Woken s t p h l f n =
    calm s _ t p h (λ x. absurd (ground (arith, x, n))) refl refl keeps (λ x. f)
      (λ x. absurd (ground (arith, x, n))) (still s (asleep t p s) t p h l refl keeps (λ x. x))
  where
    keeps : (u : ℕ) → (u == t) ≡ false → s.signalled u ≡ true → update s.signalled t false u ≡ true
    keeps u o x = ground (arith, o, x)

goes_on-Woken :
    (s s' : Threads) (t : ℕ) (p : Place)
    → Woken s
    → s.thread_pause_flag ≡ false
    → stops p ≡ false
    → awaits_resume p ≡ false
    → s'.thread_pause_flag ≡ s.thread_pause_flag
    → s'.place ≡ update s.place t p
    → s'.signalled ≡ s.signalled
    → Woken s'
goes_on-Woken s s' t p h f n q e k g =
    calm s s' t p h (λ x. absurd (ground (arith, x, n))) e k
      (λ u o x. subst (λ y. y u ≡ true) (sym g) x) (λ x. absurd (ground (arith, x, q)))
      (λ x. absurd (ground (arith, x, n)))
      (λ u o x y. absurd (clash s.thread_pause_flag (h.flagged u (ground (arith, x))) f))

Entered-Woken :
    (s : Threads) (t : ℕ) → Woken s → at (s.place t) leaving ≡ false → Entered (Few Woken) t s
Entered-Woken s t h l = (
  λ f _. sleeps-Woken s t entering h l f refl,
  λ f d _. goes_on-Woken s _ t running h f refl refl refl refl refl,
  λ f d _. goes_on-Woken s _ t registering h f refl refl refl refl refl,
)

register-Woken :
    (s : Threads) (t : ℕ) → Consistent (registered t s) → Woken s → Few Woken (registered t s)
register-Woken s t c h l =
    calm s _ t running h (λ x. absurd (ground arith)) refl refl (λ u o x. x)
      (λ x. absurd (ground arith)) (λ x. absurd (ground arith))
      (λ u o x y. absurd (
        clash (all_paused (registered t s)) y
          (active_thread (registered t s) t c l (ground arith))))

decr_eq :
    (p : Bool) (a b : ℕ)
    → p ≡ true
    → a < 2 ^ 32
    → b < 2 ^ 32
    → (decr a == (if p then decr b else b)) ≡ true
    → (a == b) ≡ true
decr_eq true a b e h l x = ground arith
decr_eq false a b e h l x = absurd (ground arith)

exit-Woken :
    (s : Threads) (t : ℕ)
    → Consistent s
    → Woken s
    → at (s.place t) outside ≡ true
    → Woken (gone t s)
exit-Woken s t c h o =
    let f = fit_at s t outside c o in
    let p : s.paused t ≡ true = ground arith in
    calm s _ t absent h (λ x. absurd (ground arith)) refl refl (λ u n x. x)
      (λ x. absurd (ground arith)) (λ x. absurd (ground arith))
      (still s (gone t s) t absent h (ground (arith, o)) refl (λ u n x. x)
        (decr_eq (s.paused t) s.thread_num s.paused_thread_num p (omega (arith, c.number))
          (omega (arith, c.paused_number))))

pub Outcome-Woken :
    (e : Event) (s : Threads)
    → Consistent s
    → Woken s
    → may e s ≡ true
    → orderly e s ≡ true
    → Outcome (Few Woken) e s
unfolding may orderly
Outcome-Woken (pause t) s c h m o =
    let f : s.thread_pause_flag ≡ false = ground arith in
    (
      λ a _. starts s _ t collecting h f refl refl refl (λ x. absurd (ground arith)),
      λ a _. starts s _ t pausing h f refl refl refl (λ x. a),
    )
Outcome-Woken (pause_wake t) s c h m o =
    let l : at (s.place t) leaving ≡ false = ground arith in
    (
      λ a _.
          calm s _ t collecting h (λ x. ground (arith, m)) refl refl (λ u n x. x)
            (λ x. absurd (ground arith)) (λ x. absurd (ground arith))
            (still s (collector t s) t collecting h l refl (λ u n x. x) (λ x. x)),
      λ a _.
          calm s _ t pausing h (λ x. ground (arith, m)) refl refl (λ u n x. ground (arith, n, x))
            (λ x. absurd (ground arith)) (λ x. a)
            (still s (asleep t pausing s) t pausing h l refl (λ u n x. ground (arith, n, x))
              (λ x. x)),
    )
Outcome-Woken (resume t) s c h m o = λ _. resume-Woken s t h m
Outcome-Woken (leave t) s c h m o = λ _.
    calm s _ t leaving h (λ x. absurd (ground arith)) refl refl (λ u n x. x)
      (λ x. absurd (ground arith)) (λ x. absurd (ground arith)) (λ u n x y. inr (t, ground arith))
Outcome-Woken (signal t) s c h m o = λ _. signal-Woken s t h
Outcome-Woken (enter t) s c h m o = Entered-Woken s t h (ground arith)
Outcome-Woken (enter_wake t) s c h m o = Entered-Woken s t h (ground arith)
Outcome-Woken (register t) s c h m o = register-Woken s t (Outcome-Consistent (register t) s c m) h
Outcome-Woken (check t) s c h m o = (
  λ f _.
      calm s _ t checking h (λ x. absurd (ground arith)) refl refl (λ u n x. ground (arith, n, x))
        (λ x. f) (λ x. absurd (ground arith)) (λ u n x y. inl (ground (arith, n, x))),
  λ f _. h,
)
Outcome-Woken (check_wake t) s c h m o = (
  λ f _. sleeps-Woken s t checking h (ground arith) f refl,
  λ f _. goes_on-Woken s _ t running h f refl refl refl refl refl,
)
Outcome-Woken (exit t) s c h m o = λ _. exit-Woken s t c h o
