-- ===== src/Thread/Entry.antt =====
-- A new thread that enters while another is about to stop the world, src/m_thread.c.
use ming.Thread.Runs.{
  enter-run, pause_all-run, pause_test-run, if_true, if_false, collector, stopping,
}
use ming.Base.{
  bind_result, ◌>>◌, ◌∙◌, some, inl, inr, Bool-cases, refl, ap, Returns, ◌==◌, arith, true, false,
  ◌≡◌, ℕ,
}
use ming.Thread.{
  thread_register_data, Place, m_thread_enter, m_thread_pause_all, incr, place_num, at,
  thread_register_entry, Threads, absent, running, collecting,
}
use ming.Thread.Step.{step, Reachable, pause, enter, register, perform, may}
use ming.Thread.Invariant.{fit_at}
use ming.Thread.Cases.{data_added, registered, all_paused}
use ming.Thread.Reach.{Reachable-Consistent}

-- The way round it: `m_thread_enter` gives the lock back before it registers a new thread. From any
-- reachable state where nobody stops the world, where all threads but `c` have paused and `c` is in the
-- ming environment: when a new thread `t` enters, `c` stops the world next, and then `t` goes on, `t` is
-- in the ming environment while `c` collects.
pub register-breaks_in :
    (s : Threads) (t c : ℕ)
    → Reachable s
    → s.thread_pause_flag ≡ false
    → at (s.place c) running ≡ true
    → at (s.place t) absent ≡ true
    → s.thread_num ≡ incr s.paused_thread_num
    → Returns ((m_thread_enter t >> (m_thread_pause_all c >> thread_register_entry t)) s) (λ _ s'.
      Reachable s' × (at (s'.place c) collecting ≡ true) × (at (s'.place t) running ≡ true))
unfolding may perform thread_register_entry thread_register_data
register-breaks_in s t c h f k m n =
    let ok = Reachable-Consistent s h in
    let fc = fit_at s c running ok k in
    let ft = fit_at s t absent ok m in
    let new : s.has_data t ≡ false = ground (arith, ft) in
    let known : s.has_data c ≡ true = ground (arith, fc) in
    let awake : s.paused c ≡ false = ground (arith, fc) in
    let other : (c == t) ≡ false = apart (s.place c) (s.place t) c t k m (λ x. ap s.place x) in
    let s1 = data_added t s in
    let s2 = collector c (stopping c s1) in
    let enters : m_thread_enter t s ≡ some (tt, s1) =
      enter-run t s (λ d. absurd (ground (arith, d, new)))
      ∙ if_false s.thread_pause_flag _ _ f
      ∙ if_false (s.has_data t) _ _ new in
    let stops_all : m_thread_pause_all c s1 ≡ some (tt, s2) =
      pause_all-run c s1 (rw other known) (rw other awake)
      ∙ pause_test-run c (stopping c s1)
      ∙ ap (λ x. some (tt, x)) (if_true (all_paused (stopping c s1)) _ _ (ground (arith, n))) in
    let r1 = step (enter t) s s1 h (ground (arith, m)) enters in
    let r2 = step (pause c) s1 s2 r1 (ground (arith, f, k, other)) stops_all in
    let r3 = step (register t) s2 (registered t s2) r2 (ground (arith, other)) refl in
    (
      tt,
      registered t s2,
      ap (λ r. bind_result r (λ _. m_thread_pause_all c >> thread_register_entry t)) enters
          ∙ ap (λ r. bind_result r (λ _. thread_register_entry t)) stops_all,
      (r3, ground (arith, other), ground arith),
    )
  where
    apart :
        (p q : Place) (c t : ℕ)
        → at p running ≡ true
        → at q absent ≡ true
        → (c ≡ t → p ≡ q)
        → (c == t) ≡ false
    apart p q c t x y e = elim (Bool-cases (c == t)) [
      | inr d ↦ d
      | inl d ↦
          let same : c ≡ t = ground arith in absurd (ground (arith, x, y, ap place_num (e same)))
    ]
