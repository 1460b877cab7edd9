-- ===== src/Thread/Cases.antt =====
-- The outcomes of a step: to show that each state after it has a property, it is enough to look at
-- those that `Outcome` names.
use ming.Base.{
  some, ap, inr, inl, ◌∙◌, Bool-cases, arith, refl, [], Returns, if◌then◌else◌, ◌∷◌, true, false,
  ◌++◌, elem, ◌≡◌, ◌==◌, update, Bool, ℕ,
}
use ming.Thread.{
  m_thread_check, m_thread_enter, m_thread_check_nl, thread_key_destructor, thread_register_entry,
  decr, put_place, incr, signal_pause, without, thread_register_data, leave_signal, Threads, absent,
  outside, entering, registering, running, leaving, checking, pausing, collecting,
}
use ming.Thread.Step.{
  Event, pause, pause_wake, resume, leave, signal, enter, enter_wake, register, check, check_wake,
  exit, perform, may,
}
use ming.Thread.Invariant.{out_of, entering_cases, fits, Consistent, fit_at}
use ming.Thread.Runs.{
  if_false, leave-run, resume_all-run, check_test-run, pause_test-run, if_true, pause_all-run,
  enter-run, returns, pause_signalled, check_nl-run, paused_by, world_resumed, resumed_by, asleep,
  collector, stopping,
}

abbrev pub data_added : ℕ → Threads → Threads
data_added t s = record s {
  paused = update s.paused t false;
  has_data = update s.has_data t true;
  place = update s.place t registering;
}

abbrev pub registered : ℕ → Threads → Threads
registered t s = record s {
  thread_num = incr s.thread_num;
  thread_list = s.thread_list ++ t ∷ [];
  place = update s.place t running;
}

abbrev pub gone : ℕ → Threads → Threads
gone t s = record s {
  thread_list = without t s.thread_list;
  thread_num = decr s.thread_num;
  paused_thread_num = if s.paused t then decr s.paused_thread_num else s.paused_thread_num;
  has_data = update s.has_data t false;
  place = update s.place t absent;
}

abbrev pub all_paused : Threads → Bool
all_paused s = s.thread_num == s.paused_thread_num

module _ (P : Threads → Type 0) where
  abbrev pub Entered : ℕ → Threads → Type 0
  Entered t s =
      (s.thread_pause_flag ≡ true → P (asleep t entering s))
      × (s.thread_pause_flag ≡ false → s.has_data t ≡ true → P (resumed_by t s))
      × (s.thread_pause_flag ≡ false → s.has_data t ≡ false → P (data_added t s))

  abbrev pub Outcome : Event → Threads → Type 0
  Outcome (pause t) s =
      (all_paused (stopping t s) ≡ true → P (collector t (stopping t s)))
      × (all_paused (stopping t s) ≡ false → P (asleep t pausing (stopping t s)))
  Outcome (pause_wake t) s =
      (all_paused s ≡ true → P (collector t s)) × (all_paused s ≡ false → P (asleep t pausing s))
  Outcome (resume t) s = P (world_resumed t s)
  Outcome (leave t) s = P (record (paused_by t s) { place = update s.place t leaving })
  Outcome (signal t) s = P (record (pause_signalled s) { place = update s.place t outside })
  Outcome (enter t) s = Entered t s
  Outcome (enter_wake t) s = Entered t s
  Outcome (register t) s = P (registered t s)
  Outcome (check t) s =
      (s.thread_pause_flag ≡ true → P (asleep t checking (pause_signalled (paused_by t s))))
      × (s.thread_pause_flag ≡ false → P s)
  Outcome (check_wake t) s =
      (s.thread_pause_flag ≡ true → P (asleep t checking s))
      × (s.thread_pause_flag ≡ false → P (resumed_by t s))
  Outcome (exit t) s = P (gone t s)

  choice_by :
      (b : Bool) (s s' : Threads) → (b ≡ true → P s) → (b ≡ false → P s') → P (if b then s else s')
  choice_by true s s' h k = h refl
  choice_by false s s' h k = k refl

  enter-cases :
      (t : ℕ) (s : Threads)
      → fits entering (elem t s.thread_list) (s.has_data t) (s.paused t) ≡ true
      → Entered t s
      → Returns (m_thread_enter t s) (λ _ s'. P s')
  unfolding thread_register_data
  enter-cases t s f o =
      let (known, new) = entering_cases (elem t s.thread_list) (s.has_data t) (s.paused t) f in
      let run = enter-run t s (λ d. (known d).0) in
      elim (Bool-cases s.thread_pause_flag) [
        | inl stop ↦ returns P _ _ (run ∙ if_true s.thread_pause_flag _ _ stop) (o.0 stop)
        | inr go_on ↦ elim (Bool-cases (s.has_data t)) [
          | inl d ↦
              returns P _ _
                (run ∙ if_false s.thread_pause_flag _ _ go_on ∙ if_true (s.has_data t) _ _ d)
                (o.1 go_on d)
          | inr d ↦
              returns P _ (data_added t s)
                (run ∙ if_false s.thread_pause_flag _ _ go_on ∙ if_false (s.has_data t) _ _ d)
                (o.2 go_on d)
        ]
      ]

  check-cases :
      (t : ℕ) (s : Threads)
      → fits running (elem t s.thread_list) (s.has_data t) (s.paused t) ≡ true
      → Outcome (check t) s
      → Returns (m_thread_check_nl t s) (λ _ s'. P s')
  check-cases t s f o =
      let run = check_nl-run t s (ground arith) (ground arith) in
      let s1 = pause_signalled (paused_by t s) in
      elim (Bool-cases s.thread_pause_flag) [
        | inl stop ↦
            returns P _ (asleep t checking s1)
              (run
                ∙ if_true s.thread_pause_flag _ _ stop
                ∙ check_test-run t s1
                ∙ ap (λ x. some (tt, x)) (if_true s.thread_pause_flag _ _ stop))
              (o.0 stop)
        | inr go_on ↦ returns P _ s (run ∙ if_false s.thread_pause_flag _ _ go_on) (o.1 go_on)
      ]

  -- No assertion fails in a consistent state, and the step ends in one of its outcomes.
  pub perform-cases :
      (e : Event) (s : Threads)
      → Consistent s
      → may e s ≡ true
      → Outcome e s
      → Returns (perform e s) (λ _ s'. P s')
  unfolding perform may leave_signal signal_pause put_place thread_register_entry
      thread_key_destructor m_thread_check
  perform-cases (pause t) s c m o =
      let f = fit_at s t running c (ground arith) in
      let s1 = stopping t s in
      returns P _ _ (pause_all-run t s (ground arith) (ground arith) ∙ pause_test-run t s1)
        (choice_by (all_paused s1) _ _ o.0 o.1)
  perform-cases (pause_wake t) s c m o =
      returns P _ _ (pause_test-run t s) (choice_by (all_paused s) _ _ o.0 o.1)
  perform-cases (resume t) s c m o =
      let f = fit_at s t collecting c (ground arith) in
      returns P _ _ (resume_all-run t s (ground arith) (ground arith)) o
  perform-cases (leave t) s c m o =
      let f = fit_at s t running c (ground arith) in
      returns P _ _ (leave-run t s (ground arith) (ground arith)) o
  perform-cases (signal t) s c m o = returns P _ _ refl o
  perform-cases (enter t) s c m o = enter-cases t s (out_of s t c (ground arith)) o
  perform-cases (enter_wake t) s c m o = enter-cases t s (fit_at s t entering c (ground arith)) o
  perform-cases (register t) s c m o = returns P _ _ refl o
  perform-cases (check t) s c m o = check-cases t s (fit_at s t running c (ground arith)) o
  perform-cases (check_wake t) s c m o =
      returns P _ _ (check_test-run t s) (choice_by s.thread_pause_flag _ _ o.0 o.1)
  perform-cases (exit t) s c m o = returns P _ _ refl o
