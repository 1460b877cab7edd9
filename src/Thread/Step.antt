-- ===== src/Thread/Step.antt =====
-- The steps of the threads, each from one release of `m_gc_lock` to the next, and the states that
-- they lead to.
use ming.Base.{◌||◌, not, some, true, false, ◌&&◌, Bool, ◌≡◌, Run, ℕ}
use ming.Thread.{
  m_thread_check, checking, registering, entering, outside, leaving, collecting, pausing, running,
  at, thread_key_destructor, check_test, thread_register_entry, m_thread_enter, leave_signal,
  m_thread_leave, absent, m_thread_resume_all, pause_test, m_thread_pause_all, m_thread_startup,
  Threads,
}

-- One step of a thread. The three `…_wake` are the return of a `pthread_cond_wait`, which may come
-- without a signal.
pub data Event : Type 0 where
  pause pause_wake resume leave signal enter enter_wake register check check_wake exit : ℕ → Event

-- `gc_collect_objs` calls `m_thread_pause_all` only if no other thread is at it, and a thread calls
-- `m_thread_enter` only out of the environment. A thread ends in the environment or out of it.
unfoldable pub may : Event → Threads → Bool
may (pause t) s = (not s.thread_pause_flag && at (s.place t) running)
may (pause_wake t) s = at (s.place t) pausing
may (resume t) s = at (s.place t) collecting
may (leave t) s = at (s.place t) running
may (signal t) s = at (s.place t) leaving
may (enter t) s = (at (s.place t) absent || at (s.place t) outside)
may (enter_wake t) s = at (s.place t) entering
may (register t) s = at (s.place t) registering
may (check t) s = at (s.place t) running
may (check_wake t) s = at (s.place t) checking
may (exit t) s = (at (s.place t) running || at (s.place t) outside)

unfoldable pub perform : Event → Run Threads (Unit {0})
perform (pause t) = m_thread_pause_all t
perform (pause_wake t) = pause_test t
perform (resume t) = m_thread_resume_all t
perform (leave t) = m_thread_leave t
perform (signal t) = leave_signal t
perform (enter t) = m_thread_enter t
perform (enter_wake t) = m_thread_enter t
perform (register t) = thread_register_entry t
perform (check t) = m_thread_check t
perform (check_wake t) = check_test t
perform (exit t) = thread_key_destructor t

-- Before the start: no thread has data.
pub record Blank (s : Threads) : Type 0 where
  pub no_data : (t : ℕ) → s.has_data t ≡ false
  pub nowhere : (t : ℕ) → s.place t ≡ absent

-- The states that the threads can reach after `m_thread_startup`.
pub data Reachable : Threads → Type 0 where
  started :
      (s : Threads) (t : ℕ) (s' : Threads)
      → Blank s
      → m_thread_startup t s ≡ some (tt, s')
      → Reachable s'
  step :
      (e : Event) (s s' : Threads)
      → Reachable s
      → may e s ≡ true
      → perform e s ≡ some (tt, s')
      → Reachable s'
