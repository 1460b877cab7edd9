-- ===== src/Startup.antt =====
-- src/m_startup.c: the order in which the parts start, and stop at the exit of the process.
use ming.Base.{
  refl, Returns, ◌+◌, [], zero, suc, ◌∷◌, modify, true, false, some, List, pure, ◌>>◌,
  if◌then◌else◌, ◌≡◌, Bool, ℕ, Run,
}

pub data Part : Type 0 where
  log_part gc_part thread_part : Part

-- What was called, the latest first.
pub data Call : Type 0 where
  started_up shut_down : Part → Call

-- `once` has run its function; `atexit` has `shutdown` the given number of times.
pub record Process : Type 0 where
  pub once_done : Bool
  pub at_exit : ℕ
  pub calls : List Call

unfoldable pub call : Call → Run Process (Unit {0})
call c s = some (tt, record s { calls = c ∷ s.calls })

unfoldable pub shutdown : Run Process (Unit {0})
unfolding call
shutdown = do call (shut_down thread_part); call (shut_down gc_part); call (shut_down log_part)

unfoldable pub startup : Run Process (Unit {0})
unfolding call
startup = do
  call (started_up log_part)
  call (started_up gc_part)
  call (started_up thread_part)
  modify (λ s. record s { at_exit = s.at_exit + 1 })

-- `pthread_once` of the C library.
unfoldable pub m_startup : Run Process (Unit {0})
unfolding startup
m_startup s = if s.once_done then some (tt, s) else startup (record s { once_done = true })

-- The exit of the process runs what `atexit` was given.
unfoldable pub exit_process : ℕ → Run Process (Unit {0})
unfolding shutdown
exit_process zero = pure tt
exit_process (suc n) = do shutdown; exit_process n

unfoldable pub starts : ℕ → Run Process (Unit {0})
unfolding m_startup
starts zero = pure tt
starts (suc n) = do m_startup; starts n

starts_again : (n : ℕ) (s : Process) → s.once_done ≡ true → starts n s ≡ some (tt, s)
unfolding starts m_startup
starts_again zero s e = refl
starts_again (suc n) s e = simp e (starts_again n s e)

abbrev pub not_started : Process
not_started = record { once_done = false; at_exit = 0; calls = [] }

abbrev after_start : Process
after_start = record {
  once_done = true;
  at_exit = 1;
  calls = started_up thread_part ∷ started_up gc_part ∷ started_up log_part ∷ [];
}

-- A process that calls `m_startup` any number of times, at least once, and exits: each part starts
-- once and stops once, in the opposite order.
pub startup_exit-order :
    (n : ℕ)
    → Returns (starts (suc n) not_started) (λ _ s.
      (s.at_exit ≡ 1)
      × Returns (exit_process s.at_exit s) (λ _ s'.
        s'.calls
        ≡ shut_down log_part
          ∷ shut_down gc_part
          ∷ shut_down thread_part
          ∷ started_up thread_part
          ∷ started_up gc_part
          ∷ started_up log_part
          ∷ []))
unfolding starts m_startup startup shutdown call exit_process
startup_exit-order n =
    (tt, after_start, starts_again n after_start refl, (refl, (tt, _, refl, refl)))
