-- ===== src/Thread.antt =====
-- src/m_thread.c and include/m_thread.h: the threads, and how one of them stops the others for a
-- collection. The steps of the threads are in Thread.Step.
pub mod Count
pub mod Step
pub mod Actor
pub mod Invariant
pub mod Runs
pub mod Keeps
pub mod Cases
pub mod Reach
pub mod World
pub mod Stop
pub mod Entry
pub mod Wake
pub mod Liveness
pub mod Progress
use ming.Base.{
  pure, negsuc, none, [], not, ◌-◌, zero, pos, suc, true, assert, modify, ◌%◌, ◌^◌, update, ◌==◌,
  ◌++◌, ◌||◌, Option, some, ◌>>◌, ◌∷◌, false, ◌>>=◌, ◌+◌, if◌then◌else◌, Bool, Run, List, ℕ,
}

-- Where a thread is: with no thread data (`absent`); out of the ming environment; in the loop of
-- `m_thread_enter`; in `thread_register`, before the lock; in the ming environment; in
-- `m_thread_leave`, before the signal; in the loop of `m_thread_check_nl`; in the loop of
-- `m_thread_pause_all`; between `m_thread_pause_all` and `m_thread_resume_all`.
pub data Place : Type 0 where
  absent outside entering registering running leaving checking pausing collecting : Place

-- The thread data is known by its thread. `has_data` is whether `pthread_getspecific` gives it,
-- `paused` is the flag `M_THREAD_FL_PAUSED`, and `signalled` says which threads, waiting on a condition
-- variable, may go on. `m_gc_lock` is free between two steps: who holds it longer waits, which
-- releases it, or collects, for which `gc_collect_objs` releases it.
pub record Threads : Type 0 where
  pub thread_list : List ℕ
  pub has_data : ℕ → Bool
  pub paused : ℕ → Bool
  pub thread_num : ℕ  -- uint32_t
  pub paused_thread_num : ℕ  -- uint32_t
  pub thread_pause_flag : Bool
  pub place : ℕ → Place
  pub signalled : ℕ → Bool

abbrev pub incr : ℕ → ℕ
incr n = (n + 1) % 2 ^ 32

abbrev pub decr : ℕ → ℕ
decr n = (n + 2 ^ 32 - 1) % 2 ^ 32

-- `m_list_remove` of the thread's node.
abbrev pub without : ℕ → List ℕ → List ℕ
without t [] = []
without t (u ∷ us) = if t == u then us else u ∷ without t us

abbrev pub place_num : Place → ℕ
place_num absent = 0
place_num outside = 1
place_num entering = 2
place_num registering = 3
place_num running = 4
place_num leaving = 5
place_num checking = 6
place_num pausing = 7
place_num collecting = 8

abbrev pub at : Place → Place → Bool
at p q = place_num p == place_num q

abbrev pub awaits_resume : Place → Bool
awaits_resume p = at p entering || at p checking

abbrev pub awaits_pause : Place → Bool
awaits_pause p = at p pausing

unfoldable pub get_threads : Run Threads Threads
get_threads s = some (s, s)

unfoldable pub put_place : ℕ → Place → Run Threads (Unit {0})
put_place self p s = some (tt, record s { place = update s.place self p })

-- `pthread_cond_wait`: the thread sleeps at the place `p`.
unfoldable pub wait_at : ℕ → Place → Run Threads (Unit {0})
wait_at self p s =
    some (tt, record s { place = update s.place self p; signalled = update s.signalled self false })

-- `pthread_cond_broadcast(&thread_resume_cond)`
unfoldable pub broadcast_resume : Run Threads (Unit {0})
broadcast_resume s =
    some (tt, record s { signalled = λ t. awaits_resume (s.place t) || s.signalled t })

-- `pthread_cond_signal(&thread_pause_cond)`, which at most one thread waits on.
unfoldable pub signal_pause : Run Threads (Unit {0})
signal_pause s = some (tt, record s { signalled = λ t. awaits_pause (s.place t) || s.signalled t })

-- `m_paused_thread_num ++; th->flags |= M_THREAD_FL_PAUSED`
unfoldable pub set_paused : ℕ → Run Threads (Unit {0})
set_paused self s = some (
  tt,
  record s { paused_thread_num = incr s.paused_thread_num; paused = update s.paused self true },
)

-- `m_paused_thread_num --; th->flags &= ~M_THREAD_FL_PAUSED`
unfoldable pub clear_paused : ℕ → Run Threads (Unit {0})
clear_paused self s = some (
  tt,
  record s { paused_thread_num = decr s.paused_thread_num; paused = update s.paused self false },
)

unfoldable pub m_thread_self : ℕ → Run Threads (Unit {0})
unfolding get_threads
m_thread_self self = do s ← get_threads; assert (s.has_data self)

-- `thread_key_destructor`. The buffers that it frees are not modelled.
unfoldable pub thread_key_destructor : ℕ → Run Threads (Unit {0})
thread_key_destructor self s = some (
  tt,
  record s {
    thread_list = without self s.thread_list;
    thread_num = decr s.thread_num;
    paused_thread_num = if s.paused self then decr s.paused_thread_num else s.paused_thread_num;
    has_data = update s.has_data self false;
    place = update s.place self absent;
  },
)

-- `thread_register` up to the lock, and from there.
unfoldable pub thread_register_data : ℕ → Run Threads (Unit {0})
thread_register_data self s = some (
  tt,
  record s {
    paused = update s.paused self false;
    has_data = update s.has_data self true;
    place = update s.place self registering;
  },
)

unfoldable pub thread_register_entry : ℕ → Run Threads (Unit {0})
thread_register_entry self s = some (
  tt,
  record s {
    thread_num = incr s.thread_num;
    thread_list = s.thread_list ++ self ∷ [];
    place = update s.place self running;
  },
)

-- The test of the loop of `m_thread_pause_all`: on to the collection, or to sleep.
unfoldable pub pause_test : ℕ → Run Threads (Unit {0})
unfolding wait_at
pause_test self s =
    if s.thread_num == s.paused_thread_num
    then some (tt, record s { place = update s.place self collecting })
    else wait_at self pausing s

unfoldable pub m_thread_pause_all : ℕ → Run Threads (Unit {0})
unfolding m_thread_self get_threads set_paused pause_test
m_thread_pause_all self = do
  m_thread_self self
  s ← get_threads
  assert (not (s.paused self))
  modify (λ u. record u { thread_pause_flag = true })
  set_paused self
  pause_test self

unfoldable pub m_thread_resume_all : ℕ → Run Threads (Unit {0})
unfolding m_thread_self get_threads clear_paused broadcast_resume put_place
m_thread_resume_all self = do
  m_thread_self self
  s ← get_threads
  assert (s.paused self)
  modify (λ u. record u { thread_pause_flag = false })
  clear_paused self
  broadcast_resume
  put_place self running

-- `m_thread_leave` up to the signal, and the signal.
unfoldable pub m_thread_leave : ℕ → Run Threads (Unit {0})
unfolding m_thread_self get_threads set_paused put_place
m_thread_leave self = do
  m_thread_self self
  s ← get_threads
  assert (not (s.paused self))
  set_paused self
  put_place self leaving

unfoldable pub leave_signal : ℕ → Run Threads (Unit {0})
unfolding signal_pause put_place
leave_signal self = do signal_pause; put_place self outside

-- `m_thread_enter`, from one test of its loop to the next.
unfoldable pub m_thread_enter : ℕ → Run Threads (Unit {0})
unfolding get_threads wait_at thread_register_data clear_paused put_place
m_thread_enter self = do
  s ← get_threads
  if s.thread_pause_flag
      then wait_at self entering
      else if s.has_data self
      then (do assert (s.paused self); clear_paused self; put_place self running)
      else thread_register_data self

-- The test of the loop of `m_thread_check_nl`, and what follows the loop.
unfoldable pub check_test : ℕ → Run Threads (Unit {0})
unfolding get_threads wait_at clear_paused put_place
check_test self = do
  s ← get_threads
  if s.thread_pause_flag
      then wait_at self checking
      else (do clear_paused self; put_place self running)

unfoldable pub m_thread_check_nl : ℕ → Run Threads (Unit {0})
unfolding m_thread_self get_threads set_paused signal_pause check_test
m_thread_check_nl self = do
  m_thread_self self
  s ← get_threads
  assert (not (s.paused self))
  if s.thread_pause_flag then (do set_paused self; signal_pause; check_test self) else pure tt

unfoldable pub m_thread_check : ℕ → Run Threads (Unit {0})
unfolding m_thread_check_nl
m_thread_check self = m_thread_check_nl self

-- `m_thread_startup`, with the calling thread `self` as the first.
unfoldable pub m_thread_startup : ℕ → Run Threads (Unit {0})
unfolding thread_register_data thread_register_entry
m_thread_startup self = do
  modify (λ s. record s {
    thread_num = 0;
    paused_thread_num = 0;
    thread_pause_flag = false;
    thread_list = [];
  })
  thread_register_data self
  thread_register_entry self
