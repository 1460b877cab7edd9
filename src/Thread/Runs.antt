-- ===== src/Thread/Runs.antt =====
-- The states after the operations of the threads, when their assertions hold.
use ming.Base.{
  Returns, Option, Bool, arith, inr, inl, Bool-cases, refl, ◌==◌, if◌then◌else◌, ◌≡◌, ◌||◌, true,
  some, false, update, ℕ,
}
use ming.Thread.{
  thread_register_data, put_place, signal_pause, broadcast_resume, set_paused, clear_paused,
  get_threads, awaits_resume, m_thread_self, m_thread_pause_all, check_test, m_thread_leave, decr,
  wait_at, m_thread_enter, m_thread_check_nl, incr, m_thread_resume_all, awaits_pause, pause_test,
  Threads, Place, entering, running, leaving, checking, pausing, collecting,
}

-- The thread `t` has paused itself.
abbrev pub paused_by : ℕ → Threads → Threads
paused_by t s = record s {
  paused_thread_num = incr s.paused_thread_num;
  paused = update s.paused t true;
}

abbrev pub resumed_by : ℕ → Threads → Threads
resumed_by t s = record s {
  paused_thread_num = decr s.paused_thread_num;
  paused = update s.paused t false;
  place = update s.place t running;
}

abbrev pub asleep : ℕ → Place → Threads → Threads
asleep t p s = record s { place = update s.place t p; signalled = update s.signalled t false }

abbrev pub stopping : ℕ → Threads → Threads
stopping t s = record (paused_by t s) { thread_pause_flag = true }

abbrev pub collector : ℕ → Threads → Threads
collector t s = record s { place = update s.place t collecting }

abbrev pub pause_signalled : Threads → Threads
pause_signalled s = record s { signalled = λ u. awaits_pause (s.place u) || s.signalled u }

-- After `m_thread_resume_all`; the thread itself waits for nothing.
abbrev pub world_resumed : ℕ → Threads → Threads
world_resumed t s = record (resumed_by t s) {
  thread_pause_flag = false;
  signalled = λ u. awaits_resume (s.place u) || s.signalled u;
}

pub pause_test-run :
    (t : ℕ) (s : Threads)
    → pause_test t s
      ≡ some (tt, if s.thread_num == s.paused_thread_num then collector t s else asleep t pausing s)
unfolding pause_test wait_at
pause_test-run t s = elim (Bool-cases (s.thread_num == s.paused_thread_num)) [
  | inl e ↦ rw e refl
  | inr e ↦ rw e refl
]

module _ (t : ℕ) (s : Threads) where
  pub pause_all-run :
      s.has_data t ≡ true
      → s.paused t ≡ false
      → m_thread_pause_all t s ≡ pause_test t (stopping t s)
  unfolding m_thread_pause_all m_thread_self get_threads set_paused
  pause_all-run d p = simp (d, p) refl

  pub resume_all-run :
      s.has_data t ≡ true
      → s.paused t ≡ true
      → m_thread_resume_all t s ≡ some (tt, world_resumed t s)
  unfolding m_thread_resume_all m_thread_self get_threads clear_paused broadcast_resume put_place
  resume_all-run d p = simp (d, p) refl

  pub leave-run :
      s.has_data t ≡ true
      → s.paused t ≡ false
      → m_thread_leave t s ≡ some (tt, record (paused_by t s) { place = update s.place t leaving })
  unfolding m_thread_leave m_thread_self get_threads set_paused put_place
  leave-run d p = simp (d, p) refl

  pub enter-run :
      (s.has_data t ≡ true → s.paused t ≡ true)
      → m_thread_enter t s ≡ (
          if s.thread_pause_flag
          then some (tt, asleep t entering s)
          else if s.has_data t
          then some (tt, resumed_by t s)
          else thread_register_data t s)
  unfolding m_thread_enter get_threads wait_at clear_paused put_place
  enter-run p = elim (Bool-cases s.thread_pause_flag) [
    | inl stop ↦ simp stop refl
    | inr go_on ↦ elim (Bool-cases (s.has_data t)) [
      | inl known ↦ simp (go_on, known, p known) refl
      | inr new ↦ simp (go_on, new) refl
    ]
  ]

  pub check_test-run :
      check_test t s
      ≡ some (tt, if s.thread_pause_flag then asleep t checking s else resumed_by t s)
  unfolding check_test get_threads wait_at clear_paused put_place
  check_test-run = elim (Bool-cases s.thread_pause_flag) [
    | inl stop ↦ simp stop refl
    | inr go_on ↦ simp go_on refl
  ]

  pub check_nl-run :
      s.has_data t ≡ true
      → s.paused t ≡ false
      → m_thread_check_nl t s ≡ (
          if s.thread_pause_flag
          then check_test t (pause_signalled (paused_by t s))
          else some (tt, s))
  unfolding m_thread_check_nl m_thread_self get_threads set_paused signal_pause
  check_nl-run d p = elim (Bool-cases s.thread_pause_flag) [
    | inl stop ↦ ground (arith, d, p, stop)
    | inr go_on ↦ ground (arith, d, p, go_on)
  ]

-- Results by cases.
pub returns :
    (P : Threads → Type 0) (r : Option (Unit {0} × Threads)) (s : Threads)
    → r ≡ some (tt, s)
    → P s
    → Returns r (λ _ s'. P s')
returns P r s e h = (tt, s, e, h)

pub choice :
    (P : Threads → Type 0) (b : Bool) (s s' : Threads) → P s → P s' → P (if b then s else s')
choice P true s s' h k = h
choice P false s s' h k = k

pub if_true : {A : Type 0} (b : Bool) (x y : A) → b ≡ true → (if b then x else y) ≡ x
if_true b x y e = rw e refl

pub if_false : {A : Type 0} (b : Bool) (x y : A) → b ≡ false → (if b then x else y) ≡ y
if_false b x y e = rw e refl
