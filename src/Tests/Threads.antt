-- ===== src/Tests/Threads.antt =====
-- One thread that starts, and a second one that enters.
use ming.Base.{
  ◌>>◌, ◌==◌, arith, ◌∷◌, ◌⊎◌, false, true, Bool, List, ◌≡◌, ℕ, [], update, refl, Returns,
}
use ming.Startup.{
  started_up, thread_part, gc_part, log_part, shut_down, startup_exit-order, starts, not_started,
  exit_process,
}
use ming.Thread.{
  wait_at, put_place, pause_test, set_paused, get_threads, thread_register_entry, m_thread_self,
  m_thread_pause_all, m_thread_leave, thread_key_destructor, thread_register_data, at,
  m_thread_startup, m_thread_enter, Threads, absent, running, leaving, pausing, collecting,
}
use ming.Thread.Step.{
  pause, pause_wake, leave, signal, enter, register, perform, may, Blank, Reachable, started,
}
use ming.Thread.Invariant.{Consistent}
use ming.Thread.Keeps.{perform-Consistent}
use ming.Thread.Cases.{data_added, registered, all_paused}
use ming.Thread.Runs.{collector, stopping, asleep, paused_by}
use ming.Thread.Reach.{Paths-Reachable, begins, goes, after_startup, Reachable-Consistent}
use ming.Thread.Wake.{stops}
use ming.Thread.Liveness.{orderly, Orderly}
use ming.Thread.Stop.{Careful, stop_the_world}
use ming.Thread.Entry.{register-breaks_in}
use ming.Thread.Progress.{pause_all-progress, key_destructor-lost_wakeup}
use ming.Thread.Actor.{
  create_all-shutdown, create_all, no_actors, m_thread_shutdown, started_nodes, times, nodes,
  thread_entry,
}

abbrev nobody : Threads
nobody = record {
  thread_list = [];
  has_data = λ _. false;
  paused = λ _. false;
  thread_num = 0;
  paused_thread_num = 0;
  thread_pause_flag = false;
  place = λ _. absent;
  signalled = λ _. false;
}

nobody-Blank : Blank nobody
nobody-Blank = record { no_data = λ t. refl; nowhere = λ t. refl }

abbrev main_only : Threads
main_only = after_startup 1 nobody

main_only-Reachable : Reachable main_only
unfolding m_thread_startup
main_only-Reachable = started nobody 1 main_only nobody-Blank refl

main_leaves : may (leave 1) main_only ≡ true
unfolding may
main_leaves = refl

perform-Consistent_example : Returns (perform (leave 1) main_only) (λ _ s. Consistent s)
perform-Consistent_example =
    perform-Consistent (leave 1) main_only (Reachable-Consistent main_only main_only-Reachable)
      main_leaves

-- The first thread collects alone.
abbrev main_collects : Threads
main_collects = collector 1 (stopping 1 main_only)

main_collects-Careful : Careful main_collects
unfolding m_thread_startup may perform m_thread_pause_all m_thread_self get_threads set_paused
    pause_test
main_collects-Careful =
    goes (pause 1) main_only main_collects (begins nobody 1 main_only nobody-Blank refl) refl tt
      refl (omega arith)

stop_the_world_example :
    (at (main_collects.place 2) running ≡ false)
    × ((2 == 1) ≡ false → stops (main_collects.place 2) ≡ false)
stop_the_world_example = stop_the_world main_collects 1 main_collects-Careful refl 2

-- The second thread is between the test of the flag and the lock when the first one collects.
abbrev second_between : Threads
second_between = data_added 2 main_only

register-breaks_in_example :
    Returns
      ((m_thread_enter 2 >> (m_thread_pause_all 1 >> thread_register_entry 2)) main_only)
      (λ _ s. Reachable s × (at (s.place 1) collecting ≡ true) × (at (s.place 2) running ≡ true))
register-breaks_in_example =
    register-breaks_in main_only 2 1 main_only-Reachable refl refl refl refl

-- The first thread waits for the second.
abbrev two : Threads
two = registered 2 second_between

abbrev first_waits : Threads
first_waits = asleep 1 pausing (stopping 1 two)

abbrev second_leaves : Threads
second_leaves = record (paused_by 2 first_waits) { place = update first_waits.place 2 leaving }

first_waits-Orderly : Orderly first_waits
unfolding m_thread_startup may orderly perform m_thread_enter thread_register_data
    thread_register_entry m_thread_pause_all m_thread_self get_threads set_paused pause_test wait_at
first_waits-Orderly =
    goes (pause 1) two first_waits
      (goes (register 2) second_between two
        (goes (enter 2) main_only second_between (begins nobody 1 main_only nobody-Blank refl) refl
          refl refl (omega arith))
        refl refl refl (omega arith))
      refl refl refl (omega arith)

second_leaves-Orderly : Orderly second_leaves
unfolding may orderly perform m_thread_leave m_thread_self get_threads set_paused put_place
second_leaves-Orderly =
    goes (leave 2) first_waits second_leaves first_waits-Orderly refl refl refl (omega arith)

pause_all-progress_example :
    ((second_leaves.signalled 1 ≡ true)
      ⊎ ((u : ℕ) × (may (signal u) second_leaves ≡ true)
          × Returns (perform (signal u) second_leaves) (λ _ s'.
            (s'.signalled 1 ≡ true) × (at (s'.place 1) pausing ≡ true) × (all_paused s' ≡ true))))
    × Returns (perform (pause_wake 1) second_leaves) (λ _ s'. at (s'.place 1) collecting ≡ true)
pause_all-progress_example = pause_all-progress second_leaves 1 second_leaves-Orderly refl refl

nobody_leaves : (u : ℕ) → at (first_waits.place u) leaving ≡ false
nobody_leaves u = ground arith

key_destructor-lost_wakeup_example : Returns (thread_key_destructor 2 first_waits) (λ _ s'.
    (all_paused s' ≡ true)
    × (at (s'.place 1) pausing ≡ true)
    × (s'.signalled 1 ≡ false)
    × ((u : ℕ) → at (s'.place u) leaving ≡ false))
key_destructor-lost_wakeup_example =
    key_destructor-lost_wakeup first_waits 1 2
      (Reachable-Consistent first_waits (Paths-Reachable _ first_waits first_waits-Orderly)) refl
      refl refl refl nobody_leaves

-- Four calls of `m_thread_create`: two threads, a failed allocation and a failed creation.
abbrev four_calls : List (ℕ × Bool)
four_calls = (8, false) ∷ (0, false) ∷ (16, true) ∷ (24, false) ∷ []

create_all-shutdown_example : Returns (create_all four_calls no_actors) (λ _ s.
    Returns (m_thread_shutdown s) (λ _ s'.
      ((a : ℕ) → times a s'.freed ≡ times a (nodes four_calls))
      × ((a : ℕ) → times a s'.joined ≡ times a (started_nodes four_calls))
      × (thread_entry s' ≡ true)))
create_all-shutdown_example = create_all-shutdown four_calls

startup_exit-order_example : Returns (starts 3 not_started) (λ _ s.
    (s.at_exit ≡ 1)
    × Returns (exit_process s.at_exit s) (λ _ s'.
      s'.calls
      ≡ shut_down log_part
        ∷ shut_down gc_part
        ∷ shut_down thread_part
        ∷ started_up thread_part
        ∷ started_up gc_part
        ∷ started_up log_part
        ∷ []))
startup_exit-order_example = startup_exit-order 2
