-- ===== src/Tests/Threads.antt =====
-- Runs of the operations on threads, and of round robin, at concrete inputs.
use argon_rtos.Prelude.{ℕ, ◌≡◌, ◌<◌, refl, some, [], ◌∷◌, ◌==◌, arith, if◌then◌else◌, Returns}
use argon_rtos.Types.{success, running, ready, sleeping, unknown, done}
use argon_rtos.Kernel.{Kernel, Threads}
use argon_rtos.Kernel.Lists.{sort_by_priority, sort_by_wakeup}
use argon_rtos.Kernel.Tick.{milliseconds_to_ticks}
use argon_rtos.Kernel.Scheduler.Turns.{turns}
use argon_rtos.Kernel.Scheduler.Turns.Rotation.{InGroup}
use argon_rtos.Kernel.Scheduler.Turns.Fair.{scheduler-fair}
use argon_rtos.Thread.{delete}
use argon_rtos.Thread.Run.{sleep_current, exit_thread, change_priority}
use argon_rtos.Thread.Consistent.{IsConsistent}
use argon_rtos.Thread.Consistent.Ops.{Moved}
use argon_rtos.Thread.Consistent.Leave.{sleep_current-Moved, exit_thread-Moved}
use argon_rtos.Thread.Consistent.Priority.{Prioritized, change_priority-Prioritized}
use argon_rtos.Thread.Consistent.Delete.{delete-Moved}
use argon_rtos.Tests.Sample.{sample_kernel, sample_threads, sample_thread, sample-IsConsistent}

sleep_current-Moved_example :
    Returns
      (λ k.
        Moved 2 sleeping sample_threads k.threads
        × ((k.threads.thread 2).wakeup_time ≡ milliseconds_to_ticks 5000))
      (sleep_current 2 5000 sample_kernel)
sleep_current-Moved_example =
    sleep_current-Moved 2 1 sample_kernel sample-IsConsistent refl refl (ground arith) 5000

exit_thread-Moved_example :
    Returns (λ k. Moved 2 done sample_threads k.threads) (exit_thread 2 sample_kernel)
exit_thread-Moved_example =
    exit_thread-Moved 2 1 sample_kernel sample-IsConsistent refl refl (ground arith)

change_priority-Prioritized_example :
    Returns
      (λ r. (r.0 ≡ success) × Prioritized 1 15 sample_threads r.1.threads)
      (change_priority 1 15 sample_kernel)
change_priority-Prioritized_example =
    change_priority-Prioritized 1 15 sample_kernel sample-IsConsistent

delete-Moved_example :
    Returns
      (λ r. (r.0 ≡ success) × Moved 5 done sample_threads r.1.threads)
      (delete (some 5) sample_kernel)
delete-Moved_example =
    delete-Moved 5 sample_kernel sample-IsConsistent 1 refl (ground arith) refl (ground arith)
      (λ e. refl)

-- Threads 2, 3 and 4 have one priority, and 3 runs.
abbrev peers : Threads
peers = record {
  ready_list = 2 ∷ 3 ∷ 4 ∷ 1 ∷ [];
  suspended_list = [];
  sleeping_list = [];
  thread = λ t.
      if t == 1
      then sample_thread 0 0 ready
      else if t == 2
      then sample_thread 10 0 ready
      else if t == 3
      then sample_thread 10 0 running
      else if t == 4
      then sample_thread 10 0 ready
      else sample_thread 0 0 unknown;
}

abbrev peer_kernel : Kernel
peer_kernel = record sample_kernel { current_thread = some 3; threads = peers }

peers-IsConsistent : IsConsistent peers
unfolding sort_by_priority sort_by_wakeup
peers-IsConsistent = record {
  shaped = record {
    distinct_ready = (refl, (refl, (refl, (refl, tt))));
    distinct_suspended = tt;
    distinct_sleeping = tt;
    sorted_ready = (refl, (refl, (refl, (tt, tt))));
    sorted_sleeping = tt;
  };
  ready_iff = λ t. ground arith;
  suspended_iff = λ t. ground arith;
  sleeping_waits = λ t m. ground arith;
  sleeping_listed = λ t m. ground arith;
}

peers-InGroup : InGroup 10 (2 ∷ 3 ∷ 4 ∷ []) 3 peer_kernel
peers-InGroup = record {
  has_turn = record {
    consistent = peers-IsConsistent;
    alone = λ u r. ground arith;
    current = refl;
    state = refl;
    stacks = λ t m. (ground arith, ground arith);
  };
  group = record {
    others = 1 ∷ [];
    split = refl;
    equal = (refl, (refl, (refl, tt)));
    less = (omega arith, tt);
  };
}

scheduler-fair_example :
    (n : ℕ) × (n < 3) × Returns (InGroup 10 (2 ∷ 3 ∷ 4 ∷ []) 2) (turns n peer_kernel)
scheduler-fair_example =
    scheduler-fair 10 (2 ∷ 3 ∷ 4 ∷ []) (refl, (refl, (refl, tt))) 3 2 peer_kernel peers-InGroup refl
      refl (ground arith)
