-- ===== src/Tests/Mutexes.antt =====
-- Runs of the last put of a mutex, and of a get that has to wait, at concrete inputs.
use argon_rtos.Prelude.{ℕ, ◌≡◌, ◌≢◌, refl, inl, none, some, [], ◌∷◌, arith}
use argon_rtos.Types.{success, ready, infinite_timeout}
use argon_rtos.Kernel.{Kernel}
use argon_rtos.Thread.Consistent.{IsConsistent}
use argon_rtos.Block.{of_mutex, blocked_list, Finishes, Waits}
use argon_rtos.Block.Unblock.{IsBlocked}
use argon_rtos.ArList.Seq
use argon_rtos.Mutex.{get, put}
use argon_rtos.Mutex.Restore.{restored_priority}
use argon_rtos.Mutex.Contended.{Contended, get-Contended}
use argon_rtos.Mutex.Handover.{put-hands_over}
use argon_rtos.Tests.Sample.{sample_kernel, sample_objects, sample-IsConsistent}

-- Thread 2 holds mutex 9, for which thread 5 waits, and its priority was 4.
abbrev contended : Kernel
contended = record sample_kernel {
  objects = record sample_objects {
    mutex = λ m. record {
      name = 0;
      owner = some 2;
      owner_lock_count = 1;
      original_priority = 4;
      blocked_list = 5 ∷ [];
    };
  };
}

contended-IsBlocked : IsBlocked 5 (of_mutex 9) contended
unfolding blocked_list
contended-IsBlocked = record { state = refl; listed = refl; timeout = refl }

put-hands_over_example :
    Finishes
      (λ r k'.
        (r ≡ success)
        × IsConsistent k'.threads
        × (k'.objects.mutex 9 ≡ record (contended.objects.mutex 9) {
          owner = none;
          owner_lock_count = 0;
          original_priority = 0;
          blocked_list = Seq.remove 5 (5 ∷ []);
        })
        × ((k'.threads.thread 2).priority
            ≡ restored_priority (contended.objects.mutex 9) (contended.threads.thread 2))
        × ((k'.threads.thread 5).state ≡ ready)
        × ((k'.threads.thread 5).unblock_status ≡ success)
        × ((u : ℕ) → u ≢ 2 → u ≢ 5 → k'.threads.thread u ≡ contended.threads.thread u))
      (put (some 9) contended)
put-hands_over_example =
    put-hands_over 9 2 5 [] contended refl refl refl refl refl sample-IsConsistent
      contended-IsBlocked (ground arith)

-- Thread 5, which waits for a semaphore with priority 7, holds mutex 9.
abbrev held_by_waiter : Kernel
held_by_waiter = record sample_kernel {
  objects = record sample_objects {
    mutex = λ m. record {
      name = 0;
      owner = some 5;
      owner_lock_count = 1;
      original_priority = 0;
      blocked_list = [];
    };
  };
}

get-Contended_example :
    Waits (Contended 9 5 2 held_by_waiter) (get (some 9) infinite_timeout held_by_waiter)
get-Contended_example =
    get-Contended 9 5 2 infinite_timeout held_by_waiter refl refl refl (ground arith) refl
      (ground arith) sample-IsConsistent refl (inl refl) 1 refl (ground arith) refl (inl refl)
