-- ===== src/Tests.antt =====
-- Runs of the development at concrete inputs.
pub mod Classes
pub mod Sample
mod Lists
mod Mutexes
mod Interrupts
mod Threads
mod RunLoops
use argon_rtos.Prelude.{
  ℕ, ◌≡◌, ◌≢◌, ◌≤◌, refl, Bool, true, false, Option, none, some, List, [], ◌∷◌, ◌==◌, has, arith,
  u32, ltb, Returns, inr, inl, if◌then◌else◌, update,
}
use argon_rtos.Types.{Status, success, running, ready, suspended}
use argon_rtos.Kernel.{Kernel}
use argon_rtos.Kernel.Tick.{increment_tick_count, milliseconds_to_ticks}
use argon_rtos.Kernel.Tick.Wake.{Woken}
use argon_rtos.Kernel.Tick.Increment.{increment_tick_count-wakes_one, at_time}
use argon_rtos.Kernel.Scheduler.{scheduler}
use argon_rtos.Kernel.Scheduler.Choice.{IsHighest}
use argon_rtos.Kernel.Scheduler.Preempt.{Runs}
use argon_rtos.Kernel.Scheduler.Switch.{scheduler-Runs}
use argon_rtos.Thread.{resume_internal, suspend_internal}
use argon_rtos.Thread.Consistent.Ops.{Moved}
use argon_rtos.Thread.Consistent.Resume.{resume_internal-Moved}
use argon_rtos.Thread.Consistent.Suspend.{suspend_internal-Moved}
use argon_rtos.Thread.Consistent.{IsConsistent}
use argon_rtos.Block.{of_semaphore, unblock_with_status, Finishes}
use argon_rtos.Block.Unblock.{Unblocked, unblock_with_status-Unblocked}
use argon_rtos.Semaphore
use argon_rtos.Mutex
use argon_rtos.Block.{block, blocked_list}
use argon_rtos.Block.Enter.{Blocks, block-Blocks}
use argon_rtos.Kernel.Lock.{lock}
use argon_rtos.Mutex.Held.{held_by}
use argon_rtos.Mutex.Nested.{get-put}
use argon_rtos.Semaphore.Put.{put-wakes_head, put-get}
use argon_rtos.Queue.{send, receive}
use argon_rtos.Queue.Contents.{IsQueue, contents}
use argon_rtos.Queue.Fifo.{send-appends, receive-takes}
use argon_rtos.Kernel.Scheduler.{stack_check_value}
use argon_rtos.ArList.Nodes
use argon_rtos.ArList.Nodes.{Links, ArList}
use argon_rtos.ArList.Nodes.Ring.{IsRing, IsFree}
use argon_rtos.ArList.Nodes.Search.{SameOutside}
use argon_rtos.ArList.Nodes.Add.{add_refines}
use argon_rtos.ArList.Nodes.Remove.{remove_refines}
use argon_rtos.ArList.Seq
use argon_rtos.Tests.Sample.{
  sample_kernel, sample_threads, sample-IsConsistent, sample_store, sample_objects,
  sample-IsBlocked, sample-IsQueue,
}

scheduler-Runs_example :
    Returns
      (λ k. (t : ℕ) × IsHighest sample_threads t × Runs t sample_kernel k)
      (scheduler sample_kernel)
scheduler-Runs_example =
    scheduler-Runs sample_kernel sample-IsConsistent (λ u r. ground arith) 2 refl
      (λ t m. (ground arith, ground arith))

resume_internal-Moved_example :
    Returns
      (λ r. (r.0 ≡ success) × Moved 3 ready sample_threads r.1.threads)
      (resume_internal 3 sample_kernel)
resume_internal-Moved_example = resume_internal-Moved 3 sample_kernel sample-IsConsistent

suspend_internal-Moved_example :
    Returns
      (λ r. (r.0 ≡ success) × Moved 2 suspended sample_threads r.1.threads)
      (suspend_internal 2 sample_kernel)
suspend_internal-Moved_example =
    suspend_internal-Moved 2 sample_kernel sample-IsConsistent 1 refl (ground arith)

increment_tick_count-wakes_one_example :
    Returns
      (λ r.
        (r.0 ≡ true)
        × Woken 4 (at_time 250 sample_kernel) r.1
        × (r.1.threads.sleeping_list ≡ 5 ∷ []))
      (increment_tick_count 160 sample_kernel)
increment_tick_count-wakes_one_example =
    increment_tick_count-wakes_one 160 4 (5 ∷ []) sample_kernel sample-IsConsistent refl
      (omega arith) (omega arith)

unblock_with_status-Unblocked_example :
    Returns
      (Unblocked 5 (of_semaphore 7) success sample_kernel)
      (unblock_with_status 5 (of_semaphore 7) success sample_kernel)
unblock_with_status-Unblocked_example =
    unblock_with_status-Unblocked 5 (of_semaphore 7) success sample_kernel sample-IsConsistent
      sample-IsBlocked

put-wakes_head_example :
    Finishes
      (λ r k.
        (r ≡ success)
        × IsConsistent k.threads
        × ((k.threads.thread 5).state ≡ ready)
        × ((k.threads.thread 5).unblock_status ≡ success)
        × ((u : ℕ) → u ≢ 5 → k.threads.thread u ≡ sample_store u)
        × ((k.objects.semaphore 7).count ≡ 1)
        × ((k.objects.semaphore 7).blocked_list ≡ Seq.remove 5 (5 ∷ [])))
      (Semaphore.put (some 7) sample_kernel)
put-wakes_head_example =
    put-wakes_head 7 sample_kernel refl 5 [] refl sample-IsConsistent sample-IsBlocked

put-get_example :
    Finishes
      (λ r k.
        (r ≡ success)
        × Finishes
            (λ r' k'.
              (r' ≡ success)
              × (k'.objects.semaphore 8 ≡ sample_objects.semaphore 8)
              × (k'.threads ≡ sample_threads))
            (Semaphore.get (some 8) 10 k))
      (Semaphore.put (some 8) sample_kernel)
put-get_example = put-get 8 sample_kernel refl 10 refl (omega arith)

send-appends_example :
    Finishes
      (λ s k.
        (s ≡ success)
        × IsQueue (k.objects.queue 9)
        × (contents (k.objects.queue 9) ≡ some 0 ∷ some 50 ∷ [])
        × (k.threads ≡ sample_threads))
      (send (some 9) (some 50) 0 sample_kernel)
send-appends_example = send-appends 9 50 0 sample_kernel refl sample-IsQueue (omega arith) refl refl

receive-takes_example :
    Finishes
      (λ s k.
        (s ≡ success)
        × IsQueue (k.objects.queue 9)
        × (some 0 ∷ [] ≡ some (k.objects.memory 50) ∷ contents (k.objects.queue 9))
        × (k.threads ≡ sample_threads))
      (receive (some 9) (some 50) 0 sample_kernel)
receive-takes_example = receive-takes 9 50 0 sample_kernel refl sample-IsQueue (omega arith) refl

get-put_example :
    Finishes
      (λ r k.
        (r ≡ success)
        × (k.objects.mutex 6 ≡ held_by 2 (sample_objects.mutex 6))
        × Finishes
            (λ r' k'.
              (r' ≡ success)
              × (k'.objects.mutex 6 ≡ sample_objects.mutex 6)
              × (k'.threads ≡ sample_threads))
            (Mutex.put (some 6) k))
      (Mutex.get (some 6) 0 sample_kernel)
get-put_example = get-put 6 2 0 sample_kernel refl refl (inl (refl, refl)) (omega arith) refl refl

block-Blocks_example :
    Returns
      (Blocks 2 (of_semaphore 7) (lock sample_kernel))
      (block 2 (of_semaphore 7) 50 (lock sample_kernel))
unfolding lock blocked_list milliseconds_to_ticks
block-Blocks_example =
    block-Blocks 2 (of_semaphore 7) 50 (lock sample_kernel) sample-IsConsistent refl 1 refl
      (omega arith) refl (omega arith) refl (inr (omega arith))
