-- ===== src/Thread.antt =====
-- The operations of src/ar_thread.cpp on threads, with ar_port_prepare_stack of
-- src/cortex_m/ar_port.cpp. A result `none` is a failed assertion or a use of a NULL pointer.
pub mod Consistent
pub mod Create
pub mod Keeps
pub mod Run
pub mod Report
use argon_rtos.Prelude.{
  ℕ, ◌+◌, ◌-◌, ◌*◌, ◌/◌, ◌%◌, ◌^◌, ◌≡◌, Bool, true, false, not, ◌&&◌, ◌||◌, Option, none, some,
  ◌>>=◌, ◌>>◌, List, ◌==◌, ltb, leb, if◌then◌else◌, u32, assert, update,
}
use argon_rtos.Types.{
  Status, success, invalid_parameter_error, invalid_priority_error, stack_size_too_small_error,
  not_from_interrupt_error, invalid_state_error, Thread, ThreadState, unknown, suspended, ready,
  running, blocked, sleeping, done, min_thread_priority, idle_thread_priority, infinite_timeout,
}
use argon_rtos.Kernel.{
  Kernel, Threads, Objects, idle_thread, Action, deferred_resume, deferred_suspend,
}
use argon_rtos.Kernel.Lists.{
  set_state, set_priority, set_wakeup_time, ready_add, ready_remove, suspended_add,
  suspended_remove, sleeping_add, sleeping_remove,
}
use argon_rtos.Kernel.Lock.{lock, unlock, enter_scheduler}
use argon_rtos.Kernel.Tick.{
  update_round_robin, get_millisecond_count, milliseconds_to_ticks, ticks_to_milliseconds,
}
use argon_rtos.Kernel.Scheduler.{is_thread, stack_check_value}
use argon_rtos.Deferred.{post}

-- `sizeof(ThreadContext)`.
abbrev pub thread_context_size : ℕ
thread_context_size = 64

-- The priority of the current thread, as a comparison reads it. Before the scheduler has run for the
-- first time there is none: the code reads through NULL, and what the processor reads there is a
-- parameter.
unfoldable pub current_priority : Kernel → ℕ
current_priority k = elim k.current_thread [
  | none ↦ k.port.null_priority
  | some c ↦ (k.threads.thread c).priority
]

abbrev pub set_threads : Threads → Kernel → Kernel
set_threads l k = record k { threads = l }

abbrev pub request_reschedule : Bool → Kernel → Kernel
request_reschedule b k = if b then record k { needs_reschedule = true } else k

-- The end of a block under `KernelLock` that returns a status.
abbrev pub leave : Status → Kernel → Option (Status × Kernel)
leave s k = do k ← unlock k; some (s, k)

-- The main node of a thread leaves the list that its state names, to be resumed. From any other
-- state there is no list to leave.
unfoldable pub resume_from : ThreadState → ℕ → Threads → Option Threads
resume_from suspended t l = suspended_remove t l
resume_from sleeping t l = sleeping_remove t l
resume_from _ t l = none

-- The thread goes to the ready list.
unfoldable pub make_ready : ℕ → Threads → Option Threads
make_ready t l = ready_add t (set_state t ready l)

-- The part of ar_thread_resume_internal behind its switch.
unfoldable pub resume_moved : ℕ → Kernel → Option (Status × Kernel)
resume_moved t k = do
  l ← resume_from (k.threads.thread t).state t k.threads
  l ← make_ready t l
  k ← update_round_robin (set_threads l k)
  leave success (request_reschedule (ltb (current_priority k) (k.threads.thread t).priority) k)

-- `ar_thread_resume_internal`.
unfoldable pub resume_internal : ℕ → Kernel → Option (Status × Kernel)
resume_internal t k =
    let k = lock k in
    elim (k.threads.thread t).state [
      | ready ↦ leave success k
      | running ↦ leave success k
      | suspended ↦ resume_moved t k
      | sleeping ↦ resume_moved t k
      | _ ↦ leave invalid_state_error k
    ]

-- `ar_thread_resume`.
unfoldable pub resume : Option ℕ → Kernel → Option (Status × Kernel)
resume none k = some (invalid_parameter_error, k)
resume (some t) k =
    let go = if k.port.irq_state then post deferred_resume t k else resume_internal t k in
    elim (k.threads.thread t).state [
      | ready ↦ some (success, k)
      | running ↦ some (success, k)
      | suspended ↦ go
      | sleeping ↦ go
      | _ ↦ some (invalid_state_error, k)
    ]

-- The thread goes to the suspended list.
unfoldable pub make_suspended : ℕ → Threads → Option Threads
make_suspended t l = suspended_add t (set_state t suspended l)

-- The end of ar_thread_suspend_internal: the scheduler is to run if the thread is the current one.
unfoldable pub suspend_moved : ℕ → Kernel → Option (Status × Kernel)
suspend_moved t k = do
  l ← make_suspended t k.threads
  let k = set_threads l k
  leave success (request_reschedule (is_thread k.current_thread t) k)

unfoldable pub suspend_ready : ℕ → Kernel → Option (Status × Kernel)
suspend_ready t k = do
  l ← ready_remove t k.threads
  k ← update_round_robin (set_threads l k)
  suspend_moved t k

unfoldable pub suspend_sleeping : ℕ → Kernel → Option (Status × Kernel)
suspend_sleeping t k = do l ← sleeping_remove t k.threads; suspend_moved t (set_threads l k)

-- `ar_thread_suspend_internal`.
unfoldable pub suspend_internal : ℕ → Kernel → Option (Status × Kernel)
suspend_internal t k =
    let k = lock k in
    elim (k.threads.thread t).state [
      | ready ↦ suspend_ready t k
      | running ↦ suspend_ready t k
      | sleeping ↦ suspend_sleeping t k
      | suspended ↦ leave success k
      | _ ↦ leave invalid_state_error k
    ]

-- `ar_thread_suspend`.
unfoldable pub suspend : Option ℕ → Kernel → Option (Status × Kernel)
suspend none k = some (invalid_parameter_error, k)
suspend (some t) k =
    let go = if k.port.irq_state then post deferred_suspend t k else suspend_internal t k in
    elim (k.threads.thread t).state [
      | suspended ↦ some (success, k)
      | ready ↦ go
      | running ↦ go
      | sleeping ↦ go
      | _ ↦ some (invalid_state_error, k)
    ]

-- The list that ar_thread_delete takes the thread from.
unfoldable pub delete_from : ThreadState → ℕ → Kernel → Option Kernel
delete_from ready t k = ready_remove t k.threads >>= λ l. update_round_robin (set_threads l k)
delete_from running t k = ready_remove t k.threads >>= λ l. update_round_robin (set_threads l k)
delete_from suspended t k = suspended_remove t k.threads >>= λ l. some (set_threads l k)
delete_from blocked t k = sleeping_remove t k.threads >>= λ l. some (set_threads l k)
delete_from sleeping t k = sleeping_remove t k.threads >>= λ l. some (set_threads l k)
delete_from done t k = some k
delete_from unknown t k = none

-- The run loop of a deleted thread is left without a thread.
unfoldable pub clear_run_loop : ℕ → Kernel → Kernel
clear_run_loop t k = elim (k.threads.thread t).run_loop [
  | none ↦ k
  | some r ↦
      let o = k.objects in
      let l = k.threads in
      record k {
        objects = record o {
          run_loop = update o.run_loop r (record (o.run_loop r) { thread = none });
        };
        threads = record l { thread = update l.thread t (record (l.thread t) { run_loop = none }) };
      }
]

-- The part of ar_thread_delete under the lock, for a state other than unknown.
unfoldable pub delete_locked : ℕ → Kernel → Option (Status × Kernel)
delete_locked t k = do
  k ← delete_from (k.threads.thread t).state t k
  let k = set_threads (set_state t done k.threads) k
  leave success (request_reschedule (is_thread k.current_thread t) k)

-- `ar_thread_delete`.
unfoldable pub delete : Option ℕ → Kernel → Option (Status × Kernel)
delete none k = some (invalid_parameter_error, k)
delete (some t) k =
    if k.port.irq_state
    then some (not_from_interrupt_error, k)
    else let k = lock (clear_run_loop t k) in
      elim (k.threads.thread t).state [
        | unknown ↦ leave invalid_state_error k
        | _ ↦ delete_locked t k
      ]
