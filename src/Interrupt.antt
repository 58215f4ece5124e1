-- ===== src/Interrupt.antt =====
-- The kernel in its interrupt handlers, and its start: ar_kernel_periodic_timer_isr,
-- ar_kernel_yield_isr, ar_kernel_run_deferred_actions and ar_kernel_run of src/ar_kernel.cpp. In a
-- handler `port.irq_state` is true.
pub mod Commands
pub mod Deferral
pub mod Drain
pub mod Quiet
pub mod Start
pub mod Ticks
pub mod Yield
use argon_rtos.Prelude.{
  ℕ, zero, suc, ◌+◌, ◌-◌, ◌*◌, ◌/◌, Bool, true, false, not, ◌&&◌, ◌||◌, Option, none, some, ◌>>=◌,
  ◌>>◌, List, [], ◌∷◌, ◌==◌, ltb, leb, if◌then◌else◌, u32, get_elem?, update, assert,
}
use argon_rtos.Types.{Status, Thread, no_timeout}
use argon_rtos.Kernel.{
  Kernel, Threads, Port, ActionQueue, ActionEntry, Action, deferred_resume, deferred_suspend,
  deferred_semaphore_get, deferred_semaphore_put, deferred_mutex_get, deferred_mutex_put,
  deferred_queue_send, deferred_channel_send, deferred_timer_start, deferred_timer_stop,
  action_extra_value, idle_thread,
}
use argon_rtos.Kernel.Lock.{service_call, enter_scheduler}
use argon_rtos.Kernel.Lists.{set_priority}
use argon_rtos.Kernel.Tick.{increment_tick_count, milliseconds_per_tick}
use argon_rtos.Kernel.Scheduler.{scheduler, get_microseconds, set_timer_delay}
use argon_rtos.Deferred.{next_index}
use argon_rtos.Thread.{resume_internal, suspend_internal, set_threads, resume}
use argon_rtos.Thread.Create
use argon_rtos.Block.{Outcome, returned, waits}
use argon_rtos.Semaphore
use argon_rtos.Mutex
use argon_rtos.Queue.{send_internal}
use argon_rtos.Channel.{send_receive_internal}
use argon_rtos.Timer.{start_internal, stop_internal}

abbrev pub after : Option (Status × Kernel) → Option Kernel
after r = r >>= λ r. some r.1

-- The kernel that a call leaves that must not wait.
abbrev pub at_once : Option Outcome → Option Kernel
at_once o = o >>= elim [ returned s k ↦ some k | waits k ↦ none ]

-- The deferred action functions. A call with a zero timeout returns at once.
unfoldable pub run_action : Action → (object object2 : ℕ) → Kernel → Option Kernel
run_action deferred_resume t _ k = after (resume_internal t k)
run_action deferred_suspend t _ k = after (suspend_internal t k)
run_action deferred_semaphore_get s _ k = at_once (Semaphore.get_internal s no_timeout k)
run_action deferred_semaphore_put s _ k = at_once (Semaphore.put_internal s k)
run_action deferred_mutex_get m _ k = at_once (Mutex.get_internal m no_timeout k)
run_action deferred_mutex_put m _ k = at_once (Mutex.put_internal m k)
run_action deferred_queue_send q element k = at_once (send_internal q element no_timeout k)
run_action deferred_channel_send c value k =
    at_once (send_receive_internal true c value no_timeout k)
run_action deferred_timer_start t wakeup k = after (start_internal t wakeup k)
run_action deferred_timer_stop t _ k = after (stop_internal t k)
run_action action_extra_value _ _ k = some k

-- One entry of the queue, at index `i`: the entry behind it holds the second argument.
unfoldable pub run_entry : ℕ → Kernel → Option Kernel
run_entry i k = do
  entry ← get_elem? k.deferred_actions.entries i
  second ← get_elem? k.deferred_actions.entries (next_index i)
  run_action entry.action entry.object second.object k

-- The entry at the front leaves the queue: the next one is at index `i`.
unfoldable pub drop_entry : ℕ → ActionQueue → ActionQueue
drop_entry i q = record q { count = q.count - 1; first = i }

-- The loop of ar_kernel_run_deferred_actions at index `i`.
unfoldable pub run_entries : ℕ → ℕ → Kernel → Option Kernel
run_entries zero i k = none
run_entries (suc fuel) i k = elim (k.deferred_actions.count == 0) [
  | true ↦ some k
  | false ↦ do
    k ← run_entry i k
    run_entries fuel (next_index i)
        (record k { deferred_actions = drop_entry (next_index i) k.deferred_actions })
]

-- `ar_kernel_run_deferred_actions`.
unfoldable pub run_deferred_actions : ℕ → Kernel → Option Kernel
unfolding run_entries
run_deferred_actions fuel k = do
  assert (k.lock_count == 0)
  k ← run_entries fuel k.deferred_actions.first (record k { is_running_deferred = true })
  some (record k { is_running_deferred = false })

-- The ticks since the timer was set.
unfoldable pub elapsed_ticks : Kernel → ℕ
elapsed_ticks k = k.port.timer_elapsed_us / (milliseconds_per_tick * 1000)

-- `ar_kernel_periodic_timer_isr`.
unfoldable pub periodic_timer_isr : Kernel → Option Kernel
periodic_timer_isr k =
    if not k.is_running
    then some k
    else if not (k.lock_count == 0)
    then some
        (record k { missed_tick_count = u32 (k.missed_tick_count + 1); needs_reschedule = true })
    else (increment_tick_count (elapsed_ticks k) k >>= λ r.
        some (if r.0 || r.1.needs_round_robin then service_call r.1 else r.1))

-- The stack pointer of the thread that was interrupted, if there is one.
unfoldable pub save_stack_pointer : ℕ → Option ℕ → Threads → Threads
save_stack_pointer sp none l = l
save_stack_pointer sp (some t) l = record l {
  thread = update l.thread t (record (l.thread t) { stack_pointer = sp });
}

-- The ticks that came while the kernel was locked.
unfoldable pub catch_up : Kernel → Option Kernel
catch_up k =
    let missed = k.missed_tick_count in
    let k = record k { missed_tick_count = 0 } in
    if missed == 0 then some k else (increment_tick_count missed k >>= λ r. some r.1)

-- `ar_kernel_yield_isr`: the stack pointer of the thread to run, and the kernel.
unfoldable pub yield_isr : (fuel top_of_stack : ℕ) → Kernel → Option (ℕ × Kernel)
yield_isr fuel top_of_stack k = do
  assert (k.lock_count == 0)
  k ← catch_up (set_threads (save_stack_pointer top_of_stack k.current_thread k.threads) k)
  k ← run_deferred_actions fuel k
  (woken, k) ← increment_tick_count (elapsed_ticks k) k
  k ← scheduler k
  let k = record k { needs_reschedule = false }
  t ← k.current_thread
  some ((k.threads.thread t).stack_pointer, k)

-- The fields that ar_kernel_run sets first.
unfoldable pub init_fields : Kernel → Kernel
init_fields k = record k {
  needs_reschedule = false;
  is_running_deferred = false;
  needs_round_robin = false;
  next_wakeup = 0;
  deferred_actions = record (k.deferred_actions) { count = 0; first = 0; last = 0 };
  last_load_start = get_microseconds k;
  last_switch_in = 0;
  system_load = 0;
}

-- `AR_IDLE_THREAD_STACK_SIZE`.
abbrev pub idle_thread_stack_size : ℕ
idle_thread_stack_size = 200

-- `ar_kernel_run` up to the entry into the scheduler, which does not return. The addresses of
-- ar_thread_wrapper, idle_entry, the idle thread's name and its stack are parameters.
unfoldable pub kernel_run : (wrapper name entry stack : ℕ) → Kernel → Option Kernel
kernel_run wrapper name entry stack k = do
  assert (not (elim k.threads.ready_list [ [] ↦ true | _ ∷ _ ↦ false ]))
  (_, k) ←
      Create.create wrapper name (some entry) 0 stack idle_thread_stack_size 1 false
        (some idle_thread) (init_fields k)
  (_, k) ← resume (some idle_thread) (set_threads (set_priority idle_thread 0 k.threads) k)
  some (enter_scheduler (record (set_timer_delay false 0 k) { is_running = true }))

-- `ar_kernel_is_running` and `ar_get_system_load`.
unfoldable pub is_running : Kernel → Bool
is_running k = k.is_running

unfoldable pub get_system_load : Kernel → ℕ
get_system_load k = k.system_load

-- Whether idle_entry goes on spinning, before it may put the processor to sleep.
unfoldable pub idle_spins : Kernel → Bool
idle_spins k = ltb k.tick_count k.next_wakeup
