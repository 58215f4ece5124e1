-- ===== src/Thread/Run.antt =====
-- What the current thread does to itself and to priorities: ar_thread_set_priority,
-- ar_thread_sleep, ar_thread_sleep_until and the end of ar_thread_wrapper, of src/ar_thread.cpp.
use argon_rtos.Prelude.{
  ℕ, ◌+◌, true, not, ◌&&◌, ◌||◌, Option, none, some, ◌>>=◌, ◌==◌, leb, if◌then◌else◌, u32,
}
use argon_rtos.Types.{
  Status, success, invalid_parameter_error, invalid_priority_error, not_from_interrupt_error,
  ThreadState, ready, running, sleeping, done, idle_thread_priority, infinite_timeout,
}
use argon_rtos.Kernel.{Kernel, Threads, idle_thread}
use argon_rtos.Kernel.Lists.{
  set_state, set_priority, set_wakeup_time, ready_add, ready_remove, sleeping_add,
}
use argon_rtos.Kernel.Lock.{lock, unlock, enter_scheduler}
use argon_rtos.Kernel.Tick.{
  update_round_robin, get_millisecond_count, milliseconds_to_ticks, ticks_to_milliseconds,
}
use argon_rtos.Thread.{set_threads, leave, suspend}

-- A thread on the ready list is taken off and added again, by its new priority.
unfoldable pub resort : ThreadState → ℕ → Kernel → Option Kernel
resort ready t k = do
  l ← ready_remove t k.threads
  l ← ready_add t l
  update_round_robin (set_threads l k)
resort running t k = do
  l ← ready_remove t k.threads
  l ← ready_add t l
  update_round_robin (set_threads l k)
resort _ t k = some k

-- The part of ar_thread_set_priority under the lock.
unfoldable pub change_priority : ℕ → ℕ → Kernel → Option (Status × Kernel)
change_priority t priority k = do
  let k = lock k
  let k = set_threads (set_priority t priority k.threads) k
  k ← resort (k.threads.thread t).state t k
  leave success (record k { needs_reschedule = true })

-- `ar_thread_set_priority`.
unfoldable pub set_thread_priority : Option ℕ → ℕ → Kernel → Option (Status × Kernel)
set_thread_priority none priority k = some (invalid_parameter_error, k)
set_thread_priority (some t) priority k =
    if k.port.irq_state
    then some (not_from_interrupt_error, k)
    else if (priority == idle_thread_priority) && not (t == idle_thread)
    then some (invalid_priority_error, k)
    else if priority == (k.threads.thread t).priority
    then some (success, k)
    else change_priority t priority k

-- The lists once thread `c` sleeps until tick `w`.
unfoldable pub put_to_sleep : ℕ → ℕ → Threads → Option Threads
put_to_sleep c w l = do
  l ← ready_remove c (set_wakeup_time c w l)
  sleeping_add c (set_state c sleeping l)

-- The part of ar_thread_sleep_until under the lock.
unfoldable pub sleep_current : ℕ → ℕ → Kernel → Option Kernel
sleep_current c wakeup k = do
  let k = lock k
  l ← put_to_sleep c (milliseconds_to_ticks wakeup) k.threads
  k ← update_round_robin (set_threads l k)
  unlock (record k { needs_reschedule = true })

-- `ar_thread_sleep_until`.
unfoldable pub sleep_until : ℕ → Kernel → Option Kernel
sleep_until wakeup k =
    if k.port.irq_state || leb wakeup (get_millisecond_count k)
    then some k
    else elim k.current_thread [ none ↦ some k | some c ↦ sleep_current c wakeup k ]

-- `ar_thread_sleep`.
unfoldable pub sleep : ℕ → Kernel → Option Kernel
sleep milliseconds k =
    if k.port.irq_state || (milliseconds == 0) then some k else elim k.current_thread [
      | none ↦ some k
      | some c ↦
          if milliseconds == infinite_timeout
          then (suspend (some c) k >>= λ r. some r.1)
          else sleep_until (u32 (ticks_to_milliseconds k.tick_count + milliseconds)) k
    ]

-- ar_thread_wrapper once the entry point has returned.
unfoldable pub exit_thread : ℕ → Kernel → Option Kernel
exit_thread t k = do
  let k = lock k
  l ← ready_remove t k.threads
  k ← update_round_robin (set_threads l k)
  k ← unlock (set_threads (set_state t done k.threads) k)
  some (enter_scheduler k)

-- `ar_thread_wrapper`. `call f param` is the effect of the entry point at address `f`.
unfoldable pub thread_wrapper :
    ((f param : ℕ) → Kernel → Option Kernel) → (t param : ℕ) → Kernel → Option Kernel
unfolding exit_thread
thread_wrapper call t param k = do
  k ← elim (k.threads.thread t).entry [ none ↦ some k | some f ↦ call f param k ]
  exit_thread t k
