-- ===== src/Kernel/Tick.antt =====
-- Time: the tick count and the threads that it wakes, of src/ar_kernel.cpp, and the conversions of
-- include/argon/ar_kernel.h. The build is the default one, with tickless idle.
pub mod Wake
pub mod Increment
use argon_rtos.Prelude.{
  ℕ, zero, suc, ◌+◌, ◌*◌, ◌/◌, Bool, true, false, ◌||◌, Option, none, some, ◌>>=◌, ◌>>◌, List, [],
  ◌∷◌, ◌==◌, ltb, leb, if◌then◌else◌, u32, length,
}
use argon_rtos.Types.{
  ThreadState, unknown, suspended, ready, running, blocked, sleeping, done, timeout_error,
}
use argon_rtos.Kernel.{Kernel, Threads}
use argon_rtos.Kernel.Lists.{set_state, set_unblock_status, ready_add, sleeping_remove}
use argon_rtos.ArList.Seq

-- `kSchedulerQuanta_ms`.
abbrev pub milliseconds_per_tick : ℕ
milliseconds_per_tick = 10

-- `ar_ticks_to_milliseconds`.
unfoldable pub ticks_to_milliseconds : ℕ → ℕ
ticks_to_milliseconds ticks = u32 (ticks * milliseconds_per_tick)

-- `ar_milliseconds_to_ticks`.
unfoldable pub milliseconds_to_ticks : ℕ → ℕ
milliseconds_to_ticks milliseconds = milliseconds / milliseconds_per_tick

-- `ar_get_tick_count`.
unfoldable pub get_tick_count : Kernel → ℕ
get_tick_count k = u32 (k.tick_count + k.port.timer_elapsed_us / (milliseconds_per_tick * 1000))

-- `ar_get_millisecond_count`.
unfoldable pub get_millisecond_count : Kernel → ℕ
get_millisecond_count k =
    u32 (u32 (k.tick_count * milliseconds_per_tick) + k.port.timer_elapsed_us / 1000)

-- Whether the first two ready threads have the same priority.
unfoldable pub same_priority : Threads → List ℕ → Bool
same_priority l [] = false
same_priority l (a ∷ []) = false
same_priority l (a ∷ b ∷ _) = (l.thread a).priority == (l.thread b).priority

-- `ar_kernel_update_round_robin`: the ready list must not be empty.
unfoldable pub update_round_robin : Kernel → Option Kernel
unfolding same_priority
update_round_robin k = do
  _ ← Seq.head? k.threads.ready_list
  some (record k { needs_round_robin = same_priority k.threads k.threads.ready_list })

-- The actions of ar_kernel_increment_tick_count that depend on the state of a thread whose time has
-- come. A thread in another state than these two halts the processor.
unfoldable pub time_out : ℕ → ThreadState → Threads → Option Threads
time_out t sleeping l = some l
time_out t blocked l = some (set_unblock_status t timeout_error l)
time_out t _ l = none

-- A thread whose time has come goes to the ready list.
unfoldable pub wake : ℕ → Kernel → Option Kernel
unfolding time_out
wake t k = do
  l ← time_out t (k.threads.thread t).state k.threads
  l ← sleeping_remove t l
  l ← ready_add t (set_state t ready l)
  update_round_robin (record k { threads = l })

-- Whether the loop goes on: the list is not empty, and the next node is not its head.
unfoldable pub goes_on : Option ℕ → List ℕ → Bool
goes_on following [] = false
goes_on none (x ∷ xs) = true
goes_on (some following) (x ∷ xs) = if following == x then false else true

-- The loop of ar_kernel_increment_tick_count at a node. The flag is `wasThreadWoken`.
unfoldable pub wake_from : ℕ → Option ℕ → Bool → Kernel → Option (Bool × Kernel)
wake_from zero at woken k = none
wake_from (suc fuel) at woken k = do
  t ← at
  elim (leb (k.threads.thread t).wakeup_time k.tick_count) [
    | false ↦ some (woken, k)
    | true ↦ do
      let following = Seq.next t k.threads.sleeping_list
      k' ← wake t k
      elim (goes_on following k'.threads.sleeping_list) [
        | false ↦ some (true, k')
        | true ↦ wake_from fuel following true k'
      ]
  ]

-- The scan of the sleeping list.
unfoldable pub wake_sleeping : Kernel → Option (Bool × Kernel)
unfolding wake_from
wake_sleeping k = elim k.threads.sleeping_list [
  | [] ↦ some (false, k)
  | x ∷ xs ↦ wake_from (suc (length xs)) (some x) false k
]

-- `ar_kernel_increment_tick_count`.
unfoldable pub increment_tick_count : ℕ → Kernel → Option (Bool × Kernel)
unfolding wake_sleeping
increment_tick_count ticks k =
    let k' = record k { tick_count = u32 (k.tick_count + ticks) } in
    if ltb k'.tick_count k'.next_wakeup then some (false, k') else wake_sleeping k'

-- `ar_kernel_get_next_wakeup_time`: the head of the sleeping list, unless a tick is needed for round
-- robin. 0 means that nothing is to be waited for.
unfoldable pub next_wakeup_of : Threads → List ℕ → ℕ
next_wakeup_of l [] = 0
next_wakeup_of l (x ∷ _) = (l.thread x).wakeup_time

unfoldable pub get_next_wakeup_time : Kernel → ℕ
unfolding next_wakeup_of
get_next_wakeup_time k =
    if k.needs_round_robin
    then u32 (k.tick_count + 1)
    else next_wakeup_of k.threads k.threads.sleeping_list
