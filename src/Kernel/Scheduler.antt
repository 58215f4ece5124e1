-- ===== src/Kernel/Scheduler.antt =====
-- ar_kernel_scheduler of src/ar_kernel.cpp with the load accounting and the tickless timer of the
-- default build, and the port's tick timer.
pub mod Loads
pub mod Choice
pub mod Preempt
pub mod Switch
pub mod Turns
use argon_rtos.Prelude.{
  ℕ, ◌+◌, ◌-◌, ◌*◌, ◌/◌, ◌%◌, ◌^◌, Bool, true, false, not, ◌&&◌, ◌||◌, Option, none, some, ◌>>=◌,
  ◌>>◌, List, [], ◌∷◌, ◌==◌, ltb, leb, if◌then◌else◌, u32, sub32, assert, update,
}
use argon_rtos.Types.{
  Thread, ThreadState, unknown, suspended, ready, running, blocked, sleeping, done,
}
use argon_rtos.Kernel.{Kernel, Threads, idle_thread}
use argon_rtos.Kernel.Lists.{set_state}
use argon_rtos.Kernel.Tick.{get_millisecond_count, get_next_wakeup_time, milliseconds_per_tick}
use argon_rtos.ArList.Seq

-- `AR_SYSTEM_LOAD_SAMPLE_PERIOD`, in microseconds.
abbrev pub sample_period : ℕ
sample_period = 1_000_000

-- `kStackCheckValue`.
abbrev pub stack_check_value : ℕ
stack_check_value = 0xdead_beef

-- 64-bit subtraction.
abbrev pub sub64 : ℕ → ℕ → ℕ
sub64 a b = (a + 2 ^ 64 - b) % 2 ^ 64

-- `ar_get_microseconds`, the port's default.
unfoldable pub get_microseconds : Kernel → ℕ
get_microseconds k = get_millisecond_count k * 1000

-- `ar_port_set_timer_delay`, as the kernel sees it.
unfoldable pub set_timer_delay : Bool → ℕ → Kernel → Kernel
set_timer_delay enable delay k = record k {
  port = record (k.port) { timer_enable = enable; timer_delay_us = delay };
}

-- The load of one thread over the last sampling period, in 16 bits.
unfoldable pub sample_load : Thread → Thread
sample_load t = record t {
  permille_cpu = (u32 (1000 * t.load_accumulator) / sample_period) % 2 ^ 16;
  load_accumulator = 0;
}

unfoldable pub sample_loads : List ℕ → (ℕ → Thread) → ℕ → Thread
unfolding sample_load
sample_loads [] thread = thread
sample_loads (x ∷ xs) thread = sample_loads xs (update thread x (sample_load (thread x)))

-- `ar_kernel_update_thread_loads`.
unfoldable pub update_thread_loads : Kernel → Kernel
unfolding sample_loads
update_thread_loads k =
    let l = k.threads in
    let thread =
      sample_loads l.sleeping_list
        (sample_loads l.suspended_list (sample_loads l.ready_list l.thread)) in
    record k {
      threads = record l { thread = thread };
      system_load = sub32 1000 (thread idle_thread).permille_cpu;
    }

unfoldable pub add_load : ℕ → ℕ → Kernel → Kernel
add_load t us k =
    let l = k.threads in
    let x = l.thread t in
    record k {
      threads = record l {
        thread =
            update l.thread t
              (record x { load_accumulator = u32 (x.load_accumulator + us % 2 ^ 32) });
      };
    }

-- The end of a sampling period, at time `now`, for the current thread `t`.
unfoldable pub end_period : ℕ → ℕ → Kernel → Kernel
end_period t now k =
    let o = sub64 (sub64 now k.last_load_start) sample_period in
    let k = update_thread_loads (add_load t (sub64 (sub64 now k.last_switch_in) o) k) in
    record k { last_load_start = sub64 now o; last_switch_in = sub64 now o }

-- The time since the last switch goes to the current thread.
unfoldable pub account_load : Option ℕ → Kernel → Kernel
account_load none k = k
account_load (some t) k =
    let now = get_microseconds k in
    let k = if leb sample_period (sub64 now k.last_load_start) then end_period t now k else k in
    record (add_load t (sub64 now k.last_switch_in) k) { last_switch_in = now }

abbrev pub is_running_state : ThreadState → Bool
is_running_state running = true
is_running_state _ = false

-- Whether the thread at the head of the ready list runs: there is no current thread, or it is not
-- running any more, or it has a lower priority.
unfoldable pub takes_first : Option ℕ → ℕ → Threads → Bool
takes_first none first l = true
takes_first (some c) first l =
    not (is_running_state (l.thread c).state) || ltb (l.thread c).priority (l.thread first).priority

-- The thread after the current one in the ready list, if it has the same priority, else the first.
unfoldable pub rotate : ℕ → ℕ → Threads → Option ℕ
rotate c first l = do
  following ← Seq.next c l.ready_list
  if (l.thread following).priority == (l.thread c).priority
      then some following
      else (assert ((l.thread first).priority == (l.thread c).priority) >> some first)

-- The choice of the next thread. `first` is the head of the ready list.
unfoldable pub choose : Option ℕ → ℕ → Threads → Option ℕ
unfolding takes_first rotate
choose none first l = some first
choose (some c) first l = if takes_first (some c) first l then some first else rotate c first l

-- A current thread that is still running becomes ready.
unfoldable pub preempt : Option ℕ → Threads → Threads
preempt none l = l
preempt (some c) l = if is_running_state (l.thread c).state then set_state c ready l else l

abbrev pub is_thread : Option ℕ → ℕ → Bool
is_thread none t = false
is_thread (some c) t = c == t

-- The switch to the chosen thread.
unfoldable pub switch_to : ℕ → Kernel → Kernel
unfolding preempt
switch_to t k = if is_thread k.current_thread t then k else record k {
  current_thread = some t;
  threads = set_state t running (preempt k.current_thread k.threads);
}

-- The check for a stack overflow of the thread that runs next.
unfoldable pub check_stack : ℕ → Kernel → Option (Unit {0})
check_stack t k =
    let x = k.threads.thread t in
    assert (
      not (ltb x.stack_pointer x.stack_bottom)
      && (k.objects.memory x.stack_bottom == stack_check_value))

-- The tick timer is set to the next wakeup, if that has changed.
unfoldable pub arm_timer : Kernel → Kernel
unfolding set_timer_delay
arm_timer k =
    let wakeup = get_next_wakeup_time k in
    if wakeup == k.next_wakeup
    then k
    else let delay =
        if not (wakeup == 0) && ltb k.tick_count wakeup
        then u32 (sub32 wakeup k.tick_count * milliseconds_per_tick * 1000)
        else 0 in
      set_timer_delay (not (wakeup == 0)) delay (record k { next_wakeup = wakeup })

-- `ar_kernel_scheduler`.
unfoldable pub scheduler : Kernel → Option Kernel
scheduler k = do
  first ← Seq.head? k.threads.ready_list
  let k = account_load k.current_thread k
  highest ← choose k.current_thread first k.threads
  let k = switch_to highest k
  check_stack highest k
  some (arm_timer k)
