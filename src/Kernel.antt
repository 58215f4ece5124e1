-- ===== src/Kernel.antt =====
-- The state of the kernel: `g_ar` and `_ar_deferred_action_queue` of src/ar_internal.h, the objects
-- that it points to, and what the port keeps of the processor.
pub mod Lists
pub mod Lock
pub mod Tick
pub mod Scheduler
use argon_rtos.Prelude.{ℕ, Bool, Option, List}
use argon_rtos.Types.{Thread, Semaphore, Mutex, Channel, Queue, Timer, RunLoop}

-- The deferred action functions, and the mark of an entry that holds an extra argument.
pub data Action : Type 0 where
  deferred_resume deferred_suspend : Action
  deferred_semaphore_get deferred_semaphore_put : Action
  deferred_mutex_get deferred_mutex_put : Action
  deferred_queue_send deferred_channel_send : Action
  deferred_timer_start deferred_timer_stop : Action
  action_extra_value : Action

-- `_ar_deferred_action_queue_entry`.
pub record ActionEntry : Type 0 where
  pub action : Action
  pub object : ℕ

-- `_ar_deferred_action_queue`.
pub record ActionQueue : Type 0 where
  pub count : ℕ
  pub first : ℕ
  pub last : ℕ
  pub entries : List ActionEntry

-- The threads by address, and the three lists of `g_ar` that hold their main nodes.
pub record Threads : Type 0 where
  pub ready_list : List ℕ
  pub suspended_list : List ℕ
  pub sleeping_list : List ℕ
  pub thread : ℕ → Thread

-- The other kernel objects by address, and the memory by byte address: the bytes of the values of
-- channels. A word of a stack and an element of a queue stand at the address of their first byte.
pub record Objects : Type 0 where
  pub semaphore : ℕ → Semaphore
  pub mutex : ℕ → Mutex
  pub channel : ℕ → Channel
  pub queue : ℕ → Queue
  pub timer : ℕ → Timer
  pub run_loop : ℕ → RunLoop
  pub memory : ℕ → ℕ

-- The processor, as far as the kernel sees it: whether an exception is active, whether PendSV is
-- pending, the time since the tick timer was set, how it was set, and the byte that a thread's
-- priority reads as through a NULL pointer.
pub record Port : Type 0 where
  pub irq_state : Bool
  pub pend_sv : Bool
  pub timer_elapsed_us : ℕ
  pub timer_enable : Bool
  pub timer_delay_us : ℕ
  pub null_priority : ℕ

-- `_ar_kernel`, with the memory and the processor.
pub record Kernel : Type 0 where
  pub current_thread : Option ℕ
  pub threads : Threads
  pub is_running : Bool
  pub needs_reschedule : Bool
  pub is_running_deferred : Bool
  pub needs_round_robin : Bool
  pub deferred_actions : ActionQueue
  pub lock_count : ℕ
  pub tick_count : ℕ
  pub missed_tick_count : ℕ
  pub next_wakeup : ℕ
  pub thread_id_counter : ℕ
  pub last_load_start : ℕ
  pub last_switch_in : ℕ
  pub system_load : ℕ
  pub objects : Objects
  pub port : Port

-- The address of `g_ar.idleThread`.
abbrev pub idle_thread : ℕ
idle_thread = 1
