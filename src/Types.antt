-- ===== src/Types.antt =====
-- The constants, enumerations and structures of include/argon/ar_kernel.h. A pointer that may be
-- NULL is an `Option ℕ`; a list is the sequence of its nodes (ArList/Seq.antt).
use argon_rtos.Prelude.{ℕ, Bool, Option, List}

-- `ar_status_t`.
pub data Status : Type 0 where
  success timeout_error object_deleted_error queue_full_error queue_empty_error : Status
  invalid_priority_error stack_size_too_small_error not_from_interrupt_error : Status
  not_owner_error already_unlocked_error invalid_parameter_error timer_not_running_error : Status
  timer_no_run_loop out_of_memory_error invalid_state_error already_attached_error : Status
  run_loop_already_running_error run_loop_stopped run_loop_queue_received : Status

-- `ar_thread_state_t`.
pub data ThreadState : Type 0 where
  unknown suspended ready running blocked sleeping done : ThreadState

-- `ar_timer_mode_t`.
pub data TimerMode : Type 0 where
  one_shot periodic : TimerMode

abbrev pub no_timeout : ℕ
no_timeout = 0

abbrev pub infinite_timeout : ℕ
infinite_timeout = 0xffff_ffff

abbrev pub idle_thread_priority : ℕ
idle_thread_priority = 0

abbrev pub min_thread_priority : ℕ
min_thread_priority = 1

-- `_ar_thread`.
pub record Thread : Type 0 where
  pub name : ℕ
  pub stack_pointer : ℕ
  pub stack_bottom : ℕ
  pub stack_top : ℕ
  pub priority : ℕ
  pub state : ThreadState
  pub entry : Option ℕ
  pub wakeup_time : ℕ
  pub unblock_status : Status
  pub channel_data : ℕ
  pub run_loop : Option ℕ
  pub permille_cpu : ℕ
  pub load_accumulator : ℕ
  pub unique_id : ℕ

-- `_ar_semaphore`.
pub record Semaphore : Type 0 where
  pub name : ℕ
  pub count : ℕ
  pub blocked_list : List ℕ

-- `_ar_mutex`.
pub record Mutex : Type 0 where
  pub name : ℕ
  pub owner : Option ℕ
  pub owner_lock_count : ℕ
  pub original_priority : ℕ
  pub blocked_list : List ℕ

-- `_ar_channel`.
pub record Channel : Type 0 where
  pub name : ℕ
  pub width : ℕ
  pub blocked_senders : List ℕ
  pub blocked_receivers : List ℕ

-- `_ar_queue`. An element of the storage is one value.
pub record Queue : Type 0 where
  pub name : ℕ
  pub elements : List ℕ
  pub element_size : ℕ
  pub capacity : ℕ
  pub head : ℕ
  pub tail : ℕ
  pub count : ℕ
  pub send_blocked_list : List ℕ
  pub receive_blocked_list : List ℕ
  pub run_loop : Option ℕ
  pub run_loop_handler : Option ℕ
  pub run_loop_handler_param : ℕ

-- `_ar_timer`.
pub record Timer : Type 0 where
  pub name : ℕ
  pub callback : Option ℕ
  pub param : ℕ
  pub mode : TimerMode
  pub is_active : Bool
  pub is_running : Bool
  pub delay : ℕ
  pub wakeup_time : ℕ
  pub run_loop : Option ℕ

-- `_ar_runloop_function_info`.
pub record FunctionInfo : Type 0 where
  pub function : Option ℕ
  pub param : ℕ

-- `_ar_runloop`.
pub record RunLoop : Type 0 where
  pub name : ℕ
  pub thread : Option ℕ
  pub timers : List ℕ
  pub queues : List ℕ
  pub functions : List FunctionInfo
  pub function_count : ℕ
  pub function_head : ℕ
  pub function_tail : ℕ
  pub is_running : Bool
  pub stop : Bool
