-- ===== src/Tests/Sample.antt =====
-- A kernel to run the operations on: the idle thread 1 is ready and thread 2 runs; thread 3 is
-- suspended, 4 sleeps until tick 100, 5 waits for semaphore 7 until tick 200, and 6 waits to receive
-- from channel 11 at address 70. An address holds itself, but for the bottom of the stacks.
use argon_rtos.Prelude.{ℕ, refl, true, false, none, some, [], ◌∷◌, ◌==◌, if◌then◌else◌, arith}
use argon_rtos.Types.{
  success, Thread, ThreadState, unknown, suspended, ready, running, blocked, sleeping, one_shot,
}
use argon_rtos.Kernel.{Kernel, Threads, Objects, ActionQueue, ActionEntry, action_extra_value}
use argon_rtos.Kernel.Lists.{sort_by_priority, sort_by_wakeup}
use argon_rtos.Kernel.Scheduler.{stack_check_value}
use argon_rtos.Block.{of_semaphore, of_receivers, blocked_list}
use argon_rtos.Block.Unblock.{IsBlocked}
use argon_rtos.Queue.Contents.{IsQueue}
use argon_rtos.Thread.Consistent.{IsConsistent}

abbrev pub sample_thread : (priority wakeup_time : ℕ) → ThreadState → Thread
sample_thread priority wakeup_time state = record {
  name = 0;
  stack_pointer = 1000;
  stack_bottom = 900;
  stack_top = 1100;
  priority = priority;
  state = state;
  entry = some 0;
  wakeup_time = wakeup_time;
  unblock_status = success;
  channel_data = 0;
  run_loop = none;
  permille_cpu = 0;
  load_accumulator = 0;
  unique_id = 0;
}

abbrev pub sample_store : ℕ → Thread
sample_store t =
    if t == 1
    then sample_thread 0 0 ready
    else if t == 2
    then sample_thread 10 0 running
    else if t == 3
    then sample_thread 20 0 suspended
    else if t == 4
    then sample_thread 5 100 sleeping
    else if t == 5
    then sample_thread 7 200 blocked
    else if t == 6
    then record (sample_thread 8 0 blocked) { channel_data = 70 }
    else sample_thread 0 0 unknown

abbrev pub sample_threads : Threads
sample_threads = record {
  ready_list = 2 ∷ 1 ∷ [];
  suspended_list = 3 ∷ [];
  sleeping_list = 4 ∷ 5 ∷ [];
  thread = sample_store;
}

abbrev pub sample_objects : Objects
sample_objects = record {
  semaphore = λ s. record { name = 0; count = 0; blocked_list = if s == 7 then 5 ∷ [] else [] };
  mutex = λ m. record {
    name = 0;
    owner = none;
    owner_lock_count = 0;
    original_priority = 0;
    blocked_list = [];
  };
  channel = λ c. record {
    name = 0;
    width = 4;
    blocked_senders = [];
    blocked_receivers = if c == 11 then 6 ∷ [] else [];
  };
  queue = λ q. record {
    name = 0;
    elements = 0 ∷ 0 ∷ 0 ∷ [];
    element_size = 4;
    capacity = 3;
    head = 2;
    tail = 0;
    count = 1;
    send_blocked_list = [];
    receive_blocked_list = [];
    run_loop = none;
    run_loop_handler = none;
    run_loop_handler_param = 0;
  };
  timer = λ t. record {
    name = 0;
    callback = none;
    param = 0;
    mode = one_shot;
    is_active = false;
    is_running = false;
    delay = 1;
    wakeup_time = 0;
    run_loop = none;
  };
  run_loop = λ r. record {
    name = 0;
    thread = none;
    timers = [];
    queues = [];
    functions = [];
    function_count = 0;
    function_head = 0;
    function_tail = 0;
    is_running = false;
    stop = false;
  };
  memory = λ a. if a == 900 then stack_check_value else a;
}

abbrev pub sample_entry : ActionEntry
sample_entry = record { action = action_extra_value; object = 0 }

abbrev pub sample_actions : ActionQueue
sample_actions = record {
  count = 0;
  first = 7;
  last = 7;
  entries =
      sample_entry ∷ sample_entry ∷ sample_entry ∷ sample_entry ∷ sample_entry ∷ sample_entry
      ∷ sample_entry ∷ sample_entry ∷ [];
}

abbrev pub sample_kernel : Kernel
sample_kernel = record {
  current_thread = some 2;
  threads = sample_threads;
  is_running = true;
  needs_reschedule = false;
  is_running_deferred = false;
  needs_round_robin = false;
  deferred_actions = sample_actions;
  lock_count = 0;
  tick_count = 90;
  missed_tick_count = 0;
  next_wakeup = 100;
  thread_id_counter = 5;
  last_load_start = 0;
  last_switch_in = 0;
  system_load = 0;
  objects = sample_objects;
  port = record {
    irq_state = false;
    pend_sv = false;
    timer_elapsed_us = 0;
    timer_enable = true;
    timer_delay_us = 100_000;
    null_priority = 0;
  };
}

pub sample-IsConsistent : IsConsistent sample_threads
unfolding sort_by_priority sort_by_wakeup
sample-IsConsistent = record {
  shaped = record {
    distinct_ready = (refl, (refl, tt));
    distinct_suspended = (refl, tt);
    distinct_sleeping = (refl, (refl, tt));
    sorted_ready = (refl, (tt, tt));
    sorted_sleeping = (refl, (tt, tt));
  };
  ready_iff = λ t. ground arith;
  suspended_iff = λ t. ground arith;
  sleeping_waits = λ t m. ground arith;
  sleeping_listed = λ t m. ground arith;
}

pub sample-IsBlocked : IsBlocked 5 (of_semaphore 7) sample_kernel
unfolding blocked_list
sample-IsBlocked = record { state = refl; listed = refl; timeout = refl }

pub sample-IsQueue : IsQueue (sample_objects.queue 9)
sample-IsQueue = record {
  storage = refl;
  word = omega arith;
  head = omega arith;
  count = omega arith;
  tail = refl;
}

pub receiver-IsBlocked : IsBlocked 6 (of_receivers 11) sample_kernel
unfolding blocked_list
receiver-IsBlocked = record { state = refl; listed = refl; timeout = refl }
