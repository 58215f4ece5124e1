-- ===== src/Thread/Create.antt =====
-- ar_thread_create of src/ar_thread.cpp, and ar_port_prepare_stack of src/cortex_m/ar_port.cpp in
-- the release build, which does not fill the stack with a pattern.
pub mod Stack
use argon_rtos.Prelude.{
  ℕ, ◌+◌, ◌-◌, ◌*◌, ◌/◌, ◌%◌, Bool, Option, none, some, ◌>>=◌, ltb, if◌then◌else◌, u32, update,
}
use argon_rtos.Types.{
  Status, success, invalid_parameter_error, invalid_priority_error, stack_size_too_small_error,
  not_from_interrupt_error, Thread, suspended, min_thread_priority,
}
use argon_rtos.Kernel.{Kernel}
use argon_rtos.Kernel.Lists.{suspended_add}
use argon_rtos.Kernel.Lock.{lock, unlock}
use argon_rtos.Kernel.Scheduler.{stack_check_value}
use argon_rtos.Thread.{thread_context_size, set_threads, resume}

-- `kInitialxPSR` and `kInitialLR`.
abbrev pub initial_xpsr : ℕ
initial_xpsr = 0x0100_0000

abbrev initial_lr : ℕ
initial_lr = 0

-- Where the stack ends and begins once both are aligned to 8 bytes.
unfoldable pub aligned_top : (bottom size : ℕ) → ℕ
aligned_top bottom size = bottom + size - (bottom + size) % 8

unfoldable pub aligned_bottom : (bottom size : ℕ) → ℕ
aligned_bottom bottom size =
    let delta = (bottom + size) % 8 in aligned_top bottom size - (size - delta) / 8 * 8

-- The words that `ar_port_prepare_stack` writes: the first context, and the check value.
-- `wrapper` is the address of ar_thread_wrapper.
unfoldable pub write_context : (wrapper t sp param bottom : ℕ) → (ℕ → ℕ) → ℕ → ℕ
write_context wrapper t sp param bottom memory =
    update
      (update
        (update
          (update (update (update memory (sp + 60) initial_xpsr) (sp + 56) wrapper) (sp + 52)
            initial_lr)
          (sp + 32) t)
        (sp + 36) param)
      bottom stack_check_value

-- `ar_port_prepare_stack`.
unfoldable pub prepare_stack : (wrapper t size param : ℕ) → Kernel → Kernel
prepare_stack wrapper t size param k =
    let l = k.threads in
    let x = l.thread t in
    let top = aligned_top x.stack_bottom size in
    let bottom = aligned_bottom x.stack_bottom size in
    let sp = top - thread_context_size in
    let x' = record x { stack_top = top; stack_bottom = bottom; stack_pointer = sp } in
    record k {
      threads = record l { thread = update l.thread t x' };
      objects = record (k.objects) {
        memory = write_context wrapper t sp param bottom k.objects.memory;
      };
    }

-- The thread structure after `memset` and the assignments.
unfoldable pub new_thread : (name stack priority : ℕ) → Option ℕ → ℕ → Thread
new_thread name stack priority entry id = record {
  name = name;
  stack_pointer = 0;
  stack_bottom = stack;
  stack_top = 0;
  priority = priority;
  state = suspended;
  entry = entry;
  wakeup_time = 0;
  unblock_status = success;
  channel_data = 0;
  run_loop = none;
  permille_cpu = 0;
  load_accumulator = 0;
  unique_id = id;
}

-- The part of ar_thread_create behind its checks. `memset` clears the links of the main node too,
-- so that the thread must not be on a list.
unfoldable pub create_checked :
    (wrapper name : ℕ)
    → Option ℕ
    → (param stack size priority : ℕ) → Bool
    → ℕ
    → Kernel
    → Option (Status × Kernel)
create_checked wrapper name entry param stack size priority start t k = do
  let id = u32 (k.thread_id_counter + 1)
  let l = k.threads
  let x = new_thread name stack priority entry id
  let k = record k { thread_id_counter = id; threads = record l { thread = update l.thread t x } }
  let k = lock (prepare_stack wrapper t size param k)
  l ← suspended_add t k.threads
  k ← unlock (set_threads l k)
  if start then (resume (some t) k >>= λ r. some (success, r.1)) else some (success, k)

-- `ar_thread_create`.
unfoldable pub create :
    (wrapper name : ℕ)
    → Option ℕ
    → (param stack size priority : ℕ) → Bool
    → Option ℕ
    → Kernel
    → Option (Status × Kernel)
create wrapper name entry param stack size priority start none k = some (invalid_parameter_error, k)
create wrapper name entry param stack size priority start (some t) k =
    if ltb priority min_thread_priority
    then some (invalid_priority_error, k)
    else if ltb size thread_context_size
    then some (stack_size_too_small_error, k)
    else if k.port.irq_state
    then some (not_from_interrupt_error, k)
    else create_checked wrapper name entry param stack size priority start t k
