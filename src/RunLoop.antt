-- ===== src/RunLoop.antt =====
-- Run loops: src/ar_runloop.cpp but for ar_runloop_run, which is in RunLoop/Run.antt.
pub mod Run
pub mod Wake
pub mod Functions
use argon_rtos.Prelude.{
  ℕ, ◌+◌, Bool, true, false, not, ◌&&◌, Option, none, some, ◌>>=◌, List, [], ◌∷◌, ◌==◌,
  if◌then◌else◌, set, update,
}
use argon_rtos.Types.{
  Status, success, not_from_interrupt_error, invalid_parameter_error, invalid_state_error,
  queue_full_error, already_attached_error, RunLoop, FunctionInfo, Timer, Queue,
}
use argon_rtos.Kernel.{Kernel, Objects}
use argon_rtos.Thread.{resume}
use argon_rtos.Block.{set_objects}
use argon_rtos.Deferred.{atomic_queue_insert}

-- `AR_RUNLOOP_FUNCTION_QUEUE_SIZE`.
abbrev pub function_queue_size : ℕ
function_queue_size = 8

abbrev pub no_function : FunctionInfo
no_function = record { function = none; param = 0 }

abbrev pub set_run_loop : ℕ → RunLoop → Kernel → Kernel
set_run_loop r x k =
    let o = k.objects in set_objects (record o { run_loop = update o.run_loop r x }) k

-- `ar_runloop_create`.
unfoldable pub create : Option ℕ → ℕ → Kernel → Status × Kernel
create none name k = (invalid_parameter_error, k)
create (some r) name k = if k.port.irq_state then (not_from_interrupt_error, k) else (
  success,
  set_run_loop r
      (record {
        name = name;
        thread = none;
        timers = [];
        queues = [];
        functions =
            no_function ∷ no_function ∷ no_function ∷ no_function ∷ no_function ∷ no_function
            ∷ no_function ∷ no_function ∷ [];
        function_count = 0;
        function_head = 0;
        function_tail = 0;
        is_running = false;
        stop = false;
      })
      k,
)

-- `ar_runloop_delete`.
unfoldable pub delete : Option ℕ → Kernel → Status × Kernel
delete none k = (invalid_parameter_error, k)
delete (some r) k =
    if k.port.irq_state
    then (not_from_interrupt_error, k)
    else if (k.objects.run_loop r).is_running
    then (invalid_state_error, k)
    else (success, k)

-- `ar_runloop_wake`: the thread of a running run loop is resumed.
unfoldable pub wake_run_loop : ℕ → Kernel → Option Kernel
wake_run_loop run_loop k =
    let x = k.objects.run_loop run_loop in
    if x.is_running
    then elim x.thread [ none ↦ some k | some t ↦ (resume (some t) k >>= λ r. some r.1) ]
    else some k

-- `ar_runloop_stop`.
unfoldable pub stop : Option ℕ → Kernel → Option (Status × Kernel)
stop none k = some (invalid_parameter_error, k)
stop (some r) k =
    let x = k.objects.run_loop r in
    (wake_run_loop r (set_run_loop r (record x { stop = true }) k) >>= λ k. some (success, k))

-- The run loop with one function more, or `none` if its function queue is full.
unfoldable pub add_function : FunctionInfo → RunLoop → Option RunLoop
add_function fn x = do
  (index, count, tail) ← atomic_queue_insert 1 x.function_count x.function_tail function_queue_size
  some (record x {
    functions = set x.functions index fn;
    function_count = count;
    function_tail = tail;
  })

-- `ar_runloop_perform`.
unfoldable pub perform : Option ℕ → Option ℕ → ℕ → Kernel → Option (Status × Kernel)
perform none function param k = some (invalid_parameter_error, k)
perform (some r) none param k = some (invalid_parameter_error, k)
perform (some r) (some function) param k =
    let fn : FunctionInfo = record { function = some function; param = param } in
    elim (add_function fn (k.objects.run_loop r)) [
      | none ↦ some (queue_full_error, k)
      | some x ↦ (wake_run_loop r (set_run_loop r x k) >>= λ k. some (success, k))
    ]

-- `ar_runloop_add_timer`.
unfoldable pub add_timer : Option ℕ → Option ℕ → Kernel → Status × Kernel
add_timer none timer k = (invalid_parameter_error, k)
add_timer (some r) none k = (invalid_parameter_error, k)
add_timer (some r) (some t) k =
    let o = k.objects in
    let x = record (o.timer t) { run_loop = some r } in
    (success, set_objects (record o { timer = update o.timer t x }) k)

-- Whether a pointer to a run loop is neither NULL nor `r`.
abbrev pub is_other : Option ℕ → ℕ → Bool
is_other none r = false
is_other (some a) r = not (a == r)

-- `ar_runloop_add_queue`.
unfoldable pub add_queue : Option ℕ → Option ℕ → Option ℕ → ℕ → Kernel → Status × Kernel
add_queue none queue handler param k = (invalid_parameter_error, k)
add_queue (some r) none handler param k = (invalid_parameter_error, k)
add_queue (some r) (some q) handler param k =
    let o = k.objects in
    let x = o.queue q in
    if is_other x.run_loop r
    then (already_attached_error, k)
    else let y = record x {
      run_loop_handler = handler;
      run_loop_handler_param = param;
      run_loop = some r;
    } in
      (success, set_objects (record o { queue = update o.queue q y }) k)

-- `ar_runloop_get_current`.
unfoldable pub get_current : Kernel → Option (Option ℕ)
get_current k = k.current_thread >>= λ t. some (k.threads.thread t).run_loop

-- `ar_runloop_get_name`.
unfoldable pub get_name : Option ℕ → Kernel → Option ℕ
get_name none k = none
get_name (some r) k = some (k.objects.run_loop r).name
