-- ===== src/RunLoop/Run.antt =====
-- ar_runloop_run of src/ar_runloop.cpp.
use argon_rtos.Prelude.{
  ℕ, zero, suc, ◌+◌, ◌-◌, ◌%◌, Bool, true, false, not, ◌&&◌, Option, none, some, ◌>>=◌, ◌>>◌, List,
  [], ◌∷◌, ◌==◌, ltb, leb, if◌then◌else◌, sub32, get_elem?, update, assert,
}
use argon_rtos.Types.{
  Status, not_from_interrupt_error, invalid_parameter_error, run_loop_already_running_error,
  run_loop_stopped, run_loop_queue_received, timeout_error, RunLoop, infinite_timeout,
}
use argon_rtos.Kernel.{Kernel}
use argon_rtos.Kernel.Tick.{milliseconds_to_ticks, ticks_to_milliseconds}
use argon_rtos.Thread.{set_threads}
use argon_rtos.Thread.Run.{sleep}
use argon_rtos.Block.{is_empty}
use argon_rtos.Mutex.{same_thread}
use argon_rtos.RunLoop.{function_queue_size, set_run_loop, is_other}
use argon_rtos.Timer.Fire.{run_timers}
use argon_rtos.ArList.Seq

unfoldable pub set_thread_run_loop : ℕ → Option ℕ → Kernel → Kernel
set_thread_run_loop t r k =
    let l = k.threads in
    set_threads (record l { thread = update l.thread t (record (l.thread t) { run_loop = r }) }) k

-- Whether the run loop runs in another thread than the current one. Both may be NULL.
unfoldable pub runs_elsewhere : RunLoop → Option ℕ → Bool
runs_elsewhere x current = x.is_running && not (same_thread x.thread current)

-- The checks of ar_runloop_run for thread `self`: `none` is "go on".
unfoldable pub refuse : ℕ → (self : ℕ) → Kernel → Option Status
refuse r self k =
    if is_other (k.threads.thread self).run_loop r
    then some run_loop_already_running_error
    else if k.port.irq_state
    then some not_from_interrupt_error
    else none

-- The start of a run that is not nested in another one.
unfoldable pub begin_run : ℕ → (self : ℕ) → Kernel → Kernel
begin_run r self k =
    let x = k.objects.run_loop r in
    if x.is_running
    then k
    else set_run_loop r (record x { thread = some self; stop = false; is_running = true })
        (set_thread_run_loop self (some r) k)

-- The end of a run. It runs in the thread that is current then.
unfoldable pub end_run : ℕ → (nested : Bool) → Kernel → Option Kernel
end_run r true k = some k
end_run r false k = do
  self ← k.current_thread
  let k = set_thread_run_loop self none k
  some (set_run_loop r (record (k.objects.run_loop r) { thread = none; is_running = false }) k)

-- The queue of functions without its first one.
unfoldable pub drop_function : RunLoop → RunLoop
drop_function x = record x {
  function_count = x.function_count - 1;
  function_head = (x.function_head + 1) % function_queue_size;
}

-- The head of the list of pending queues, which leaves it if it holds less than two values.
unfoldable pub take_queue : ℕ → ℕ → Kernel → Kernel
take_queue r q k =
    let x = k.objects.run_loop r in
    if ltb (k.objects.queue q).count 2
    then set_run_loop r (record x { queues = Seq.remove q x.queues }) k
    else k

-- The ticks that are left of a timeout, or `none` when it is over.
unfoldable pub ticks_left : (start timeout_ticks tick : ℕ) → Option ℕ
ticks_left start timeout_ticks tick =
    if timeout_ticks == infinite_timeout
    then some timeout_ticks
    else if leb timeout_ticks (sub32 tick start)
    then none
    else some (timeout_ticks - sub32 tick start)

-- The ticks to wait at most, given the first timer of the run loop.
unfoldable pub until_timer : (left : ℕ) → List ℕ → Kernel → Option ℕ
until_timer left [] k = some left
until_timer left (t ∷ _) k = do
  let w = (k.objects.timer t).wakeup_time
  assert (leb k.tick_count w)
  some (if ltb (sub32 w k.tick_count) left then sub32 w k.tick_count else left)

unfoldable pub block_timeout : ℕ → ℕ
block_timeout ticks =
    if ticks == infinite_timeout then infinite_timeout else ticks_to_milliseconds ticks

-- A round of the loop goes on to the next one, or ends the run with a status and a queue.
pub data Round : Type 0 where
  goes_on : Kernel → Round
  ends : Status → Option ℕ → Kernel → Round

-- The end of a round: the test of the loop.
unfoldable pub stop_test : ℕ → Kernel → Round
stop_test r k = if (k.objects.run_loop r).stop then ends run_loop_stopped none k else goes_on k

-- The code that the application gives to the kernel: `call` is the effect of a timer's callback,
-- `apply` that of a function, and `handle` that of the handler of a queue. `others` is what the other
-- threads do from the call of ar_thread_sleep until the scheduler comes back to the current thread:
-- the kernel that it takes shows whether that thread sleeps at all.
module _ (call : (f t p : ℕ) → Kernel → Option Kernel) (apply : (f p : ℕ) → Kernel → Option Kernel)
    (handle : (f q p : ℕ) → Kernel → Option Kernel) (others : Kernel → Option Kernel) where
  -- The first function of the queue runs, if there is one.
  unfoldable pub run_function : ℕ → Kernel → Option Kernel
  run_function r k =
      let x = k.objects.run_loop r in
      if x.function_count == 0
      then some k
      else (get_elem? x.functions x.function_head >>= λ fn.
          fn.function >>= λ f. apply f fn.param (set_run_loop r (drop_function x) k))

  -- The round from the test for a timeout on: the thread may sleep.
  unfoldable pub wait_round : (r start timeout_ticks : ℕ) → Kernel → Option Round
  wait_round r start timeout_ticks k = elim (ticks_left start timeout_ticks k.tick_count) [
    | none ↦ some (ends timeout_error none k)
    | some left ↦ do
      let x = k.objects.run_loop r
      ticks ← until_timer left x.timers k
      let idle = (x.function_count == 0) && is_empty x.queues
      k ←
          if idle && not (block_timeout ticks == 0)
          then (sleep (block_timeout ticks) k >>= others)
          else some k
      some (stop_test r k)
  ]

  -- The part of the round about the pending queue `q`. `wanted` is whether the caller takes a result.
  unfoldable pub queue_round : (r q start timeout_ticks : ℕ) → Bool → Kernel → Option Round
  queue_round r q start timeout_ticks wanted k =
      let x = k.objects.queue q in
      let k = take_queue r q k in
      if x.count == 0 then wait_round r start timeout_ticks k else elim x.run_loop_handler [
        | none ↦ some (ends run_loop_queue_received (if wanted then some q else none) k)
        | some f ↦
            (handle f q x.run_loop_handler_param k >>= λ k. wait_round r start timeout_ticks k)
      ]

  -- One round of the loop.
  unfoldable pub round : (fuel r start timeout_ticks : ℕ) → Bool → Kernel → Option Round
  round fuel r start timeout_ticks wanted k = do
    k ← run_timers call fuel r k
    k ← run_function r k
    elim (k.objects.run_loop r).queues [
      | [] ↦ wait_round r start timeout_ticks k
      | q ∷ _ ↦ queue_round r q start timeout_ticks wanted k
    ]

  -- The loop, for at most `rounds` rounds.
  unfoldable pub run_rounds :
      (rounds fuel r start timeout_ticks : ℕ) → Bool → Kernel → Option (Status × Option ℕ × Kernel)
  run_rounds zero fuel r start timeout_ticks wanted k = none
  run_rounds (suc rounds) fuel r start timeout_ticks wanted k = do
    x ← round fuel r start timeout_ticks wanted k
    elim x [
      | ends s q k ↦ some (s, q, k)
      | goes_on k ↦ run_rounds rounds fuel r start timeout_ticks wanted k
    ]

  -- ar_runloop_run behind its first check.
  unfoldable pub run_here :
      (rounds fuel : ℕ) → ℕ → ℕ → Bool → Kernel → Option (Status × Option ℕ × Kernel)
  unfolding run_rounds
  run_here rounds fuel r timeout wanted k = do
    self ← k.current_thread
    elim (refuse r self k) [
      | some s ↦ some (s, none, k)
      | none ↦ do
        let nested = (k.objects.run_loop r).is_running
        let k = begin_run r self k
        let ticks = if timeout == infinite_timeout then timeout else milliseconds_to_ticks timeout
        (s, q, k) ← run_rounds rounds fuel r k.tick_count ticks wanted k
        k ← end_run r nested k
        some (s, q, k)
    ]

  -- `ar_runloop_run`: the status, and the queue of the result.
  unfoldable pub run :
      (rounds fuel : ℕ) → Option ℕ → ℕ → Bool → Kernel → Option (Status × Option ℕ × Kernel)
  run rounds fuel none timeout wanted k = some (invalid_parameter_error, none, k)
  run rounds fuel (some r) timeout wanted k =
      if runs_elsewhere (k.objects.run_loop r) k.current_thread
      then some (run_loop_already_running_error, none, k)
      else run_here rounds fuel r timeout wanted k
