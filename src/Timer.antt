-- ===== src/Timer.antt =====
-- Timers: src/ar_timer.cpp. The active timers of a run loop are a list, sorted by wakeup time.
pub mod Fire
pub mod Reschedule
pub mod Active
pub mod Start
pub mod OneShot
use argon_rtos.Prelude.{
  ℕ, ◌+◌, ◌-◌, ◌*◌, ◌/◌, Bool, true, false, not, ◌&&◌, Option, none, some, ◌>>=◌, ◌>>◌, List, [],
  ◌==◌, ltb, if◌then◌else◌, u32, sub32, has, update, assert,
}
use argon_rtos.Types.{
  Status, success, not_from_interrupt_error, invalid_parameter_error, timer_not_running_error,
  timer_no_run_loop, Timer, TimerMode, one_shot, periodic, RunLoop,
}
use argon_rtos.Kernel.{Kernel, Objects, deferred_timer_start, deferred_timer_stop}
use argon_rtos.Kernel.Lock.{lock, unlock}
use argon_rtos.Kernel.Tick.{milliseconds_to_ticks}
use argon_rtos.Thread.{leave}
use argon_rtos.Deferred.{post, post_with}
use argon_rtos.Block.{set_objects}
use argon_rtos.RunLoop.{set_run_loop, wake_run_loop}
use argon_rtos.ArList.Seq

abbrev pub set_timer : ℕ → Timer → Kernel → Kernel
set_timer t x k = let o = k.objects in set_objects (record o { timer = update o.timer t x }) k

-- `ar_timer_sort_by_wakeup`.
unfoldable pub sort_timers : (ℕ → Timer) → ℕ → ℕ → Bool
sort_timers timer a b = (timer a).is_active && ltb (timer a).wakeup_time (timer b).wakeup_time

abbrev pub set_timers : ℕ → List ℕ → Kernel → Kernel
set_timers r xs k = set_run_loop r (record (k.objects.run_loop r) { timers = xs }) k

-- `m_timers.add(timer)`: the node is on no list, in particular not on this one.
unfoldable pub timers_add : (r t : ℕ) → Kernel → Option Kernel
timers_add r t k = do
  let xs = (k.objects.run_loop r).timers
  assert (not (has t xs))
  some (set_timers r (Seq.add (some (sort_timers k.objects.timer)) t xs) k)

-- `m_timers.remove(timer)`: the node is on this list.
unfoldable pub timers_remove : (r t : ℕ) → Kernel → Option Kernel
timers_remove r t k = do
  let xs = (k.objects.run_loop r).timers
  assert (has t xs)
  some (set_timers r (Seq.remove t xs) k)

-- `ar_timer_create`.
unfoldable pub create : Option ℕ → ℕ → Option ℕ → ℕ → TimerMode → ℕ → Kernel → Status × Kernel
create none name callback param mode delay k = (invalid_parameter_error, k)
create (some t) name none param mode delay k = (invalid_parameter_error, k)
create (some t) name (some f) param mode delay k =
    if delay == 0
    then (invalid_parameter_error, k)
    else if k.port.irq_state
    then (not_from_interrupt_error, k)
    else (
      success,
      set_timer t
          (record {
            name = name;
            callback = some f;
            param = param;
            mode = mode;
            is_active = false;
            is_running = false;
            delay = milliseconds_to_ticks delay;
            wakeup_time = 0;
            run_loop = none;
          })
          k,
    )

-- The timer becomes active on run loop `r`, in its place there.
unfoldable pub place : (r t wakeup : ℕ) → Kernel → Option Kernel
place r t wakeup k = do
  k ← if (k.objects.timer t).is_active then timers_remove r t k else some k
  let k = set_timer t (record (k.objects.timer t) { wakeup_time = wakeup; is_active = true }) k
  timers_add r t k

-- `ar_timer_start_internal`.
unfoldable pub start_internal : (t wakeup : ℕ) → Kernel → Option (Status × Kernel)
start_internal t wakeup k = do
  let k = lock k
  r ← (k.objects.timer t).run_loop
  k ← place r t wakeup k
  k ← wake_run_loop r k
  leave success k

abbrev pub is_null : Option ℕ → Bool
is_null none = true
is_null (some _) = false

-- `ar_timer_start`.
unfoldable pub start : Option ℕ → Kernel → Option (Status × Kernel)
start none k = some (invalid_parameter_error, k)
start (some t) k =
    let x = k.objects.timer t in
    if is_null x.run_loop then some (timer_no_run_loop, k) else do
      assert (not (is_null x.callback))
      let wakeup = u32 (k.tick_count + x.delay)
      if k.port.irq_state
          then post_with deferred_timer_start t wakeup k
          else start_internal t wakeup k

-- The timer leaves its run loop, if it has one, which is woken.
unfoldable pub detach : Option ℕ → ℕ → Kernel → Option Kernel
detach none t k = some k
detach (some r) t k = timers_remove r t k >>= λ k. wake_run_loop r k

-- `ar_timer_stop_internal`.
unfoldable pub stop_internal : ℕ → Kernel → Option (Status × Kernel)
stop_internal t k = do
  let k = lock k
  k ← detach (k.objects.timer t).run_loop t k
  leave success (set_timer t (record (k.objects.timer t) { wakeup_time = 0; is_active = false }) k)

-- `ar_timer_stop`.
unfoldable pub stop : Option ℕ → Kernel → Option (Status × Kernel)
stop none k = some (invalid_parameter_error, k)
stop (some t) k =
    let x = k.objects.timer t in
    if not x.is_active
    then some (timer_not_running_error, k)
    else if is_null x.run_loop
    then some (timer_no_run_loop, k)
    else if k.port.irq_state
    then post deferred_timer_stop t k
    else stop_internal t k

-- `ar_timer_delete`.
unfoldable pub delete : Option ℕ → Kernel → Option (Status × Kernel)
delete none k = some (invalid_parameter_error, k)
delete (some t) k =
    if k.port.irq_state
    then some (not_from_interrupt_error, k)
    else (stop (some t) k >>= λ r. some (success, r.1))

abbrev pub is_periodic : TimerMode → Bool
is_periodic periodic = true
is_periodic one_shot = false

-- `ar_timer_set_delay`.
unfoldable pub set_delay : Option ℕ → ℕ → Kernel → Option (Status × Kernel)
set_delay none delay k = some (invalid_parameter_error, k)
set_delay (some t) delay k =
    if delay == 0
    then some (invalid_parameter_error, k)
    else let x = record (k.objects.timer t) { delay = milliseconds_to_ticks delay } in
      let k = set_timer t x k in
      if x.is_active && not (x.is_running && is_periodic x.mode)
      then (start (some t) k >>= λ r. some (success, r.1))
      else some (success, k)

-- `ar_timer_get_name`.
unfoldable pub get_name : Option ℕ → Kernel → Option ℕ
get_name none k = none
get_name (some t) k = some (k.objects.timer t).name
