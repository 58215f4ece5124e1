-- ===== src/Tests/RunLoops.antt =====
-- Runs of the timers, the run loops and the report on threads at concrete inputs.
use argon_rtos.Prelude.{
  ℕ, ◌≡◌, refl, true, false, none, some, [], ◌∷◌, ◌==◌, arith, if◌then◌else◌, Returns,
}
use argon_rtos.Types.{success, Timer, TimerMode, one_shot, periodic, RunLoop}
use argon_rtos.Kernel.{Kernel}
use argon_rtos.RunLoop.{perform, no_function}
use argon_rtos.RunLoop.Functions.{Queued, IsFunctions, perform-appends}
use argon_rtos.Thread.Consistent.{IsConsistent}
use argon_rtos.Timer.{start_internal, stop_internal}
use argon_rtos.Timer.Fire.{fire, run_timers_from, run_timers}
use argon_rtos.Timer.Active.{IsTimers}
use argon_rtos.Timer.Start.{Timed, start_internal-Timed, stop_internal-Timed}
use argon_rtos.Timer.OneShot.{Left, run_timers-one_shot}
use argon_rtos.Tests.Sample.{sample_kernel, sample_objects, sample-IsConsistent}

abbrev timer : (wakeup : ℕ) → TimerMode → Timer
timer wakeup mode = record {
  name = 0;
  callback = some 5;
  param = 0;
  mode = mode;
  is_active = true;
  is_running = false;
  delay = 7;
  wakeup_time = wakeup;
  run_loop = some 20;
}

-- Run loop 20 has the timers 30, which is to fire at tick 50, and 31, which is to fire at tick 120. Its
-- queue of functions wraps.
abbrev loop : RunLoop
loop = record {
  name = 0;
  thread = some 4;
  timers = 30 ∷ 31 ∷ [];
  queues = [];
  functions =
      no_function ∷ no_function ∷ no_function ∷ no_function ∷ no_function ∷ no_function
      ∷ no_function ∷ no_function ∷ [];
  function_count = 2;
  function_head = 6;
  function_tail = 0;
  is_running = true;
  stop = false;
}

abbrev timer_kernel : Kernel
timer_kernel = record sample_kernel {
  objects = record sample_objects {
    timer = λ t.
        if t == 30
        then timer 50 one_shot
        else if t == 31
        then timer 120 periodic
        else record (timer 0 one_shot) { is_active = false };
    run_loop = λ r. if r == 20 then loop else record loop { timers = [] };
  };
}

timers-IsTimers : IsTimers 20 timer_kernel.objects
timers-IsTimers = record {
  distinct = (refl, (refl, tt));
  sorted = (refl, (tt, tt));
  listed = λ t. ground arith;
}

start_internal-Timed_example :
    Returns
      (λ a.
        (a.0 ≡ success)
        × Timed 20 30 (record (timer 130 one_shot) { is_active = true }) timer_kernel a.1)
      (start_internal 30 130 timer_kernel)
start_internal-Timed_example =
    start_internal-Timed 20 30 timer_kernel timers-IsTimers refl sample-IsConsistent refl 130

stop_internal-Timed_example :
    Returns
      (λ a.
        (a.0 ≡ success)
        × Timed 20 31 (record (timer 0 periodic) { is_active = false }) timer_kernel a.1)
      (stop_internal 31 timer_kernel)
stop_internal-Timed_example =
    stop_internal-Timed 20 31 timer_kernel timers-IsTimers refl sample-IsConsistent refl refl

run_timers-one_shot_example :
    Returns
      (λ k.
        Left 20 30 31 k
        × (run_timers (λ f t p k. some k) 4 20 timer_kernel
            ≡ run_timers_from (λ f t p k. some k) 3 20 none k))
      (fire (λ f t p k. some k) 30 timer_kernel)
    × (run_timers (λ f t p k. some k) 3 20 timer_kernel ≡ none)
run_timers-one_shot_example =
    run_timers-one_shot (λ f t p k. some k) 20 30 31 5 [] timer_kernel timers-IsTimers
      sample-IsConsistent refl refl refl refl (λ p k. refl) 3 (omega arith)

loop-IsFunctions : IsFunctions loop
loop-IsFunctions = record { storage = refl; head = omega arith; count = omega arith; tail = refl }

perform-appends_example :
    Returns
      (λ a.
        (a.0 ≡ success)
        × Queued (record { function = some 77; param = 1 }) loop (a.1.objects.run_loop 20)
        × IsConsistent a.1.threads)
      (perform (some 20) (some 77) 1 timer_kernel)
perform-appends_example =
    perform-appends 20 77 1 timer_kernel loop-IsFunctions sample-IsConsistent refl (omega arith)
