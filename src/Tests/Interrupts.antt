-- ===== src/Tests/Interrupts.antt =====
-- Runs of the interrupt handlers and of the port at concrete inputs.
use argon_rtos.Prelude.{
  ◌+◌, ◌≤◌, ℕ, ◌≡◌, refl, true, false, some, ◌>>=◌, List, [], ◌∷◌, ◌==◌, arith, if◌then◌else◌,
  Returns, May-mono, update,
}
use argon_rtos.Types.{success}
use argon_rtos.Kernel.{
  Kernel, deferred_resume, deferred_channel_send, deferred_timer_start, action_extra_value,
  ActionQueue,
}
use argon_rtos.Deferred.{post, post_with, next_index}
use argon_rtos.Deferred.Contents.{
  IsActions, actions, entry, Requested, post-appends, post_with-appends,
}
use argon_rtos.Deferred.Concurrent.{Shared, run_callers}
use argon_rtos.Deferred.Concurrent.Slots.{AllApart, total, reserved}
use argon_rtos.Deferred.Concurrent.Schedule.{callers, run_callers-AllApart}
use argon_rtos.Interrupt.{run_action, run_deferred_actions, yield_isr}
use argon_rtos.Interrupt.Deferral.{QuietFrom}
use argon_rtos.Interrupt.Quiet.{resume-QuietFrom}
use argon_rtos.Interrupt.Commands.{Command, run_commands, all_entries, entries_of, takes_argument}
use argon_rtos.Interrupt.Drain.{RunsQuietly, run_deferred_actions-commands, set_deferred}
use argon_rtos.Interrupt.Ticks.{IsSchedulable}
use argon_rtos.Interrupt.Yield.{Resumes, saved, yield_isr-Resumes}
use argon_rtos.Interrupt.{save_stack_pointer}
use argon_rtos.Kernel.Lists.{
  sort_by_priority, sort_by_wakeup, ready_add, set_state, set_unblock_status,
}
use argon_rtos.Port.Atomics.{
  Processor, Boundary, behind_restore, interrupts, atomic_cas, atomic_add,
}
use argon_rtos.Port.Atomics.Exclusive.{Stored, entered, atomic_cas-Stored, atomic_add-cas}
use argon_rtos.Port.SysTick.{Registers, set_timer_delay}
use argon_rtos.Port.SysTick.Reload.{IsArmed, set_timer_delay-IsArmed}
use argon_rtos.Timer.Fire.{reschedule}
use argon_rtos.Timer.Reschedule.{IsNext, reschedule-IsNext}
use argon_rtos.ArList.Seq
use argon_rtos.Channel.{send_receive_internal, send_receive_locked, copy_value, transfer}
use argon_rtos.Kernel.Lock.{lock, unlock, enter_scheduler}
use argon_rtos.Block.{
  unblock_with_status, blocked_list, has_timeout, blocked_remove, set_blocked_list,
}
use argon_rtos.Kernel.Tick.{update_round_robin}
use argon_rtos.Thread.{current_priority, make_ready}
use argon_rtos.Tests.Sample.{sample_kernel, sample_actions}

idle-IsActions : IsActions sample_actions
idle-IsActions = record { storage = refl; first = omega arith; count = omega arith; last = refl }

post-appends_example :
    Returns
      (λ r.
        (r.0 ≡ success)
        × (actions r.1.deferred_actions ≡ some (entry deferred_resume 3) ∷ [])
        × IsActions r.1.deferred_actions
        × Requested sample_kernel r.1)
      (post deferred_resume 3 sample_kernel)
post-appends_example = post-appends deferred_resume 3 0 sample_kernel idle-IsActions (omega arith)

post_with-appends_example :
    Returns
      (λ r.
        (r.0 ≡ success)
        × (actions r.1.deferred_actions
            ≡ some (entry deferred_timer_start 8) ∷ some (entry action_extra_value 120) ∷ [])
        × IsActions r.1.deferred_actions)
      (post_with deferred_timer_start 8 120 sample_kernel)
post_with-appends_example =
    post_with-appends deferred_timer_start 8 120 sample_kernel idle-IsActions (omega arith)

-- Interrupt handlers have sent the value at 50 to channel 11, on which thread 6 waits, and then
-- resumed thread 3. The queue wraps.
abbrev busy_actions : ActionQueue
busy_actions = record {
  count = 3;
  first = 7;
  last = 2;
  entries =
      entry action_extra_value 50
      ∷ entry deferred_resume 3
      ∷ entry action_extra_value 0
      ∷ entry action_extra_value 0
      ∷ entry action_extra_value 0
      ∷ entry action_extra_value 0
      ∷ entry action_extra_value 0
      ∷ entry deferred_channel_send 11
      ∷ [];
}

abbrev busy_kernel : Kernel
busy_kernel = record sample_kernel { deferred_actions = busy_actions }

busy-IsActions : IsActions busy_actions
busy-IsActions = record { storage = refl; first = omega arith; count = omega arith; last = refl }

abbrev commands : List Command
commands =
    record { action = deferred_channel_send; object = 11; arg = 50 }
    ∷ record { action = deferred_resume; object = 3; arg = 0 }
    ∷ []

busy_entries : actions busy_actions ≡ all_entries commands
unfolding all_entries entries_of takes_argument next_index
busy_entries = refl

sent_quiet :
    QuietFrom
      (set_deferred true busy_kernel)
      (record { action = deferred_channel_send; object = 11; arg = 50 })
unfolding QuietFrom run_action send_receive_internal send_receive_locked lock copy_value transfer
    unblock_with_status blocked_list Seq.remove Seq.add Seq.insert_sorted update_round_robin unlock
    enter_scheduler current_priority make_ready ready_add set_state has_timeout blocked_remove
    set_unblock_status set_blocked_list
sent_quiet = refl

busy_quiet : RunsQuietly commands (set_deferred true busy_kernel)
unfolding RunsQuietly QuietFrom
busy_quiet =
    May-mono (run_action deferred_channel_send 11 50 (set_deferred true busy_kernel)) _ _ sent_quiet
      (λ k e. (
        e,
        May-mono (run_action deferred_resume 3 0 _) _ _ (resume-QuietFrom 3 0 _) (λ k e. (e, tt)),
      ))

run_deferred_actions-commands_example :
    (run_deferred_actions 4 busy_kernel ≡ (
      run_commands commands (set_deferred true busy_kernel) >>= λ k. some (set_deferred false k)))
    × ((k : Kernel)
        → run_commands commands (set_deferred true busy_kernel) ≡ some k
        → actions k.deferred_actions ≡ [])
unfolding all_entries entries_of takes_argument
run_deferred_actions-commands_example =
    run_deferred_actions-commands commands 4 busy_kernel refl busy_quiet busy-IsActions busy_entries
      (omega arith)

saved-IsSchedulable : IsSchedulable (saved 950 sample_kernel)
unfolding save_stack_pointer sort_by_priority sort_by_wakeup
saved-IsSchedulable = record {
  consistent = record {
    shaped = record {
      distinct_ready = (refl, (refl, tt));
      distinct_suspended = (refl, tt);
      distinct_sleeping = (refl, (refl, tt));
      sorted_ready = (refl, (tt, tt));
      sorted_sleeping = (refl, (tt, tt));
    };
    ready_iff = λ t. ground arith;
    suspended_iff = λ t. ground arith;
    sleeping_waits = λ t m. ground arith;
    sleeping_listed = λ t m. ground arith;
  };
  alone = λ u r. ground arith;
  first = 2;
  head = refl;
  stacks = λ u v. (ground arith, ground arith);
}

yield_isr-Resumes_example : Returns (Resumes 950 sample_kernel) (yield_isr 1 950 sample_kernel)
yield_isr-Resumes_example = yield_isr-Resumes 0 950 sample_kernel refl refl saved-IsSchedulable

abbrev processor : Processor
processor = record { memory = λ a. if a == 40 then 5 else 0; primask = false }

-- Handlers add 2 to the variable at 40 wherever they may run.
abbrev counting_isr : Boundary → (ℕ → ℕ) → ℕ → ℕ
counting_isr b memory = update memory 40 (memory 40 + 2)

atomic_cas-Stored_example :
    (p' : Processor) × Stored 40 6 (entered counting_isr 8 40 processor) p'
    × (atomic_cas counting_isr 8 40 7 6 processor
        ≡ (true, interrupts counting_isr behind_restore p'))
unfolding interrupts
atomic_cas-Stored_example = atomic_cas-Stored counting_isr 8 40 processor 7 6

atomic_add-cas_example :
    (p' : Processor) × Stored 40 5 (entered counting_isr 8 40 processor) p'
    × (atomic_add counting_isr 8 40 254 processor ≡ (7, interrupts counting_isr behind_restore p'))
    × (atomic_cas counting_isr 8 40 7 261 processor
        ≡ (true, interrupts counting_isr behind_restore p'))
unfolding interrupts
atomic_add-cas_example = atomic_add-cas counting_isr 8 40 processor 254 (omega arith)

abbrev registers : Registers
registers = record {
  load = 0;
  val = 0;
  enable = false;
  tick_int = false;
  count_flag = false;
  pending = false;
}

set_timer_delay-IsArmed_example :
    IsArmed 48_000_000 48 10_000 (set_timer_delay 48_000_000 true 10_000 registers)
set_timer_delay-IsArmed_example =
    set_timer_delay-IsArmed 48_000_000 48 10_000 refl (omega arith) (omega arith) (omega arith)
      registers

reschedule-IsNext_example : (v : ℕ) × (reschedule 100 7 130 ≡ some v) × IsNext 100 7 130 v
reschedule-IsNext_example = reschedule-IsNext 100 7 130 (omega arith) (omega arith) (omega arith)

-- Three callers want two, one and one places; the second one interrupts the first one twice.
abbrev shared : Shared
shared = record { count = 5; tail = 7 }

run_callers-AllApart_example :
    let (s, cs) =
      run_callers 8
        (0 ∷ 1 ∷ 1 ∷ 0 ∷ 0 ∷ 1 ∷ 0 ∷ 0 ∷ 1 ∷ 2 ∷ 0 ∷ 0 ∷ [])
        shared
        (callers (2 ∷ 1 ∷ 1 ∷ [])) in
    AllApart 8 cs × (s.count ≡ 5 + total reserved cs) × (s.count ≤ 8)
run_callers-AllApart_example =
    run_callers-AllApart 8 (0 ∷ 1 ∷ 1 ∷ 0 ∷ 0 ∷ 1 ∷ 0 ∷ 0 ∷ 1 ∷ 2 ∷ 0 ∷ 0 ∷ []) (2 ∷ 1 ∷ 1 ∷ [])
      shared (omega arith) (omega arith)
