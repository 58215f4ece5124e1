-- ===== src/Interrupt/Yield.antt =====
-- The PendSV handler ar_kernel_yield_isr of src/ar_kernel.cpp, from the saved context to the restored
-- one.
use argon_rtos.Prelude.{
  ℕ, suc, ◌≡◌, refl, ◌∙◌, sym, ap, subst, true, false, Option, none, some, ◌>>=◌, ◌==◌,
  if◌then◌else◌, arith, Returns, Returns-bind,
}
use argon_rtos.Kernel.{Kernel, Threads}
use argon_rtos.Kernel.Tick.{increment_tick_count}
use argon_rtos.Kernel.Scheduler.{scheduler, is_thread}
use argon_rtos.Kernel.Scheduler.Choice.{IsHighest}
use argon_rtos.Kernel.Scheduler.Preempt.{IsAlone, Runs}
use argon_rtos.Kernel.Scheduler.Switch.{scheduler-Runs}
use argon_rtos.Thread.{set_threads}
use argon_rtos.Thread.Consistent.{IsConsistent}
use argon_rtos.Interrupt.{
  run_entries, run_deferred_actions, elapsed_ticks, save_stack_pointer, catch_up, yield_isr,
}
use argon_rtos.Interrupt.Ticks.{IsSchedulable, Ticked, increment-Ticked, catch_up-Ticked}

-- What the handler leaves, if it was entered with stack pointer `sp`: a ready thread of the highest
-- priority is current, no other one is running, and the handler returns its stack pointer, which is
-- `sp` for the interrupted thread and the one saved last for another thread.
pub record Resumes (sp : ℕ) (k : Kernel) (r : ℕ × Kernel) : Type 0 where
  pub thread : ℕ
  pub current : r.1.current_thread ≡ some thread
  pub highest : IsHighest r.1.threads thread
  pub alone : IsAlone r.1
  pub consistent : IsConsistent r.1.threads
  pub restored :
      r.0
      ≡ (if is_thread k.current_thread thread then sp else (k.threads.thread thread).stack_pointer)

-- The kernel with the context of the interrupted thread saved.
abbrev pub saved : ℕ → Kernel → Kernel
saved sp k = set_threads (save_stack_pointer sp k.current_thread k.threads) k

saved-pointer :
    (sp : ℕ) (current : Option ℕ) (l : Threads) (t : ℕ)
    → ((save_stack_pointer sp current l).thread t).stack_pointer
      ≡ (if is_thread current t then sp else (l.thread t).stack_pointer)
unfolding save_stack_pointer
saved-pointer sp none l t = refl
saved-pointer sp (some c) l t = ground arith

Runs-IsHighest :
    (t : ℕ) (k k' : Kernel) → IsHighest k.threads t → Runs t k k' → IsHighest k'.threads t
Runs-IsHighest t k k' h r = record {
  on_list = rw r.ready_list h.on_list;
  above = λ u m. omega (arith, h.above u (rw (← r.ready_list) m), r.priority u, r.priority t);
}

no_actions :
    (fuel : ℕ) (k : Kernel)
    → (k.lock_count == 0) ≡ true
    → (k.deferred_actions.count == 0) ≡ true
    → run_deferred_actions (suc fuel) k ≡ some (record k { is_running_deferred = false })
unfolding run_deferred_actions run_entries
no_actions fuel k free idle = rw (free, run_entries, idle) refl

module _ (fuel sp : ℕ) (k : Kernel) (free : (k.lock_count == 0) ≡ true)
    (idle : (k.deferred_actions.count == 0) ≡ true) (s : IsSchedulable (saved sp k)) where
  -- The end of the handler, once the deferred actions have run.
  scheduled-Resumes :
      (k₁ k₂ : Kernel)
      → Ticked (saved sp k) k₁
      → Ticked k₁ k₂
      → Returns (Resumes sp k) (
          scheduler k₂ >>= λ k.
          let k = record k { needs_reschedule = false } in
          k.current_thread >>= λ t. some ((k.threads.thread t).stack_pointer, k))
  scheduled-Resumes k₁ k₂ a b =
      let z = b.schedulable in
      Returns-bind (scheduler k₂) _ (λ k₃. (t : ℕ) × IsHighest k₂.threads t × Runs t k₂ k₃)
        (Resumes sp k)
        (scheduler-Runs k₂ z.consistent z.alone z.first z.head
          (λ t m. z.stacks t (ground (arith, z.consistent.ready_iff t))))
        (λ k₃ (t, h, r).
          Returns-bind k₃.current_thread _ (λ u. u ≡ t) (Resumes sp k)
            (subst (λ c. Returns (λ u. u ≡ t) c) (sym r.current) refl)
            (λ u e. record {
              thread = t;
              current = r.current;
              highest = Runs-IsHighest t k₂ k₃ h r;
              alone = r.alone;
              consistent = r.consistent;
              restored =
                  ap (λ u. (k₃.threads.thread u).stack_pointer) e
                  ∙ (r.stack_pointer t
                      ∙ (b.stack_pointer t
                          ∙ (a.stack_pointer t ∙ saved-pointer sp k.current_thread k.threads t)));
            }))

  abbrev ran : Kernel → Kernel
  ran k = record k { is_running_deferred = false }

  -- The handler does not halt on a kernel that is not locked and has no deferred actions, if the
  -- lists are consistent, a thread is ready, at most the current thread is running and the stacks of
  -- the threads that are ready or wait are intact once the context is saved: whatever ticks were missed or have passed, a ready thread
  -- of the highest priority is current behind it, no other one runs, the lists are consistent, and
  -- the stack pointer that it returns is that thread's, as it was saved.
  pub yield_isr-Resumes : Returns (Resumes sp k) (yield_isr (suc fuel) sp k)
  unfolding yield_isr
  yield_isr-Resumes =
      rw (free, ◌>>=◌)
        (Returns-bind (catch_up (saved sp k)) _ (Ticked (saved sp k)) (Resumes sp k)
          (catch_up-Ticked (saved sp k) s)
          (λ k₁ a.
            let run = no_actions fuel k₁ (rw a.lock_count free) (rw a.deferred_actions idle) in
            let z = a.schedulable in
            let z' : IsSchedulable (ran k₁) = record {
              consistent = z.consistent;
              alone = z.alone;
              first = z.first;
              head = z.head;
              stacks = z.stacks;
            } in
            let a' : Ticked (saved sp k) (ran k₁) = record {
              schedulable = z';
              stack_pointer = a.stack_pointer;
              current_thread = a.current_thread;
              lock_count = a.lock_count;
              deferred_actions = a.deferred_actions;
            } in
            rw (run, ◌>>=◌)
              (Returns-bind (increment_tick_count (elapsed_ticks (ran k₁)) (ran k₁)) _
                (λ r. Ticked (ran k₁) r.1) (Resumes sp k)
                (increment-Ticked (ran k₁) z' (elapsed_ticks (ran k₁)))
                (λ r b. scheduled-Resumes (ran k₁) r.1 a' b))))
