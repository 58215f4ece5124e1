-- ===== src/Interrupt/Start.antt =====
-- The start of the kernel: ar_kernel_run.
use argon_rtos.Prelude.{
  ℕ, ◌≡◌, ◌≢◌, refl, ◌∙◌, ap, true, false, some, List, [], ◌∷◌, arith, has, Bool, Returns,
  Returns-bind,
}
use argon_rtos.Types.{success, Thread, ready}
use argon_rtos.Kernel.{Kernel, idle_thread}
use argon_rtos.Kernel.Lists.{set_priority}
use argon_rtos.Kernel.Lock.{enter_scheduler, service_call}
use argon_rtos.Kernel.Scheduler.{set_timer_delay}
use argon_rtos.Thread.{set_threads, resume}
use argon_rtos.Thread.Create
use argon_rtos.Thread.Consistent.{is_ready, IsConsistent, IsOff}
use argon_rtos.Thread.Consistent.Create.{create-IsCreated}
use argon_rtos.Thread.Consistent.Created.{IsCreated, Resumed, resume-Resumed}
use argon_rtos.Thread.Consistent.Priority.{idle-Prioritized}
use argon_rtos.Interrupt.{init_fields, idle_thread_stack_size, kernel_run}

-- What ar_kernel_run leaves when it enters the scheduler: the kernel runs and has asked for the
-- scheduler, and the idle thread is ready with the lowest priority, beside the threads that there
-- were.
pub record Started (k k' : Kernel) : Type 0 where
  pub consistent : IsConsistent k'.threads
  pub is_running : k'.is_running ≡ true
  pub pend_sv : k'.port.pend_sv ≡ true
  pub idle_state : (k'.threads.thread idle_thread).state ≡ ready
  pub idle_priority : (k'.threads.thread idle_thread).priority ≡ 0
  pub others : (u : ℕ) → u ≢ idle_thread → k'.threads.thread u ≡ k.threads.thread u

entered :
    (k : Kernel) → k.is_running ≡ true → k.lock_count ≡ 0 → (enter_scheduler k).port.pend_sv ≡ true
unfolding enter_scheduler service_call
entered k r l = ground arith

entered-same :
    (k : Kernel)
    → ((enter_scheduler k).threads ≡ k.threads) × ((enter_scheduler k).is_running ≡ k.is_running)
unfolding enter_scheduler service_call
entered-same k = (ground arith, ground arith)

module _ (wrapper name entry stack : ℕ) (k : Kernel) where
  -- The last steps.
  abbrev running : Kernel → Kernel
  running k = enter_scheduler (record (set_timer_delay false 0 k) { is_running = true })

  running-Started :
      (j m : Kernel)
      → IsCreated wrapper name
          (some entry)
          0
          stack
          idle_thread_stack_size
          1
          idle_thread
          false
          (init_fields k)
          j
      → k.lock_count ≡ 0
      → Resumed idle_thread (set_threads (set_priority idle_thread 0 j.threads) j) m
      → Started k (running m)
  unfolding init_fields set_timer_delay
  running-Started j m c l r =
      let q = record (set_timer_delay false 0 m) { is_running = true } in
      let p = idle-Prioritized idle_thread 0 j c.moved.consistent (ap is_ready c.moved.state) in
      record {
        consistent = rw (entered-same q).0 r.moved.consistent;
        is_running = (entered-same q).1;
        pend_sv = entered q refl (omega (arith, r.same.4, c.lock_count, l));
        idle_state = rw (entered-same q).0 r.moved.state;
        idle_priority = rw (entered-same q).0 (
            ap (λ (x : Thread). x.priority) (r.fields idle_thread)
            ∙ ap (λ (x : Thread). x.priority) p.thread);
        others =
            λ u n. rw (entered-same q).0 (r.moved.others u n ∙ p.others u n ∙ c.moved.others u n);
      }

  -- The lists begin with a thread if one is ready.
  begins :
      (i : ℕ) (xs : List ℕ)
      → has i xs ≡ true
      → elim xs as (λ xs. Bool) [ [] ↦ true | _ ∷ _ ↦ false ] ≡ false
  begins i [] m = cc
  begins i (x ∷ xs) m = refl

  -- Starting the kernel does not halt before it enters the scheduler, outside of an interrupt handler
  -- and without a lock, with a thread ready, on lists that are consistent but for the idle thread,
  -- which is on none: the kernel runs and PendSV is pending, the idle thread is ready with priority
  -- 0, no other thread has changed, and the lists are consistent.
  pub kernel_run-Started :
      (i : ℕ)
      → IsOff idle_thread k.threads
      → has i k.threads.ready_list ≡ true
      → k.port.irq_state ≡ false
      → k.lock_count ≡ 0
      → Returns (Started k) (kernel_run wrapper name entry stack k)
  unfolding kernel_run init_fields
  kernel_run-Started i o m thread l = rw (begins i k.threads.ready_list m) (
      Returns-bind
        (Create.create wrapper name (some entry) 0 stack idle_thread_stack_size 1 false
          (some idle_thread) (init_fields k))
        _ _ _
        (create-IsCreated wrapper name (some entry) 0 stack idle_thread_stack_size 1 idle_thread
          (init_fields k) o (omega arith) false (omega arith) thread)
        (λ r c.
          let j = r.1 in
          let p =
            idle-Prioritized idle_thread 0 j c.1.moved.consistent (ap is_ready c.1.moved.state) in
          let n = set_threads (set_priority idle_thread 0 j.threads) j in
          Returns-bind (resume (some idle_thread) n) _
            (λ r. (r.0 ≡ success) × Resumed idle_thread n r.1) _
            (resume-Resumed idle_thread n p.consistent
              (ap (λ (x : Thread). x.state) p.thread ∙ c.1.moved.state) (c.1.irq_state ∙ thread))
            (λ r s. running-Started j r.1 c.1 l s.1)))
