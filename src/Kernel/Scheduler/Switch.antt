-- ===== src/Kernel/Scheduler/Switch.antt =====
-- What ar_kernel_scheduler leaves.
use argon_rtos.Prelude.{
  ℕ, ◌≤◌, ◌≡◌, ◌∙◌, sym, true, some, ◌>>=◌, ◌==◌, arith, has, ap, inl, inr, Bool-cases, Returns,
  Returns-bind, Returns-mono, subst, ◌>>◌,
}
use argon_rtos.Kernel.{Kernel}
use argon_rtos.Kernel.Scheduler.{
  account_load, choose, switch_to, check_stack, arm_timer, set_timer_delay, scheduler,
  stack_check_value,
}
use argon_rtos.Kernel.Tick.{get_next_wakeup_time}
use argon_rtos.Kernel.Scheduler.Loads.{SameLoad, account_load-SameLoad, SameLoad-IsConsistent}
use argon_rtos.Kernel.Scheduler.Choice.{IsHighest, choose-IsHighest}
use argon_rtos.Thread.Consistent.{IsConsistent}
use argon_rtos.ArList.Seq
use argon_rtos.Kernel.Scheduler.Preempt.{IsAlone, Runs, switch_to-Runs}

-- The stack of a thread passes the check for an overflow.
abbrev pub HasStack : Kernel → ℕ → Type 0
HasStack k t =
    ((k.threads.thread t).stack_bottom ≤ (k.threads.thread t).stack_pointer)
    × (k.objects.memory (k.threads.thread t).stack_bottom ≡ stack_check_value)

check_stack-HasStack : (k : Kernel) (t : ℕ) → HasStack k t → check_stack t k ≡ some tt
unfolding check_stack
check_stack-HasStack k t h = ground arith

-- Arming the timer touches no thread.
arm_timer-Runs : (t : ℕ) (k k' : Kernel) → Runs t k k' → Runs t k (arm_timer k')
unfolding arm_timer set_timer_delay
arm_timer-Runs t k k' r = elim (Bool-cases (get_next_wakeup_time k' == k'.next_wakeup)) [
  | inl e ↦ rw e r
  | inr e ↦ rw e (record {
    current = r.current;
    state = r.state;
    alone = r.alone;
    consistent = r.consistent;
    ready_list = r.ready_list;
    priority = r.priority;
    stack_pointer = r.stack_pointer;
    stack_bottom = r.stack_bottom;
    objects = r.objects;
  })
]

-- Load accounting in front does not matter.
SameLoad-IsHighest :
    (k k₁ : Kernel) (t : ℕ) → SameLoad k k₁ → IsHighest k₁.threads t → IsHighest k.threads t
SameLoad-IsHighest k k₁ t s h = record {
  on_list = rw (← s.ready_list) h.on_list;
  above = λ u m.
      omega (arith, h.above u (rw s.ready_list m), (s.thread u).priority, (s.thread t).priority);
}

SameLoad-Runs : (k k₁ k₂ : Kernel) (t : ℕ) → SameLoad k k₁ → Runs t k₁ k₂ → Runs t k k₂
SameLoad-Runs k k₁ k₂ t s r = record {
  current = r.current;
  state = rw (← (s.thread t).state, ← s.current_thread) r.state;
  alone = r.alone;
  consistent = r.consistent;
  ready_list = r.ready_list ∙ s.ready_list;
  priority = λ u. r.priority u ∙ (s.thread u).priority;
  stack_pointer = λ u. r.stack_pointer u ∙ (s.thread u).stack_pointer;
  stack_bottom = λ u. r.stack_bottom u ∙ (s.thread u).stack_bottom;
  objects = r.objects ∙ s.objects;
}

SameLoad-IsAlone : (k k₁ : Kernel) → SameLoad k k₁ → IsAlone k → IsAlone k₁
SameLoad-IsAlone k k₁ s a u r = s.current_thread ∙ a u (sym (s.thread u).state ∙ r)

pub Runs-HasStack : (k k' : Kernel) (t u : ℕ) → Runs t k k' → HasStack k u → HasStack k' u
Runs-HasStack k k' t u r h =
    let b = r.stack_bottom u in let p = r.stack_pointer u in (rw (b, p) h.0, rw (r.objects, b) h.1)

module _ (k : Kernel) (c : IsConsistent k.threads) (a : IsAlone k) (first : ℕ)
    (e : Seq.head? k.threads.ready_list ≡ some first)
    (stacks : (t : ℕ) → has t k.threads.ready_list ≡ true → HasStack k t) where
  abbrev accounted : Kernel
  accounted = account_load k.current_thread k

  accounted-SameLoad : SameLoad k accounted
  accounted-SameLoad = account_load-SameLoad k.current_thread k

  -- The scheduler once `t` was chosen.
  switched-Runs :
      (t : ℕ)
      → IsHighest accounted.threads t
      → Returns
          (λ k'. IsHighest k.threads t × Runs t k k')
          (check_stack t (switch_to t accounted) >> some (arm_timer (switch_to t accounted)))
  switched-Runs t h =
      let s = accounted-SameLoad in
      let c₁ = SameLoad-IsConsistent k accounted s c in
      let h' = SameLoad-IsHighest k accounted t s h in
      let r =
        SameLoad-Runs k accounted (switch_to t accounted) t s
          (switch_to-Runs t accounted c₁ (SameLoad-IsAlone k accounted s a) h.on_list) in
      rw
        (
          check_stack-HasStack (switch_to t accounted) t
              (Runs-HasStack k (switch_to t accounted) t t r (stacks t h'.on_list)),
          ◌>>=◌,
        )
        (h', arm_timer-Runs t k (switch_to t accounted) r)

  chosen-IsHighest :
      Returns
        (IsHighest accounted.threads)
        (choose accounted.current_thread first accounted.threads)
  chosen-IsHighest =
      let s = accounted-SameLoad in
      choose-IsHighest accounted.threads (SameLoad-IsConsistent k accounted s c) first
        (ap Seq.head? s.ready_list ∙ e) accounted.current_thread

  -- The thread that the scheduler chooses runs.
  pub scheduler-picks :
      (t : ℕ)
      → choose accounted.current_thread first accounted.threads ≡ some t
      → Returns (λ k'. IsHighest k.threads t × Runs t k k') (scheduler k)
  unfolding scheduler
  scheduler-picks t o =
      rw (e, ◌>>=◌, o, ◌>>=◌)
        (switched-Runs t (subst (Returns (IsHighest accounted.threads)) o chosen-IsHighest))

  -- On consistent lists with a ready thread, where at most the current thread is in the state
  -- running and the ready threads have intact stacks, the scheduler does not halt. The thread that
  -- it makes current is ready and of the highest priority; it is in the state running, unless it
  -- was the current one already, and no other thread is. The lists stay consistent.
  pub scheduler-Runs : Returns (λ k'. (t : ℕ) × IsHighest k.threads t × Runs t k k') (scheduler k)
  unfolding scheduler
  scheduler-Runs =
      rw (e, ◌>>=◌)
        (Returns-bind (choose accounted.current_thread first accounted.threads) _
          (IsHighest accounted.threads) _ chosen-IsHighest
          (λ t h.
            Returns-mono _ _ (λ k'. (t : ℕ) × IsHighest k.threads t × Runs t k k')
              (switched-Runs t h) (λ k' p. (t, p.0, p.1))))
