-- ===== src/Interrupt/Ticks.antt =====
-- The ticks that ar_kernel_yield_isr of src/ar_kernel.cpp accounts for, missed or new.
use argon_rtos.Prelude.{
  ℕ, ◌+◌, ◌≤◌, ◌≡◌, refl, ◌∙◌, sym, ap, subst, Bool, true, false, some, List, [], ◌∷◌, ◌==◌, leb,
  ltb, u32, has, arith, Bool-cases, inl, inr, Returns, Returns-bind, Returns-mono, ◌||◌,
}
use argon_rtos.Types.{Thread, ThreadState}
use argon_rtos.Kernel.{Kernel}
use argon_rtos.Kernel.Tick.{increment_tick_count}
use argon_rtos.Kernel.Tick.Wake.{Woken}
use argon_rtos.Kernel.Tick.Increment.{
  at_time, increment_tick_count-wakes_one, increment_tick_count-wakes_none,
}
use argon_rtos.Kernel.Scheduler.Preempt.{IsAlone}
use argon_rtos.Kernel.Scheduler.Switch.{HasStack}
use argon_rtos.Thread.Consistent.{IsConsistent, is_ready, is_waiting}
use argon_rtos.Thread.Consistent.Steps.{head-has}
use argon_rtos.ArList.Seq
use argon_rtos.Interrupt.{catch_up}

-- Whether a thread in the state may run without a call that names it.
abbrev pub is_live : ThreadState → Bool
is_live s = is_ready s || is_waiting s

-- What the scheduler needs of a kernel: consistent lists, at most the current thread running, a
-- ready thread, and intact stacks of the threads that are ready or wait.
pub record IsSchedulable (k : Kernel) : Type 0 where
  pub consistent : IsConsistent k.threads
  pub alone : IsAlone k
  pub first : ℕ
  pub head : Seq.head? k.threads.ready_list ≡ some first
  pub stacks : (t : ℕ) → is_live (k.threads.thread t).state ≡ true → HasStack k t

-- The ticks that have passed leave the stacks, the objects and the current thread alone.
pub record Ticked (k k' : Kernel) : Type 0 where
  pub schedulable : IsSchedulable k'
  pub stack_pointer :
      (t : ℕ) → (k'.threads.thread t).stack_pointer ≡ (k.threads.thread t).stack_pointer
  pub current_thread : k'.current_thread ≡ k.current_thread
  pub lock_count : k'.lock_count ≡ k.lock_count
  pub deferred_actions : k'.deferred_actions ≡ k.deferred_actions

module _ (k : Kernel) (s : IsSchedulable k) where
  at_time-Ticked : (now : ℕ) → Ticked k (at_time now k)
  at_time-Ticked now = record {
    schedulable = record {
      consistent = s.consistent;
      alone = s.alone;
      first = s.first;
      head = s.head;
      stacks = s.stacks;
    };
    stack_pointer = λ t. refl;
    current_thread = refl;
    lock_count = refl;
    deferred_actions = refl;
  }

  module _ (x now : ℕ) (k' : Kernel) (w : Woken x (at_time now k) k')
      (due : has x k.threads.sleeping_list ≡ true) where
    same_stack_pointer :
        (u : ℕ) → (k'.threads.thread u).stack_pointer ≡ (k.threads.thread u).stack_pointer
    same_stack_pointer u = elim (Bool-cases (u == x)) [
      | inl e ↦ let e' : u ≡ x = ground arith in rw e' w.stack_pointer
      | inr n ↦ ap (λ (x : Thread). x.stack_pointer) (w.others u (ground arith))
    ]

    same_stack_bottom :
        (u : ℕ) → (k'.threads.thread u).stack_bottom ≡ (k.threads.thread u).stack_bottom
    same_stack_bottom u = elim (Bool-cases (u == x)) [
      | inl e ↦ let e' : u ≡ x = ground arith in rw e' w.stack_bottom
      | inr n ↦ ap (λ (x : Thread). x.stack_bottom) (w.others u (ground arith))
    ]

    still-IsAlone : IsAlone k'
    still-IsAlone u r = elim (Bool-cases (u == x)) [
      | inl e ↦
          let e' : u ≡ x = ground arith in
          absurd (ground (arith, ap (λ t. (k'.threads.thread t).state) e', w.state))
      | inr n ↦
          w.current_thread
          ∙ s.alone u (sym (ap (λ (x : Thread). x.state) (w.others u (ground arith))) ∙ r)
    ]

    still_live :
        (u : ℕ)
        → is_live (k'.threads.thread u).state ≡ true
        → is_live (k.threads.thread u).state ≡ true
    still_live u v = elim (Bool-cases (u == x)) [
      | inl e ↦
          let e' : u ≡ x = ground arith in
          ground (arith, ap (λ t. (k.threads.thread t).state) e', s.consistent.sleeping_waits x due)
      | inr n ↦
          subst (λ y. is_live y ≡ true) (ap (λ (x : Thread). x.state) (w.others u (ground arith))) v
    ]

    woken-Ticked : Ticked k k'
    woken-Ticked =
        let m : has x k'.threads.ready_list ≡ true =
          ground (arith, w.consistent.ready_iff x, w.state) in
        let (h, e) = head-has x k'.threads.ready_list m in
        record {
          schedulable = record {
            consistent = w.consistent;
            alone = still-IsAlone;
            first = h;
            head = e;
            stacks = λ u v.
                let old = s.stacks u (still_live u v) in
                let p = same_stack_pointer u in
                let b = same_stack_bottom u in (rw (p, b) old.0, rw (w.objects, b) old.1);
          };
          stack_pointer = same_stack_pointer;
          current_thread = w.current_thread;
          lock_count = w.lock_count;
          deferred_actions = w.deferred_actions;
        }

  module _ (ticks : ℕ) where
    abbrev now : ℕ
    now = u32 (k.tick_count + ticks)

    none-Ticked :
        increment_tick_count ticks k ≡ some (false, at_time now k)
        → Returns (λ r. Ticked k r.1) (increment_tick_count ticks k)
    none-Ticked e = rw e (at_time-Ticked now)

    reached-Ticked :
        (xs : List ℕ)
        → k.threads.sleeping_list ≡ xs
        → k.next_wakeup ≤ now
        → Returns (λ r. Ticked k r.1) (increment_tick_count ticks k)
    reached-Ticked [] e le = none-Ticked (increment_tick_count-wakes_none ticks k (inr (inl e)))
    reached-Ticked (x ∷ xs) e le = elim (Bool-cases (leb (k.threads.thread x).wakeup_time now)) [
      | inl due ↦
          Returns-mono (increment_tick_count ticks k) _ _
            (increment_tick_count-wakes_one ticks x xs k s.consistent e le (ground arith))
            (λ r w. woken-Ticked x now r.1 w.1 (ground (arith, ap (has x) e)))
      | inr early ↦
          none-Ticked (increment_tick_count-wakes_none ticks k (inr (inr (x, xs, e, ground arith))))
    ]

    -- Time that passes leaves the kernel fit for the scheduler.
    pub increment-Ticked : Returns (λ r. Ticked k r.1) (increment_tick_count ticks k)
    increment-Ticked = elim (Bool-cases (ltb now k.next_wakeup)) [
      | inl early ↦ none-Ticked (increment_tick_count-wakes_none ticks k (inl (ground arith)))
      | inr reached ↦ reached-Ticked k.threads.sleeping_list refl (ground arith)
    ]

-- Another change of the kernel that the scheduler does not read.
abbrev caught_up : Kernel → Kernel
caught_up k = record k { missed_tick_count = 0 }

pub catch_up-Ticked : (k : Kernel) → IsSchedulable k → Returns (Ticked k) (catch_up k)
unfolding catch_up
catch_up-Ticked k s =
    let s' : IsSchedulable (caught_up k) = record {
      consistent = s.consistent;
      alone = s.alone;
      first = s.first;
      head = s.head;
      stacks = s.stacks;
    } in
    elim (Bool-cases (k.missed_tick_count == 0)) [
      | inl e ↦ rw e (record {
        schedulable = s';
        stack_pointer = λ t. refl;
        current_thread = refl;
        lock_count = refl;
        deferred_actions = refl;
      })
      | inr n ↦ rw n (
          Returns-bind (increment_tick_count k.missed_tick_count (caught_up k)) _ _ (Ticked k)
            (increment-Ticked (caught_up k) s' k.missed_tick_count)
            (λ r w. record {
              schedulable = w.schedulable;
              stack_pointer = w.stack_pointer;
              current_thread = w.current_thread;
              lock_count = w.lock_count;
              deferred_actions = w.deferred_actions;
            }))
    ]
