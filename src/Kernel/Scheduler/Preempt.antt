-- ===== src/Kernel/Scheduler/Preempt.antt =====
-- The switch of the scheduler to a thread: the states of that one and of the others.
use argon_rtos.Prelude.{
  ℕ, ◌≡◌, ◌≢◌, refl, ◌∙◌, sym, true, Option, none, some, arith, if◌then◌else◌, has, inl, inr,
  Bool-cases,
}
use argon_rtos.Types.{ThreadState, ready, running}
use argon_rtos.Kernel.{Kernel, Threads}
use argon_rtos.Kernel.Lists.{sort_by_priority, sort_by_wakeup, set_state}
use argon_rtos.Kernel.Scheduler.{is_running_state, preempt, is_thread, switch_to}
use argon_rtos.Kernel.Scheduler.Choice.{is_running_state→eq}
use argon_rtos.Thread.Consistent.{IsConsistent, is_ready}
use argon_rtos.ArList.Seq.Sorted.{IsSorted-frame}

-- A thread may go from one of the states ready and running to the other.
pub set_state-IsConsistent :
    (t : ℕ) (s : ThreadState) (l : Threads)
    → IsConsistent l
    → is_ready (l.thread t).state ≡ true
    → is_ready s ≡ true
    → IsConsistent (set_state t s l)
unfolding set_state sort_by_priority sort_by_wakeup
set_state-IsConsistent t s l c r r' = record {
  shaped = record {
    distinct_ready = c.shaped.distinct_ready;
    distinct_suspended = c.shaped.distinct_suspended;
    distinct_sleeping = c.shaped.distinct_sleeping;
    sorted_ready =
        IsSorted-frame (sort_by_priority l.thread) _ l.ready_list (λ a b ma mb. ground arith)
          c.shaped.sorted_ready;
    sorted_sleeping =
        IsSorted-frame (sort_by_wakeup l.thread) _ l.sleeping_list (λ a b ma mb. ground arith)
          c.shaped.sorted_sleeping;
  };
  ready_iff = λ u. ground (arith, c.ready_iff u);
  suspended_iff = λ u. ground (arith, c.suspended_iff u);
  sleeping_waits = λ u m. ground (arith, c.sleeping_waits u);
  sleeping_listed = λ u m. ground (arith, c.sleeping_listed u);
}

preempt-IsConsistent :
    (current : Option ℕ) (l : Threads) → IsConsistent l → IsConsistent (preempt current l)
unfolding preempt
preempt-IsConsistent none l c = c
preempt-IsConsistent (some t) l c = elim (Bool-cases (is_running_state (l.thread t).state)) [
  | inl r ↦ rw r (set_state-IsConsistent t ready l c (rw (is_running_state→eq _ r)) refl)
  | inr n ↦ rw n c
]

-- Only the current thread may be in the state running.
abbrev pub IsAlone : Kernel → Type 0
IsAlone k = (u : ℕ) → (k.threads.thread u).state ≡ running → k.current_thread ≡ some u

-- What is known once `t` was chosen: it is the current thread. It is running, unless it was
-- current before, which leaves its state alone. No other thread is running.
pub record Runs (t : ℕ) (k k' : Kernel) : Type 0 where
  pub current : k'.current_thread ≡ some t
  pub state :
      (k'.threads.thread t).state
      ≡ (if is_thread k.current_thread t then (k.threads.thread t).state else running)
  pub alone : IsAlone k'
  pub consistent : IsConsistent k'.threads
  pub ready_list : k'.threads.ready_list ≡ k.threads.ready_list
  pub priority : (u : ℕ) → (k'.threads.thread u).priority ≡ (k.threads.thread u).priority
  pub stack_pointer :
      (u : ℕ) → (k'.threads.thread u).stack_pointer ≡ (k.threads.thread u).stack_pointer
  pub stack_bottom :
      (u : ℕ) → (k'.threads.thread u).stack_bottom ≡ (k.threads.thread u).stack_bottom
  pub objects : k'.objects ≡ k.objects

module _ (l : Threads) (u : ℕ) where
  preempt-priority :
      (current : Option ℕ) → ((preempt current l).thread u).priority ≡ (l.thread u).priority
  unfolding preempt set_state
  preempt-priority none = refl
  preempt-priority (some t) = ground arith

  preempt-stack :
      (current : Option ℕ)
      → (((preempt current l).thread u).stack_pointer ≡ (l.thread u).stack_pointer)
        × (((preempt current l).thread u).stack_bottom ≡ (l.thread u).stack_bottom)
  unfolding preempt set_state
  preempt-stack none = (refl, refl)
  preempt-stack (some t) = (ground arith, ground arith)

  preempt-ready_list : (current : Option ℕ) → (preempt current l).ready_list ≡ l.ready_list
  unfolding preempt set_state
  preempt-ready_list none = refl
  preempt-ready_list (some t) = ground arith

  preempt-is_ready :
      (current : Option ℕ)
      → is_ready (l.thread u).state ≡ true
      → is_ready ((preempt current l).thread u).state ≡ true
  unfolding preempt set_state
  preempt-is_ready none r = r
  preempt-is_ready (some t) r = ground arith

  preempt_no_running :
      (current : Option ℕ)
      → ((l.thread u).state ≡ running → current ≡ some u)
      → ((preempt current l).thread u).state ≢ running
  unfolding preempt set_state
  preempt_no_running none h e = cc (h e)
  preempt_no_running (some t) h e = ground arith

pub switch_to-Runs :
    (t : ℕ) (k : Kernel)
    → IsConsistent k.threads
    → IsAlone k
    → has t k.threads.ready_list ≡ true
    → Runs t k (switch_to t k)
unfolding switch_to set_state
switch_to-Runs t k c a m = elim (Bool-cases (is_thread k.current_thread t)) [
  | inl e ↦ rw e (record {
    current = same k.current_thread e;
    state = rw e;
    alone = a;
    consistent = c;
    ready_list = refl;
    priority = λ u. refl;
    stack_pointer = λ u. refl;
    stack_bottom = λ u. refl;
    objects = refl;
  })
  | inr e ↦
      let l = preempt k.current_thread k.threads in
      let r : is_ready (l.thread t).state ≡ true =
        preempt-is_ready k.threads t k.current_thread (sym (c.ready_iff t) ∙ m) in
      rw e (record {
        current = refl;
        state = ground arith;
        alone = λ u q. ground (arith, preempt_no_running k.threads u k.current_thread (a u));
        consistent =
            set_state-IsConsistent t running l (preempt-IsConsistent k.current_thread k.threads c) r
              refl;
        ready_list = preempt-ready_list k.threads t k.current_thread;
        priority = λ u. ground (arith, preempt-priority k.threads u k.current_thread);
        stack_pointer = λ u. ground (arith, preempt-stack k.threads u k.current_thread);
        stack_bottom = λ u. ground (arith, preempt-stack k.threads u k.current_thread);
        objects = refl;
      })
]
  where
    same : (o : Option ℕ) → is_thread o t ≡ true → o ≡ some t
    same none e = cc
    same (some x) e = ground arith
