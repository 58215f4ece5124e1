-- ===== src/Thread/Consistent/Created.antt =====
-- What is known of a thread that was created, and that resuming it keeps this.
use argon_rtos.Prelude.{
  ℕ, ◌+◌, ◌≡◌, subst, ◌∙◌, ap, sym, Bool, true, false, some, Option, arith, Returns, Returns-mono,
  Returns-May, u32,
}
use argon_rtos.Types.{success, Thread, ThreadState, suspended, ready}
use argon_rtos.Kernel.{Kernel}
use argon_rtos.Thread.{resume, resume_internal}
use argon_rtos.Thread.Create.Stack.{IsPrepared}
use argon_rtos.Thread.Keeps.{Same, Same-refl, resume_internal-Keeps}
use argon_rtos.Thread.Keeps.Fields.{SameFields, resume_internal-SameFields}
use argon_rtos.Thread.Consistent.{IsConsistent}
use argon_rtos.Thread.Consistent.Ops.{Moved}
use argon_rtos.Thread.Consistent.Resume.{resume_internal-Moved}

-- The state of a new thread.
abbrev pub created_state : Bool → ThreadState
created_state true = ready
created_state false = suspended

-- What creating thread `t` leaves.
pub record IsCreated (wrapper name : ℕ) (entry : Option ℕ) (param stack size priority t : ℕ)
    (start : Bool) (k k' : Kernel) : Type 0 where
  pub moved : Moved t (created_state start) k.threads k'.threads
  pub irq_state : k'.port.irq_state ≡ k.port.irq_state
  pub current_thread : k'.current_thread ≡ k.current_thread
  pub lock_count : k'.lock_count ≡ k.lock_count
  pub named : (k'.threads.thread t).name ≡ name
  pub enters : (k'.threads.thread t).entry ≡ entry
  pub ranked : (k'.threads.thread t).priority ≡ priority
  pub numbered : (k'.threads.thread t).unique_id ≡ u32 (k.thread_id_counter + 1)
  pub prepared :
      IsPrepared wrapper t stack size param
        (k'.threads.thread t).stack_bottom
        (k'.threads.thread t).stack_top
        (k'.threads.thread t).stack_pointer
        k'.objects.memory

-- What resuming a suspended thread leaves: nothing changes but the state of the thread.
pub record Resumed (t : ℕ) (k k' : Kernel) : Type 0 where
  pub moved : Moved t ready k.threads k'.threads
  pub same : Same 0 k k'
  pub fields : SameFields k.threads k'.threads

module _ (t : ℕ) (k : Kernel) where
  resume-internal :
      (k.threads.thread t).state ≡ suspended
      → k.port.irq_state ≡ false
      → resume (some t) k ≡ resume_internal t k
  unfolding resume
  resume-internal e thread = simp (resume, e, thread)

  pub resume-Resumed :
      IsConsistent k.threads
      → (k.threads.thread t).state ≡ suspended
      → k.port.irq_state ≡ false
      → Returns (λ r. (r.0 ≡ success) × Resumed t k r.1) (resume (some t) k)
  resume-Resumed c e thread = rw (resume-internal e thread) (
      Returns-mono (resume_internal t k)
        (λ r.
          (((r.0 ≡ success) × Moved t ready k.threads r.1.threads) × Same 0 k r.1)
          × SameFields k.threads r.1.threads)
        _
        (Returns-May _ _ _
          (Returns-May _ _ _ (rw e at (resume_internal-Moved t k c))
            (resume_internal-Keeps k t k (Same-refl k)))
          (resume_internal-SameFields t k))
        (λ r p. (p.0.0.0, record { moved = p.0.0.1; same = p.0.1; fields = p.1 })))

module _ (wrapper name : ℕ) (entry : Option ℕ) (param stack size priority t : ℕ) (k : Kernel) where
  pub Resumed-IsCreated :
      (k₀ k' : Kernel)
      → IsCreated wrapper name entry param stack size priority t false k k₀
      → Resumed t k₀ k'
      → IsCreated wrapper name entry param stack size priority t true k k'
  Resumed-IsCreated k₀ k' c r = record {
    moved = record {
      consistent = r.moved.consistent;
      state = r.moved.state;
      others = λ u n. r.moved.others u n ∙ c.moved.others u n;
    };
    irq_state = r.same.2 ∙ c.irq_state;
    current_thread = r.same.5 ∙ c.current_thread;
    lock_count = r.same.4 ∙ (omega arith ∙ c.lock_count);
    named = ap (λ (x : Thread). x.name) (r.fields t) ∙ c.named;
    enters = ap (λ (x : Thread). x.entry) (r.fields t) ∙ c.enters;
    ranked = ap (λ (x : Thread). x.priority) (r.fields t) ∙ c.ranked;
    numbered = ap (λ (x : Thread). x.unique_id) (r.fields t) ∙ c.numbered;
    prepared =
        subst
          (λ (x : Thread).
            IsPrepared wrapper t stack size param x.stack_bottom x.stack_top x.stack_pointer
              k'.objects.memory)
          (sym (r.fields t)) (rw r.same.1 c.prepared);
  }
