-- ===== src/Thread/Consistent/Create.antt =====
-- Creating a thread: ar_thread_create with ar_port_prepare_stack.
use argon_rtos.Prelude.{
  ℕ, ◌+◌, ◌-◌, ◌≡◌, ◌≢◌, ◌≤◌, refl, ◌∙◌, ap, Bool, true, false, some, Option, ◌>>=◌, ◌==◌, ltb,
  if◌then◌else◌, arith, Returns, Returns-bind, u32, update,
}
use argon_rtos.Types.{success, Thread, suspended, min_thread_priority}
use argon_rtos.Kernel.{Kernel}
use argon_rtos.Kernel.Lock.{lock, enter_scheduler, service_call}
use argon_rtos.Thread.{set_threads, resume, thread_context_size}
use argon_rtos.Thread.Create.{
  aligned_top, aligned_bottom, write_context, prepare_stack, new_thread, create_checked, create,
}
use argon_rtos.Thread.Create.Stack.{IsPrepared, write_context-IsPrepared}
use argon_rtos.Thread.Consistent.Created.{IsCreated, Resumed, resume-Resumed, Resumed-IsCreated}
use argon_rtos.Thread.Consistent.{IsOff}
use argon_rtos.Thread.Consistent.Moves.{put_suspended}
use argon_rtos.Thread.Consistent.Puts.{
  with_thread-IsOff, suspended_add-put, put_suspended-IsConsistent,
}
use argon_rtos.Thread.Consistent.Steps.{unlocked, unlocked-threads, unlocked-lock_count, unlock-ok}
use argon_rtos.Thread.Consistent.Ops.{Moved}

module _ (wrapper name : ℕ) (entry : Option ℕ) (param stack size priority t : ℕ) (k : Kernel) where
  -- The kernel with the new thread, which is on no list, under the lock.
  abbrev written : Kernel
  written =
      let id = u32 (k.thread_id_counter + 1) in
      let l = k.threads in
      let x = new_thread name stack priority entry id in
      lock (
        prepare_stack wrapper t size param (record k {
          thread_id_counter = id;
          threads = record l { thread = update l.thread t x };
        }))

  -- The kernel once the thread is on the suspended list.
  abbrev listed : Kernel
  listed = unlocked (set_threads (put_suspended t written.threads) written)

  -- The thread structure once the stack is prepared.
  abbrev prepared : Thread
  prepared = record (new_thread name stack priority entry (u32 (k.thread_id_counter + 1))) {
    stack_top = aligned_top stack size;
    stack_bottom = aligned_bottom stack size;
    stack_pointer = aligned_top stack size - thread_context_size;
  }

  written-thread : written.threads.thread t ≡ prepared
  unfolding prepare_stack lock new_thread
  written-thread = let e : (t == t) ≡ true = ground arith in rw e refl

  written-memory :
      written.objects.memory
      ≡ write_context wrapper t prepared.stack_pointer param prepared.stack_bottom k.objects.memory
  unfolding prepare_stack lock new_thread
  written-memory = let e : (t == t) ≡ true = ground arith in rw e refl

  written-others : (u : ℕ) → u ≢ t → written.threads.thread u ≡ k.threads.thread u
  unfolding prepare_stack lock
  written-others u n = ground arith

  listed-objects : listed.objects ≡ written.objects
  unfolding unlocked enter_scheduler service_call
  listed-objects = ground arith

  listed-IsPrepared :
      64 ≤ size
      → IsPrepared wrapper t stack size param prepared.stack_bottom prepared.stack_top
          prepared.stack_pointer listed.objects.memory
  listed-IsPrepared large =
      rw (listed-objects, written-memory)
        (write_context-IsPrepared wrapper t stack size param large k.objects.memory)

  listed-irq_state : listed.port.irq_state ≡ k.port.irq_state
  unfolding unlocked enter_scheduler service_call prepare_stack lock
  listed-irq_state = ground arith

  listed-current_thread : listed.current_thread ≡ k.current_thread
  unfolding unlocked enter_scheduler service_call prepare_stack lock
  listed-current_thread = ground arith

  listed-lock_count : listed.lock_count ≡ k.lock_count
  unfolding prepare_stack lock
  listed-lock_count =
      unlocked-lock_count (set_threads (put_suspended t written.threads) written) ∙ omega arith

  module _ (o : IsOff t k.threads) (large : 64 ≤ size) where
    written-IsOff : IsOff t written.threads
    unfolding prepare_stack lock
    written-IsOff =
        let x = new_thread name stack priority entry (u32 (k.thread_id_counter + 1)) in
        with_thread-IsOff t _ _ (with_thread-IsOff t x k.threads o)

    listed-threads : listed.threads ≡ put_suspended t written.threads
    listed-threads = unlocked-threads _

    listed-Moved : Moved t suspended k.threads listed.threads
    unfolding new_thread
    listed-Moved = rw listed-threads (record {
      consistent =
          put_suspended-IsConsistent t written.threads written-IsOff (rw written-thread refl);
      state = rw written-thread refl;
      others = written-others;
    })

    locked : (written.lock_count == 0) ≡ false
    unfolding prepare_stack lock
    locked = ground arith

    create_checked-listed :
        (start : Bool)
        → create_checked wrapper name entry param stack size priority start t k ≡ (
            if start
            then (resume (some t) listed >>= λ r. some (success, r.1))
            else some (success, listed))
    unfolding create_checked
    create_checked-listed start =
        rw
          (
            suspended_add-put t written.threads written-IsOff,
            ◌>>=◌,
            unlock-ok (set_threads (put_suspended t written.threads) written) locked,
          )
          refl

    listed-IsCreated : IsCreated wrapper name entry param stack size priority t false k listed
    unfolding new_thread
    listed-IsCreated =
        let e : listed.threads.thread t ≡ prepared = rw (listed-threads, written-thread) refl in
        record {
          moved = listed-Moved;
          irq_state = listed-irq_state;
          current_thread = listed-current_thread;
          lock_count = listed-lock_count;
          named = ap (λ (x : Thread). x.name) e;
          enters = ap (λ (x : Thread). x.entry) e;
          ranked = ap (λ (x : Thread). x.priority) e;
          numbered = ap (λ (x : Thread). x.unique_id) e;
          prepared = rw (listed-threads, written-thread) (listed-IsPrepared large);
        }

    checked-IsCreated :
        (start : Bool)
        → k.port.irq_state ≡ false
        → Returns
            (λ r.
              (r.0 ≡ success)
              × IsCreated wrapper name entry param stack size priority t start k r.1)
            (create_checked wrapper name entry param stack size priority start t k)
    checked-IsCreated false thread = rw (create_checked-listed false) (refl, listed-IsCreated)
    checked-IsCreated true thread = rw (create_checked-listed true) (
        Returns-bind (resume (some t) listed) _ (λ r. (r.0 ≡ success) × Resumed t listed r.1) _
          (resume-Resumed t listed listed-Moved.consistent listed-Moved.state
            (listed-irq_state ∙ thread))
          (λ r p. (
            refl,
            Resumed-IsCreated wrapper name entry param stack size priority t k listed r.1
                listed-IsCreated p.1,
          )))

    -- The checks of ar_thread_create let the call through.
    create_started :
        (start : Bool)
        → 1 ≤ priority
        → k.port.irq_state ≡ false
        → create wrapper name entry param stack size priority start (some t) k
          ≡ create_checked wrapper name entry param stack size priority start t k
    unfolding create
    create_started start high thread =
        let p : ltb priority min_thread_priority ≡ false = ground arith in
        let q : ltb size thread_context_size ≡ false = ground arith in simp (p, q, thread)

    -- Creating a thread that is on no list, outside of an interrupt handler, with a stack that holds
    -- a context and a priority that is not the idle thread's, succeeds and does not halt on lists
    -- that are consistent but for the thread: the thread is ready if it is to start and suspended
    -- if not, with its entry point, its priority and the next identifier, the lists are consistent,
    -- and no other thread changes. Its stack is within the block, aligned to 8 bytes, has the check
    -- value at its bottom, and at its top the context that calls the wrapper with the thread and the
    -- parameter; the context begins at most 8 bytes below the bottom.
    pub create-IsCreated :
        (start : Bool)
        → 1 ≤ priority
        → k.port.irq_state ≡ false
        → Returns
            (λ r.
              (r.0 ≡ success)
              × IsCreated wrapper name entry param stack size priority t start k r.1)
            (create wrapper name entry param stack size priority start (some t) k)
    create-IsCreated start high thread =
        rw (create_started start high thread) (checked-IsCreated start thread)
