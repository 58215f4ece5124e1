-- ===== src/Classes/Thread/Member.antt =====
-- A thread that runs a member function: `initForMemberFunction` leaves the pointer to it where
-- `member_thread_entry` looks for it.
use argon_rtos.Prelude.{
  ℕ, ◌+◌, ◌≡◌, ◌≤◌, refl, ◌∙◌, ap, Bool, true, false, Option, none, some, List, length, arith,
  Returns, Returns-bind, ◌==◌, if◌then◌else◌,
}
use argon_rtos.Types
use argon_rtos.Types.{success}
use argon_rtos.Kernel.{Kernel}
use argon_rtos.Thread
use argon_rtos.Thread.Create
use argon_rtos.Thread.Create.Stack.{IsPrepared}
use argon_rtos.Thread.Consistent.{IsOff}
use argon_rtos.Thread.Consistent.Create.{create-IsCreated}
use argon_rtos.Thread.Consistent.Created.{IsCreated, Resumed, resume-Resumed, Resumed-IsCreated}
use argon_rtos.Classes.{Allocator, ThreadMembers}
use argon_rtos.Classes.Thread.{
  Program, write_words, read_words, store_member, finish_member, set_allocated_stack,
  set_user_entry, set_kernel, choose_stack, init_on, init_chosen, init, init_for_member_function,
  resume, get_current, enter, thread_entry, member_thread_entry,
}
use argon_rtos.Classes.Thread.Words.{write_words-below, write_words-above, read_words-write_words}

-- The pointer is small enough to leave the words of the context that matter alone.
stored-IsPrepared :
    (wrapper t stack size param bottom top pointer : ℕ) (memory : ℕ → ℕ) (member : List ℕ)
    → length member ≤ 5
    → IsPrepared wrapper t stack size param bottom top pointer memory
    → IsPrepared wrapper t stack size param bottom top pointer
        (write_words (bottom + 4) member memory)
stored-IsPrepared wrapper t stack size param bottom top pointer memory member short i = record {
  bottom_aligned = i.bottom_aligned;
  top_aligned = i.top_aligned;
  above = i.above;
  below = i.below;
  context = i.context;
  overlap = i.overlap;
  check = write_words-below (bottom + 4) bottom member memory (omega arith) ∙ i.check;
  first_argument = kept (pointer + 32) (omega (arith, i.overlap)) ∙ i.first_argument;
  second_argument = kept (pointer + 36) (omega (arith, i.overlap)) ∙ i.second_argument;
  program_counter = kept (pointer + 56) (omega (arith, i.overlap)) ∙ i.program_counter;
  status_word = kept (pointer + 60) (omega (arith, i.overlap)) ∙ i.status_word;
}
  where
    kept : (q : ℕ) → bottom + 24 ≤ q → write_words (bottom + 4) member memory q ≡ memory q
    kept q l = write_words-above (bottom + 4) q member memory (omega (arith, short))

-- What the function at an address does: `member_thread_entry` at its own, and nothing is known of the
-- others.
abbrev pub call :
    ((object : ℕ) → List ℕ → Kernel → Option Kernel)
    → (entry : ℕ) → List ℕ
    → (f param : ℕ) → Kernel
    → Option Kernel
call invoke entry member f param k =
    if f == entry then member_thread_entry invoke (length member) param k else none

-- The kernel when a thread runs.
abbrev pub run_in : ℕ → Kernel → Kernel
run_in t k = record k { current_thread = some t }

module _ (a : Allocator) (wrapper entry_address name object entry stack size priority t : ℕ)
    (member : List ℕ) (p : Program a) where
  abbrev IsMember : Bool → Kernel → Type 0
  IsMember start k =
      IsCreated wrapper name (some entry_address) object stack size priority t start p.kernel k
      × (read_words (length member) ((k.threads.thread t).stack_bottom + 4) k.objects.memory
          ≡ member)

  stored-IsMember :
      (k : Kernel)
      → length member ≤ 5
      → IsCreated wrapper name (some entry_address) object stack size priority t false p.kernel k
      → IsMember false (store_member t member k)
  unfolding store_member
  stored-IsMember k short c = (
    record {
      moved = c.moved;
      irq_state = c.irq_state;
      current_thread = c.current_thread;
      lock_count = c.lock_count;
      named = c.named;
      enters = c.enters;
      ranked = c.ranked;
      numbered = c.numbered;
      prepared =
          stored-IsPrepared wrapper t stack size object _ _ _ k.objects.memory member short
            c.prepared;
    },
    read_words-write_words ((k.threads.thread t).stack_bottom + 4) member k.objects.memory,
  )

  finish_member-IsMember :
      (start : Bool) (k : Kernel)
      → length member ≤ 5
      → p.kernel.port.irq_state ≡ false
      → IsCreated wrapper name (some entry_address) object stack size priority t false p.kernel k
      → Returns (IsMember start) (finish_member member start t k)
  unfolding finish_member resume
  finish_member-IsMember false k short thread c = stored-IsMember k short c
  finish_member-IsMember true k short thread c =
      let s = stored-IsMember k short c in
      let j = store_member t member k in
      (Returns-bind (Thread.resume (some t) j) _ (λ r. (r.0 ≡ success) × Resumed t j r.1) _
        (resume-Resumed t j s.0.moved.consistent s.0.moved.state (s.0.irq_state ∙ thread))
        (λ r q. (
          Resumed-IsCreated wrapper name (some entry_address) object stack size priority t p.kernel
              j r.1 s.0 q.1,
          rw (ap (λ (x : Types.Thread). x.stack_bottom) (q.1.fields t), q.1.same.1) s.1,
        )))

  module _ (invoke : (object : ℕ) → List ℕ → Kernel → Option Kernel) where
    entered :
        (members : ℕ → ThreadMembers) (k : Kernel)
        → (members t).user_entry ≡ some entry
        → read_words (length member) ((k.threads.thread t).stack_bottom + 4) k.objects.memory
          ≡ member
        → thread_entry (call invoke entry member) members object (run_in t k)
          ≡ invoke object member (run_in t k)
    unfolding thread_entry enter member_thread_entry get_current
    entered members k e r =
        let same : (entry == entry) ≡ true = ground arith in rw (e, enter, same, r) refl

    -- `initForMemberFunction` with a stack from the caller succeeds and does not halt, where
    -- ar_thread_create does and the pointer has at most five words, on lists that are consistent
    -- but for the thread: the thread is created, and is ready if it is to start and suspended if
    -- not. Once the thread runs, its entry point calls the member function with that pointer on the
    -- object.
    pub init_for_member_function-runs :
        (start : Bool)
        → IsOff t p.kernel.threads
        → 64 ≤ size
        → 1 ≤ priority
        → p.kernel.port.irq_state ≡ false
        → length member ≤ 5
        → Returns
            (λ r.
              (r.0 ≡ success)
              × IsCreated wrapper name
                  (some entry_address)
                  object
                  stack
                  size
                  priority
                  t
                  start
                  p.kernel
                  r.1.kernel
              × (thread_entry (call invoke entry member) r.1.members object (run_in t r.1.kernel)
                  ≡ invoke object member (run_in t r.1.kernel)))
            (init_for_member_function a wrapper entry_address name object entry member
              (some stack)
              size
              priority
              start
              t
              p)
    unfolding init_for_member_function init init_chosen init_on choose_stack set_allocated_stack
        set_user_entry set_kernel
    init_for_member_function-runs start o large high thread short =
        Returns-bind _ _
          (λ r.
            (r.0 ≡ success)
            × IsCreated wrapper name (some entry_address) object stack size priority t false
                p.kernel r.1.kernel
            × ((r.1.members t).user_entry ≡ some entry))
          _
          (Returns-bind
            (Create.create wrapper name (some entry_address) object stack size priority false
              (some t) p.kernel)
            _ _ _
            (create-IsCreated wrapper name (some entry_address) object stack size priority t
              p.kernel o large false high thread)
            (λ r q. (q.0, q.1, ground arith)))
          (λ r q. rw (q.0) (
            Returns-bind (finish_member member start t r.1.kernel) _ (IsMember start) _
              (finish_member-IsMember start r.1.kernel short thread q.1)
              (λ k m. (q.0, m.0, entered r.1.members k q.2 m.1))))
