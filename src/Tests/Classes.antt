-- ===== src/Tests/Classes.antt =====
-- Runs of the creation of threads, of the class `Thread` and of the start of the program.
use argon_rtos.Prelude.{
  ℕ, ◌≡◌, ◌≢◌, refl, ap, Bool, true, false, ◌&&◌, Option, none, some, List, [], ◌∷◌, ◌==◌, arith,
  if◌then◌else◌, Returns,
}
use argon_rtos.Types.{success, object_deleted_error, ready, done, unknown}
use argon_rtos.Kernel.{Kernel, Threads, idle_thread}
use argon_rtos.Thread.Create
use argon_rtos.Thread.Consistent.{IsConsistent, IsOff}
use argon_rtos.Thread.Consistent.Create.{create-IsCreated}
use argon_rtos.Thread.Consistent.Created.{IsCreated}
use argon_rtos.Block.{of_semaphore, blocked_list, unblock_all}
use argon_rtos.Block.Empty.{AreBlocked, Emptied, unblock_all-Emptied}
use argon_rtos.Classes.{Allocator}
use argon_rtos.Classes.Thread.{Program, init, init_for_member_function, destroy, thread_entry}
use argon_rtos.Classes.Thread.Lifetime.{init-destroy}
use argon_rtos.Classes.Thread.Member.{call, run_in, init_for_member_function-runs}
use argon_rtos.Main.{new-IsOff, main_thread_priority, program_start, program_start-Started}
use argon_rtos.Tests.Sample.{
  sample_kernel, sample_threads, sample_thread, sample-IsConsistent, sample-IsBlocked,
}

-- A heap with one block, at 2000. A heap tells whether the block is in use.
abbrev take_block : Bool → Option ℕ × Bool
take_block true = (none, true)
take_block false = (some 2000, true)

empty-no_block : (o : Option ℕ) (p : ℕ) → o ≡ none → o ≢ some p
empty-no_block o p n e = cc

take_block-fresh : (p : ℕ) (h h' : Bool) → take_block h ≡ (some p, h') → (p == 2000) && h ≡ false
take_block-fresh p true h' e =
    absurd (empty-no_block none p refl (ap (λ (r : Option ℕ × Bool). r.0) e))
take_block-fresh p false h' e = ground arith

take_block-others :
    (p q : ℕ) (h h' : Bool)
    → take_block h ≡ (some p, h')
    → q ≢ p
    → ((q == 2000) && h') ≡ ((q == 2000) && h)
take_block-others p q true h' e n =
    absurd (empty-no_block none p refl (ap (λ (r : Option ℕ × Bool). r.0) e))
take_block-others p q false h' e n =
    let f : some 2000 ≡ some p = ap (λ (r : Option ℕ × Bool). r.0) e in ground (arith, f)

free_block-freed : (p : ℕ) (h : Bool) → ((p == 2000) && (if p == 2000 then false else h)) ≡ false
free_block-freed p h = ground arith

free_block-others :
    (p q : ℕ) (h : Bool)
    → q ≢ p
    → ((q == 2000) && (if p == 2000 then false else h)) ≡ ((q == 2000) && h)
free_block-others p q h n = ground arith

abbrev one_block : Allocator
one_block = record {
  Heap = Bool;
  allocate = λ size h. take_block h;
  free = λ p h. if p == 2000 then false else h;
  in_use = λ p h. (p == 2000) && h;
  allocate_fresh = λ size p h h' e. take_block-fresh p h h' e;
  allocate_others = λ size p q h h' e n. take_block-others p q h h' e n;
  free_freed = free_block-freed;
  free_others = free_block-others;
}

five-AreBlocked : AreBlocked (5 ∷ []) (of_semaphore 7) sample_kernel
unfolding blocked_list
five-AreBlocked = record {
  listed = refl;
  distinct = (refl, tt);
  each = λ t m. let e : t ≡ 5 = ground arith in rw e sample-IsBlocked;
}

-- Thread 8 was not created.
eight-IsOff : IsOff 8 sample_threads
eight-IsOff = new-IsOff 8 sample_threads sample-IsConsistent refl

create-IsCreated_example :
    Returns
      (λ r. (r.0 ≡ success) × IsCreated 70 0 (some 71) 5 2004 100 9 8 true sample_kernel r.1)
      (Create.create 70 0 (some 71) 5 2004 100 9 true (some 8) sample_kernel)
create-IsCreated_example =
    create-IsCreated 70 0 (some 71) 5 2004 100 9 8 sample_kernel eight-IsOff (omega arith) true
      (omega arith) refl

unblock_all-Emptied_example :
    Returns
      (Emptied (5 ∷ []) (of_semaphore 7) object_deleted_error sample_kernel)
      (unblock_all (of_semaphore 7) object_deleted_error sample_kernel)
unblock_all-Emptied_example =
    unblock_all-Emptied (of_semaphore 7) object_deleted_error (5 ∷ []) sample_kernel
      sample-IsConsistent five-AreBlocked

abbrev sample_program : Program one_block
sample_program = record {
  kernel = sample_kernel;
  heap = false;
  members = λ t. record { allocated_stack = none; user_entry = none };
}

init-destroy_example :
    Returns
      (λ r.
        (r.0 ≡ success)
        × Returns
            (λ q.
              IsConsistent q.kernel.threads
              × ((q.kernel.threads.thread 8).state ≡ done)
              × ((b : ℕ) → one_block.in_use b q.heap ≡ one_block.in_use b false))
            (destroy one_block 8 r.1))
      (init one_block 70 72 0 (some 71) 5 none 100 9 (some true) 8 sample_program)
init-destroy_example =
    init-destroy one_block 8 70 72 0 5 100 9 1 (some 71) sample_program true 2000 true refl
      eight-IsOff refl (ground arith) refl (omega arith) (omega arith) refl

-- A member function that sets the counter of the threads to the address of its object.
abbrev run_member : ℕ → List ℕ → Kernel → Option Kernel
run_member object member k = some (record k { thread_id_counter = object })

init_for_member_function-runs_example :
    Returns
      (λ r.
        (r.0 ≡ success)
        × IsCreated 70 0 (some 72) 5 2004 100 9 8 true sample_kernel r.1.kernel
        × (thread_entry (call run_member 73 (90 ∷ 91 ∷ [])) r.1.members 5 (run_in 8 r.1.kernel)
            ≡ run_member 5 (90 ∷ 91 ∷ []) (run_in 8 r.1.kernel)))
      (init_for_member_function one_block 70 72 0 5 73
        (90 ∷ 91 ∷ [])
        (some 2004)
        100
        9
        true
        8
        sample_program)
init_for_member_function-runs_example =
    init_for_member_function-runs one_block 70 72 0 5 73 2004 100 9 8 (90 ∷ 91 ∷ []) sample_program
      run_member true eight-IsOff (omega arith) (omega arith) refl (omega arith)

-- The kernel before it runs: no thread was created.
abbrev new_threads : Threads
new_threads = record {
  ready_list = [];
  suspended_list = [];
  sleeping_list = [];
  thread = λ t. sample_thread 0 0 unknown;
}

abbrev new_program : Program one_block
new_program = record {
  kernel = record sample_kernel {
    current_thread = none;
    threads = new_threads;
    is_running = false;
  };
  heap = false;
  members = λ t. record { allocated_stack = none; user_entry = none };
}

new-IsConsistent : IsConsistent new_threads
new-IsConsistent = record {
  shaped = record {
    distinct_ready = tt;
    distinct_suspended = tt;
    distinct_sleeping = tt;
    sorted_ready = tt;
    sorted_sleeping = tt;
  };
  ready_iff = λ t. refl;
  suspended_iff = λ t. refl;
  sleeping_waits = λ t m. cc;
  sleeping_listed = λ t m. cc;
}

program_start-Started_example :
    Returns
      (λ k.
        IsConsistent k.threads
        × (k.is_running ≡ true)
        × (k.port.pend_sv ≡ true)
        × ((k.threads.thread 8).state ≡ ready)
        × ((k.threads.thread 8).priority ≡ main_thread_priority)
        × ((k.threads.thread idle_thread).state ≡ ready)
        × ((k.threads.thread idle_thread).priority ≡ 0))
      (program_start one_block 70 72 1 74 3000 2 75 4000 1024 8 new_program)
program_start-Started_example =
    program_start-Started one_block 70 72 1 74 3000 2 75 4000 1024 8 new_program new-IsConsistent
      refl refl (ground arith) (omega arith) (omega arith) refl refl
