-- ===== src/Classes/Thread/Lifetime.antt =====
-- The stack that a `Thread` object allocates, from `init` to the destructor.
use argon_rtos.Prelude.{
  ℕ, ◌≡◌, ◌≢◌, ◌≤◌, refl, ◌∙◌, ap, sym, Bool, true, false, Option, none, some, arith, Returns,
  Returns-bind, Returns-mono, ◌==◌, has, inl, inr, Bool-cases,
}
use argon_rtos.Types.{success, done, unknown, blocked}
use argon_rtos.Kernel.{Kernel}
use argon_rtos.Kernel.Scheduler.{is_thread}
use argon_rtos.Thread
use argon_rtos.Thread.Create
use argon_rtos.Thread.Consistent.{IsConsistent, IsOff}
use argon_rtos.Thread.Consistent.Ops.{Moved}
use argon_rtos.Thread.Consistent.Create.{create-IsCreated}
use argon_rtos.Thread.Consistent.Created.{IsCreated, created_state}
use argon_rtos.Thread.Consistent.Delete.{delete-Moved}
use argon_rtos.Classes.{Allocator}
use argon_rtos.Classes.Thread.{
  Program, set_allocated_stack, set_user_entry, set_kernel, choose_stack, init_on, init_chosen,
  init, destroy,
}

created-known : (start : Bool) → created_state start ≢ unknown
created-known true e = cc
created-known false e = cc

created-awake : (start : Bool) → created_state start ≢ blocked
created-awake true e = cc
created-awake false e = cc

module _ (a : Allocator) (t : ℕ) where
  -- The destructor of a thread that is not the current one, and that has a block of its own.
  destroy-frees :
      (s i : ℕ) (p : Program a)
      → IsConsistent p.kernel.threads
      → has i p.kernel.threads.ready_list ≡ true
      → i ≢ t
      → is_thread p.kernel.current_thread t ≡ false
      → p.kernel.port.irq_state ≡ false
      → (start : Bool) → (p.kernel.threads.thread t).state ≡ created_state start
      → (p.members t).allocated_stack ≡ some s
      → Returns
          (λ q. Moved t done p.kernel.threads q.kernel.threads × (q.heap ≡ a.free s p.heap))
          (destroy a t p)
  unfolding destroy set_kernel
  destroy-frees s i p c ri ne other thread start e own =
      Returns-bind (Thread.delete (some t) p.kernel) _ _ _
        (delete-Moved t p.kernel c i ri ne thread (λ u. created-known start (sym e ∙ u))
          (λ b. absurd (created-awake start (sym e ∙ b))))
        (λ r m. rw (m.0, other, own) (m.1, refl))

  -- A block that is allocated and freed leaves the others in use.
  freed :
      (size s b : ℕ) (h h' : a.Heap)
      → a.allocate size h ≡ (some s, h')
      → a.in_use b (a.free s h') ≡ a.in_use b h
  freed size s b h h' e = elim (Bool-cases (b == s)) [
    | inl same ↦
        let q : b ≡ s = ground arith in
        rw q (a.free_freed s h' ∙ sym (a.allocate_fresh size s h h' e))
    | inr apart ↦
        let n : b ≢ s = ground arith in a.free_others s b h' n ∙ a.allocate_others size s b h h' e n
  ]

  module _ (wrapper entry_address name param size priority i : ℕ) (entry : Option ℕ)
      (p : Program a) where
    -- Another thread stays ready.
    still-ready :
        (start : Bool) (k : Kernel) (s : ℕ)
        → IsOff t p.kernel.threads
        → IsCreated wrapper name (some entry_address) param s size priority t start p.kernel k
        → has i p.kernel.threads.ready_list ≡ true
        → i ≢ t
        → has i k.threads.ready_list ≡ true
    still-ready start k s o c ri ne =
        let d : (i == t) ≡ false = ground arith in
        c.moved.consistent.ready_iff i ∙ (rw (c.moved.others i ne) (sym (o.ready_iff i d) ∙ ri))

    -- The object with a block of its own.
    abbrev owning : ℕ → a.Heap → Program a
    owning s h = set_allocated_stack a t (some s) (record p { heap = h })

    init-owning :
        (start : Bool) (s : ℕ) (h : a.Heap)
        → a.allocate size p.heap ≡ (some s, h)
        → init a wrapper entry_address name entry param none size priority (some start) t p
          ≡ init_on a wrapper entry_address name entry param s size priority start t (owning s h)
    unfolding init init_chosen choose_stack
    init-owning start s h e =
        ap
          (λ (r : Option ℕ × a.Heap).
            init_chosen a wrapper entry_address name entry param r.0 size priority start t
              (set_allocated_stack a t r.0 (record p { heap = r.1 })))
          e

    -- A `Thread` object that is initialised without a stack allocates one, and its destructor frees
    -- it: if the heap has a block and ar_thread_create accepts the other arguments, both succeed and
    -- do not halt, on lists that are consistent but for the thread, for a thread that is not the
    -- current one, with another one ready. The thread is done, the lists are consistent, and the
    -- same blocks are in use as before.
    pub init-destroy :
        (start : Bool) (s : ℕ) (h : a.Heap)
        → a.allocate size p.heap ≡ (some s, h)
        → IsOff t p.kernel.threads
        → has i p.kernel.threads.ready_list ≡ true
        → i ≢ t
        → is_thread p.kernel.current_thread t ≡ false
        → 64 ≤ size
        → 1 ≤ priority
        → p.kernel.port.irq_state ≡ false
        → Returns
            (λ r.
              (r.0 ≡ success)
              × Returns
                  (λ q.
                    IsConsistent q.kernel.threads
                    × ((q.kernel.threads.thread t).state ≡ done)
                    × ((b : ℕ) → a.in_use b q.heap ≡ a.in_use b p.heap))
                  (destroy a t r.1))
            (init a wrapper entry_address name entry param none size priority (some start) t p)
    unfolding init init_on choose_stack set_allocated_stack set_user_entry set_kernel
    init-destroy start s h e o ri ne other large high thread = rw (init-owning start s h e) (
        Returns-bind
          (Create.create wrapper name (some entry_address) param s size priority start (some t)
            p.kernel)
          _ _ _
          (create-IsCreated wrapper name (some entry_address) param s size priority t p.kernel o
            large start high thread)
          (λ r c. (
            c.0,
            let q = set_kernel a r.1 (set_user_entry a t entry (owning s h)) in
                Returns-mono (destroy a t q) _ _
                  (destroy-frees s i q c.1.moved.consistent (still-ready start r.1 s o c.1 ri ne) ne
                    (ap (λ u. is_thread u t) c.1.current_thread ∙ other) (c.1.irq_state ∙ thread)
                    start c.1.moved.state (ground arith))
                  (λ q m. (
                    m.0.consistent,
                    m.0.state,
                    λ b. ap (a.in_use b) m.1 ∙ freed size s b p.heap h e,
                  )),
          )))
