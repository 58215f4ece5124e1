-- ===== src/Main.antt =====
-- The thread that main() runs in: `__iar_program_start` of src/cortex_m/ar_main_thread.cpp, from the
-- creation of the thread on. The stack of the linker file, its size, the addresses of the functions
-- and of `g_mainThread` are parameters. The code for the other compiler is disabled by `#if 0`.
use argon_rtos.Prelude.{
  ℕ, ◌≡◌, ◌≢◌, ◌≤◌, ◌<◌, ◌^◌, ap, sym, ◌∙◌, true, false, Option, some, ◌>>=◌, sub32, has, arith,
  Returns, Returns-bind, Returns-mono,
}
use argon_rtos.Types.{Thread, unknown, ready}
use argon_rtos.Kernel.{Kernel, Threads, idle_thread}
use argon_rtos.Thread.Create
use argon_rtos.Thread.Consistent.{IsConsistent, IsOff, is_ready, is_suspended}
use argon_rtos.Thread.Consistent.Moves.{IsConsistent-IsOff}
use argon_rtos.Thread.Consistent.Create.{create-IsCreated}
use argon_rtos.Thread.Consistent.Created.{IsCreated}
use argon_rtos.Interrupt.{kernel_run}
use argon_rtos.Interrupt.Start.{Started, kernel_run-Started}
use argon_rtos.Classes.{Allocator}
use argon_rtos.Classes.Thread.{
  Program, init, init_chosen, init_on, choose_stack, set_allocated_stack, set_user_entry,
  set_kernel,
}

-- `AR_SCHEDULER_STACK_SIZE` and `AR_MAIN_THREAD_PRIORITY`.
abbrev pub scheduler_stack_size : ℕ
scheduler_stack_size = 256

abbrev pub main_thread_priority : ℕ
main_thread_priority = 128

-- A thread that was not created is on no list.
pub new-IsOff : (t : ℕ) (l : Threads) → IsConsistent l → (l.thread t).state ≡ unknown → IsOff t l
new-IsOff t l c e =
    IsConsistent-IsOff t l c (ap is_ready e) (ap is_suspended e)
      (let w = c.sleeping_waits t in ground arith)

module _ (a : Allocator) (wrapper entry_address idle_name idle_entry idle_stack : ℕ)
    (main_name call_main stack section_size t : ℕ) (p : Program a) where
  -- The start of the program, up to the entry into the scheduler. What `init` returns is ignored.
  unfoldable pub program_start : Option Kernel
  program_start = do
    (status, p) ←
        init a wrapper entry_address main_name (some call_main) 0 (some stack)
          (sub32 section_size scheduler_stack_size) main_thread_priority (some true) t p
    kernel_run wrapper idle_name idle_entry idle_stack p.kernel

  -- The program starts, if the section of the stack has room for the scheduler's stack and a
  -- context, the lists are consistent, and the main thread and the idle thread were not created
  -- yet. It does not halt before it enters the scheduler: the kernel runs and PendSV is pending,
  -- the lists are consistent, the main thread is ready with its priority and the idle thread with
  -- priority 0. While no thread is current, the resuming of the two threads reads a priority
  -- through NULL; this holds whatever the processor reads there.
  pub program_start-Started :
      IsConsistent p.kernel.threads
      → (p.kernel.threads.thread t).state ≡ unknown
      → (p.kernel.threads.thread idle_thread).state ≡ unknown
      → t ≢ idle_thread
      → 320 ≤ section_size
      → section_size < 2 ^ 32
      → p.kernel.port.irq_state ≡ false
      → p.kernel.lock_count ≡ 0
      → Returns
          (λ k.
            IsConsistent k.threads
            × (k.is_running ≡ true)
            × (k.port.pend_sv ≡ true)
            × ((k.threads.thread t).state ≡ ready)
            × ((k.threads.thread t).priority ≡ main_thread_priority)
            × ((k.threads.thread idle_thread).state ≡ ready)
            × ((k.threads.thread idle_thread).priority ≡ 0))
          program_start
  unfolding program_start init init_chosen init_on choose_stack set_allocated_stack set_user_entry
      set_kernel
  program_start-Started c₀ new idle_new n room word thread l =
      let size = sub32 section_size scheduler_stack_size in
      let large : 64 ≤ size = omega arith in
      Returns-bind _ _
        (λ r.
          IsCreated wrapper main_name (some entry_address) 0 stack size main_thread_priority t true
            p.kernel r.1.kernel)
        _
        (Returns-bind
          (Create.create wrapper main_name (some entry_address) 0 stack size main_thread_priority
            true (some t) p.kernel)
          _ _ _
          (create-IsCreated wrapper main_name (some entry_address) 0 stack size main_thread_priority
            t p.kernel (new-IsOff t p.kernel.threads c₀ new) large true (omega arith) thread)
          (λ r c. c.1))
        (λ r c.
          let k = r.1.kernel in
          let m : has t k.threads.ready_list ≡ true =
            c.moved.consistent.ready_iff t ∙ ap is_ready c.moved.state in
          Returns-mono _ (Started k) _
            (kernel_run-Started wrapper idle_name idle_entry idle_stack k t
              (new-IsOff idle_thread k.threads c.moved.consistent (
                ap (λ (x : Thread). x.state) (c.moved.others idle_thread (λ e. n (sym e)))
                ∙ idle_new))
              m (c.irq_state ∙ thread) (c.lock_count ∙ l))
            (λ k' s. (
              s.consistent,
              s.is_running,
              s.pend_sv,
              rw (s.others t n) c.moved.state,
              rw (s.others t n) c.ranked,
              s.idle_state,
              s.idle_priority,
            )))
