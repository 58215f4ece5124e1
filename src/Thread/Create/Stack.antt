-- ===== src/Thread/Create/Stack.antt =====
-- The stack that ar_port_prepare_stack leaves: where it is, and what is on it.
use argon_rtos.Prelude.{ℕ, ◌+◌, ◌-◌, ◌%◌, ◌≡◌, ◌≤◌, arith}
use argon_rtos.Kernel.Scheduler.{stack_check_value}
use argon_rtos.Thread.{thread_context_size}
use argon_rtos.Thread.Create.{initial_xpsr, aligned_top, aligned_bottom, write_context}

-- The stack of thread `t` as the first switch to it needs it: within the block of `size` bytes at
-- `stack`, aligned, with the check value at its bottom and the first context at its top.
pub record IsPrepared (wrapper t stack size param bottom top pointer : ℕ) (memory : ℕ → ℕ)
    : Type 0 where
  pub bottom_aligned : bottom % 8 ≡ 0
  pub top_aligned : top % 8 ≡ 0
  pub above : stack ≤ bottom
  pub below : top ≤ stack + size
  pub context : pointer + thread_context_size ≡ top
  pub overlap : bottom ≤ pointer + 8
  pub check : memory bottom ≡ stack_check_value
  pub first_argument : memory (pointer + 32) ≡ t
  pub second_argument : memory (pointer + 36) ≡ param
  pub program_counter : memory (pointer + 56) ≡ wrapper
  pub status_word : memory (pointer + 60) ≡ initial_xpsr

module _ (bottom size : ℕ) (large : 64 ≤ size) where
  aligned_top_bounds :
      (aligned_top bottom size % 8 ≡ 0)
      × (aligned_top bottom size ≤ bottom + size)
      × (64 ≤ aligned_top bottom size)
  unfolding aligned_top
  aligned_top_bounds = (grind arith, omega arith, omega arith)

  aligned_bottom_bounds :
      (aligned_bottom bottom size % 8 ≡ 0)
      × (bottom ≤ aligned_bottom bottom size)
      × (aligned_bottom bottom size ≤ aligned_top bottom size - 56)
  unfolding aligned_bottom aligned_top
  aligned_bottom_bounds = (grind arith, omega arith, omega arith)

module _ (wrapper t stack size param : ℕ) (large : 64 ≤ size) (memory : ℕ → ℕ) where
  pub write_context-IsPrepared :
      let bottom = aligned_bottom stack size in
      let top = aligned_top stack size in
      let pointer = top - thread_context_size in
      IsPrepared wrapper t stack size param bottom top pointer
        (write_context wrapper t pointer param bottom memory)
  unfolding write_context
  write_context-IsPrepared =
      let p = aligned_top_bounds stack size large in
      let q = aligned_bottom_bounds stack size large in
      record {
        bottom_aligned = q.0;
        top_aligned = p.0;
        above = q.1;
        below = p.1;
        context = omega (arith, p.2);
        overlap = omega (arith, p.2, q.2);
        check = ground arith;
        first_argument = grind (arith, p.2, q.2);
        second_argument = grind (arith, p.2, q.2);
        program_counter = grind (arith, p.2, q.2);
        status_word = grind (arith, p.2, q.2);
      }
