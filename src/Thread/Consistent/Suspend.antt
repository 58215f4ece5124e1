-- ===== src/Thread/Consistent/Suspend.antt =====
-- Suspending a thread.
use argon_rtos.Prelude.{
  ℕ, ◌≡◌, ◌≢◌, refl, true, false, ◌>>=◌, ◌==◌, arith, has, Returns, Returns-mono,
}
use argon_rtos.Types.{
  Status, success, invalid_state_error, ThreadState, unknown, suspended, ready, running, blocked,
  sleeping, done,
}
use argon_rtos.Kernel.{Kernel, Threads}
use argon_rtos.Kernel.Lists.{set_state}
use argon_rtos.Kernel.Lock.{lock}
use argon_rtos.Kernel.Scheduler.{is_thread}
use argon_rtos.Thread.{
  set_threads, suspend_moved, suspend_ready, suspend_sleeping, suspend_internal,
}
use argon_rtos.Thread.Consistent.{is_ready, IsConsistent, IsOff}
use argon_rtos.Thread.Consistent.Moves.{
  drop_ready, drop_sleeping, put_suspended, drop_ready-IsOff, drop_sleeping-IsOff,
}
use argon_rtos.Thread.Consistent.Puts.{ready_remove-drop, sleeping_remove-drop}
use argon_rtos.Thread.Consistent.Steps.{
  head-has, round_robin_updated, update_round_robin-ok, leave-Returns,
}
use argon_rtos.ArList.Seq.Order.{has-remove}
use argon_rtos.Thread.Consistent.Ops.{make_suspended-ok, Moved, Moved-subst, suspended-Moved, kept}

-- The status and the state that ar_thread_suspend_internal gives a thread in a state.
abbrev pub suspended_status : ThreadState → Status
suspended_status blocked = invalid_state_error
suspended_status unknown = invalid_state_error
suspended_status done = invalid_state_error
suspended_status _ = success

abbrev pub suspended_state : ThreadState → ThreadState
suspended_state ready = suspended
suspended_state running = suspended
suspended_state sleeping = suspended
suspended_state s = s

suspend_moved-Moved :
    (t : ℕ) (l : Threads) (k : Kernel)
    → IsOff t k.threads
    → k.threads.thread ≡ l.thread
    → (k.lock_count == 0) ≡ false
    → Returns (λ r. (r.0 ≡ success) × Moved t suspended l r.1.threads) (suspend_moved t k)
unfolding suspend_moved
suspend_moved-Moved t l k o same n =
    let m = put_suspended t (set_state t suspended k.threads) in
    rw (make_suspended-ok t k.threads o, ◌>>=◌)
      (Returns-mono _ (λ r. (r.0 ≡ success) × (r.1.threads ≡ m)) _
        (leave-Returns success (is_thread k.current_thread t) (set_threads m k) n)
        (λ r p. (
          p.0,
          Moved-subst t suspended l m r.1.threads p.1 (suspended-Moved t l k.threads o same),
        )))

module _ (t : ℕ) (k : Kernel) (c : IsConsistent k.threads) where
  suspend_sleeping-Moved :
      (k.threads.thread t).state ≡ sleeping
      → Returns
          (λ r. (r.0 ≡ success) × Moved t suspended k.threads r.1.threads)
          (suspend_sleeping t (lock k))
  unfolding lock suspend_sleeping
  suspend_sleeping-Moved e =
      let m : has t k.threads.sleeping_list ≡ true = ground (arith, c.sleeping_listed t) in
      rw (sleeping_remove-drop t k.threads m, ◌>>=◌)
        (suspend_moved-Moved t k.threads (set_threads (drop_sleeping t k.threads) (lock k))
          (drop_sleeping-IsOff t k.threads c m) refl (ground arith))

  -- Another thread is ready: the idle thread, if `t` is not that one.
  module _ (i : ℕ) (ri : has i k.threads.ready_list ≡ true) (ne : i ≢ t) where
    suspend_ready-Moved :
        is_ready (k.threads.thread t).state ≡ true
        → Returns
            (λ r. (r.0 ≡ success) × Moved t suspended k.threads r.1.threads)
            (suspend_ready t (lock k))
    unfolding lock suspend_ready round_robin_updated
    suspend_ready-Moved e =
        let m : has t k.threads.ready_list ≡ true = ground (arith, c.ready_iff t) in
        let l = drop_ready t k.threads in
        let (h, eh) =
          head-has i l.ready_list (ground (arith, has-remove i t k.threads.ready_list)) in
        rw
          (
            ready_remove-drop t k.threads m,
            ◌>>=◌,
            update_round_robin-ok (set_threads l (lock k)) h eh,
            ◌>>=◌,
          )
          (suspend_moved-Moved t k.threads (round_robin_updated (set_threads l (lock k)))
            (drop_ready-IsOff t k.threads c m) refl (ground arith))

    suspend_internal-in :
        (s : ThreadState)
        → (k.threads.thread t).state ≡ s
        → Returns
            (λ r. (r.0 ≡ suspended_status s) × Moved t (suspended_state s) k.threads r.1.threads)
            (suspend_internal t k)
    unfolding suspend_internal lock
    suspend_internal-in ready e = rw (e, suspend_internal) (suspend_ready-Moved (ground arith))
    suspend_internal-in running e = rw (e, suspend_internal) (suspend_ready-Moved (ground arith))
    suspend_internal-in suspended e = rw (e, suspend_internal) (kept t k c success suspended e)
    suspend_internal-in sleeping e = rw (e, suspend_internal) (suspend_sleeping-Moved e)
    suspend_internal-in blocked e =
        rw (e, suspend_internal) (kept t k c invalid_state_error blocked e)
    suspend_internal-in unknown e =
        rw (e, suspend_internal) (kept t k c invalid_state_error unknown e)
    suspend_internal-in done e = rw (e, suspend_internal) (kept t k c invalid_state_error done e)

    -- Suspending a thread, with another one ready, succeeds from the states ready, running,
    -- sleeping and suspended, and is refused from the others. On consistent lists it never halts,
    -- and leaves them consistent: a thread in the first three becomes suspended, no other state
    -- changes, and no other thread.
    pub suspend_internal-Moved :
        let s = (k.threads.thread t).state in
        Returns
          (λ r. (r.0 ≡ suspended_status s) × Moved t (suspended_state s) k.threads r.1.threads)
          (suspend_internal t k)
    suspend_internal-Moved = suspend_internal-in (k.threads.thread t).state refl
