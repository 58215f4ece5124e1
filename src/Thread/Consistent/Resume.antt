-- ===== src/Thread/Consistent/Resume.antt =====
-- Resuming a thread.
use argon_rtos.Prelude.{
  ℕ, ◌≡◌, refl, true, false, some, ◌>>=◌, ◌==◌, arith, has, Returns, Returns-mono, ltb,
}
use argon_rtos.Types.{
  Status, success, invalid_state_error, ThreadState, unknown, suspended, ready, running, blocked,
  sleeping, done,
}
use argon_rtos.Kernel.{Kernel, Threads}
use argon_rtos.Kernel.Lists.{set_state, sort_by_priority}
use argon_rtos.Kernel.Lock.{lock}
use argon_rtos.Thread.{set_threads, current_priority, resume_from, resume_moved, resume_internal}
use argon_rtos.Thread.Consistent.{IsConsistent, IsOff}
use argon_rtos.Thread.Consistent.Moves.{
  drop_suspended, drop_sleeping, put_ready, drop_suspended-IsOff, drop_sleeping-IsOff,
}
use argon_rtos.Thread.Consistent.Puts.{suspended_remove-drop, sleeping_remove-drop}
use argon_rtos.Thread.Consistent.Steps.{head-add, update-leave-Returns}
use argon_rtos.Thread.Consistent.Ops.{make_ready-ok, Moved, Moved-subst, readied-Moved, kept}

-- Resumption of a thread from a list without it.
resume_moved-Moved :
    (t : ℕ) (k : Kernel) (l : Threads)
    → resume_from (k.threads.thread t).state t k.threads ≡ some l
    → IsOff t l
    → l.thread ≡ k.threads.thread
    → (k.lock_count == 0) ≡ false
    → Returns (λ r. (r.0 ≡ success) × Moved t ready k.threads r.1.threads) (resume_moved t k)
unfolding resume_moved
resume_moved-Moved t k l e o same n =
    let m = set_state t ready l in
    let (h, eh) = head-add (sort_by_priority m.thread) t m.ready_list in
    let end =
      update-leave-Returns success (λ k. ltb (current_priority k) (k.threads.thread t).priority)
        (set_threads (put_ready t m) k) h eh n in
    rw (e, ◌>>=◌, make_ready-ok t l o, ◌>>=◌)
      (Returns-mono _ (λ r. (r.0 ≡ success) × (r.1.threads ≡ put_ready t m)) _ end
        (λ r p. (
          p.0,
          Moved-subst t ready k.threads (put_ready t m) r.1.threads p.1
              (readied-Moved t k.threads l o same),
        )))

-- The status and the state that ar_thread_resume_internal gives a thread in a state.
abbrev pub resumed_status : ThreadState → Status
resumed_status ready = success
resumed_status running = success
resumed_status suspended = success
resumed_status sleeping = success
resumed_status _ = invalid_state_error

abbrev pub resumed_state : ThreadState → ThreadState
resumed_state suspended = ready
resumed_state sleeping = ready
resumed_state s = s

module _ (t : ℕ) (k : Kernel) (c : IsConsistent k.threads) where
  resume_suspended :
      (k.threads.thread t).state ≡ suspended
      → Returns
          (λ r. (r.0 ≡ success) × Moved t ready k.threads r.1.threads)
          (resume_moved t (lock k))
  unfolding lock resume_from
  resume_suspended e =
      let m : has t k.threads.suspended_list ≡ true = ground (arith, c.suspended_iff t) in
      resume_moved-Moved t (lock k) (drop_suspended t k.threads)
        (rw e (suspended_remove-drop t k.threads m)) (drop_suspended-IsOff t k.threads c m) refl
        (ground arith)

  resume_sleeping :
      (k.threads.thread t).state ≡ sleeping
      → Returns
          (λ r. (r.0 ≡ success) × Moved t ready k.threads r.1.threads)
          (resume_moved t (lock k))
  unfolding lock resume_from
  resume_sleeping e =
      let m : has t k.threads.sleeping_list ≡ true = ground (arith, c.sleeping_listed t) in
      resume_moved-Moved t (lock k) (drop_sleeping t k.threads)
        (rw e (sleeping_remove-drop t k.threads m)) (drop_sleeping-IsOff t k.threads c m) refl
        (ground arith)

  resume_internal-in :
      (s : ThreadState)
      → (k.threads.thread t).state ≡ s
      → Returns
          (λ r. (r.0 ≡ resumed_status s) × Moved t (resumed_state s) k.threads r.1.threads)
          (resume_internal t k)
  unfolding resume_internal lock
  resume_internal-in ready e = rw (e, resume_internal) (kept t k c success ready e)
  resume_internal-in running e = rw (e, resume_internal) (kept t k c success running e)
  resume_internal-in suspended e = rw (e, resume_internal) (resume_suspended e)
  resume_internal-in sleeping e = rw (e, resume_internal) (resume_sleeping e)
  resume_internal-in blocked e = rw (e, resume_internal) (kept t k c invalid_state_error blocked e)
  resume_internal-in unknown e = rw (e, resume_internal) (kept t k c invalid_state_error unknown e)
  resume_internal-in done e = rw (e, resume_internal) (kept t k c invalid_state_error done e)

  -- Resuming a thread succeeds from the states ready, running, suspended and sleeping, and is
  -- refused from the others. On consistent lists it never halts, and leaves them consistent: a
  -- suspended or sleeping thread becomes ready, no other state changes, and no other thread.
  pub resume_internal-Moved :
      let s = (k.threads.thread t).state in
      Returns
        (λ r. (r.0 ≡ resumed_status s) × Moved t (resumed_state s) k.threads r.1.threads)
        (resume_internal t k)
  resume_internal-Moved = resume_internal-in (k.threads.thread t).state refl
