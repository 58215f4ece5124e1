-- ===== src/Thread/Consistent/Leave.antt =====
-- A thread that leaves the ready list for good or for a time: ar_thread_sleep_until and the end of
-- ar_thread_wrapper.
use argon_rtos.Prelude.{
  ℕ, ◌≡◌, ◌≢◌, refl, true, false, some, ◌>>=◌, ◌==◌, arith, has, Returns, subst, sym,
}
use argon_rtos.Types.{sleeping, done}
use argon_rtos.Kernel.{Kernel, Threads}
use argon_rtos.Kernel.Lists.{set_state, set_wakeup_time}
use argon_rtos.Kernel.Lock.{lock, unlock, enter_scheduler, service_call}
use argon_rtos.Kernel.Tick.{milliseconds_to_ticks}
use argon_rtos.Thread.{set_threads}
use argon_rtos.Thread.Run.{put_to_sleep, sleep_current, exit_thread}
use argon_rtos.Thread.Consistent.{is_ready, IsConsistent, IsOff}
use argon_rtos.Thread.Consistent.Moves.{drop_ready, put_sleeping, drop_ready-IsOff}
use argon_rtos.Thread.Consistent.Puts.{
  ready_remove-drop, with_thread-IsOff, put_sleeping-IsConsistent, sleeping_add-put,
  IsOff-IsConsistent,
}
use argon_rtos.Thread.Consistent.Steps.{
  head-has, round_robin_updated, update_round_robin-ok, unlocked, unlocked-threads,
}
use argon_rtos.ArList.Seq.Order.{has-remove}
use argon_rtos.Thread.Consistent.Ops.{Moved, Moved-subst, set_state-IsOff}

-- The end of a step under the lock.
unlock-ok : (k : Kernel) → (k.lock_count == 0) ≡ false → unlock k ≡ some (unlocked k)
unfolding unlock unlocked
unlock-ok k n = rw n refl

module _ (t i : ℕ) (k : Kernel) (c : IsConsistent k.threads)
    (r : is_ready (k.threads.thread t).state ≡ true) (ri : has i k.threads.ready_list ≡ true)
    (ne : i ≢ t) where
  on_ready : has t k.threads.ready_list ≡ true
  on_ready = ground (arith, c.ready_iff t)

  still_ready : has i (drop_ready t k.threads).ready_list ≡ true
  still_ready = ground (arith, has-remove i t k.threads.ready_list)

  module _ (w : ℕ) where
    -- The lists with the thread on none of them.
    abbrev waking : Threads
    waking = set_state t sleeping (drop_ready t (set_wakeup_time t w k.threads))

    waking-IsOff : IsOff t waking
    unfolding set_wakeup_time
    waking-IsOff =
        set_state-IsOff t (drop_ready t (set_wakeup_time t w k.threads))
          (with_thread-IsOff t (record (k.threads.thread t) { wakeup_time = w })
            (drop_ready t k.threads) (drop_ready-IsOff t k.threads c on_ready))
          sleeping

    put_to_sleep-run : put_to_sleep t w k.threads ≡ some (put_sleeping t waking)
    unfolding put_to_sleep set_wakeup_time
    put_to_sleep-run =
        rw (ready_remove-drop t (set_wakeup_time t w k.threads) on_ready, ◌>>=◌)
          (sleeping_add-put t waking waking-IsOff)

    sleeping-Moved :
        Moved t sleeping k.threads (put_sleeping t waking)
        × (((put_sleeping t waking).thread t).wakeup_time ≡ w)
    unfolding set_state set_wakeup_time
    sleeping-Moved = (
      record {
        consistent = put_sleeping-IsConsistent t waking waking-IsOff (ground arith);
        state = ground arith;
        others = λ u n. ground arith;
      },
      ground arith,
    )

  -- On consistent lists, with another thread ready, a ready thread that goes to sleep does not halt:
  -- it sleeps until the tick that was asked for, no other thread changes, and the lists stay
  -- consistent.
  pub sleep_current-Moved :
      (wakeup : ℕ)
      → Returns
          (λ k'.
            Moved t sleeping k.threads k'.threads
            × ((k'.threads.thread t).wakeup_time ≡ milliseconds_to_ticks wakeup))
          (sleep_current t wakeup k)
  unfolding sleep_current lock set_state set_wakeup_time round_robin_updated
  sleep_current-Moved wakeup =
      let w = milliseconds_to_ticks wakeup in
      let l = put_sleeping t (waking w) in
      let (h, e) = head-has i l.ready_list still_ready in
      let k₁ = round_robin_updated (set_threads l (lock k)) in
      let k₂ = record k₁ { needs_reschedule = true } in
      rw
        (
          put_to_sleep-run w,
          ◌>>=◌,
          update_round_robin-ok (set_threads l (lock k)) h e,
          ◌>>=◌,
          unlock-ok k₂ (ground arith),
        )
        (subst (λ m. Moved t sleeping k.threads m × ((m.thread t).wakeup_time ≡ w))
          (sym (unlocked-threads k₂)) (sleeping-Moved w))

  abbrev finished : Threads
  finished = set_state t done (drop_ready t k.threads)

  finished-Moved : Moved t done k.threads finished
  unfolding set_state
  finished-Moved =
      let off =
        set_state-IsOff t (drop_ready t k.threads) (drop_ready-IsOff t k.threads c on_ready) done in
      record {
        consistent = IsOff-IsConsistent t finished off (ground arith) (ground arith) (ground arith);
        state = ground arith;
        others = λ u n. ground arith;
      }

  entered-threads : (k : Kernel) → (enter_scheduler k).threads ≡ k.threads
  unfolding enter_scheduler service_call
  entered-threads k = ground arith

  -- On consistent lists, with another thread ready, a thread whose entry point returns does not halt:
  -- it is done and on no list, no other thread changes, and the lists stay consistent.
  pub exit_thread-Moved : Returns (λ k'. Moved t done k.threads k'.threads) (exit_thread t k)
  unfolding exit_thread lock set_state round_robin_updated
  exit_thread-Moved =
      let l = drop_ready t k.threads in
      let (h, e) = head-has i l.ready_list still_ready in
      let k₁ = set_threads finished (round_robin_updated (set_threads l (lock k))) in
      rw
        (
          ready_remove-drop t k.threads on_ready,
          ◌>>=◌,
          update_round_robin-ok (set_threads l (lock k)) h e,
          ◌>>=◌,
          unlock-ok k₁ (ground arith),
          ◌>>=◌,
        )
        (Moved-subst t done k.threads (unlocked k₁).threads _ (entered-threads (unlocked k₁))
          (Moved-subst t done k.threads finished _ (unlocked-threads k₁) finished-Moved))
