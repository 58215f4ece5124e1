-- ===== src/Thread/Consistent/Delete.antt =====
-- Deleting a thread: ar_thread_delete.
use argon_rtos.Prelude.{
  ℕ, ◌≡◌, ◌≢◌, refl, ◌∙◌, true, false, none, some, Option, ◌>>=◌, ◌==◌, arith, has, Returns,
  Returns-mono, Returns-bind, sym, ap, update,
}
use argon_rtos.Types.{
  success, Thread, ThreadState, unknown, suspended, ready, running, blocked, sleeping, done,
}
use argon_rtos.Kernel.{Kernel}
use argon_rtos.Kernel.Lists.{set_state, sort_by_priority, sort_by_wakeup}
use argon_rtos.Kernel.Lock.{lock}
use argon_rtos.Kernel.Scheduler.{is_thread}
use argon_rtos.Thread.{set_threads, delete_from, clear_run_loop, delete_locked, delete}
use argon_rtos.Thread.Consistent.{is_ready, IsConsistent, IsOff}
use argon_rtos.Thread.Consistent.Moves.{
  drop_ready, drop_ready-IsOff, drop_suspended-IsOff, drop_sleeping-IsOff, IsConsistent-IsOff,
}
use argon_rtos.Thread.Consistent.Puts.{
  ready_remove-drop, suspended_remove-drop, sleeping_remove-drop, IsOff-IsConsistent,
}
use argon_rtos.Thread.Consistent.Steps.{
  head-has, round_robin_updated, update_round_robin-ok, leave-Returns,
}
use argon_rtos.ArList.Seq.Order.{has-remove}
use argon_rtos.ArList.Seq.Sorted.{IsSorted-frame}
use argon_rtos.Thread.Consistent.Ops.{Moved, Moved-subst, set_state-IsOff}

-- The thread is off the lists, and no thread has changed.
record Taken (t : ℕ) (k k' : Kernel) : Type 0 where
  pub off : IsOff t k'.threads
  pub thread : k'.threads.thread ≡ k.threads.thread
  pub lock_count : k'.lock_count ≡ k.lock_count

module _ (t i : ℕ) (k : Kernel) (c : IsConsistent k.threads)
    (ri : has i k.threads.ready_list ≡ true) (ne : i ≢ t) where
  ready-Taken :
      is_ready (k.threads.thread t).state ≡ true → Returns (Taken t k) (delete_from ready t k)
  unfolding delete_from round_robin_updated
  ready-Taken r =
      let m : has t k.threads.ready_list ≡ true = ground (arith, c.ready_iff t) in
      let l = drop_ready t k.threads in
      let (h, e) = head-has i l.ready_list (ground (arith, has-remove i t k.threads.ready_list)) in
      rw (ready_remove-drop t k.threads m, ◌>>=◌, update_round_robin-ok (set_threads l k) h e)
        (record { off = drop_ready-IsOff t k.threads c m; thread = refl; lock_count = refl })

  asleep-Taken :
      has t k.threads.sleeping_list ≡ true → Returns (Taken t k) (delete_from sleeping t k)
  unfolding delete_from
  asleep-Taken m =
      rw (sleeping_remove-drop t k.threads m, ◌>>=◌)
        (record { off = drop_sleeping-IsOff t k.threads c m; thread = refl; lock_count = refl })

  -- Every state but unknown, where a blocked thread has a timeout.
  from-Taken :
      (s : ThreadState)
      → (k.threads.thread t).state ≡ s
      → s ≢ unknown
      → (s ≡ blocked → has t k.threads.sleeping_list ≡ true)
      → Returns (Taken t k) (delete_from s t k)
  unfolding delete_from
  from-Taken ready e n b = ready-Taken (ground arith)
  from-Taken running e n b = ready-Taken (ground arith)
  from-Taken suspended e n b =
      let m : has t k.threads.suspended_list ≡ true = ground (arith, c.suspended_iff t) in
      rw (suspended_remove-drop t k.threads m, ◌>>=◌)
        (record { off = drop_suspended-IsOff t k.threads c m; thread = refl; lock_count = refl })
  from-Taken sleeping e n b = asleep-Taken (c.sleeping_listed t (ground arith))
  from-Taken blocked e n b = asleep-Taken (b refl)
  from-Taken done e n b =
      let m : has t k.threads.sleeping_list ≡ false = ground (arith, c.sleeping_waits t) in
      record {
        off = IsConsistent-IsOff t k.threads c (ground arith) (ground arith) m;
        thread = refl;
        lock_count = refl;
      }
  from-Taken unknown e n b = absurd (n refl)

  Taken-Moved : (k' : Kernel) → Taken t k k' → Moved t done k.threads (set_state t done k'.threads)
  unfolding set_state
  Taken-Moved k' w =
      let l = set_state t done k'.threads in
      record {
        consistent =
            IsOff-IsConsistent t l (set_state-IsOff t k'.threads w.off done) (ground arith)
              (ground arith) (ground arith);
        state = ground arith;
        others = λ u n. ground (arith, ap (λ (f : ℕ → Thread). f u) w.thread);
      }

  locked-Moved :
      (k.lock_count == 0) ≡ false
      → (k.threads.thread t).state ≢ unknown
      → ((k.threads.thread t).state ≡ blocked → has t k.threads.sleeping_list ≡ true)
      → Returns (λ r. (r.0 ≡ success) × Moved t done k.threads r.1.threads) (delete_locked t k)
  unfolding delete_locked
  locked-Moved n known timed =
      Returns-bind (delete_from (k.threads.thread t).state t k) _ (Taken t k) _
        (from-Taken (k.threads.thread t).state refl known timed)
        (λ k' w.
          let l = set_state t done k'.threads in
          Returns-mono _ (λ r. (r.0 ≡ success) × (r.1.threads ≡ l)) _
            (leave-Returns success (is_thread k'.current_thread t) (set_threads l k')
              (ground (arith, w.lock_count)))
            (λ r e. (e.0, Moved-subst t done k.threads l r.1.threads e.1 (Taken-Moved k' w))))

-- The run loop of a thread does not matter to the lists.
record Cleared (t : ℕ) (k k' : Kernel) : Type 0 where
  pub consistent : IsConsistent k'.threads
  pub state : (k'.threads.thread t).state ≡ (k.threads.thread t).state
  pub others : (u : ℕ) → u ≢ t → k'.threads.thread u ≡ k.threads.thread u
  pub ready_list : k'.threads.ready_list ≡ k.threads.ready_list
  pub sleeping_list : k'.threads.sleeping_list ≡ k.threads.sleeping_list

module _ (t : ℕ) (k : Kernel) (c : IsConsistent k.threads) where
  without_run_loop-IsConsistent : IsConsistent (record (k.threads) {
    thread = update k.threads.thread t (record (k.threads.thread t) { run_loop = none });
  })
  unfolding sort_by_priority sort_by_wakeup
  without_run_loop-IsConsistent = record {
    shaped = record {
      distinct_ready = c.shaped.distinct_ready;
      distinct_suspended = c.shaped.distinct_suspended;
      distinct_sleeping = c.shaped.distinct_sleeping;
      sorted_ready =
          IsSorted-frame (sort_by_priority k.threads.thread) _ k.threads.ready_list
            (λ a b ma mb. ground arith) c.shaped.sorted_ready;
      sorted_sleeping =
          IsSorted-frame (sort_by_wakeup k.threads.thread) _ k.threads.sleeping_list
            (λ a b ma mb. ground arith) c.shaped.sorted_sleeping;
    };
    ready_iff = λ u. ground (arith, c.ready_iff u);
    suspended_iff = λ u. ground (arith, c.suspended_iff u);
    sleeping_waits = λ u m. ground (arith, c.sleeping_waits u);
    sleeping_listed = λ u m. ground (arith, c.sleeping_listed u);
  }

  cleared : (r : Option ℕ) → (k.threads.thread t).run_loop ≡ r → Cleared t k (clear_run_loop t k)
  unfolding clear_run_loop
  cleared none e =
      rw (clear_run_loop, e)
        (record {
          consistent = c;
          state = refl;
          others = λ u n. refl;
          ready_list = refl;
          sleeping_list = refl;
        })
  cleared (some r) e =
      rw (clear_run_loop, e)
        (record {
          consistent = without_run_loop-IsConsistent;
          state = ground arith;
          others = λ u n. ground arith;
          ready_list = refl;
          sleeping_list = refl;
        })

  delete-locked :
      (s : ThreadState)
      → ((clear_run_loop t k).threads.thread t).state ≡ s
      → s ≢ unknown
      → k.port.irq_state ≡ false
      → delete (some t) k ≡ delete_locked t (lock (clear_run_loop t k))
  unfolding delete lock
  delete-locked unknown e n thread = absurd (n refl)
  delete-locked ready e n thread = simp (thread, e)
  delete-locked running e n thread = simp (thread, e)
  delete-locked suspended e n thread = simp (thread, e)
  delete-locked blocked e n thread = simp (thread, e)
  delete-locked sleeping e n thread = simp (thread, e)
  delete-locked done e n thread = simp (thread, e)

  module _ (i : ℕ) (ri : has i k.threads.ready_list ≡ true) (ne : i ≢ t) where
    -- Deleting a thread, with another one ready, succeeds and does not halt on consistent lists, if
    -- the thread was created and is not blocked without a timeout: it is done, no other thread
    -- changes, and the lists stay consistent.
    pub delete-Moved :
        k.port.irq_state ≡ false
        → (k.threads.thread t).state ≢ unknown
        → ((k.threads.thread t).state ≡ blocked → has t k.threads.sleeping_list ≡ true)
        → Returns (λ r. (r.0 ≡ success) × Moved t done k.threads r.1.threads) (delete (some t) k)
    unfolding lock
    delete-Moved thread known timed =
        let w = cleared (k.threads.thread t).run_loop refl in
        let k₁ = lock (clear_run_loop t k) in
        rw (delete-locked (k.threads.thread t).state w.state known thread) (
          Returns-mono (delete_locked t k₁) _ _
            (locked-Moved t i k₁ w.consistent (rw w.ready_list ri) ne (ground arith)
              (λ e. known (sym w.state ∙ e)) (λ e. rw w.sleeping_list (timed (sym w.state ∙ e))))
            (λ r m. (
              m.0,
              record {
                consistent = m.1.consistent;
                state = m.1.state;
                others = λ u n. m.1.others u n ∙ w.others u n;
              },
            )))
