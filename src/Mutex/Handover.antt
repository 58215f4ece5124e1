-- ===== src/Mutex/Handover.antt =====
-- The last put of a mutex on which threads wait: the holder gets its first priority back, and the
-- first of the threads that wait is unblocked.
use argon_rtos.Prelude.{
  ℕ, ◌≡◌, ◌≢◌, ◌∙◌, ap, ap₂, sym, true, false, none, some, ◌>>=◌, List, ◌∷◌, ◌==◌, arith,
  update-same,
}
use argon_rtos.Types.{success, Thread, Mutex, ready}
use argon_rtos.Kernel.{Kernel, Threads, Objects}
use argon_rtos.Kernel.Lock.{lock}
use argon_rtos.Thread.Consistent.{IsConsistent}
use argon_rtos.Block.{of_mutex, blocked_list, put_blocked_list, finish, Finishes}
use argon_rtos.Block.Finish.{finish-Finishes, Finishes-mono, unblock_head-cons, Returns-Finishes}
use argon_rtos.Block.Unblock.{IsBlocked, Unblocked, unblock_with_status-Unblocked}
use argon_rtos.ArList.Seq
use argon_rtos.Mutex.{set_mutex, same_thread, restore, release, put_internal, put}
use argon_rtos.Mutex.Restore.{restored_priority, Restored, restore-Restored}

module _ (m t w : ℕ) (ws : List ℕ) (k : Kernel) (thread : k.port.irq_state ≡ false)
    (self : k.current_thread ≡ some t) (owned : (k.objects.mutex m).owner ≡ some t)
    (once : (k.objects.mutex m).owner_lock_count ≡ 1)
    (e : (k.objects.mutex m).blocked_list ≡ w ∷ ws) where
  -- The mutex once nobody holds it.
  abbrev free_mutex : Mutex
  free_mutex = record (k.objects.mutex m) { owner = none; owner_lock_count = 0 }

  abbrev free_kernel : Kernel
  free_kernel = set_mutex m free_mutex (lock k)

  free-same : free_kernel.objects.mutex m ≡ free_mutex
  unfolding lock
  free-same = update-same k.objects.mutex m free_mutex

  put-release : put (some m) k ≡ release m t (lock k)
  unfolding put put_internal lock
  put-release =
      let held : ((k.objects.mutex m).owner_lock_count == 0) ≡ false = ground arith in
      let last : ((k.objects.mutex m).owner_lock_count == 1) ≡ true = ground arith in
      let mine : same_thread k.current_thread (k.objects.mutex m).owner ≡ true =
        rw (self, owned) (ground arith) in
      let step : put (some m) k ≡ (k.current_thread >>= λ a. release m a (lock k)) =
        simp (thread, held, mine, last) in
      step ∙ ap (λ o. o >>= λ a. release m a (lock k)) self

  module _ (c : IsConsistent k.threads) (i : IsBlocked w (of_mutex m) k) (n : w ≢ t) where
    waiters_kept :
        (k' : Kernel) → Restored m t free_kernel k' → blocked_list (of_mutex m) k' ≡ w ∷ ws
    unfolding blocked_list
    waiters_kept k' r =
        ap (λ (x : Mutex). x.blocked_list) r.mutex
        ∙ (ap (λ (x : Mutex). x.blocked_list) free-same ∙ e)

    waiter-IsBlocked : (k' : Kernel) → Restored m t free_kernel k' → IsBlocked w (of_mutex m) k'
    unfolding lock
    waiter-IsBlocked k' r = record {
      state = rw (r.others w n) i.state;
      listed = rw (waiters_kept k' r) (ground arith);
      timeout = rw (r.others w n, r.sleeping) i.timeout;
    }

    mutex-after :
        (k₁ k₂ k' : Kernel)
        → Restored m t free_kernel k₁
        → Unblocked w (of_mutex m) success k₁ k₂
        → k'.objects ≡ k₂.objects
        → k'.objects.mutex m ≡ record (k.objects.mutex m) {
          owner = none;
          owner_lock_count = 0;
          original_priority = 0;
          blocked_list = Seq.remove w (w ∷ ws);
        }
    unfolding put_blocked_list
    mutex-after k₁ k₂ k' r u e₂ =
        ap (λ (o : Objects). o.mutex m) (e₂ ∙ u.objects)
        ∙ (update-same k₁.objects.mutex m _
            ∙ ap₂ (λ (x : Mutex) xs. record x { blocked_list = Seq.remove w xs })
                (r.mutex ∙ ap (λ (x : Mutex). record x { original_priority = 0 }) free-same)
                (waiters_kept k₁ r))

    thread-after :
        (k₂ k' : Kernel) (u : ℕ)
        → k'.threads ≡ k₂.threads
        → k'.threads.thread u ≡ k₂.threads.thread u
    thread-after k₂ k' u f = ap (λ (l : Threads). l.thread u) f

    -- The holder of a mutex that it has got once, on which threads wait, puts it: on consistent lists
    -- it succeeds and does not halt. Nobody holds the mutex then; the holder has the priority back
    -- that it had before it was raised, if it was; the first of the waiting threads is ready, with
    -- the status success, and off the blocked list; no other thread changes, and the lists stay
    -- consistent.
    pub put-hands_over :
        Finishes
          (λ r k'.
            (r ≡ success)
            × IsConsistent k'.threads
            × (k'.objects.mutex m ≡ record (k.objects.mutex m) {
              owner = none;
              owner_lock_count = 0;
              original_priority = 0;
              blocked_list = Seq.remove w (w ∷ ws);
            })
            × ((k'.threads.thread t).priority
                ≡ restored_priority (k.objects.mutex m) (k.threads.thread t))
            × ((k'.threads.thread w).state ≡ ready)
            × ((k'.threads.thread w).unblock_status ≡ success)
            × ((u : ℕ) → u ≢ t → u ≢ w → k'.threads.thread u ≡ k.threads.thread u))
          (put (some m) k)
    unfolding release lock
    put-hands_over = rw put-release (
        Returns-Finishes (restore m t free_kernel) _ (Restored m t free_kernel) _
          (restore-Restored m t free_kernel c thread)
          (λ k₁ r. rw (unblock_head-cons (of_mutex m) success k₁ w ws (waiters_kept k₁ r)) (
            Returns-Finishes _ _ (Unblocked w (of_mutex m) success k₁) _
              (unblock_with_status-Unblocked w (of_mutex m) success k₁ r.consistent
                (waiter-IsBlocked k₁ r))
              (λ k₂ u.
                Finishes-mono (finish success k₂) _ _
                  (finish-Finishes success k₂ (ground (arith, u.lock_count, r.lock_count)))
                  (λ s k' f. (
                    f.0,
                    rw f.2 u.consistent,
                    mutex-after k₁ k₂ k' r u f.1,
                    ap (λ (x : Thread). x.priority)
                          (thread-after k₂ k' t f.2 ∙ u.others t (λ h. n (sym h)))
                        ∙ (r.priority
                            ∙ ap (λ x. restored_priority x (k.threads.thread t)) free-same),
                    rw f.2 u.state,
                    rw f.2 u.unblock_status,
                    λ v a b. thread-after k₂ k' v f.2 ∙ (u.others v b ∙ r.others v a),
                  ))))))
