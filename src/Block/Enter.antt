-- ===== src/Block/Enter.antt =====
-- What `block` does to the current thread.
use argon_rtos.Prelude.{
  ℕ, ◌≡◌, ◌≢◌, ◌+◌, ◌-◌, refl, ◌∙◌, ap, true, false, not, ◌||◌, some, ◌>>=◌, List, ◌==◌, has, arith,
  Returns, Returns-bind, Bool-cases, inl, inr, ◌⊎◌, u32,
}
use argon_rtos.Types.{success, blocked, infinite_timeout}
use argon_rtos.Kernel.{Kernel, Threads}
use argon_rtos.Kernel.Lists.{set_state, set_unblock_status, set_wakeup_time, sort_by_wakeup}
use argon_rtos.Kernel.Lock.{begin_unlock, enter_scheduler, service_call}
use argon_rtos.Kernel.Tick.{milliseconds_to_ticks}
use argon_rtos.Thread.{set_threads}
use argon_rtos.Thread.Consistent.{IsConsistent, IsOff, is_ready}
use argon_rtos.Thread.Consistent.Moves.{drop_ready, drop_ready-IsOff}
use argon_rtos.Thread.Consistent.Puts.{
  with_thread-IsOff, ready_remove-drop, sleeping_add-put, put_sleeping-IsConsistent,
  IsOff-IsConsistent,
}
use argon_rtos.Thread.Consistent.Steps.{head-has, round_robin_updated, update_round_robin-ok}
use argon_rtos.Block.{
  BlockedList, blocked_list, put_blocked_list, set_blocked_list, blocked_add, blocked_predicate,
  start_timeout, block,
}
use argon_rtos.Block.Unblock.{IsBlocked, blocked_list-objects, set_blocked_list-get}
use argon_rtos.ArList.Seq
use argon_rtos.ArList.Seq.Order.{has-add, has-remove}

-- What a timeout of a thread that is on no list leaves: consistent lists, with the thread on the
-- sleeping list if and only if it has a wakeup time.
record Timed (t : ℕ) (l : Threads) (k k' : Kernel) : Type 0 where
  consistent : IsConsistent k'.threads
  state : (k'.threads.thread t).state ≡ blocked
  timeout : has t k'.threads.sleeping_list ≡ not ((k'.threads.thread t).wakeup_time == 0)
  unblock_status : (k'.threads.thread t).unblock_status ≡ (l.thread t).unblock_status
  others : (u : ℕ) → u ≢ t → k'.threads.thread u ≡ l.thread u
  objects : k'.objects ≡ k.objects
  lock_count : k'.lock_count ≡ k.lock_count

module _ (t timeout : ℕ) (k : Kernel) (o : IsOff t k.threads)
    (b : (k.threads.thread t).state ≡ blocked) where
  -- The time at which a thread with a timeout wakes.
  abbrev wakeup : ℕ
  wakeup = u32 (k.tick_count + milliseconds_to_ticks timeout)

  set_wakeup_time-IsOff : (w : ℕ) → IsOff t (set_wakeup_time t w k.threads)
  unfolding set_wakeup_time
  set_wakeup_time-IsOff w =
      with_thread-IsOff t (record (k.threads.thread t) { wakeup_time = w }) k.threads o

  start_timeout-Timed :
      (timeout ≡ infinite_timeout) ⊎ (wakeup ≢ 0)
      → Returns (Timed t k.threads k) (start_timeout t timeout k)
  unfolding start_timeout set_wakeup_time
  start_timeout-Timed safe = elim (Bool-cases (timeout == infinite_timeout)) [
    | inl e ↦ rw e (record {
      consistent =
          IsOff-IsConsistent t (set_wakeup_time t 0 k.threads) (set_wakeup_time-IsOff 0)
            (ground arith) (ground arith) (ground arith);
      state = ground arith;
      timeout = ground (arith, o.sleeping_off);
      unblock_status = ground arith;
      others = λ u n. ground arith;
      objects = refl;
      lock_count = refl;
    })
    | inr n ↦
        let w : wakeup ≢ 0 = ground (arith, safe) in
        let l = set_wakeup_time t wakeup k.threads in
        rw (n, sleeping_add-put t l (set_wakeup_time-IsOff wakeup), ◌>>=◌)
          (record {
            consistent =
                put_sleeping-IsConsistent t l (set_wakeup_time-IsOff wakeup) (ground arith);
            state = ground arith;
            timeout = ground (arith, has-add (some (sort_by_wakeup l.thread)) t t l.sleeping_list);
            unblock_status = ground arith;
            others = λ u n. ground arith;
            objects = refl;
            lock_count = refl;
          })
  ]

-- What blocking leaves: the thread is blocked on the object, and no other thread has changed.
pub record Blocks (t : ℕ) (b : BlockedList) (k k' : Kernel) : Type 0 where
  pub consistent : IsConsistent k'.threads
  pub is_blocked : IsBlocked t b k'
  pub unblock_status : (k'.threads.thread t).unblock_status ≡ success
  pub others : (u : ℕ) → u ≢ t → k'.threads.thread u ≡ k.threads.thread u
  pub listed : (u : ℕ) → has u (blocked_list b k') ≡ ((t == u) || has u (blocked_list b k))
  pub objects : (xs : List ℕ) × (k'.objects ≡ put_blocked_list b xs k.objects)

-- The lock is given up for the scheduler.
entered-threads : (k : Kernel) → (enter_scheduler k).threads ≡ k.threads
unfolding enter_scheduler service_call
entered-threads k = ground arith

entered-objects : (k : Kernel) → (enter_scheduler k).objects ≡ k.objects
unfolding enter_scheduler service_call
entered-objects k = ground arith

module _ (t : ℕ) (b : BlockedList) (timeout : ℕ) (k : Kernel) where
  -- The threads once `t` is off the ready list and blocked.
  abbrev stopped : Threads
  stopped = set_unblock_status t success (set_state t blocked (drop_ready t k.threads))

  abbrev stopped_kernel : Kernel
  stopped_kernel =
      set_threads stopped (round_robin_updated (set_threads (drop_ready t k.threads) k))

  abbrev waiting_list : List ℕ
  waiting_list = Seq.add (blocked_predicate b stopped_kernel) t (blocked_list b k)

  abbrev listed_kernel : Kernel
  listed_kernel = set_blocked_list b waiting_list stopped_kernel

  blocked_add-run :
      has t (blocked_list b k) ≡ false → blocked_add b t stopped_kernel ≡ some listed_kernel
  unfolding blocked_add round_robin_updated
  blocked_add-run n =
      let same : blocked_list b stopped_kernel ≡ blocked_list b k =
        blocked_list-objects b k stopped_kernel refl in
      rw (same, n) refl

  listed_kernel-objects : listed_kernel.objects ≡ put_blocked_list b waiting_list k.objects
  unfolding set_blocked_list round_robin_updated
  listed_kernel-objects = refl

  Timed-Blocks :
      (k' : Kernel)
      → Timed t stopped listed_kernel k'
      → Blocks t b k (enter_scheduler (record k' { lock_count = k'.lock_count - 1 }))
  unfolding set_unblock_status set_state
  Timed-Blocks k' d =
      let m = record k' { lock_count = k'.lock_count - 1 } in
      let te : (enter_scheduler m).threads ≡ k'.threads = entered-threads m in
      let be : blocked_list b (enter_scheduler m) ≡ waiting_list =
        blocked_list-objects b listed_kernel (enter_scheduler m) (entered-objects m ∙ d.objects)
        ∙ set_blocked_list-get b waiting_list stopped_kernel in
      let added = λ (u : ℕ). has-add (blocked_predicate b stopped_kernel) u t (blocked_list b k) in
      record {
        consistent = rw te d.consistent;
        is_blocked = record {
          state = ap (λ (l : Threads). (l.thread t).state) te ∙ d.state;
          listed = ap (has t) be ∙ (added t ∙ ground arith);
          timeout = rw te d.timeout;
        };
        unblock_status =
            ap (λ (l : Threads). (l.thread t).unblock_status) te
            ∙ (d.unblock_status ∙ ground arith);
        others = λ u n. ap (λ (l : Threads). l.thread u) te ∙ (d.others u n ∙ ground arith);
        listed = λ u. ap (has u) be ∙ (added u ∙ ground arith);
        objects = (waiting_list, entered-objects m ∙ (d.objects ∙ listed_kernel-objects));
      }

  module _ (c : IsConsistent k.threads) (r : is_ready (k.threads.thread t).state ≡ true) (i : ℕ)
      (ri : has i k.threads.ready_list ≡ true) (ne : i ≢ t) (new : has t (blocked_list b k) ≡ false)
      (positive : timeout ≢ 0) (locked : (k.lock_count == 0) ≡ false)
      (safe : (timeout ≡ infinite_timeout)
        ⊎ (u32 (k.tick_count + milliseconds_to_ticks timeout) ≢ 0)) where
    -- A ready thread that blocks on an object, on consistent lists, under the lock, with another
    -- thread ready, does not halt: it is then blocked on the object, with the status success, the
    -- lists are consistent, and no other thread has changed. Its timeout is not 0, and the time that
    -- it ends at is not 0 modulo 2^32, which stands for no timeout.
    pub block-Blocks : Returns (Blocks t b k) (block t b timeout k)
    unfolding block begin_unlock set_state set_unblock_status set_blocked_list round_robin_updated
    block-Blocks =
        let m : has t k.threads.ready_list ≡ true = ground (arith, c.ready_iff t) in
        let o = drop_ready-IsOff t k.threads c m in
        let (h, eh) =
          head-has i (Seq.remove t k.threads.ready_list)
            (ground (arith, has-remove i t k.threads.ready_list)) in
        let x = record ((drop_ready t k.threads).thread t) { state = blocked } in
        let y = record ((set_state t blocked (drop_ready t k.threads)).thread t) {
          unblock_status = success;
        } in
        let off : IsOff t stopped =
          with_thread-IsOff t y (set_state t blocked (drop_ready t k.threads))
            (with_thread-IsOff t x (drop_ready t k.threads) o) in
        let go : (timeout == 0) ≡ false = ground arith in
        rw
          (
            go,
            ◌>>=◌,
            ready_remove-drop t k.threads m,
            ◌>>=◌,
            update_round_robin-ok (set_threads (drop_ready t k.threads) k) h eh,
            ◌>>=◌,
            blocked_add-run new,
            ◌>>=◌,
          )
          (Returns-bind (start_timeout t timeout listed_kernel) _ (Timed t stopped listed_kernel)
            (Blocks t b k) (start_timeout-Timed t timeout listed_kernel off (ground arith) safe)
            (λ k' d.
              let held : (k'.lock_count == 0) ≡ false = ground (arith, d.lock_count) in
              rw held (Timed-Blocks k' d)))
