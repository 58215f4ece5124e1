-- ===== src/Thread/Consistent/Priority.antt =====
-- Changing the priority of a thread: ar_thread_set_priority.
use argon_rtos.Prelude.{
  ℕ, ◌≡◌, ◌≢◌, refl, true, false, some, ◌>>=◌, ◌==◌, arith, has, Returns, Returns-mono, Bool-cases,
  inl, inr, subst, sym,
}
use argon_rtos.Types.{success, ThreadState, ready, running}
use argon_rtos.Kernel.{Kernel, Threads}
use argon_rtos.Kernel.Lists.{set_priority, sort_by_priority, sort_by_wakeup}
use argon_rtos.Kernel.Lock.{lock}
use argon_rtos.Thread.{set_threads, leave}
use argon_rtos.Thread.Run.{resort, change_priority}
use argon_rtos.Thread.Consistent.{is_ready, IsConsistent, IsOff}
use argon_rtos.Thread.Consistent.Moves.{drop_ready, put_ready, drop_ready-IsOff}
use argon_rtos.Thread.Consistent.Puts.{
  ready_remove-drop, with_thread-IsOff, put_ready-IsConsistent, ready_add-put,
}
use argon_rtos.Thread.Consistent.Steps.{
  head-add, round_robin_updated, update_round_robin-ok, leave-Returns,
}
use argon_rtos.ArList.Seq
use argon_rtos.ArList.Seq.Order.{has-add, has-remove}
use argon_rtos.ArList.Seq.Sorted.{IsSorted-frame}

-- Thread `t` has priority `p`, nothing else of it has changed, and no other thread.
pub record Prioritized (t p : ℕ) (l l' : Threads) : Type 0 where
  pub consistent : IsConsistent l'
  pub thread : l'.thread t ≡ record (l.thread t) { priority = p }
  pub others : (u : ℕ) → u ≢ t → l'.thread u ≡ l.thread u
  pub others_ready : (u : ℕ) → has u l'.ready_list ≡ has u l.ready_list

module _ (t p : ℕ) (k : Kernel) (c : IsConsistent k.threads) where
  abbrev changed : Threads
  changed = set_priority t p k.threads

  -- A thread that is not on the ready list is not sorted by its priority.
  changed-IsConsistent : is_ready (k.threads.thread t).state ≡ false → IsConsistent changed
  unfolding set_priority sort_by_priority sort_by_wakeup
  changed-IsConsistent r = record {
    shaped = record {
      distinct_ready = c.shaped.distinct_ready;
      distinct_suspended = c.shaped.distinct_suspended;
      distinct_sleeping = c.shaped.distinct_sleeping;
      sorted_ready =
          IsSorted-frame (sort_by_priority k.threads.thread) _ k.threads.ready_list
            (λ a b ma mb. ground (arith, c.ready_iff a, c.ready_iff b, c.ready_iff t))
            c.shaped.sorted_ready;
      sorted_sleeping =
          IsSorted-frame (sort_by_wakeup k.threads.thread) _ k.threads.sleeping_list
            (λ a b ma mb. ground arith) c.shaped.sorted_sleeping;
    };
    ready_iff = λ u. ground (arith, c.ready_iff u);
    suspended_iff = λ u. ground (arith, c.suspended_iff u);
    sleeping_waits = λ u m. ground (arith, c.sleeping_waits u);
    sleeping_listed = λ u m. ground (arith, c.sleeping_listed u);
  }

  pub idle-Prioritized :
      is_ready (k.threads.thread t).state ≡ false → Prioritized t p k.threads changed
  unfolding set_priority
  idle-Prioritized r = record {
    consistent = changed-IsConsistent r;
    thread = ground arith;
    others = λ u n. ground arith;
    others_ready = λ u. refl;
  }

  module _ (r : is_ready (k.threads.thread t).state ≡ true) where
    on_ready : has t k.threads.ready_list ≡ true
    on_ready = ground (arith, c.ready_iff t)

    removed-IsOff : IsOff t (drop_ready t changed)
    unfolding set_priority
    removed-IsOff =
        with_thread-IsOff t (record (k.threads.thread t) { priority = p }) (drop_ready t k.threads)
          (drop_ready-IsOff t k.threads c on_ready)

    abbrev resorted : Threads
    resorted = put_ready t (drop_ready t changed)

    same_ready : (u : ℕ) → has u resorted.ready_list ≡ has u k.threads.ready_list
    unfolding set_priority
    same_ready u =
        let added =
          has-add (some (sort_by_priority changed.thread)) u t
            (Seq.remove t k.threads.ready_list) in
        let removed = has-remove u t k.threads.ready_list in
        elim (Bool-cases (u == t)) [
          | inl e ↦
              let e' : u ≡ t = ground arith in
              let m : has u k.threads.ready_list ≡ true = rw e' on_ready in ground arith
          | inr n ↦ ground arith
        ]

    resorted-Prioritized : Prioritized t p k.threads resorted
    unfolding set_priority
    resorted-Prioritized = record {
      consistent = put_ready-IsConsistent t (drop_ready t changed) removed-IsOff (ground arith);
      thread = ground arith;
      others = λ u n. ground arith;
      others_ready = same_ready;
    }

    resort-run :
        (s : ThreadState)
        → is_ready s ≡ true
        → resort s t (set_threads changed (lock k))
          ≡ some (round_robin_updated (set_threads resorted (lock k)))
    unfolding resort lock set_priority
    resort-run s e =
        let l = drop_ready t changed in
        let (h, eh) = head-add (sort_by_priority l.thread) t l.ready_list in
        let removed = ready_remove-drop t changed on_ready in
        let added = ready_add-put t l removed-IsOff in
        let updated = update_round_robin-ok (set_threads resorted (lock k)) h eh in
        elim s
            as (λ s.
              is_ready s ≡ true
              → resort s t (set_threads changed (lock k))
                ≡ some (round_robin_updated (set_threads resorted (lock k)))) [
                  | ready ↦ λ e. rw (removed, ◌>>=◌, added, ◌>>=◌) updated
                  | running ↦ λ e. rw (removed, ◌>>=◌, added, ◌>>=◌) updated
                  | _ ↦ λ e. cc
                ]
          e

  idle-resort : (s : ThreadState) (k : Kernel) → is_ready s ≡ false → resort s t k ≡ some k
  unfolding resort
  idle-resort ready k e = cc
  idle-resort running k e = cc
  idle-resort _ k e = refl

  changed-state : (changed.thread t).state ≡ (k.threads.thread t).state
  unfolding set_priority
  changed-state = ground arith

  ends-Prioritized :
      (k' : Kernel)
      → (k'.lock_count == 0) ≡ false
      → Prioritized t p k.threads k'.threads
      → Returns
          (λ r. (r.0 ≡ success) × Prioritized t p k.threads r.1.threads)
          (leave success (record k' { needs_reschedule = true }))
  ends-Prioritized k' n w =
      Returns-mono (leave success (record k' { needs_reschedule = true })) _ _
        (leave-Returns success true k' n)
        (λ r e. (e.0, subst (λ m. Prioritized t p k.threads m) (sym e.1) w))

  -- Changing the priority of a thread, on consistent lists, never halts and succeeds: the thread has
  -- the priority, nothing else of it and no other thread changes, the same threads are ready, and the
  -- lists are consistent, so that the ready list is sorted by the priorities that there are now.
  pub change_priority-Prioritized :
      Returns (λ r. (r.0 ≡ success) × Prioritized t p k.threads r.1.threads) (change_priority t p k)
  unfolding change_priority lock round_robin_updated
  change_priority-Prioritized = elim (Bool-cases (is_ready (k.threads.thread t).state)) [
    | inl r ↦
        rw (changed-state, resort-run r (k.threads.thread t).state r, ◌>>=◌)
          (ends-Prioritized (round_robin_updated (set_threads (resorted r) (lock k))) (ground arith)
            (resorted-Prioritized r))
    | inr n ↦
        rw
          (
            changed-state,
            idle-resort (k.threads.thread t).state (set_threads changed (lock k)) n,
            ◌>>=◌,
          )
          (ends-Prioritized (set_threads changed (lock k)) (ground arith) (idle-Prioritized n))
  ]
