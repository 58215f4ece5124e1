-- ===== src/Thread/Consistent/Puts.antt =====
-- A thread that is off the lists may change, and goes back to the list that its state names.
use argon_rtos.Prelude.{ℕ, ◌≡◌, true, false, none, some, has, arith, update}
use argon_rtos.Types.{Thread}
use argon_rtos.Kernel.{Threads}
use argon_rtos.Kernel.Lists.{
  sort_by_priority, sort_by_wakeup, ready_add, ready_remove, suspended_add, suspended_remove,
  sleeping_add, sleeping_remove,
}
use argon_rtos.Thread.Consistent.{
  is_ready, is_suspended, is_waiting, is_sleeping, IsConsistent, IsOff,
  sort_by_priority-IsStrictWeak, sort_by_wakeup-IsStrictWeak,
}
use argon_rtos.Thread.Consistent.Moves.{
  drop_ready, drop_suspended, drop_sleeping, put_ready, put_suspended, put_sleeping,
}
use argon_rtos.ArList.Seq.Order.{has-add, Distinct-add}
use argon_rtos.ArList.Seq.Sorted.{IsSorted-add, IsSorted-frame}

-- The lists with another store of threads.
abbrev pub with_thread : (ℕ → Thread) → Threads → Threads
with_thread f l = record l { thread = f }

-- Any change of thread `t` alone keeps what is known of the others.
pub with_thread-IsOff :
    (t : ℕ) (x : Thread) (l : Threads) → IsOff t l → IsOff t (with_thread (update l.thread t x) l)
unfolding sort_by_priority sort_by_wakeup
with_thread-IsOff t x l o = record {
  shaped = record {
    distinct_ready = s.distinct_ready;
    distinct_suspended = s.distinct_suspended;
    distinct_sleeping = s.distinct_sleeping;
    sorted_ready =
        IsSorted-frame (sort_by_priority l.thread) (sort_by_priority (update l.thread t x))
          l.ready_list (λ a b ma mb. ground (arith, o.ready_off)) s.sorted_ready;
    sorted_sleeping =
        IsSorted-frame (sort_by_wakeup l.thread) (sort_by_wakeup (update l.thread t x))
          l.sleeping_list (λ a b ma mb. ground (arith, o.sleeping_off)) s.sorted_sleeping;
  };
  ready_off = o.ready_off;
  suspended_off = o.suspended_off;
  sleeping_off = o.sleeping_off;
  ready_iff = λ u n. ground (arith, o.ready_iff u);
  suspended_iff = λ u n. ground (arith, o.suspended_iff u);
  sleeping_waits = λ u n m. ground (arith, o.sleeping_waits u);
  sleeping_listed = λ u n m. ground (arith, o.sleeping_listed u);
}
  where
    open o use {shaped as s}

module _ (t : ℕ) (l : Threads) (o : IsOff t l) where
  pub put_ready-IsConsistent : is_ready (l.thread t).state ≡ true → IsConsistent (put_ready t l)
  put_ready-IsConsistent r = record {
    shaped = record {
      distinct_ready = Distinct-add _ t l.ready_list s.distinct_ready o.ready_off;
      distinct_suspended = s.distinct_suspended;
      distinct_sleeping = s.distinct_sleeping;
      sorted_ready =
          IsSorted-add _ (sort_by_priority-IsStrictWeak l.thread) t l.ready_list s.sorted_ready;
      sorted_sleeping = s.sorted_sleeping;
    };
    ready_iff = λ u.
        ground (arith, has-add (some (sort_by_priority l.thread)) u t l.ready_list, o.ready_iff u);
    suspended_iff = λ u. ground (arith, o.suspended_iff u, o.suspended_off);
    sleeping_waits = λ u m. ground (arith, o.sleeping_waits u, o.sleeping_off);
    sleeping_listed = λ u m. ground (arith, o.sleeping_listed u);
  }
    where
      open o use {shaped as s}

  pub put_suspended-IsConsistent :
      is_suspended (l.thread t).state ≡ true → IsConsistent (put_suspended t l)
  put_suspended-IsConsistent r = record {
    shaped = record {
      distinct_ready = s.distinct_ready;
      distinct_suspended = Distinct-add _ t l.suspended_list s.distinct_suspended o.suspended_off;
      distinct_sleeping = s.distinct_sleeping;
      sorted_ready = s.sorted_ready;
      sorted_sleeping = s.sorted_sleeping;
    };
    ready_iff = λ u. ground (arith, o.ready_iff u, o.ready_off);
    suspended_iff = λ u. ground (arith, has-add none u t l.suspended_list, o.suspended_iff u);
    sleeping_waits = λ u m. ground (arith, o.sleeping_waits u, o.sleeping_off);
    sleeping_listed = λ u m. ground (arith, o.sleeping_listed u);
  }
    where
      open o use {shaped as s}

  pub put_sleeping-IsConsistent :
      is_waiting (l.thread t).state ≡ true → IsConsistent (put_sleeping t l)
  put_sleeping-IsConsistent r = record {
    shaped = record {
      distinct_ready = s.distinct_ready;
      distinct_suspended = s.distinct_suspended;
      distinct_sleeping = Distinct-add _ t l.sleeping_list s.distinct_sleeping o.sleeping_off;
      sorted_ready = s.sorted_ready;
      sorted_sleeping =
          IsSorted-add _ (sort_by_wakeup-IsStrictWeak l.thread) t l.sleeping_list s.sorted_sleeping;
    };
    ready_iff = λ u. ground (arith, o.ready_iff u, o.ready_off);
    suspended_iff = λ u. ground (arith, o.suspended_iff u, o.suspended_off);
    sleeping_waits = λ u m.
        ground
          (arith, has-add (some (sort_by_wakeup l.thread)) u t l.sleeping_list, o.sleeping_waits u);
    sleeping_listed = λ u m.
        ground (
          arith,
          has-add (some (sort_by_wakeup l.thread)) u t l.sleeping_list,
          o.sleeping_listed u,
        );
  }
    where
      open o use {shaped as s}

  -- A thread whose state names no list stays off the lists.
  pub IsOff-IsConsistent :
      is_ready (l.thread t).state ≡ false
      → is_suspended (l.thread t).state ≡ false
      → is_sleeping (l.thread t).state ≡ false
      → IsConsistent l
  IsOff-IsConsistent r q n = record {
    shaped = o.shaped;
    ready_iff = λ u. ground (arith, o.ready_iff u, o.ready_off);
    suspended_iff = λ u. ground (arith, o.suspended_iff u, o.suspended_off);
    sleeping_waits = λ u m. ground (arith, o.sleeping_waits u, o.sleeping_off);
    sleeping_listed = λ u m. ground (arith, o.sleeping_listed u);
  }

  pub ready_add-put : ready_add t l ≡ some (put_ready t l)
  unfolding ready_add
  ready_add-put = ground (arith, o.ready_off, o.suspended_off, o.sleeping_off)

  pub suspended_add-put : suspended_add t l ≡ some (put_suspended t l)
  unfolding suspended_add
  suspended_add-put = ground (arith, o.ready_off, o.suspended_off, o.sleeping_off)

  pub sleeping_add-put : sleeping_add t l ≡ some (put_sleeping t l)
  unfolding sleeping_add
  sleeping_add-put = ground (arith, o.ready_off, o.suspended_off, o.sleeping_off)

module _ (t : ℕ) (l : Threads) where
  pub ready_remove-drop : has t l.ready_list ≡ true → ready_remove t l ≡ some (drop_ready t l)
  unfolding ready_remove
  ready_remove-drop m = rw m

  pub suspended_remove-drop :
      has t l.suspended_list ≡ true → suspended_remove t l ≡ some (drop_suspended t l)
  unfolding suspended_remove
  suspended_remove-drop m = rw m

  pub sleeping_remove-drop :
      has t l.sleeping_list ≡ true → sleeping_remove t l ≡ some (drop_sleeping t l)
  unfolding sleeping_remove
  sleeping_remove-drop m = rw m
