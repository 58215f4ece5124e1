-- ===== src/Thread/Consistent/Moves.antt =====
-- Taking a thread off a list, changing it while it is off, and putting it on a list again.
use argon_rtos.Prelude.{ℕ, ◌≡◌, true, false, none, some, has, arith, Bool-cases}
use argon_rtos.Kernel.{Threads}
use argon_rtos.Kernel.Lists.{sort_by_priority, sort_by_wakeup}
use argon_rtos.Thread.Consistent.{
  is_ready, is_suspended, IsShaped, IsConsistent, IsOff, sort_by_priority-IsStrictWeak,
  sort_by_wakeup-IsStrictWeak,
}
use argon_rtos.ArList.Seq
use argon_rtos.ArList.Seq.Order.{has-remove, Distinct-remove}
use argon_rtos.ArList.Seq.Sorted.{IsSorted-remove}

-- The lists without one thread, or with one more.
abbrev pub drop_ready : ℕ → Threads → Threads
drop_ready t l = record l { ready_list = Seq.remove t l.ready_list }

abbrev pub drop_suspended : ℕ → Threads → Threads
drop_suspended t l = record l { suspended_list = Seq.remove t l.suspended_list }

abbrev pub drop_sleeping : ℕ → Threads → Threads
drop_sleeping t l = record l { sleeping_list = Seq.remove t l.sleeping_list }

abbrev pub put_ready : ℕ → Threads → Threads
put_ready t l = record l { ready_list = Seq.add (some (sort_by_priority l.thread)) t l.ready_list }

abbrev pub put_suspended : ℕ → Threads → Threads
put_suspended t l = record l { suspended_list = Seq.add none t l.suspended_list }

abbrev pub put_sleeping : ℕ → Threads → Threads
put_sleeping t l = record l {
  sleeping_list = Seq.add (some (sort_by_wakeup l.thread)) t l.sleeping_list;
}

drop_ready-IsShaped : (t : ℕ) (l : Threads) → IsShaped l → IsShaped (drop_ready t l)
drop_ready-IsShaped t l s = record {
  distinct_ready = Distinct-remove t l.ready_list s.distinct_ready;
  distinct_suspended = s.distinct_suspended;
  distinct_sleeping = s.distinct_sleeping;
  sorted_ready =
      IsSorted-remove _ (sort_by_priority-IsStrictWeak l.thread) t l.ready_list s.sorted_ready;
  sorted_sleeping = s.sorted_sleeping;
}

drop_suspended-IsShaped : (t : ℕ) (l : Threads) → IsShaped l → IsShaped (drop_suspended t l)
drop_suspended-IsShaped t l s = record {
  distinct_ready = s.distinct_ready;
  distinct_suspended = Distinct-remove t l.suspended_list s.distinct_suspended;
  distinct_sleeping = s.distinct_sleeping;
  sorted_ready = s.sorted_ready;
  sorted_sleeping = s.sorted_sleeping;
}

drop_sleeping-IsShaped : (t : ℕ) (l : Threads) → IsShaped l → IsShaped (drop_sleeping t l)
drop_sleeping-IsShaped t l s = record {
  distinct_ready = s.distinct_ready;
  distinct_suspended = s.distinct_suspended;
  distinct_sleeping = Distinct-remove t l.sleeping_list s.distinct_sleeping;
  sorted_ready = s.sorted_ready;
  sorted_sleeping =
      IsSorted-remove _ (sort_by_wakeup-IsStrictWeak l.thread) t l.sleeping_list s.sorted_sleeping;
}

module _ (t : ℕ) (l : Threads) (c : IsConsistent l) where
  pub drop_ready-IsOff : has t l.ready_list ≡ true → IsOff t (drop_ready t l)
  drop_ready-IsOff m = record {
    shaped = drop_ready-IsShaped t l c.shaped;
    ready_off = ground (arith, has-remove t t l.ready_list);
    suspended_off = ground (arith, c.ready_iff t, c.suspended_iff t);
    sleeping_off =
        ground (arith, c.ready_iff t, c.sleeping_waits t, Bool-cases (has t l.sleeping_list));
    ready_iff = λ u n. ground (arith, c.ready_iff u, has-remove u t l.ready_list);
    suspended_iff = λ u n. c.suspended_iff u;
    sleeping_waits = λ u n. c.sleeping_waits u;
    sleeping_listed = λ u n. c.sleeping_listed u;
  }

  pub drop_suspended-IsOff : has t l.suspended_list ≡ true → IsOff t (drop_suspended t l)
  drop_suspended-IsOff m = record {
    shaped = drop_suspended-IsShaped t l c.shaped;
    ready_off = ground (arith, c.ready_iff t, c.suspended_iff t);
    suspended_off = ground (arith, has-remove t t l.suspended_list);
    sleeping_off =
        ground (arith, c.suspended_iff t, c.sleeping_waits t, Bool-cases (has t l.sleeping_list));
    ready_iff = λ u n. c.ready_iff u;
    suspended_iff = λ u n. ground (arith, c.suspended_iff u, has-remove u t l.suspended_list);
    sleeping_waits = λ u n. c.sleeping_waits u;
    sleeping_listed = λ u n. c.sleeping_listed u;
  }

  pub drop_sleeping-IsOff : has t l.sleeping_list ≡ true → IsOff t (drop_sleeping t l)
  drop_sleeping-IsOff m = record {
    shaped = drop_sleeping-IsShaped t l c.shaped;
    ready_off = ground (arith, c.ready_iff t, c.sleeping_waits t);
    suspended_off = ground (arith, c.suspended_iff t, c.sleeping_waits t);
    sleeping_off = ground (arith, has-remove t t l.sleeping_list);
    ready_iff = λ u n. c.ready_iff u;
    suspended_iff = λ u n. c.suspended_iff u;
    sleeping_waits = λ u n m. c.sleeping_waits u (ground (arith, has-remove u t l.sleeping_list));
    sleeping_listed = λ u n m. ground (arith, c.sleeping_listed u, has-remove u t l.sleeping_list);
  }

  -- A thread that is on no list, and need not be.
  pub IsConsistent-IsOff :
      is_ready (l.thread t).state ≡ false
      → is_suspended (l.thread t).state ≡ false
      → has t l.sleeping_list ≡ false
      → IsOff t l
  IsConsistent-IsOff r s n = record {
    shaped = c.shaped;
    ready_off = ground (arith, c.ready_iff t);
    suspended_off = ground (arith, c.suspended_iff t);
    sleeping_off = n;
    ready_iff = λ u n. c.ready_iff u;
    suspended_iff = λ u n. c.suspended_iff u;
    sleeping_waits = λ u n. c.sleeping_waits u;
    sleeping_listed = λ u n. c.sleeping_listed u;
  }
