-- ===== src/Kernel/Scheduler/Loads.antt =====
-- Load accounting, and what scheduling depends on.
use argon_rtos.Prelude.{
  ℕ, ◌≡◌, refl, ◌∙◌, Option, none, some, List, [], ◌∷◌, arith, has, update, leb, ap, inl, inr,
  Bool-cases,
}
use argon_rtos.Types.{Thread}
use argon_rtos.Kernel.{Kernel}
use argon_rtos.Kernel.Lists.{sort_by_priority, sort_by_wakeup}
use argon_rtos.Kernel.Scheduler.{
  sample_load, sample_loads, update_thread_loads, add_load, end_period, account_load, sample_period,
  sub64, get_microseconds,
}
use argon_rtos.Thread.Consistent.{IsConsistent}
use argon_rtos.ArList.Seq.Sorted.{IsSorted-frame}

-- Two threads differ at most in their load counters.
pub record SameThread (x y : Thread) : Type 0 where
  pub state : y.state ≡ x.state
  pub priority : y.priority ≡ x.priority
  pub wakeup_time : y.wakeup_time ≡ x.wakeup_time
  pub unblock_status : y.unblock_status ≡ x.unblock_status
  pub stack_pointer : y.stack_pointer ≡ x.stack_pointer
  pub stack_bottom : y.stack_bottom ≡ x.stack_bottom

-- Two kernels differ at most in the load counters.
pub record SameLoad (k k' : Kernel) : Type 0 where
  pub ready_list : k'.threads.ready_list ≡ k.threads.ready_list
  pub suspended_list : k'.threads.suspended_list ≡ k.threads.suspended_list
  pub sleeping_list : k'.threads.sleeping_list ≡ k.threads.sleeping_list
  pub thread : (u : ℕ) → SameThread (k.threads.thread u) (k'.threads.thread u)
  pub current_thread : k'.current_thread ≡ k.current_thread
  pub objects : k'.objects ≡ k.objects
  pub lock_count : k'.lock_count ≡ k.lock_count

SameThread-refl : (x : Thread) → SameThread x x
SameThread-refl x = record {
  state = refl;
  priority = refl;
  wakeup_time = refl;
  unblock_status = refl;
  stack_pointer = refl;
  stack_bottom = refl;
}

SameThread-trans : (x y z : Thread) → SameThread x y → SameThread y z → SameThread x z
SameThread-trans x y z p q = ground arith

sample_loads-SameThread :
    (xs : List ℕ) (f : ℕ → Thread) (u : ℕ) → SameThread (f u) (sample_loads xs f u)
unfolding sample_loads
sample_loads-SameThread [] f u = SameThread-refl (f u)
sample_loads-SameThread (x ∷ xs) f u =
    SameThread-trans (f u) (update f x (sample_load (f x)) u) _ (ground arith)
      (sample_loads-SameThread xs (update f x (sample_load (f x))) u)

SameLoad-trans : (a b c : Kernel) → SameLoad a b → SameLoad b c → SameLoad a c
SameLoad-trans a b c p q = record {
  ready_list = q.ready_list ∙ p.ready_list;
  suspended_list = q.suspended_list ∙ p.suspended_list;
  sleeping_list = q.sleeping_list ∙ p.sleeping_list;
  thread = λ u. SameThread-trans _ _ _ (p.thread u) (q.thread u);
  current_thread = q.current_thread ∙ p.current_thread;
  objects = q.objects ∙ p.objects;
  lock_count = q.lock_count ∙ p.lock_count;
}

add_load-SameLoad : (t us : ℕ) (k : Kernel) → SameLoad k (add_load t us k)
unfolding add_load
add_load-SameLoad t us k = record {
  ready_list = refl;
  suspended_list = refl;
  sleeping_list = refl;
  thread = λ u. ground arith;
  current_thread = refl;
  objects = refl;
  lock_count = refl;
}

update_thread_loads-SameLoad : (k : Kernel) → SameLoad k (update_thread_loads k)
unfolding update_thread_loads
update_thread_loads-SameLoad k = record {
  ready_list = refl;
  suspended_list = refl;
  sleeping_list = refl;
  thread = λ u.
      SameThread-trans _ _ _ (sample_loads-SameThread k.threads.ready_list k.threads.thread u) (
        SameThread-trans _ _ _ (sample_loads-SameThread k.threads.suspended_list _ u)
          (sample_loads-SameThread k.threads.sleeping_list _ u));
  current_thread = refl;
  objects = refl;
  lock_count = refl;
}

end_period-SameLoad : (t now : ℕ) (k : Kernel) → SameLoad k (end_period t now k)
unfolding end_period
end_period-SameLoad t now k =
    let us =
      sub64 (sub64 now k.last_switch_in) (sub64 (sub64 now k.last_load_start) sample_period) in
    let s =
      SameLoad-trans _ _ _ (add_load-SameLoad t us k)
        (update_thread_loads-SameLoad (add_load t us k)) in
    record {
      ready_list = s.ready_list;
      suspended_list = s.suspended_list;
      sleeping_list = s.sleeping_list;
      thread = s.thread;
      current_thread = s.current_thread;
      objects = s.objects;
      lock_count = s.lock_count;
    }

SameLoad-refl : (k : Kernel) → SameLoad k k
SameLoad-refl k = record {
  ready_list = refl;
  suspended_list = refl;
  sleeping_list = refl;
  thread = λ u. SameThread-refl (k.threads.thread u);
  current_thread = refl;
  objects = refl;
  lock_count = refl;
}

account-SameLoad :
    (t now : ℕ) (k k' : Kernel)
    → SameLoad k k'
    → SameLoad k (record (add_load t (sub64 now k'.last_switch_in) k') { last_switch_in = now })
account-SameLoad t now k k' s =
    let r = SameLoad-trans _ _ _ s (add_load-SameLoad t (sub64 now k'.last_switch_in) k') in
    record {
      ready_list = r.ready_list;
      suspended_list = r.suspended_list;
      sleeping_list = r.sleeping_list;
      thread = r.thread;
      current_thread = r.current_thread;
      objects = r.objects;
      lock_count = r.lock_count;
    }

pub account_load-SameLoad : (c : Option ℕ) (k : Kernel) → SameLoad k (account_load c k)
unfolding account_load
account_load-SameLoad none k = SameLoad-refl k
account_load-SameLoad (some t) k =
    elim (Bool-cases (leb sample_period (sub64 (get_microseconds k) k.last_load_start))) [
      | inl e ↦ rw e (
          account-SameLoad t (get_microseconds k) k _
            (end_period-SameLoad t (get_microseconds k) k))
      | inr e ↦ rw e (account-SameLoad t (get_microseconds k) k k (SameLoad-refl k))
    ]

-- Consistency depends on the lists, and on the states, priorities and times of the threads.
pub SameLoad-IsConsistent :
    (k k' : Kernel) → SameLoad k k' → IsConsistent k.threads → IsConsistent k'.threads
unfolding sort_by_priority sort_by_wakeup
SameLoad-IsConsistent k k' s c = record {
  shaped = record {
    distinct_ready = rw s.ready_list c.shaped.distinct_ready;
    distinct_suspended = rw s.suspended_list c.shaped.distinct_suspended;
    distinct_sleeping = rw s.sleeping_list c.shaped.distinct_sleeping;
    sorted_ready = rw s.ready_list (
        IsSorted-frame _ _ k.threads.ready_list
          (λ a b ma mb. ground (arith, (s.thread a).priority, (s.thread b).priority))
          c.shaped.sorted_ready);
    sorted_sleeping = rw s.sleeping_list (
        IsSorted-frame _ _ k.threads.sleeping_list
          (λ a b ma mb. ground (arith, (s.thread a).wakeup_time, (s.thread b).wakeup_time))
          c.shaped.sorted_sleeping);
  };
  ready_iff = λ u. ground (arith, ap (has u) s.ready_list, c.ready_iff u, (s.thread u).state);
  suspended_iff =
      λ u. ground (arith, ap (has u) s.suspended_list, c.suspended_iff u, (s.thread u).state);
  sleeping_waits =
      λ u m. ground (arith, ap (has u) s.sleeping_list, c.sleeping_waits u, (s.thread u).state);
  sleeping_listed =
      λ u m. ground (arith, ap (has u) s.sleeping_list, c.sleeping_listed u, (s.thread u).state);
}
