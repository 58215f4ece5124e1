-- ===== src/Kernel/Lists.antt =====
-- The thread lists of the kernel: the sort predicates of src/ar_thread.cpp, and `add` and `remove`
-- at a thread's main node. `none` is the failed assertion of `_ar_list` where a node that is added
-- is on a list already, or a node that is removed is on none. It also stands for the removal of a
-- node that is on another list, which would follow the links of that one.
use argon_rtos.Prelude.{ℕ, Bool, not, ◌||◌, Option, none, some, ◌>>◌, has, ltb, assert, update}
use argon_rtos.Types.{Thread, ThreadState, Status}
use argon_rtos.Kernel.{Threads}
use argon_rtos.ArList.Seq

-- `ar_thread_sort_by_priority`.
unfoldable pub sort_by_priority : (ℕ → Thread) → ℕ → ℕ → Bool
sort_by_priority thread a b = ltb (thread b).priority (thread a).priority

-- `ar_thread_sort_by_wakeup`.
unfoldable pub sort_by_wakeup : (ℕ → Thread) → ℕ → ℕ → Bool
sort_by_wakeup thread a b = ltb (thread a).wakeup_time (thread b).wakeup_time

-- Whether the main node of a thread is on a list.
unfoldable pub on_list : ℕ → Threads → Bool
on_list t l = has t l.ready_list || (has t l.suspended_list || has t l.sleeping_list)

unfoldable pub set_state : ℕ → ThreadState → Threads → Threads
set_state t s l = record l { thread = update l.thread t (record (l.thread t) { state = s }) }

unfoldable pub set_priority : ℕ → ℕ → Threads → Threads
set_priority t p l = record l { thread = update l.thread t (record (l.thread t) { priority = p }) }

unfoldable pub set_wakeup_time : ℕ → ℕ → Threads → Threads
set_wakeup_time t w l = record l {
  thread = update l.thread t (record (l.thread t) { wakeup_time = w });
}

unfoldable pub set_unblock_status : ℕ → Status → Threads → Threads
set_unblock_status t s l = record l {
  thread = update l.thread t (record (l.thread t) { unblock_status = s });
}

unfoldable pub ready_add : ℕ → Threads → Option Threads
unfolding on_list sort_by_priority
ready_add t l = do
  assert (not (on_list t l))
  some (record l { ready_list = Seq.add (some (sort_by_priority l.thread)) t l.ready_list })

unfoldable pub ready_remove : ℕ → Threads → Option Threads
ready_remove t l = do
  assert (has t l.ready_list)
  some (record l { ready_list = Seq.remove t l.ready_list })

unfoldable pub suspended_add : ℕ → Threads → Option Threads
unfolding on_list
suspended_add t l = do
  assert (not (on_list t l))
  some (record l { suspended_list = Seq.add none t l.suspended_list })

unfoldable pub suspended_remove : ℕ → Threads → Option Threads
suspended_remove t l = do
  assert (has t l.suspended_list)
  some (record l { suspended_list = Seq.remove t l.suspended_list })

unfoldable pub sleeping_add : ℕ → Threads → Option Threads
unfolding on_list sort_by_wakeup
sleeping_add t l = do
  assert (not (on_list t l))
  some (record l { sleeping_list = Seq.add (some (sort_by_wakeup l.thread)) t l.sleeping_list })

unfoldable pub sleeping_remove : ℕ → Threads → Option Threads
sleeping_remove t l = do
  assert (has t l.sleeping_list)
  some (record l { sleeping_list = Seq.remove t l.sleeping_list })
