-- ===== src/Block.antt =====
-- Blocking on an object and unblocking: `_ar_thread::block` and `_ar_thread::unblockWithStatus` of
-- src/ar_thread.cpp. A blocked list is passed by reference: it is read and written through
-- `blocked_list` and `set_blocked_list`. A call that blocks stops in the middle: what it does when
-- the scheduler comes back to its thread is a function of its own, from `wake_up` on.
pub mod Finish
pub mod Empty
pub mod Unblock
pub mod Enter
use argon_rtos.Prelude.{
  ℕ, zero, suc, length, ◌+◌, Bool, true, false, not, ◌&&◌, Option, none, some, ◌>>=◌, ◌>>◌, List,
  [], ◌∷◌, ◌==◌, ltb, if◌then◌else◌, u32, assert, has, update,
}
use argon_rtos.Types.{Status, success, ThreadState, blocked, infinite_timeout}
use argon_rtos.Kernel.{Kernel, Threads, Objects}
use argon_rtos.Kernel.Lists.{
  sort_by_priority, set_state, set_wakeup_time, set_unblock_status, ready_remove, sleeping_add,
  sleeping_remove,
}
use argon_rtos.Kernel.Lock.{begin_unlock, end_unlock, enter_scheduler, unlock}
use argon_rtos.Kernel.Tick.{update_round_robin, milliseconds_to_ticks}
use argon_rtos.Thread.{set_threads, make_ready, current_priority, request_reschedule}
use argon_rtos.ArList.Seq

-- A reference to the blocked list of an object.
pub data BlockedList : Type 0 where
  of_semaphore of_mutex : ℕ → BlockedList
  of_senders of_receivers : ℕ → BlockedList
  of_queue_senders of_queue_receivers : ℕ → BlockedList

unfoldable pub blocked_list : BlockedList → Kernel → List ℕ
blocked_list (of_semaphore s) k = (k.objects.semaphore s).blocked_list
blocked_list (of_mutex m) k = (k.objects.mutex m).blocked_list
blocked_list (of_senders c) k = (k.objects.channel c).blocked_senders
blocked_list (of_receivers c) k = (k.objects.channel c).blocked_receivers
blocked_list (of_queue_senders q) k = (k.objects.queue q).send_blocked_list
blocked_list (of_queue_receivers q) k = (k.objects.queue q).receive_blocked_list

abbrev pub set_objects : Objects → Kernel → Kernel
set_objects o k = record k { objects = o }

unfoldable pub put_blocked_list : BlockedList → List ℕ → Objects → Objects
put_blocked_list (of_semaphore s) xs o = record o {
  semaphore = update o.semaphore s (record (o.semaphore s) { blocked_list = xs });
}
put_blocked_list (of_mutex m) xs o = record o {
  mutex = update o.mutex m (record (o.mutex m) { blocked_list = xs });
}
put_blocked_list (of_senders c) xs o = record o {
  channel = update o.channel c (record (o.channel c) { blocked_senders = xs });
}
put_blocked_list (of_receivers c) xs o = record o {
  channel = update o.channel c (record (o.channel c) { blocked_receivers = xs });
}
put_blocked_list (of_queue_senders q) xs o = record o {
  queue = update o.queue q (record (o.queue q) { send_blocked_list = xs });
}
put_blocked_list (of_queue_receivers q) xs o = record o {
  queue = update o.queue q (record (o.queue q) { receive_blocked_list = xs });
}

unfoldable pub set_blocked_list : BlockedList → List ℕ → Kernel → Kernel
set_blocked_list b xs k = set_objects (put_blocked_list b xs k.objects) k

-- The sort predicate of a blocked list: only that of a mutex has one.
unfoldable pub blocked_predicate : BlockedList → Kernel → Option (ℕ → ℕ → Bool)
blocked_predicate (of_mutex m) k = some (sort_by_priority k.threads.thread)
blocked_predicate _ k = none

-- `blockedList.add(&m_blockedNode)`: the node is on no list, in particular not on this one.
unfoldable pub blocked_add : BlockedList → ℕ → Kernel → Option Kernel
blocked_add b t k = do
  assert (not (has t (blocked_list b k)))
  some (set_blocked_list b (Seq.add (blocked_predicate b k) t (blocked_list b k)) k)

-- `blockedList.remove(&m_blockedNode)`: the node is on this list.
unfoldable pub blocked_remove : BlockedList → ℕ → Kernel → Option Kernel
blocked_remove b t k = do
  assert (has t (blocked_list b k))
  some (set_blocked_list b (Seq.remove t (blocked_list b k)) k)

-- The timeout of a blocked thread.
unfoldable pub start_timeout : ℕ → ℕ → Kernel → Option Kernel
start_timeout t timeout k =
    if timeout == infinite_timeout
    then some (set_threads (set_wakeup_time t 0 k.threads) k)
    else let w = u32 (k.tick_count + milliseconds_to_ticks timeout) in
      sleeping_add t (set_wakeup_time t w k.threads) >>= λ l. some (set_threads l k)

-- `_ar_thread::block`, up to the point where the scheduler takes over.
unfoldable pub block : ℕ → BlockedList → ℕ → Kernel → Option Kernel
block t b timeout k = do
  assert (not (timeout == 0))
  l ← ready_remove t k.threads
  k ← update_round_robin (set_threads l k)
  let k = set_threads (set_unblock_status t success (set_state t blocked k.threads)) k
  k ← blocked_add b t k
  k ← start_timeout t timeout k
  k ← begin_unlock k
  some (enter_scheduler k)

-- The end of `_ar_thread::block`, when the thread runs again: its unblock status.
unfoldable pub wake_up : ℕ → Kernel → Status × Kernel
wake_up t k = ((k.threads.thread t).unblock_status, end_unlock k)

abbrev pub is_empty : List ℕ → Bool
is_empty [] = true
is_empty (_ ∷ _) = false

-- `m_wakeupTime && g_ar.sleepingList.m_head`.
unfoldable pub has_timeout : ℕ → Threads → Bool
has_timeout t l = not ((l.thread t).wakeup_time == 0) && not (is_empty l.sleeping_list)

abbrev pub is_blocked : ThreadState → Bool
is_blocked blocked = true
is_blocked _ = false

-- `_ar_thread::unblockWithStatus`.
unfoldable pub unblock_with_status : ℕ → BlockedList → Status → Kernel → Option Kernel
unblock_with_status t b status k = do
  assert (is_blocked (k.threads.thread t).state)
  l ← if has_timeout t k.threads then sleeping_remove t k.threads else some k.threads
  k ← blocked_remove b t (set_threads l k)
  l ← make_ready t (set_unblock_status t status k.threads)
  k ← update_round_robin (set_threads l k)
  some (request_reschedule (ltb (current_priority k) (k.threads.thread t).priority) k)

-- A call that may block has returned, or waits for the scheduler to come back to its thread.
pub data Outcome : Type 0 where
  returned : Status → Kernel → Outcome
  waits : Kernel → Outcome

abbrev pub is_success : Status → Bool
is_success success = true
is_success _ = false

-- The lock is released, and the call returns.
abbrev pub finish : Status → Kernel → Option Outcome
finish s k = do k ← unlock k; some (returned s k)

-- The outcome of a call that posts a deferred action.
abbrev pub post_returned : Option (Status × Kernel) → Option Outcome
post_returned r = r >>= λ r. some (returned r.0 r.1)

-- The call returns a status and a kernel that satisfy the predicate.
abbrev pub Finishes : (Status → Kernel → Type 0) → Option Outcome → Type 0
Finishes P none = ⊥
Finishes P (some (waits k)) = ⊥
Finishes P (some (returned s k)) = P s k

-- The call waits, and the kernel that it leaves satisfies the predicate.
abbrev pub Waits : (Kernel → Type 0) → Option Outcome → Type 0
Waits P none = ⊥
Waits P (some (returned s k)) = ⊥
Waits P (some (waits k)) = P k

-- The current thread blocks, and the call waits.
abbrev pub wait : ℕ → BlockedList → ℕ → Kernel → Option Outcome
wait t b timeout k = do k ← block t b timeout k; some (waits k)

-- What every call does when its thread runs again: an error takes the thread off the blocked list
-- and is returned, success goes on.
unfoldable pub come_back : ℕ → BlockedList → (Kernel → Option Outcome) → Kernel → Option Outcome
come_back t b go_on k =
    let (status, k) = wake_up t k in
    elim (is_success status) [
      | true ↦ go_on k
      | false ↦ do k ← blocked_remove b t k; finish status k
    ]

-- The head of a blocked list, if there is one, is unblocked.
unfoldable pub unblock_head : BlockedList → Status → Kernel → Option Kernel
unblock_head b status k = elim (blocked_list b k) [
  | [] ↦ some k
  | t ∷ _ ↦ unblock_with_status t b status k
]

-- The loop that unblocks the head of a list while it has one.
unfoldable pub unblock_from : ℕ → BlockedList → Status → Kernel → Option Kernel
unblock_from zero b status k = none
unblock_from (suc fuel) b status k = elim (blocked_list b k) [
  | [] ↦ some k
  | t ∷ _ ↦ do k ← unblock_with_status t b status k; unblock_from fuel b status k
]

-- The fuel is a round for every thread of the list, and one to find it empty.
unfoldable pub unblock_all : BlockedList → Status → Kernel → Option Kernel
unfolding unblock_from
unblock_all b status k = unblock_from (suc (length (blocked_list b k))) b status k
