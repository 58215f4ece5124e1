-- ===== src/Deferred.antt =====
-- The deferred action queue: ar_kernel_atomic_queue_insert and `_ar_deferred_action_queue` of
-- src/ar_kernel.cpp. An insertion runs here without another one in between.
pub mod Contents
pub mod Concurrent
use argon_rtos.Prelude.{ℕ, ◌+◌, ◌%◌, Option, none, some, ◌>>=◌, ltb, leb, if◌then◌else◌, set}
use argon_rtos.Types.{Status, success}
use argon_rtos.Kernel.{Kernel, Action, action_extra_value, ActionQueue}
use argon_rtos.Kernel.Lock.{enter_scheduler}

-- `AR_DEFERRED_ACTION_QUEUE_SIZE`.
abbrev pub deferred_action_queue_size : ℕ
deferred_action_queue_size = 8

-- `ar_kernel_atomic_queue_insert`: the first index, the new count and the new tail, or `none` for -1.
unfoldable pub atomic_queue_insert : (entries count tail size : ℕ) → Option (ℕ × ℕ × ℕ)
atomic_queue_insert entries count tail size =
    if ltb size (count + entries)
    then none
    else some (tail, count + entries, (tail + entries) % size)

-- `_ar_deferred_action_queue::insert`. A full queue halts the processor.
unfoldable pub insert : ℕ → ActionQueue → Option (ℕ × ActionQueue)
insert entries q = do
  (index, count, last) ← atomic_queue_insert entries q.count q.last deferred_action_queue_size
  some (index, record q { count = count; last = last })

unfoldable pub write_entry : ℕ → Action → ℕ → ActionQueue → ActionQueue
write_entry index action object q = record q {
  entries = set q.entries index (record { action = action; object = object });
}

-- `_ar_deferred_action_queue::post` of an action and its object.
unfoldable pub post : Action → ℕ → Kernel → Option (Status × Kernel)
post action object k = do
  (index, q) ← insert 1 k.deferred_actions
  some
      (success, enter_scheduler (record k { deferred_actions = write_entry index action object q }))

-- `++index`, round the end of the queue.
unfoldable pub next_index : ℕ → ℕ
next_index index = if leb deferred_action_queue_size (index + 1) then 0 else index + 1

-- `_ar_deferred_action_queue::post` of an action, its object and an argument.
unfoldable pub post_with : Action → ℕ → ℕ → Kernel → Option (Status × Kernel)
post_with action object arg k = do
  (index, q) ← insert 2 k.deferred_actions
  let q = write_entry index action object q
  let q = write_entry (next_index index) action_extra_value arg q
  some (success, enter_scheduler (record k { deferred_actions = q }))
