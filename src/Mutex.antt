-- ===== src/Mutex.antt =====
-- Recursive mutexes with priority inheritance: src/ar_mutex.cpp.
pub mod Contended
pub mod Handover
pub mod Held
pub mod Hoist
pub mod Nested
pub mod Refused
pub mod Restore
use argon_rtos.Prelude.{
  ℕ, ◌+◌, ◌-◌, Bool, true, false, not, Option, none, some, ◌>>=◌, ◌>>◌, [], ◌==◌, ltb,
  if◌then◌else◌, u32, update, assert, ◌&&◌,
}
use argon_rtos.Types.{
  Status, success, timeout_error, not_from_interrupt_error, not_owner_error, already_unlocked_error,
  invalid_parameter_error, Mutex, no_timeout,
}
use argon_rtos.Kernel.{Kernel, deferred_mutex_get, deferred_mutex_put}
use argon_rtos.Kernel.Lock.{lock}
use argon_rtos.Kernel.Lists.{set_priority}
use argon_rtos.Thread.{set_threads}
use argon_rtos.Thread.Run.{set_thread_priority}
use argon_rtos.Deferred.{post}
use argon_rtos.Block.{
  of_mutex, set_objects, Outcome, returned, finish, wait, come_back, unblock_head, post_returned,
}

abbrev pub set_mutex : ℕ → Mutex → Kernel → Kernel
set_mutex m x k = let o = k.objects in set_objects (record o { mutex = update o.mutex m x }) k

-- Equality of pointers that may be NULL.
abbrev pub same_thread : Option ℕ → Option ℕ → Bool
same_thread none none = true
same_thread none (some _) = false
same_thread (some _) none = false
same_thread (some a) (some b) = a == b

abbrev pub is_null : Option ℕ → Bool
is_null none = true
is_null (some _) = false

-- `ar_mutex_create`.
unfoldable pub create : Option ℕ → ℕ → Kernel → Status × Kernel
create none name k = (invalid_parameter_error, k)
create (some m) name k = if k.port.irq_state then (not_from_interrupt_error, k) else (
  success,
  set_mutex m
      (record {
        name = name;
        owner = none;
        owner_lock_count = 0;
        original_priority = 0;
        blocked_list = [];
      })
      k,
)

-- `ar_mutex_delete`.
unfoldable pub delete : Option ℕ → Kernel → Status × Kernel
delete none k = (invalid_parameter_error, k)
delete (some m) k = if k.port.irq_state then (not_from_interrupt_error, k) else (success, k)

-- The owner gets the priority `p` of a thread that waits, if that is higher. Its first priority is
-- kept. The ready list is left as it is.
unfoldable pub hoist : (m owner p : ℕ) → Kernel → Kernel
hoist m owner p k =
    let q = (k.threads.thread owner).priority in
    let x = k.objects.mutex m in
    if ltb q p
    then set_threads (set_priority owner p k.threads)
        (if x.original_priority == 0 then set_mutex m (record x { original_priority = q }) k else k)
    else k

-- The current thread becomes the owner.
unfoldable pub take : ℕ → Kernel → Option Outcome
take m k = do
  let x = k.objects.mutex m
  assert (is_null x.owner && (x.owner_lock_count == 0))
  finish success (set_mutex m (record x { owner = k.current_thread; owner_lock_count = 1 }) k)

-- The loop of ar_mutex_get_internal, up to the point where it blocks.
unfoldable pub get_loop : ℕ → ℕ → Kernel → Option Outcome
get_loop m timeout k =
    let x = k.objects.mutex m in
    if x.owner_lock_count == 0
    then take m k
    else if timeout == no_timeout
    then finish timeout_error k
    else (k.current_thread >>= λ self. x.owner >>= λ owner.
        wait self (of_mutex m) timeout (hoist m owner (k.threads.thread self).priority k))

-- `ar_mutex_get_internal`.
unfoldable pub get_internal : ℕ → ℕ → Kernel → Option Outcome
get_internal m timeout k =
    let k = lock k in
    let x = k.objects.mutex m in
    if same_thread k.current_thread x.owner
    then finish success
        (set_mutex m (record x { owner_lock_count = u32 (x.owner_lock_count + 1) }) k)
    else get_loop m timeout k

-- ar_mutex_get_internal from the return of the scheduler to thread `t` on.
unfoldable pub get_resumed : ℕ → ℕ → ℕ → Kernel → Option Outcome
get_resumed m timeout t k = come_back t (of_mutex m) (get_loop m timeout) k

-- `ar_mutex_get`.
unfoldable pub get : Option ℕ → ℕ → Kernel → Option Outcome
get none timeout k = some (returned invalid_parameter_error k)
get (some m) timeout k =
    if k.port.irq_state
    then post_returned (post deferred_mutex_get m k)
    else get_internal m timeout k

-- The owner `self` gets its first priority back, if it was raised.
unfoldable pub restore : (m self : ℕ) → Kernel → Option Kernel
restore m self k =
    let x = k.objects.mutex m in
    if x.original_priority == 0
    then some k
    else (set_thread_priority (some self) x.original_priority
          (set_mutex m (record x { original_priority = 0 }) k)
        >>= λ r. some r.1)

-- The last release: the mutex is free, and the head of its blocked list is unblocked.
unfoldable pub release : (m self : ℕ) → Kernel → Option Outcome
release m self k = do
  let x = k.objects.mutex m
  k ← restore m self (set_mutex m (record x { owner = none; owner_lock_count = 0 }) k)
  k ← unblock_head (of_mutex m) success k
  finish success k

-- `ar_mutex_put_internal`.
unfoldable pub put_internal : ℕ → Kernel → Option Outcome
put_internal m k =
    let k = lock k in
    let x = k.objects.mutex m in
    if x.owner_lock_count == 0
    then finish already_unlocked_error k
    else if not (same_thread k.current_thread x.owner)
    then finish not_owner_error k
    else if x.owner_lock_count == 1
    then (k.current_thread >>= λ self. release m self k)
    else finish success (set_mutex m (record x { owner_lock_count = x.owner_lock_count - 1 }) k)

-- `ar_mutex_put`.
unfoldable pub put : Option ℕ → Kernel → Option Outcome
put none k = some (returned invalid_parameter_error k)
put (some m) k =
    if k.port.irq_state then post_returned (post deferred_mutex_put m k) else put_internal m k

-- `ar_mutex_is_locked` and `ar_mutex_get_owner`.
unfoldable pub is_locked : Option ℕ → Kernel → Bool
is_locked none k = false
is_locked (some m) k = not ((k.objects.mutex m).owner_lock_count == 0)

unfoldable pub get_owner : Option ℕ → Kernel → Option ℕ
get_owner none k = none
get_owner (some m) k = (k.objects.mutex m).owner

-- `ar_mutex_get_name`.
unfoldable pub get_name : Option ℕ → Kernel → Option ℕ
get_name none k = none
get_name (some m) k = some (k.objects.mutex m).name
