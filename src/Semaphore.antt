-- ===== src/Semaphore.antt =====
-- Counting semaphores: src/ar_sem.cpp.
pub mod Get
pub mod Put
use argon_rtos.Prelude.{
  ℕ, ◌+◌, ◌-◌, Option, none, some, ◌>>=◌, [], ◌==◌, if◌then◌else◌, u32, update,
}
use argon_rtos.Types.{
  Status, success, timeout_error, object_deleted_error, not_from_interrupt_error,
  invalid_parameter_error, Semaphore, no_timeout,
}
use argon_rtos.Kernel.{Kernel, deferred_semaphore_get, deferred_semaphore_put}
use argon_rtos.Kernel.Lock.{lock}
use argon_rtos.Deferred.{post}
use argon_rtos.Block.{
  of_semaphore, set_objects, Outcome, returned, finish, wait, come_back, unblock_head,
  post_returned, unblock_all,
}

abbrev pub set_semaphore : ℕ → Semaphore → Kernel → Kernel
set_semaphore s x k =
    let o = k.objects in set_objects (record o { semaphore = update o.semaphore s x }) k

unfoldable pub set_count : ℕ → ℕ → Kernel → Kernel
set_count s n k = set_semaphore s (record (k.objects.semaphore s) { count = n }) k

-- `ar_semaphore_create`.
unfoldable pub create : Option ℕ → (name count : ℕ) → Kernel → Status × Kernel
create none name count k = (invalid_parameter_error, k)
create (some s) name count k =
    if k.port.irq_state
    then (not_from_interrupt_error, k)
    else (success, set_semaphore s (record { name = name; count = count; blocked_list = [] }) k)

-- `ar_semaphore_delete`.
unfoldable pub delete : Option ℕ → Kernel → Option (Status × Kernel)
delete none k = some (invalid_parameter_error, k)
delete (some s) k =
    if k.port.irq_state
    then some (not_from_interrupt_error, k)
    else (unblock_all (of_semaphore s) object_deleted_error k >>= λ k. some (success, k))

-- The loop of ar_semaphore_get_internal, up to the point where it blocks.
unfoldable pub get_loop : ℕ → ℕ → Kernel → Option Outcome
get_loop s timeout k =
    let n = (k.objects.semaphore s).count in
    if n == 0
    then (if timeout == no_timeout
        then finish timeout_error k
        else (k.current_thread >>= λ t. wait t (of_semaphore s) timeout k))
    else finish success (set_count s (n - 1) k)

-- `ar_semaphore_get_internal`.
unfoldable pub get_internal : ℕ → ℕ → Kernel → Option Outcome
get_internal s timeout k = get_loop s timeout (lock k)

-- ar_semaphore_get_internal from the return of the scheduler to thread `t` on.
unfoldable pub get_resumed : ℕ → ℕ → ℕ → Kernel → Option Outcome
get_resumed s timeout t k = come_back t (of_semaphore s) (get_loop s timeout) k

-- `ar_semaphore_get`.
unfoldable pub get : Option ℕ → ℕ → Kernel → Option Outcome
get none timeout k = some (returned invalid_parameter_error k)
get (some s) timeout k =
    if k.port.irq_state
    then (if timeout == 0
        then post_returned (post deferred_semaphore_get s k)
        else some (returned not_from_interrupt_error k))
    else get_internal s timeout k

-- `ar_semaphore_put_internal`.
unfoldable pub put_internal : ℕ → Kernel → Option Outcome
put_internal s k = do
  let k = lock k
  let k = set_count s (u32 ((k.objects.semaphore s).count + 1)) k
  k ← unblock_head (of_semaphore s) success k
  finish success k

-- `ar_semaphore_put`.
unfoldable pub put : Option ℕ → Kernel → Option Outcome
put none k = some (returned invalid_parameter_error k)
put (some s) k =
    if k.port.irq_state then post_returned (post deferred_semaphore_put s k) else put_internal s k

-- `ar_semaphore_get_count`.
unfoldable pub get_count : Option ℕ → Kernel → ℕ
get_count none k = 0
get_count (some s) k = (k.objects.semaphore s).count

-- `ar_semaphore_get_name`.
unfoldable pub get_name : Option ℕ → Kernel → Option ℕ
get_name none k = none
get_name (some s) k = some (k.objects.semaphore s).name
