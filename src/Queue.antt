-- ===== src/Queue.antt =====
-- Message queues: src/ar_queue.cpp. An element is one value, at its address in memory.
pub mod Contents
pub mod Fifo
use argon_rtos.Prelude.{
  ℕ, zero, suc, ◌+◌, ◌-◌, Bool, true, false, not, ◌||◌, Option, none, some, ◌>>=◌, ◌>>◌, List, [],
  ◌∷◌, ◌==◌, leb, if◌then◌else◌, u32, sub32, set, get_elem?, has, update, assert,
}
use argon_rtos.Types.{
  Status, success, object_deleted_error, queue_full_error, queue_empty_error,
  not_from_interrupt_error, invalid_parameter_error, Queue, RunLoop, no_timeout,
}
use argon_rtos.Kernel.{Kernel, Objects, deferred_queue_send}
use argon_rtos.Kernel.Lock.{lock}
use argon_rtos.Deferred.{post_with}
use argon_rtos.Block.{
  BlockedList, of_queue_senders, of_queue_receivers, set_objects, Outcome, returned, waits, finish,
  wait, come_back, unblock_head, unblock_all, is_empty, post_returned,
}
use argon_rtos.RunLoop.{wake_run_loop}
use argon_rtos.ArList.Seq

abbrev pub set_queue : ℕ → Queue → Kernel → Kernel
set_queue q x k = let o = k.objects in set_objects (record o { queue = update o.queue q x }) k

-- `ar_queue_create`. `storage` holds the values of the storage that is passed in.
unfoldable pub create :
    Option ℕ → ℕ → Option (List ℕ) → (element_size capacity : ℕ) → Kernel → Status × Kernel
create none name storage element_size capacity k = (invalid_parameter_error, k)
create (some q) name none element_size capacity k = (invalid_parameter_error, k)
create (some q) name (some storage) element_size capacity k =
    if (element_size == 0) || (capacity == 0)
    then (invalid_parameter_error, k)
    else if k.port.irq_state
    then (not_from_interrupt_error, k)
    else (
      success,
      set_queue q
          (record {
            name = name;
            elements = storage;
            element_size = element_size;
            capacity = capacity;
            head = 0;
            tail = 0;
            count = 0;
            send_blocked_list = [];
            receive_blocked_list = [];
            run_loop = none;
            run_loop_handler = none;
            run_loop_handler_param = 0;
          })
          k,
    )

-- `ar_queue_delete`.
unfoldable pub delete : Option ℕ → Kernel → Option (Status × Kernel)
delete none k = some (invalid_parameter_error, k)
delete (some q) k = if k.port.irq_state then some (not_from_interrupt_error, k) else do
  k ← unblock_all (of_queue_senders q) object_deleted_error k
  k ← unblock_all (of_queue_receivers q) object_deleted_error k
  some (success, k)

-- `++index`, round the end of the storage.
unfoldable pub advance : (index capacity : ℕ) → ℕ
advance index capacity = if leb capacity (u32 (index + 1)) then 0 else u32 (index + 1)

-- A value is copied into place, and the tail and the count are updated.
unfoldable pub store : ℕ → Queue → Queue
unfolding advance
store v x = record x {
  elements = set x.elements x.tail v;
  tail = advance x.tail x.capacity;
  count = u32 (x.count + 1);
}

-- The first value. Behind the storage there is none.
unfoldable pub front : Queue → Option ℕ
front x = get_elem? x.elements x.head

-- The head and the count once the first value is read out.
unfoldable pub drop_front : Queue → Queue
unfolding advance
drop_front x = record x { head = advance x.head x.capacity; count = sub32 x.count 1 }

-- The queue is made pending at its run loop, which is woken, unless it is pending already.
unfoldable pub add_pending : (q run_loop : ℕ) → Kernel → Option Kernel
add_pending q run_loop k =
    let o = k.objects in
    let x = o.run_loop run_loop in
    if has q x.queues
    then some k
    else wake_run_loop run_loop (
        set_objects
          (record o {
            run_loop = update o.run_loop run_loop (record x { queues = Seq.add none q x.queues });
          })
          k)

-- Once a value is there: the first receiver is unblocked, else a run loop is told.
unfoldable pub notify : ℕ → Kernel → Option Kernel
notify q k =
    let x = k.objects.queue q in
    if not (is_empty x.receive_blocked_list)
    then unblock_head (of_queue_receivers q) success k
    else elim x.run_loop [ none ↦ some k | some r ↦ add_pending q r k ]

-- The loop of ar_queue_send_internal, up to the point where it blocks, and what follows the loop.
unfoldable pub send_loop : (q element timeout : ℕ) → Kernel → Option Outcome
send_loop q element timeout k =
    let x = k.objects.queue q in
    if leb x.capacity x.count
    then (if timeout == no_timeout
        then finish queue_full_error k
        else (k.current_thread >>= λ t. wait t (of_queue_senders q) timeout k))
    else (notify q (set_queue q (store (k.objects.memory element) x) k) >>= λ k. finish success k)

-- `ar_queue_send_internal`.
unfoldable pub send_internal : (q element timeout : ℕ) → Kernel → Option Outcome
send_internal q element timeout k = send_loop q element timeout (lock k)

-- ar_queue_send_internal from the return of the scheduler to thread `t` on.
unfoldable pub send_resumed : (q element timeout t : ℕ) → Kernel → Option Outcome
send_resumed q element timeout t k =
    come_back t (of_queue_senders q) (send_loop q element timeout) k

-- `ar_queue_send`.
unfoldable pub send : Option ℕ → Option ℕ → ℕ → Kernel → Option Outcome
send none element timeout k = some (returned invalid_parameter_error k)
send (some q) none timeout k = some (returned invalid_parameter_error k)
send (some q) (some element) timeout k =
    if k.port.irq_state
    then post_returned (post_with deferred_queue_send q element k)
    else send_internal q element timeout k

-- The value `v` is read out to `element`, and the first sender is unblocked.
unfoldable pub take_front : (q element v : ℕ) → Kernel → Option Outcome
take_front q element v k = do
  let o = k.objects
  let k = set_objects (record o { memory = update o.memory element v }) k
  k ← unblock_head (of_queue_senders q) success (set_queue q (drop_front (o.queue q)) k)
  finish success k

-- The loop of ar_queue_receive, up to the point where it blocks, and what follows the loop.
unfoldable pub receive_loop : (q element timeout : ℕ) → Kernel → Option Outcome
receive_loop q element timeout k =
    let x = k.objects.queue q in
    if x.count == 0
    then (if timeout == no_timeout
        then finish queue_empty_error k
        else (k.current_thread >>= λ t. wait t (of_queue_receivers q) timeout k))
    else (front x >>= λ v. take_front q element v k)

-- ar_queue_receive from the return of the scheduler to thread `t` on.
unfoldable pub receive_resumed : (q element timeout t : ℕ) → Kernel → Option Outcome
receive_resumed q element timeout t k =
    come_back t (of_queue_receivers q) (receive_loop q element timeout) k

-- `ar_queue_receive`.
unfoldable pub receive : Option ℕ → Option ℕ → ℕ → Kernel → Option Outcome
receive none element timeout k = some (returned invalid_parameter_error k)
receive (some q) none timeout k = some (returned invalid_parameter_error k)
receive (some q) (some element) timeout k =
    if k.port.irq_state
    then some (returned not_from_interrupt_error k)
    else receive_loop q element timeout (lock k)

-- `ar_queue_get_name`.
unfoldable pub get_name : Option ℕ → Kernel → Option ℕ
get_name none k = none
get_name (some q) k = some (k.objects.queue q).name
