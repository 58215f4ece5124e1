-- ===== src/Channel.antt =====
-- Channels: src/ar_channel.cpp. A value is the bytes from its address on, as many as the width. `is_sending` also
-- tells which of the two blocked lists is `myDirList`, and which is `otherDirList`.
pub mod Rendezvous
use argon_rtos.Prelude.{
  ℕ, Bool, true, false, not, ◌||◌, Option, none, some, ◌>>=◌, List, [], ◌∷◌, ◌==◌, if◌then◌else◌,
  update, ◌+◌, ◌-◌, ◌&&◌, leb, ltb,
}
use argon_rtos.Types.{
  Status, success, timeout_error, object_deleted_error, not_from_interrupt_error,
  invalid_parameter_error, Thread, Channel, no_timeout,
}
use argon_rtos.Kernel.{Kernel, Threads, Objects, deferred_channel_send}
use argon_rtos.Kernel.Lock.{lock}
use argon_rtos.Thread.{set_threads}
use argon_rtos.Deferred.{post_with}
use argon_rtos.Block.{
  BlockedList, of_senders, of_receivers, blocked_list, set_objects, Outcome, returned, finish, wait,
  come_back, unblock_with_status, unblock_all, post_returned,
}

-- `sizeof(void *)`.
abbrev pointer_size : ℕ
pointer_size = 4

abbrev pub set_channel : ℕ → Channel → Kernel → Kernel
set_channel c x k = let o = k.objects in set_objects (record o { channel = update o.channel c x }) k

-- `ar_channel_create`.
unfoldable pub create : Option ℕ → (name width : ℕ) → Kernel → Status × Kernel
create none name width k = (invalid_parameter_error, k)
create (some c) name width k = if k.port.irq_state then (not_from_interrupt_error, k) else (
  success,
  set_channel c
      (record {
        name = name;
        width = if width == 0 then pointer_size else width;
        blocked_senders = [];
        blocked_receivers = [];
      })
      k,
)

-- `ar_channel_delete`.
unfoldable pub delete : Option ℕ → Kernel → Option (Status × Kernel)
delete none k = some (invalid_parameter_error, k)
delete (some c) k = if k.port.irq_state then some (not_from_interrupt_error, k) else do
  k ← unblock_all (of_senders c) object_deleted_error k
  k ← unblock_all (of_receivers c) object_deleted_error k
  some (success, k)

-- The list that a thread of this direction waits on, and the one that its partners wait on.
abbrev pub my_list : Bool → ℕ → BlockedList
my_list true c = of_senders c
my_list false c = of_receivers c

abbrev pub other_list : Bool → ℕ → BlockedList
other_list true c = of_receivers c
other_list false c = of_senders c

unfoldable pub set_channel_data : (t value : ℕ) → Kernel → Kernel
set_channel_data t value k =
    let l = k.threads in
    set_threads
      (record l { thread = update l.thread t (record (l.thread t) { channel_data = value }) }) k

-- `ar_channel_block`, up to the point where it blocks.
unfoldable pub block_on : Bool → (c value timeout : ℕ) → Kernel → Option Outcome
block_on is_sending c value timeout k =
    if timeout == no_timeout
    then finish timeout_error k
    else (k.current_thread >>= λ t.
        wait t (my_list is_sending c) timeout (set_channel_data t value k))

-- Where the value is, and where it goes, if the partner that waits has the address `partner`.
abbrev pub source : Bool → (value partner : ℕ) → ℕ
source is_sending value partner = if is_sending then value else partner

abbrev pub destination : Bool → (value partner : ℕ) → ℕ
destination is_sending value partner = if is_sending then partner else value

-- The memory with the `n` bytes from `src` on at `dest`.
unfoldable pub copy_bytes : (n dest src : ℕ) → (ℕ → ℕ) → ℕ → ℕ
copy_bytes n dest src memory a =
    if leb dest a && ltb a (dest + n) then memory (src + (a - dest)) else memory a

-- Two areas of `n` bytes have a byte in common.
unfoldable pub overlap : (n dest src : ℕ) → Bool
overlap n dest src = ltb dest (src + n) && ltb src (dest + n)

-- `memcpy`. Areas that overlap, which C leaves undefined, are `none`.
unfoldable pub memcpy : (dest src n : ℕ) → (ℕ → ℕ) → Option (ℕ → ℕ)
memcpy dest src n memory = if overlap n dest src then none else some (copy_bytes n dest src memory)

-- The transfer: an assignment of a word if the width is that of a word.
unfoldable pub transfer : (width dest src : ℕ) → (ℕ → ℕ) → Option (ℕ → ℕ)
transfer width dest src memory =
    if width == 4 then some (copy_bytes 4 dest src memory) else memcpy dest src width memory

-- The value goes from the sender's address to the receiver's. `t` is the partner that waits.
unfoldable pub copy_value : Bool → (c t value : ℕ) → Kernel → Option Kernel
copy_value is_sending c t value k = do
  let o = k.objects
  let partner = (k.threads.thread t).channel_data
  let src = source is_sending value partner
  let dest = destination is_sending value partner
  memory ← transfer (o.channel c).width dest src o.memory
  some (set_objects (record o { memory = memory }) k)

-- `ar_channel_send_receive_internal` under the lock.
unfoldable pub send_receive_locked : Bool → (c value timeout : ℕ) → Kernel → Option Outcome
send_receive_locked is_sending c value timeout k = elim (blocked_list (other_list is_sending c) k) [
  | [] ↦ block_on is_sending c value timeout k
  | t ∷ _ ↦ do
    k ← copy_value is_sending c t value k
    k ← unblock_with_status t (other_list is_sending c) success k
    finish success k
]

-- `ar_channel_send_receive_internal`.
unfoldable pub send_receive_internal : Bool → (c value timeout : ℕ) → Kernel → Option Outcome
send_receive_internal is_sending c value timeout k =
    send_receive_locked is_sending c value timeout (lock k)

-- The end of ar_channel_block, from the return of the scheduler to thread `t` on.
unfoldable pub send_receive_resumed : Bool → (c t : ℕ) → Kernel → Option Outcome
send_receive_resumed is_sending c t k = come_back t (my_list is_sending c) (finish success) k

-- `ar_channel_send_receive`.
unfoldable pub send_receive : Bool → Option ℕ → (value timeout : ℕ) → Kernel → Option Outcome
send_receive is_sending none value timeout k = some (returned invalid_parameter_error k)
send_receive is_sending (some c) value timeout k =
    if k.port.irq_state
    then (if not is_sending || not (timeout == 0)
        then some (returned not_from_interrupt_error k)
        else post_returned (post_with deferred_channel_send c value k))
    else send_receive_internal is_sending c value timeout k

-- `ar_channel_receive` and `ar_channel_send`.
unfoldable pub receive : Option ℕ → (value timeout : ℕ) → Kernel → Option Outcome
receive c value timeout k = send_receive false c value timeout k

unfoldable pub send : Option ℕ → (value timeout : ℕ) → Kernel → Option Outcome
send c value timeout k = send_receive true c value timeout k

-- `ar_channel_get_name`.
unfoldable pub get_name : Option ℕ → Kernel → Option ℕ
get_name none k = none
get_name (some c) k = some (k.objects.channel c).name
