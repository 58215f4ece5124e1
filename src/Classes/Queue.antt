-- ===== src/Classes/Queue.antt =====
-- The classes `Queue` and `StaticQueue` of include/argon/ar_classes.h. An element is one value of
-- memory, at the address of a variable on the caller's stack.
use argon_rtos.Prelude.{ℕ, Bool, true, false, Option, none, some, ◌>>=◌, List, ◌==◌}
use argon_rtos.Types.{Status}
use argon_rtos.Kernel.{Kernel}
use argon_rtos.Block.{Outcome, returned, waits}
use argon_rtos.Queue
use argon_rtos.Classes.{timeout_of}
use argon_rtos.Classes.Channel.{in_variable}

unfoldable pub init :
    ℕ → (name : ℕ) → Option (List ℕ) → (element_size capacity : ℕ) → Kernel → Status × Kernel
init q name storage element_size capacity k =
    Queue.create (some q) name storage element_size capacity k

-- The destructor.
unfoldable pub destroy : ℕ → Kernel → Option Kernel
destroy q k = Queue.delete (some q) k >>= λ r. some r.1

unfoldable pub send : ℕ → Option ℕ → Option ℕ → Kernel → Option Outcome
send q element timeout k = Queue.send (some q) element (timeout_of timeout) k

unfoldable pub receive : ℕ → Option ℕ → Option ℕ → Kernel → Option Outcome
receive q element timeout k = Queue.receive (some q) element (timeout_of timeout) k

-- `getName`, `isEmpty` and `getCount`.
unfoldable pub get_name : ℕ → Kernel → ℕ
get_name q k = (k.objects.queue q).name

unfoldable pub is_empty : ℕ → Kernel → Bool
is_empty q k = (k.objects.queue q).count == 0

unfoldable pub get_count : ℕ → Kernel → ℕ
get_count q k = (k.objects.queue q).count

-- `StaticQueue<T, N>::init`. The storage is the object's own, for elements of `size` bytes.
unfoldable pub static_init :
    (size capacity q name : ℕ) → (storage : List ℕ) → Kernel → Status × Kernel
unfolding init
static_init size capacity q name storage k = init q name (some storage) size capacity k

-- `StaticQueue<T, N>::send`.
unfoldable pub static_send : (at q element : ℕ) → Option ℕ → Kernel → Option Outcome
unfolding send
static_send at q element timeout k = send q (some at) timeout (in_variable at element k)

-- `StaticQueue<T, N>::receive` into a variable of the caller.
unfoldable pub static_receive : ℕ → Option ℕ → Option ℕ → Kernel → Option Outcome
unfolding receive
static_receive q element timeout k = receive q element timeout k

-- What a call gives that returns the element it received, with the status if that was asked for.
pub data Received : Type 0 where
  received : (element : ℕ) → Option Status → Kernel → Received
  still_waits : Kernel → Received

abbrev pub read_element : (at : ℕ) → (wanted : Bool) → Outcome → Received
read_element at true (returned s k) = received (k.objects.memory at) (some s) k
read_element at false (returned s k) = received (k.objects.memory at) none k
read_element at wanted (waits k) = still_waits k

-- `StaticQueue<T, N>::receive` of an element, through a variable that is not initialised. `wanted`
-- is whether there is a place for the status.
unfoldable pub receive_element : (at q : ℕ) → Option ℕ → (wanted : Bool) → Kernel → Option Received
unfolding receive
receive_element at q timeout wanted k =
    receive q (some at) timeout k >>= λ o. some (read_element at wanted o)

-- The constructors with a name, which discard what `init` returns.
unfoldable pub construct :
    ℕ → (name : ℕ) → Option (List ℕ) → (element_size capacity : ℕ) → Kernel → Kernel
unfolding init
construct q name storage element_size capacity k = (init q name storage element_size capacity k).1

unfoldable pub static_construct : (size capacity q name : ℕ) → (storage : List ℕ) → Kernel → Kernel
unfolding init
static_construct size capacity q name storage k = (init q name (some storage) size capacity k).1
