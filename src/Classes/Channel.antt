-- ===== src/Classes/Channel.antt =====
-- The classes `Channel` and `TypedChannel` of include/argon/ar_classes.h. A value of the type of a
-- typed channel stands in memory at the address of its first byte, that of a variable on the caller's
-- stack.
use argon_rtos.Prelude.{ℕ, Option, none, some, ◌>>=◌, update}
use argon_rtos.Types.{Status}
use argon_rtos.Kernel.{Kernel}
use argon_rtos.Block.{Outcome, returned, waits, set_objects}
use argon_rtos.Channel
use argon_rtos.Classes.{default, timeout_of}

-- `init`, with a width of zero if it is left out.
unfoldable pub init : ℕ → (name : ℕ) → Option ℕ → Kernel → Status × Kernel
init c name width k = Channel.create (some c) name (default 0 width) k

-- The destructor.
unfoldable pub destroy : ℕ → Kernel → Option Kernel
destroy c k = Channel.delete (some c) k >>= λ r. some r.1

unfoldable pub send : ℕ → (value : ℕ) → Option ℕ → Kernel → Option Outcome
send c value timeout k = Channel.send (some c) value (timeout_of timeout) k

unfoldable pub receive : ℕ → (value : ℕ) → Option ℕ → Kernel → Option Outcome
receive c value timeout k = Channel.receive (some c) value (timeout_of timeout) k

-- A value is in a variable at an address.
abbrev pub in_variable : (at value : ℕ) → Kernel → Kernel
in_variable at value k =
    let o = k.objects in set_objects (record o { memory = update o.memory at value }) k

-- What a call gives that returns the value it received, or waits.
pub data Received : Type 0 where
  received : (value : ℕ) → Kernel → Received
  still_waits : Kernel → Received

-- The value of the variable when the call returns, whatever its status is.
abbrev pub read_variable : ℕ → Outcome → Received
read_variable at (returned s k) = received (k.objects.memory at) k
read_variable at (waits k) = still_waits k

-- `TypedChannel<T>::init`, for values of `size` bytes.
unfoldable pub typed_init : (size c name : ℕ) → Kernel → Status × Kernel
unfolding init
typed_init size c name k = init c name (some size) k

-- `TypedChannel<T>::send`.
unfoldable pub typed_send : (at c value : ℕ) → Option ℕ → Kernel → Option Outcome
unfolding send
typed_send at c value timeout k = send c at timeout (in_variable at value k)

-- `TypedChannel<T>::receive` into a variable of the caller.
unfoldable pub typed_receive : (at c : ℕ) → Option ℕ → Kernel → Option Outcome
unfolding receive
typed_receive at c timeout k = receive c at timeout k

-- `TypedChannel<T>::receive` of a value, through a variable that is not initialised.
unfoldable pub receive_value : (at c : ℕ) → Option ℕ → Kernel → Option Received
unfolding receive
receive_value at c timeout k = receive c at timeout k >>= λ o. some (read_variable at o)

-- The operators `<<=` and `>>`: a value is received into a variable, or sent from one.
unfoldable pub receive_operator : (at c : ℕ) → Kernel → Option Received
unfolding receive_value
receive_operator at c k = receive_value at c none k

unfoldable pub send_operator : (at c value : ℕ) → Kernel → Option Outcome
unfolding typed_send
send_operator at c value k = typed_send at c value none k

-- The constructors with a name, which discard what `init` returns.
unfoldable pub construct : ℕ → (name : ℕ) → Option ℕ → Kernel → Kernel
unfolding init
construct c name width k = (init c name width k).1

unfoldable pub typed_construct : (size c name : ℕ) → Kernel → Kernel
unfolding construct
typed_construct size c name k = construct c name (some size) k
