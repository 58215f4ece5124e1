-- ===== src/Classes/Mutex.antt =====
-- The class `Mutex` of include/argon/ar_classes.h, with `Mutex::Guard`.
use argon_rtos.Prelude.{ℕ, Bool, Option, some}
use argon_rtos.Types.{Status, infinite_timeout}
use argon_rtos.Kernel.{Kernel}
use argon_rtos.Block.{Outcome}
use argon_rtos.Mutex
use argon_rtos.Classes.{timeout_of}

unfoldable pub init : ℕ → (name : ℕ) → Kernel → Status × Kernel
init m name k = Mutex.create (some m) name k

-- The destructor.
unfoldable pub destroy : ℕ → Kernel → Kernel
destroy m k = (Mutex.delete (some m) k).1

unfoldable pub get : ℕ → Option ℕ → Kernel → Option Outcome
get m timeout k = Mutex.get (some m) (timeout_of timeout) k

unfoldable pub put : ℕ → Kernel → Option Outcome
put m k = Mutex.put (some m) k

-- `getName`, `getOwner` and `isLocked`.
unfoldable pub get_name : ℕ → Kernel → ℕ
get_name m k = (k.objects.mutex m).name

unfoldable pub get_owner : ℕ → Kernel → Option ℕ
get_owner m k = (k.objects.mutex m).owner

unfoldable pub is_locked : ℕ → Kernel → Bool
is_locked m k = Mutex.is_locked (some m) k

-- The constructor and the destructor of `Mutex::Guard`. What they return is ignored.
unfoldable pub guard : ℕ → Kernel → Option Outcome
unfolding get
guard m k = get m (some infinite_timeout) k

unfoldable pub unguard : ℕ → Kernel → Option Outcome
unfolding put
unguard m k = put m k

-- The constructor with a name, which discards what `init` returns.
unfoldable pub construct : ℕ → (name : ℕ) → Kernel → Kernel
unfolding init
construct m name k = (init m name k).1
