-- ===== src/Classes/Semaphore.antt =====
-- The class `Semaphore` of include/argon/ar_classes.h.
use argon_rtos.Prelude.{ℕ, Option, some, ◌>>=◌}
use argon_rtos.Types.{Status}
use argon_rtos.Kernel.{Kernel}
use argon_rtos.Block.{Outcome}
use argon_rtos.Semaphore
use argon_rtos.Classes.{default, timeout_of}

-- `init`, with a count of one if it is left out.
unfoldable pub init : ℕ → (name : ℕ) → Option ℕ → Kernel → Status × Kernel
init s name count k = Semaphore.create (some s) name (default 1 count) k

-- The destructor.
unfoldable pub destroy : ℕ → Kernel → Option Kernel
destroy s k = Semaphore.delete (some s) k >>= λ r. some r.1

unfoldable pub get : ℕ → Option ℕ → Kernel → Option Outcome
get s timeout k = Semaphore.get (some s) (timeout_of timeout) k

unfoldable pub put : ℕ → Kernel → Option Outcome
put s k = Semaphore.put (some s) k

-- `getName` and `getCount`.
unfoldable pub get_name : ℕ → Kernel → ℕ
get_name s k = (k.objects.semaphore s).name

unfoldable pub get_count : ℕ → Kernel → ℕ
get_count s k = (k.objects.semaphore s).count

-- The constructor with a name, which discards what `init` returns.
unfoldable pub construct : ℕ → (name : ℕ) → Option ℕ → Kernel → Kernel
unfolding init
construct s name count k = (init s name count k).1
