-- ===== src/Classes/RunLoop.antt =====
-- The class `RunLoop` of include/argon/ar_classes.h.
use argon_rtos.Prelude.{ℕ, Bool, false, Option, some}
use argon_rtos.Types.{Status}
use argon_rtos.Kernel.{Kernel}
use argon_rtos.RunLoop
use argon_rtos.RunLoop.Run
use argon_rtos.Classes.{default, timeout_of}

unfoldable pub init : ℕ → (name : ℕ) → Kernel → Status × Kernel
init r name k = RunLoop.create (some r) name k

-- The destructor.
unfoldable pub destroy : ℕ → Kernel → Kernel
destroy r k = (RunLoop.delete (some r) k).1

unfoldable pub get_name : ℕ → Kernel → ℕ
get_name r k = (k.objects.run_loop r).name

unfoldable pub stop : ℕ → Kernel → Option (Status × Kernel)
stop r k = RunLoop.stop (some r) k

-- `perform`, with a parameter of NULL if it is left out.
unfoldable pub perform : ℕ → Option ℕ → Option ℕ → Kernel → Option (Status × Kernel)
perform r function param k = RunLoop.perform (some r) function (default 0 param) k

unfoldable pub add_timer : ℕ → Option ℕ → Kernel → Status × Kernel
add_timer r timer k = RunLoop.add_timer (some r) timer k

-- `addQueue`. The handler is NULL if it is left out, and so is its parameter.
unfoldable pub add_queue : ℕ → Option ℕ → Option ℕ → Option ℕ → Kernel → Status × Kernel
add_queue r queue handler param k = RunLoop.add_queue (some r) queue handler (default 0 param) k

unfoldable pub get_current : Kernel → Option (Option ℕ)
get_current k = RunLoop.get_current k

-- `run`, with an infinite timeout and no place for the object if they are left out. The parameters
-- are those of ar_runloop_run: the code of the application, and the bounds of its loops.
module _ (call : (f t p : ℕ) → Kernel → Option Kernel) (apply : (f p : ℕ) → Kernel → Option Kernel)
    (handle : (f q p : ℕ) → Kernel → Option Kernel) (others : Kernel → Option Kernel) where
  unfoldable pub run :
      (rounds fuel : ℕ) → ℕ → Option ℕ → Option Bool → Kernel → Option (Status × Option ℕ × Kernel)
  run rounds fuel r timeout wanted k =
      Run.run call apply handle others rounds fuel (some r) (timeout_of timeout)
        (default false wanted) k

-- The constructor with a name, which discards what `init` returns.
unfoldable pub construct : ℕ → (name : ℕ) → Kernel → Kernel
unfolding init
construct r name k = (init r name k).1
