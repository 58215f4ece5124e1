-- ===== src/Classes/Timer.antt =====
-- The classes `Timer` and `TimerWithMemberCallback`: include/argon/ar_classes.h, and the end of
-- src/ar_timer.cpp. The addresses of `Timer::timer_wrapper` and of `member_callback` are parameters.
use argon_rtos.Prelude.{ℕ, Bool, Option, none, some, ◌>>=◌, List, update}
use argon_rtos.Types.{Status, TimerMode}
use argon_rtos.Kernel.{Kernel}
use argon_rtos.Timer

-- The members that the two classes add.
pub record TimerMembers : Type 0 where
  pub user_callback : Option ℕ
  pub member_callback : List ℕ

-- The kernel and the members of the objects.
pub record Program : Type 0 where
  pub kernel : Kernel
  pub members : ℕ → TimerMembers

abbrev pub set_members : ℕ → TimerMembers → Program → Program
set_members t x p = record p { members = update p.members t x }

-- `Timer::init`.
unfoldable pub init :
    (wrapper t name : ℕ)
    → Option ℕ
    → (param : ℕ) → TimerMode
    → (delay : ℕ) → Program
    → Status × Program
init wrapper t name callback param mode delay p =
    let q = set_members t (record (p.members t) { user_callback = callback }) p in
    let r = Timer.create (some t) name (some wrapper) param mode delay q.kernel in
    (r.0, record q { kernel = r.1 })

-- The destructor.
unfoldable pub destroy : ℕ → Kernel → Option Kernel
destroy t k = Timer.delete (some t) k >>= λ r. some r.1

-- `start`, `stop` and `setDelay`, which return nothing.
unfoldable pub start : ℕ → Kernel → Option Kernel
start t k = Timer.start (some t) k >>= λ r. some r.1

unfoldable pub stop : ℕ → Kernel → Option Kernel
stop t k = Timer.stop (some t) k >>= λ r. some r.1

unfoldable pub set_delay : (t delay : ℕ) → Kernel → Option Kernel
set_delay t delay k = Timer.set_delay (some t) delay k >>= λ r. some r.1

-- `getName`, `isActive` and `getDelay`.
unfoldable pub get_name : ℕ → Kernel → ℕ
get_name t k = (k.objects.timer t).name

unfoldable pub is_active : ℕ → Kernel → Bool
is_active t k = (k.objects.timer t).is_active

unfoldable pub get_delay : ℕ → Kernel → ℕ
get_delay t k = (k.objects.timer t).delay

-- `Timer::timer_wrapper`. `call f t param` is the effect of the callback at address `f`.
unfoldable pub timer_wrapper :
    ((f t param : ℕ) → Kernel → Option Kernel)
    → (ℕ → TimerMembers)
    → (t param : ℕ) → Kernel
    → Option Kernel
timer_wrapper call members t param k = elim (members t).user_callback [
  | none ↦ some k
  | some f ↦ call f t param k
]

-- `TimerWithMemberCallback<T>::init`: the words of the member function pointer are kept.
unfoldable pub init_member :
    (wrapper address t name object : ℕ)
    → List ℕ
    → TimerMode
    → (delay : ℕ) → Program
    → Status × Program
unfolding init
init_member wrapper address t name object callback mode delay p =
    init wrapper t name (some address) object mode delay
      (set_members t (record (p.members t) { member_callback = callback }) p)

-- `TimerWithMemberCallback<T>::invoke` and `member_callback`. `invoke_on object member t` is the
-- effect of the member function with the pointer `member`.
module _ (invoke_on : (object : ℕ) → List ℕ → (t : ℕ) → Kernel → Option Kernel) where
  unfoldable pub invoke : (ℕ → TimerMembers) → (t object : ℕ) → Kernel → Option Kernel
  invoke members t object k = invoke_on object (members t).member_callback t k

  unfoldable pub member_callback : (ℕ → TimerMembers) → (t param : ℕ) → Kernel → Option Kernel
  unfolding invoke
  member_callback members t param k = invoke members t param k

-- The constructors with a name, which discard what `init` returns.
unfoldable pub construct :
    (wrapper t name : ℕ) → Option ℕ → (param : ℕ) → TimerMode → (delay : ℕ) → Program → Program
unfolding init
construct wrapper t name callback param mode delay p =
    (init wrapper t name callback param mode delay p).1

unfoldable pub construct_member :
    (wrapper address t name object : ℕ) → List ℕ → TimerMode → (delay : ℕ) → Program → Program
unfolding init_member
construct_member wrapper address t name object callback mode delay p =
    (init_member wrapper address t name object callback mode delay p).1
