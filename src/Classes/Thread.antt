-- ===== src/Classes/Thread.antt =====
-- The class `Thread`: its methods in include/argon/ar_classes.h and at the end of src/ar_thread.cpp.
-- The addresses of ar_thread_wrapper and of `Thread::thread_entry` are parameters.
pub mod Construct
pub mod Lifetime
pub mod Words
pub mod Member
use argon_rtos.Prelude.{
  ℕ, zero, suc, ◌+◌, ◌≡◌, Bool, true, false, ◌&&◌, Option, none, some, ◌>>=◌, List, [], ◌∷◌, update,
  if◌then◌else◌,
}
use argon_rtos.Types.{Status, success, out_of_memory_error, ThreadState}
use argon_rtos.Kernel.{Kernel, Objects}
use argon_rtos.Kernel.Scheduler.{is_thread}
use argon_rtos.Block.{set_objects, is_success}
use argon_rtos.Thread
use argon_rtos.Thread.Create
use argon_rtos.Thread.Run
use argon_rtos.Thread.Report
use argon_rtos.Classes.{default, ThreadMembers, Allocator}

-- A function's words at consecutive addresses: `memcpy` to and from the stack.
unfoldable pub write_words : ℕ → List ℕ → (ℕ → ℕ) → ℕ → ℕ
write_words p [] memory = memory
write_words p (w ∷ ws) memory = write_words (p + 4) ws (update memory p w)

unfoldable pub read_words : ℕ → ℕ → (ℕ → ℕ) → List ℕ
read_words zero p memory = []
read_words (suc n) p memory = memory p ∷ read_words n (p + 4) memory

-- `getName`, `getState` and `getPriority`, of an object that is there.
unfoldable pub get_name : ℕ → Kernel → ℕ
get_name t k = (k.threads.thread t).name

unfoldable pub get_state : ℕ → Kernel → ThreadState
get_state t k = (k.threads.thread t).state

unfoldable pub get_priority : ℕ → Kernel → ℕ
get_priority t k = (k.threads.thread t).priority

-- `suspend`, `resume`, `sleep` and `sleepUntil`, which return nothing.
unfoldable pub suspend : ℕ → Kernel → Option Kernel
suspend t k = Thread.suspend (some t) k >>= λ r. some r.1

unfoldable pub resume : ℕ → Kernel → Option Kernel
resume t k = Thread.resume (some t) k >>= λ r. some r.1

unfoldable pub sleep : ℕ → Kernel → Option Kernel
sleep milliseconds k = Run.sleep milliseconds k

unfoldable pub sleep_until : ℕ → Kernel → Option Kernel
sleep_until wakeup k = Run.sleep_until wakeup k

-- `setPriority`, `getLoad`, `getStackUsed` and `getCurrent`.
unfoldable pub set_priority : (t priority : ℕ) → Kernel → Option (Status × Kernel)
set_priority t priority k = Run.set_thread_priority (some t) priority k

unfoldable pub get_load : ℕ → Kernel → ℕ
get_load t k = Report.get_load (some t) k

unfoldable pub get_stack_used : ℕ → Kernel → ℕ
get_stack_used t k = Report.stack_used (k.threads.thread t) k.objects.memory

unfoldable pub get_current : Kernel → Option ℕ
get_current k = k.current_thread

-- The member function pointer is copied to the bottom of the stack, behind the check value.
unfoldable pub store_member : ℕ → List ℕ → Kernel → Kernel
unfolding write_words
store_member t member k =
    let o = k.objects in
    set_objects
      (record o { memory = write_words ((k.threads.thread t).stack_bottom + 4) member o.memory }) k

-- The thread is resumed if it is to start.
unfoldable pub finish_member : List ℕ → Bool → ℕ → Kernel → Option Kernel
unfolding store_member
finish_member member start t k =
    let k = store_member t member k in if start then resume t k else some k

module _ (a : Allocator) where
  open a use {Heap, allocate, free}

  -- The kernel, the heap, and the members of the objects.
  pub record Program : Type 0 where
    pub kernel : Kernel
    pub heap : Heap
    pub members : ℕ → ThreadMembers

  unfoldable pub set_kernel : Kernel → Program → Program
  set_kernel k p = record p { kernel = k }

  unfoldable pub set_allocated_stack : ℕ → Option ℕ → Program → Program
  set_allocated_stack t s p = record p {
    members = update p.members t (record (p.members t) { allocated_stack = s });
  }

  unfoldable pub set_user_entry : ℕ → Option ℕ → Program → Program
  set_user_entry t f p = record p {
    members = update p.members t (record (p.members t) { user_entry = f });
  }

  -- The stack that `init` uses: the caller's, or a block of its own, if there is one.
  unfoldable pub choose_stack : Option ℕ → (size t : ℕ) → Program → Option ℕ × Program
  unfolding set_allocated_stack
  choose_stack (some s) size t p = (some s, set_allocated_stack t none p)
  choose_stack none size t p =
      let (s, h) = allocate size p.heap in (s, set_allocated_stack t s (record p { heap = h }))

  -- `~Thread`. A thread that deletes itself does not come back from ar_thread_delete.
  unfoldable pub destroy : ℕ → Program → Option Program
  unfolding set_kernel
  destroy t p = do
    r ← Thread.delete (some t) p.kernel
    let q = set_kernel r.1 p
    some (
        if is_success r.0 && is_thread p.kernel.current_thread t
        then q
        else elim (p.members t).allocated_stack [
          | none ↦ q
          | some s ↦ record q { heap = free s p.heap }
        ])

  module _ (wrapper entry_address : ℕ) where
    -- `Thread::init` once it has a stack.
    unfoldable pub init_on :
        (name : ℕ)
        → Option ℕ
        → (param stack size priority : ℕ) → Bool
        → ℕ
        → Program
        → Option (Status × Program)
    unfolding set_kernel
    init_on name entry param stack size priority start t p = do
      let p = set_user_entry t entry p
      r ←
          Create.create wrapper name (some entry_address) param stack size priority start (some t)
            p.kernel
      some (r.0, set_kernel r.1 p)

    -- `Thread::init` behind the choice of its stack.
    unfoldable pub init_chosen :
        (name : ℕ)
        → Option ℕ
        → ℕ
        → Option ℕ
        → (size priority : ℕ) → Bool
        → ℕ
        → Program
        → Option (Status × Program)
    init_chosen name entry param none size priority start t p = some (out_of_memory_error, p)
    init_chosen name entry param (some stack) size priority start t p =
        init_on name entry param stack size priority start t p

    -- `Thread::init`. The argument `start` may be left out.
    unfoldable pub init :
        (name : ℕ)
        → Option ℕ
        → ℕ
        → Option ℕ
        → (size priority : ℕ) → Option Bool
        → ℕ
        → Program
        → Option (Status × Program)
    init name entry param stack size priority start t p =
        let (chosen, p) = choose_stack stack size t p in
        init_chosen name entry param chosen size priority (default true start) t p

    -- `Thread::initForMemberFunction`. The entry point is `member_thread_entry`, and the words of
    -- the pointer are `member`.
    unfoldable pub init_for_member_function :
        (name object : ℕ)
        → ℕ
        → List ℕ
        → Option ℕ
        → (size priority : ℕ) → Bool
        → ℕ
        → Program
        → Option (Status × Program)
    init_for_member_function name object entry member stack size priority start t p = do
      (status, p) ← init name (some entry) object stack size priority (some false) t p
      elim (is_success status) [
        | false ↦ some (status, p)
        | true ↦ (finish_member member start t p.kernel >>= λ k. some (status, set_kernel k p))
      ]

-- `call f param` is the effect of the function at address `f`.
module _ (call : (f param : ℕ) → Kernel → Option Kernel) where
  -- `Thread::threadEntry`.
  unfoldable pub enter : ThreadMembers → ℕ → Kernel → Option Kernel
  enter x param k = elim x.user_entry [ none ↦ some k | some f ↦ call f param k ]

  -- `Thread::thread_entry`.
  unfoldable pub thread_entry : (ℕ → ThreadMembers) → ℕ → Kernel → Option Kernel
  thread_entry members param k = get_current k >>= λ t. enter (members t) param k

-- `Thread::member_thread_entry`. `invoke object member` is the effect of the member function with
-- the pointer `member`, which has `size` words.
unfoldable pub member_thread_entry :
    ((object : ℕ) → List ℕ → Kernel → Option Kernel) → (size param : ℕ) → Kernel → Option Kernel
member_thread_entry invoke size param k = do
  t ← get_current k
  let storage = (k.threads.thread t).stack_bottom + 4
  invoke param (read_words size storage k.objects.memory) k
