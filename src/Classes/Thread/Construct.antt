-- ===== src/Classes/Thread/Construct.antt =====
-- The constructors of `Thread`, its `init` for a member function, and `ThreadWithStack`. A constructor
-- discards the status that `init` returns.
use argon_rtos.Prelude.{ℕ, Bool, true, Option, none, some, ◌>>=◌, List}
use argon_rtos.Types.{Status}
use argon_rtos.Classes.{default, Allocator}
use argon_rtos.Classes.Thread.{Program, init, init_for_member_function}

module _ (a : Allocator) (wrapper entry_address : ℕ) where
  -- `Thread::init<T>`. `entry` is the address of `member_thread_entry<T>`, and `member` has the words
  -- of the pointer to the member function.
  unfoldable pub init_member :
      (name object entry : ℕ)
      → List ℕ
      → Option ℕ
      → (size priority : ℕ) → Option Bool
      → ℕ
      → Program a
      → Option (Status × Program a)
  init_member name object entry member stack size priority start t p =
      init_for_member_function a wrapper entry_address name object entry member stack size priority
        (default true start) t p

  -- The constructor with an entry point and a stack, and the one without a stack.
  unfoldable pub construct :
      (name : ℕ)
      → Option ℕ
      → ℕ
      → Option ℕ
      → (size priority : ℕ) → Option Bool
      → ℕ
      → Program a
      → Option (Program a)
  construct name entry param stack size priority start t p =
      init a wrapper entry_address name entry param stack size priority start t p >>= λ r. some r.1

  unfoldable pub construct_owning :
      (name : ℕ)
      → Option ℕ
      → (param size priority : ℕ) → Option Bool
      → ℕ
      → Program a
      → Option (Program a)
  construct_owning name entry param size priority start t p =
      init a wrapper entry_address name entry param none size priority start t p >>= λ r. some r.1

  -- The constructor with a member function and a stack, and the one without a stack.
  unfoldable pub construct_member :
      (name object entry : ℕ)
      → List ℕ
      → Option ℕ
      → (size priority : ℕ) → Option Bool
      → ℕ
      → Program a
      → Option (Program a)
  unfolding init_member
  construct_member name object entry member stack size priority start t p =
      init_member name object entry member stack size priority start t p >>= λ r. some r.1

  unfoldable pub construct_member_owning :
      (name object entry : ℕ)
      → List ℕ
      → (size priority : ℕ) → Option Bool
      → ℕ
      → Program a
      → Option (Program a)
  unfolding init_member
  construct_member_owning name object entry member size priority start t p =
      init_member name object entry member none size priority start t p >>= λ r. some r.1

  -- `ThreadWithStack<S>`: its stack is a member of the object, of `size` bytes at `stack`.
  module _ (stack size : ℕ) where
    unfoldable pub with_stack_init :
        (name : ℕ)
        → Option ℕ
        → (param priority : ℕ) → Option Bool
        → ℕ
        → Program a
        → Option (Status × Program a)
    with_stack_init name entry param priority start t p =
        init a wrapper entry_address name entry param (some stack) size priority start t p

    unfoldable pub with_stack_init_member :
        (name object entry : ℕ)
        → List ℕ
        → (priority : ℕ) → Option Bool
        → ℕ
        → Program a
        → Option (Status × Program a)
    unfolding init_member
    with_stack_init_member name object entry member priority start t p =
        init_member name object entry member (some stack) size priority start t p

    unfoldable pub with_stack_construct :
        (name : ℕ)
        → Option ℕ
        → (param priority : ℕ) → Option Bool
        → ℕ
        → Program a
        → Option (Program a)
    unfolding with_stack_init
    with_stack_construct name entry param priority start t p =
        with_stack_init name entry param priority start t p >>= λ r. some r.1

    unfoldable pub with_stack_construct_member :
        (name object entry : ℕ)
        → List ℕ
        → (priority : ℕ) → Option Bool
        → ℕ
        → Program a
        → Option (Program a)
    unfolding with_stack_init_member
    with_stack_construct_member name object entry member priority start t p =
        with_stack_init_member name object entry member priority start t p >>= λ r. some r.1
