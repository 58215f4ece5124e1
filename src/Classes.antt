-- ===== src/Classes.antt =====
-- The C++ classes of include/argon/ar_classes.h, which derive from the kernel's structures: what they
-- add to the structures, and their methods. A method without a module of its own class only passes
-- its arguments on. A default argument is an argument that may be left out.
pub mod Thread
pub mod Semaphore
pub mod Mutex
pub mod Channel
pub mod Queue
pub mod Timer
pub mod RunLoop
use argon_rtos.Prelude.{ℕ, ◌≡◌, ◌≢◌, Bool, true, false, Option, none, some}
use argon_rtos.Types.{infinite_timeout}

-- An argument, or its default value.
abbrev pub default {ℓ} : {A : Type ℓ} → A → Option A → A
default d none = d
default d (some a) = a

-- The timeout of a call, infinite if it is left out.
abbrev pub timeout_of : Option ℕ → ℕ
timeout_of timeout = default infinite_timeout timeout

-- The members that `Thread` adds.
pub record ThreadMembers : Type 0 where
  pub allocated_stack : Option ℕ
  pub user_entry : Option ℕ

-- The heap behind `new` and `delete`: blocks that are in use, by their address. A block that is
-- allocated was not in use; freeing one leaves the others alone.
pub record Allocator : Type 1 where
  pub Heap : Type 0
  pub allocate : (size : ℕ) → Heap → Option ℕ × Heap
  pub free : ℕ → Heap → Heap
  pub in_use : ℕ → Heap → Bool
  pub allocate_fresh :
      (size p : ℕ) (h h' : Heap) → allocate size h ≡ (some p, h') → in_use p h ≡ false
  pub allocate_others :
      (size p q : ℕ) (h h' : Heap)
      → allocate size h ≡ (some p, h')
      → q ≢ p
      → in_use q h' ≡ in_use q h
  pub free_freed : (p : ℕ) (h : Heap) → in_use p (free p h) ≡ false
  pub free_others : (p q : ℕ) (h : Heap) → q ≢ p → in_use q (free p h) ≡ in_use q h
