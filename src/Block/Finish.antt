-- ===== src/Block/Finish.antt =====
-- The end of a call under the kernel lock.
use argon_rtos.Prelude.{
  ℕ, ◌≡◌, refl, ◌==◌, false, Option, none, some, ◌>>=◌, List, [], ◌∷◌, Returns, arith,
}
use argon_rtos.Types.{Status}
use argon_rtos.Kernel.{Kernel}
use argon_rtos.Kernel.Lock.{unlock, enter_scheduler, service_call}
use argon_rtos.Thread.Consistent.Steps.{unlocked, unlocked-threads}
use argon_rtos.Block.{
  Outcome, returned, waits, finish, Finishes, BlockedList, blocked_list, unblock_head,
  unblock_with_status,
}

pub unlocked-objects : (k : Kernel) → (unlocked k).objects ≡ k.objects
unfolding unlocked enter_scheduler service_call
unlocked-objects k = ground arith

-- The lock is held, so that the call returns, and the objects and the threads are left alone.
pub finish-Finishes :
    (s : Status) (k : Kernel)
    → (k.lock_count == 0) ≡ false
    → Finishes (λ r k'. (r ≡ s) × (k'.objects ≡ k.objects) × (k'.threads ≡ k.threads)) (finish s k)
unfolding unlock unlocked
finish-Finishes s k n = rw n (refl, unlocked-objects k, unlocked-threads k)

pub Finishes-mono :
    (o : Option Outcome) (P Q : Status → Kernel → Type 0)
    → Finishes P o
    → ((s : Status) (k : Kernel) → P s k → Q s k)
    → Finishes Q o
Finishes-mono none P Q r weaken = r
Finishes-mono (some (waits k)) P Q r weaken = r
Finishes-mono (some (returned s k)) P Q r weaken = weaken s k r

pub unblock_head-empty :
    (b : BlockedList) (s : Status) (k : Kernel)
    → blocked_list b k ≡ []
    → unblock_head b s k ≡ some k
unfolding unblock_head
unblock_head-empty b s k e = rw (e, unblock_head)

pub unblock_head-cons :
    (b : BlockedList) (s : Status) (k : Kernel) (t : ℕ) (ts : List ℕ)
    → blocked_list b k ≡ t ∷ ts
    → unblock_head b s k ≡ unblock_with_status t b s k
unfolding unblock_head
unblock_head-cons b s k t ts e = rw (e, unblock_head)

-- A step that returns is followed by one that finishes.
pub Returns-Finishes :
    (o : Option Kernel) (f : Kernel → Option Outcome) (P : Kernel → Type 0)
    (Q : Status → Kernel → Type 0)
    → Returns P o
    → ((k : Kernel) → P k → Finishes Q (f k))
    → Finishes Q (o >>= f)
Returns-Finishes none f P Q r next = absurd r
Returns-Finishes (some k) f P Q r next = next k r

pub unlocked-irq_state : (k : Kernel) → (unlocked k).port.irq_state ≡ k.port.irq_state
unfolding unlocked enter_scheduler service_call
unlocked-irq_state k = ground arith

pub unlocked-current_thread : (k : Kernel) → (unlocked k).current_thread ≡ k.current_thread
unfolding unlocked enter_scheduler service_call
unlocked-current_thread k = ground arith

pub finish-run :
    (s : Status) (k : Kernel)
    → (k.lock_count == 0) ≡ false
    → finish s k ≡ some (returned s (unlocked k))
unfolding unlock unlocked
finish-run s k n = rw n
