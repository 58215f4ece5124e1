-- ===== src/Thread/Keeps.antt =====
-- What resuming and suspending a thread leave alone, whatever the state of the lists is.
pub mod Fields
pub mod Priority
use argon_rtos.Prelude.{ℕ, ◌+◌, ◌≡◌, refl, Bool, false, Option, May, May-bind, May-any, arith}
use argon_rtos.Types.{Status, success, invalid_state_error, suspended, ready, running, sleeping}
use argon_rtos.Kernel.{Kernel}
use argon_rtos.Kernel.Lock.{lock, unlock, enter_scheduler, service_call}
use argon_rtos.Kernel.Tick.{update_round_robin}
use argon_rtos.Thread.{
  set_threads, request_reschedule, leave, resume_from, make_ready, resume_moved, resume_internal,
  make_suspended, suspend_moved, suspend_ready, suspend_sleeping, suspend_internal,
}
use argon_rtos.ArList.Seq
use argon_rtos.Kernel.Lists.{ready_remove, sleeping_remove}

-- What resuming and suspending a thread leave alone, `locks` locks further in.
abbrev pub Same : (locks : ℕ) → Kernel → Kernel → Type 0
Same locks k k' =
    (k'.deferred_actions ≡ k.deferred_actions)
    × (k'.objects ≡ k.objects)
    × (k'.port.irq_state ≡ k.port.irq_state)
    × (k'.tick_count ≡ k.tick_count)
    × (k'.lock_count ≡ k.lock_count + locks)
    × (k'.current_thread ≡ k.current_thread)

-- Whatever kernel the call returns, it is the same in this.
abbrev pub Keeps : Kernel → Option (Status × Kernel) → Type 0
Keeps q o = May (λ r. Same 0 q r.1) o

pub Same-refl : (k : Kernel) → Same 0 k k
Same-refl k = (refl, refl, refl, refl, omega arith, refl)

module _ (q : Kernel) where
  leave-Keeps :
      (s : Status) (b : Bool) (k : Kernel) → Same 1 q k → Keeps q (leave s (request_reschedule b k))
  unfolding unlock enter_scheduler service_call
  leave-Keeps s b k e = ground arith

  round_robin_kept :
      (k : Kernel) → Same 1 q k → May (λ (k : Kernel). Same 1 q k) (update_round_robin k)
  unfolding update_round_robin
  round_robin_kept k e =
      May-bind (Seq.head? k.threads.ready_list) _ (λ h. Unit) _ (May-any _) (λ h u. e)

  resume_moved-Keeps : (t : ℕ) (k : Kernel) → Same 1 q k → Keeps q (resume_moved t k)
  unfolding resume_moved
  resume_moved-Keeps t k e =
      May-bind (resume_from (k.threads.thread t).state t k.threads) _ (λ l. Unit) _ (May-any _)
        (λ l u.
          May-bind (make_ready t l) _ (λ l. Unit) _ (May-any _)
            (λ m u.
              May-bind (update_round_robin (set_threads m k)) _ (λ (k : Kernel). Same 1 q k) _
                (round_robin_kept _ e) (λ k e. leave-Keeps success _ k e)))

  suspend_moved-Keeps : (t : ℕ) (k : Kernel) → Same 1 q k → Keeps q (suspend_moved t k)
  unfolding suspend_moved
  suspend_moved-Keeps t k e =
      May-bind (make_suspended t k.threads) _ (λ l. Unit) _ (May-any _)
        (λ l u. leave-Keeps success _ (set_threads l k) e)

  suspend_ready-Keeps : (t : ℕ) (k : Kernel) → Same 1 q k → Keeps q (suspend_ready t k)
  unfolding suspend_ready
  suspend_ready-Keeps t k e =
      May-bind (ready_remove t k.threads) _ (λ l. Unit) _ (May-any _)
        (λ l u.
          May-bind (update_round_robin (set_threads l k)) _ (λ (k : Kernel). Same 1 q k) _
            (round_robin_kept _ e) (λ k e. suspend_moved-Keeps t k e))

  suspend_sleeping-Keeps : (t : ℕ) (k : Kernel) → Same 1 q k → Keeps q (suspend_sleeping t k)
  unfolding suspend_sleeping
  suspend_sleeping-Keeps t k e =
      May-bind (sleeping_remove t k.threads) _ (λ l. Unit) _ (May-any _)
        (λ l u. suspend_moved-Keeps t (set_threads l k) e)

  locked : (k : Kernel) → Same 0 q k → Same 1 q (lock k)
  unfolding lock
  locked k (d, o, i, n, c, r) = (d, o, i, n, omega (arith, c), r)

  pub resume_internal-Keeps : (t : ℕ) (k : Kernel) → Same 0 q k → Keeps q (resume_internal t k)
  unfolding resume_internal lock
  resume_internal-Keeps t k e =
      elim (k.threads.thread t).state
        as (λ s. Keeps q (elim s as (λ s. Option (Status × Kernel)) [
          | ready ↦ leave success (lock k)
          | running ↦ leave success (lock k)
          | suspended ↦ resume_moved t (lock k)
          | sleeping ↦ resume_moved t (lock k)
          | _ ↦ leave invalid_state_error (lock k)
        ])) [
          | ready ↦ leave-Keeps success false (lock k) (locked k e)
          | running ↦ leave-Keeps success false (lock k) (locked k e)
          | suspended ↦ resume_moved-Keeps t (lock k) (locked k e)
          | sleeping ↦ resume_moved-Keeps t (lock k) (locked k e)
          | _ ↦ leave-Keeps invalid_state_error false (lock k) (locked k e)
        ]

  pub suspend_internal-Keeps : (t : ℕ) (k : Kernel) → Same 0 q k → Keeps q (suspend_internal t k)
  unfolding suspend_internal lock
  suspend_internal-Keeps t k e =
      elim (k.threads.thread t).state
        as (λ s. Keeps q (elim s as (λ s. Option (Status × Kernel)) [
          | ready ↦ suspend_ready t (lock k)
          | running ↦ suspend_ready t (lock k)
          | sleeping ↦ suspend_sleeping t (lock k)
          | suspended ↦ leave success (lock k)
          | _ ↦ leave invalid_state_error (lock k)
        ])) [
          | ready ↦ suspend_ready-Keeps t (lock k) (locked k e)
          | running ↦ suspend_ready-Keeps t (lock k) (locked k e)
          | sleeping ↦ suspend_sleeping-Keeps t (lock k) (locked k e)
          | suspended ↦ leave-Keeps success false (lock k) (locked k e)
          | _ ↦ leave-Keeps invalid_state_error false (lock k) (locked k e)
        ]
