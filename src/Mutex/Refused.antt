-- ===== src/Mutex/Refused.antt =====
-- `ar_mutex_put` by a thread that does not hold the mutex.
use argon_rtos.Prelude.{
  ℕ, ◌≡◌, true, false, some, ◌==◌, if◌then◌else◌, arith, Bool-cases, inl, inr, ◌⊎◌,
}
use argon_rtos.Types.{Status, already_unlocked_error, not_owner_error}
use argon_rtos.Kernel.{Kernel}
use argon_rtos.Kernel.Lock.{lock}
use argon_rtos.Block.{finish, Finishes}
use argon_rtos.Block.Finish.{finish-Finishes}
use argon_rtos.Mutex.{same_thread, put_internal, put}

-- The status that such a thread gets.
abbrev pub refusal : (lock_count : ℕ) → Status
refusal n = if n == 0 then already_unlocked_error else not_owner_error

module _ (m : ℕ) (k : Kernel) (thread : k.port.irq_state ≡ false) where
  put-run :
      ((k.objects.mutex m).owner_lock_count ≡ 0)
        ⊎ (same_thread k.current_thread (k.objects.mutex m).owner ≡ false)
      → put (some m) k ≡ finish (refusal (k.objects.mutex m).owner_lock_count) (lock k)
  unfolding put put_internal lock
  put-run (inl z) =
      let free : ((k.objects.mutex m).owner_lock_count == 0) ≡ true = ground arith in
      simp (thread, free)
  put-run (inr other) = elim (Bool-cases ((k.objects.mutex m).owner_lock_count == 0)) [
    | inl free ↦ simp (thread, free)
    | inr held ↦ simp (thread, held, other)
  ]

  -- A thread that puts a mutex that is free gets the error for an unlocked mutex, and one that puts
  -- a mutex of another owner the error for that. No object and no thread changes.
  pub put-refused :
      ((k.objects.mutex m).owner_lock_count ≡ 0)
        ⊎ (same_thread k.current_thread (k.objects.mutex m).owner ≡ false)
      → Finishes
          (λ r k'.
            (r ≡ refusal (k.objects.mutex m).owner_lock_count)
            × (k'.objects ≡ k.objects)
            × (k'.threads ≡ k.threads))
          (put (some m) k)
  unfolding lock
  put-refused refused =
      rw (put-run refused)
        (finish-Finishes (refusal (k.objects.mutex m).owner_lock_count) (lock k) (ground arith))
