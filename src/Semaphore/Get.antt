-- ===== src/Semaphore/Get.antt =====
-- `ar_semaphore_get` on a semaphore whose count is not 0.
use argon_rtos.Prelude.{ℕ, ◌-◌, ◌≡◌, ◌<◌, ◌∙◌, ap, false, some, ◌==◌, arith, update-same}
use argon_rtos.Types.{success, Semaphore}
use argon_rtos.Kernel.{Kernel, Objects}
use argon_rtos.Kernel.Lock.{lock}
use argon_rtos.Block.{finish, Finishes}
use argon_rtos.Block.Finish.{finish-Finishes, Finishes-mono}
use argon_rtos.Semaphore.{set_count, set_semaphore, get, get_internal, get_loop}

module _ (s timeout : ℕ) (k : Kernel) (thread : k.port.irq_state ≡ false) where
  abbrev less : Semaphore
  less = record (k.objects.semaphore s) { count = (k.objects.semaphore s).count - 1 }

  get-success :
      ((k.objects.semaphore s).count == 0) ≡ false
      → get (some s) timeout k ≡ finish success (set_semaphore s less (lock k))
  unfolding get get_internal get_loop set_count lock
  get-success free = simp (thread, free)

  -- A thread that gets a semaphore whose count is not 0 succeeds, whatever its timeout is. The count
  -- goes down by one, the semaphore is else as before, and no thread changes.
  pub get-counts :
      0 < (k.objects.semaphore s).count
      → Finishes
          (λ r k'. (r ≡ success) × (k'.objects.semaphore s ≡ less) × (k'.threads ≡ k.threads))
          (get (some s) timeout k)
  unfolding lock
  get-counts more =
      let m = set_semaphore s less (lock k) in
      rw (get-success (ground arith)) (
        Finishes-mono (finish success m)
          (λ r k'. (r ≡ success) × (k'.objects ≡ m.objects) × (k'.threads ≡ k.threads)) _
          (finish-Finishes success m (ground arith))
          (λ r k' p. (
            p.0,
            ap (λ (o : Objects). o.semaphore s) p.1 ∙ update-same k.objects.semaphore s less,
            p.2,
          )))
