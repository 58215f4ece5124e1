-- ===== src/Thread/Consistent/Steps.antt =====
-- The steps of the operations between their moves: locks, and the round robin flag.
use argon_rtos.Prelude.{
  ℕ, ◌-◌, ◌≡◌, refl, Bool, true, false, not, ◌&&◌, some, ◌>>=◌, List, [], ◌∷◌, ◌==◌, arith,
  if◌then◌else◌, has, Returns,
}
use argon_rtos.Types.{Status}
use argon_rtos.Kernel.{Kernel}
use argon_rtos.Kernel.Lock.{unlock, enter_scheduler, service_call}
use argon_rtos.Kernel.Tick.{update_round_robin, same_priority}
use argon_rtos.Thread.{leave, request_reschedule}
use argon_rtos.ArList.Seq
use argon_rtos.ArList.Seq.{insert_sorted}

pub head-insert_sorted :
    (p : ℕ → ℕ → Bool) (t : ℕ) (xs : List ℕ) → (h : ℕ) × (Seq.head? (insert_sorted p t xs) ≡ some h)
unfolding insert_sorted
head-insert_sorted p t [] = (t, refl)
head-insert_sorted p t (x ∷ xs) = (if p t x then t else x, ground arith)

pub head-add :
    (p : ℕ → ℕ → Bool) (t : ℕ) (xs : List ℕ)
    → (h : ℕ) × (Seq.head? (Seq.add (some p) t xs) ≡ some h)
unfolding Seq.add
head-add p t [] = (t, refl)
head-add p t (x ∷ xs) =
    let (h, e) = head-insert_sorted p t (x ∷ xs) in
    (if p t (Seq.last_of x xs) then h else x, ground arith)

-- A list with an element has a head.
pub head-has : (t : ℕ) (xs : List ℕ) → has t xs ≡ true → (h : ℕ) × (Seq.head? xs ≡ some h)
head-has t [] m = cc
head-has t (x ∷ xs) m = (x, refl)

-- The kernel after `ar_kernel_update_round_robin`.
unfoldable pub round_robin_updated : Kernel → Kernel
round_robin_updated k = record k {
  needs_round_robin = same_priority k.threads k.threads.ready_list;
}

pub update_round_robin-ok :
    (k : Kernel) (h : ℕ)
    → Seq.head? k.threads.ready_list ≡ some h
    → update_round_robin k ≡ some (round_robin_updated k)
unfolding update_round_robin round_robin_updated
update_round_robin-ok k h e = rw (e, ◌>>=◌)

-- The kernel after the lock is released.
unfoldable pub unlocked : Kernel → Kernel
unlocked k =
    let k = record k { lock_count = k.lock_count - 1 } in
    if (k.lock_count == 0) && (k.needs_reschedule && not k.is_running_deferred)
    then enter_scheduler k
    else k

pub unlock-ok : (k : Kernel) → (k.lock_count == 0) ≡ false → unlock k ≡ some (unlocked k)
unfolding unlock unlocked
unlock-ok k n = rw n

pub leave-ok :
    (s : Status) (k : Kernel) → (k.lock_count == 0) ≡ false → leave s k ≡ some (s, unlocked k)
unfolding unlock unlocked
leave-ok s k n = rw n

pub unlocked-threads : (k : Kernel) → (unlocked k).threads ≡ k.threads
unfolding unlocked enter_scheduler service_call
unlocked-threads k = ground arith

pub unlocked-lock_count : (k : Kernel) → (unlocked k).lock_count ≡ k.lock_count - 1
unfolding unlocked enter_scheduler service_call
unlocked-lock_count k = ground arith

-- The end of an operation under the lock: a request to reschedule, and the release of the lock.
pub leave-Returns :
    (s : Status) (b : Bool) (k : Kernel)
    → (k.lock_count == 0) ≡ false
    → Returns (λ r. (r.0 ≡ s) × (r.1.threads ≡ k.threads)) (leave s (request_reschedule b k))
leave-Returns s true k n =
    rw (leave-ok s (record k { needs_reschedule = true }) n)
      (refl, unlocked-threads (record k { needs_reschedule = true }))
leave-Returns s false k n = rw (leave-ok s k n) (refl, unlocked-threads k)

-- The same behind an update of the round robin flag, where a thread is ready.
pub update-leave-Returns :
    (s : Status) (b : Kernel → Bool) (k : Kernel) (h : ℕ)
    → Seq.head? k.threads.ready_list ≡ some h
    → (k.lock_count == 0) ≡ false
    → Returns
        (λ r. (r.0 ≡ s) × (r.1.threads ≡ k.threads))
        (update_round_robin k >>= λ k. leave s (request_reschedule (b k) k))
unfolding round_robin_updated
update-leave-Returns s b k h e n =
    rw (update_round_robin-ok k h e)
      (leave-Returns s (b (round_robin_updated k)) (round_robin_updated k) n)
