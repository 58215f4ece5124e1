-- ===== src/Thread/Keeps/Fields.antt =====
-- Resuming a thread changes the state of threads only, and no other field of them.
use argon_rtos.Prelude.{
  ℕ, ◌≡◌, refl, Bool, true, false, not, some, ◌>>◌, assert, has, Option, May, May-bind, May-any,
  arith,
}
use argon_rtos.Types.{
  Status, success, invalid_state_error, Thread, ThreadState, unknown, suspended, ready, running,
  blocked, sleeping, done,
}
use argon_rtos.Kernel.{Kernel, Threads}
use argon_rtos.Kernel.Lists.{
  set_state, on_list, sort_by_priority, ready_add, suspended_remove, sleeping_remove,
}
use argon_rtos.Kernel.Lock.{lock, unlock, enter_scheduler, service_call}
use argon_rtos.Kernel.Tick.{update_round_robin}
use argon_rtos.Thread.{
  set_threads, request_reschedule, leave, resume_from, make_ready, resume_moved, resume_internal,
}
use argon_rtos.Thread.Consistent.Moves.{drop_suspended, drop_sleeping}
use argon_rtos.ArList.Seq

-- A thread but for its state.
abbrev pub fields : Thread → Thread
fields x = record x { state = unknown }

abbrev pub SameFields : Threads → Threads → Type 0
SameFields l l' = (u : ℕ) → fields (l'.thread u) ≡ fields (l.thread u)

-- A check in front of a result.
checked :
    (b : Bool) (l m : Threads) → SameFields l m → May (λ m. SameFields l m) (assert b >> some m)
checked true l m e = e
checked false l m e = tt

module _ (l : Threads) where
  set_state-SameFields :
      (t : ℕ) (s : ThreadState) (m : Threads) → SameFields l m → SameFields l (set_state t s m)
  unfolding set_state
  set_state-SameFields t s m e u = ground (arith, e u, e t)

  ready_add-SameFields :
      (t : ℕ) (m : Threads) → SameFields l m → May (λ m. SameFields l m) (ready_add t m)
  unfolding ready_add
  ready_add-SameFields t m e =
      checked (not (on_list t m)) l
        (record m { ready_list = Seq.add (some (sort_by_priority m.thread)) t m.ready_list }) e

  resume_from-SameFields : (s : ThreadState) (t : ℕ) → May (λ m. SameFields l m) (resume_from s t l)
  unfolding resume_from suspended_remove sleeping_remove
  resume_from-SameFields suspended t =
      checked (has t l.suspended_list) l (drop_suspended t l) (λ u. refl)
  resume_from-SameFields sleeping t =
      checked (has t l.sleeping_list) l (drop_sleeping t l) (λ u. refl)
  resume_from-SameFields unknown t = tt
  resume_from-SameFields ready t = tt
  resume_from-SameFields running t = tt
  resume_from-SameFields blocked t = tt
  resume_from-SameFields done t = tt

  leave-SameFields :
      (s : Status) (b : Bool) (k : Kernel)
      → SameFields l k.threads
      → May (λ r. SameFields l r.1.threads) (leave s (request_reschedule b k))
  unfolding unlock enter_scheduler service_call
  leave-SameFields s b k e = ground arith

  round_robin-SameFields :
      (k : Kernel)
      → SameFields l k.threads
      → May (λ k. SameFields l k.threads) (update_round_robin k)
  unfolding update_round_robin
  round_robin-SameFields k e =
      May-bind (Seq.head? k.threads.ready_list) _ (λ h. Unit) _ (May-any _) (λ h u. e)

resume_moved-SameFields :
    (t : ℕ) (k : Kernel) → May (λ r. SameFields k.threads r.1.threads) (resume_moved t k)
unfolding resume_moved make_ready
resume_moved-SameFields t k =
    let l = k.threads in
    May-bind (resume_from (l.thread t).state t l) _ (λ m. SameFields l m) _
      (resume_from-SameFields l _ t)
      (λ m e.
        May-bind (make_ready t m) _ (λ m. SameFields l m) _
          (ready_add-SameFields l t (set_state t ready m) (set_state-SameFields l t ready m e))
          (λ m e.
            May-bind (update_round_robin (set_threads m k)) _ (λ k. SameFields l k.threads) _
              (round_robin-SameFields l (set_threads m k) e)
              (λ k e. leave-SameFields l success _ k e)))

-- Resuming a thread changes no field of any thread but the state.
pub resume_internal-SameFields :
    (t : ℕ) (k : Kernel) → May (λ r. SameFields k.threads r.1.threads) (resume_internal t k)
unfolding resume_internal lock
resume_internal-SameFields t k =
    elim (k.threads.thread t).state
      as (λ s.
        May (λ r. SameFields k.threads r.1.threads)
          (elim s as (λ s. Option (Status × Kernel)) [
            | ready ↦ leave success (lock k)
            | running ↦ leave success (lock k)
            | suspended ↦ resume_moved t (lock k)
            | sleeping ↦ resume_moved t (lock k)
            | _ ↦ leave invalid_state_error (lock k)
          ])) [
            | ready ↦ leave-SameFields k.threads success false (lock k) (λ u. refl)
            | running ↦ leave-SameFields k.threads success false (lock k) (λ u. refl)
            | suspended ↦ resume_moved-SameFields t (lock k)
            | sleeping ↦ resume_moved-SameFields t (lock k)
            | _ ↦ leave-SameFields k.threads invalid_state_error false (lock k) (λ u. refl)
          ]
