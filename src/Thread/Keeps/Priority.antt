-- ===== src/Thread/Keeps/Priority.antt =====
-- What changing the priority of a thread leaves alone.
use argon_rtos.Prelude.{ℕ, ◌≡◌, refl, ◌∙◌, Bool, true, ◌>>=◌, May, May-bind, May-any, arith}
use argon_rtos.Types.{Status, success, ThreadState, ready, running}
use argon_rtos.Kernel.{Kernel, Threads}
use argon_rtos.Kernel.Lists.{set_priority, ready_add, ready_remove}
use argon_rtos.Kernel.Lock.{lock, unlock, enter_scheduler, service_call}
use argon_rtos.Kernel.Tick.{update_round_robin}
use argon_rtos.Thread.{set_threads, request_reschedule, leave}
use argon_rtos.Thread.Run.{resort, change_priority}
use argon_rtos.Thread.Keeps.{Same}
use argon_rtos.ArList.Seq

-- The rest of the kernel, with the sleeping list.
abbrev pub SameRest : (locks : ℕ) → Kernel → Kernel → Type 0
SameRest locks q k = Same locks q k × (k.threads.sleeping_list ≡ q.threads.sleeping_list)

module _ (q : Kernel) where
  round_robin-SameRest :
      (k : Kernel) → SameRest 1 q k → May (λ (k : Kernel). SameRest 1 q k) (update_round_robin k)
  unfolding update_round_robin
  round_robin-SameRest k e =
      May-bind (Seq.head? k.threads.ready_list) _ (λ h. Unit) _ (May-any _) (λ h u. e)

  leave-SameRest :
      (s : Status) (b : Bool) (k : Kernel)
      → SameRest 1 q k
      → May (λ r. SameRest 0 q r.1) (leave s (request_reschedule b k))
  unfolding unlock enter_scheduler service_call
  leave-SameRest s b k e = ground arith

  removed-SameRest :
      (t : ℕ) (l : Threads) → May (λ m. m.sleeping_list ≡ l.sleeping_list) (ready_remove t l)
  unfolding ready_remove
  removed-SameRest t l = ground arith

  added-SameRest :
      (t : ℕ) (l : Threads) → May (λ m. m.sleeping_list ≡ l.sleeping_list) (ready_add t l)
  unfolding ready_add
  added-SameRest t l = ground arith

  sorted_again :
      (t : ℕ) (k : Kernel)
      → SameRest 1 q k
      → May
          (λ (k : Kernel). SameRest 1 q k)
          (ready_remove t k.threads >>= λ l.
            ready_add t l >>= λ l. update_round_robin (set_threads l k))
  sorted_again t k e =
      May-bind (ready_remove t k.threads) _ (λ m. m.sleeping_list ≡ k.threads.sleeping_list) _
        (removed-SameRest t k.threads)
        (λ l a.
          May-bind (ready_add t l) _ (λ m. m.sleeping_list ≡ l.sleeping_list) _ (added-SameRest t l)
            (λ l b. round_robin-SameRest (set_threads l k) (e.0, b ∙ (a ∙ e.1))))

  resort-SameRest :
      (s : ThreadState) (t : ℕ) (k : Kernel)
      → SameRest 1 q k
      → May (λ (k : Kernel). SameRest 1 q k) (resort s t k)
  unfolding resort
  resort-SameRest ready t k e = sorted_again t k e
  resort-SameRest running t k e = sorted_again t k e
  resort-SameRest _ t k e = e

-- Changing the priority of a thread leaves the objects, the sleeping list, the lock and the rest of
-- the kernel alone.
pub change_priority-SameRest :
    (t p : ℕ) (k : Kernel) → May (λ r. SameRest 0 k r.1) (change_priority t p k)
unfolding change_priority lock set_priority
change_priority-SameRest t p k =
    let j = set_threads (set_priority t p k.threads) (lock k) in
    May-bind (resort (j.threads.thread t).state t j) _ (λ (m : Kernel). SameRest 1 k m) _
      (resort-SameRest k (j.threads.thread t).state t j
        ((refl, refl, refl, refl, refl, refl), refl))
      (λ m e. leave-SameRest k success true m e)
