-- ===== src/Kernel/Tick/Increment.antt =====
-- What ar_kernel_increment_tick_count does to the sleeping list, and when.
use argon_rtos.Prelude.{
  ℕ, suc, ◌+◌, ◌≤◌, ◌≡◌, refl, ◌∙◌, true, false, some, ◌>>=◌, List, [], ◌∷◌, arith, ap, has,
  Distinct, Returns, Returns-bind, subst, ap₂, ◌<◌, ◌⊎◌, inl, inr, leb, ltb, u32, length,
}
use argon_rtos.Kernel.{Kernel}
use argon_rtos.Kernel.Tick.{wake, goes_on, wake_from, wake_sleeping, increment_tick_count}
use argon_rtos.Thread.Consistent.{IsConsistent}
use argon_rtos.ArList.Seq
use argon_rtos.ArList.Seq.Order.{remove_not_mem}
use argon_rtos.Kernel.Tick.Wake.{Woken, wake-Woken}

-- The node behind the head of a list is the new head once the head is removed, so the loop ends.
goes_on-head :
    (x : ℕ) (xs : List ℕ)
    → Distinct (x ∷ xs)
    → goes_on (Seq.next x (x ∷ xs)) (Seq.remove x (x ∷ xs)) ≡ false
unfolding goes_on Seq.next Seq.remove
goes_on-head x [] d = ground arith
goes_on-head x (y ∷ ys) d = ground arith

-- The kernel at a later time.
abbrev pub at_time : ℕ → Kernel → Kernel
at_time now k = record k { tick_count = now }

remove-head : (x : ℕ) (xs : List ℕ) → Distinct (x ∷ xs) → Seq.remove x (x ∷ xs) ≡ xs
unfolding Seq.remove
remove-head x xs d = ground (arith, remove_not_mem x xs d.0)

-- The loop at the head `x` wakes it and ends.
wake_from-head :
    (fuel x : ℕ) (xs : List ℕ) (k : Kernel)
    → IsConsistent k.threads
    → k.threads.sleeping_list ≡ x ∷ xs
    → leb (k.threads.thread x).wakeup_time k.tick_count ≡ true
    → Returns
        (λ r. (r.0 ≡ true) × Woken x k r.1 × (r.1.threads.sleeping_list ≡ xs))
        (wake_from (suc fuel) (some x) false k)
unfolding wake_from
wake_from-head fuel x xs k c e due =
    let d : Distinct (x ∷ xs) = subst Distinct e c.shaped.distinct_sleeping in
    let m : has x k.threads.sleeping_list ≡ true = ground arith in
    rw (due, ◌>>=◌)
      (Returns-bind (wake x k) _ (Woken x k) _ (wake-Woken x k c m) (λ k' w.
        let rest : k'.threads.sleeping_list ≡ Seq.remove x (x ∷ xs) =
          w.asleep ∙ ap (Seq.remove x) e in
        let stop : goes_on (Seq.next x k.threads.sleeping_list) k'.threads.sleeping_list ≡ false =
          ap₂ (λ ys zs. goes_on (Seq.next x ys) zs) e rest ∙ goes_on-head x xs d in
        rw stop (refl, w, rest ∙ remove-head x xs d)))

wake_sleeping-head :
    (x : ℕ) (xs : List ℕ) (k : Kernel)
    → k.threads.sleeping_list ≡ x ∷ xs
    → wake_sleeping k ≡ wake_from (suc (length xs)) (some x) false k
unfolding wake_sleeping
wake_sleeping-head x xs k e = rw (e, wake_sleeping)

increment-scan :
    (ticks : ℕ) (k : Kernel)
    → k.next_wakeup ≤ u32 (k.tick_count + ticks)
    → increment_tick_count ticks k ≡ wake_sleeping (at_time (u32 (k.tick_count + ticks)) k)
unfolding increment_tick_count
increment-scan ticks k le =
    let later : ltb (u32 (k.tick_count + ticks)) k.next_wakeup ≡ false = ground arith in rw later

-- On consistent lists, if the tick count reaches the next wakeup and the time of the head of the
-- sleeping list has come, the call reports a woken thread. It wakes the head alone, whatever the
-- times of the threads behind it are: those stay on the sleeping list.
pub increment_tick_count-wakes_one :
    (ticks x : ℕ) (xs : List ℕ) (k : Kernel)
    → IsConsistent k.threads
    → k.threads.sleeping_list ≡ x ∷ xs
    → k.next_wakeup ≤ u32 (k.tick_count + ticks)
    → (k.threads.thread x).wakeup_time ≤ u32 (k.tick_count + ticks)
    → Returns
        (λ r.
          (r.0 ≡ true)
          × Woken x (at_time (u32 (k.tick_count + ticks)) k) r.1
          × (r.1.threads.sleeping_list ≡ xs))
        (increment_tick_count ticks k)
increment_tick_count-wakes_one ticks x xs k c e le due =
    let k' = at_time (u32 (k.tick_count + ticks)) k in
    rw (increment-scan ticks k le, wake_sleeping-head x xs k' e)
      (wake_from-head (length xs) x xs k' c e (ground arith))

-- If the tick count does not reach the next wakeup, or no thread sleeps, or the time of the head
-- of the sleeping list has not come, the call sets the tick count, modulo 2^32, and does no more.
pub increment_tick_count-wakes_none :
    (ticks : ℕ) (k : Kernel)
    → (u32 (k.tick_count + ticks) < k.next_wakeup)
      ⊎ (k.threads.sleeping_list ≡ [])
      ⊎ ((x : ℕ) × (xs : List ℕ) × (k.threads.sleeping_list ≡ x ∷ xs)
          × (u32 (k.tick_count + ticks) < (k.threads.thread x).wakeup_time))
    → increment_tick_count ticks k ≡ some (false, at_time (u32 (k.tick_count + ticks)) k)
unfolding increment_tick_count wake_sleeping wake_from
increment_tick_count-wakes_none ticks k (inl early) =
    let test : ltb (u32 (k.tick_count + ticks)) k.next_wakeup ≡ true = ground arith in rw test
increment_tick_count-wakes_none ticks k (inr (inl e)) = ground arith
increment_tick_count-wakes_none ticks k (inr (inr (x, xs, e, later))) =
    let k' = at_time (u32 (k.tick_count + ticks)) k in
    let test : leb (k.threads.thread x).wakeup_time (u32 (k.tick_count + ticks)) ≡ false =
      ground arith in
    ground (arith, wake_sleeping-head x xs k' e)
