-- ===== src/Timer/Start.antt =====
-- Starting and stopping a timer: ar_timer_start_internal and ar_timer_stop_internal of
-- src/ar_timer.cpp, outside of interrupt handlers.
use argon_rtos.Prelude.{
  ℕ, ◌≡◌, ◌≢◌, refl, ◌∙◌, sym, ap, subst, true, false, some, ◌>>=◌, ◌==◌, arith, Returns,
  Returns-bind,
}
use argon_rtos.Types.{success, Timer}
use argon_rtos.Kernel.{Kernel, Objects}
use argon_rtos.Kernel.Lock.{lock}
use argon_rtos.Thread.{leave}
use argon_rtos.Thread.Consistent.{IsConsistent}
use argon_rtos.Thread.Consistent.Steps.{leave-ok, unlocked-threads}
use argon_rtos.Block.Finish.{unlocked-objects}
use argon_rtos.RunLoop.{wake_run_loop}
use argon_rtos.RunLoop.Wake.{Woke, wake_run_loop-Woke}
use argon_rtos.Timer.{set_timer, start_internal, stop_internal, place, detach}
use argon_rtos.Timer.Active.{
  IsTimers, IsWithout, Placed, place-Placed, removed, removed-run, removed-IsWithout, is_listed,
  halted, halted-IsTimers,
}

-- The timer `t` of run loop `r` is `x` behind the call, the timers are well formed, and so are the
-- lists of the threads. No other timer has changed.
pub record Timed (r t : ℕ) (x : Timer) (k k' : Kernel) : Type 0 where
  pub timers : IsTimers r k'.objects
  pub timer : k'.objects.timer t ≡ x
  pub others : (u : ℕ) → u ≢ t → k'.objects.timer u ≡ k.objects.timer u
  pub consistent : IsConsistent k'.threads

module _ (r t : ℕ) (k : Kernel) (i : IsTimers r k.objects)
    (e : (k.objects.timer t).run_loop ≡ some r) (c : IsConsistent k.threads)
    (thread : k.port.irq_state ≡ false) where
  -- The end of a call, from the objects that it leaves.
  leave-Timed :
      (x : Timer) (k' : Kernel)
      → (k'.lock_count == 0) ≡ false
      → Timed r t x k k'
      → Returns (λ a. (a.0 ≡ success) × Timed r t x k a.1) (leave success k')
  leave-Timed x k' n w = rw (leave-ok success k' n) (
    refl,
    record {
      timers = subst (IsTimers r) (sym (unlocked-objects k')) w.timers;
      timer = ap (λ (o : Objects). o.timer t) (unlocked-objects k') ∙ w.timer;
      others = λ u n. ap (λ (o : Objects). o.timer u) (unlocked-objects k') ∙ w.others u n;
      consistent = subst IsConsistent (sym (unlocked-threads k')) w.consistent;
    },
  )

  start-run :
      (w : ℕ)
      → start_internal t w k
        ≡ (place r t w (lock k) >>= λ k. wake_run_loop r k >>= λ k. leave success k)
  unfolding start_internal lock
  start-run w = rw (e, ◌>>=◌) refl

  -- Starting a timer outside of an interrupt handler succeeds and does not halt, if its run loop's
  -- timers and the lists of the threads are well formed: the timer is active with the wakeup time,
  -- whether it was before or not, the timers of the run loop are its active ones in the order of
  -- their wakeup times, no other timer changes, and the lists of the threads stay well formed.
  pub start_internal-Timed :
      (w : ℕ)
      → Returns
          (λ a.
            (a.0 ≡ success)
            × Timed r t (record (k.objects.timer t) { wakeup_time = w; is_active = true }) k a.1)
          (start_internal t w k)
  unfolding lock
  start_internal-Timed w =
      let x = record (k.objects.timer t) { wakeup_time = w; is_active = true } in
      rw (start-run w) (
        Returns-bind (place r t w (lock k)) _ (Placed r t (lock k) i w e) _
          (place-Placed r t (lock k) i w e)
          (λ k₁ p.
            Returns-bind (wake_run_loop r k₁) _ (Woke k₁) _
              (wake_run_loop-Woke k₁ (subst IsConsistent (sym p.threads) c) (p.irq_state ∙ thread)
                r)
              (λ k₂ q. leave-Timed x k₂ (ground (arith, q.1.4, p.lock_count)) (record {
                timers = subst (IsTimers r) (sym q.1.1) p.timers;
                timer = ap (λ (o : Objects). o.timer t) q.1.1 ∙ p.timer;
                others = λ u n. ap (λ (o : Objects). o.timer u) q.1.1 ∙ p.others u n;
                consistent = q.0;
              }))))

  stop-run : stop_internal t k ≡ (
      detach (some r) t (lock k) >>= λ k.
      leave success
        (set_timer t (record (k.objects.timer t) { wakeup_time = 0; is_active = false }) k))
  unfolding stop_internal lock
  stop-run = rw (e, ◌>>=◌) refl

  -- Stopping an active timer outside of an interrupt handler succeeds and does not halt, under the
  -- same conditions: the timer is inactive, the timers of the run loop are its active ones in the
  -- order of their wakeup times, no other timer changes, and the lists of the threads stay well
  -- formed.
  pub stop_internal-Timed :
      (k.objects.timer t).is_active ≡ true
      → Returns
          (λ a.
            (a.0 ≡ success)
            × Timed r t (record (k.objects.timer t) { wakeup_time = 0; is_active = false }) k a.1)
          (stop_internal t k)
  unfolding lock detach
  stop_internal-Timed a =
      let x = record (k.objects.timer t) { wakeup_time = 0; is_active = false } in
      let m = is_listed r t (lock k) i 0 e ∙ a in
      let k₁ = removed r t (lock k) i in
      let o = removed-IsWithout r t (lock k) i in
      rw (stop-run, removed-run r t (lock k) i m, ◌>>=◌)
        (Returns-bind (wake_run_loop r k₁) _ (Woke k₁) _ (wake_run_loop-Woke k₁ c thread r) (λ k₂ q.
          let o₂ = subst (IsWithout t r) (sym q.1.1) o in
          leave-Timed x (halted r t k₂ o₂) (ground (arith, q.1.4)) (record {
            timers = halted-IsTimers r t k₂ o₂;
            timer = ground (arith, ap (λ (o : Objects). o.timer t) q.1.1);
            others = λ u n. ground (arith, ap (λ (o : Objects). o.timer u) q.1.1);
            consistent = q.0;
          })))
