-- ===== src/Mutex/Nested.antt =====
-- Getting a mutex and putting it again, nested or not.
use argon_rtos.Prelude.{
  ℕ, suc, ◌-◌, ◌≡◌, ◌<◌, ◌^◌, refl, ◌∙◌, sym, ap, ap₂, true, false, some, [], ◌==◌, arith, inl, inr,
}
use argon_rtos.Types.{success, Mutex}
use argon_rtos.Kernel.{Kernel}
use argon_rtos.Kernel.Lock.{lock}
use argon_rtos.Thread.Consistent.Steps.{unlocked, unlocked-threads}
use argon_rtos.Block.{Finishes}
use argon_rtos.Block.Finish.{
  finish-run, Finishes-mono, unlocked-objects, unlocked-irq_state, unlocked-current_thread,
}
use argon_rtos.Mutex.{set_mutex, get, put}
use argon_rtos.Mutex.Held.{IsOpenTo, held_by, put_once, got-same, get-run, put-Finishes}

put_once-held_by : (t : ℕ) (x : Mutex) → IsOpenTo t x → put_once (held_by t x) ≡ x
put_once-held_by t x (inl (z, e)) =
    let last : (suc x.owner_lock_count == 1) ≡ true = ground arith in
    simp last (ap₂ (λ o n. record x { owner = o; owner_lock_count = n }) (sym e) (sym z))
put_once-held_by t x (inr (l, e)) =
    let more : (suc x.owner_lock_count == 1) ≡ false = ground arith in
    let less : suc x.owner_lock_count - 1 ≡ x.owner_lock_count = omega arith in
    simp more (ap₂ (λ o n. record x { owner = o; owner_lock_count = n }) (sym e) less)

module _ (m t timeout : ℕ) (k : Kernel) (thread : k.port.irq_state ≡ false)
    (self : k.current_thread ≡ some t) where
  abbrev held : Kernel
  held = set_mutex m (held_by t (k.objects.mutex m)) (lock k)

  held-same : (unlocked held).objects.mutex m ≡ held_by t (k.objects.mutex m)
  held-same = got-same m t k thread self (unlocked held) _ (unlocked-objects held)

  -- The current thread gets a mutex that nobody holds, or that it holds itself, at once, whatever
  -- its timeout is, and holds it once more. If it then puts it, it succeeds, and the mutex and the
  -- threads are as they were. No thread waits for the mutex, its holder's priority is not raised,
  -- and the lock count is not the highest of 32 bits.
  pub get-put :
      IsOpenTo t (k.objects.mutex m)
      → suc (k.objects.mutex m).owner_lock_count < 2 ^ 32
      → (k.objects.mutex m).original_priority ≡ 0
      → (k.objects.mutex m).blocked_list ≡ []
      → Finishes
          (λ r k'.
            (r ≡ success)
            × (k'.objects.mutex m ≡ held_by t (k.objects.mutex m))
            × Finishes
                (λ r' k''.
                  (r' ≡ success)
                  × (k''.objects.mutex m ≡ k.objects.mutex m)
                  × (k''.threads ≡ k.threads))
                (put (some m) k'))
          (get (some m) timeout k)
  unfolding lock
  get-put open_to word low idle =
      let n = unlocked held in
      rw (get-run m t k thread self timeout open_to word, finish-run success held (ground arith))
        (
          refl,
          held-same,
          Finishes-mono (put (some m) n) _ _
              (put-Finishes m t n (unlocked-irq_state held ∙ thread)
                (unlocked-current_thread held ∙ self) (ap (λ (x : Mutex). x.owner) held-same)
                (rw (ap (λ (x : Mutex). x.owner_lock_count) held-same) (omega arith))
                (ap (λ (x : Mutex). x.original_priority) held-same ∙ low)
                (ap (λ (x : Mutex). x.blocked_list) held-same ∙ idle))
              (λ r' k'' p. (
                p.0,
                p.1 ∙ (ap put_once held-same ∙ put_once-held_by t (k.objects.mutex m) open_to),
                p.2 ∙ unlocked-threads held,
              )),
        )
