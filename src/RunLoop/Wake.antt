-- ===== src/RunLoop/Wake.antt =====
-- ar_runloop_wake of src/ar_runloop.cpp, outside of interrupt handlers.
use argon_rtos.Prelude.{
  ◌⊎◌, ℕ, ◌≡◌, refl, true, false, Option, none, some, Bool-cases, inl, inr, Returns, Returns-bind,
  Returns-mono, Returns-May,
}
use argon_rtos.Types.{
  invalid_state_error, Status, ThreadState, unknown, suspended, ready, running, blocked, sleeping,
  done, success,
}
use argon_rtos.Kernel.{Kernel}
use argon_rtos.Thread.{resume, resume_internal}
use argon_rtos.Thread.Consistent.{IsConsistent}
use argon_rtos.Thread.Consistent.Resume.{resume_internal-Moved}
use argon_rtos.Thread.Keeps.{Same, Same-refl, resume_internal-Keeps}
use argon_rtos.RunLoop.{wake_run_loop}

-- The lists stay consistent, and what resuming a thread leaves alone is as before.
abbrev pub Woke : Kernel → Kernel → Type 0
Woke k k' = IsConsistent k'.threads × Same 0 k k'

module _ (k : Kernel) (c : IsConsistent k.threads) (thread : k.port.irq_state ≡ false) where
  Woke-refl : Woke k k
  Woke-refl = (c, Same-refl k)

  resumed-Woke : (t : ℕ) → Returns (λ r. Woke k r.1) (resume_internal t k)
  resumed-Woke t =
      Returns-mono (resume_internal t k) _ _
        (Returns-May (resume_internal t k) _ (λ r. Same 0 k r.1) (resume_internal-Moved t k c)
          (resume_internal-Keeps k t k (Same-refl k)))
        (λ r p. (p.0.1.consistent, p.1))

  resume-run :
      (t : ℕ) (s : ThreadState)
      → (k.threads.thread t).state ≡ s
      → (resume (some t) k ≡ resume_internal t k)
        ⊎ ((x : Status) × (resume (some t) k ≡ some (x, k)))
  unfolding resume
  resume-run t suspended e = inl (simp (resume, e, thread))
  resume-run t sleeping e = inl (simp (resume, e, thread))
  resume-run t ready e = inr (success, rw (resume, e) refl)
  resume-run t running e = inr (success, rw (resume, e) refl)
  resume-run t blocked e = inr (invalid_state_error, rw (resume, e) refl)
  resume-run t unknown e = inr (invalid_state_error, rw (resume, e) refl)
  resume-run t done e = inr (invalid_state_error, rw (resume, e) refl)

  resume-Woke : (t : ℕ) → Returns (λ r. Woke k r.1) (resume (some t) k)
  resume-Woke t = elim (resume-run t (k.threads.thread t).state refl) [
    | inl e ↦ rw e (resumed-Woke t)
    | inr (x, e) ↦ rw e Woke-refl
  ]

  wake-thread :
      (r : ℕ) (o : Option ℕ)
      → (k.objects.run_loop r).is_running ≡ true
      → (k.objects.run_loop r).thread ≡ o
      → Returns (Woke k) (wake_run_loop r k)
  unfolding wake_run_loop
  wake-thread r none b e = rw (wake_run_loop, b, e) Woke-refl
  wake-thread r (some t) b e =
      rw (wake_run_loop, b, e)
        (Returns-bind (resume (some t) k) _ (λ r. Woke k r.1) (Woke k) (resume-Woke t) (λ r w. w))

  pub wake_run_loop-Woke : (r : ℕ) → Returns (Woke k) (wake_run_loop r k)
  unfolding wake_run_loop
  wake_run_loop-Woke r = elim (Bool-cases (k.objects.run_loop r).is_running) [
    | inl b ↦ wake-thread r (k.objects.run_loop r).thread b refl
    | inr b ↦ rw b Woke-refl
  ]
