-- ===== src/Interrupt/Quiet.antt =====
-- The deferred calls that leave the queue of deferred actions as it is: those that resume or suspend a
-- thread.
use argon_rtos.Prelude.{ℕ, ◌≡◌, Option, May, May-bind}
use argon_rtos.Types.{Status}
use argon_rtos.Kernel.{Kernel, deferred_resume, deferred_suspend}
use argon_rtos.Thread.{resume_internal, suspend_internal}
use argon_rtos.Thread.Keeps.{Same, Same-refl, Keeps, resume_internal-Keeps, suspend_internal-Keeps}
use argon_rtos.Interrupt.{run_action, after}
use argon_rtos.Interrupt.Deferral.{QuietFrom}

after_same :
    (o : Option (Status × Kernel)) (k : Kernel)
    → Keeps k o
    → May (λ (k' : Kernel). k'.deferred_actions ≡ k.deferred_actions) (after o)
after_same o k m = May-bind o _ (λ r. Same 0 k r.1) _ m (λ r h. h.0)

module _ (t arg : ℕ) (k : Kernel) where
  pub resume-QuietFrom : QuietFrom k (record { action = deferred_resume; object = t; arg = arg })
  unfolding QuietFrom run_action
  resume-QuietFrom = after_same (resume_internal t k) k (resume_internal-Keeps k t k (Same-refl k))

  pub suspend-QuietFrom : QuietFrom k (record { action = deferred_suspend; object = t; arg = arg })
  unfolding QuietFrom run_action
  suspend-QuietFrom =
      after_same (suspend_internal t k) k (suspend_internal-Keeps k t k (Same-refl k))
