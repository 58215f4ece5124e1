-- ===== src/Mutex/Restore.antt =====
-- What giving the holder of a mutex its first priority back does.
use argon_rtos.Prelude.{
  ℕ, ◌≡◌, ◌≢◌, refl, ◌∙◌, ap, sym, true, false, some, ◌==◌, if◌then◌else◌, arith, update-same,
  Returns, Returns-bind, Returns-mono, Returns-May, Bool-cases, inl, inr,
}
use argon_rtos.Types.{Thread, Mutex}
use argon_rtos.Kernel.{Kernel, Objects}
use argon_rtos.Thread.Run.{set_thread_priority, change_priority}
use argon_rtos.Thread.Consistent.{IsConsistent}
use argon_rtos.Thread.Consistent.Priority.{Prioritized, change_priority-Prioritized}
use argon_rtos.Thread.Keeps.Priority.{SameRest, change_priority-SameRest}
use argon_rtos.Mutex.{set_mutex, restore}

-- The priority that the holder of a mutex has once it has put it.
abbrev pub restored_priority : Mutex → Thread → ℕ
restored_priority x y = if x.original_priority == 0 then y.priority else x.original_priority

-- What giving the holder `t` its first priority back leaves.
pub record Restored (m t : ℕ) (k k' : Kernel) : Type 0 where
  pub consistent : IsConsistent k'.threads
  pub priority :
      (k'.threads.thread t).priority ≡ restored_priority (k.objects.mutex m) (k.threads.thread t)
  pub others : (u : ℕ) → u ≢ t → k'.threads.thread u ≡ k.threads.thread u
  pub sleeping : k'.threads.sleeping_list ≡ k.threads.sleeping_list
  pub mutex : k'.objects.mutex m ≡ record (k.objects.mutex m) { original_priority = 0 }
  pub lock_count : k'.lock_count ≡ k.lock_count

module _ (m t : ℕ) (k : Kernel) (c : IsConsistent k.threads)
    (thread : k.port.irq_state ≡ false) where
  -- The mutex without a first priority.
  abbrev forgotten : Kernel
  forgotten = set_mutex m (record (k.objects.mutex m) { original_priority = 0 }) k

  forgotten-same : forgotten.objects.mutex m ≡ record (k.objects.mutex m) { original_priority = 0 }
  forgotten-same =
      update-same k.objects.mutex m (record (k.objects.mutex m) { original_priority = 0 })

  unraised-Restored : (k.objects.mutex m).original_priority ≡ 0 → Restored m t k k
  unraised-Restored e = record {
    consistent = c;
    priority =
        let z : ((k.objects.mutex m).original_priority == 0) ≡ true = ground arith in rw z refl;
    others = λ u n. refl;
    sleeping = refl;
    mutex = ap (λ p. record (k.objects.mutex m) { original_priority = p }) e;
    lock_count = refl;
  }

  module _ (raised : ((k.objects.mutex m).original_priority == 0) ≡ false) where
    same-Restored :
        (k.objects.mutex m).original_priority ≡ (k.threads.thread t).priority
        → Restored m t k forgotten
    same-Restored e = record {
      consistent = c;
      priority = rw raised (sym e);
      others = λ u n. refl;
      sleeping = refl;
      mutex = forgotten-same;
      lock_count = refl;
    }

    changed-Restored :
        (k' : Kernel)
        → Prioritized t (k.objects.mutex m).original_priority k.threads k'.threads
        → SameRest 0 forgotten k'
        → Restored m t k k'
    changed-Restored k' p s = record {
      consistent = p.consistent;
      priority = rw raised (ap (λ (x : Thread). x.priority) p.thread);
      others = p.others;
      sleeping = s.1;
      mutex = ap (λ (o : Objects). o.mutex m) s.0.1 ∙ forgotten-same;
      lock_count = s.0.4 ∙ omega arith;
    }

    set-Restored :
        Returns
          (λ r. Restored m t k r.1)
          (set_thread_priority (some t) (k.objects.mutex m).original_priority forgotten)
    unfolding set_thread_priority
    set-Restored =
        let p = (k.objects.mutex m).original_priority in
        elim (Bool-cases (p == (k.threads.thread t).priority)) [
          | inl e ↦ simp (thread, raised, e) (same-Restored (ground arith))
          | inr n ↦
              simp (thread, raised, n)
                (Returns-mono (change_priority t p forgotten) _ _
                  (Returns-May _ _ _ (change_priority-Prioritized t p forgotten c)
                    (change_priority-SameRest t p forgotten))
                  (λ r q. changed-Restored r.1 q.0.1 q.1))
        ]

  pub restore-Restored : Returns (Restored m t k) (restore m t k)
  unfolding restore
  restore-Restored = elim (Bool-cases ((k.objects.mutex m).original_priority == 0)) [
    | inl e ↦ simp e (unraised-Restored (ground arith))
    | inr n ↦ simp n (
        Returns-bind (set_thread_priority (some t) (k.objects.mutex m).original_priority forgotten)
          _ (λ r. Restored m t k r.1) _ (set-Restored n) (λ r q. q))
  ]
