-- ===== src/Mutex/Hoist.antt =====
-- Priority inheritance: raising the priority of a mutex's holder.
use argon_rtos.Prelude.{
  ℕ, ◌≡◌, ◌≢◌, refl, ◌∙◌, ap, true, false, ◌==◌, ltb, if◌then◌else◌, arith, update-same, ◌⊎◌, inl,
  inr, Bool-cases,
}
use argon_rtos.Types.{Mutex}
use argon_rtos.Kernel.{Kernel}
use argon_rtos.Kernel.Lists.{set_priority}
use argon_rtos.Thread.Consistent.{is_ready, IsConsistent}
use argon_rtos.Thread.Consistent.Priority.{idle-Prioritized}
use argon_rtos.Mutex.{hoist}

-- The higher one of two priorities.
abbrev pub higher : ℕ → ℕ → ℕ
higher q p = if ltb q p then p else q

-- The first priority that the mutex keeps of its holder, with priority `q`, for a thread with
-- priority `p`.
abbrev pub kept_priority : Mutex → ℕ → ℕ → ℕ
kept_priority x q p =
    if ltb q p
    then (if x.original_priority == 0 then q else x.original_priority)
    else x.original_priority

-- What raising the priority of the holder `o` leaves.
pub record Hoisted (m o p : ℕ) (k k' : Kernel) : Type 0 where
  pub consistent : IsConsistent k'.threads
  pub priority : (k'.threads.thread o).priority ≡ higher (k.threads.thread o).priority p
  pub state : (k'.threads.thread o).state ≡ (k.threads.thread o).state
  pub others : (u : ℕ) → u ≢ o → k'.threads.thread u ≡ k.threads.thread u
  pub ready : k'.threads.ready_list ≡ k.threads.ready_list
  pub mutex : k'.objects.mutex m ≡ record (k.objects.mutex m) {
    original_priority = kept_priority (k.objects.mutex m) (k.threads.thread o).priority p;
  }
  pub lock_count : k'.lock_count ≡ k.lock_count
  pub tick_count : k'.tick_count ≡ k.tick_count

-- The mutex with another first priority.
abbrev with_original : Mutex → ℕ → Mutex
with_original x v = record x { original_priority = v }

module _ (m o p : ℕ) (k : Kernel) (c : IsConsistent k.threads) where
  -- A holder that is not ready may be raised without sorting the ready list.
  raised-Hoisted :
      is_ready (k.threads.thread o).state ≡ false
      → ltb (k.threads.thread o).priority p ≡ true
      → Hoisted m o p k (hoist m o p k)
  unfolding hoist set_priority
  raised-Hoisted r l =
      let w = idle-Prioritized o p k c r in
      let q = (k.threads.thread o).priority in
      let x = k.objects.mutex m in
      elim (Bool-cases (x.original_priority == 0)) [
        | inl e ↦
            let kept : q ≡ kept_priority x q p = rw (l, e) refl in
            rw (l, e)
              (record {
                consistent = w.consistent;
                priority = ground arith;
                state = ground arith;
                others = w.others;
                ready = refl;
                mutex =
                    update-same k.objects.mutex m (with_original x q) ∙ ap (with_original x) kept;
                lock_count = refl;
                tick_count = refl;
              })
        | inr n ↦
            let kept : x.original_priority ≡ kept_priority x q p = rw (l, n) refl in
            rw (l, n)
              (record {
                consistent = w.consistent;
                priority = ground arith;
                state = ground arith;
                others = w.others;
                ready = refl;
                mutex = ap (with_original x) kept;
                lock_count = refl;
                tick_count = refl;
              })
      ]

  unraised-Hoisted : ltb (k.threads.thread o).priority p ≡ false → Hoisted m o p k (hoist m o p k)
  unfolding hoist
  unraised-Hoisted l =
      let q = (k.threads.thread o).priority in
      let x = k.objects.mutex m in
      let kept : x.original_priority ≡ kept_priority x q p = rw l refl in
      let same : q ≡ higher q p = rw l refl in
      rw l (record {
        consistent = c;
        priority = same;
        state = refl;
        others = λ u n. refl;
        ready = refl;
        mutex = ap (with_original x) kept;
        lock_count = refl;
        tick_count = refl;
      })

  -- A holder that is not ready, or whose priority is not below `p`.
  pub hoist-Hoisted :
      (is_ready (k.threads.thread o).state ≡ false) ⊎ (ltb (k.threads.thread o).priority p ≡ false)
      → Hoisted m o p k (hoist m o p k)
  hoist-Hoisted (inr l) = unraised-Hoisted l
  hoist-Hoisted (inl r) = elim (Bool-cases (ltb (k.threads.thread o).priority p)) [
    | inl l ↦ raised-Hoisted r l
    | inr l ↦ unraised-Hoisted l
  ]
