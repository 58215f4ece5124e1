-- ===== src/Timer/OneShot.antt =====
-- A one shot timer in the loop of ar_kernel_run_timers of src/ar_timer.cpp.
use argon_rtos.Prelude.{
  ℕ, zero, suc, ◌≤◌, ◌≡◌, ◌≢◌, refl, ◌∙◌, sym, ap, subst, true, false, ◌&&◌, Bool, Option, none,
  some, ◌>>=◌, List, [], ◌∷◌, ◌==◌, ltb, if◌then◌else◌, arith, Returns, Returns-bind, Returns-mono,
  has, Distinct, Bool-cases, inl, inr,
}
use argon_rtos.Types.{Status, one_shot}
use argon_rtos.Kernel.{Kernel}
use argon_rtos.Thread.Consistent.{IsConsistent}
use argon_rtos.Timer.{stop, stop_internal}
use argon_rtos.Timer.Fire.{after_callback, set_running, is_head, fire, run_timers_from, run_timers}
use argon_rtos.Timer.Active.{IsTimers, by_wakeup, is_on}
use argon_rtos.Timer.Start.{Timed, stop_internal-Timed}
use argon_rtos.ArList.Seq
use argon_rtos.ArList.Seq.{next_from}
use argon_rtos.ArList.Seq.Sorted.{IsSorted-frame}

next_from-none : (h t : ℕ) (xs : List ℕ) → has t xs ≡ false → next_from h t xs ≡ none
unfolding next_from
next_from-none h t [] m = refl
next_from-none h t (x ∷ []) m = ground arith
next_from-none h t (x ∷ y ∷ ys) m = ground (arith, next_from-none h t (y ∷ ys))

next-none : (t : ℕ) (xs : List ℕ) → has t xs ≡ false → Seq.next t xs ≡ none
unfolding Seq.next
next-none t [] m = refl
next-none t (x ∷ xs) m = next_from-none x t (x ∷ xs) m

head-none : (u : ℕ) (xs : List ℕ) → has u xs ≡ true → is_head none xs ≡ false
head-none u [] m = cc
head-none u (x ∷ xs) m = refl

-- The flag that a callback runs does not matter to the list.
running-IsTimers :
    (r t : ℕ) (b : Bool) (k : Kernel)
    → IsTimers r k.objects
    → IsTimers r (set_running b t k).objects
running-IsTimers r t b k i = record {
  distinct = i.distinct;
  sorted =
      IsSorted-frame (by_wakeup k.objects.timer) _ (k.objects.run_loop r).timers
        (λ x y mx my. ground arith) i.sorted;
  listed = λ u. elim (Bool-cases (u == t)) [
    | inl a ↦ let a' : t ≡ u = ground arith in ground (arith, i.listed u, ap k.objects.timer a')
    | inr n ↦ ground (arith, i.listed u)
  ];
}

bind-at : {A B : Type 0} (o : Option A) (a : A) (g : A → Option B) → o ≡ some a → (o >>= g) ≡ g a
bind-at o a g e = ap (λ o. o >>= g) e

bind_none :
    {A B : Type 0} (o : Option A) (P : A → Type 0) (g : A → Option B)
    → Returns P o
    → ((a : A) → P a → g a ≡ none)
    → (o >>= g) ≡ none
bind_none none P g r h = refl
bind_none (some a) P g r h = h a r

bind-same :
    {A B : Type 0} (o : Option A) (P : A → Type 0) (g h : A → Option B)
    → Returns P o
    → ((a : A) → P a → g a ≡ h a)
    → (o >>= g) ≡ (o >>= h)
bind-same none P g h r e = refl
bind-same (some a) P g h r e = e a r

-- A chain from a result on.
bind-Returns :
    {A B : Type 0} (o : Option A) (P : A → Type 0) (g : A → Option B) (x : Option B)
    → x ≡ (o >>= g)
    → Returns P o
    → Returns (λ a. P a × (x ≡ g a)) o
bind-Returns none P g x e r = r
bind-Returns (some a) P g x e r = (r, e)

-- Timer `t` has left the list of run loop `r`, and `u` is on it.
pub record Left (r t u : ℕ) (k' : Kernel) : Type 0 where
  pub off : has t (k'.objects.run_loop r).timers ≡ false
  pub on : has u (k'.objects.run_loop r).timers ≡ true

module _ (call : (f t p : ℕ) → Kernel → Option Kernel) (r t u f : ℕ) (us : List ℕ) (k : Kernel)
    (i : IsTimers r k.objects) (c : IsConsistent k.threads) (thread : k.port.irq_state ≡ false)
    (e : (k.objects.run_loop r).timers ≡ t ∷ u ∷ us) (mode : (k.objects.timer t).mode ≡ one_shot)
    (callback : (k.objects.timer t).callback ≡ some f)
    (quiet : (p : ℕ) (k : Kernel) → call f t p k ≡ some k) where
  -- The kernel behind the callback.
  abbrev called₁ : Kernel
  called₁ = set_running true t k

  abbrev called : Kernel
  called = set_running false t called₁

  called-IsTimers : IsTimers r called.objects
  called-IsTimers =
      running-IsTimers r t false (set_running true t k) (running-IsTimers r t true k i)

  active : (k.objects.timer t).is_active && is_on (k.objects.timer t).run_loop r ≡ true
  active = sym (i.listed t) ∙ ground (arith, e)

  attached : (o : Option ℕ) → is_on o r ≡ true → o ≡ some r
  attached none m = cc
  attached (some a) m = ground arith

  on_r : (k.objects.timer t).run_loop ≡ some r
  on_r = attached (k.objects.timer t).run_loop (ground (arith, active))

  stopped :
      Returns
        (λ a.
          Timed r t
            (record (called.objects.timer t) { wakeup_time = 0; is_active = false })
            called
            a.1)
        (stop_internal t called)
  stopped =
      Returns-mono (stop_internal t called) _ _
        (stop_internal-Timed r t called called-IsTimers (ground (arith, on_r)) c thread
          (ground (arith, active)))
        (λ a w. w.1)

  stop-internal : stop (some t) called ≡ stop_internal t called
  unfolding stop
  stop-internal =
      let a : (called.objects.timer t).is_active ≡ true = ground (arith, active) in
      let o : (called.objects.timer t).run_loop ≡ some r = ground (arith, on_r) in
      simp (a, o, thread)

  fire-run : fire call t k ≡ (stop_internal t called >>= λ a. some a.1)
  unfolding fire after_callback
  fire-run =
      let a : (called.objects.timer t).is_active ≡ true = ground (arith, active) in
      let m : (called.objects.timer t).mode ≡ one_shot = ground (arith, mode) in
      bind-at (k.objects.timer t).callback f _ callback
      ∙ (bind-at _ called₁ _ (quiet (k.objects.timer t).param called₁)
          ∙ (ap
                (λ b.
                  if b then after_callback (called.objects.timer t).mode t called else some called)
                a
              ∙ (ap (λ m. after_callback m t called) m
                  ∙ ap (λ (o : Option (Status × Kernel)). o >>= λ a. some a.1) stop-internal)))

  u-other : u ≢ t
  u-other q = ground (arith, subst Distinct e i.distinct)

  fired : Returns (Left r t u) (fire call t k)
  fired = rw fire-run (
      Returns-bind (stop_internal t called) _ _ (Left r t u) stopped (λ a w.
        let m : has u (k.objects.run_loop r).timers ≡ true = ground (arith, e) in
        record {
          off = ground (arith, w.timers.listed t, w.timer);
          on = ground (arith, w.timers.listed u, w.others u u-other, i.listed u);
        }))

  from_null : (fuel : ℕ) (k : Kernel) → run_timers_from call fuel r none k ≡ none
  unfolding run_timers_from
  from_null zero k = refl
  from_null (suc fuel) k = refl

  -- The loop behind a timer, at the node `following`.
  abbrev goes_to : ℕ → Option ℕ → Kernel → Option Kernel
  goes_to fuel following k' = elim (is_head following (k'.objects.run_loop r).timers) [
    | true ↦ some k'
    | false ↦ run_timers_from call fuel r following k'
  ]

  -- The loop goes on at NULL behind the timer.
  from_head :
      (fuel : ℕ)
      → (k.objects.timer t).wakeup_time ≤ k.tick_count
      → run_timers_from call (suc fuel) r (some t) k
        ≡ (fire call t k >>= λ k'. run_timers_from call fuel r none k')
  unfolding run_timers_from
  from_head fuel due =
      let d : ltb k.tick_count (k.objects.timer t).wakeup_time ≡ false = ground arith in
      ap
        (λ b. elim b as (λ b. Option Kernel) [
          | true ↦ some k
          | false ↦
              fire call t k >>= λ k'. goes_to fuel (Seq.next t (k'.objects.run_loop r).timers) k'
        ])
        d
      ∙ bind-same (fire call t k) (Left r t u) _ _ fired (λ k' w.
        let xs = (k'.objects.run_loop r).timers in
        ap (λ o. goes_to fuel o k') (next-none t xs w.off)
        ∙ ap
            (λ b. elim b as (λ b. Option Kernel) [
              | true ↦ some k'
              | false ↦ run_timers_from call fuel r none k'
            ])
            (head-none u xs w.on))

  ends :
      (fuel : ℕ) → (k.objects.timer t).wakeup_time ≤ k.tick_count → run_timers call fuel r k ≡ none
  unfolding run_timers run_timers_from
  ends zero due = rw (run_timers, e) refl
  ends (suc fuel) due =
      rw (run_timers, e)
        (from_head fuel due
          ∙ bind_none (fire call t k) (Left r t u) _ fired (λ k' w. from_null fuel k'))

  -- If the first timer of a run loop is a one shot timer whose time has come, and another timer is
  -- active on the run loop, the loop over the timers goes on at a NULL pointer, even if the callback
  -- does nothing: the timer's callback and its stop return, without a halt, a kernel in which the
  -- timer has left the list of the run loop and the other one is on it, and the loop then is at NULL.
  -- It uses that pointer, so that running the timers has no result, whatever the fuel is. The timers
  -- and the lists of the threads are well formed, and no interrupt handler is active.
  pub run_timers-one_shot :
      (fuel : ℕ)
      → (k.objects.timer t).wakeup_time ≤ k.tick_count
      → Returns
          (λ k'.
            Left r t u k' × (run_timers call (suc fuel) r k ≡ run_timers_from call fuel r none k'))
          (fire call t k)
        × (run_timers call fuel r k ≡ none)
  unfolding run_timers
  run_timers-one_shot fuel due = (
    bind-Returns (fire call t k) (Left r t u) (run_timers_from call fuel r none) _
        (rw (run_timers, e) (from_head fuel due)) fired,
    ends fuel due,
  )
