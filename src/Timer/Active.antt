-- ===== src/Timer/Active.antt =====
-- The list of active timers of a run loop: what starting and stopping a timer does to it.
use argon_rtos.Prelude.{
  ℕ, ◌≡◌, ◌≢◌, refl, ◌∙◌, sym, ap, subst, Bool, true, false, ◌&&◌, Option, none, some, ◌>>=◌, List,
  [], ◌∷◌, ◌==◌, ltb, Returns, has, Distinct, arith, Bool-cases, inl, inr, update,
}
use argon_rtos.Types.{Timer}
use argon_rtos.Kernel.{Kernel, Objects}
use argon_rtos.Timer.{set_timer, sort_timers, set_timers, timers_add, timers_remove, place}
use argon_rtos.ArList.Seq
use argon_rtos.ArList.Seq.{insert_sorted}
use argon_rtos.ArList.Seq.Order.{has-add, has-remove, Distinct-add, Distinct-remove}
use argon_rtos.ArList.Seq.Sorted.{
  IsStrictWeak, IsSorted, IsSorted-add, IsSorted-remove, IsSorted-frame,
}

abbrev pub by_wakeup : (ℕ → Timer) → ℕ → ℕ → Bool
by_wakeup timer a b = ltb (timer a).wakeup_time (timer b).wakeup_time

by_wakeup-IsStrictWeak : (timer : ℕ → Timer) → IsStrictWeak (by_wakeup timer)
by_wakeup-IsStrictWeak timer = record {
  asymm = λ a b h. ground arith;
  trans = λ a b c h k. ground arith;
}

abbrev pub is_on : Option ℕ → ℕ → Bool
is_on none r = false
is_on (some a) r = a == r

-- The timers of run loop `r` are its active timers, each once, in the order of their wakeup times.
pub record IsTimers (r : ℕ) (o : Objects) : Type 0 where
  pub distinct : Distinct (o.run_loop r).timers
  pub sorted : IsSorted (by_wakeup o.timer) (o.run_loop r).timers
  pub listed :
      (t : ℕ)
      → has t (o.run_loop r).timers ≡ ((o.timer t).is_active && is_on (o.timer t).run_loop r)

-- A predicate matters where it compares the new element.
insert_sorted-frame :
    (p q : ℕ → ℕ → Bool) (a : ℕ) (xs : List ℕ)
    → ((b : ℕ) → p a b ≡ q a b)
    → insert_sorted p a xs ≡ insert_sorted q a xs
unfolding insert_sorted
insert_sorted-frame p q a [] h = refl
insert_sorted-frame p q a (x ∷ xs) h = ground (arith, h x, insert_sorted-frame p q a xs h)

add-frame :
    (p q : ℕ → ℕ → Bool) (a : ℕ) (xs : List ℕ)
    → ((b : ℕ) → p a b ≡ q a b)
    → Seq.add (some p) a xs ≡ Seq.add (some q) a xs
unfolding Seq.add
add-frame p q a [] h = refl
add-frame p q a (x ∷ xs) h =
    ground (arith, h (Seq.last_of x xs), insert_sorted-frame p q a (x ∷ xs) h)

-- The same but for timer `t`, which is not on the list.
pub record IsWithout (t r : ℕ) (o : Objects) : Type 0 where
  pub distinct : Distinct (o.run_loop r).timers
  pub sorted : IsSorted (by_wakeup o.timer) (o.run_loop r).timers
  pub off : has t (o.run_loop r).timers ≡ false
  pub listed :
      (u : ℕ)
      → (u == t) ≡ false
      → has u (o.run_loop r).timers ≡ ((o.timer u).is_active && is_on (o.timer u).run_loop r)

module _ (r t w : ℕ) (k : Kernel) (i : IsWithout t r k.objects)
    (e : (k.objects.timer t).run_loop ≡ some r) where
  abbrev timers : List ℕ
  timers = (k.objects.run_loop r).timers

  abbrev started : Timer
  started = record (k.objects.timer t) { wakeup_time = w; is_active = true }

  abbrev timer : ℕ → Timer
  timer = update k.objects.timer t started

  -- The kernel with the timer in its place.
  abbrev placed : Kernel
  placed = set_timers r (Seq.add (some (sort_timers timer)) t timers) (set_timer t started k)

  placed-run : timers_add r t (set_timer t started k) ≡ some placed
  unfolding timers_add
  placed-run = rw i.off refl

  placed-IsTimers : IsTimers r placed.objects
  unfolding sort_timers
  placed-IsTimers =
      let frame = add-frame (sort_timers timer) (by_wakeup timer) t timers (λ b. ground arith) in
      let same =
        IsSorted-frame (by_wakeup k.objects.timer) (by_wakeup timer) timers
          (λ a b ma mb. ground (arith, i.off)) i.sorted in
      let at_r : (placed.objects.run_loop r).timers ≡ Seq.add (some (sort_timers timer)) t timers =
        ground arith in
      record {
        distinct = subst Distinct (sym at_r) (Distinct-add _ t timers i.distinct i.off);
        sorted =
            subst (IsSorted (by_wakeup timer)) (sym (at_r ∙ frame))
              (IsSorted-add _ (by_wakeup-IsStrictWeak timer) t timers same);
        listed = λ u.
            ap (has u) at_r
            ∙ (has-add _ u t timers ∙ elim (Bool-cases (u == t)) [
              | inl a ↦
                  let a' : u ≡ t = ground arith in
                  ground (arith, ap (λ (v : Option ℕ). is_on v r) e)
              | inr b ↦ ground (arith, i.listed u b)
            ]);
      }

module _ (r t : ℕ) (k : Kernel) (i : IsWithout t r k.objects) where
  abbrev pub halted : Kernel
  halted = set_timer t (record (k.objects.timer t) { wakeup_time = 0; is_active = false }) k

  pub halted-IsTimers : IsTimers r halted.objects
  halted-IsTimers = record {
    distinct = i.distinct;
    sorted =
        IsSorted-frame (by_wakeup k.objects.timer) (by_wakeup halted.objects.timer) _
          (λ a b ma mb. ground (arith, i.off)) i.sorted;
    listed = λ u. elim (Bool-cases (u == t)) [
      | inl a ↦
          let a' : u ≡ t = ground arith in
          ground (arith, i.off, ap (λ v. has v (k.objects.run_loop r).timers) a')
      | inr b ↦ ground (arith, i.listed u b)
    ];
  }

module _ (r t : ℕ) (k : Kernel) (i : IsTimers r k.objects) where
  abbrev pub removed : Kernel
  removed = set_timers r (Seq.remove t (k.objects.run_loop r).timers) k

  removed-timers : (removed.objects.run_loop r).timers ≡ Seq.remove t (k.objects.run_loop r).timers
  removed-timers = ground arith

  pub removed-IsWithout : IsWithout t r removed.objects
  removed-IsWithout =
      let xs = (k.objects.run_loop r).timers in
      let at_r = removed-timers in
      record {
        distinct = subst Distinct (sym at_r) (Distinct-remove t xs i.distinct);
        sorted =
            subst (IsSorted (by_wakeup k.objects.timer)) (sym at_r)
              (IsSorted-remove _ (by_wakeup-IsStrictWeak k.objects.timer) t xs i.sorted);
        off = ap (has t) at_r ∙ (ground (arith, has-remove t t xs));
        listed = λ u n. ap (has u) at_r ∙ (has-remove u t xs ∙ ground (arith, i.listed u));
      }

  pub removed-run : has t (k.objects.run_loop r).timers ≡ true → timers_remove r t k ≡ some removed
  unfolding timers_remove
  removed-run m = rw m refl

  inactive-IsWithout : has t (k.objects.run_loop r).timers ≡ false → IsWithout t r k.objects
  inactive-IsWithout m = record {
    distinct = i.distinct;
    sorted = i.sorted;
    off = m;
    listed = λ u n. i.listed u;
  }

  module _ (w : ℕ) (e : (k.objects.timer t).run_loop ≡ some r) where
    pub is_listed : has t (k.objects.run_loop r).timers ≡ (k.objects.timer t).is_active
    is_listed = ground (arith, i.listed t, ap (λ (v : Option ℕ). is_on v r) e)

    -- What `place` leaves: the timer is active with its wakeup time, and on the list.
    pub record Placed (k' : Kernel) : Type 0 where
      pub timers : IsTimers r k'.objects
      pub timer :
          k'.objects.timer t ≡ record (k.objects.timer t) { wakeup_time = w; is_active = true }
      pub others : (u : ℕ) → u ≢ t → k'.objects.timer u ≡ k.objects.timer u
      pub threads : k'.threads ≡ k.threads
      pub lock_count : k'.lock_count ≡ k.lock_count
      pub irq_state : k'.port.irq_state ≡ k.port.irq_state

    pub place-Placed : Returns Placed (place r t w k)
    unfolding place
    place-Placed = elim (Bool-cases (k.objects.timer t).is_active) [
      | inl a ↦
          let o = removed-IsWithout in
          rw (a, removed-run (is_listed ∙ a), ◌>>=◌, placed-run r t w removed o e)
            (record {
              timers = placed-IsTimers r t w removed o e;
              timer = ground arith;
              others = λ u n. ground arith;
              threads = refl;
              lock_count = refl;
              irq_state = refl;
            })
      | inr b ↦
          let o = inactive-IsWithout (is_listed ∙ b) in
          rw (b, ◌>>=◌, placed-run r t w k o e)
            (record {
              timers = placed-IsTimers r t w k o e;
              timer = ground arith;
              others = λ u n. ground arith;
              threads = refl;
              lock_count = refl;
              irq_state = refl;
            })
    ]
