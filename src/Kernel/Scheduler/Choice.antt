-- ===== src/Kernel/Scheduler/Choice.antt =====
-- The choice of the scheduler.
use argon_rtos.Prelude.{
  ℕ, ◌≤◌, ◌≡◌, refl, ◌∙◌, sym, true, false, Option, none, some, ◌>>=◌, ◌∷◌, ◌==◌, arith, has, ap,
  inl, inr, Bool-cases, ==_iff, Returns, subst,
}
use argon_rtos.Types.{ThreadState, running}
use argon_rtos.Kernel.{Threads}
use argon_rtos.Kernel.Lists.{sort_by_priority}
use argon_rtos.Kernel.Scheduler.{takes_first, rotate, choose, is_running_state}
use argon_rtos.Thread.Consistent.{IsConsistent, sort_by_priority-IsStrictWeak}
use argon_rtos.ArList.Seq
use argon_rtos.ArList.Seq.Order.{next-has, head-cons}
use argon_rtos.ArList.Seq.Sorted.{IsSorted, IsSorted-head}

-- Thread `t` is ready, and no ready thread has a higher priority.
pub record IsHighest (l : Threads) (t : ℕ) : Type 0 where
  pub on_list : has t l.ready_list ≡ true
  pub above : (u : ℕ) → has u l.ready_list ≡ true → (l.thread u).priority ≤ (l.thread t).priority

IsHighest-equal :
    (l : Threads) (a b : ℕ)
    → IsHighest l a
    → has b l.ready_list ≡ true
    → (l.thread b).priority ≡ (l.thread a).priority
    → IsHighest l b
IsHighest-equal l a b h m e = record { on_list = m; above = λ u mu. omega (arith, h.above u mu) }

pub is_running_state→eq : (s : ThreadState) → is_running_state s ≡ true → s ≡ running
is_running_state→eq running e = refl
is_running_state→eq _ e = cc

takes_first-false :
    (t first : ℕ) (l : Threads)
    → takes_first (some t) first l ≡ false
    → (is_running_state (l.thread t).state ≡ true)
      × ((l.thread first).priority ≤ (l.thread t).priority)
unfolding takes_first
takes_first-false t first l b = ground arith

module _ (l : Threads) (c : IsConsistent l) (first : ℕ)
    (e : Seq.head? l.ready_list ≡ some first) where
  first-IsHighest : IsHighest l first
  unfolding sort_by_priority
  first-IsHighest =
      let (xs, split) = head-cons first l.ready_list e in
      let sorted : IsSorted (sort_by_priority l.thread) (first ∷ xs) =
        subst (IsSorted (sort_by_priority l.thread)) split c.shaped.sorted_ready in
      record {
        on_list = rw split (ground arith);
        above = λ u m. ground (
          arith,
          ap (has u) split,
          IsSorted-head (sort_by_priority l.thread) (sort_by_priority-IsStrictWeak l.thread) first
              xs u sorted,
        );
      }

  -- Round robin: the running thread has no ready thread above it.
  rotate-IsHighest :
      (t : ℕ)
      → (l.thread t).state ≡ running
      → (l.thread first).priority ≤ (l.thread t).priority
      → Returns (IsHighest l) (rotate t first l)
  unfolding rotate
  rotate-IsHighest t s le =
      let m : has t l.ready_list ≡ true = ground (arith, c.ready_iff t) in
      let (n, en, mn) = next-has t l.ready_list m in
      let top = first-IsHighest in
      let same : (l.thread first).priority ≡ (l.thread t).priority =
        ground (arith, top.above t m) in
      let equal : ((l.thread first).priority == (l.thread t).priority) ≡ true = ground arith in
      elim (Bool-cases ((l.thread n).priority == (l.thread t).priority)) [
        | inl t' ↦
            let e' : (l.thread n).priority ≡ (l.thread t).priority = (==_iff _ _).0 t' in
            rw (en, ◌>>=◌, t') (IsHighest-equal l first n top mn (e' ∙ sym same))
        | inr f ↦ rw (en, ◌>>=◌, f, equal) top
      ]

  -- The scheduler chooses a ready thread of the highest priority, and its assertions hold.
  pub choose-IsHighest : (current : Option ℕ) → Returns (IsHighest l) (choose current first l)
  unfolding choose
  choose-IsHighest none = first-IsHighest
  choose-IsHighest (some t) = elim (Bool-cases (takes_first (some t) first l)) [
    | inl b ↦ rw b first-IsHighest
    | inr b ↦
        let (r, le) = takes_first-false t first l b in
        rw b (rotate-IsHighest t (is_running_state→eq (l.thread t).state r) le)
  ]
