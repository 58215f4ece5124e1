-- ===== src/Kernel/Scheduler/Turns.antt =====
-- Round robin of ar_kernel_scheduler: the order in which threads of one priority get the processor.
pub mod Rotation
pub mod Fair
use argon_rtos.Prelude.{
  ℕ, zero, suc, ◌+◌, ◌≤◌, ◌<◌, ◌≡◌, ◌≢◌, refl, ◌∙◌, sym, ap, ap₂, subst, Bool, true, false, Option,
  none, some, ◌>>=◌, ◌>>◌, List, [], ◌∷◌, ◌++◌, ◌==◌, ltb, if◌then◌else◌, has, has-append, Distinct,
  All, arith, Bool-cases, inl, inr, ◌⊎◌, Returns, Returns-bind, Returns-mono, assert, not, ◌||◌,
  length, length-append,
}
use argon_rtos.Types.{running, Thread}
use argon_rtos.Kernel.{Kernel, Threads}
use argon_rtos.Kernel.Scheduler.{
  scheduler, account_load, choose, takes_first, rotate, is_running_state, is_thread,
}
use argon_rtos.Kernel.Scheduler.Loads.{SameLoad, account_load-SameLoad}
use argon_rtos.Kernel.Scheduler.Choice.{IsHighest}
use argon_rtos.Kernel.Scheduler.Preempt.{IsAlone, Runs}
use argon_rtos.Kernel.Scheduler.Switch.{HasStack, Runs-HasStack, scheduler-picks}
use argon_rtos.Thread.Consistent.{IsConsistent}
use argon_rtos.ArList.Seq

-- `n` runs of the scheduler, with nothing else in between.
unfoldable pub turns : ℕ → Kernel → Option Kernel
turns zero k = some k
turns (suc n) k = scheduler k >>= turns n

-- The node behind one in the middle of a list, and the one behind the last.
pub next_from-middle :
    (h c y : ℕ) (xs ys : List ℕ)
    → has c xs ≡ false
    → Seq.next_from h c (xs ++ (c ∷ y ∷ ys)) ≡ some y
unfolding Seq.next_from
next_from-middle h c y [] ys d = ground arith
next_from-middle h c y (x ∷ []) ys d = ground arith
next_from-middle h c y (x ∷ x' ∷ xs) ys d = ground (arith, next_from-middle h c y (x' ∷ xs) ys)

pub next_from-last :
    (h c : ℕ) (xs : List ℕ) → has c xs ≡ false → Seq.next_from h c (xs ++ (c ∷ [])) ≡ some h
unfolding Seq.next_from
next_from-last h c [] d = ground arith
next_from-last h c (x ∷ []) d = ground arith
next_from-last h c (x ∷ x' ∷ xs) d = ground (arith, next_from-last h c (x' ∷ xs))

choose-next :
    (l : Threads) (c f m : ℕ)
    → (l.thread c).state ≡ running
    → Seq.next c l.ready_list ≡ some m
    → (l.thread f).priority ≡ (l.thread c).priority
    → choose (some c) f l ≡ some (if (l.thread m).priority == (l.thread c).priority then m else f)
unfolding choose takes_first rotate
choose-next l c f m r e p =
    let stays : ltb (l.thread c).priority (l.thread f).priority ≡ false = ground arith in
    let same : ((l.thread f).priority == (l.thread c).priority) ≡ true = ground arith in
    elim (Bool-cases ((l.thread m).priority == (l.thread c).priority)) [
      | inl t ↦ rw (r, stays, e, ◌>>=◌, t) refl
      | inr n ↦ rw (r, stays, e, ◌>>=◌, n, same) refl
    ]

stays-running :
    (l : Threads) (current : Option ℕ) (c t : ℕ)
    → current ≡ some c
    → (l.thread c).state ≡ running
    → (if is_thread current t then (l.thread t).state else running) ≡ running
stays-running l current c t e r = elim (Bool-cases (c == t)) [
  | inl same ↦
      let c' : c ≡ t = ground arith in rw (e, same) (subst (λ u. (l.thread u).state ≡ running) c' r)
  | inr other ↦ rw (e, other) refl
]

-- Thread `c` runs, on lists that the scheduler can work on.
pub record HasTurn (c : ℕ) (k : Kernel) : Type 0 where
  pub consistent : IsConsistent k.threads
  pub alone : IsAlone k
  pub current : k.current_thread ≡ some c
  pub state : (k.threads.thread c).state ≡ running
  pub stacks : (t : ℕ) → has t k.threads.ready_list ≡ true → HasStack k t

-- The ready list has not changed, and no priority.
pub record SameOrder (k k' : Kernel) : Type 0 where
  pub ready_list : k'.threads.ready_list ≡ k.threads.ready_list
  pub priority : (u : ℕ) → (k'.threads.thread u).priority ≡ (k.threads.thread u).priority

module _ (k : Kernel) (c f m : ℕ) (h : HasTurn c k) (e : Seq.head? k.threads.ready_list ≡ some f)
    (next : Seq.next c k.threads.ready_list ≡ some m)
    (p : (k.threads.thread f).priority ≡ (k.threads.thread c).priority) where
  abbrev picked : ℕ
  picked = if (k.threads.thread m).priority == (k.threads.thread c).priority then m else f

  picked-chosen :
      let k₁ = account_load k.current_thread k in
      choose k₁.current_thread f k₁.threads ≡ some picked
  picked-chosen =
      let k₁ = account_load k.current_thread k in
      let s = account_load-SameLoad k.current_thread k in
      let pm = (s.thread m).priority in
      let pc = (s.thread c).priority in
      let chosen =
        choose-next k₁.threads c f m ((s.thread c).state ∙ h.state)
          (ap (Seq.next c) s.ready_list ∙ next) ((s.thread f).priority ∙ (p ∙ sym pc)) in
      subst (λ o. choose o f k₁.threads ≡ some picked) (sym (s.current_thread ∙ h.current))
        (chosen ∙ ap₂ (λ x y. some (if x == y then m else f)) pm pc)

  -- One run of the scheduler.
  pub turn : Returns (λ k'. HasTurn picked k' × SameOrder k k') (scheduler k)
  turn =
      Returns-mono (scheduler k) _ _
        (scheduler-picks k h.consistent h.alone f e h.stacks picked picked-chosen)
        (λ k' (top, r). (
          record {
            consistent = r.consistent;
            alone = r.alone;
            current = r.current;
            state = r.state ∙ stays-running k.threads k.current_thread c picked h.current h.state;
            stacks = λ t m. Runs-HasStack k k' picked t r (h.stacks t (rw (← r.ready_list) m));
          },
          record { ready_list = r.ready_list; priority = r.priority },
        ))

-- The threads of the highest priority `p` are `ps`, in their order on the ready list.
pub record IsGroup (p : ℕ) (ps : List ℕ) (k : Kernel) : Type 0 where
  pub others : List ℕ
  pub split : k.threads.ready_list ≡ ps ++ others
  pub equal : All (λ u. (k.threads.thread u).priority ≡ p) ps
  pub less : All (λ u. (k.threads.thread u).priority < p) others

All-priority :
    (k k' : Kernel) (xs : List ℕ) (P : ℕ → Type 0)
    → SameOrder k k'
    → All (λ u. P (k.threads.thread u).priority) xs
    → All (λ u. P (k'.threads.thread u).priority) xs
All-priority k k' [] P o a = tt
All-priority k k' (x ∷ xs) P o a = (subst P (sym (o.priority x)) a.0, All-priority k k' xs P o a.1)

pub IsGroup-order :
    (p : ℕ) (ps : List ℕ) (k k' : Kernel) → SameOrder k k' → IsGroup p ps k → IsGroup p ps k'
IsGroup-order p ps k k' o g = record {
  others = g.others;
  split = o.ready_list ∙ g.split;
  equal = All-priority k k' ps (λ q. q ≡ p) o g.equal;
  less = All-priority k k' g.others (λ q. q < p) o g.less;
}
