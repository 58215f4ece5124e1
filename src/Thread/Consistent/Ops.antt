-- ===== src/Thread/Consistent/Ops.antt =====
-- Moving one thread from list to list: what is known afterwards.
use argon_rtos.Prelude.{ℕ, ◌≡◌, ◌≢◌, refl, some, arith, Returns, ap}
use argon_rtos.Types.{Status, Thread, ThreadState, suspended, ready}
use argon_rtos.Kernel.{Kernel, Threads}
use argon_rtos.Kernel.Lists.{set_state}
use argon_rtos.Kernel.Lock.{lock}
use argon_rtos.Thread.{leave, make_ready, make_suspended}
use argon_rtos.Thread.Consistent.{IsConsistent, IsOff}
use argon_rtos.Thread.Consistent.Moves.{put_ready, put_suspended}
use argon_rtos.Thread.Consistent.Puts.{
  with_thread-IsOff, put_ready-IsConsistent, put_suspended-IsConsistent, ready_add-put,
  suspended_add-put,
}
use argon_rtos.Thread.Consistent.Steps.{leave-ok, unlocked-threads}

module _ (t : ℕ) (l : Threads) (o : IsOff t l) where
  pub set_state-IsOff : (s : ThreadState) → IsOff t (set_state t s l)
  unfolding set_state
  set_state-IsOff s = with_thread-IsOff t (record (l.thread t) { state = s }) l o

  pub make_ready-ok : make_ready t l ≡ some (put_ready t (set_state t ready l))
  unfolding make_ready
  make_ready-ok = ready_add-put t (set_state t ready l) (set_state-IsOff ready)

  pub make_ready-IsConsistent : IsConsistent (put_ready t (set_state t ready l))
  unfolding set_state
  make_ready-IsConsistent =
      put_ready-IsConsistent t (set_state t ready l) (set_state-IsOff ready) (ground arith)

  pub make_suspended-ok : make_suspended t l ≡ some (put_suspended t (set_state t suspended l))
  unfolding make_suspended
  make_suspended-ok = suspended_add-put t (set_state t suspended l) (set_state-IsOff suspended)

  make_suspended-IsConsistent : IsConsistent (put_suspended t (set_state t suspended l))
  unfolding set_state
  make_suspended-IsConsistent =
      put_suspended-IsConsistent t (set_state t suspended l) (set_state-IsOff suspended)
        (ground arith)

-- What a resumption or a suspension leaves: consistent lists, the thread in state `s`, and no other
-- change of a thread.
pub record Moved (t : ℕ) (s : ThreadState) (l l' : Threads) : Type 0 where
  pub consistent : IsConsistent l'
  pub state : (l'.thread t).state ≡ s
  pub others : (u : ℕ) → u ≢ t → l'.thread u ≡ l.thread u

pub Moved-subst :
    (t : ℕ) (s : ThreadState) (l l' l'' : Threads) → l'' ≡ l' → Moved t s l l' → Moved t s l l''
Moved-subst t s l l' l'' e m = rw e m

pub readied-Moved :
    (t : ℕ) (l l' : Threads)
    → IsOff t l'
    → l'.thread ≡ l.thread
    → Moved t ready l (put_ready t (set_state t ready l'))
unfolding set_state
readied-Moved t l l' o same = record {
  consistent = make_ready-IsConsistent t l' o;
  state = ground arith;
  others = λ u n. ground (arith, ap (λ (f : ℕ → Thread). f u) same);
}

pub suspended-Moved :
    (t : ℕ) (l l' : Threads)
    → IsOff t l'
    → l'.thread ≡ l.thread
    → Moved t suspended l (put_suspended t (set_state t suspended l'))
unfolding set_state
suspended-Moved t l l' o same = record {
  consistent = make_suspended-IsConsistent t l' o;
  state = ground arith;
  others = λ u n. ground (arith, ap (λ (f : ℕ → Thread). f u) same);
}

pub Moved-refl :
    (t : ℕ) (s : ThreadState) (l : Threads)
    → IsConsistent l
    → (l.thread t).state ≡ s
    → Moved t s l l
Moved-refl t s l c e = record { consistent = c; state = e; others = λ u n. refl }

module _ (t : ℕ) (k : Kernel) (c : IsConsistent k.threads) where
  -- The operation only leaves the lock.
  pub kept :
      (s : Status) (q : ThreadState)
      → (k.threads.thread t).state ≡ q
      → Returns (λ r. (r.0 ≡ s) × Moved t q k.threads r.1.threads) (leave s (lock k))
  unfolding lock
  kept s q e = rw (leave-ok s (lock k) (ground arith)) (
    refl,
    Moved-subst t q k.threads k.threads _ (unlocked-threads (lock k))
        (Moved-refl t q k.threads c e),
  )
