-- ===== src/Mutex/Contended.antt =====
-- Getting a mutex that another thread holds: the priority of the holder is raised, and the thread
-- waits.
use argon_rtos.Prelude.{
  ℕ, ◌+◌, ◌≡◌, ◌≢◌, refl, ◌∙◌, ap, sym, true, false, none, some, Option, ◌>>=◌, ◌==◌, ltb, has,
  arith, update-same, u32, Returns, Returns-mono, List, ◌⊎◌,
}
use argon_rtos.Types.{infinite_timeout, Thread, Mutex}
use argon_rtos.Kernel.{Kernel, Objects}
use argon_rtos.Kernel.Lock.{lock}
use argon_rtos.Kernel.Tick.{milliseconds_to_ticks}
use argon_rtos.Thread.Consistent.{is_ready, IsConsistent}
use argon_rtos.Block.{of_mutex, blocked_list, put_blocked_list, block, wait, Waits, waits}
use argon_rtos.Block.Unblock.{IsBlocked}
use argon_rtos.Block.Enter.{Blocks, block-Blocks}
use argon_rtos.Mutex.{same_thread, hoist, get_loop, get_internal, get}
use argon_rtos.Mutex.Hoist.{higher, kept_priority, Hoisted, hoist-Hoisted}

Returns-Waits :
    (r : Option Kernel) (P : Kernel → Type 0) → Returns P r → Waits P (r >>= λ k. some (waits k))
Returns-Waits none P d = d
Returns-Waits (some k) P d = d

-- What a thread `t` that waits for a mutex leaves: it is blocked on the mutex, and its holder `o` has
-- the higher one of the two priorities.
pub record Contended (m o t : ℕ) (k k' : Kernel) : Type 0 where
  pub consistent : IsConsistent k'.threads
  pub is_blocked : IsBlocked t (of_mutex m) k'
  pub priority :
      (k'.threads.thread o).priority
      ≡ higher (k.threads.thread o).priority (k.threads.thread t).priority
  pub owner : (k'.objects.mutex m).owner ≡ some o
  pub original_priority :
      (k'.objects.mutex m).original_priority
      ≡ kept_priority
          (k.objects.mutex m)
          (k.threads.thread o).priority
          (k.threads.thread t).priority
  pub others : (u : ℕ) → u ≢ o → u ≢ t → k'.threads.thread u ≡ k.threads.thread u

module _ (m o t timeout : ℕ) (k : Kernel) (thread : k.port.irq_state ≡ false)
    (self : k.current_thread ≡ some t) (owned : (k.objects.mutex m).owner ≡ some o) (ot : o ≢ t)
    (held : ((k.objects.mutex m).owner_lock_count == 0) ≡ false) (positive : timeout ≢ 0) where
  abbrev hoisted_kernel : Kernel
  hoisted_kernel = hoist m o (k.threads.thread t).priority (lock k)

  get-wait : get (some m) timeout k ≡ wait t (of_mutex m) timeout hoisted_kernel
  unfolding get get_internal get_loop lock
  get-wait =
      let other : same_thread k.current_thread (k.objects.mutex m).owner ≡ false =
        rw (self, owned) (ground arith) in
      let go : (timeout == 0) ≡ false = ground arith in
      let step : get (some m) timeout k ≡ (
          k.current_thread >>= λ a. (k.objects.mutex m).owner >>= λ b.
          wait a (of_mutex m) timeout (hoist m b (k.threads.thread a).priority (lock k))) =
        simp (thread, other, held, go) in
      step ∙ rw (self, owned) refl

  module _ (h : Hoisted m o (k.threads.thread t).priority (lock k) hoisted_kernel) where
    t-kept : hoisted_kernel.threads.thread t ≡ k.threads.thread t
    unfolding lock
    t-kept = h.others t (λ e. ot (sym e))

    mutex-owner : (hoisted_kernel.objects.mutex m).owner ≡ some o
    unfolding lock
    mutex-owner = ap (λ (x : Mutex). x.owner) h.mutex ∙ owned

    waiters-kept : blocked_list (of_mutex m) hoisted_kernel ≡ (k.objects.mutex m).blocked_list
    unfolding lock blocked_list
    waiters-kept = ap (λ (x : Mutex). x.blocked_list) h.mutex

    blocked-mutex :
        (k' : Kernel) (xs : List ℕ)
        → k'.objects ≡ put_blocked_list (of_mutex m) xs hoisted_kernel.objects
        → k'.objects.mutex m ≡ record (hoisted_kernel.objects.mutex m) { blocked_list = xs }
    unfolding put_blocked_list
    blocked-mutex k' xs e =
        ap (λ (x : Objects). x.mutex m) e ∙ update-same hoisted_kernel.objects.mutex m _

    Blocks-Contended :
        (k' : Kernel) → Blocks t (of_mutex m) hoisted_kernel k' → Contended m o t k k'
    unfolding lock
    Blocks-Contended k' d =
        let (xs, e) = d.objects in
        let x = blocked-mutex k' xs e in
        record {
          consistent = d.consistent;
          is_blocked = d.is_blocked;
          priority = ap (λ (x : Thread). x.priority) (d.others o ot) ∙ h.priority;
          owner = ap (λ (x : Mutex). x.owner) x ∙ mutex-owner;
          original_priority =
              ap (λ (x : Mutex). x.original_priority) x
              ∙ ap (λ (x : Mutex). x.original_priority) h.mutex;
          others = λ u no nt. d.others u nt ∙ h.others u no;
        }

  module _ (c : IsConsistent k.threads) (r : is_ready (k.threads.thread t).state ≡ true)
      (below : (is_ready (k.threads.thread o).state ≡ false)
        ⊎ (ltb (k.threads.thread o).priority (k.threads.thread t).priority ≡ false))
      (i : ℕ) (ri : has i k.threads.ready_list ≡ true) (ne : i ≢ t)
      (new : has t (k.objects.mutex m).blocked_list ≡ false)
      (safe : (timeout ≡ infinite_timeout)
        ⊎ (u32 (k.tick_count + milliseconds_to_ticks timeout) ≢ 0)) where
    -- Priority inheritance: a ready thread that gets a mutex of another holder, with a timeout,
    -- waits. On consistent lists, with another thread ready, it does not halt; the thread, which
    -- is not on the mutex's blocked list before, is blocked on the mutex; the holder keeps the
    -- mutex and has the higher one of the two priorities, and the mutex keeps the priority of the
    -- holder if that is raised for the first time; no other thread changes, and the lists stay
    -- consistent. The holder is not ready, or its priority is not below the thread's. The timeout
    -- is not 0, and the time that it ends at is not 0 modulo 2^32, which stands for no timeout.
    pub get-Contended : Waits (Contended m o t k) (get (some m) timeout k)
    unfolding lock
    get-Contended =
        let h = hoist-Hoisted m o (k.threads.thread t).priority (lock k) c below in
        let locked : (hoisted_kernel.lock_count == 0) ≡ false = ground (arith, h.lock_count) in
        let still = ap (λ (x : Thread). is_ready x.state) (t-kept h) ∙ r in
        let next = ap (has i) h.ready ∙ ri in
        let absent = ap (has t) (waiters-kept h) ∙ new in
        rw get-wait (
          Returns-Waits (block t (of_mutex m) timeout hoisted_kernel) (Contended m o t k) (
            Returns-mono (block t (of_mutex m) timeout hoisted_kernel) _ (Contended m o t k)
              (block-Blocks t (of_mutex m) timeout hoisted_kernel h.consistent still i next ne
                absent positive locked (rw h.tick_count safe))
              (Blocks-Contended h)))
