-- ===== src/Block/Unblock.antt =====
-- What `unblockWithStatus` does to a blocked thread.
use argon_rtos.Prelude.{
  ℕ, ◌≡◌, ◌≢◌, refl, ◌∙◌, ap, Bool, true, false, not, some, ◌>>=◌, List, [], ◌∷◌, ◌==◌,
  if◌then◌else◌, has, arith, Returns, Bool-cases, inl, inr,
}
use argon_rtos.Types.{Status, Thread, blocked, ready}
use argon_rtos.Kernel.{Kernel, Threads, Objects}
use argon_rtos.Kernel.Lists.{set_state, set_unblock_status, sort_by_priority, sleeping_remove}
use argon_rtos.Thread.{set_threads, request_reschedule}
use argon_rtos.Thread.Consistent.{IsConsistent, IsOff}
use argon_rtos.Thread.Consistent.Moves.{
  drop_sleeping, put_ready, drop_sleeping-IsOff, IsConsistent-IsOff,
}
use argon_rtos.Thread.Consistent.Puts.{with_thread-IsOff, sleeping_remove-drop}
use argon_rtos.Thread.Consistent.Steps.{head-add, round_robin_updated, update_round_robin-ok}
use argon_rtos.Thread.Consistent.Ops.{make_ready-ok, make_ready-IsConsistent}
use argon_rtos.Block.{
  BlockedList, of_semaphore, of_mutex, of_senders, of_receivers, of_queue_senders,
  of_queue_receivers, blocked_list, set_blocked_list, put_blocked_list, blocked_remove, has_timeout,
  is_empty, unblock_with_status,
}
use argon_rtos.ArList.Seq
use argon_rtos.ArList.Seq.Order.{has-remove}

pub blocked_list-objects :
    (b : BlockedList) (k k' : Kernel)
    → k'.objects ≡ k.objects
    → blocked_list b k' ≡ blocked_list b k
unfolding blocked_list
blocked_list-objects (of_semaphore s) k k' e = ap (λ (o : Objects). (o.semaphore s).blocked_list) e
blocked_list-objects (of_mutex m) k k' e = ap (λ (o : Objects). (o.mutex m).blocked_list) e
blocked_list-objects (of_senders c) k k' e = ap (λ (o : Objects). (o.channel c).blocked_senders) e
blocked_list-objects (of_receivers c) k k' e =
    ap (λ (o : Objects). (o.channel c).blocked_receivers) e
blocked_list-objects (of_queue_senders q) k k' e =
    ap (λ (o : Objects). (o.queue q).send_blocked_list) e
blocked_list-objects (of_queue_receivers q) k k' e =
    ap (λ (o : Objects). (o.queue q).receive_blocked_list) e

pub set_blocked_list-get :
    (b : BlockedList) (xs : List ℕ) (k : Kernel) → blocked_list b (set_blocked_list b xs k) ≡ xs
unfolding blocked_list set_blocked_list put_blocked_list
set_blocked_list-get (of_semaphore s) xs k = ground arith
set_blocked_list-get (of_mutex m) xs k = ground arith
set_blocked_list-get (of_senders c) xs k = ground arith
set_blocked_list-get (of_receivers c) xs k = ground arith
set_blocked_list-get (of_queue_senders q) xs k = ground arith
set_blocked_list-get (of_queue_receivers q) xs k = ground arith

-- Thread `t` is blocked on an object: it is on its blocked list, and on the sleeping list if and
-- only if it has a wakeup time.
pub record IsBlocked (t : ℕ) (b : BlockedList) (k : Kernel) : Type 0 where
  pub state : (k.threads.thread t).state ≡ blocked
  pub listed : has t (blocked_list b k) ≡ true
  pub timeout : has t k.threads.sleeping_list ≡ not ((k.threads.thread t).wakeup_time == 0)

-- What unblocking leaves: the thread is ready with the status, off the blocked list, whose other
-- threads keep their order, and no other thread has changed.
pub record Unblocked (t : ℕ) (b : BlockedList) (status : Status) (k k' : Kernel) : Type 0 where
  pub consistent : IsConsistent k'.threads
  pub state : (k'.threads.thread t).state ≡ ready
  pub unblock_status : (k'.threads.thread t).unblock_status ≡ status
  pub others : (u : ℕ) → u ≢ t → k'.threads.thread u ≡ k.threads.thread u
  pub sleeping : (u : ℕ) → u ≢ t → has u k'.threads.sleeping_list ≡ has u k.threads.sleeping_list
  pub unlisted : blocked_list b k' ≡ Seq.remove t (blocked_list b k)
  pub objects : k'.objects ≡ put_blocked_list b (Seq.remove t (blocked_list b k)) k.objects
  pub lock_count : k'.lock_count ≡ k.lock_count

has-head : (t : ℕ) (xs : List ℕ) → has t xs ≡ true → is_empty xs ≡ false
has-head t [] m = cc
has-head t (x ∷ xs) m = refl

module _ (t : ℕ) (b : BlockedList) (status : Status) (k : Kernel) where
  -- The first step: the thread leaves the sleeping list, if it is there.
  leave_sleeping :
      IsConsistent k.threads
      → IsBlocked t b k
      → (l : Threads) × ((if has_timeout t k.threads
            then sleeping_remove t k.threads
            else some k.threads)
          ≡ some l)
        × IsOff t l
        × (l.thread ≡ k.threads.thread)
        × ((u : ℕ) → u ≢ t → has u l.sleeping_list ≡ has u k.threads.sleeping_list)
  unfolding has_timeout
  leave_sleeping c i = elim (Bool-cases (has t k.threads.sleeping_list)) [
    | inl m ↦
        let timed : has_timeout t k.threads ≡ true =
          ground (arith, i.timeout, has-head t k.threads.sleeping_list m) in
        (
          drop_sleeping t k.threads,
          rw timed (sleeping_remove-drop t k.threads m),
          drop_sleeping-IsOff t k.threads c m,
          refl,
          λ u n. ground (arith, has-remove u t k.threads.sleeping_list),
        )
    | inr m ↦
        let untimed : has_timeout t k.threads ≡ false = ground (arith, i.timeout) in
        (
          k.threads,
          rw untimed refl,
          IsConsistent-IsOff t k.threads c (ground (arith, i.state)) (ground (arith, i.state)) m,
          refl,
          λ u n. refl,
        )
  ]

  -- The kernel that is left, from the lists without the thread on.
  abbrev unlisted_kernel : Threads → Kernel
  unlisted_kernel l = set_blocked_list b (Seq.remove t (blocked_list b k)) (set_threads l k)

  abbrev readied : Threads → Threads
  readied l = put_ready t (set_state t ready (set_unblock_status t status l))

  unlisted_kernel-objects :
      (l : Threads)
      → (unlisted_kernel l).objects ≡ put_blocked_list b (Seq.remove t (blocked_list b k)) k.objects
  unfolding set_blocked_list
  unlisted_kernel-objects l = refl

  left-Unblocked :
      (l : Threads)
      → IsOff t l
      → l.thread ≡ k.threads.thread
      → ((u : ℕ) → u ≢ t → has u l.sleeping_list ≡ has u k.threads.sleeping_list)
      → Unblocked t b status k (round_robin_updated (set_threads (readied l) (unlisted_kernel l)))
  unfolding round_robin_updated set_state set_unblock_status set_blocked_list
  left-Unblocked l o same asleep =
      let m = set_threads (readied l) (unlisted_kernel l) in
      let x = record (l.thread t) { unblock_status = status } in
      record {
        consistent =
            make_ready-IsConsistent t (set_unblock_status t status l) (with_thread-IsOff t x l o);
        state = ground arith;
        unblock_status = ground arith;
        others = λ u n. ground (arith, ap (λ (f : ℕ → Thread). f u) same);
        sleeping = asleep;
        unlisted =
            blocked_list-objects b (unlisted_kernel l) (round_robin_updated m) refl
            ∙ set_blocked_list-get b (Seq.remove t (blocked_list b k)) (set_threads l k);
        objects = refl;
        lock_count = refl;
      }

  requested-Unblocked :
      (r : Bool) (m : Kernel)
      → Unblocked t b status k m
      → Unblocked t b status k (request_reschedule r m)
  requested-Unblocked false m u = u
  requested-Unblocked true m u = record {
    consistent = u.consistent;
    state = u.state;
    unblock_status = u.unblock_status;
    others = u.others;
    sleeping = u.sleeping;
    unlisted = blocked_list-objects b m (record m { needs_reschedule = true }) refl ∙ u.unlisted;
    objects = u.objects;
    lock_count = u.lock_count;
  }

  blocked_remove-run :
      (l : Threads)
      → has t (blocked_list b k) ≡ true
      → blocked_remove b t (set_threads l k) ≡ some (unlisted_kernel l)
  unfolding blocked_remove
  blocked_remove-run l m =
      let same : blocked_list b (set_threads l k) ≡ blocked_list b k =
        blocked_list-objects b k (set_threads l k) refl in
      rw (same, m) refl

  module _ (c : IsConsistent k.threads) (i : IsBlocked t b k) where
    -- Unblocking a thread that is blocked on an object, on consistent lists, never halts. The lists
    -- stay consistent; the thread is ready, with the status, and off the blocked list, whose other
    -- threads keep their order. No other thread changes.
    pub unblock_with_status-Unblocked :
        Returns (Unblocked t b status k) (unblock_with_status t b status k)
    unfolding unblock_with_status set_unblock_status set_blocked_list
    unblock_with_status-Unblocked =
        let (l, e, o, same, asleep) = leave_sleeping c i in
        let x = record (l.thread t) { unblock_status = status } in
        let ready_now =
          make_ready-ok t (set_unblock_status t status l) (with_thread-IsOff t x l o) in
        let m = set_threads (readied l) (unlisted_kernel l) in
        let s = set_state t ready (set_unblock_status t status l) in
        let (h, eh) = head-add (sort_by_priority s.thread) t s.ready_list in
        rw
          (
            i.state,
            ◌>>=◌,
            e,
            ◌>>=◌,
            blocked_remove-run l i.listed,
            ◌>>=◌,
            ready_now,
            ◌>>=◌,
            update_round_robin-ok m h eh,
            ◌>>=◌,
          )
          (requested-Unblocked _ (round_robin_updated m) (left-Unblocked l o same asleep))
