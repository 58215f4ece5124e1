-- ===== src/Block/Empty.antt =====
-- The loop that unblocks all threads of an object when it is deleted.
use argon_rtos.Prelude.{
  ℕ, zero, suc, ◌≡◌, ◌≢◌, ◌<◌, refl, ◌∙◌, ap, true, false, List, [], ◌∷◌, has, length, Distinct,
  ◌⊎◌, inl, inr, Bool-cases, arith, Returns, Returns-bind, Returns-mono,
}
use argon_rtos.Types.{Status, ready}
use argon_rtos.Kernel.{Kernel}
use argon_rtos.Thread.Consistent.{IsConsistent}
use argon_rtos.Block.{BlockedList, blocked_list, unblock_with_status, unblock_from, unblock_all}
use argon_rtos.Block.Unblock.{IsBlocked, Unblocked, unblock_with_status-Unblocked}
use argon_rtos.ArList.Seq
use argon_rtos.ArList.Seq.Order.{remove_not_mem}

remove-head : (t : ℕ) (ts : List ℕ) → has t ts ≡ false → Seq.remove t (t ∷ ts) ≡ ts
unfolding Seq.remove
remove-head t ts n = ground (arith, remove_not_mem t ts n)

apart : (t v : ℕ) (ts : List ℕ) → has t ts ≡ false → has v ts ≡ true → v ≢ t
apart t v ts n m e = cc

-- A thread of a list is the head or one of the others.
head-or-rest : (t v : ℕ) (ts : List ℕ) → has v (t ∷ ts) ≡ true → (has v ts ≡ true) ⊎ (v ≡ t)
head-or-rest t v ts m = elim (Bool-cases (has v ts)) [ inl e ↦ inl e | inr e ↦ inr (ground arith) ]

-- All threads of the list are blocked on the object.
pub record AreBlocked (ts : List ℕ) (b : BlockedList) (k : Kernel) : Type 0 where
  pub listed : blocked_list b k ≡ ts
  pub distinct : Distinct ts
  pub each : (t : ℕ) → has t ts ≡ true → IsBlocked t b k

-- What unblocking all of them leaves: each is ready with the status, no other thread has changed,
-- and nobody is on the list of the object.
pub record Emptied (ts : List ℕ) (b : BlockedList) (status : Status) (k k' : Kernel) : Type 0 where
  pub consistent : IsConsistent k'.threads
  pub empty : blocked_list b k' ≡ []
  pub woken : (t : ℕ) → has t ts ≡ true → (k'.threads.thread t).state ≡ ready
  pub unblock_status : (t : ℕ) → has t ts ≡ true → (k'.threads.thread t).unblock_status ≡ status
  pub others : (u : ℕ) → has u ts ≡ false → k'.threads.thread u ≡ k.threads.thread u

module _ (b : BlockedList) (status : Status) where
  -- The others stay blocked when the first thread is unblocked.
  rest-AreBlocked :
      (t : ℕ) (ts : List ℕ) (k k' : Kernel)
      → AreBlocked (t ∷ ts) b k
      → Unblocked t b status k k'
      → AreBlocked ts b k'
  rest-AreBlocked t ts k k' a u =
      let list : blocked_list b k' ≡ ts =
        u.unlisted ∙ (ap (Seq.remove t) a.listed ∙ remove-head t ts a.distinct.0) in
      record {
        listed = list;
        distinct = a.distinct.1;
        each = λ v m.
            let n : v ≢ t = apart t v ts a.distinct.0 m in
            let i = a.each v (ground arith) in
            record {
              state = rw (u.others v n) i.state;
              listed = rw list m;
              timeout = rw (u.others v n) (u.sleeping v n ∙ i.timeout);
            };
      }

  Unblocked-Emptied :
      (t : ℕ) (ts : List ℕ) (k k' k'' : Kernel)
      → Distinct (t ∷ ts)
      → Unblocked t b status k k'
      → Emptied ts b status k' k''
      → Emptied (t ∷ ts) b status k k''
  Unblocked-Emptied t ts k k' k'' d u e = record {
    consistent = e.consistent;
    empty = e.empty;
    woken = λ v m. elim (head-or-rest t v ts m) [
      | inl r ↦ e.woken v r
      | inr h ↦ rw (h, e.others t d.0) u.state
    ];
    unblock_status = λ v m. elim (head-or-rest t v ts m) [
      | inl r ↦ e.unblock_status v r
      | inr h ↦ rw (h, e.others t d.0) u.unblock_status
    ];
    others = λ v n. e.others v (ground arith) ∙ u.others v (λ h. ground arith);
  }

  unblock_from-Emptied :
      (fuel : ℕ) (ts : List ℕ) (k : Kernel)
      → length ts < fuel
      → IsConsistent k.threads
      → AreBlocked ts b k
      → Returns (Emptied ts b status k) (unblock_from fuel b status k)
  unfolding unblock_from
  unblock_from-Emptied zero ts k l c a = absurd (omega (arith, l))
  unblock_from-Emptied (suc fuel) [] k l c a =
      rw (unblock_from, a.listed)
        (record {
          consistent = c;
          empty = a.listed;
          woken = λ t m. cc;
          unblock_status = λ t m. cc;
          others = λ u n. refl;
        })
  unblock_from-Emptied (suc fuel) (t ∷ ts) k l c a =
      rw (unblock_from, a.listed)
        (Returns-bind (unblock_with_status t b status k) _ (Unblocked t b status k) _
          (unblock_with_status-Unblocked t b status k c (a.each t (ground arith)))
          (λ k' u.
            Returns-mono (unblock_from fuel b status k') (Emptied ts b status k') _
              (unblock_from-Emptied fuel ts k' (omega (arith, l)) u.consistent
                (rest-AreBlocked t ts k k' a u))
              (λ k'' e. Unblocked-Emptied t ts k k' k'' a.distinct u e)))

  -- Unblocking all threads that are blocked on an object comes to an end and does not halt on
  -- consistent lists: the object's list is empty, every thread that was on it is ready with the
  -- status, no other thread changes, and the lists stay consistent.
  pub unblock_all-Emptied :
      (ts : List ℕ) (k : Kernel)
      → IsConsistent k.threads
      → AreBlocked ts b k
      → Returns (Emptied ts b status k) (unblock_all b status k)
  unfolding unblock_all
  unblock_all-Emptied ts k c a =
      unblock_from-Emptied (suc (length (blocked_list b k))) ts k (rw a.listed (omega arith)) c a
