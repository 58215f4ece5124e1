-- ===== src/Semaphore/Put.antt =====
-- `ar_semaphore_put`: with a thread that waits, and without one, followed by `ar_semaphore_get`.
use argon_rtos.Prelude.{
  ℕ, suc, ◌+◌, ◌-◌, ◌≡◌, ◌≢◌, ◌<◌, ◌^◌, refl, ◌∙◌, ap, false, some, ◌>>=◌, List, [], ◌∷◌, u32, has,
  arith, Returns, update-same,
}
use argon_rtos.Types.{success, ready, Semaphore}
use argon_rtos.Kernel.{Kernel, Objects, Threads}
use argon_rtos.Kernel.Lock.{lock}
use argon_rtos.Thread.Consistent.{IsConsistent}
use argon_rtos.Block.{
  of_semaphore, blocked_list, put_blocked_list, unblock_head, returned, finish, Finishes,
}
use argon_rtos.Block.Finish.{
  finish-Finishes, finish-run, unlocked-irq_state, unlocked-objects, Finishes-mono,
  unblock_head-empty, Returns-Finishes, unblock_head-cons,
}
use argon_rtos.Block.Unblock.{IsBlocked, Unblocked, unblock_with_status-Unblocked}
use argon_rtos.Semaphore.Get.{get-counts}
use argon_rtos.Thread.Consistent.Steps.{unlocked, unlocked-threads}
use argon_rtos.Semaphore.{set_count, set_semaphore, put, put_internal, get}
use argon_rtos.ArList.Seq

module _ (s : ℕ) (k : Kernel) (thread : k.port.irq_state ≡ false) where
  -- The count after the increment.
  abbrev counted_semaphore : Semaphore
  counted_semaphore = record (k.objects.semaphore s) {
    count = u32 ((k.objects.semaphore s).count + 1);
  }

  -- The kernel under the lock, with the count incremented.
  abbrev counted : Kernel
  counted = set_semaphore s counted_semaphore (lock k)

  put-start :
      put (some s) k ≡ (unblock_head (of_semaphore s) success counted >>= λ k. finish success k)
  unfolding put put_internal set_count lock
  put-start = simp thread

  counted-same : counted.objects.semaphore s ≡ counted_semaphore
  unfolding lock
  counted-same = update-same k.objects.semaphore s counted_semaphore

  counted-list : blocked_list (of_semaphore s) counted ≡ (k.objects.semaphore s).blocked_list
  unfolding blocked_list
  counted-list = ap (λ (x : Semaphore). x.blocked_list) counted-same

  module _ (t : ℕ) (ts : List ℕ) (e : (k.objects.semaphore s).blocked_list ≡ t ∷ ts)
      (c : IsConsistent k.threads) (i : IsBlocked t (of_semaphore s) k) where
    counted-IsBlocked : IsBlocked t (of_semaphore s) counted
    unfolding lock
    counted-IsBlocked = record {
      state = i.state;
      listed = ap (has t) (counted-list ∙ e) ∙ ground arith;
      timeout = i.timeout;
    }

    -- What is left once the head was unblocked: the count has grown by one.
    count_after :
        (k' : Kernel)
        → Unblocked t (of_semaphore s) success counted k'
        → (k'.objects.semaphore s).count ≡ u32 ((k.objects.semaphore s).count + 1)
    unfolding put_blocked_list
    count_after k' u =
        ap (λ (o : Objects). (o.semaphore s).count) u.objects
        ∙ (ap (λ (x : Semaphore). x.count) (update-same counted.objects.semaphore s _)
            ∙ ap (λ (x : Semaphore). x.count) counted-same)

    -- A thread that puts a semaphore on which threads wait succeeds. On consistent lists the first
    -- of the waiting threads becomes ready, with the status success, and leaves the blocked list,
    -- the count grows by one, modulo 2^32, and no other thread changes.
    pub put-wakes_head :
        Finishes
          (λ r k'.
            (r ≡ success)
            × IsConsistent k'.threads
            × ((k'.threads.thread t).state ≡ ready)
            × ((k'.threads.thread t).unblock_status ≡ success)
            × ((u : ℕ) → u ≢ t → k'.threads.thread u ≡ k.threads.thread u)
            × ((k'.objects.semaphore s).count ≡ u32 ((k.objects.semaphore s).count + 1))
            × ((k'.objects.semaphore s).blocked_list ≡ Seq.remove t (t ∷ ts)))
          (put (some s) k)
    unfolding lock blocked_list
    put-wakes_head =
        let step : Returns (Unblocked t (of_semaphore s) success counted)
            (unblock_head (of_semaphore s) success counted) =
          rw (unblock_head-cons (of_semaphore s) success counted t ts (counted-list ∙ e)) (
            unblock_with_status-Unblocked t (of_semaphore s) success counted c counted-IsBlocked) in
        rw put-start (
          Returns-Finishes (unblock_head (of_semaphore s) success counted) (finish success)
            (Unblocked t (of_semaphore s) success counted) _ step
            (λ m u.
              Finishes-mono (finish success m)
                (λ r k'. (r ≡ success) × (k'.objects ≡ m.objects) × (k'.threads ≡ m.threads)) _
                (finish-Finishes success m (ground (arith, u.lock_count)))
                (λ r k' p. (
                  p.0,
                  rw p.2 u.consistent,
                  ap (λ (l : Threads). (l.thread t).state) p.2 ∙ u.state,
                  ap (λ (l : Threads). (l.thread t).unblock_status) p.2 ∙ u.unblock_status,
                  λ v n. ap (λ (l : Threads). l.thread v) p.2 ∙ u.others v n,
                  ap (λ (o : Objects). (o.semaphore s).count) p.1 ∙ count_after m u,
                  ap (λ (o : Objects). (o.semaphore s).blocked_list) p.1
                      ∙ (u.unlisted ∙ ap (Seq.remove t) (counted-list ∙ e)),
                ))))

  unlocked-semaphore : (unlocked counted).objects.semaphore s ≡ counted_semaphore
  unlocked-semaphore = ap (λ (o : Objects). o.semaphore s) (unlocked-objects counted) ∙ counted-same

  put-run :
      (k.objects.semaphore s).blocked_list ≡ []
      → put (some s) k ≡ some (returned success (unlocked counted))
  unfolding lock
  put-run idle =
      rw
        (
          put-start,
          unblock_head-empty (of_semaphore s) success counted (counted-list ∙ idle),
          ◌>>=◌,
        )
        (finish-run success counted (ground arith))

  -- A thread that puts a semaphore, for which no thread waits, and then gets it succeeds twice,
  -- whatever its timeout is, and leaves the semaphore and the threads as they were. The count must
  -- not be the highest of 32 bits.
  pub put-get :
      (timeout : ℕ)
      → (k.objects.semaphore s).blocked_list ≡ []
      → suc (k.objects.semaphore s).count < 2 ^ 32
      → Finishes
          (λ r k'.
            (r ≡ success)
            × Finishes
                (λ r' k''.
                  (r' ≡ success)
                  × (k''.objects.semaphore s ≡ k.objects.semaphore s)
                  × (k''.threads ≡ k.threads))
                (get (some s) timeout k'))
          (put (some s) k)
  unfolding lock
  put-get timeout idle word =
      let m = unlocked counted in
      let n : (m.objects.semaphore s).count ≡ suc (k.objects.semaphore s).count =
        ap (λ (x : Semaphore). x.count) unlocked-semaphore ∙ omega (arith, word) in
      let back : (m.objects.semaphore s).count - 1 ≡ (k.objects.semaphore s).count =
        omega (arith, n) in
      rw (put-run idle) (
        refl,
        Finishes-mono (get (some s) timeout m) _ _
            (get-counts s timeout m (unlocked-irq_state counted ∙ thread) (omega (arith, n)))
            (λ r' k'' p. (
              p.0,
              p.1
                  ∙ (ap (λ (x : Semaphore). record x { count = (m.objects.semaphore s).count - 1 })
                        unlocked-semaphore
                      ∙ ap (λ i. record (k.objects.semaphore s) { count = i }) back),
              p.2 ∙ unlocked-threads counted,
            )),
      )
