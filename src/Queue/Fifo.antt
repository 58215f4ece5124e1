-- ===== src/Queue/Fifo.antt =====
-- Sending to a queue and receiving from it, first in first out.
use argon_rtos.Prelude.{
  ℕ, ◌≡◌, ◌<◌, ◌∙◌, false, none, some, ◌>>=◌, [], ◌∷◌, ◌++◌, ◌==◌, leb, update, arith, ap,
}
use argon_rtos.Types.{success}
use argon_rtos.Kernel.{Kernel, Objects}
use argon_rtos.Kernel.Lock.{lock}
use argon_rtos.Block.{finish, Finishes, of_queue_senders, blocked_list, set_objects}
use argon_rtos.Block.Finish.{finish-Finishes, Finishes-mono, unblock_head-empty}
use argon_rtos.Queue.{
  set_queue, store, front, drop_front, notify, send_loop, send_internal, send, take_front,
  receive_loop, receive,
}
use argon_rtos.Queue.Contents.{
  IsQueue, contents, store-contents, store-IsQueue, front-some, drop_front-contents,
  drop_front-IsQueue,
}

module _ (q element timeout : ℕ) (k : Kernel) (thread : k.port.irq_state ≡ false) where
  notify-none :
      (k : Kernel)
      → (k.objects.queue q).receive_blocked_list ≡ []
      → (k.objects.queue q).run_loop ≡ none
      → notify q k ≡ some k
  unfolding notify
  notify-none k idle free = simp (idle, free)

  -- The kernel once the value is in its place.
  abbrev stored : Kernel
  stored = set_queue q (store (k.objects.memory element) (k.objects.queue q)) (lock k)

  send-run :
      (k.objects.queue q).count < (k.objects.queue q).capacity
      → (k.objects.queue q).receive_blocked_list ≡ []
      → (k.objects.queue q).run_loop ≡ none
      → send (some q) (some element) timeout k ≡ finish success stored
  unfolding send send_internal send_loop lock store
  send-run room idle free =
      let has_room : leb (k.objects.queue q).capacity (k.objects.queue q).count ≡ false =
        ground arith in
      let quiet = notify-none stored (ground arith) (ground arith) in
      simp (thread, has_room, quiet, ◌>>=◌)

  -- The kernel once the value `v` was read out.
  abbrev taken : ℕ → Kernel
  taken v =
      let o = k.objects in
      set_queue q (drop_front (o.queue q))
        (set_objects (record o { memory = update o.memory element v }) (lock k))

  receive-run :
      (v : ℕ)
      → ((k.objects.queue q).count == 0) ≡ false
      → front (k.objects.queue q) ≡ some v
      → (k.objects.queue q).send_blocked_list ≡ []
      → receive (some q) (some element) timeout k ≡ finish success (taken v)
  unfolding receive receive_loop take_front lock drop_front blocked_list
  receive-run v more e idle =
      let quiet = unblock_head-empty (of_queue_senders q) success (taken v) (ground arith) in
      simp (thread, more, e, ◌>>=◌, quiet)

  stored-queue : stored.objects.queue q ≡ store (k.objects.memory element) (k.objects.queue q)
  stored-queue = ground arith

  taken-queue : (v : ℕ) → (taken v).objects.queue q ≡ drop_front (k.objects.queue q)
  taken-queue v = ground arith

  module _ (w : IsQueue (k.objects.queue q)) where
    -- A thread that sends to a queue with room, for which no thread and no run loop waits,
    -- succeeds. The value at its element's address is behind the values that the queue holds, the
    -- queue stays well-formed, and no thread changes.
    pub send-appends :
        (k.objects.queue q).count < (k.objects.queue q).capacity
        → (k.objects.queue q).receive_blocked_list ≡ []
        → (k.objects.queue q).run_loop ≡ none
        → Finishes
            (λ s k'.
              (s ≡ success)
              × IsQueue (k'.objects.queue q)
              × (contents (k'.objects.queue q)
                  ≡ contents (k.objects.queue q) ++ (some (k.objects.memory element) ∷ []))
              × (k'.threads ≡ k.threads))
            (send (some q) (some element) timeout k)
    unfolding lock
    send-appends room idle free = rw (send-run room idle free) (
        Finishes-mono (finish success stored)
          (λ s k'. (s ≡ success) × (k'.objects ≡ stored.objects) × (k'.threads ≡ k.threads)) _
          (finish-Finishes success stored (ground arith))
          (λ s k' p.
            let e : k'.objects.queue q ≡ store (k.objects.memory element) (k.objects.queue q) =
              ap (λ (o : Objects). o.queue q) p.1 ∙ stored-queue in
            (
              p.0,
              rw e (store-IsQueue (k.objects.queue q) w (k.objects.memory element) room),
              rw e (store-contents (k.objects.queue q) w (k.objects.memory element) room),
              p.2,
            )))

    -- A thread that receives from a queue that holds a value, for which no sender waits, succeeds.
    -- The first of the values is then at its element's address, and the queue holds the others. It
    -- stays well-formed, and no thread changes.
    pub receive-takes :
        0 < (k.objects.queue q).count
        → (k.objects.queue q).send_blocked_list ≡ []
        → Finishes
            (λ s k'.
              (s ≡ success)
              × IsQueue (k'.objects.queue q)
              × (contents (k.objects.queue q)
                  ≡ some (k'.objects.memory element) ∷ contents (k'.objects.queue q))
              × (k'.threads ≡ k.threads))
            (receive (some q) (some element) timeout k)
    unfolding lock
    receive-takes more idle =
        let (v, f) = front-some (k.objects.queue q) w in
        rw (receive-run v (ground arith) f idle) (
          Finishes-mono (finish success (taken v))
            (λ s k'. (s ≡ success) × (k'.objects ≡ (taken v).objects) × (k'.threads ≡ k.threads)) _
            (finish-Finishes success (taken v) (ground arith))
            (λ s k' p.
              let e : k'.objects.queue q ≡ drop_front (k.objects.queue q) =
                ap (λ (o : Objects). o.queue q) p.1 ∙ taken-queue v in
              let at : k'.objects.memory element ≡ v =
                ap (λ (o : Objects). o.memory element) p.1 ∙ ground arith in
              (
                p.0,
                rw e (drop_front-IsQueue (k.objects.queue q) w more),
                rw (e, at, ← f) (drop_front-contents (k.objects.queue q) w more),
                p.2,
              )))
