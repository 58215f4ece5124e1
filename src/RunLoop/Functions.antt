-- ===== src/RunLoop/Functions.antt =====
-- The queue of functions of a run loop: ar_runloop_perform and the part of ar_runloop_run that runs
-- one function.
use argon_rtos.Prelude.{
  ℕ, suc, ◌+◌, ◌%◌, ◌≡◌, ◌≤◌, ◌<◌, ◌∙◌, refl, sym, ap, subst, false, Option, some, List, [], ◌∷◌,
  ◌++◌, ltb, set, length, length-set, arith, Returns, Returns-bind,
}
use argon_rtos.Types.{success, FunctionInfo, RunLoop}
use argon_rtos.Kernel.{Kernel, Objects}
use argon_rtos.Deferred.{atomic_queue_insert}
use argon_rtos.Ring.{behind, values, values-set, next-behind}
use argon_rtos.Thread.Consistent.{IsConsistent}
use argon_rtos.RunLoop.{function_queue_size, set_run_loop, add_function, perform, wake_run_loop}
use argon_rtos.RunLoop.Wake.{Woke, wake_run_loop-Woke}

abbrev next : ℕ → ℕ
next i = (i + 1) % function_queue_size

step : (i : ℕ) → i < function_queue_size → next i ≡ behind function_queue_size i 1
step i l = ground arith

-- The functions of a run loop, first in first out.
abbrev pub functions : RunLoop → List (Option FunctionInfo)
functions x =
    values (λ i. (i + 1) % function_queue_size) x.functions x.function_head x.function_count

-- The queue has its size, the indices are inside, and the tail is behind the functions.
pub record IsFunctions (x : RunLoop) : Type 0 where
  pub storage : length x.functions ≡ function_queue_size
  pub head : x.function_head < function_queue_size
  pub count : x.function_count ≤ function_queue_size
  pub tail : x.function_tail ≡ behind function_queue_size x.function_head x.function_count

module _ (fn : FunctionInfo) (x : RunLoop) (w : IsFunctions x) where
  -- The run loop with a function more.
  abbrev queued : RunLoop
  queued = record x {
    functions = set x.functions x.function_tail fn;
    function_count = suc x.function_count;
    function_tail = next x.function_tail;
  }

  add_function-run : x.function_count < function_queue_size → add_function fn x ≡ some queued
  unfolding add_function atomic_queue_insert
  add_function-run room =
      let up : x.function_count + 1 ≡ suc x.function_count = omega arith in
      let fits : ltb function_queue_size (suc x.function_count) ≡ false = ground arith in
      simp (up, fits)

  queued-functions :
      x.function_count < function_queue_size → functions queued ≡ functions x ++ (some fn ∷ [])
  queued-functions room =
      ap (λ j. values next (set x.functions j fn) x.function_head (suc x.function_count)) w.tail
      ∙ values-set function_queue_size next step fn x.functions x.function_head x.function_count
          w.storage w.head room

  queued-IsFunctions : x.function_count < function_queue_size → IsFunctions queued
  queued-IsFunctions room = record {
    storage = length-set x.functions x.function_tail fn ∙ w.storage;
    head = w.head;
    count = room;
    tail =
        ap next w.tail
        ∙ next-behind function_queue_size next step x.function_head x.function_count w.head room;
  }

-- What a function's post leaves of the run loop.
pub record Queued (fn : FunctionInfo) (x y : RunLoop) : Type 0 where
  pub functions : functions y ≡ functions x ++ (some fn ∷ [])
  pub well_formed : IsFunctions y

module _ (r f param : ℕ) (k : Kernel) (w : IsFunctions (k.objects.run_loop r))
    (c : IsConsistent k.threads) (thread : k.port.irq_state ≡ false) where
  abbrev posted : FunctionInfo
  posted = record { function = some f; param = param }

  -- A thread that posts a function to a run loop whose queue has room succeeds and does not halt: the
  -- function with its parameter is behind those of the queue, in their order, and the queue and the
  -- lists of the threads stay well formed.
  pub perform-appends :
      (k.objects.run_loop r).function_count < function_queue_size
      → Returns
          (λ a.
            (a.0 ≡ success)
            × Queued posted (k.objects.run_loop r) (a.1.objects.run_loop r)
            × IsConsistent a.1.threads)
          (perform (some r) (some f) param k)
  unfolding perform
  perform-appends room =
      let x = k.objects.run_loop r in
      let y = queued posted x w in
      rw (perform, add_function-run posted x w room)
        (Returns-bind (wake_run_loop r (set_run_loop r y k)) _ (Woke (set_run_loop r y k)) _
          (wake_run_loop-Woke (set_run_loop r y k) c thread r)
          (λ k' q.
            let same : k'.objects.run_loop r ≡ y =
              ap (λ (o : Objects). o.run_loop r) q.1.1 ∙ ground arith in
            (
              refl,
              subst (Queued posted x) (sym same) (record {
                functions = queued-functions posted x w room;
                well_formed = queued-IsFunctions posted x w room;
              }),
              q.0,
            )))
