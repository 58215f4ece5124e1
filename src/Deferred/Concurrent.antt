-- ===== src/Deferred/Concurrent.antt =====
-- ar_kernel_atomic_queue_insert of src/ar_kernel.cpp run by several callers at once, which interrupt
-- one another between any two of its accesses to the queue.
pub mod Slots
pub mod Steps
pub mod Schedule
use argon_rtos.Prelude.{
  ℕ, zero, suc, ◌+◌, ◌%◌, ◌^◌, Bool, true, false, List, [], ◌∷◌, ◌==◌, ltb, if◌then◌else◌,
}

-- `qCount` and `qTail`.
pub record Shared : Type 0 where
  pub count : ℕ
  pub tail : ℕ

-- Where a caller is that inserts some entries: in front of the first loop; behind the test, with the
-- count that it has read; between the loops; with the tail that it has read; behind the second loop,
-- with the index that it returns; and behind the return of -1.
pub data Caller : Type 0 where
  starts : (entries : ℕ) → Caller
  has_count : (entries count : ℕ) → Caller
  counted : (entries : ℕ) → Caller
  has_tail : (entries last : ℕ) → Caller
  returned : (entries index : ℕ) → Caller
  refused : (entries : ℕ) → Caller

-- The next access of a caller. A compare and swap that fails starts its loop again.
unfoldable pub access : (size : ℕ) → Shared → Caller → Shared × Caller
access size s (starts n) =
    if ltb size (s.count + n) then (s, refused n) else (s, has_count n s.count)
access size s (has_count n count) =
    if s.count == count
    then (record { count = count + n; tail = s.tail }, counted n)
    else (s, starts n)
access size s (counted n) = (s, has_tail n s.tail)
access size s (has_tail n last) =
    if s.tail == last
    then (record { count = s.count; tail = (last + n) % size }, returned n last)
    else (s, counted n)
access size s (returned n index) = (s, returned n index)
access size s (refused n) = (s, refused n)

-- The caller at index `i` makes its next access.
unfoldable pub access_at : (size i : ℕ) → Shared → List Caller → Shared × List Caller
access_at size i s [] = (s, [])
access_at size zero s (c ∷ cs) = let (s, c) = access size s c in (s, c ∷ cs)
access_at size (suc i) s (c ∷ cs) = let (s, cs) = access_at size i s cs in (s, c ∷ cs)

-- A schedule: which caller makes the next access, for each one.
unfoldable pub run_callers : (size : ℕ) → List ℕ → Shared → List Caller → Shared × List Caller
run_callers size [] s cs = (s, cs)
run_callers size (i ∷ is) s cs = let (s, cs) = access_at size i s cs in run_callers size is s cs
