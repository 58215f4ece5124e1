-- ===== src/Deferred/Concurrent/Schedule.antt =====
-- Any schedule of callers of ar_kernel_atomic_queue_insert.
use argon_rtos.Prelude.{
  ℕ, zero, suc, ◌+◌, ◌%◌, ◌≤◌, ◌<◌, ◌≡◌, ◌∙◌, refl, sym, ap, subst, List, [], ◌∷◌, ◌++◌, ◌==◌, ltb,
  All, arith, Bool-cases, inl, inr,
}
use mathlib.Core.List.{append_assoc}
use native.Mathlib.Nat.{mod-eq_of_lt}
use argon_rtos.Deferred.Concurrent.{
  Shared, Caller, starts, has_count, counted, has_tail, returned, refused, access, access_at,
  run_callers,
}
use argon_rtos.Deferred.Concurrent.Slots.{
  reserved, taken, total, Apart, AllApart, Within, Tested, IsSound, All-middle,
}
use argon_rtos.Deferred.Concurrent.Steps.{stay-IsSound, return-IsSound}

access-IsSound :
    (size f t : ℕ) (s : Shared) (xs ys : List Caller) (c : Caller)
    → IsSound size f t s (xs ++ (c ∷ ys))
    → IsSound size f t (access size s c).0 (xs ++ ((access size s c).1 ∷ ys))
unfolding access reserved taken Tested
access-IsSound size f t s xs ys (starts n) i = elim (Bool-cases (ltb size (s.count + n))) [
  | inl full ↦
      rw full
        (stay-IsSound size f t s xs ys (starts n) i s (refused n) refl refl refl refl i.room tt)
  | inr room ↦ rw room (
      stay-IsSound size f t s xs ys (starts n) i s (has_count n s.count) refl refl refl refl i.room
        (ground arith))
]
access-IsSound size f t s xs ys (has_count n m) i = elim (Bool-cases (s.count == m)) [
  | inl same ↦
      let tested = (All-middle (Tested size) xs ys (has_count n m) i.tested).1 in
      let e : s.count ≡ m = ground arith in
      rw same (
        stay-IsSound size f t s xs ys (has_count n m) i (record { count = m + n; tail = s.tail })
          (counted n) refl refl refl (omega arith) tested tt)
  | inr other ↦
      rw other
        (stay-IsSound size f t s xs ys (has_count n m) i s (starts n) refl refl refl refl i.room tt)
]
access-IsSound size f t s xs ys (counted n) i =
    stay-IsSound size f t s xs ys (counted n) i s (has_tail n s.tail) refl refl refl refl i.room tt
access-IsSound size f t s xs ys (has_tail n l) i = elim (Bool-cases (s.tail == l)) [
  | inl same ↦
      let e : s.tail ≡ l = ground arith in
      let j = subst (λ l. IsSound size f t s (xs ++ (has_tail n l ∷ ys))) (sym e) i in
      rw same (
        subst
          (λ l.
            IsSound size f t (record { count = s.count; tail = (l + n) % size })
              (xs ++ (returned n l ∷ ys)))
          e (return-IsSound size f t n s xs ys j))
  | inr other ↦
      rw other
        (stay-IsSound size f t s xs ys (has_tail n l) i s (counted n) refl refl refl refl i.room tt)
]
access-IsSound size f t s xs ys (returned n j) i = i
access-IsSound size f t s xs ys (refused n) i = i

access_at-IsSound :
    (size f t i : ℕ) (s : Shared) (xs cs : List Caller)
    → IsSound size f t s (xs ++ cs)
    → IsSound size f t (access_at size i s cs).0 (xs ++ (access_at size i s cs).1)
unfolding access_at
access_at-IsSound size f t i s xs [] w = w
access_at-IsSound size f t zero s xs (c ∷ cs) w = access-IsSound size f t s xs cs c w
access_at-IsSound size f t (suc i) s xs (c ∷ cs) w =
    let a = subst (IsSound size f t s) (sym (append_assoc xs (c ∷ []) cs)) w in
    subst (IsSound size f t (access_at size i s cs).0)
      (append_assoc xs (c ∷ []) (access_at size i s cs).1)
      (access_at-IsSound size f t i s (xs ++ (c ∷ [])) cs a)

run_callers-IsSound :
    (size f t : ℕ) (schedule : List ℕ) (s : Shared) (cs : List Caller)
    → IsSound size f t s cs
    → IsSound size f t (run_callers size schedule s cs).0 (run_callers size schedule s cs).1
unfolding run_callers
run_callers-IsSound size f t [] s cs w = w
run_callers-IsSound size f t (i ∷ schedule) s cs w =
    run_callers-IsSound size f t schedule (access_at size i s cs).0 (access_at size i s cs).1
      (access_at-IsSound size f t i s [] cs w)

-- Callers that are about to insert numbers of entries.
unfoldable pub callers : List ℕ → List Caller
callers [] = []
callers (n ∷ ns) = starts n ∷ callers ns

total-callers :
    (f : Caller → ℕ) (ns : List ℕ) → ((n : ℕ) → f (starts n) ≡ 0) → total f (callers ns) ≡ 0
unfolding total callers
total-callers f [] h = refl
total-callers f (n ∷ ns) h = omega (arith, h n, total-callers f ns h)

all-callers : (P : Caller → Type 0) (ns : List ℕ) → ((n : ℕ) → P (starts n)) → All P (callers ns)
unfolding callers
all-callers P [] h = tt
all-callers P (n ∷ ns) h = (h n, all-callers P ns h)

reserved-starts : (n : ℕ) → reserved (starts n) ≡ 0
unfolding reserved
reserved-starts n = refl

taken-starts : (n : ℕ) → taken (starts n) ≡ 0
unfolding taken
taken-starts n = refl

Tested-starts : (size n : ℕ) → Tested size (starts n)
unfolding Tested
Tested-starts size n = tt

Within-starts : (size t m n : ℕ) → Within size t m (starts n)
unfolding Within
Within-starts size t m n = tt

callers-AllApart : (size : ℕ) (ns : List ℕ) → AllApart size (callers ns)
unfolding AllApart callers Apart
callers-AllApart size [] = tt
callers-AllApart size (n ∷ ns) =
    (all-callers (λ d. Apart size (starts n) d) ns (λ m. tt), callers-AllApart size ns)

callers-IsSound :
    (size : ℕ) (s : Shared) (ns : List ℕ)
    → s.count ≤ size
    → s.tail < size
    → IsSound size s.count s.tail s (callers ns)
callers-IsSound size s ns room inside =
    let none_reserved = total-callers reserved ns (reserved-starts) in
    let none_taken = total-callers taken ns taken-starts in
    record {
      count = omega (arith, none_reserved);
      room = room;
      tail = sym (
          ap (λ n. (s.tail + n) % size) none_taken
          ∙ (ap (λ n. n % size) (omega arith) ∙ mod-eq_of_lt inside));
      tested = all-callers (Tested size) ns (λ n. Tested-starts size n);
      within =
          all-callers (Within size s.tail (total taken (callers ns))) ns
            (λ n. Within-starts size s.tail (total taken (callers ns)) n);
      apart = callers-AllApart size ns;
    }

-- Any number of callers that insert entries into a queue at once, in any interleaving of their
-- accesses: no two of those that have returned have a place of the queue in common, and the count is
-- that of the entries that were there and those that are added, and never above the size.
pub run_callers-AllApart :
    (size : ℕ) (schedule ns : List ℕ) (s : Shared)
    → s.count ≤ size
    → s.tail < size
    → let (s', cs) = run_callers size schedule s (callers ns) in
      AllApart size cs × (s'.count ≡ s.count + total reserved cs) × (s'.count ≤ size)
run_callers-AllApart size schedule ns s room inside =
    let w =
      run_callers-IsSound size s.count s.tail schedule s (callers ns)
        (callers-IsSound size s ns room inside) in
    (w.apart, w.count, w.room)
