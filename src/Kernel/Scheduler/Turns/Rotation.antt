-- ===== src/Kernel/Scheduler/Turns/Rotation.antt =====
-- Every thread of the highest priority gets its turn from ar_kernel_scheduler.
use argon_rtos.Prelude.{
  ℕ, ◌<◌, ◌≡◌, refl, ◌∙◌, sym, ap, ap₂, subst, true, false, Option, some, List, [], ◌∷◌, ◌++◌, ◌==◌,
  if◌then◌else◌, has, has-append, Distinct, All, arith, Bool-cases, Returns, Returns-mono,
}
use mathlib.Core.List.{append_assoc}
use argon_rtos.Kernel.{Kernel}
use argon_rtos.Kernel.Scheduler.{scheduler}
use argon_rtos.Kernel.Scheduler.Turns.{
  HasTurn, IsGroup, IsGroup-order, SameOrder, turn, next_from-middle, next_from-last,
}
use argon_rtos.ArList.Seq

All-append-left : (P : ℕ → Type 0) (xs ys : List ℕ) → All P (xs ++ ys) → All P xs × All P ys
All-append-left P [] ys a = (tt, a)
All-append-left P (x ∷ xs) ys a = let (l, r) = All-append-left P xs ys a.1 in ((a.0, l), r)

Distinct-middle : (c : ℕ) (xs ys : List ℕ) → Distinct (xs ++ (c ∷ ys)) → has c xs ≡ false
Distinct-middle c [] ys d = refl
Distinct-middle c (x ∷ xs) ys d =
    ground (arith, Distinct-middle c xs ys d.1, has-append x xs (c ∷ ys), d.0)

-- The head of a list that goes on with `c`.
abbrev pub head_or : List ℕ → ℕ → ℕ
head_or [] c = c
head_or (x ∷ _) c = x

head-append : (xs ys : List ℕ) (c : ℕ) → Seq.head? (xs ++ (c ∷ ys)) ≡ some (head_or xs c)
head-append [] ys c = refl
head-append (x ∷ xs) ys c = refl

All-head_or : (P : ℕ → Type 0) (xs ys : List ℕ) (c : ℕ) → All P (xs ++ (c ∷ ys)) → P (head_or xs c)
All-head_or P [] ys c a = a.0
All-head_or P (x ∷ xs) ys c a = a.0

next-from :
    (xs ys : List ℕ) (c : ℕ) (o : Option ℕ)
    → ((h : ℕ) → Seq.next_from h c (xs ++ (c ∷ ys)) ≡ o)
    → Seq.next c (xs ++ (c ∷ ys)) ≡ o
unfolding Seq.next
next-from [] ys c o e = e c
next-from (x ∷ xs) ys c o e = e x

next-last :
    (xs : List ℕ) (c : ℕ) → has c xs ≡ false → Seq.next c (xs ++ (c ∷ [])) ≡ some (head_or xs c)
unfolding Seq.next
next-last [] c d = next_from-last c c [] d
next-last (x ∷ xs) c d = next_from-last x c (x ∷ xs) d

module _ (p : ℕ) (ps : List ℕ) where
  -- Thread `c` has its turn, in a group without duplicates.
  pub record InGroup (c : ℕ) (k : Kernel) : Type 0 where
    pub has_turn : HasTurn c k
    pub group : IsGroup p ps k

  turned :
      (k : Kernel) (n : ℕ)
      → IsGroup p ps k
      → Returns (λ k'. HasTurn n k' × SameOrder k k') (scheduler k)
      → Returns (InGroup n) (scheduler k)
  turned k n g r =
      Returns-mono (scheduler k) _ _ r
        (λ k' (t, o). record { has_turn = t; group = IsGroup-order p ps k k' o g })

  -- The processor goes from `c` to the thread behind it.
  pub forward :
      (k : Kernel) (xs ys : List ℕ) (c y : ℕ)
      → Distinct ps
      → ps ≡ xs ++ (c ∷ y ∷ ys)
      → InGroup c k
      → Returns (InGroup y) (scheduler k)
  forward k xs ys c y d e i =
      let g = i.group in
      let l : k.threads.ready_list ≡ xs ++ (c ∷ y ∷ (ys ++ g.others)) =
        g.split ∙ (ap (λ qs. qs ++ g.others) e ∙ append_assoc xs (c ∷ y ∷ ys) g.others) in
      let equal = subst (All (λ u. (k.threads.thread u).priority ≡ p)) e g.equal in
      let (left, right) = All-append-left _ xs (c ∷ y ∷ ys) equal in
      let off = Distinct-middle c xs (y ∷ ys) (subst Distinct e d) in
      let f = head_or xs c in
      let first : (k.threads.thread f).priority ≡ p = All-head_or _ xs (y ∷ ys) c equal in
      let same : ((k.threads.thread y).priority == (k.threads.thread c).priority) ≡ true =
        ground (arith, right.0, right.1.0) in
      turned k y g (
        subst (λ n. Returns (λ k'. HasTurn n k' × SameOrder k k') (scheduler k))
          (ap (λ b. if b then y else f) same)
          (turn k c f y i.has_turn (ap Seq.head? l ∙ head-append xs (y ∷ (ys ++ g.others)) c)
            (ap (Seq.next c) l
              ∙ next-from xs (y ∷ (ys ++ g.others)) c (some y)
                  (λ h. next_from-middle h c y xs (ys ++ g.others) off))
            (first ∙ sym right.0)))

  -- It goes from the last of the group to the first.
  pub wrap :
      (k : Kernel) (xs : List ℕ) (c : ℕ)
      → Distinct ps
      → ps ≡ xs ++ (c ∷ [])
      → InGroup c k
      → Returns (InGroup (head_or xs c)) (scheduler k)
  wrap k xs c d e i = go i.group.others refl
    where
      f : ℕ
      f = head_or xs c

      equal : All (λ u. (k.threads.thread u).priority ≡ p) (xs ++ (c ∷ []))
      equal = subst (All (λ u. (k.threads.thread u).priority ≡ p)) e i.group.equal

      first : (k.threads.thread f).priority ≡ (k.threads.thread c).priority
      first = All-head_or _ xs [] c equal ∙ sym (All-append-left _ xs (c ∷ []) equal).1.0

      off : has c xs ≡ false
      off = Distinct-middle c xs [] (subst Distinct e d)

      go : (zs : List ℕ) → i.group.others ≡ zs → Returns (InGroup f) (scheduler k)
      go [] o =
          let l : k.threads.ready_list ≡ (xs ++ (c ∷ [])) =
            i.group.split ∙ (ap₂ (λ a b. a ++ b) e o ∙ append_assoc xs (c ∷ []) []) in
          let b = Bool-cases ((k.threads.thread f).priority == (k.threads.thread c).priority) in
          turned k f i.group (
            subst (λ n. Returns (λ k'. HasTurn n k' × SameOrder k k') (scheduler k)) (ground arith)
              (turn k c f f i.has_turn (ap Seq.head? l ∙ head-append xs [] c)
                (ap (Seq.next c) l ∙ next-last xs c off) first))
      go (z ∷ zs) o =
          let l : k.threads.ready_list ≡ (xs ++ (c ∷ z ∷ zs)) =
            i.group.split ∙ (ap₂ (λ a b. a ++ b) e o ∙ append_assoc xs (c ∷ []) (z ∷ zs)) in
          let below : (k.threads.thread z).priority < p =
            (subst (All (λ u. (k.threads.thread u).priority < p)) o i.group.less).0 in
          let pc : (k.threads.thread c).priority ≡ p = (All-append-left _ xs (c ∷ []) equal).1.0 in
          let other : ((k.threads.thread z).priority == (k.threads.thread c).priority) ≡ false =
            ground arith in
          turned k f i.group (
            subst (λ n. Returns (λ k'. HasTurn n k' × SameOrder k k') (scheduler k))
              (ap (λ b. if b then z else f) other)
              (turn k c f z i.has_turn (ap Seq.head? l ∙ head-append xs (z ∷ zs) c)
                (ap (Seq.next c) l
                  ∙ next-from xs (z ∷ zs) c (some z) (λ h. next_from-middle h c z xs zs off))
                first))
