-- ===== src/ArList/Seq/Sorted.antt =====
-- The order of a list sorted by its predicate, under `add` and `remove`.
use argon_rtos.Prelude.{
  ℕ, ◌≡◌, Bool, true, false, some, List, [], ◌∷◌, ◌++◌, ◌==◌, arith, has, Bool-cases, inl, inr,
}
use argon_rtos.ArList.Seq.{insert_sorted, add, remove, last_of}
use argon_rtos.ArList.Seq.Order.{add-end, add-search, add-nil}

-- A strict weak order, as a Boolean test.
pub record IsStrictWeak (p : ℕ → ℕ → Bool) : Type 0 where
  pub asymm : (a b : ℕ) → p a b ≡ true → p b a ≡ false
  pub trans : (a b c : ℕ) → p a b ≡ false → p b c ≡ false → p a c ≡ false

-- `x` may stand before the list.
abbrev pub Before : (ℕ → ℕ → Bool) → ℕ → List ℕ → Type 0
Before p x [] = Unit {0}
Before p x (y ∷ _) = p y x ≡ false

-- No element sorts before the one in front of it.
abbrev pub IsSorted : (ℕ → ℕ → Bool) → List ℕ → Type 0
IsSorted p [] = Unit {0}
IsSorted p (x ∷ xs) = Before p x xs × IsSorted p xs

module _ (p : ℕ → ℕ → Bool) (w : IsStrictWeak p) where
  Before-insert_sorted :
      (x item : ℕ) (xs : List ℕ)
      → Before p x xs
      → p item x ≡ false
      → Before p x (insert_sorted p item xs)
  unfolding insert_sorted
  Before-insert_sorted x item [] b f = f
  Before-insert_sorted x item (y ∷ ys) b f = ground arith

  pub IsSorted-insert_sorted :
      (item : ℕ) (xs : List ℕ) → IsSorted p xs → IsSorted p (insert_sorted p item xs)
  unfolding insert_sorted
  IsSorted-insert_sorted item [] s = (tt, tt)
  IsSorted-insert_sorted item (x ∷ xs) s = elim (Bool-cases (p item x)) [
    | inl t ↦ rw t (w.asymm item x t, s)
    | inr f ↦ rw f (Before-insert_sorted x item xs s.0 f, IsSorted-insert_sorted item xs s.1)
  ]

  IsSorted-snoc :
      (item x : ℕ) (xs : List ℕ)
      → IsSorted p (x ∷ xs)
      → p item (last_of x xs) ≡ false
      → IsSorted p (x ∷ (xs ++ (item ∷ [])))
  IsSorted-snoc item x [] s f = (f, (tt, tt))
  IsSorted-snoc item x (y ∷ ys) s f = (s.0, IsSorted-snoc item y ys s.1 f)

  pub IsSorted-add : (item : ℕ) (xs : List ℕ) → IsSorted p xs → IsSorted p (add (some p) item xs)
  IsSorted-add item [] s = rw (add-nil (some p) item) (tt, tt)
  IsSorted-add item (x ∷ xs) s = elim (Bool-cases (p item (last_of x xs))) [
    | inl t ↦ rw (add-search p item x xs t) (IsSorted-insert_sorted item (x ∷ xs) s)
    | inr f ↦ rw (add-end (some p) item x xs f) (IsSorted-snoc item x xs s f)
  ]

  Before-remove : (x item : ℕ) (xs : List ℕ) → IsSorted p (x ∷ xs) → Before p x (remove item xs)
  unfolding remove
  Before-remove x item [] s = tt
  Before-remove x item (y ∷ ys) s = elim (Bool-cases (y == item)) [
    | inl t ↦ rw t (Before-remove x item ys (skip ys s, s.1.1))
    | inr f ↦ rw f s.0
  ]
    where
      skip : (ys : List ℕ) → IsSorted p (x ∷ y ∷ ys) → Before p x ys
      skip [] s = tt
      skip (z ∷ zs) s = w.trans z y x s.1.0 s.0

  pub IsSorted-remove : (item : ℕ) (xs : List ℕ) → IsSorted p xs → IsSorted p (remove item xs)
  unfolding remove
  IsSorted-remove item [] s = tt
  IsSorted-remove item (x ∷ xs) s = elim (Bool-cases (x == item)) [
    | inl t ↦ rw t (IsSorted-remove item xs s.1)
    | inr f ↦ rw f (Before-remove x item xs s, IsSorted-remove item xs s.1)
  ]

  -- The head of a sorted list: no element sorts before it.
  pub IsSorted-head :
      (x : ℕ) (xs : List ℕ) (a : ℕ) → IsSorted p (x ∷ xs) → has a xs ≡ true → p a x ≡ false
  IsSorted-head x [] a s m = cc
  IsSorted-head x (y ∷ ys) a s m = elim (Bool-cases (a == y)) [
    | inl t ↦ let e : a ≡ y = ground arith in rw e s.0
    | inr f ↦ w.trans a y x (IsSorted-head y ys a s.1 (ground arith)) s.0
  ]

-- Only the comparisons of elements matter.
pub IsSorted-frame :
    (p q : ℕ → ℕ → Bool) (xs : List ℕ)
    → ((a b : ℕ) → has a xs ≡ true → has b xs ≡ true → p a b ≡ q a b)
    → IsSorted p xs
    → IsSorted q xs
IsSorted-frame p q [] h s = tt
IsSorted-frame p q (x ∷ []) h s = (tt, tt)
IsSorted-frame p q (x ∷ y ∷ ys) h s = (
  ground (arith, h y x),
  IsSorted-frame p q (y ∷ ys) (λ a b ma mb. h a b (ground arith) (ground arith)) s.1,
)
