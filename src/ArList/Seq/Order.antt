-- ===== src/ArList/Seq/Order.antt =====
-- What `add` and `remove` do to the elements of a list, and to its order.
use argon_rtos.Prelude.{
  ℕ, ◌≡◌, refl, Bool, true, false, ◌&&◌, ◌||◌, not, Option, none, some, List, [], ◌∷◌, ◌++◌, ◌==◌,
  arith, has, Distinct, has-append, ◌⊎◌, inl, inr, Bool-cases,
}
use argon_rtos.ArList.Seq.{
  insert_sorted, add, remove, last_of, sorts_before, next_from, next, head?,
}

pub has-insert_sorted :
    (p : ℕ → ℕ → Bool) (c item : ℕ) (xs : List ℕ)
    → has c (insert_sorted p item xs) ≡ ((c == item) || has c xs)
unfolding insert_sorted
has-insert_sorted p c item [] = refl
has-insert_sorted p c item (x ∷ xs) = ground (arith, has-insert_sorted p c item xs)

pub has-add :
    (p : Option (ℕ → ℕ → Bool)) (c item : ℕ) (xs : List ℕ)
    → has c (add p item xs) ≡ ((c == item) || has c xs)
unfolding add
has-add p c item [] = refl
has-add none c item (x ∷ xs) = ground (arith, has-append c xs (item ∷ []))
has-add (some p) c item (x ∷ xs) =
    ground (arith, has-append c xs (item ∷ []), has-insert_sorted p c item (x ∷ xs))

pub has-remove : (c item : ℕ) (xs : List ℕ) → has c (remove item xs) ≡ (not (c == item) && has c xs)
unfolding remove
has-remove c item [] = ground arith
has-remove c item (x ∷ xs) = ground (arith, has-remove c item xs)

pub Distinct-insert_sorted :
    (p : ℕ → ℕ → Bool) (item : ℕ) (xs : List ℕ)
    → Distinct xs
    → has item xs ≡ false
    → Distinct (insert_sorted p item xs)
unfolding insert_sorted
Distinct-insert_sorted p item [] d n = (refl, tt)
Distinct-insert_sorted p item (x ∷ xs) d n =
    ground (arith, has-insert_sorted p x item xs, Distinct-insert_sorted p item xs d.1)

pub Distinct-snoc :
    (item : ℕ) (xs : List ℕ) → Distinct xs → has item xs ≡ false → Distinct (xs ++ (item ∷ []))
Distinct-snoc item [] d n = (refl, tt)
Distinct-snoc item (x ∷ xs) d n =
    ground (arith, has-append x xs (item ∷ []), Distinct-snoc item xs d.1)

pub Distinct-add :
    (p : Option (ℕ → ℕ → Bool)) (item : ℕ) (xs : List ℕ)
    → Distinct xs
    → has item xs ≡ false
    → Distinct (add p item xs)
unfolding add
Distinct-add p item [] d n = (refl, tt)
Distinct-add none item (x ∷ xs) d n = Distinct-snoc item (x ∷ xs) d n
Distinct-add (some p) item (x ∷ xs) d n =
    ground (arith, Distinct-snoc item (x ∷ xs) d n, Distinct-insert_sorted p item (x ∷ xs) d n)

pub Distinct-remove : (item : ℕ) (xs : List ℕ) → Distinct xs → Distinct (remove item xs)
unfolding remove
Distinct-remove item [] d = tt
Distinct-remove item (x ∷ xs) d = ground (arith, has-remove x item xs, Distinct-remove item xs d.1)

-- Nothing is removed where there is nothing to remove.
pub remove_not_mem : (item : ℕ) (xs : List ℕ) → has item xs ≡ false → remove item xs ≡ xs
unfolding remove
remove_not_mem item [] n = refl
remove_not_mem item (x ∷ xs) n = ground (arith, remove_not_mem item xs)

pub remove-append :
    (item : ℕ) (xs ys : List ℕ) → remove item (xs ++ ys) ≡ remove item xs ++ remove item ys
unfolding remove
remove-append item [] ys = refl
remove-append item (x ∷ xs) ys = ground (arith, remove-append item xs ys)

pub insert_sorted-hit :
    (p : ℕ → ℕ → Bool) (item x : ℕ) (xs : List ℕ)
    → p item x ≡ true
    → insert_sorted p item (x ∷ xs) ≡ item ∷ x ∷ xs
unfolding insert_sorted
insert_sorted-hit p item x xs t = rw t

pub insert_sorted-miss :
    (p : ℕ → ℕ → Bool) (item x : ℕ) (xs : List ℕ)
    → p item x ≡ false
    → insert_sorted p item (x ∷ xs) ≡ x ∷ insert_sorted p item xs
unfolding insert_sorted
insert_sorted-miss p item x xs f = rw f

pub add-end :
    (p : Option (ℕ → ℕ → Bool)) (item x : ℕ) (xs : List ℕ)
    → sorts_before p item (last_of x xs) ≡ false
    → add p item (x ∷ xs) ≡ x ∷ (xs ++ (item ∷ []))
unfolding add
add-end p item x xs f = rw f

pub add-search :
    (p : ℕ → ℕ → Bool) (item x : ℕ) (xs : List ℕ)
    → p item (last_of x xs) ≡ true
    → add (some p) item (x ∷ xs) ≡ insert_sorted p item (x ∷ xs)
unfolding add
add-search p item x xs t = rw t

pub add-nil : (p : Option (ℕ → ℕ → Bool)) (item : ℕ) → add p item [] ≡ item ∷ []
unfolding add
add-nil p item = refl

-- Every element of a list is followed by one of its elements.
next_from-has :
    (head c : ℕ) (xs : List ℕ)
    → has c xs ≡ true
    → (n : ℕ) × (next_from head c xs ≡ some n) × ((n ≡ head) ⊎ (has n xs ≡ true))
unfolding next_from
next_from-has head c [] m = cc
next_from-has head c (x ∷ []) m = (head, ground arith, inl refl)
next_from-has head c (x ∷ y ∷ ys) m = elim (Bool-cases (x == c)) [
  | inl t ↦ (y, rw t, inr (ground arith))
  | inr f ↦
      let (n, e, at) = next_from-has head c (y ∷ ys) (ground arith) in (n, rw f e, ground arith)
]

pub next-has :
    (c : ℕ) (xs : List ℕ) → has c xs ≡ true → (n : ℕ) × (next c xs ≡ some n) × (has n xs ≡ true)
unfolding next
next-has c [] m = cc
next-has c (x ∷ xs) m = let (n, e, at) = next_from-has x c (x ∷ xs) m in (n, e, ground arith)

pub head-cons : (h : ℕ) (xs : List ℕ) → head? xs ≡ some h → (ys : List ℕ) × (xs ≡ h ∷ ys)
head-cons h [] e = cc
head-cons h (x ∷ xs) e = (xs, ground arith)
