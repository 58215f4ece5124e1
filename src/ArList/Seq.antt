-- ===== src/ArList/Seq.antt =====
-- The lists of the kernel as the sequence of their nodes, from the head on: what `add`, `remove`
-- and `contains` of `_ar_list` do to it.
pub mod Order
pub mod Sorted
use argon_rtos.Prelude.{
  ℕ, Bool, true, false, List, [], ◌∷◌, ◌++◌, Option, none, some, ◌==◌, if◌then◌else◌,
}

-- Before the first element for which the predicate holds, else at the end.
unfoldable pub insert_sorted : (ℕ → ℕ → Bool) → ℕ → List ℕ → List ℕ
insert_sorted predicate item [] = item ∷ []
insert_sorted predicate item (x ∷ xs) =
    if predicate item x then item ∷ x ∷ xs else x ∷ insert_sorted predicate item xs

-- The last of `x ∷ xs`.
abbrev pub last_of : ℕ → List ℕ → ℕ
last_of x [] = x
last_of x (y ∷ xs) = last_of y xs

-- Whether a sort predicate is there and holds.
abbrev pub sorts_before : Option (ℕ → ℕ → Bool) → ℕ → ℕ → Bool
sorts_before none item node = false
sorts_before (some predicate) item node = predicate item node

-- The search for the sorted position, if there is a predicate.
search_sorted : Option (ℕ → ℕ → Bool) → ℕ → List ℕ → List ℕ
search_sorted none item xs = xs
search_sorted (some predicate) item xs = insert_sorted predicate item xs

-- `_ar_list::add`, with a predicate or without one.
unfoldable pub add : Option (ℕ → ℕ → Bool) → ℕ → List ℕ → List ℕ
unfolding search_sorted
add predicate item [] = item ∷ []
add predicate item (x ∷ xs) =
    if sorts_before predicate item (last_of x xs)
    then search_sorted predicate item (x ∷ xs)
    else x ∷ (xs ++ (item ∷ []))

-- `_ar_list::remove`.
unfoldable pub remove : ℕ → List ℕ → List ℕ
remove item [] = []
remove item (x ∷ xs) = if x == item then remove item xs else x ∷ remove item xs

-- `m_head`.
abbrev pub head? : List ℕ → Option ℕ
head? [] = none
head? (x ∷ _) = some x

-- `m_next` of `item`: the last element is followed by the head.
unfoldable pub next_from : ℕ → ℕ → List ℕ → Option ℕ
next_from head item [] = none
next_from head item (x ∷ []) = if x == item then some head else none
next_from head item (x ∷ y ∷ xs) = if x == item then some y else next_from head item (y ∷ xs)

unfoldable pub next : ℕ → List ℕ → Option ℕ
unfolding next_from
next item [] = none
next item (x ∷ xs) = next_from x item (x ∷ xs)
