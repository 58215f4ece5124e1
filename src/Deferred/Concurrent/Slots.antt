-- ===== src/Deferred/Concurrent/Slots.antt =====
-- No two callers of ar_kernel_atomic_queue_insert get the same place of the queue.
use argon_rtos.Prelude.{ℕ, ◌+◌, ◌*◌, ◌/◌, ◌%◌, ◌≤◌, ◌<◌, ◌≡◌, ◌≢◌, List, [], ◌∷◌, ◌++◌, All, arith}
use native.Mathlib.Nat.{mod-lt, div-add-mod, mul-le-mul_right}
use argon_rtos.Deferred.Concurrent.{
  Shared, Caller, starts, has_count, counted, has_tail, returned, refused,
}

-- The entries that a caller has added to the count, and to the tail.
unfoldable pub reserved : Caller → ℕ
reserved (counted n) = n
reserved (has_tail n _) = n
reserved (returned n _) = n
reserved _ = 0

unfoldable pub taken : Caller → ℕ
taken (returned n _) = n
taken _ = 0

unfoldable pub total : (Caller → ℕ) → List Caller → ℕ
total f [] = 0
total f (c ∷ cs) = f c + total f cs

-- The places of two callers that have returned are different ones.
unfoldable pub Apart : (size : ℕ) → Caller → Caller → Type 0
Apart size (returned n i) (returned m j) =
    (a b : ℕ) → a < n → b < m → (i + a) % size ≢ (j + b) % size
Apart size _ _ = Unit {0}

unfoldable pub AllApart : (size : ℕ) → List Caller → Type 0
AllApart size [] = Unit {0}
AllApart size (c ∷ cs) = All (λ d. Apart size c d) cs × AllApart size cs

-- The places of a caller are among the first `n` behind `first`.
unfoldable pub Within : (size first n : ℕ) → Caller → Type 0
Within size first n (returned m i) = (o : ℕ) × (i ≡ (first + o) % size) × (o + m ≤ n)
Within size first n _ = Unit {0}

-- Places less than the size apart are different.
pub mod_apart : (size x y : ℕ) → x < y → y < x + size → x % size ≢ y % size
mod_apart size x y lt near e =
    let p : 0 < size = omega arith in
    let dx = div-add-mod x size in
    let dy = div-add-mod y size in
    let rx = mod-lt x p in
    let ry = mod-lt y p in
    let one : (x / size) + 1 ≤ y / size → (x / size + 1) * size ≤ y / size * size =
      λ h. mul-le-mul_right size h in
    let other : y / size ≤ x / size → y / size * size ≤ x / size * size =
      λ h. mul-le-mul_right size h in
    grind arith

-- A caller that has passed the test for a full queue found room.
unfoldable pub Tested : (size : ℕ) → Caller → Type 0
Tested size (has_count n count) = count + n ≤ size
Tested size _ = Unit {0}

-- What holds at any time, from `c` entries and the tail `t` on.
pub record IsSound (size c t : ℕ) (s : Shared) (cs : List Caller) : Type 0 where
  pub count : s.count ≡ c + total reserved cs
  pub room : s.count ≤ size
  pub tail : s.tail ≡ (t + total taken cs) % size
  pub tested : All (Tested size) cs
  pub within : All (Within size t (total taken cs)) cs
  pub apart : AllApart size cs

pub total-middle :
    (f : Caller → ℕ) (xs ys : List Caller) (c : Caller)
    → total f (xs ++ (c ∷ ys)) ≡ f c + (total f xs + total f ys)
unfolding total
total-middle f [] ys c = omega arith
total-middle f (x ∷ xs) ys c = omega (arith, total-middle f xs ys c)

taken-le : (c : Caller) → taken c ≤ reserved c
unfolding taken reserved
taken-le (starts n) = omega arith
taken-le (has_count n m) = omega arith
taken-le (counted n) = omega arith
taken-le (has_tail n l) = omega arith
taken-le (returned n i) = omega arith
taken-le (refused n) = omega arith

pub total-le : (cs : List Caller) → total taken cs ≤ total reserved cs
unfolding total
total-le [] = omega arith
total-le (c ∷ cs) = omega (arith, taken-le c, total-le cs)

module _ (P : Caller → Type 0) where
  pub All-replace :
      (xs ys : List Caller) (c d : Caller) → All P (xs ++ (c ∷ ys)) → P d → All P (xs ++ (d ∷ ys))
  All-replace [] ys c d a p = (p, a.1)
  All-replace (x ∷ xs) ys c d a p = (a.0, All-replace xs ys c d a.1 p)

  pub All-middle :
      (xs ys : List Caller) (c : Caller) → All P (xs ++ (c ∷ ys)) → All P xs × P c × All P ys
  All-middle [] ys c a = (tt, a.0, a.1)
  All-middle (x ∷ xs) ys c a = let (l, m, r) = All-middle xs ys c a.1 in ((a.0, l), m, r)

pub All-map :
    (P Q : Caller → Type 0) (xs : List Caller) → ((c : Caller) → P c → Q c) → All P xs → All Q xs
All-map P Q [] h a = tt
All-map P Q (x ∷ xs) h a = (h x a.0, All-map P Q xs h a.1)

pub AllApart-replace :
    (size : ℕ) (xs ys : List Caller) (c d : Caller)
    → AllApart size (xs ++ (c ∷ ys))
    → All (λ x. Apart size x d) xs
    → All (λ y. Apart size d y) ys
    → AllApart size (xs ++ (d ∷ ys))
unfolding AllApart
AllApart-replace size [] ys c d a l r = (r, a.1)
AllApart-replace size (x ∷ xs) ys c d a l r =
    (All-replace (λ e. Apart size x e) xs ys c d a.0 l.0, AllApart-replace size xs ys c d a.1 l.1 r)
