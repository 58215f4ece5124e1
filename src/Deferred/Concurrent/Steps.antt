-- ===== src/Deferred/Concurrent/Steps.antt =====
-- The accesses of ar_kernel_atomic_queue_insert one by one.
use argon_rtos.Prelude.{
  ℕ, ◌+◌, ◌%◌, ◌≤◌, ◌≡◌, ◌∙◌, refl, sym, ap, subst, Bool, true, false, List, [], ◌∷◌, ◌++◌, All,
  arith,
}
use native.Mathlib.Nat.{mod-add-mod}
use argon_rtos.Deferred.Concurrent.{
  Shared, Caller, starts, has_count, counted, has_tail, returned, refused,
}
use argon_rtos.Deferred.Concurrent.Slots.{
  reserved, taken, total, Apart, Within, Tested, IsSound, total-middle, total-le, All-replace,
  All-middle, All-map, AllApart-replace, mod_apart,
}

abbrev is_returned : Caller → Bool
is_returned (returned _ _) = true
is_returned _ = false

Apart-right : (size : ℕ) (x d : Caller) → is_returned d ≡ false → Apart size x d
unfolding Apart
Apart-right size x (returned n i) e = cc
Apart-right size (returned n i) (starts m) e = tt
Apart-right size (returned n i) (has_count m l) e = tt
Apart-right size (returned n i) (counted m) e = tt
Apart-right size (returned n i) (has_tail m l) e = tt
Apart-right size (returned n i) (refused m) e = tt
Apart-right size _ d e = tt

Apart-left : (size : ℕ) (d x : Caller) → is_returned d ≡ false → Apart size d x
unfolding Apart
Apart-left size (returned n i) x e = cc
Apart-left size _ x e = tt

Within-busy : (size t n : ℕ) (d : Caller) → is_returned d ≡ false → Within size t n d
unfolding Within
Within-busy size t n (returned m i) e = cc
Within-busy size t n _ e = tt

All-every : (P : Caller → Type 0) (xs : List Caller) → ((c : Caller) → P c) → All P xs
All-every P [] h = tt
All-every P (x ∷ xs) h = (h x, All-every P xs h)

module _ (size first t : ℕ) (s : Shared) (xs ys : List Caller) (c : Caller)
    (i : IsSound size first t s (xs ++ (c ∷ ys))) where
  -- An access that does not move the tail.
  pub stay-IsSound :
      (s' : Shared) (c' : Caller)
      → is_returned c' ≡ false
      → taken c' ≡ taken c
      → s'.tail ≡ s.tail
      → s'.count + reserved c ≡ s.count + reserved c'
      → s'.count ≤ size
      → Tested size c'
      → IsSound size first t s' (xs ++ (c' ∷ ys))
  stay-IsSound s' c' busy same tail count room tested =
      let r = total-middle reserved xs ys c in
      let r' = total-middle reserved xs ys c' in
      let e : total taken (xs ++ (c' ∷ ys)) ≡ total taken (xs ++ (c ∷ ys)) =
        omega (arith, total-middle taken xs ys c, total-middle taken xs ys c', same) in
      record {
        count = omega (arith, i.count, r, r', count);
        room = room;
        tail = tail ∙ (i.tail ∙ ap (λ n. (t + n) % size) (sym e));
        tested = All-replace (Tested size) xs ys c c' i.tested tested;
        within =
            subst (λ n. All (Within size t n) (xs ++ (c' ∷ ys))) (sym e)
              (All-replace (Within size t (total taken (xs ++ (c ∷ ys)))) xs ys c c' i.within
                (Within-busy size t (total taken (xs ++ (c ∷ ys))) c' busy));
        apart =
            AllApart-replace size xs ys c c' i.apart
              (All-every (λ x. Apart size x c') xs (λ x. Apart-right size x c' busy))
              (All-every (λ y. Apart size c' y) ys (λ y. Apart-left size c' y busy));
      }

-- A caller whose places are all in front of those of another one.
Within-Apart :
    (size t n m : ℕ) (d : Caller)
    → n + m ≤ size
    → Within size t n d
    → Apart size d (returned m ((t + n) % size))
unfolding Within Apart
Within-Apart size t n m (returned k j) room (o, e, b) = λ x y lx ly q.
    mod_apart size (t + o + x) (t + n + y) (omega arith) (omega arith) (
      sym (mod-add-mod (t + o) size x)
      ∙ (ap (λ z. (z + x) % size) (sym e) ∙ (q ∙ mod-add-mod (t + n) size y)))
Within-Apart size t n m (starts k) room w = tt
Within-Apart size t n m (has_count k l) room w = tt
Within-Apart size t n m (counted k) room w = tt
Within-Apart size t n m (has_tail k l) room w = tt
Within-Apart size t n m (refused k) room w = tt

Apart-sym : (size : ℕ) (c d : Caller) → Apart size c d → Apart size d c
unfolding Apart
Apart-sym size (returned n i) (returned m j) h = λ a b la lb e. h b a lb la (sym e)
Apart-sym size (returned n i) (starts m) h = tt
Apart-sym size (returned n i) (has_count m l) h = tt
Apart-sym size (returned n i) (counted m) h = tt
Apart-sym size (returned n i) (has_tail m l) h = tt
Apart-sym size (returned n i) (refused m) h = tt
Apart-sym size (starts n) d h = Apart-right size d (starts n) refl
Apart-sym size (has_count n l) d h = Apart-right size d (has_count n l) refl
Apart-sym size (counted n) d h = Apart-right size d (counted n) refl
Apart-sym size (has_tail n l) d h = Apart-right size d (has_tail n l) refl
Apart-sym size (refused n) d h = Apart-right size d (refused n) refl

Within-more : (size t n m : ℕ) (d : Caller) → n ≤ m → Within size t n d → Within size t m d
unfolding Within
Within-more size t n m (returned k j) le (o, e, b) = (o, e, omega arith)
Within-more size t n m (starts k) le w = tt
Within-more size t n m (has_count k l) le w = tt
Within-more size t n m (counted k) le w = tt
Within-more size t n m (has_tail k l) le w = tt
Within-more size t n m (refused k) le w = tt

module _ (size first t n : ℕ) (s : Shared) (xs ys : List Caller)
    (i : IsSound size first t s (xs ++ (has_tail n s.tail ∷ ys))) where
  -- The access that moves the tail, and so gives a caller its places.
  pub return-IsSound :
      IsSound size first t
        (record { count = s.count; tail = (s.tail + n) % size })
        (xs ++ (returned n s.tail ∷ ys))
  unfolding reserved taken Tested Within
  return-IsSound =
      let c = has_tail n s.tail in
      let d = returned n s.tail in
      let old = total taken (xs ++ (c ∷ ys)) in
      let sum : total taken (xs ++ (d ∷ ys)) ≡ old + n =
        omega (arith, total-middle taken xs ys c, total-middle taken xs ys d) in
      let held = total-middle reserved xs ys c in
      let held' = total-middle reserved xs ys d in
      let tl = total-middle taken xs ys c in
      let fits : old + n ≤ size =
        omega (arith, i.count, i.room, held, tl, total-le xs, total-le ys) in
      let (wl, wc, wr) = All-middle (Within size t old) xs ys c i.within in
      let apart : (x : Caller) → Within size t old x → Apart size x d = λ x w.
        subst (λ j. Apart size x (returned n j)) (sym i.tail)
          (Within-Apart size t old n x fits w) in
      record {
        count = omega (arith, i.count, held, held');
        room = i.room;
        tail =
            ap (λ j. (j + n) % size) i.tail
            ∙ (mod-add-mod (t + old) size n ∙ ap (λ m. m % size) (omega (arith, sum)));
        tested = All-replace (Tested size) xs ys c d i.tested tt;
        within =
            subst (λ m. All (Within size t m) (xs ++ (d ∷ ys))) (sym sum)
              (All-replace (Within size t (old + n)) xs ys c d
                (All-map (Within size t old) (Within size t (old + n)) (xs ++ (c ∷ ys))
                  (λ x w. Within-more size t old (old + n) x (omega arith) w) i.within)
                (old, i.tail, omega arith));
        apart =
            AllApart-replace size xs ys c d i.apart
              (All-map (Within size t old) (λ x. Apart size x d) xs apart wl)
              (All-map (Within size t old) (λ y. Apart size d y) ys
                (λ y w. Apart-sym size y d (apart y w)) wr);
      }
