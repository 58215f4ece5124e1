-- ===== src/Queue/Contents.antt =====
-- The values in the ring buffer of a queue, in their order.
use argon_rtos.Prelude.{
  ℕ, suc, ◌+◌, ◌≡◌, ◌≤◌, ◌<◌, ◌^◌, Option, some, List, [], ◌∷◌, ◌++◌, u32, sub32, set, length,
  length-set, arith, subst, sym, ap, ◌∙◌, sym, ap,
}
use argon_rtos.Types.{Queue}
use argon_rtos.Ring.{
  behind, values, values-set, next-bound, next-behind, behind-suc, get_elem?-some,
}
use argon_rtos.Queue.{advance, store, front, drop_front}

-- The values of a queue, first in first out.
abbrev pub contents : Queue → List (Option ℕ)
contents x = values (λ i. advance i x.capacity) x.elements x.head x.count

-- The storage has room for the capacity, the indices are inside, and the tail is behind the values.
pub record IsQueue (x : Queue) : Type 0 where
  pub storage : length x.elements ≡ x.capacity
  pub word : x.capacity < 2 ^ 32
  pub head : x.head < x.capacity
  pub count : x.count ≤ x.capacity
  pub tail : x.tail ≡ behind x.capacity x.head x.count

pub advance-behind : (c i : ℕ) → c < 2 ^ 32 → i < c → advance i c ≡ behind c i 1
unfolding advance
advance-behind c i w l = ground arith

module _ (x : Queue) (w : IsQueue x) where
  abbrev next : ℕ → ℕ
  next i = advance i x.capacity

  step : (i : ℕ) → i < x.capacity → next i ≡ behind x.capacity i 1
  step i l = advance-behind x.capacity i w.word l

  pub store-contents :
      (v : ℕ) → x.count < x.capacity → contents (store v x) ≡ contents x ++ (some v ∷ [])
  unfolding store
  store-contents v room =
      let up : u32 (x.count + 1) ≡ suc x.count = omega (arith, w.word, room) in
      let e = values-set x.capacity next step v x.elements x.head x.count w.storage w.head room in
      let e' =
        subst
          (λ j. values next (set x.elements j v) x.head (suc x.count) ≡ contents x ++ (some v ∷ []))
          (sym w.tail) e in
      ap (λ n. values next (set x.elements x.tail v) x.head n) up ∙ e'

  pub store-IsQueue : (v : ℕ) → x.count < x.capacity → IsQueue (store v x)
  unfolding store
  store-IsQueue v room =
      let up : u32 (x.count + 1) ≡ suc x.count = omega (arith, w.word, room) in
      record {
        storage = length-set x.elements x.tail v ∙ w.storage;
        word = w.word;
        head = w.head;
        count = rw up room;
        tail =
            ap (λ i. advance i x.capacity) w.tail
            ∙ (next-behind x.capacity next step x.head x.count w.head room
                ∙ ap (λ n. behind x.capacity x.head n) (sym up));
      }

  -- The storage has a value at the head.
  pub front-some : (v : ℕ) × (front x ≡ some v)
  unfolding front
  front-some = get_elem?-some x.elements x.head (rw w.storage w.head)

  pub drop_front-contents : 0 < x.count → contents x ≡ front x ∷ contents (drop_front x)
  unfolding front drop_front
  drop_front-contents more =
      let less : x.count ≡ suc (sub32 x.count 1) = omega (arith, w.count, w.word, more) in
      ap (λ n. values next x.elements x.head n) less

  pub drop_front-IsQueue : 0 < x.count → IsQueue (drop_front x)
  unfolding drop_front
  drop_front-IsQueue more =
      let less : x.count ≡ suc (sub32 x.count 1) = omega (arith, w.count, w.word, more) in
      record {
        storage = w.storage;
        word = w.word;
        head = next-bound x.capacity next step x.head w.head;
        count = omega (arith, w.count, w.word, more);
        tail =
            w.tail
            ∙ (ap (λ n. behind x.capacity x.head n) less
                ∙ sym (
                    behind-suc x.capacity next step x.head (sub32 x.count 1) w.head
                      (omega (arith, less, w.count))));
      }
