-- ===== src/ArList/Nodes/Bypass.antt =====
-- The links of a chain from which `remove` takes an item.
use argon_rtos.Prelude.{ℕ, ◌≡◌, ◌≢◌, false, none, some, List, [], ◌∷◌, arith, has, Distinct, update}
use argon_rtos.ArList.Nodes.{Links, ArList, remove, head_after, set_next, set_prev}
use argon_rtos.ArList.Nodes.Ring.{Chain, Chain-last}

-- The links after `remove`, with `before` and `after` on the two sides of `item`.
abbrev pub bypassed : (item before after : ℕ) → Links → Links
bypassed item before after h = record {
  next = update (update h.next before (some after)) item none;
  prev = update (update h.prev after (some before)) item none;
}

pub remove-bypassed :
    (l : ArList) (item head before after : ℕ) (h : Links)
    → l.head ≡ some head
    → h.next item ≡ some after
    → h.prev item ≡ some before
    → remove l item h
      ≡ some (record l { head = head_after item head after }, bypassed item before after h)
unfolding remove set_next set_prev
remove-bypassed l item head before after h eh en ep = ground arith

-- The chain from `a` to `item` leads to `after` afterwards.
pub Chain-bypassed :
    (h : Links) (a : ℕ) (xs : List ℕ) (item before after : ℕ)
    → Chain h a xs item
    → h.prev item ≡ some before
    → Distinct (a ∷ xs)
    → has item (a ∷ xs) ≡ false
    → has after xs ≡ false
    → item ≢ after
    → Chain (bypassed item before after h) a xs after
Chain-bypassed h a [] item before after c e d i na ne = ground arith
Chain-bypassed h a (x ∷ xs) item before after c e d i na ne = (
  ground (arith, Chain-last h x xs item before c.1 e),
  Chain-bypassed h x xs item before after c.1 e d.1 (ground arith) (ground arith) ne,
)
