-- ===== src/ArList/Nodes/Insert.antt =====
-- The links of a chain at whose end `insertBefore` puts an item.
use argon_rtos.Prelude.{ℕ, ◌≡◌, ◌≢◌, false, some, List, [], ◌∷◌, ◌++◌, arith, has, Distinct, update}
use argon_rtos.ArList.Nodes.{Links, insert_before, set_next, set_prev}
use argon_rtos.ArList.Nodes.Ring.{Chain, Chain-last}

-- The links after `insertBefore`, with `last` before `node`.
abbrev pub inserted : (item node last : ℕ) → Links → Links
inserted item node last h = record {
  next = update (update h.next item (some node)) last (some item);
  prev = update (update h.prev item (some last)) node (some item);
}

pub insert_before-inserted :
    (item node last : ℕ) (h : Links)
    → h.prev node ≡ some last
    → item ≢ node
    → insert_before item node h ≡ some (inserted item node last h)
unfolding insert_before set_next set_prev
insert_before-inserted item node last h e ne = ground arith

-- The chain from `a` to `b` ends in `item` afterwards.
pub Chain-inserted :
    (h : Links) (a : ℕ) (xs : List ℕ) (item b last : ℕ)
    → Chain h a xs b
    → h.prev b ≡ some last
    → Distinct (a ∷ xs)
    → has item (a ∷ xs) ≡ false
    → has b xs ≡ false
    → item ≢ b
    → Chain (inserted item b last h) a (xs ++ (item ∷ [])) b
Chain-inserted h a [] item b last c e d i nb ne = ground arith
Chain-inserted h a (x ∷ xs) item b last c e d i nb ne = (
  ground (arith, Chain-last h x xs b last c.1 e),
  Chain-inserted h x xs item b last c.1 e d.1 (ground arith) (ground arith) ne,
)
