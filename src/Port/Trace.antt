-- ===== src/Port/Trace.antt =====
-- Trace events over the instrumentation trace: ar_trace_1 and ar_trace_2 of
-- src/cortex_m/ar_port.cpp, which are compiled if the trace is enabled.
use argon_rtos.Prelude.{
  ℕ, zero, suc, ◌+◌, ◌*◌, ◌/◌, ◌%◌, ◌^◌, ◌≡◌, Bool, Option, none, some, ◌>>=◌, List, [], ◌∷◌, ◌++◌,
  if◌then◌else◌, arith,
}

-- The trace unit: whether it is enabled, and the words that were written to its ports, in order,
-- each with its port.
pub record Itm : Type 0 where
  pub enabled : Bool
  pub written : List (ℕ × ℕ)

-- A word of an event: 8 bits of its identifier and 24 bits of data.
unfoldable pub event_word : (event_id data0 : ℕ) → ℕ
event_word event_id data0 = event_id * 2 ^ 24 + data0 % 2 ^ 24

-- `ready n` is what port `port` reads as in the round `n` of waiting for it.
module _ (ready : (port n : ℕ) → Bool) where
  -- The loop that waits until a port is ready, from round `n` on.
  unfoldable pub wait_ready : ℕ → (port n : ℕ) → Option (Unit {0})
  wait_ready zero port n = none
  wait_ready (suc fuel) port n =
      let rest = wait_ready fuel port (suc n) in if ready port n then some tt else rest

  -- A word is written to a port when it is ready.
  unfoldable pub write_port : ℕ → (port word : ℕ) → Itm → Option Itm
  unfolding wait_ready
  write_port fuel port word itm = wait_ready fuel port 0 >>= λ u.
      some (record itm { written = itm.written ++ ((port, word) ∷ []) })

  -- `ar_trace_1`.
  unfoldable pub trace_1 : ℕ → (event_id value : ℕ) → Itm → Option Itm
  unfolding write_port event_word
  trace_1 fuel event_id value itm =
      if itm.enabled then write_port fuel 31 (event_word event_id value) itm else some itm

  -- `ar_trace_2`.
  unfoldable pub trace_2 : ℕ → (event_id data0 data1 : ℕ) → Itm → Option Itm
  unfolding write_port event_word
  trace_2 fuel event_id data0 data1 itm =
      if itm.enabled
      then (write_port fuel 31 (event_word event_id data0) itm >>= λ itm.
          write_port fuel 30 data1 itm)
      else some itm

-- The word tells the identifier and the low 24 bits of the data apart.
pub event_word_parts :
    (event_id data0 : ℕ)
    → (event_word event_id data0 / 2 ^ 24 ≡ event_id)
      × (event_word event_id data0 % 2 ^ 24 ≡ data0 % 2 ^ 24)
unfolding event_word
event_word_parts event_id data0 = (omega arith, omega arith)
