-- ===== src/Port/Atomics.antt =====
-- The atomic operations for Cortex-M0+ of src/cortex_m/ar_port.cpp, which disable interrupts. They
-- exist for 8, 16 and 32 bits: `w` is the width. A value is the word without its sign. Between any
-- two accesses interrupt handlers may run and change the memory, unless interrupts are disabled.
pub mod Exclusive
use argon_rtos.Prelude.{ℕ, ◌+◌, ◌%◌, ◌^◌, Bool, true, false, ◌==◌, if◌then◌else◌, update}

-- The variables by address, and the PRIMASK register: whether interrupts are disabled.
pub record Processor : Type 0 where
  pub memory : ℕ → ℕ
  pub primask : Bool

-- The places in an operation where handlers may run.
pub data Boundary : Type 0 where
  before_disable behind_disable behind_read behind_second_read behind_store behind_restore :
      Boundary

-- `__disable_irq` and `__set_PRIMASK`.
unfoldable pub disable_irq : Processor → Processor
disable_irq p = record p { primask = true }

unfoldable pub set_primask : Bool → Processor → Processor
set_primask b p = record p { primask = b }

-- `isr b` is what the handlers that run at the boundary `b` do to the memory. A handler leaves the
-- PRIMASK register as it was.
module _ (isr : Boundary → (ℕ → ℕ) → ℕ → ℕ) where
  -- Handlers run, if interrupts are not disabled.
  unfoldable pub interrupts : Boundary → Processor → Processor
  interrupts b p = if p.primask then p else record p { memory = isr b p.memory }

  -- `ar_atomic_add8`, `ar_atomic_add16` and `ar_atomic_add32`. The variable is read twice.
  unfoldable pub atomic_add : (w value delta : ℕ) → Processor → ℕ × Processor
  atomic_add w value delta p =
      let primask = p.primask in
      let p = disable_irq (interrupts before_disable p) in
      let p = interrupts behind_disable p in
      let original = p.memory value in
      let p = interrupts behind_read p in
      let second = p.memory value in
      let p = interrupts behind_second_read p in
      let p = record p { memory = update p.memory value ((second + delta) % 2 ^ w) } in
      let p = set_primask primask (interrupts behind_store p) in
      (original, interrupts behind_restore p)

  -- `ar_atomic_cas8`, `ar_atomic_cas16` and `ar_atomic_cas32`. The arguments have the width.
  unfoldable pub atomic_cas : (w value expected new : ℕ) → Processor → Bool × Processor
  atomic_cas w value expected new p =
      let primask = p.primask in
      let p = disable_irq (interrupts before_disable p) in
      let p = interrupts behind_disable p in
      let old = p.memory value in
      let p = interrupts behind_read p in
      if old == expected % 2 ^ w
      then (let p = record p { memory = update p.memory value (new % 2 ^ w) } in
          let p = set_primask primask (interrupts behind_store p) in
          (true, interrupts behind_restore p))
      else (false, interrupts behind_restore (set_primask primask p))
