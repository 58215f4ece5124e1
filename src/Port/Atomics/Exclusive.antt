-- ===== src/Port/Atomics/Exclusive.antt =====
-- What the atomic operations for Cortex-M0+ of src/cortex_m/ar_port.cpp guarantee, whatever the
-- interrupt handlers do.
use argon_rtos.Prelude.{
  ℕ, ◌+◌, ◌%◌, ◌^◌, ◌<◌, ◌≡◌, ◌≢◌, refl, true, ◌==◌, Bool-cases, inl, inr, if◌then◌else◌, arith,
  update,
}
use native.Mathlib.Nat.{mod-eq_of_lt}
use argon_rtos.Port.Atomics.{
  Processor, Boundary, before_disable, behind_restore, interrupts, atomic_add, atomic_cas,
  disable_irq, set_primask,
}

-- The variable at address `a` is `v` in `p'`, and all else is as in `p`.
pub record Stored (a v : ℕ) (p p' : Processor) : Type 0 where
  pub value : p'.memory a ≡ v
  pub others : (b : ℕ) → b ≢ a → p'.memory b ≡ p.memory b
  pub primask : p'.primask ≡ p.primask

module _ (isr : Boundary → (ℕ → ℕ) → ℕ → ℕ) (w a : ℕ) (p : Processor) where
  -- The processor when the operation has disabled interrupts, but for its mask.
  abbrev pub entered : Processor
  entered = interrupts isr before_disable p

  entered-primask : p.primask ≡ entered.primask
  unfolding interrupts
  entered-primask = ground arith

  -- The operation has stored `v` and has restored the mask.
  abbrev stored : ℕ → Processor
  stored v = record { memory = update entered.memory a v; primask = p.primask }

  stored-Stored : (v : ℕ) → Stored a v entered (stored v)
  stored-Stored v = record {
    value = ground arith;
    others = λ b n. ground arith;
    primask = entered-primask;
  }

  -- A compare and swap is one step, whatever the handlers do at any of its boundaries: handlers run,
  -- then it stores the new value and reports it if the variable has the expected value, and otherwise
  -- changes nothing, and then handlers run again. It leaves the interrupt mask as it was. The
  -- arguments are taken modulo 2 to the width.
  pub atomic_cas-Stored :
      (expected new : ℕ)
      → let same = entered.memory a == expected % 2 ^ w in
        (p' : Processor) × Stored a (if same then new % 2 ^ w else entered.memory a) entered p'
        × (atomic_cas isr w a expected new p ≡ (same, interrupts isr behind_restore p'))
  unfolding atomic_cas disable_irq set_primask interrupts
  atomic_cas-Stored expected new = elim (Bool-cases (entered.memory a == expected % 2 ^ w)) [
    | inl same ↦ rw same (stored (new % 2 ^ w), stored-Stored (new % 2 ^ w), refl)
    | inr other ↦ rw other (
      record entered { primask = p.primask },
      record { value = refl; others = λ b n. refl; primask = entered-primask },
      refl,
    )
  ]

  -- An addition is one step, whatever the handlers do at any of its boundaries: handlers run, then it
  -- returns the value of the variable and stores the sum, modulo 2 to the width, and then handlers
  -- run again. It leaves the interrupt mask as it was. A compare and swap of the value by that sum, of
  -- a variable that has the width, does the same.
  pub atomic_add-cas :
      (delta : ℕ)
      → entered.memory a < 2 ^ w
      → let original = entered.memory a in
        (p' : Processor) × Stored a ((original + delta) % 2 ^ w) entered p'
        × (atomic_add isr w a delta p ≡ (original, interrupts isr behind_restore p'))
        × (atomic_cas isr w a original (original + delta) p
            ≡ (true, interrupts isr behind_restore p'))
  unfolding atomic_add atomic_cas disable_irq set_primask interrupts
  atomic_add-cas delta fits =
      let sum = (entered.memory a + delta) % 2 ^ w in
      let same : (entered.memory a == entered.memory a % 2 ^ w) ≡ true =
        ground (arith, mod-eq_of_lt fits) in
      (stored sum, stored-Stored sum, refl, rw same refl)
