-- ===== src/Port/SysTick/Reload.antt =====
-- The reload value of the SysTick timer in src/cortex_m/ar_port.cpp, against the delay asked for.
use argon_rtos.Prelude.{
  ℕ, ◌+◌, ◌-◌, ◌*◌, ◌/◌, ◌^◌, ◌≤◌, ◌<◌, ◌≡◌, refl, true, false, Bool-cases, inl, inr, ltb, u32,
  sub32, arith, ◌==◌,
}
use argon_rtos.Port.SysTick.{
  Registers, load_reload_mask, reload, set_timer_delay, get_timer_elapsed_us,
}
use native.Mathlib.Nat.{mul-lt-mul_of_pos_left, div-le_of_le-mul}

-- The registers after a delay of `delay_us` was set on a processor with `mhz` clocks per microsecond.
-- The timer counts down from the reload value, so that a period has `load + 1` clocks.
pub record IsArmed (clock mhz delay_us : ℕ) (s : Registers) : Type 0 where
  pub running : (s.enable ≡ true) × (s.tick_int ≡ true)
  pub in_register : s.load ≤ load_reload_mask
  pub not_late : s.load + 1 ≤ mhz * delay_us
  pub exact : mhz * delay_us ≤ load_reload_mask + 1 → s.load + 1 ≡ mhz * delay_us
  pub elapsed :
      (v : ℕ) → v ≤ s.load → (get_timer_elapsed_us clock (record s { val = v })).0 ≤ delay_us

module _ (clock mhz delay_us : ℕ) (e : clock / 1_000_000 ≡ mhz) (c : 0 < mhz) (p : 0 < delay_us)
    (room : mhz * delay_us < 2 ^ 32) where
  reload-clocks :
      (reload clock delay_us ≤ load_reload_mask)
      × (reload clock delay_us + 1 ≤ mhz * delay_us)
      × (mhz * delay_us ≤ load_reload_mask + 1 → reload clock delay_us + 1 ≡ mhz * delay_us)
  unfolding reload
  reload-clocks =
      let some_clock : mhz * 0 < mhz * delay_us = mul-lt-mul_of_pos_left p c in
      let n = mhz * delay_us in
      let ticks : sub32 (u32 n) 1 ≡ n - 1 = omega arith in
      rw (e, ticks)
        (elim (Bool-cases (ltb load_reload_mask (n - 1))) [
          | inl long ↦
              let far : load_reload_mask < n - 1 = ground arith in
              rw long (omega arith, omega arith, λ h. omega arith)
          | inr short ↦
              let fits : n - 1 ≤ load_reload_mask = ground arith in
              rw short (fits, omega arith, λ h. omega arith)
        ])

  elapsed-le :
      (load v : ℕ)
      → load + 1 ≤ mhz * delay_us
      → v ≤ load
      → sub32 load v / (clock / 1_000_000) ≤ delay_us
  elapsed-le load v h b = rw e (div-le_of_le-mul mhz (omega arith))

  -- Setting a delay, of at least one microsecond and less than 2^32 clocks, starts the timer with its
  -- interrupt, with a reload value of 24 bits: the period is not longer than the delay, and as long
  -- if the register can hold it. Until the counter wraps, the elapsed time is not above the delay.
  pub set_timer_delay-IsArmed :
      (s : Registers) → IsArmed clock mhz delay_us (set_timer_delay clock true delay_us s)
  unfolding set_timer_delay get_timer_elapsed_us
  set_timer_delay-IsArmed s =
      let nonzero : (delay_us == 0) ≡ false = ground arith in
      let (fits, within, full) = reload-clocks in
      rw nonzero (record {
        running = (refl, refl);
        in_register = fits;
        not_late = within;
        exact = full;
        elapsed = λ v b. elapsed-le (reload clock delay_us) v within b;
      })
