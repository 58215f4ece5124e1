-- ===== src/Port/SysTick.antt =====
-- ar_port_set_timer_delay and ar_port_get_timer_elapsed_us of src/cortex_m/ar_port.cpp, on the
-- registers of the SysTick timer. `clock` is `SystemCoreClock`.
pub mod Reload
use argon_rtos.Prelude.{
  ℕ, ◌+◌, ◌-◌, ◌*◌, ◌/◌, Bool, true, false, ◌==◌, ltb, if◌then◌else◌, u32, sub32,
}

-- The registers LOAD and VAL, and the bits of CTRL and ICSR that are in use.
pub record Registers : Type 0 where
  pub load : ℕ
  pub val : ℕ
  pub enable : Bool
  pub tick_int : Bool
  pub count_flag : Bool
  pub pending : Bool

-- `SysTick_LOAD_RELOAD_Msk`.
abbrev pub load_reload_mask : ℕ
load_reload_mask = 0x00ff_ffff

-- The reload value for a delay of at least one microsecond.
unfoldable pub reload : (clock delay_us : ℕ) → ℕ
reload clock delay_us =
    let ticks = sub32 (u32 (clock / 1_000_000 * delay_us)) 1 in
    if ltb load_reload_mask ticks then load_reload_mask else ticks

-- `ar_port_set_timer_delay`. A write of VAL clears it, and the count flag.
unfoldable pub set_timer_delay : (clock : ℕ) → Bool → ℕ → Registers → Registers
set_timer_delay clock enable delay_us s =
    if enable
    then (if delay_us == 0
        then record {
          load = 0;
          val = 0;
          enable = false;
          tick_int = false;
          count_flag = false;
          pending = true;
        }
        else record {
          load = reload clock delay_us;
          val = 0;
          enable = true;
          tick_int = true;
          count_flag = false;
          pending = s.pending;
        })
    else record {
      load = load_reload_mask;
      val = 0;
      enable = true;
      tick_int = false;
      count_flag = false;
      pending = s.pending;
    }

-- `ar_port_init_tick_timer`, with tickless idle: a pending interrupt is cleared.
unfoldable pub init_tick_timer : (clock : ℕ) → Registers → Registers
init_tick_timer clock s =
    set_timer_delay clock false 0 (record s { enable = false; tick_int = false; pending = false })

-- `ar_port_get_timer_elapsed_us`. Reading CTRL clears the count flag.
unfoldable pub get_timer_elapsed_us : (clock : ℕ) → Registers → ℕ × Registers
get_timer_elapsed_us clock s =
    let counter = sub32 s.load s.val in
    let counter = if s.count_flag then u32 (counter + s.load) else counter in
    (counter / (clock / 1_000_000), record s { count_flag = false })
