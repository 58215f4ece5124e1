-- ===== src/Timer/Reschedule.antt =====
-- The wakeup times that ar_kernel_run_timers of src/ar_timer.cpp gives to a periodic timer.
use argon_rtos.Prelude.{
  ℕ, ◌+◌, ◌-◌, ◌*◌, ◌/◌, ◌%◌, ◌^◌, ◌≤◌, ◌<◌, ◌≡◌, ◌≢◌, ◌⊎◌, refl, zero, suc, some, ◌>>=◌, false,
  Bool-cases, inl, inr, ◌==◌, ltb, u32, sub32, arith, ap,
}
use argon_rtos.Timer.Fire.{aligned_delta, reschedule}
use native.Mathlib.Nat.{div-add-mod, mod-lt}

-- The next multiple of `d` that is not below `e`, by the division of the source.
round_up : (e d : ℕ) → 0 < d → (e ≤ (e + d - 1) / d * d) × ((e + d - 1) / d * d < e + d)
round_up e d p =
    let split : d * ((e + d - 1) / d) + (e + d - 1) % d ≡ e + d - 1 = div-add-mod (e + d - 1) d in
    let rest : (e + d - 1) % d < d = mod-lt (e + d - 1) p in (omega arith, omega arith)

-- A multiple of `d` between another one and the next is that one.
same_multiple : (n q d : ℕ) → n * d ≤ q * d → q * d < n * d + d → q * d ≡ n * d
same_multiple zero zero d low high = refl
same_multiple zero (suc q) d low high = omega arith
same_multiple (suc n) zero d low high = omega arith
same_multiple (suc n) (suc q) d low high =
    let rest = same_multiple n q d (omega arith) (omega arith) in omega (arith, rest)

-- The time `v` is a whole number of periods behind `w`, not before `tick` and at most one period
-- behind it. It is in the future unless the timer is late by more than a period. Then it is less than
-- a period behind `tick`, and `tick` itself if that is a whole number of periods behind `w`.
pub record IsNext (w d tick v : ℕ) : Type 0 where
  pub periods : ℕ
  pub aligned : v ≡ w + periods * d
  pub not_past : tick ≤ v
  pub near : v ≤ tick + d
  pub in_future : (tick < v) ⊎ (w + d < tick)
  pub first : (v < tick + d) ⊎ (tick ≤ w + d)
  pub due_now : (v ≡ tick) ⊎ ((tick ≤ w + d) ⊎ ((tick - w) % d ≢ 0))

module _ (w d tick : ℕ) (p : 0 < d) (due : w ≤ tick) (room : tick + d + d < 2 ^ 32) where
  -- A late timer whose aligned time is the tick itself is due at once.
  due-now :
      (q : ℕ) → tick ≤ w + q * d → w + q * d < tick + d → (w + q * d ≡ tick) ⊎ ((tick - w) % d ≢ 0)
  due-now q low high = elim (Bool-cases ((tick - w) % d == 0)) [
    | inl z ↦
        let n = (tick - w) / d in
        let split : d * n + (tick - w) % d ≡ tick - w = div-add-mod (tick - w) d in
        let zero_rest : (tick - w) % d ≡ 0 = ground arith in
        let whole : tick ≡ w + n * d = omega (arith, split, zero_rest) in
        inl (omega (arith, same_multiple n q d (omega arith) (omega arith)))
    | inr n ↦ inr (ground arith)
  ]

  aligned_delta-round_up : aligned_delta w d tick ≡ some ((tick - w + d - 1) / d * d)
  unfolding aligned_delta
  aligned_delta-round_up =
      let bound = round_up (tick - w) d p in
      let nonzero : (d == 0) ≡ false = ground arith in
      let e : sub32 (u32 (sub32 tick w + d)) 1 ≡ tick - w + d - 1 = omega arith in
      rw (nonzero, e) (ap (λ x. some x) (omega arith))

  -- A periodic timer whose wakeup time has come gets a wakeup time that is a whole number of periods
  -- behind the last one, not before the current tick and at most a period behind it. The time is
  -- behind the current tick, unless the timer is late by more than a period: then it is the first one
  -- that is not before the current tick, which is the current tick itself if that is a whole number
  -- of periods behind the last wakeup time. The period is not 0, and no time that is in play reaches
  -- 2^32.
  pub reschedule-IsNext : (v : ℕ) × (reschedule w d tick ≡ some v) × IsNext w d tick v
  unfolding reschedule
  reschedule-IsNext =
      let sum : u32 (w + d) ≡ w + d = omega arith in
      elim (Bool-cases ((w + d) == tick)) [
        | inl same ↦
            let e : w + d ≡ tick = ground arith in
            let twice : u32 (w + d + d) ≡ w + d + d = omega arith in
            (
              w + d + d,
              rw (sum, same, twice) refl,
              record {
                periods = 2;
                aligned = omega arith;
                not_past = omega arith;
                near = omega arith;
                in_future = inl (omega arith);
                first = inr (omega arith);
                due_now = inr (inl (omega arith));
              },
            )
        | inr other ↦ elim (Bool-cases (ltb (w + d) tick)) [
          | inl late ↦
              let (low, high) = round_up (tick - w) d p in
              let q = (tick - w + d - 1) / d in
              let total : u32 (w + q * d) ≡ w + q * d = omega arith in
              (
                w + q * d,
                rw (sum, other, late, aligned_delta-round_up, ◌>>=◌, total) refl,
                record {
                  periods = q;
                  aligned = refl;
                  not_past = omega arith;
                  near = omega arith;
                  in_future = inr (ground arith);
                  first = inl (omega arith);
                  due_now = elim (due-now q (omega arith) (omega arith)) [
                    | inl at ↦ inl at
                    | inr off ↦ inr (inr off)
                  ];
                },
              )
          | inr early ↦
              let after : tick ≤ w + d = ground arith in
              (
                w + d,
                rw (sum, other, early) refl,
                record {
                  periods = 1;
                  aligned = omega arith;
                  not_past = after;
                  near = omega arith;
                  in_future = inl (ground arith);
                  first = inr after;
                  due_now = inr (inl after);
                },
              )
        ]
      ]
