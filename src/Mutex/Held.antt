-- ===== src/Mutex/Held.antt =====
-- Getting a mutex that nobody else holds, and putting it.
use argon_rtos.Prelude.{
  ℕ, suc, ◌+◌, ◌-◌, ◌≡◌, ◌<◌, ◌^◌, refl, ◌∙◌, ap, ap₂, true, false, none, some, ◌>>=◌, [], ◌==◌,
  if◌then◌else◌, u32, arith, update-same, ◌⊎◌, inl, inr, Bool-cases,
}
use argon_rtos.Types.{success, Mutex}
use argon_rtos.Kernel.{Kernel, Objects}
use argon_rtos.Kernel.Lock.{lock}
use argon_rtos.Block.{finish, Finishes, of_mutex, blocked_list}
use argon_rtos.Block.Finish.{finish-Finishes, Finishes-mono, unblock_head-empty}
use argon_rtos.Mutex.{
  set_mutex, same_thread, is_null, take, get_loop, get_internal, get, restore, release,
  put_internal, put,
}

-- A mutex that thread `t` holds, or nobody.
abbrev pub IsOpenTo : ℕ → Mutex → Type 0
IsOpenTo t x =
    ((x.owner_lock_count ≡ 0) × (x.owner ≡ none)) ⊎ ((0 < x.owner_lock_count) × (x.owner ≡ some t))

-- The mutex once thread `t` has got it once more.
abbrev pub held_by : ℕ → Mutex → Mutex
held_by t x = record x { owner = some t; owner_lock_count = suc x.owner_lock_count }

-- The mutex once the thread that holds it has put it once.
abbrev pub put_once : Mutex → Mutex
put_once x =
    if x.owner_lock_count == 1
    then record x { owner = none; owner_lock_count = 0 }
    else record x { owner_lock_count = x.owner_lock_count - 1 }

module _ (m t : ℕ) (k : Kernel) (thread : k.port.irq_state ≡ false)
    (self : k.current_thread ≡ some t) where
  pub got-same :
      (k' : Kernel) (x : Mutex)
      → k'.objects ≡ (set_mutex m x (lock k)).objects
      → k'.objects.mutex m ≡ x
  unfolding lock
  got-same k' x e = ap (λ (o : Objects). o.mutex m) e ∙ update-same k.objects.mutex m x

  get-held :
      (timeout : ℕ)
      → (k.objects.mutex m).owner ≡ some t
      → get (some m) timeout k
        ≡ finish success (
            set_mutex m
              (record (k.objects.mutex m) {
                owner_lock_count = u32 ((k.objects.mutex m).owner_lock_count + 1);
              })
              (lock k))
  unfolding get get_internal lock
  get-held timeout e =
      let mine : same_thread k.current_thread (k.objects.mutex m).owner ≡ true =
        rw (self, e) (ground arith) in
      simp (thread, mine)

  get-free :
      (timeout : ℕ)
      → (k.objects.mutex m).owner_lock_count ≡ 0
      → (k.objects.mutex m).owner ≡ none
      → get (some m) timeout k
        ≡ finish success (
            set_mutex m
              (record (k.objects.mutex m) { owner = k.current_thread; owner_lock_count = 1 })
              (lock k))
  unfolding get get_internal get_loop take lock
  get-free timeout z e =
      let other : same_thread k.current_thread (k.objects.mutex m).owner ≡ false =
        rw (self, e) refl in
      let free : ((k.objects.mutex m).owner_lock_count == 0) ≡ true = ground arith in
      let nobody : is_null (k.objects.mutex m).owner ≡ true = rw e refl in
      simp (thread, other, free, nobody, ◌>>=◌)

  pub get-run :
      (timeout : ℕ)
      → IsOpenTo t (k.objects.mutex m)
      → suc (k.objects.mutex m).owner_lock_count < 2 ^ 32
      → get (some m) timeout k
        ≡ finish success (set_mutex m (held_by t (k.objects.mutex m)) (lock k))
  get-run timeout (inl (z, e)) word =
      get-free timeout z e
      ∙ ap₂
          (λ o n.
            finish success (
              set_mutex m (record (k.objects.mutex m) { owner = o; owner_lock_count = n })
                (lock k)))
          self (omega (arith, z))
  get-run timeout (inr (l, e)) word =
      get-held timeout e
      ∙ ap₂
          (λ o n.
            finish success (
              set_mutex m (record (k.objects.mutex m) { owner = o; owner_lock_count = n })
                (lock k)))
          e (omega (arith, word))

  module _ (e : (k.objects.mutex m).owner ≡ some t) where
    mine : same_thread k.current_thread (k.objects.mutex m).owner ≡ true
    mine = rw (self, e) (ground arith)

    put-inner :
        (n : ℕ)
        → (k.objects.mutex m).owner_lock_count ≡ suc (suc n)
        → put (some m) k
          ≡ finish success (
              set_mutex m
                (record (k.objects.mutex m) {
                  owner_lock_count = (k.objects.mutex m).owner_lock_count - 1;
                })
                (lock k))
    unfolding put put_internal lock
    put-inner n c =
        let held : ((k.objects.mutex m).owner_lock_count == 0) ≡ false = ground arith in
        let more : ((k.objects.mutex m).owner_lock_count == 1) ≡ false = ground arith in
        simp (thread, held, mine, more)

    -- The mutex once nobody holds it.
    abbrev freed : Kernel
    freed = set_mutex m (record (k.objects.mutex m) { owner = none; owner_lock_count = 0 }) (lock k)

    freed-same :
        freed.objects.mutex m ≡ record (k.objects.mutex m) { owner = none; owner_lock_count = 0 }
    freed-same = got-same freed _ refl

    release-run :
        (k.objects.mutex m).original_priority ≡ 0
        → (k.objects.mutex m).blocked_list ≡ []
        → release m t (lock k) ≡ finish success freed
    unfolding release restore lock blocked_list
    release-run low idle =
        let plain : ((freed.objects.mutex m).original_priority == 0) ≡ true =
          ap (λ (x : Mutex). x.original_priority == 0) freed-same ∙ ground arith in
        let quiet =
          unblock_head-empty (of_mutex m) success freed
            (ap (λ (x : Mutex). x.blocked_list) freed-same ∙ idle) in
        simp (plain, ◌>>=◌, quiet)

    put-outer :
        (k.objects.mutex m).owner_lock_count ≡ 1
        → (k.objects.mutex m).original_priority ≡ 0
        → (k.objects.mutex m).blocked_list ≡ []
        → put (some m) k ≡ finish success freed
    unfolding put put_internal lock
    put-outer c low idle =
        let held : ((k.objects.mutex m).owner_lock_count == 0) ≡ false = ground arith in
        let last : ((k.objects.mutex m).owner_lock_count == 1) ≡ true = ground arith in
        let step : put (some m) k ≡ (k.current_thread >>= λ a. release m a (lock k)) =
          simp (thread, held, mine, last) in
        step ∙ (ap (λ o. o >>= λ a. release m a (lock k)) self ∙ release-run low idle)

  module _ (e : (k.objects.mutex m).owner ≡ some t)
      (held : 0 < (k.objects.mutex m).owner_lock_count)
      (low : (k.objects.mutex m).original_priority ≡ 0)
      (idle : (k.objects.mutex m).blocked_list ≡ []) where
    put-run : put (some m) k ≡ finish success (set_mutex m (put_once (k.objects.mutex m)) (lock k))
    put-run = elim (Bool-cases ((k.objects.mutex m).owner_lock_count == 1)) [
      | inl c ↦ rw c (put-outer e (ground arith) low idle)
      | inr c ↦ rw c (put-inner e ((k.objects.mutex m).owner_lock_count - 2) (ground (arith, held)))
    ]

    pub put-Finishes :
        Finishes
          (λ r k'.
            (r ≡ success)
            × (k'.objects.mutex m ≡ put_once (k.objects.mutex m))
            × (k'.threads ≡ k.threads))
          (put (some m) k)
    unfolding lock
    put-Finishes =
        let f = set_mutex m (put_once (k.objects.mutex m)) (lock k) in
        rw put-run (
          Finishes-mono (finish success f)
            (λ r k'. (r ≡ success) × (k'.objects ≡ f.objects) × (k'.threads ≡ k.threads)) _
            (finish-Finishes success f (ground arith))
            (λ r k' p. (p.0, got-same k' (put_once (k.objects.mutex m)) p.1, p.2)))
