-- ===== src/Channel/Rendezvous.antt =====
-- A thread meets another one that waits at a channel in the other direction.
use argon_rtos.Prelude.{ℕ, ◌≡◌, ◌<◌, ◌≤◌, ◌+◌, ◌⊎◌, Bool, false, List, ◌∷◌}
use argon_rtos.Kernel.{Kernel}
use argon_rtos.Kernel.Lock.{lock}
use argon_rtos.Thread.Consistent.{IsConsistent}
use argon_rtos.Block.{blocked_list, set_objects}
use argon_rtos.Block.Unblock.{IsBlocked}
use argon_rtos.Channel.{other_list, source, destination, copy_bytes}
use argon_rtos.ArList.Seq

-- The memory `f'` has the `n` bytes of `f` from `src` on at `dest`, and is as `f` elsewhere.
pub record Copied (n dest src : ℕ) (f f' : ℕ → ℕ) : Type 0 where
  pub bytes : (i : ℕ) → i < n → f' (dest + i) ≡ f (src + i)
  pub others : (a : ℕ) → (a < dest) ⊎ (dest + n ≤ a) → f' a ≡ f a

module _ (is_sending : Bool) (c value timeout : ℕ) (k : Kernel) (thread : k.port.irq_state ≡ false)
    (t : ℕ) (ts : List ℕ) (e : blocked_list (other_list is_sending c) k ≡ t ∷ ts)
    (n : IsConsistent k.threads) (i : IsBlocked t (other_list is_sending c) k) where
  abbrev partner : ℕ
  partner = (k.threads.thread t).channel_data

  abbrev width : ℕ
  width = (k.objects.channel c).width

  -- The kernel under the lock, with the value copied.
  abbrev copied : Kernel
  copied =
      set_objects
        (record (k.objects) {
          memory =
              copy_bytes width (destination is_sending value partner)
                (source is_sending value partner) k.objects.memory;
        })
        (lock k)
