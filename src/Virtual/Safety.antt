-- ===== src/Virtual/Safety.antt =====
-- VirtualAlloc of tew/api/kernel32_memory.py and the conditions on reservations.
use tew.State.{World}
use tew.State.Native.{Native}
use tew.Virtual.{virtual_alloc}
use tew.Virtual.Keeps.{VirtualInv, virtual_alloc-Keeps}

module _ {N : Type 0} ⦃lib : Native N⦄ where
  -- VirtualAlloc, with any arguments and however it ends, keeps the reserved ranges apart from one
  -- another and inside the user part of the address space.
  pub virtual_alloc-VirtualInv :
      (w : World N) → VirtualInv (w.state.virtual) → VirtualInv ((virtual_alloc w).1.state.virtual)
  virtual_alloc-VirtualInv w v = virtual_alloc-Keeps.at w v
