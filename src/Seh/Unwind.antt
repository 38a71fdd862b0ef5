-- ===== src/Seh/Unwind.antt =====
-- RtlUnwind, of tew/kernel/seh.py: the frames below the target leave the chain, each after a call of its
-- handler.
use tew.Base.{
  ℕ, zero, suc, ◌+◌, ◌^◌, ◌==◌, Bool, true, ◌||◌, if◌then◌else◌, none, some, List, [], ◌∷◌,
  out_of_fuel, ◌>>=◌, ◌>>◌, pure, raise, bit_or,
}
use tew.State.Native.{Native}
use tew.Machine.{mask32, set_eax, cleanup_stdcall}
use tew.Seh.{
  GuestThread, Core, Seh, get_thread, change, in_world, set_esp, set_eip, load32, store32, esp_of,
  Outcome, returned, escaped, timed_out, clear_fault, invoke_handler,
}
use tew.Seh.Dispatch.{member, no_frame}

abbrev eh_unwinding : ℕ
eh_unwinding = 2

abbrev pub at_target : ℕ → ℕ → Bool
at_target target frame = no_frame frame || (frame == target)

-- The registers EBX, ESI, EDI and EBP of `saved`.
abbrev restore_regs : {N : Type 0} → GuestThread N → GuestThread N → GuestThread N
restore_regs saved t = record t {
  ebx = mask32 saved.ebx;
  esi = mask32 saved.esi;
  edi = mask32 saved.edi;
  ebp = mask32 saved.ebp;
}

-- EBP after an unwind to TargetIp.
abbrev restore_ebp : {N : Type 0} → ℕ → GuestThread N → GuestThread N → GuestThread N
restore_ebp target saved t =
    if saved.dispatching
    then elim t.original_frame [
      | none ↦ t
      | some frame ↦
          if target == frame
          then elim t.original_ebp [ none ↦ t | some v ↦ record t { ebp = mask32 v } ]
          else t
    ]
    else restore_regs saved t

module _ {N : Type 0} ⦃lib : Native N⦄ (core : Core N) where
  -- Whatever an intervening handler did but return is only put right.
  unfoldable pub settle : Outcome → Seh N (Unit {0})
  settle (escaped eip faulted esp_before) = do clear_fault core; set_esp esp_before
  settle timed_out = pure tt
  settle (returned disposition) = pure tt

  -- The call of an intervening handler, with EH_UNWINDING in the flags of the record, if there is one.
  unfoldable pub unwind_handler : ℕ → ℕ → ℕ → Seh N (Unit {0})
  unwind_handler exc_record frame handler =
      if exc_record == 0
      then (do out ← invoke_handler core handler (0 ∷ 0 ∷ frame ∷ exc_record ∷ []); settle out)
      else do
        old_flags ← load32 (exc_record + 0x04)
        store32 (exc_record + 0x04) (bit_or old_flags eh_unwinding)
        out ← invoke_handler core handler (0 ∷ 0 ∷ frame ∷ exc_record ∷ [])
        settle out
        store32 (exc_record + 0x04) old_flags

  -- The frame at which the walk ends.
  unfoldable pub unwind_walk : ℕ → ℕ → ℕ → ℕ → List ℕ → ℕ → Seh N ℕ
  unwind_walk zero fs_base target exc_record visited frame = raise out_of_fuel
  unwind_walk (suc fuel) fs_base target exc_record visited frame =
      if at_target target frame || member frame visited then pure frame else do
        next ← load32 frame
        handler ← load32 (frame + 4)
        unwind_handler exc_record frame handler
        store32 fs_base next
        unwind_walk fuel fs_base target exc_record (frame ∷ visited) next

  -- The head of the chain is the frame of the handler that calls RtlUnwind: it is only taken out.
  unfoldable pub pop_head : ℕ → ℕ → Seh N ℕ
  pop_head fs_base target = do
    frame ← load32 fs_base
    if at_target target frame
        then pure frame
        else do next ← load32 frame; store32 fs_base next; pure next

  unfoldable pub unwind_chain : ℕ → ℕ → ℕ → Seh N ℕ
  unwind_chain fs_base target exc_record = do
    frame ← pop_head fs_base target
    unwind_walk (suc (2 ^ 32)) fs_base target exc_record [] frame

  unfoldable pub finish_unwind : ℕ → ℕ → ℕ → GuestThread N → Seh N (Unit {0})
  finish_unwind target target_ip return_value saved =
      if target_ip == 0
      then (do in_world (set_eax return_value); in_world (cleanup_stdcall 16))
      else do
        in_world (set_eax return_value)
        set_esp (esp_of saved + 20)
        change (restore_ebp target saved)
        set_eip target_ip
        change (λ t. record t { just_redirected = true })

  unfoldable pub rtl_unwind : Seh N (Unit {0})
  rtl_unwind = do
    t ← get_thread
    target_frame ← load32 (esp_of t + 4)
    target_ip ← load32 (esp_of t + 8)
    exc_record ← load32 (esp_of t + 12)
    return_value ← load32 (esp_of t + 16)
    caller ← load32 (esp_of t)
    record_code ← if exc_record == 0 then pure 0 else load32 exc_record
    frame ← unwind_chain t.fs_base target_frame exc_record
    finish_unwind target_frame target_ip return_value t
