-- ===== src/Seh/Dispatch.antt =====
-- The walk of the registration chain: dispatch_exception of tew/kernel/seh.py, and RaiseException.
use tew.Base.{
  ℕ, zero, suc, ◌+◌, ◌-◌, ◌%◌, ◌^◌, min, ◌==◌, Bool, true, false, ◌||◌, if◌then◌else◌, some, List,
  [], ◌∷◌, out_of_fuel, ◌>>=◌, ◌>>◌, pure, raise,
}
use tew.State.Native.{Native}
use tew.Machine.{mask32, fatal_halt}
use tew.Seh.{
  Core, Seh, get_thread, change, in_world, set_esp, set_eip, load32, esp_of, eip_of,
  write_exception_record, write_context, apply_context, Outcome, returned, escaped, timed_out,
  clear_fault, invoke_handler, exception_record_size, context_size, exception_maximum_parameters,
}

abbrev pub member : ℕ → List ℕ → Bool
member a [] = false
member a (b ∷ bs) = (b == a) || member a bs

-- frame in (0, 0xFFFFFFFF)
abbrev pub no_frame : ℕ → Bool
no_frame frame = (frame == 0) || (frame == 0xFFFFFFFF)

-- Where EXCEPTION_RECORD and CONTEXT are written, below the stack.
abbrev scratch_of : ℕ → ℕ
scratch_of esp = mask32 (esp + 2 ^ 32 - (exception_record_size + context_size) - 0x200)

module _ {N : Type 0} ⦃lib : Native N⦄ (core : Core N) where
  -- Nobody handled it: EIP goes back to the fault.
  unfoldable pub unhandled : ℕ → Seh N Bool
  unhandled exception_address = do set_eip exception_address; pure false

  -- What the end of a handler's call means for the dispatch; `rest` is the walk from the next frame on.
  unfoldable pub judge : ℕ → ℕ → Seh N Bool → Outcome → Seh N Bool
  judge exception_address context rest (escaped eip faulted esp_before) =
      if faulted then (do clear_fault core; set_esp esp_before; rest) else pure true
  judge exception_address context rest timed_out = unhandled exception_address
  judge exception_address context rest (returned disposition) =
      if disposition == 0 then (do apply_context context; pure true) else rest

  unfoldable pub dispatch_walk : ℕ → ℕ → ℕ → List ℕ → ℕ → Seh N Bool
  dispatch_walk zero exception_address scratch visited frame = raise out_of_fuel
  dispatch_walk (suc fuel) exception_address scratch visited frame =
      if no_frame frame || member frame visited then unhandled exception_address else do
        next ← load32 frame
        handler ← load32 (frame + 4)
        let context = scratch + exception_record_size
        out ← invoke_handler core handler (0 ∷ context ∷ frame ∷ scratch ∷ [])
        judge exception_address context
            (dispatch_walk fuel exception_address scratch (frame ∷ visited) next) out

  -- _dispatch_exception; a chain has as many frames as there are addresses at most.
  unfoldable pub dispatch_chain : ℕ → ℕ → List ℕ → Bool → Seh N Bool
  dispatch_chain code exception_address parameters noncontinuable = do
    t ← get_thread
    let scratch = scratch_of (mask32 (esp_of t))
    write_exception_record scratch code exception_address parameters noncontinuable
    write_context (scratch + exception_record_size)
    frame ← load32 t.fs_base
    change (λ u. record u { original_frame = some frame; original_ebp = some (mask32 u.ebp) })
    dispatch_walk (suc (2 ^ 32)) exception_address scratch [] frame

  -- The attributes of an outer dispatch come back, however this one ends.
  unfoldable pub dispatch_exception : ℕ → ℕ → List ℕ → Bool → Seh N Bool
  dispatch_exception code exception_address parameters noncontinuable t =
      let r =
        dispatch_chain code exception_address parameters noncontinuable
          (record t { dispatching = true }) in
      (
        r.0,
        record r.1 {
          dispatching = t.dispatching;
          original_frame = t.original_frame;
          original_ebp = t.original_ebp;
        },
      )

  unfoldable pub read_parameters : ℕ → ℕ → Seh N (List ℕ)
  read_parameters addr zero = pure []
  read_parameters addr (suc n) = do
    v ← load32 addr
    vs ← read_parameters (addr + 4) n
    pure (v ∷ vs)

  unfoldable pub halt_unless : Bool → Seh N (Unit {0})
  halt_unless true = pure tt
  halt_unless false = in_world fatal_halt

  unfoldable pub raise_exception : Seh N (Unit {0})
  raise_exception = do
    t ← get_thread
    code ← load32 (esp_of t + 4)
    flags ← load32 (esp_of t + 8)
    n_args ← load32 (esp_of t + 12)
    args_ptr ← load32 (esp_of t + 16)
    parameters ←
        if args_ptr == 0
        then pure []
        else read_parameters args_ptr (min n_args exception_maximum_parameters)
    handled ← dispatch_exception code (mask32 (eip_of t)) parameters (flags % 2 == 1)
    halt_unless handled
