-- ===== src/Seh/Leaves.antt =====
-- The state in which a handler's call and a dispatch leave the thread, for tew/kernel/seh.py.
use tew.Base.{
  ℕ, zero, suc, ◌+◌, ◌≡◌, refl, ◌==◌, Bool, true, false, not, ◌||◌, if◌then◌else◌, Option, none,
  some, List, [], ◌∷◌, Result, ok, err, ◌>>=◌, ◌>>◌, pure, raise, proceed, arith,
}
use tew.State.Native.{Native}
use tew.Machine.{mask32}
use tew.Seh.{
  GuestThread, Core, Seh, get_thread, change, set_esp, set_eip, esp_of, eip_of, with_cpu, Outcome,
  returned, escaped, timed_out, landed, after_run, call_from, invoke_handler, seh_return_sentinel,
}
use tew.Seh.Dispatch.{
  member, no_frame, unhandled, judge, dispatch_walk, dispatch_chain, dispatch_exception,
}

abbrev pub After : {N A : Type 0} → (A → GuestThread N → Type 0) → Result A → GuestThread N → Type 0
After P (ok a) t = P a t
After P (err e) t = Unit

-- What holds of the result and the state where `m` returns.
record Leaves {N A : Type 0} (P : A → GuestThread N → Type 0) (m : Seh N A) : Type 0 where
  at : (t : GuestThread N) → After P (m t).0 (m t).1

module _ {N A : Type 0} {P : A → GuestThread N → Type 0} where
  Leaves-raise : (e : _) → Leaves P (raise {W = GuestThread N} e)
  unfolding raise
  Leaves-raise e = record { at = λ t. tt }

  Leaves-pure : (a : A) → ((t : GuestThread N) → P a t) → Leaves P (pure {W = GuestThread N} a)
  unfolding pure
  Leaves-pure a h = record { at = λ t. h t }

  Leaves-if :
      (test : Bool) (first second : Seh N A)
      → Leaves P first
      → Leaves P second
      → Leaves P (if test then first else second)
  Leaves-if true first second yes' no' = yes'
  Leaves-if false first second yes' no' = no'

module _ {N A B : Type 0} {P : B → GuestThread N → Type 0} where
  After-proceed :
      (r : Result A) (t : GuestThread N) (next : A → Seh N B)
      → ((a : A) → Leaves P (next a))
      → After P (proceed (r, t) next).0 (proceed (r, t) next).1
  After-proceed (ok a) t next rest = (rest a).at t
  After-proceed (err e) t next rest = tt

  Leaves-bind :
      (m : Seh N A) (next : A → Seh N B) → ((a : A) → Leaves P (next a)) → Leaves P (m >>= next)
  unfolding ◌>>=◌
  Leaves-bind m next rest = record { at = λ t. After-proceed (m t).0 (m t).1 next rest }

-- A call of a handler from the stack pointer `esp`: one that returns, or that is given up, leaves it as it
-- was, one that is given up halts the thread for good, and an escape tells it.
abbrev pub Settled : {N : Type 0} → ℕ → Outcome → GuestThread N → Type 0
Settled esp (returned disposition) t = esp_of t ≡ esp
Settled esp (escaped eip faulted esp_before) t = esp_before ≡ esp
Settled esp timed_out t =
    (esp_of t ≡ esp) × (t.world.cpu.halted ≡ true) × (t.world.cpu.fatal_halt ≡ true)

module _ {N : Type 0} ⦃lib : Native N⦄ (core : Core N) where
  gave_up :
      (esp : ℕ)
      → mask32 esp ≡ esp
      → Leaves {N = N} (Settled esp) (
          change (with_cpu (λ c. record c { halted = true; fatal_halt = true; esp = mask32 esp }))
          >> pure timed_out)
  unfolding change pure ◌>>=◌
  gave_up esp word = record { at = λ t. (word, refl, refl) }

  came_back :
      (esp : ℕ)
      → mask32 esp ≡ esp
      → (u : GuestThread N)
      → Leaves {N = N} (Settled esp) (set_esp esp >> pure (returned (mask32 u.world.cpu.eax)))
  unfolding set_esp change pure ◌>>=◌
  came_back esp word u = record { at = λ t. word }

  landed-Settled : (esp : ℕ) → mask32 esp ≡ esp → Leaves {N = N} (Settled esp) (landed core esp)
  unfolding landed
  landed-Settled esp word = Leaves-bind _ _ λ t.
      Leaves-if (not t.world.cpu.halted) _ _ (gave_up esp word) (
        Leaves-if (not (mask32 (eip_of t) == seh_return_sentinel + 2)) _ _
          (Leaves-pure _ (λ u. refl))
          (Leaves-bind _ _ λ u. Leaves-bind _ _ λ v. came_back esp word v))

  after_run-Settled :
      (esp : ℕ) (far : Option ℕ)
      → mask32 esp ≡ esp
      → Leaves {N = N} (Settled esp) (after_run core esp far)
  unfolding after_run
  after_run-Settled esp none word = landed-Settled esp word
  after_run-Settled esp (some eip) word = Leaves-pure _ (λ t. refl)

  call_from-Settled :
      (esp handler_addr : ℕ) (args : List ℕ)
      → mask32 esp ≡ esp
      → Leaves {N = N} (Settled esp) (call_from core esp handler_addr args)
  unfolding call_from
  call_from-Settled esp handler_addr args word = Leaves-bind _ _ λ esp'. Leaves-bind _ _ λ u.
      Leaves-bind _ _ λ u1.
        Leaves-bind _ _
          λ u2. Leaves-bind _ _ λ u3. Leaves-bind _ _ λ far. after_run-Settled esp far word

  -- A call of a handler that returns, or is given up, restores ESP; one that is given up halts the thread for
  -- good; and an escape tells the ESP of the call.
  pub invoke_handler-Settled :
      (handler_addr : ℕ) (args : List ℕ) (t : GuestThread N)
      → After
          (Settled (mask32 (esp_of t)))
          (invoke_handler core handler_addr args t).0
          (invoke_handler core handler_addr args t).1
  unfolding invoke_handler get_thread ◌>>=◌
  invoke_handler-Settled handler_addr args t =
      (call_from-Settled (mask32 (esp_of t)) handler_addr args (omega arith)).at t

  -- The dispatch gives up at the place of the exception.
  Unresolved : ℕ → Bool → GuestThread N → Type 0
  Unresolved address handled t = handled ≡ false → eip_of t ≡ mask32 address

  unhandled-Unresolved :
      (address : ℕ) → Leaves {N = N} (Unresolved address) (unhandled core address)
  unfolding unhandled set_eip change pure ◌>>=◌ Unresolved
  unhandled-Unresolved address = record { at = λ t h. refl }

  judge-Unresolved :
      (address context : ℕ) (rest : Seh N Bool) (out : Outcome)
      → Leaves (Unresolved address) rest
      → Leaves {N = N} (Unresolved address) (judge core address context rest out)
  unfolding judge Unresolved
  judge-Unresolved address context rest (escaped eip faulted esp_before) h =
      Leaves-if faulted _ _ (Leaves-bind _ _ λ u. Leaves-bind _ _ λ v. h)
        (Leaves-pure true (λ t e. cc e))
  judge-Unresolved address context rest timed_out h = unhandled-Unresolved address
  judge-Unresolved address context rest (returned disposition) h =
      Leaves-if (disposition == 0) _ _ (Leaves-bind _ _ λ u. Leaves-pure true (λ t e. cc e)) h

  dispatch_walk-Unresolved :
      (fuel address scratch : ℕ) (visited : List ℕ) (frame : ℕ)
      → Leaves {N = N} (Unresolved address) (dispatch_walk core fuel address scratch visited frame)
  unfolding dispatch_walk
  dispatch_walk-Unresolved zero address scratch visited frame = Leaves-raise _
  dispatch_walk-Unresolved (suc fuel) address scratch visited frame =
      Leaves-if (no_frame frame || member frame visited) _ _ (unhandled-Unresolved address) (
        Leaves-bind _ _ λ next. Leaves-bind _ _ λ handler. Leaves-bind _ _ λ out.
          judge-Unresolved address _ _ out
            (dispatch_walk-Unresolved fuel address scratch (frame ∷ visited) next))

  dispatch_chain-Unresolved :
      (code address : ℕ) (ps : List ℕ) (noncontinuable : Bool)
      → Leaves {N = N} (Unresolved address) (dispatch_chain core code address ps noncontinuable)
  unfolding dispatch_chain
  dispatch_chain-Unresolved code address ps noncontinuable = Leaves-bind _ _ λ t.
      Leaves-bind _ _ λ u. Leaves-bind _ _ λ v.
        Leaves-bind _ _ λ frame. Leaves-bind _ _ λ w. dispatch_walk-Unresolved _ address _ [] frame

after_false :
    {N : Type 0} (P : Bool → GuestThread N → Type 0) (r : Result Bool) (t : GuestThread N)
    → After P r t
    → r ≡ ok false
    → P false t
after_false P (ok true) t h e = cc e
after_false P (ok false) t h e = h
after_false P (err x) t h e = cc e

module _ {N : Type 0} ⦃lib : Native N⦄ (core : Core N) where
  -- An exception that no handler takes leaves EIP at its address, and the record of an outer dispatch as it
  -- was before.
  pub dispatch_exception-unhandled :
      (code address : ℕ) (ps : List ℕ) (noncontinuable : Bool) (t : GuestThread N)
      → (dispatch_exception core code address ps noncontinuable t).0 ≡ ok false
      → (eip_of (dispatch_exception core code address ps noncontinuable t).1 ≡ mask32 address)
        × ((dispatch_exception core code address ps noncontinuable t).1.dispatching ≡ t.dispatching)
        × ((dispatch_exception core code address ps noncontinuable t).1.original_frame
            ≡ t.original_frame)
        × ((dispatch_exception core code address ps noncontinuable t).1.original_ebp
            ≡ t.original_ebp)
  unfolding dispatch_exception Unresolved
  dispatch_exception-unhandled code address ps noncontinuable t e =
      let u = record t { dispatching = true } in
      let h = (dispatch_chain-Unresolved core code address ps noncontinuable).at u in
      (
        after_false (Unresolved core address)
            (dispatch_chain core code address ps noncontinuable u).0
            (dispatch_chain core code address ps noncontinuable u).1 h e refl,
        refl,
        refl,
        refl,
      )
