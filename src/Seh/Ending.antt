-- ===== src/Seh/Ending.antt =====
-- That the walks of the registration chain, and the calls of handlers, end: for tew/kernel/seh.py.
use tew.Base.{
  ℕ, zero, suc, ◌+◌, ◌-◌, ◌^◌, ◌<◌, ◌≡◌, ◌≢◌, ◌==◌, Bool, true, false, ◌||◌, Bool-cases, Option,
  none, some, List, [], ◌∷◌, inl, inr, Result, ok, err, out_of_fuel, arith,
}
use tew.State.{Buffer}
use tew.State.Native.{Native}
use tew.Seh.{
  GuestThread, Core, Seh, Outcome, returned, escaped, timed_out, clear_fault, resume, push_all,
  take_redirect, next_batch, run_batch, run_batches, landed, after_run, call_from, invoke_handler,
  write_exception_record, write_context, apply_context,
}
use tew.Seh.Dispatch.{
  member, no_frame, unhandled, judge, dispatch_walk, dispatch_chain, dispatch_exception,
  read_parameters, halt_unless, raise_exception,
}
use tew.Seh.Unwind.{
  at_target, settle, unwind_handler, unwind_walk, pop_head, unwind_chain, finish_unwind, rtl_unwind,
}
use tew.Seh.Ends.{
  Fine, Any, Ends, ends_rules, Ends-pure, Ends-value, Ends-if, Ends-after, Ends-bind,
  Ends-load32_below, Ends-load32, Ends-store32, Ends-set_eip, Ends-set_esp, Ends-get_thread,
  Ends-change,
}
use tew.Seh.Visits.{unvisited, unvisited-le, unvisited-visit}

less_left :
    (halted : Bool) (left fine fuel : ℕ)
    → (halted || (left == 0)) ≡ false
    → left < suc fuel
    → left - next_batch fine left < fuel
less_left halted left fine fuel more h = ground arith

both_false : (first second : Bool) → (first || second) ≡ false → second ≡ false
both_false first second h = ground arith

not_out_of_fuel : {A : Type 0} (r : Result A) → Fine Any r → r ≢ err out_of_fuel
not_out_of_fuel (ok a) h e = cc
not_out_of_fuel (err x) h e = h (cc)

module _ {N : Type 0} ⦃lib : Native N⦄ (core : Core N) where
  push_all-Ends : (vs : List ℕ) (esp : ℕ) → Ends {N = N} Any (push_all core vs esp)
  unfolding push_all
  push_all-Ends [] esp = Ends-pure esp
  push_all-Ends (v ∷ vs) esp = Ends-bind _ _ (Ends-store32 _ v) (λ u. push_all-Ends vs _)

  resume-Ends : Ends {N = N} Any (resume core)
  unfolding resume
  resume-Ends = record { at = λ t. tt }

  clear_fault-Ends : Ends {N = N} Any (clear_fault core)
  unfolding clear_fault
  clear_fault-Ends = record { at = λ t. tt }

  take_redirect-Ends : (fine : ℕ) → Ends {N = N} Any (take_redirect core fine)
  unfolding take_redirect
  take_redirect-Ends fine = record {
    at = λ t. elim (Bool-cases t.just_redirected) [ inl e ↦ rw e tt | inr e ↦ rw e tt ];
  }

  run_batch-Ends : (n : ℕ) → Ends {N = N} Any (run_batch core n)
  unfolding run_batch
  run_batch-Ends n = record { at = λ t. tt }

  -- Each round uses up a step at least.
  run_batches-Ends :
      (fuel handler_addr left fine : ℕ)
      → left < fuel
      → Ends {N = N} Any (run_batches core fuel handler_addr left fine)
  unfolding run_batches
  run_batches-Ends zero handler_addr left fine h = elim h [ ]
  run_batches-Ends (suc fuel) handler_addr left fine h = Ends-bind _ _ Ends-get_thread λ t.
      Ends-if _ _ _ (λ stop. Ends-pure none)
        λ more. Ends-bind _ _ (take_redirect-Ends fine) λ fine'.
          Ends-bind _ _ (run_batch-Ends _) λ u. Ends-bind _ _ Ends-get_thread λ v.
            let rest =
              run_batches-Ends fuel handler_addr (left - next_batch fine' left)
                (fine' - next_batch fine' left)
                (less_left t.world.cpu.halted left fine' fuel more h) in
            search (ends_rules, rest) depth 4

  landed-Ends : (esp_before : ℕ) → Ends {N = N} Any (landed core esp_before)
  unfolding landed
  landed-Ends esp_before = search (ends_rules, resume-Ends) depth 20

  after_run-Ends :
      (esp_before : ℕ) (far : Option ℕ) → Ends {N = N} Any (after_run core esp_before far)
  unfolding after_run
  after_run-Ends esp_before none = landed-Ends esp_before
  after_run-Ends esp_before (some eip) = Ends-pure _

  call_from-Ends :
      (esp handler_addr : ℕ) (args : List ℕ)
      → Ends {N = N} Any (call_from core esp handler_addr args)
  unfolding call_from
  call_from-Ends esp handler_addr args = Ends-bind _ _ (push_all-Ends _ _) λ esp'.
      Ends-bind _ _ (Ends-set_esp _) λ u. Ends-bind _ _ (Ends-set_eip _) λ u1.
        Ends-bind _ _ resume-Ends λ u2. Ends-bind _ _ (Ends-change _) λ u3.
          Ends-bind _ _ (run_batches-Ends _ handler_addr _ 0 (omega arith))
            λ far. after_run-Ends _ far

  invoke_handler-Ends :
      (handler_addr : ℕ) (args : List ℕ) → Ends {N = N} Any (invoke_handler core handler_addr args)
  unfolding invoke_handler
  invoke_handler-Ends handler_addr args =
      Ends-bind _ _ Ends-get_thread λ t. call_from-Ends _ handler_addr args

  write_exception_record-Ends :
      (addr code address : ℕ) (ps : List ℕ) (noncontinuable : Bool)
      → Ends {N = N} Any (write_exception_record addr code address ps noncontinuable)
  unfolding write_exception_record
  write_exception_record-Ends addr code address ps noncontinuable = search ends_rules depth 20

  write_context-Ends : (addr : ℕ) → Ends {N = N} Any (write_context addr)
  unfolding write_context
  write_context-Ends addr = search ends_rules depth 10

  apply_context-Ends : (addr : ℕ) → Ends {N = N} Any (apply_context addr)
  unfolding apply_context
  apply_context-Ends addr = search ends_rules depth 60

  unhandled-Ends : (address : ℕ) → Ends {N = N} Any (unhandled core address)
  unfolding unhandled
  unhandled-Ends address = search ends_rules depth 6

  judge-Ends :
      (address context : ℕ) (rest : Seh N Bool) (out : Outcome)
      → Ends Any rest
      → Ends {N = N} Any (judge core address context rest out)
  unfolding judge
  judge-Ends address context rest (escaped eip faulted esp_before) ends =
      Ends-if faulted _ _
        (λ y. Ends-bind _ _ clear_fault-Ends λ u. Ends-bind _ _ (Ends-set_esp _) λ v. ends)
        (λ n. Ends-pure true)
  judge-Ends address context rest timed_out ends = unhandled-Ends address
  judge-Ends address context rest (returned disposition) ends =
      Ends-if _ _ _ (λ z. Ends-bind _ _ (apply_context-Ends context) λ u. Ends-pure true)
        (λ n. ends)

  settle-Ends : (out : Outcome) → Ends {N = N} Any (settle core out)
  unfolding settle
  settle-Ends (escaped eip faulted esp_before) = search (ends_rules, clear_fault-Ends) depth 6
  settle-Ends timed_out = Ends-pure tt
  settle-Ends (returned disposition) = Ends-pure tt

  unwind_handler-Ends :
      (record_at frame handler : ℕ) → Ends {N = N} Any (unwind_handler core record_at frame handler)
  unfolding unwind_handler
  unwind_handler-Ends record_at frame handler =
      search (ends_rules, invoke_handler-Ends, settle-Ends) depth 20

  read_parameters-Ends : (addr n : ℕ) → Ends {N = N} Any (read_parameters core addr n)
  unfolding read_parameters
  read_parameters-Ends addr zero = Ends-pure []
  read_parameters-Ends addr (suc n) =
      Ends-bind _ _ (Ends-load32 addr)
        λ v. Ends-bind _ _ (read_parameters-Ends (addr + 4) n) λ vs. Ends-pure _

  halt_unless-Ends : (handled : Bool) → Ends {N = N} Any (halt_unless core handled)
  unfolding halt_unless
  halt_unless-Ends true = Ends-pure tt
  halt_unless-Ends false = search ends_rules depth 4

  finish_unwind-Ends :
      (target ip v : ℕ) (saved : GuestThread N)
      → Ends {N = N} Any (finish_unwind core target ip v saved)
  unfolding finish_unwind
  finish_unwind-Ends target ip v saved = search ends_rules depth 20

-- The walks, over frames below `top`.
module _ {N : Type 0} ⦃lib : Native N⦄ (core : Core N) (top : ℕ)
    (words : (b : Buffer) (a v : ℕ) → lib.mem_read32 b a ≡ some v → v < top) where
  dispatch_walk-Ends :
      (fuel address scratch : ℕ) (visited : List ℕ) (frame : ℕ)
      → frame < top
      → unvisited top visited < fuel
      → Ends {N = N} Any (dispatch_walk core fuel address scratch visited frame)
  unfolding dispatch_walk
  dispatch_walk-Ends zero address scratch visited frame bound enough = elim enough [ ]
  dispatch_walk-Ends (suc fuel) address scratch visited frame bound enough =
      Ends-if (no_frame frame || member frame visited) _ _ (λ stop. unhandled-Ends core address)
        λ go. Ends-after _ _ (Ends-load32_below top words frame) λ next next_bound.
          Ends-bind _ _ (Ends-load32 (frame + 4)) λ handler.
            Ends-bind _ _ (invoke_handler-Ends core handler _) λ out.
              judge-Ends core address _ _ out (
                dispatch_walk-Ends fuel address scratch (frame ∷ visited) next next_bound (
                  let less =
                    unvisited-visit top frame visited bound
                      (both_false (no_frame frame) (member frame visited) go) in
                  omega (arith, less)))

  unwind_walk-Ends :
      (fuel fs_base target record_at : ℕ) (visited : List ℕ) (frame : ℕ)
      → frame < top
      → unvisited top visited < fuel
      → Ends {N = N} Any (unwind_walk core fuel fs_base target record_at visited frame)
  unfolding unwind_walk
  unwind_walk-Ends zero fs_base target record_at visited frame bound enough = elim enough [ ]
  unwind_walk-Ends (suc fuel) fs_base target record_at visited frame bound enough =
      Ends-if (at_target target frame || member frame visited) _ _ (λ stop. Ends-pure frame)
        λ go. Ends-after _ _ (Ends-load32_below top words frame) λ next next_bound.
          Ends-bind _ _ (Ends-load32 (frame + 4)) λ handler.
            Ends-bind _ _ (unwind_handler-Ends core record_at frame handler) λ u.
              Ends-bind _ _ (Ends-store32 fs_base next) λ u1.
                unwind_walk-Ends fuel fs_base target record_at (frame ∷ visited) next next_bound (
                  let less =
                    unvisited-visit top frame visited bound
                      (both_false (at_target target frame) (member frame visited) go) in
                  omega (arith, less))

  pop_head-Ends : (fs_base target : ℕ) → Ends {N = N} (λ v. v < top) (pop_head core fs_base target)
  unfolding pop_head
  pop_head-Ends fs_base target = Ends-after _ _ (Ends-load32_below top words fs_base) λ frame bound.
      Ends-if (at_target target frame) _ _ (λ stop. Ends-value frame bound)
        λ go. Ends-after _ _ (Ends-load32_below top words frame) λ next next_bound.
          Ends-bind _ _ (Ends-store32 fs_base next) λ u. Ends-value next next_bound

-- dispatch_exception, RaiseException and RtlUnwind, over 32-bit memory.
module _ {N : Type 0} ⦃lib : Native N⦄ (core : Core N)
    (words : (b : Buffer) (a v : ℕ) → lib.mem_read32 b a ≡ some v → v < 2 ^ 32) where
  dispatch_chain-Ends :
      (code address : ℕ) (ps : List ℕ) (noncontinuable : Bool)
      → Ends {N = N} Any (dispatch_chain core code address ps noncontinuable)
  unfolding dispatch_chain
  dispatch_chain-Ends code address ps noncontinuable = Ends-bind _ _ Ends-get_thread λ t.
      Ends-bind _ _ (write_exception_record-Ends core _ code address ps noncontinuable) λ u.
        Ends-bind _ _ (write_context-Ends core _) λ u1.
          Ends-after _ _ (Ends-load32_below (2 ^ 32) words t.fs_base) λ frame bound.
            Ends-bind _ _ (Ends-change _) λ u2.
              dispatch_walk-Ends core (2 ^ 32) words (suc (2 ^ 32)) address _ [] frame bound
                (let few = unvisited-le (2 ^ 32) [] in omega (arith, few))

  pub dispatch_exception-Ends :
      (code address : ℕ) (ps : List ℕ) (noncontinuable : Bool)
      → Ends {N = N} Any (dispatch_exception core code address ps noncontinuable)
  unfolding dispatch_exception
  dispatch_exception-Ends code address ps noncontinuable = record {
    at = λ t.
        (dispatch_chain-Ends code address ps noncontinuable).at (record t { dispatching = true });
  }

  raise_exception-Ends : Ends {N = N} Any (raise_exception core)
  unfolding raise_exception
  raise_exception-Ends =
      search (ends_rules, read_parameters-Ends, dispatch_exception-Ends, halt_unless-Ends) depth 40

  unwind_chain-Ends :
      (fs_base target record_at : ℕ) → Ends {N = N} Any (unwind_chain core fs_base target record_at)
  unfolding unwind_chain
  unwind_chain-Ends fs_base target record_at =
      Ends-after _ _ (pop_head-Ends core (2 ^ 32) words fs_base target) λ frame bound.
        unwind_walk-Ends core (2 ^ 32) words (suc (2 ^ 32)) fs_base target record_at [] frame bound
          (let few = unvisited-le (2 ^ 32) [] in omega (arith, few))

  rtl_unwind-Ends : Ends {N = N} Any (rtl_unwind core)
  unfolding rtl_unwind
  rtl_unwind-Ends = search (ends_rules, unwind_chain-Ends, finish_unwind-Ends) depth 40

  -- Where libcpu.so reads words of 32 bits, RaiseException and RtlUnwind come to an end whatever the
  -- guest's handlers do to memory and to the chain: neither runs out of the rounds that the model gives
  -- the walk over the frames and the batches of steps of a handler.
  pub seh_ends :
      (t : GuestThread N)
      → ((raise_exception core t).0 ≢ err out_of_fuel) × ((rtl_unwind core t).0 ≢ err out_of_fuel)
  seh_ends t =
      (not_out_of_fuel _ (raise_exception-Ends.at t), not_out_of_fuel _ (rtl_unwind-Ends.at t))
