-- ===== src/Tests/Exceptions.antt =====
-- The theorems on exceptions at a thread whose handlers decline.
use tew.Base.{
  ℕ, ◌≡◌, ◌≢◌, refl, true, false, none, [], ◌∷◌, ok, err, out_of_fuel, ◌>>=◌, pure, or_raise, arith,
}
use tew.Machine.{mask32, read32, write32, get_memory, put_memory}
use tew.Seh.{
  GuestThread, Core, eip_of, invoke_handler, write_context, apply_context, call_from, push_all,
  run_batches, run_batch, take_redirect, landed, after_run, resume, get_thread, change, in_world,
  set_esp, set_eip, load32, store32, store_all, write_exception_record,
}
use tew.Seh.Dispatch.{
  dispatch_exception, raise_exception, dispatch_chain, dispatch_walk, judge, unhandled,
}
use tew.Seh.Unwind.{unwind_chain, rtl_unwind}
use tew.Seh.Ending.{seh_ends}
use tew.Seh.Context.{SameRegs, AreWords, apply_context-write_context}
use tew.Seh.Leaves.{After, Settled, dispatch_exception-unhandled, invoke_handler-Settled}
use tew.Seh.Chain.{Ended, unwind_chain-Ended}
use tew.Tests.Demo.{demo_native, demo_call}
use tew.Tests.Words.{demo_words, demo_laws}

-- Guest code that returns 1, which declines the exception.
abbrev declining : Core ℕ
declining = record {
  run = λ t n. record t {
    world = record (t.world) {
      cpu = record (t.world.cpu) { eax = 1; eip = 0x001FE012; halted = true };
    };
  };
  clear_halted =
      λ t. record t { world = record (t.world) { cpu = record (t.world.cpu) { halted = false } } };
  is_faulted = λ t. false;
}

-- FS:[0] at 0x1000, where the chain starts with the frame at 0x1010, whose handler is at 0x00400000.
abbrev thrower : GuestThread ℕ
thrower = record {
  world = demo_call (0x1010 ∷ 0x1010 ∷ 0 ∷ 0 ∷ 0xFFFFFFFF ∷ 0x00400000 ∷ []);
  ecx = 1;
  edx = 2;
  ebx = 3;
  ebp = 0x1040;
  esi = 5;
  edi = 6;
  eflags = 0x246;
  py_faulted = false;
  fs_base = 0x1000;
  just_redirected = false;
  dispatching = false;
  original_frame = none;
  original_ebp = none;
}

thrower-AreWords : AreWords thrower
thrower-AreWords = omega arith

seh_ends_example :
    ((raise_exception declining thrower).0 ≢ err out_of_fuel)
    × ((rtl_unwind declining thrower).0 ≢ err out_of_fuel)
seh_ends_example = seh_ends declining demo_words thrower

apply_context-write_context_example :
    ((write_context 0x2000 thrower).0 ≡ ok tt)
    × ((apply_context 0x2000 (record (write_context 0x2000 thrower).1 { edi = 0 })).0 ≡ ok tt)
    × SameRegs thrower
        (apply_context 0x2000 (record (write_context 0x2000 thrower).1 { edi = 0 })).1
apply_context-write_context_example =
    apply_context-write_context demo_laws 0x2000 thrower (omega arith) (omega arith)
      thrower-AreWords (record (write_context 0x2000 thrower).1 { edi = 0 }) refl

invoke_handler-Settled_example :
    After
      (Settled 0x1000)
      (invoke_handler declining 0x00400000 (0 ∷ 0x2050 ∷ 0x1010 ∷ 0x2000 ∷ []) thrower).0
      (invoke_handler declining 0x00400000 (0 ∷ 0x2050 ∷ 0x1010 ∷ 0x2000 ∷ []) thrower).1
invoke_handler-Settled_example =
    invoke_handler-Settled declining 0x00400000 (0 ∷ 0x2050 ∷ 0x1010 ∷ 0x2000 ∷ []) thrower

unwind_chain-Ended_example :
    Ended demo_native 0x1000
      (unwind_chain declining 0x1000 0x1010 0 thrower).0
      (unwind_chain declining 0x1000 0x1010 0 thrower).1
unwind_chain-Ended_example =
    unwind_chain-Ended demo_laws demo_words declining 0x1000 0x1010 0 thrower

declined : (dispatch_exception declining 0xC0000005 0x00401234 [] false thrower).0 ≡ ok false
unfolding dispatch_exception dispatch_chain dispatch_walk judge unhandled invoke_handler call_from
    push_all run_batches run_batch take_redirect landed after_run resume get_thread change in_world
    set_esp set_eip load32 store32 store_all write_exception_record write_context read32 write32
    get_memory put_memory ◌>>=◌ pure or_raise
declined = refl

dispatch_exception-unhandled_example :
    (eip_of (dispatch_exception declining 0xC0000005 0x00401234 [] false thrower).1
      ≡ mask32 0x00401234)
    × ((dispatch_exception declining 0xC0000005 0x00401234 [] false thrower).1.dispatching ≡ false)
    × ((dispatch_exception declining 0xC0000005 0x00401234 [] false thrower).1.original_frame
        ≡ none)
    × ((dispatch_exception declining 0xC0000005 0x00401234 [] false thrower).1.original_ebp ≡ none)
dispatch_exception-unhandled_example =
    dispatch_exception-unhandled declining 0xC0000005 0x00401234 [] false thrower declined
