-- ===== src/Seh.antt =====
-- Structured exception handling, of tew/kernel/seh.py: the state of the thread that it works on, the
-- structures that it writes, and the call of a guest handler. Its children have the walks.
pub mod Dispatch
pub mod Unwind
pub mod Ends
pub mod Visits
pub mod Ending
pub mod Cells
pub mod Context
pub mod Leaves
pub mod Chain
use tew.Base.{
  ℕ, zero, suc, ◌+◌, ◌-◌, ◌*◌, ◌%◌, ◌^◌, ◌<◌, ◌≡◌, min, ltb, ◌==◌, Bool, true, false, not, ◌&&◌,
  ◌||◌, if◌then◌else◌, Option, none, some, List, [], ◌∷◌, ◌++◌, length, Exec, Result, ok, err,
  out_of_fuel, ◌>>=◌, ◌>>◌, pure, raise,
}
use tew.State.{World, Cpu, Buffer}
use tew.State.Native.{Native}
use tew.Machine.{Action, mask32, read32, write32}

-- A thread in guest code: what the machine does beside the handlers' World, and the attributes
-- _seh_* of the CPU.
pub record GuestThread (N : Type 0) : Type 0 where
  pub world : World N
  pub ecx : ℕ
  pub edx : ℕ
  pub ebx : ℕ
  pub ebp : ℕ
  pub esi : ℕ
  pub edi : ℕ
  pub eflags : ℕ
  pub py_faulted : Bool
  pub fs_base : ℕ
  pub just_redirected : Bool
  pub dispatching : Bool
  pub original_frame : Option ℕ
  pub original_ebp : Option ℕ

-- libcpu.so: running guest code for a number of steps, cpu_clear_halted and cpu_is_faulted.
pub record Core (N : Type 0) : Type 0 where
  pub run : GuestThread N → ℕ → GuestThread N
  pub clear_halted : GuestThread N → GuestThread N
  pub is_faulted : GuestThread N → Bool

abbrev pub Seh : Type 0 → Type 0 → Type 0
Seh N A = Exec (GuestThread N) A

abbrev pub exception_maximum_parameters : ℕ
exception_maximum_parameters = 15

abbrev pub exception_record_size : ℕ
exception_record_size = 0x50

abbrev pub context_size : ℕ
context_size = 0x2CC

abbrev pub seh_return_sentinel : ℕ
seh_return_sentinel = 0x001FE010

abbrev step_batch : ℕ
step_batch = 10000

abbrev step_limit : ℕ
step_limit = 2000000

abbrev fine_step_batch : ℕ
fine_step_batch = 50

abbrev fine_step_window : ℕ
fine_step_window = 3000

abbrev escape_eip_distance : ℕ
escape_eip_distance = 0x200000

-- The registers by their numbers.
abbrev eax_of : {N : Type 0} → GuestThread N → ℕ
eax_of t = t.world.cpu.eax

abbrev pub esp_of : {N : Type 0} → GuestThread N → ℕ
esp_of t = t.world.cpu.esp

abbrev pub eip_of : {N : Type 0} → GuestThread N → ℕ
eip_of t = t.world.cpu.eip

abbrev pub with_cpu : {N : Type 0} → (Cpu → Cpu) → GuestThread N → GuestThread N
with_cpu f t = record t { world = record (t.world) { cpu = f t.world.cpu } }

module _ {N : Type 0} where
  unfoldable pub get_thread : Seh N (GuestThread N)
  get_thread t = (ok t, t)

  unfoldable pub change : (GuestThread N → GuestThread N) → Seh N (Unit {0})
  change f t = (ok tt, f t)

  unfoldable pub in_world : {A : Type 0} → Action N A → Seh N A
  in_world m t = let r = m t.world in (r.0, record t { world = r.1 })

  unfoldable pub set_esp : ℕ → Seh N (Unit {0})
  unfolding change
  set_esp v = change (with_cpu (λ c. record c { esp = mask32 v }))

  unfoldable pub set_eip : ℕ → Seh N (Unit {0})
  unfolding change
  set_eip v = change (with_cpu (λ c. record c { eip = mask32 v }))

module _ {N : Type 0} ⦃lib : Native N⦄ where
  unfoldable pub load32 : ℕ → Seh N ℕ
  unfolding in_world
  load32 a = in_world (read32 a)

  unfoldable pub store32 : ℕ → ℕ → Seh N (Unit {0})
  unfolding in_world
  store32 a v = in_world (write32 a v)

  -- memory.write32 of each pair of an address and a value, in order
  unfoldable pub store_all : List (ℕ × ℕ) → Seh N (Unit {0})
  store_all [] = pure tt
  store_all ((a, v) ∷ ws) = do store32 a v; store_all ws

-- range(from, from + 4 * n, 4)
abbrev words_from : ℕ → ℕ → List (ℕ × ℕ)
words_from a zero = []
words_from a (suc n) = (a, 0) ∷ words_from (a + 4) n

-- The parameters in their slots, 0 in the slots that are left.
abbrev parameter_slots : ℕ → List ℕ → ℕ → List (ℕ × ℕ)
parameter_slots a ps zero = []
parameter_slots a [] (suc n) = (a, 0) ∷ parameter_slots (a + 4) [] n
parameter_slots a (p ∷ ps) (suc n) = (a, p) ∷ parameter_slots (a + 4) ps n

-- ContextFlags and the registers, at their places in a CONTEXT.
abbrev pub context_fields : {N : Type 0} → ℕ → GuestThread N → List (ℕ × ℕ)
context_fields a t =
    (a, 0x10007)
    ∷ (a + 0x9C, t.edi)
    ∷ (a + 0xA0, t.esi)
    ∷ (a + 0xA4, t.ebx)
    ∷ (a + 0xA8, t.edx)
    ∷ (a + 0xAC, t.ecx)
    ∷ (a + 0xB0, eax_of t)
    ∷ (a + 0xB4, t.ebp)
    ∷ (a + 0xB8, eip_of t)
    ∷ (a + 0xC0, t.eflags)
    ∷ (a + 0xC4, esp_of t)
    ∷ []

module _ {N : Type 0} ⦃lib : Native N⦄ where
  unfoldable pub write_exception_record : ℕ → ℕ → ℕ → List ℕ → Bool → Seh N (Unit {0})
  write_exception_record addr code address parameters noncontinuable = do
    store32 addr code
    store32 (addr + 0x04) (if noncontinuable then 1 else 0)
    store32 (addr + 0x08) 0
    store32 (addr + 0x0C) address
    store32 (addr + 0x10) (min (length parameters) exception_maximum_parameters)
    store_all (parameter_slots (addr + 0x14) parameters exception_maximum_parameters)

  unfoldable pub write_context : ℕ → Seh N (Unit {0})
  write_context addr = do
    store_all (words_from addr 179)
    t ← get_thread
    store_all (context_fields addr t)

  unfoldable pub apply_context : ℕ → Seh N (Unit {0})
  apply_context addr = do
    edi ← load32 (addr + 0x9C)
    change (λ t. record t { edi = mask32 edi })
    esi ← load32 (addr + 0xA0)
    change (λ t. record t { esi = mask32 esi })
    ebx ← load32 (addr + 0xA4)
    change (λ t. record t { ebx = mask32 ebx })
    edx ← load32 (addr + 0xA8)
    change (λ t. record t { edx = mask32 edx })
    ecx ← load32 (addr + 0xAC)
    change (λ t. record t { ecx = mask32 ecx })
    eax ← load32 (addr + 0xB0)
    change (with_cpu (λ c. record c { eax = mask32 eax }))
    ebp ← load32 (addr + 0xB4)
    change (λ t. record t { ebp = mask32 ebp })
    eip ← load32 (addr + 0xB8)
    set_eip eip
    eflags ← load32 (addr + 0xC0)
    change (λ t. record t { eflags = mask32 eflags })
    esp ← load32 (addr + 0xC4)
    set_esp esp

-- How the call of a handler ends: SehHandlerEscaped has the place, whether it faulted and the ESP of the
-- call; SehHandlerTimeout is timed_out.
pub data Outcome : Type 0 where
  returned : ℕ → Outcome
  escaped : ℕ → Bool → ℕ → Outcome
  timed_out : Outcome

-- (esp - 4) & 0xFFFFFFFF
abbrev pub pushed : ℕ → ℕ
pushed esp = mask32 (esp + 2 ^ 32 - 4)

-- abs(a - b)
abbrev distance : ℕ → ℕ → ℕ
distance a b = (a - b) + (b - a)

abbrev next_batch : ℕ → ℕ → ℕ
next_batch fine left = min (if ltb 0 fine then fine_step_batch else step_batch) left

module _ {N : Type 0} ⦃lib : Native N⦄ (core : Core N) where
  -- cpu.halted = False, unless the halt is fatal
  unfoldable pub resume : Seh N (Unit {0})
  resume t = (ok tt, if t.world.cpu.fatal_halt then t else core.clear_halted t)

  -- cpu.faulted = False
  unfoldable pub clear_fault : Seh N (Unit {0})
  clear_fault t = (ok tt, core.clear_halted (record t { py_faulted = false }))

  -- The words of a list go on the stack, the first one first; the new ESP.
  unfoldable pub push_all : List ℕ → ℕ → Seh N ℕ
  push_all [] esp = pure esp
  push_all (v ∷ vs) esp = do store32 (pushed esp) v; push_all vs (pushed esp)

  -- The flag of a redirect, taken and cleared: the fine steps that are left.
  unfoldable pub take_redirect : ℕ → Seh N ℕ
  take_redirect fine t =
      if t.just_redirected
      then (ok fine_step_window, record t { just_redirected = false })
      else (ok fine, t)

  unfoldable pub run_batch : ℕ → Seh N (Unit {0})
  run_batch n t = (ok tt, core.run t n)

  -- The loop over batches of steps: the place far from the handler that the code got to, if it did.
  unfoldable pub run_batches : ℕ → ℕ → ℕ → ℕ → Seh N (Option ℕ)
  run_batches zero handler_addr left fine = raise out_of_fuel
  run_batches (suc fuel) handler_addr left fine = do
    t ← get_thread
    if t.world.cpu.halted || left == 0 then pure none else do
      fine' ← take_redirect fine
      run_batch (next_batch fine' left)
      u ← get_thread
      if not u.world.cpu.halted
            && ltb escape_eip_distance (distance (mask32 (eip_of u)) handler_addr)
          then pure (some (mask32 (eip_of u)))
          else run_batches fuel handler_addr (left - next_batch fine' left)
              (fine' - next_batch fine' left)

  -- What the call comes to, once the code has stopped or has used up its steps.
  unfoldable pub landed : ℕ → Seh N Outcome
  landed esp_before = do
    t ← get_thread
    if not t.world.cpu.halted
        then (do
          change (
              with_cpu
                (λ c. record c { halted = true; fatal_halt = true; esp = mask32 esp_before }))
          pure timed_out)
        else if not (mask32 (eip_of t) == seh_return_sentinel + 2)
        then pure (escaped (mask32 (eip_of t)) (t.py_faulted || core.is_faulted t) esp_before)
        else do resume; u ← get_thread; set_esp esp_before; pure (returned (mask32 (eax_of u)))

  unfoldable pub after_run : ℕ → Option ℕ → Seh N Outcome
  after_run esp_before none = landed esp_before
  after_run esp_before (some eip) = pure (escaped eip false esp_before)

  -- The arguments come last first.
  unfoldable pub call_from : ℕ → ℕ → List ℕ → Seh N Outcome
  call_from esp_before handler_addr reversed_args = do
    esp ← push_all (reversed_args ++ seh_return_sentinel ∷ []) esp_before
    set_esp esp
    set_eip handler_addr
    resume
    change (λ u. record u { just_redirected = false })
    far ← run_batches (suc step_limit) handler_addr step_limit 0
    after_run esp_before far

  unfoldable pub invoke_handler : ℕ → List ℕ → Seh N Outcome
  invoke_handler handler_addr reversed_args = do
    t ← get_thread
    call_from (mask32 (esp_of t)) handler_addr reversed_args
