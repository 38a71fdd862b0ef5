-- ===== src/Machine.antt =====
-- The primitives of the handlers: guest memory (tew/hardware/memory_zig.py), registers
-- (tew/hardware/cpu_zig.py), cleanup_stdcall (tew/api/win32_handlers.py) and the wrappers of
-- tew/hardware/scheduler_zig.py that only pass a call on.
pub mod Keeps
pub mod Returns
use tew.Base.{
  ℕ, zero, suc, ◌+◌, ◌%◌, ◌^◌, if◌then◌else◌, Bool, true, false, Option, none, some, List, [], ◌∷◌,
  Exec, Result, ok, err, value_error, runtime_error, os_error, ◌>>=◌, ◌>>◌, pure, raise, or_raise,
}
use tew.State.{
  World, Cpu, Buffer, CrtState, HeapState, VirtualState, ObjectState, FileState, ThreadState,
  TlsState, KernelState, WindowState, last_error_addr,
}
use tew.State.Native.{Native}

abbrev pub Action : Type 0 → Type 0 → Type 0
Action N A = Exec (World N) A

-- x & 0xFFFFFFFF
abbrev pub mask32 : ℕ → ℕ
mask32 x = x % 2 ^ 32

-- `if x is None: m` and `else: f x`
abbrev pub on_option : {N A B : Type 0} → Option A → Action N B → (A → Action N B) → Action N B
on_option none m f = m
on_option (some a) m f = f a

-- `if b: m`, and on after it
abbrev pub when : {N : Type 0} → Bool → Action N (Unit {0}) → Action N (Unit {0})
when true m = m
when false m = pure tt

-- _buffer[addr:addr + n] within bounds
unfoldable pub slice : (ℕ → ℕ) → ℕ → ℕ → List ℕ
slice byte addr zero = []
slice byte addr (suc n) = byte addr ∷ slice byte (addr + 1) n

module _ {N : Type 0} where
  unfoldable pub get_state : Action N CrtState
  get_state w = (ok w.state, w)

  unfoldable pub get_native : Action N N
  get_native w = (ok w.native, w)

  unfoldable pub put_native : N → Action N (Unit {0})
  put_native n w = (ok tt, record w { native = n })

  unfoldable pub get_cpu : Action N Cpu
  get_cpu w = (ok w.cpu, w)

  unfoldable pub put_cpu : Cpu → Action N (Unit {0})
  put_cpu c w = (ok tt, record w { cpu = c })

  unfoldable pub get_memory : Action N Buffer
  get_memory w = (ok w.memory, w)

  unfoldable pub put_memory : Buffer → Action N (Unit {0})
  put_memory b w = (ok tt, record w { memory = b })

  unfoldable pub put_heap : HeapState → Action N (Unit {0})
  put_heap h w = (ok tt, record w { state = record (w.state) { heap = h } })

  unfoldable pub put_virtual : VirtualState → Action N (Unit {0})
  put_virtual v w = (ok tt, record w { state = record (w.state) { virtual = v } })

  unfoldable pub put_objects : ObjectState → Action N (Unit {0})
  put_objects o w = (ok tt, record w { state = record (w.state) { objects = o } })

  unfoldable pub put_files : FileState → Action N (Unit {0})
  put_files f w = (ok tt, record w { state = record (w.state) { files = f } })

  unfoldable pub put_threads : ThreadState → Action N (Unit {0})
  put_threads t w = (ok tt, record w { state = record (w.state) { threads = t } })

  unfoldable pub put_tls : TlsState → Action N (Unit {0})
  put_tls t w = (ok tt, record w { state = record (w.state) { tls = t } })

  unfoldable pub put_kernel : KernelState → Action N (Unit {0})
  put_kernel k w = (ok tt, record w { state = record (w.state) { kernel = k } })

  unfoldable pub put_windows : WindowState → Action N (Unit {0})
  put_windows v w = (ok tt, record w { state = record (w.state) { windows = v } })

  unfoldable pub put_cs_list_head : ℕ → Action N (Unit {0})
  put_cs_list_head a w = (ok tt, record w { state = record (w.state) { cs_list_head = a } })

  -- cpu.regs[EAX] = v
  unfoldable pub set_eax : ℕ → Action N (Unit {0})
  set_eax v w = (ok tt, record w { cpu = record (w.cpu) { eax = mask32 v } })

  -- cpu.halted = True; cpu.fatal_halt = True
  unfoldable pub fatal_halt : Action N (Unit {0})
  fatal_halt w = (ok tt, record w { cpu = record (w.cpu) { halted = true; fatal_halt = true } })

module _ {N : Type 0} ⦃lib : Native N⦄ where
  unfoldable pub read32 : ℕ → Action N ℕ
  unfolding ◌>>=◌ get_memory or_raise
  read32 addr = do b ← get_memory; or_raise (lib.mem_read32 b (mask32 addr)) value_error

  unfoldable pub read8 : ℕ → Action N ℕ
  unfolding ◌>>=◌ get_memory or_raise
  read8 addr = do b ← get_memory; or_raise (lib.mem_read8 b (mask32 addr)) value_error

  unfoldable pub write32 : ℕ → ℕ → Action N (Unit {0})
  unfolding ◌>>=◌ get_memory or_raise put_memory
  write32 addr v = do
    b ← get_memory
    b' ← or_raise (lib.mem_write32 b (mask32 addr) (mask32 v)) value_error
    put_memory b'

  unfoldable pub write8 : ℕ → ℕ → Action N (Unit {0})
  unfolding ◌>>=◌ get_memory or_raise put_memory
  write8 addr v = do
    b ← get_memory
    b' ← or_raise (lib.mem_write8 b (mask32 addr) (v % 256)) value_error
    put_memory b'

  unfoldable pub load : ℕ → List ℕ → Action N (Unit {0})
  unfolding ◌>>=◌ get_memory or_raise put_memory
  load addr bytes = do
    b ← get_memory
    b' ← or_raise (lib.mem_load b (mask32 addr) bytes) value_error
    put_memory b'

  unfoldable pub read_bytes : ℕ → ℕ → Action N (List ℕ)
  unfolding ◌>>=◌ get_memory pure raise
  read_bytes addr n = do
    b ← get_memory
    if lib.mem_is_valid_range b.size (mask32 addr) n
        then pure (slice b.byte addr n)
        else raise value_error

  -- memory.read32((cpu.regs[ESP] + n) & 0xFFFFFFFF)
  unfoldable pub arg : ℕ → Action N ℕ
  unfolding ◌>>=◌ get_cpu read32
  arg n = do c ← get_cpu; read32 (mask32 (c.esp + n))

  unfoldable pub cleanup_stdcall : ℕ → Action N (Unit {0})
  unfolding ◌>>=◌ get_cpu get_memory or_raise put_cpu put_memory
  cleanup_stdcall n = do
    c ← get_cpu
    b ← get_memory
    r ← or_raise (lib.stdcall_cleanup c b n) runtime_error
    put_cpu r.0
    put_memory r.1

  -- the TEB's LastErrorValue
  unfoldable pub set_last_error : ℕ → Action N (Unit {0})
  unfolding write32
  set_last_error e = write32 last_error_addr e

  -- the end of a handler: cpu.regs[EAX] = v; cleanup_stdcall(cpu, memory, n)
  unfoldable pub return_stdcall : ℕ → ℕ → Action N (Unit {0})
  unfolding ◌>>=◌ set_eax cleanup_stdcall
  return_stdcall v n = do set_eax v; cleanup_stdcall n

  -- memory.write32(TEB_BASE + 0x34, e), and the same
  unfoldable pub fail_stdcall : ℕ → ℕ → ℕ → Action N (Unit {0})
  unfolding ◌>>=◌ set_last_error return_stdcall
  fail_stdcall e v n = do set_last_error e; return_stdcall v n

  unfoldable pub current_thread_id : Action N ℕ
  unfolding ◌>>=◌ get_native or_raise
  current_thread_id = do n ← get_native; or_raise (lib.current_thread_id n) runtime_error

  unfoldable pub unblock_handle : ℕ → Action N ℕ
  unfolding ◌>>=◌ get_native put_native pure
  unblock_handle h = do
    n ← get_native
    let r = lib.unblock_handle n (mask32 h)
    put_native r.1
    pure r.0
