-- ===== src/Tests/Demo.antt =====
-- Concrete functions in the place of the native library, and concrete states.
use tew.Base.{
  ℕ, zero, suc, ◌+◌, ◌-◌, ◌*◌, ◌/◌, ◌%◌, ◌^◌, leb, ltb, ◌==◌, if◌then◌else◌, true, false, Option,
  none, some, List, [], ◌∷◌, Text,
}
use tew.State.{
  Buffer, HeapState, VirtualState, MutexHandle, mutex, event, ObjectState, FileLock, FileState,
  CrtState, World,
}
use tew.State.Native.{Native}
use tew.Heap.{align16}

abbrev nth_word : List ℕ → ℕ → ℕ
nth_word [] i = 0
nth_word (x ∷ xs) zero = x
nth_word (x ∷ xs) (suc i) = nth_word xs i

abbrev pub in_bounds : Buffer → ℕ → Option ℕ
in_bounds b a =
    if leb (a + 4) b.size
    then some (
        b.byte a % 256
        + 256 * (b.byte (a + 1) % 256)
        + 65536 * (b.byte (a + 2) % 256)
        + 16777216 * (b.byte (a + 3) % 256))
    else none

abbrev set_byte : Buffer → ℕ → ℕ → Buffer
set_byte b a v = record b { byte = λ i. if i == a then v else b.byte i }

abbrev load_bytes : Buffer → ℕ → List ℕ → Buffer
load_bytes b a [] = b
load_bytes b a (x ∷ xs) = load_bytes (set_byte b a x) (a + 1) xs

abbrev pub store_word : Buffer → ℕ → ℕ → Buffer
store_word b a v = load_bytes b a (v % 256 ∷ v / 256 % 256 ∷ v / 65536 % 256 ∷ v / 16777216 ∷ [])

-- A scheduler with one thread, whose state is the clock, and host files that are empty.
instance abbrev pub demo_native : Native ℕ
demo_native = record {
  mem_read8 = λ b a. if ltb a b.size then some (b.byte a) else none;
  mem_read32 = in_bounds;
  mem_write8 = λ b a v. if ltb a b.size then some (set_byte b a v) else none;
  mem_write32 = λ b a v. if leb (a + 4) b.size then some (store_word b a v) else none;
  mem_load = λ b a xs. some (load_bytes b a xs);
  mem_is_valid_range = λ size a n. leb (a + n) size;
  bump_alloc_next = λ c size. align16 (c + size);
  stdcall_cleanup = λ c b n. some (record c { esp = c.esp + 4 + n }, b);
  current_thread_id = λ n. some 1;
  current_handle = λ n. some 0xBEEF;
  get_wait_timed_out = λ n h. false;
  set_wait_timed_out = λ n h v. n;
  get_virtual_ticks_ms = λ n. n;
  reentrant_depth = λ n. 0;
  pick_next_ready = λ n. (none, n);
  complete_block_on_handles = λ n c b hs retry deadline next. (n, c, b);
  unblock_handle = λ n h. (0, n);
  create_thread = λ n a b c d e. n;
  get_suspended = λ n h. false;
  set_suspended = λ n h v. n;
  get_completed = λ n h. false;
  tls_alloc_slot = λ n i. n;
  tls_free_slot = λ n i. n;
  tls_slot_allocated = λ n i. true;
  pread = λ n fd count position. some [];
  pwrite = λ n fd bytes position. some n;
  fstat_size = λ n fd. some 0;
  stat_size = λ n path. some 0;
  close = λ n fd. some n;
  select = λ n rd wr. some ([], []);
}

-- One live block, one free block behind it.
abbrev pub demo_heap : HeapState
demo_heap = record {
  next_heap_alloc = 0x04000020;
  heap_alloc_sizes = (0x04000000, 10) ∷ [];
  heap_alloc_owner = [];
  heap_free_list = (0x04000010, 16) ∷ [];
  heap_handles = 1 ∷ [];
  next_heap_handle = 2;
  process_heap = 1;
  local_alloc_map = [];
}

-- Two reservations with a gap of 64 KB between them.
abbrev pub demo_virtual : VirtualState
demo_virtual = record {
  virtual_alloc_floor = 0x20000000;
  next_virtual_alloc = 0x20000000;
  virtual_reserved = (0x20000000, 0x10000) ∷ (0x20020000, 0x10000) ∷ [];
  virtual_committed = [];
  virtual_protect = [];
}

abbrev pub demo_name : Text
demo_name = 77 ∷ []

abbrev pub owned : MutexHandle
owned = record { locked = true; name = demo_name; owner_tid = some 2; recursion_count = 1 }

-- A mutex of thread 2, and an event.
abbrev pub demo_objects : ObjectState
demo_objects = record {
  kernel_handle_map = (0x200, 0) ∷ (0x201, 1) ∷ [];
  object =
      λ r. if r == 0 then mutex owned else event (record { signaled = false; manual_reset = true });
  next_object = 2;
  next_kernel_handle = 0x202;
}

abbrev pub demo_lock : FileLock
demo_lock = record { start = 0; stop = 8; handle = 0x300 }

abbrev pub demo_files : FileState
demo_files = record {
  file_handle_map = (0x300, 0) ∷ (0x301, 0) ∷ [];
  entry = λ r. record {
    path = demo_name;
    contents = [];
    position = 0;
    writable = true;
    fd = some 5;
    readable = true;
  };
  next_entry = 1;
  next_file_handle = 0x302;
  file_mapping_map = [];
  file_locks = (demo_name, demo_lock ∷ []) ∷ [];
}

abbrev pub demo_state : CrtState
demo_state = record {
  heap = demo_heap;
  virtual = demo_virtual;
  objects = demo_objects;
  files = demo_files;
  threads = record {
    pending_threads = 0xBEEE ∷ [];
    next_thread_id = 3;
    next_thread_handle = 0xBEEF;
  };
  tls = record { next_tls_slot = 1; tls_max_slots = 64; tls_store = [] };
  kernel = record { async_select = []; event_select = []; connect_fired = []; socket_map = [] };
  windows = record { windows = []; message_queue = [] };
  cs_list_head = 0;
}

-- A call of a handler: the words are the return address and the arguments, on the stack at 0x1000.
abbrev pub demo_call : List ℕ → World ℕ
demo_call words = record {
  cpu = record { eax = 0; esp = 0x1000; eip = 0x00FE0002; halted = false; fatal_halt = false };
  memory = record {
    size = 0x10000000;
    byte = λ a.
        if ltb a 0x1000
        then 0
        else nth_word words ((a - 0x1000) / 4) / 256 ^ ((a - 0x1000) % 4) % 256;
  };
  state = demo_state;
  native = 100;
}
