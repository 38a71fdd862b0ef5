-- ===== src/State.antt =====
-- The data that the handlers share: tew/api/_state.py (the fields of CRTState, grouped by the part
-- that uses them), the CPU as tew/hardware/cpu_zig.py shows it, and the buffer of
-- tew/hardware/memory_zig.py. `World` is all of it, with the state that native code keeps as `N`.
pub mod Native
use tew.Base.{ℕ, ◌*◌, ◌^◌, Bool, Option, List, Dict, Text}

-- The bytearray behind ZigMemory: `byte a` is meant for `a < size`.
pub record Buffer : Type 0 where
  pub size : ℕ
  pub byte : ℕ → ℕ

-- The part of the CPU that the handlers touch.
pub record Cpu : Type 0 where
  pub eax : ℕ
  pub esp : ℕ
  pub eip : ℕ
  pub halted : Bool
  pub fatal_halt : Bool

-- Addresses and sizes.
abbrev pub Block : Type 0
Block = ℕ × ℕ

pub record HeapState : Type 0 where
  pub next_heap_alloc : ℕ
  pub heap_alloc_sizes : Dict ℕ ℕ
  pub heap_alloc_owner : Dict ℕ ℕ
  pub heap_free_list : List Block
  pub heap_handles : List ℕ
  pub next_heap_handle : ℕ
  pub process_heap : ℕ
  pub local_alloc_map : Dict ℕ ℕ

pub record VirtualState : Type 0 where
  pub virtual_alloc_floor : ℕ
  pub next_virtual_alloc : ℕ
  pub virtual_reserved : Dict ℕ ℕ
  pub virtual_committed : Dict ℕ ℕ
  pub virtual_protect : Dict ℕ ℕ

pub record MutexHandle : Type 0 where
  pub locked : Bool
  pub name : Text
  pub owner_tid : Option ℕ
  pub recursion_count : ℕ

pub record EventHandle : Type 0 where
  pub signaled : Bool
  pub manual_reset : Bool

pub data KernelHandle : Type 0 where
  mutex : MutexHandle → KernelHandle
  event : EventHandle → KernelHandle

-- Several handles may name one object (DuplicateHandle), so a handle is mapped to the object's
-- place in the store `object`. Places from `next_object` on are unused.
pub record ObjectState : Type 0 where
  pub kernel_handle_map : Dict ℕ ℕ
  pub object : ℕ → KernelHandle
  pub next_object : ℕ
  pub next_kernel_handle : ℕ

pub record FileHandleEntry : Type 0 where
  pub path : Text
  pub contents : List ℕ
  pub position : ℕ
  pub writable : Bool
  pub fd : Option ℕ
  pub readable : Bool

pub record FileMappingHandle : Type 0 where
  pub file_handle : Option ℕ
  pub protect : ℕ
  pub max_size : ℕ

-- A held byte range: start, end, owning handle.
pub record FileLock : Type 0 where
  pub start : ℕ
  pub stop : ℕ
  pub handle : ℕ

-- The entries of file handles are shared as the kernel objects are.
pub record FileState : Type 0 where
  pub file_handle_map : Dict ℕ ℕ
  pub entry : ℕ → FileHandleEntry
  pub next_entry : ℕ
  pub next_file_handle : ℕ
  pub file_mapping_map : Dict ℕ FileMappingHandle
  pub file_locks : Dict Text (List FileLock)

pub record ThreadState : Type 0 where
  pub pending_threads : List ℕ
  pub next_thread_id : ℕ
  pub next_thread_handle : ℕ

pub record TlsState : Type 0 where
  pub next_tls_slot : ℕ
  pub tls_max_slots : ℕ
  pub tls_store : Dict ℕ (Dict ℕ ℕ)

pub record AsyncSelectReg : Type 0 where
  pub hwnd : ℕ
  pub msg : ℕ
  pub events : ℕ

pub record EventSelectReg : Type 0 where
  pub event_handle : ℕ
  pub events : ℕ

-- tew/kernel/kernel.py, and the map from guest sockets to host sockets of wsock32_handlers.py
-- (`none` for an entry whose py_sock is None).
pub record KernelState : Type 0 where
  pub async_select : Dict ℕ AsyncSelectReg
  pub event_select : Dict ℕ EventSelectReg
  pub connect_fired : List ℕ
  pub socket_map : Dict ℕ (Option ℕ)

pub record Message : Type 0 where
  pub hwnd : ℕ
  pub msg : ℕ
  pub wparam : ℕ
  pub lparam : ℕ

-- The windows that exist, and the message queue, of window_manager.py.
pub record WindowState : Type 0 where
  pub windows : List ℕ
  pub message_queue : List Message

pub record CrtState : Type 0 where
  pub heap : HeapState
  pub virtual : VirtualState
  pub objects : ObjectState
  pub files : FileState
  pub threads : ThreadState
  pub tls : TlsState
  pub kernel : KernelState
  pub windows : WindowState
  -- a variable of kernel32_sync.py, 0 before the first use
  pub cs_list_head : ℕ

pub record World (N : Type 0) : Type 0 where
  pub cpu : Cpu
  pub memory : Buffer
  pub state : CrtState
  pub native : N

-- Constants of _state.py and kernel32_memory.py.
abbrev pub teb_base : ℕ
teb_base = 0x00320000

abbrev pub last_error_addr : ℕ
last_error_addr = 0x00320034

abbrev pub heap_base : ℕ
heap_base = 0x04000000

abbrev pub thread_stack_base : ℕ
thread_stack_base = 0x08000000

abbrev pub u32 : ℕ
u32 = 2 ^ 32
