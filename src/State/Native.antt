-- ===== src/State/Native.antt =====
-- What the handlers call outside the repository: libcpu.so (the git submodule cpu/: guest memory,
-- the bump cursor, the scheduler) and the host's os and select modules. It is a parameter of the
-- model. `none` is a failing call, for which the Python wrapper raises.
use tew.Base.{ℕ, Bool, Option, List}
use tew.State.{Buffer, Cpu}

pub record Native (N : Type 0) : Type 0 where
  -- mem_*: the address is a c_uint32
  pub mem_read8 : Buffer → ℕ → Option ℕ
  pub mem_read32 : Buffer → ℕ → Option ℕ
  pub mem_write8 : Buffer → ℕ → ℕ → Option Buffer
  pub mem_write32 : Buffer → ℕ → ℕ → Option Buffer
  pub mem_load : Buffer → ℕ → List ℕ → Option Buffer
  pub mem_is_valid_range : ℕ → ℕ → ℕ → Bool
  -- alloc_zig.py
  pub bump_alloc_next : ℕ → ℕ → ℕ
  -- cpu_stdcall_cleanup
  pub stdcall_cleanup : Cpu → Buffer → ℕ → Option (Cpu × Buffer)
  -- scheduler_*; a negative index or id is `none`
  pub current_thread_id : N → Option ℕ
  pub current_handle : N → Option ℕ
  pub get_wait_timed_out : N → ℕ → Bool
  pub set_wait_timed_out : N → ℕ → Bool → N
  pub get_virtual_ticks_ms : N → ℕ
  pub reentrant_depth : N → ℕ
  pub pick_next_ready : N → Option ℕ × N
  pub complete_block_on_handles :
      N → Cpu → Buffer → List ℕ → ℕ → Option ℕ → Option ℕ → N × Cpu × Buffer
  pub unblock_handle : N → ℕ → ℕ × N
  pub create_thread : N → ℕ → ℕ → ℕ → ℕ → Bool → N
  pub get_suspended : N → ℕ → Bool
  pub set_suspended : N → ℕ → Bool → N
  pub get_completed : N → ℕ → Bool
  pub tls_alloc_slot : N → ℕ → N
  pub tls_free_slot : N → ℕ → N
  pub tls_slot_allocated : N → ℕ → Bool
  -- os.pread, os.pwrite, os.fstat(fd).st_size, os.stat(path).st_size, os.close
  pub pread : N → ℕ → ℕ → ℕ → Option (List ℕ)
  pub pwrite : N → ℕ → List ℕ → ℕ → Option N
  pub fstat_size : N → ℕ → Option ℕ
  pub stat_size : N → List ℕ → Option ℕ
  pub close : N → ℕ → Option N
  -- select.select with no timeout: the sockets that are ready to be read, and to be written
  pub select : N → List ℕ → List ℕ → Option (List ℕ × List ℕ)
