-- ===== src/Threads.antt =====
-- Threads: CreateThread, ResumeThread, SuspendThread and GetExitCodeThread of tew/api/kernel32_io.py.
pub mod Fresh
use tew.Base.{
  ℕ, ◌+◌, ltb, ◌==◌, if◌then◌else◌, Bool, true, false, not, ◌&&◌, List, [], ◌∷◌, ◌++◌, contains,
  ◌>>=◌, ◌>>◌, pure,
}
use tew.State.{ThreadState}
use tew.State.Native.{Native}
use tew.Machine.{
  Action, mask32, when, get_state, get_native, put_native, get_cpu, put_threads, arg, read32,
  write32, return_stdcall,
}
use tew.Heap.Api.{has_flag}

abbrev create_suspended : ℕ
create_suspended = 0x4

abbrev still_active : ℕ
still_active = 259

-- The two counters, moved on.
unfoldable pub claim_thread : ThreadState → ThreadState
claim_thread t = record t {
  next_thread_id = t.next_thread_id + 1;
  next_thread_handle = t.next_thread_handle + 1;
}

-- state.pending_threads.append(handle)
unfoldable pub add_pending : ℕ → ThreadState → ThreadState
add_pending h t = record t { pending_threads = t.pending_threads ++ h ∷ [] }

module _ {N : Type 0} ⦃lib : Native N⦄ where
  unfoldable pub start_thread : ℕ → ℕ → ℕ → ℕ → ThreadState → Action N (Unit {0})
  start_thread lp_start lp_param dw_flags lp_tid t = do
    put_threads (claim_thread t)
    c ← get_cpu
    ret_addr ← read32 (mask32 c.esp)
    n ← get_native
    put_native (
        lib.create_thread n (mask32 t.next_thread_id) (mask32 t.next_thread_handle) lp_start
          lp_param (has_flag dw_flags create_suspended))
    put_threads (add_pending (t.next_thread_handle) (claim_thread t))
    when (not (lp_tid == 0)) (write32 lp_tid t.next_thread_id)
    return_stdcall (t.next_thread_handle) 24

  unfoldable pub create_thread : Action N (Unit {0})
  create_thread = do
    lp_start ← arg 12
    lp_param ← arg 16
    dw_flags ← arg 20
    lp_tid ← arg 24
    s ← get_state
    start_thread lp_start lp_param dw_flags lp_tid (s.threads)

  unfoldable pub resume_thread : Action N (Unit {0})
  resume_thread = do
    h ← arg 4
    s ← get_state
    n ← get_native
    when (contains h s.threads.pending_threads && lib.get_suspended n h)
        (put_native (lib.set_suspended n h false))
    return_stdcall 1 4

  unfoldable pub suspend_thread : Action N (Unit {0})
  suspend_thread = do
    h ← arg 4
    s ← get_state
    n ← get_native
    when (contains h s.threads.pending_threads) (put_native (lib.set_suspended n h true))
    return_stdcall 0 4

  unfoldable pub get_exit_code_thread : Action N (Unit {0})
  get_exit_code_thread = do
    h ← arg 4
    lp_code ← arg 8
    s ← get_state
    n ← get_native
    when (not (lp_code == 0)) (
        write32 lp_code (
          if contains h s.threads.pending_threads && lib.get_completed n h
          then 0
          else still_active))
    return_stdcall 1 8
