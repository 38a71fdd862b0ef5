-- ===== src/Sync/Wait.antt =====
-- WaitForSingleObject and WaitForMultipleObjects of tew/api/kernel32_io.py.
use tew.Base.{
  ℕ, zero, suc, ◌+◌, ◌-◌, ◌*◌, ◌==◌, if◌then◌else◌, Bool, true, false, not, ◌&&◌, Option, none,
  some, List, [], ◌∷◌, nat_key, add_to_set, runtime_error, ◌>>=◌, ◌>>◌, pure, or_raise,
}
use tew.State.{KernelHandle, ObjectState, u32}
use tew.State.Native.{Native}
use tew.Machine.{
  Action, mask32, on_option, get_state, get_native, put_native, get_cpu, put_objects, read32, arg,
  return_stdcall, current_thread_id,
}
use tew.Kernel.{set_object, object_at, block_current_on_handles}
use tew.Sync.{is_ready, is_owner, acquire, reenter}

abbrev wait_infinite : ℕ
wait_infinite = 0xFFFFFFFF

abbrev wait_timeout : ℕ
wait_timeout = 0x102

module _ {N : Type 0} ⦃lib : Native N⦄ where
  -- retry_eip, the handles and deadline_ms, and the call of block_current_on_handles
  unfoldable pub block_until : Action N (List ℕ) → ℕ → Action N (Unit {0})
  block_until handles timeout_ms = do
    n ← get_native
    c ← get_cpu
    hs ← handles
    block_current_on_handles hs (mask32 (c.eip + u32 - 2)) (
        if timeout_ms == wait_infinite
        then none
        else some (mask32 (lib.get_virtual_ticks_ms n + timeout_ms)))

  -- the end of a wait that no object satisfies
  unfoldable pub suspend : Action N (List ℕ) → ℕ → ℕ → Action N (Unit {0})
  suspend handles timeout_ms arg_bytes = do
    n ← get_native
    current ← or_raise (lib.current_handle n) runtime_error
    if lib.get_wait_timed_out n current
        then (do
          put_native (lib.set_wait_timed_out n current false)
          return_stdcall wait_timeout arg_bytes)
        else block_until handles timeout_ms

  -- the wait of thread `tid` on the object `o` at place `r`, by handle `h`
  unfoldable pub wait_on : ℕ → ℕ → ℕ → ℕ → KernelHandle → ObjectState → Action N (Unit {0})
  wait_on timeout_ms tid h r o s =
      if is_owner tid o
      then (do put_objects (set_object r (reenter o) s); return_stdcall 0 8)
      else if is_ready o
      then (do put_objects (set_object r (acquire tid o) s); return_stdcall 0 8)
      else suspend (pure (h ∷ [])) timeout_ms 8

  unfoldable pub wait_for_single : Action N (Unit {0})
  wait_for_single = do
    h ← arg 4
    timeout_ms ← arg 8
    s ← get_state
    on_option (object_at h s.objects) (return_stdcall 0 8)
        (λ found. do tid ← current_thread_id; wait_on timeout_ms tid h found.0 found.1 s.objects)

  -- one handle of the first loop of WaitForMultipleObjects: `stop` ends the loop with the index that
  -- satisfied the wait, or with all_ready
  unfoldable pub scan : ℕ → ℕ → Bool → ℕ → ℕ → Bool → Action N (Option ℕ × Bool)
  scan tid lp_handles wait_all zero i all_ready = pure (none, all_ready)
  scan tid lp_handles wait_all (suc k) i all_ready = do
    h ← read32 (mask32 (lp_handles + i * 4))
    s ← get_state
    on_option (object_at h s.objects)
        (if wait_all
          then scan tid lp_handles wait_all k (i + 1) all_ready
          else pure (some i, all_ready))
        (λ found.
          if is_ready found.1
          then (if wait_all then scan tid lp_handles wait_all k (i + 1) all_ready else do
            put_objects (set_object found.0 (acquire tid found.1) s.objects)
            pure (some i, all_ready))
          else (if wait_all
              then pure (none, false)
              else scan tid lp_handles wait_all k (i + 1) false))

  -- the second loop: all are taken
  unfoldable pub acquire_all : ℕ → ℕ → ℕ → ℕ → Action N (Unit {0})
  acquire_all tid lp_handles zero i = pure tt
  acquire_all tid lp_handles (suc k) i = do
    h ← read32 (mask32 (lp_handles + i * 4))
    s ← get_state
    on_option (object_at h s.objects) (pure tt)
        (λ found. put_objects (set_object found.0 (acquire tid found.1) s.objects))
    acquire_all tid lp_handles k (i + 1)

  -- the third loop: the handles as a set
  unfoldable pub read_handles : ℕ → ℕ → ℕ → List ℕ → Action N (List ℕ)
  read_handles lp_handles zero i seen = pure seen
  read_handles lp_handles (suc k) i seen = do
    h ← read32 (mask32 (lp_handles + i * 4))
    read_handles lp_handles k (i + 1) (add_to_set h seen)

  unfoldable pub wait_for_multiple_common : ℕ → Action N (Unit {0})
  wait_for_multiple_common arg_bytes = do
    n_count ← arg 4
    lp_handles ← arg 8
    wait_all_word ← arg 12
    timeout_ms ← arg 16
    tid ← current_thread_id
    let wait_all = not (wait_all_word == 0)
    found ← scan tid lp_handles wait_all n_count 0 true
    on_option (found.0)
        (if wait_all && found.1
          then (do acquire_all tid lp_handles n_count 0; return_stdcall 0 arg_bytes)
          else suspend (read_handles lp_handles n_count 0 []) timeout_ms arg_bytes)
        (λ i. return_stdcall (mask32 i) arg_bytes)
