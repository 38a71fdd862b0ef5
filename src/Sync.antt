-- ===== src/Sync.antt =====
-- Mutexes and events: the handlers of tew/api/kernel32_io.py from CreateMutexA to ResetEvent, and
-- read_cstring of tew/api/_state.py. Waiting for them is in the child Wait.
pub mod Wait
pub mod Steps
pub mod Reached
pub mod Mutex
pub mod Safety
pub mod Counting
pub mod Releases
use tew.Base.{
  ℕ, zero, suc, ◌+◌, ◌-◌, ◌*◌, ◌%◌, min, leb, ltb, ◌==◌, if◌then◌else◌, Bool, true, false, not,
  ◌&&◌, Option, none, some, List, [], ◌∷◌, Dict, Text, text_same, nat_key, add_to_set, get, put,
  value_error, runtime_error, ◌>>=◌, ◌>>◌, pure, raise, or_raise,
}
use tew.State.{
  KernelHandle, MutexHandle, EventHandle, ObjectState, mutex, event, last_error_addr, u32,
}
use tew.State.Native.{Native}
use tew.Machine.{
  Action, mask32, on_option, get_state, get_native, put_native, get_cpu, get_memory, put_objects,
  read32, read8, read_bytes, arg, set_last_error, return_stdcall, fail_stdcall, current_thread_id,
  unblock_handle,
}
use tew.Kernel.{set_object, object_at, block_current_on_handles}

abbrev error_already_exists : ℕ
error_already_exists = 183

abbrev error_file_not_found : ℕ
error_file_not_found = 2

-- A mutex without an owner, or a signalled event.
unfoldable pub is_ready : KernelHandle → Bool
is_ready (mutex m) = elim m.owner_tid [ none ↦ true | some o ↦ false ]
is_ready (event e) = e.signaled

unfoldable pub is_owner : ℕ → KernelHandle → Bool
is_owner tid (mutex m) = elim m.owner_tid [ none ↦ false | some o ↦ o == tid ]
is_owner tid (event e) = false

-- What a satisfied wait does to the object.
unfoldable pub acquire : ℕ → KernelHandle → KernelHandle
acquire tid (mutex m) =
    mutex (record m { owner_tid = some tid; recursion_count = 1; locked = true })
acquire tid (event e) = if e.manual_reset then event e else event (record e { signaled = false })

-- obj.recursion_count += 1
unfoldable pub reenter : KernelHandle → KernelHandle
reenter (mutex m) = mutex (record m { recursion_count = m.recursion_count + 1 })
reenter (event e) = event e

-- The mutex part of ReleaseMutex, and whether waiting threads are woken. A count of 0 counts down
-- to -1 in Python, which resets it as well.
unfoldable pub release : MutexHandle → MutexHandle × Bool
release m =
    if leb m.recursion_count 1
    then (record m { owner_tid = none; locked = false; recursion_count = 0 }, true)
    else (record m { recursion_count = m.recursion_count - 1 }, false)

-- data[:data.find(0)]
unfoldable pub until_nul : List ℕ → List ℕ
until_nul [] = []
until_nul (c ∷ cs) = let rest = until_nul cs in if c == 0 then [] else c ∷ rest

unfoldable pub is_named : Text → KernelHandle → Bool
is_named name (mutex m) = text_same m.name name
is_named name (event e) = false

-- The first handle, in the order of the table, of a mutex with the name.
unfoldable pub find_mutex : Text → (ℕ → KernelHandle) → Dict ℕ ℕ → Option ℕ
find_mutex name object [] = none
find_mutex name object ((h, r) ∷ d) =
    let rest = find_mutex name object d in if is_named name (object r) then some h else rest

-- The mutex that CreateMutexA makes, without and with bInitialOwner.
unfoldable pub free_mutex : Text → KernelHandle
free_mutex name =
    mutex (record { locked = false; name = name; owner_tid = none; recursion_count = 0 })

unfoldable pub owned_mutex : Text → ℕ → KernelHandle
owned_mutex name tid =
    mutex (record { locked = true; name = name; owner_tid = some tid; recursion_count = 1 })

-- kernel_handle_map[h] = a new object
unfoldable pub add_object : ℕ → KernelHandle → ObjectState → ObjectState
add_object h o s = record s {
  kernel_handle_map = put h s.next_object s.kernel_handle_map;
  object = λ q. if q == s.next_object then o else s.object q;
  next_object = s.next_object + 1;
}

-- `if name: ...` and the search through the handles
unfoldable pub lookup_name : Text → ObjectState → Option ℕ
lookup_name [] s = none
lookup_name (c ∷ name) s = find_mutex (c ∷ name) s.object s.kernel_handle_map

module _ {N : Type 0} ⦃lib : Native N⦄ where
  -- with the default max_len; below `size - ptr` is what can be read
  unfoldable pub read_cstring : ℕ → Action N Text
  read_cstring ptr = do
    b ← get_memory
    data_bytes ←
        if leb b.size ptr
        then (do c ← read8 ptr; if ptr == b.size then read_bytes ptr 0 else raise value_error)
        else read_bytes ptr (min 260 (b.size - ptr))
    pure (until_nul data_bytes)

  unfoldable pub read_name : ℕ → Action N Text
  read_name name_ptr = if name_ptr == 0 then pure [] else read_cstring name_ptr

  -- h = state.next_kernel_handle; state.next_kernel_handle += 1
  unfoldable pub claim_handle : Action N ℕ
  claim_handle = do
    s ← get_state
    put_objects (record (s.objects) { next_kernel_handle = s.objects.next_kernel_handle + 1 })
    pure (s.objects.next_kernel_handle)

  -- the new object, and its handle in EAX
  unfoldable pub install : ℕ → KernelHandle → ℕ → Action N (Unit {0})
  install h o arg_bytes = do
    s ← get_state
    put_objects (add_object h o s.objects)
    return_stdcall h arg_bytes

  unfoldable pub create_mutex_a : Action N (Unit {0})
  create_mutex_a = do
    b_owner ← arg 8
    name_ptr ← arg 12
    name ← read_name name_ptr
    s ← get_state
    on_option (lookup_name name s.objects)
        (do
          h ← claim_handle
          if b_owner == 0
              then install h (free_mutex name) 12
              else do tid ← current_thread_id; install h (owned_mutex name tid) 12)
        (λ h. fail_stdcall error_already_exists h 12)

  unfoldable pub open_mutex_a : Action N (Unit {0})
  open_mutex_a = do
    name_ptr ← arg 12
    name ← read_name name_ptr
    s ← get_state
    on_option (lookup_name name s.objects) (fail_stdcall error_file_not_found 0 12)
        (λ h. return_stdcall h 12)

  -- `if isinstance(obj, MutexHandle)`
  unfoldable pub release_object : ℕ → ℕ → KernelHandle → ObjectState → Action N (Unit {0})
  release_object h r (event e) s = pure tt
  release_object h r (mutex m) s = do
    put_objects (set_object r (mutex ((release m).0)) s)
    if (release m).1 then (do n ← unblock_handle h; pure tt) else pure tt

  unfoldable pub release_mutex : Action N (Unit {0})
  release_mutex = do
    h ← arg 4
    s ← get_state
    on_option (object_at h s.objects) (pure tt)
        (λ found. release_object h found.0 found.1 s.objects)
    return_stdcall 1 4

  unfoldable pub create_event_a : Action N (Unit {0})
  create_event_a = do
    b_manual ← arg 8
    b_initial ← arg 12
    name_ptr ← arg 16
    name ← read_name name_ptr
    h ← claim_handle
    install h
        (event (record { signaled = not (b_initial == 0); manual_reset = not (b_manual == 0) })) 16

  -- obj.signaled = b, with the waiting threads woken by SetEvent
  unfoldable pub mark_event : Bool → ℕ → ℕ → KernelHandle → ObjectState → Action N (Unit {0})
  mark_event b h r (mutex m) s = pure tt
  mark_event b h r (event e) s = do
    put_objects (set_object r (event (record e { signaled = b })) s)
    if b then (do n ← unblock_handle h; pure tt) else pure tt

  unfoldable pub mark_handle : Bool → Action N (Unit {0})
  mark_handle b = do
    h ← arg 4
    s ← get_state
    on_option (object_at h s.objects) (pure tt) (λ found. mark_event b h found.0 found.1 s.objects)
    return_stdcall 1 4

  unfoldable pub set_event : Action N (Unit {0})
  set_event = mark_handle true

  unfoldable pub reset_event : Action N (Unit {0})
  reset_event = mark_handle false
