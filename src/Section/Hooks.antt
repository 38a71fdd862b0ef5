-- ===== src/Section/Hooks.antt =====
-- The critical-section handlers of tew/api/kernel32_sync.py in Python: initialisation, the two hooks of the
-- guest code, deletion, and the resource locks.
use tew.Base.{
  ℕ, ◌+◌, ◌-◌, ◌^◌, ◌==◌, if◌then◌else◌, true, false, not, ◌&&◌, none, List, [], ◌∷◌, replicate,
  pop, nat_key, runtime_error, ◌>>=◌, ◌>>◌, pure, raise,
}
use tew.State.{KernelHandle, EventHandle, mutex, event}
use tew.State.Native.{Native}
use tew.Machine.{
  Action, mask32, on_option, when, get_state, get_cpu, put_objects, put_cs_list_head, set_eax, arg,
  read32, write32, load, cleanup_stdcall, return_stdcall, current_thread_id, unblock_handle,
}
use tew.Kernel.{set_object, object_at, block_current_on_handles}
use tew.Heap.{simple_alloc, simple_free}
use tew.Sync.{claim_handle, add_object}

abbrev cs_size : ℕ
cs_size = 0x18

abbrev cs_debug_size : ℕ
cs_debug_size = 0x20

module _ {N : Type 0} ⦃lib : Native N⦄ where
  -- the head of RtlCriticalSectionList, made on first use: an empty list points at itself
  unfoldable pub list_head : Action N ℕ
  list_head = do
    s ← get_state
    if s.cs_list_head == 0
        then (do
          head ← simple_alloc 8 0
          put_cs_list_head head
          write32 head head
          write32 (head + 4) head
          pure head)
        else pure (s.cs_list_head)

  -- memory.write32 of the words, one after the other
  unfoldable pub write_words : ℕ → List ℕ → Action N (Unit {0})
  write_words a [] = pure tt
  write_words a (w ∷ ws) = do write32 a w; write_words (a + 4) ws

  unfoldable pub write_initialized_cs : ℕ → Action N (Unit {0})
  write_initialized_cs ptr = do
    debug ← simple_alloc cs_debug_size 0
    write32 (debug + 0x04) ptr
    head ← list_head
    tail ← read32 (head + 4)
    write32 (debug + 0x08) head
    write32 (debug + 0x0C) tail
    write32 tail (debug + 0x08)
    write32 (head + 4) (debug + 0x08)
    write_words ptr (debug ∷ 0xFFFFFFFF ∷ 0 ∷ 0 ∷ 0 ∷ 0 ∷ [])

  unfoldable pub init_cs : Action N (Unit {0})
  init_cs = do ptr ← arg 4; write_initialized_cs ptr; return_stdcall 0 4

  unfoldable pub init_cs_spin : Action N (Unit {0})
  init_cs_spin = do ptr ← arg 4; write_initialized_cs ptr; return_stdcall 1 8

  unfoldable pub rtl_init_cs_spin : Action N (Unit {0})
  rtl_init_cs_spin = do ptr ← arg 4; write_initialized_cs ptr; return_stdcall 0 8

  -- the handle, the place and the event, which is made on first use
  unfoldable pub new_semaphore : ℕ → Action N (ℕ × ℕ × EventHandle)
  new_semaphore ptr = do
    h ← claim_handle
    s ← get_state
    let e : EventHandle = record { signaled = false; manual_reset = false }
    put_objects (add_object h (event e) s.objects)
    write32 (ptr + 0x10) h
    pure (h, s.objects.next_object, e)

  unfoldable pub old_semaphore : ℕ → ℕ → KernelHandle → Action N (ℕ × ℕ × EventHandle)
  old_semaphore h r (event e) = pure (h, r, e)
  old_semaphore h r (mutex m) = raise runtime_error

  unfoldable pub lock_semaphore : ℕ → Action N (ℕ × ℕ × EventHandle)
  lock_semaphore ptr = do
    h ← read32 (mask32 (ptr + 0x10))
    if h == 0 then new_semaphore ptr else do
      s ← get_state
      on_option (object_at h s.objects) (raise runtime_error)
          (λ found. old_semaphore h found.0 found.1)

  unfoldable pub cs_enter_wait : Action N (Unit {0})
  cs_enter_wait = do
    ptr ← arg 4
    found ← lock_semaphore ptr
    if found.2.signaled
        then (do
          s ← get_state
          put_objects
              (set_object found.1 (event (record (found.2) { signaled = false })) s.objects))
        else do
          c ← get_cpu
          block_current_on_handles (found.0 ∷ []) (mask32 (c.eip + (2 ^ 32 - 2))) none

  unfoldable pub cs_leave_wake : Action N (Unit {0})
  cs_leave_wake = do
    ptr ← arg 4
    found ← lock_semaphore ptr
    s ← get_state
    put_objects (set_object found.1 (event (record (found.2) { signaled = true })) s.objects)
    n ← unblock_handle found.0
    pure tt

  -- DebugInfo out of the list, zeroed and freed
  unfoldable pub unlink_debug : ℕ → Action N (Unit {0})
  unlink_debug debug = do
    flink ← read32 (debug + 0x08)
    blink ← read32 (debug + 0x0C)
    write32 blink flink
    write32 (flink + 4) blink
    load debug (replicate cs_debug_size 0)
    simple_free debug

  unfoldable pub close_semaphore : ℕ → Action N (Unit {0})
  close_semaphore ptr = do
    found ← lock_semaphore ptr
    s ← get_state
    put_objects (record (s.objects) { kernel_handle_map = pop found.0 s.objects.kernel_handle_map })

  unfoldable pub delete_cs : Action N (Unit {0})
  delete_cs = do
    ptr ← arg 4
    h ← read32 (mask32 (ptr + 0x10))
    when (not (h == 0)) (close_semaphore ptr)
    debug ← read32 ptr
    when (not (debug == 0)) (unlink_debug debug)
    load ptr (replicate cs_size 0)
    cleanup_stdcall 4

  unfoldable pub init_slist_head : Action N (Unit {0})
  init_slist_head = do ptr ← arg 4; write_words ptr (0 ∷ 0 ∷ []); cleanup_stdcall 4

  unfoldable pub rtl_init_resource : Action N (Unit {0})
  rtl_init_resource = do
    ptr ← arg 4
    write_words ptr (0 ∷ 0xFFFFFFFF ∷ 0 ∷ 0 ∷ 0 ∷ 0 ∷ replicate 8 0)
    cleanup_stdcall 4

  unfoldable pub rtl_acquire_resource_exclusive : Action N (Unit {0})
  rtl_acquire_resource_exclusive = do
    ptr ← arg 4
    tid ← current_thread_id
    number_active ← read32 (mask32 (ptr + 0x28))
    owner ← read32 (mask32 (ptr + 0x2C))
    if not (number_active == 0) && not (owner == tid)
        then set_eax 0
        else (do write32 (ptr + 0x28) 0xFFFFFFFF; write32 (ptr + 0x2C) tid; set_eax 1)
    cleanup_stdcall 8

  unfoldable pub rtl_release_resource : Action N (Unit {0})
  rtl_release_resource = do
    ptr ← arg 4
    write32 (ptr + 0x28) 0
    write32 (ptr + 0x2C) 0
    cleanup_stdcall 4
