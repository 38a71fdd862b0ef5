-- ===== src/Files/Handles.antt =====
-- CloseHandle and _duplicate_handle_entry of tew/api/kernel32_io.py.
use tew.Base.{
  ℕ, ◌+◌, leb, ◌==◌, if◌then◌else◌, Bool, true, ◌||◌, Option, none, some, Text, text_key, nat_key,
  get, put, pop, ◌>>=◌, ◌>>◌, pure,
}
use tew.State.{FileHandleEntry, FileState, KernelHandle, event}
use tew.State.Native.{Native}
use tew.Machine.{
  Action, on_option, get_state, get_native, put_native, put_files, put_objects, arg, return_stdcall,
}
use tew.Sync.{add_object, claim_handle}
use tew.Files.{entry_at, without_handle}

abbrev current_process_handle : ℕ
current_process_handle = 0xFFFFFFFF

abbrev current_thread_handle : ℕ
current_thread_handle = 0xFFFFFFFE

-- The dummy event of an untracked handle.
unfoldable pub dummy_event : KernelHandle
dummy_event = event (record { signaled = true; manual_reset = true })

-- The locks of the closed handle are dropped; a path without locks gets no entry.
unfoldable pub drop_locks : ℕ → Text → FileState → FileState
drop_locks h path s = elim (get path s.file_locks) [
  | none ↦ s
  | some ls ↦ record s { file_locks = put path (without_handle h ls) s.file_locks }
]

module _ {N : Type 0} ⦃lib : Native N⦄ where
  -- os.close of the host's file; a failure is logged
  unfoldable pub close_fd : Option ℕ → Action N (Unit {0})
  close_fd none = pure tt
  close_fd (some fd) =
      if leb 3 fd
      then (do n ← get_native; on_option (lib.close n fd) (pure tt) put_native)
      else pure tt

  unfoldable pub close_entry : ℕ → FileHandleEntry → Action N (Unit {0})
  close_entry h entry = do
    close_fd entry.fd
    s ← get_state
    put_files (drop_locks h entry.path s.files)

  -- the file of the handle, if it is one
  unfoldable pub close_file : ℕ → Action N (Unit {0})
  close_file h = do
    s ← get_state
    on_option (entry_at h s.files) (pure tt) (λ found. close_entry h found.1)

  -- the three pops
  unfoldable pub forget_handle : ℕ → Action N (Unit {0})
  forget_handle h = do
    s ← get_state
    put_files (record (s.files) {
      file_handle_map = pop h s.files.file_handle_map;
      file_mapping_map = pop h s.files.file_mapping_map;
    })
    put_objects (record (s.objects) { kernel_handle_map = pop h s.objects.kernel_handle_map })

  unfoldable pub close_handle : Action N (Unit {0})
  close_handle = do h ← arg 4; close_file h; forget_handle h; return_stdcall 1 4

  unfoldable pub add_dummy : Action N ℕ
  add_dummy = do
    h ← claim_handle
    s ← get_state
    put_objects (add_object h dummy_event s.objects)
    pure h

  unfoldable pub duplicate_file : ℕ → FileState → Action N ℕ
  duplicate_file r s = do
    put_files (record s {
      file_handle_map = put s.next_file_handle r s.file_handle_map;
      next_file_handle = s.next_file_handle + 1;
    })
    pure (s.next_file_handle)

  unfoldable pub duplicate_object : ℕ → Action N ℕ
  duplicate_object h_source = do
    s ← get_state
    on_option (get h_source s.objects.kernel_handle_map) add_dummy (λ r. do
      put_objects (record (s.objects) {
        kernel_handle_map = put s.objects.next_kernel_handle r s.objects.kernel_handle_map;
        next_kernel_handle = s.objects.next_kernel_handle + 1;
      })
      pure (s.objects.next_kernel_handle))

  unfoldable pub register_duplicate : ℕ → Action N ℕ
  register_duplicate h_source =
      if (h_source == current_process_handle) || (h_source == current_thread_handle)
      then add_dummy
      else do
        s ← get_state
        on_option (get h_source s.files.file_handle_map) (duplicate_object h_source)
            (λ r. duplicate_file r (s.files))

  unfoldable pub close_source : ℕ → Action N (Unit {0})
  close_source h = do
    s ← get_state
    put_files (record (s.files) { file_handle_map = pop h s.files.file_handle_map })
    put_objects (record (s.objects) { kernel_handle_map = pop h s.objects.kernel_handle_map })

  unfoldable pub duplicate_handle_entry : ℕ → Bool → Action N ℕ
  duplicate_handle_entry h_source close = do
    h ← register_duplicate h_source
    if close then close_source h_source else pure tt
    pure h
