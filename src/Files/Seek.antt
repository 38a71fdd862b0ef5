-- ===== src/Files/Seek.antt =====
-- _llseek, _lread, SetFilePointer and GetFileSize of tew/api/kernel32_io.py.
use tew.Base.{
  ℕ, ◌+◌, ◌==◌, if◌then◌else◌, ◌&&◌, Option, none, some, List, length, os_error, ◌>>=◌, ◌>>◌, pure,
  or_raise,
}
use tew.State.{FileHandleEntry}
use tew.State.Native.{Native}
use tew.Machine.{
  Action, on_option, get_state, get_native, put_files, set_eax, arg, cleanup_stdcall,
  set_last_error,
}
use tew.Files.{entry_at, set_entry, error_invalid_handle}
use tew.Files.Access.{
  move_to, seek_within, seek_from, seek_base, data_at, file_entry_size, load_data, pread_entry,
  report,
}

abbrev hfile_error : ℕ
hfile_error = 0xFFFFFFFF

module _ {N : Type 0} ⦃lib : Native N⦄ where
  -- entry.position = p; cpu.regs[EAX] = p & 0xFFFFFFFF
  unfoldable pub set_position : ℕ → FileHandleEntry → ℕ → Action N (Unit {0})
  set_position r e p = do s ← get_state; put_files (set_entry r (move_to p e) s.files); set_eax p

  unfoldable pub seek_entry : ℕ → FileHandleEntry → ℕ → ℕ → Action N (Unit {0})
  seek_entry r e offset origin = do
    size ← file_entry_size e
    set_position r e (seek_within (seek_base origin e size) offset size)

  unfoldable pub llseek : Action N (Unit {0})
  llseek = do
    h_file ← arg 4
    offset ← arg 8
    origin ← arg 12
    s ← get_state
    on_option (entry_at h_file s.files) (set_eax hfile_error)
        (λ found. seek_entry found.0 found.1 offset origin)
    cleanup_stdcall 12

  -- entry.position += len(data); cpu.regs[EAX] = len(data)
  unfoldable pub finish_lread : ℕ → FileHandleEntry → ℕ → List ℕ → Action N (Unit {0})
  finish_lread r e buf bytes = do
    load_data buf bytes
    s ← get_state
    put_files (set_entry r (move_to (e.position + length bytes) e) s.files)
    set_eax (length bytes)

  unfoldable pub lread : Action N (Unit {0})
  lread = do
    h_file ← arg 4
    buf ← arg 8
    n_want ← arg 12
    s ← get_state
    on_option (entry_at h_file s.files) (set_eax hfile_error) (λ found.
        if found.1.writable && found.1.readable
        then (do
          bytes ← pread_entry found.1 n_want found.1.position
          finish_lread found.0 found.1 buf bytes)
        else finish_lread found.0 found.1 buf (data_at found.1 found.1.position n_want))
    cleanup_stdcall 12

  -- the size only for a seek from the end of the file
  unfoldable pub end_size : ℕ → ℕ → Action N ℕ
  end_size method fd =
      if method == 2 then (do n ← get_native; or_raise (lib.fstat_size n fd) os_error) else pure 0

  unfoldable pub move_pointer : ℕ → FileHandleEntry → ℕ → ℕ → Action N (Unit {0})
  move_pointer r e distance method =
      if e.writable
      then on_option e.fd (set_eax hfile_error) (λ fd. do
        size ← end_size method fd
        set_position r e (seek_from (seek_base method e size) distance))
      else set_position r e
          (seek_within (seek_base method e (length e.contents)) distance (length e.contents))

  unfoldable pub set_file_pointer : Action N (Unit {0})
  set_file_pointer = do
    h_file ← arg 4
    distance ← arg 8
    method ← arg 16
    s ← get_state
    on_option (entry_at h_file s.files) (set_eax hfile_error)
        (λ found. move_pointer found.0 found.1 distance method)
    cleanup_stdcall 16

  -- os.fstat(entry.fd) if entry.fd is not None else os.stat(entry.path); a failure is caught
  unfoldable pub host_size : FileHandleEntry → Action N (Option ℕ)
  host_size e = do
    n ← get_native
    pure (elim e.fd [ none ↦ lib.stat_size n e.path | some fd ↦ lib.fstat_size n fd ])

  unfoldable pub get_file_size : Action N (Unit {0})
  get_file_size = do
    h_file ← arg 4
    lp_high ← arg 8
    s ← get_state
    size ← on_option (entry_at h_file s.files) (pure none) (λ found. host_size found.1)
    on_option size (do set_eax hfile_error; set_last_error error_invalid_handle)
        (λ bytes. do report lp_high 0; set_eax bytes)
    cleanup_stdcall 8
