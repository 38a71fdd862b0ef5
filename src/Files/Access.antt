-- ===== src/Files/Access.antt =====
-- Reading and writing: ReadFile and WriteFile of tew/api/kernel32_io.py, and the parts that the seeks of
-- Files/Seek share. A position is a natural number, since every seek is cut off at 0.
use tew.Base.{
  ℕ, ◌+◌, ◌-◌, ◌^◌, min, ltb, ◌==◌, if◌then◌else◌, not, Option, none, some, List, [], ◌∷◌, take,
  drop, length, get_or, os_error, ◌>>=◌, ◌>>◌, pure, or_raise,
}
use tew.State.{FileHandleEntry}
use tew.State.Native.{Native}
use tew.Machine.{
  Action, mask32, on_option, when, get_state, get_native, put_native, put_files, set_eax, arg,
  read32, write32, load, read_bytes, cleanup_stdcall,
}
use tew.Files.{entry_at, set_entry, join_words}

-- entry.position = p
unfoldable pub move_to : ℕ → FileHandleEntry → FileHandleEntry
move_to p e = record e { position = p }

-- max(0, min(base + offset, size)) of the signed 32-bit offset that the word stands for
unfoldable pub seek_within : ℕ → ℕ → ℕ → ℕ
seek_within base word size =
    if ltb word (2 ^ 31) then min (base + word) size else min (base - (2 ^ 32 - word)) size

-- max(0, base + distance)
unfoldable pub seek_from : ℕ → ℕ → ℕ
seek_from base word = if ltb word (2 ^ 31) then base + word else base - (2 ^ 32 - word)

-- What a seek counts from: the start, the position, or the end.
unfoldable pub seek_base : ℕ → FileHandleEntry → ℕ → ℕ
seek_base origin e size = if origin == 0 then 0 else if origin == 1 then e.position else size

-- entry.data[pos : pos + min(want, max(len(entry.data) - pos, 0))]
unfoldable pub data_at : FileHandleEntry → ℕ → ℕ → List ℕ
data_at e pos want = take (min want (length e.contents - pos)) (drop pos e.contents)

-- The part of the entry that reading changes, unless an OVERLAPPED position is given.
unfoldable pub advance_by : Option ℕ → ℕ → FileHandleEntry → FileHandleEntry
advance_by none n e = move_to (e.position + n) e
advance_by (some p) n e = e

module _ {N : Type 0} ⦃lib : Native N⦄ where
  unfoldable pub file_entry_size : FileHandleEntry → Action N ℕ
  file_entry_size e =
      on_option e.fd (pure (length e.contents))
        (λ fd. do n ← get_native; or_raise (lib.fstat_size n fd) os_error)

  -- OVERLAPPED.Offset and .OffsetHigh
  unfoldable pub overlapped_position : ℕ → Action N (Option ℕ)
  overlapped_position lp_overlapped = if lp_overlapped == 0 then pure none else do
    off_low ← read32 (mask32 (lp_overlapped + 8))
    off_high ← read32 (mask32 (lp_overlapped + 0xC))
    pure (some (join_words off_low off_high))

  -- `if lp: memory.write32(lp, v)`
  unfoldable pub report : ℕ → ℕ → Action N (Unit {0})
  report lp v = when (not (lp == 0)) (write32 lp v)

  -- `if data: memory.load(buf & 0xFFFFFFFF, data)`
  unfoldable pub load_data : ℕ → List ℕ → Action N (Unit {0})
  load_data buf [] = pure tt
  load_data buf (b ∷ bs) = load (mask32 buf) (b ∷ bs)

  -- os.pread(entry.fd, want, pos) if entry.fd is not None else b""
  unfoldable pub pread_entry : FileHandleEntry → ℕ → ℕ → Action N (List ℕ)
  pread_entry e want pos =
      on_option e.fd (pure [])
        (λ fd. do n ← get_native; or_raise (lib.pread n fd want pos) os_error)

  unfoldable pub finish_read : ℕ → FileHandleEntry → Option ℕ → ℕ → ℕ → List ℕ → Action N (Unit {0})
  finish_read r e overlapped lp_buf lp_read bytes = do
    load_data lp_buf bytes
    s ← get_state
    put_files (set_entry r (advance_by overlapped (length bytes) e) s.files)
    report lp_read (length bytes)
    set_eax 1

  unfoldable pub read_entry : ℕ → FileHandleEntry → Option ℕ → ℕ → ℕ → ℕ → Action N (Unit {0})
  read_entry r e overlapped lp_buf n_to_read lp_read =
      if e.writable
      then (if e.readable
          then (do
            bytes ← pread_entry e n_to_read (get_or overlapped e.position)
            finish_read r e overlapped lp_buf lp_read bytes)
          else do report lp_read 0; set_eax 0)
      else finish_read r e overlapped lp_buf lp_read
          (data_at e (get_or overlapped e.position) n_to_read)

  unfoldable pub read_file : Action N (Unit {0})
  read_file = do
    h_file ← arg 4
    lp_buf ← arg 8
    n_to_read ← arg 12
    lp_read ← arg 16
    lp_overlapped ← arg 20
    overlapped ← overlapped_position lp_overlapped
    s ← get_state
    on_option (entry_at h_file s.files) (do report lp_read 0; set_eax 0)
        (λ found. read_entry found.0 found.1 overlapped lp_buf n_to_read lp_read)
    cleanup_stdcall 20

  unfoldable pub write_refused : ℕ → Action N (Unit {0})
  write_refused lp_written = do report lp_written 0; set_eax 0

  unfoldable pub write_entry : ℕ → FileHandleEntry → ℕ → Option ℕ → ℕ → ℕ → ℕ → Action N (Unit {0})
  write_entry r e fd overlapped lp_buf n_bytes lp_written = do
    bytes ← read_bytes (mask32 lp_buf) n_bytes
    n ← get_native
    n' ← or_raise (lib.pwrite n fd bytes (get_or overlapped e.position)) os_error
    put_native n'
    s ← get_state
    put_files (set_entry r (advance_by overlapped n_bytes e) s.files)
    report lp_written n_bytes
    set_eax 1

  unfoldable pub write_file : Action N (Unit {0})
  write_file = do
    h_file ← arg 4
    lp_buf ← arg 8
    n_bytes ← arg 12
    lp_written ← arg 16
    lp_overlapped ← arg 20
    overlapped ← overlapped_position lp_overlapped
    s ← get_state
    on_option (entry_at h_file s.files) (write_refused lp_written) (λ found.
        if found.1.writable
        then on_option (found.1.fd) (write_refused lp_written)
            (λ fd. write_entry found.0 found.1 fd overlapped lp_buf n_bytes lp_written)
        else write_refused lp_written)
    cleanup_stdcall 20
