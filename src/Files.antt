-- ===== src/Files.antt =====
-- Files: the handle tables, LockFile and UnlockFile of tew/api/kernel32_io.py.
pub mod Handles
pub mod Locks
pub mod Keeps
pub mod Removed
pub mod Unlocks
pub mod Safety
pub mod Access
pub mod Seek
pub mod Placed
pub mod Positions
pub mod Seeking
use tew.Base.{
  ℕ, ◌+◌, ◌*◌, ◌^◌, ltb, leb, ◌==◌, if◌then◌else◌, Bool, true, false, not, ◌&&◌, Option, none, some,
  List, [], ◌∷◌, ◌++◌, Dict, Text, text_key, nat_key, get, put, get_or, ◌>>=◌, ◌>>◌, pure,
}
use tew.State.{FileHandleEntry, FileLock, FileState}
use tew.State.Native.{Native}
use tew.Machine.{Action, on_option, get_state, put_files, arg, return_stdcall, fail_stdcall}

abbrev pub error_invalid_handle : ℕ
error_invalid_handle = 6

abbrev pub error_lock_violation : ℕ
error_lock_violation = 33

abbrev pub error_not_locked : ℕ
error_not_locked = 158

-- file_handle_map.get(h): the entry's place and the entry
unfoldable pub entry_at : ℕ → FileState → Option (ℕ × FileHandleEntry)
entry_at h s = elim (get h s.file_handle_map) [ none ↦ none | some r ↦ some (r, s.entry r) ]

unfoldable pub set_entry : ℕ → FileHandleEntry → FileState → FileState
set_entry r e s = record s { entry = λ q. if q == r then e else s.entry q }

-- low | (high << 32) of two words
unfoldable pub join_words : ℕ → ℕ → ℕ
join_words low high = low + high * 2 ^ 32

-- l_handle != h_file and start < l_end and l_start < end
unfoldable pub conflicts : ℕ → ℕ → ℕ → FileLock → Bool
conflicts h start stop l = not (l.handle == h) && (ltb start l.stop && ltb l.start stop)

unfoldable pub has_conflict : ℕ → ℕ → ℕ → List FileLock → Bool
has_conflict h start stop [] = false
has_conflict h start stop (l ∷ ls) =
    let rest = has_conflict h start stop ls in if conflicts h start stop l then true else rest

unfoldable pub is_lock : ℕ → ℕ → ℕ → FileLock → Bool
is_lock h start stop l = (l.handle == h) && ((l.start == start) && (l.stop == stop))

-- locks.pop(i) of the first lock that is meant
unfoldable pub remove_lock : ℕ → ℕ → ℕ → List FileLock → Option (List FileLock)
remove_lock h start stop [] = none
remove_lock h start stop (l ∷ ls) =
    let rest = remove_lock h start stop ls in
    if is_lock h start stop l
    then some ls
    else elim rest [ none ↦ none | some left ↦ some (l ∷ left) ]

-- LockFile on the locks of one path: `none` is a conflict.
unfoldable pub add_lock : ℕ → ℕ → ℕ → List FileLock → Option (List FileLock)
add_lock h start stop ls =
    if has_conflict h start stop ls
    then none
    else some (ls ++ record { start = start; stop = stop; handle = h } ∷ [])

-- state.file_locks.get(path, [])
unfoldable pub locks_of : Text → FileState → List FileLock
locks_of path s = get_or (get path s.file_locks) []

-- [l for l in locks if l[2] != h]
unfoldable pub without_handle : ℕ → List FileLock → List FileLock
without_handle h [] = []
without_handle h (l ∷ ls) =
    let rest = without_handle h ls in if l.handle == h then rest else l ∷ rest

module _ {N : Type 0} ⦃lib : Native N⦄ where
  -- setdefault leaves an empty list behind also when the lock is refused; it cannot be refused then
  unfoldable pub lock_range : ℕ → ℕ → ℕ → Text → FileState → Action N (Unit {0})
  lock_range h start stop path s =
      on_option (add_lock h start stop (locks_of path s)) (fail_stdcall error_lock_violation 0 20)
        (λ ls. do
          put_files (record s { file_locks = put path ls s.file_locks })
          return_stdcall 1 20)

  unfoldable pub lock_file : Action N (Unit {0})
  lock_file = do
    h_file ← arg 4
    off_low ← arg 8
    off_high ← arg 12
    len_low ← arg 16
    len_high ← arg 20
    s ← get_state
    on_option (entry_at h_file s.files) (fail_stdcall error_invalid_handle 0 20) (λ found.
        lock_range h_file (join_words off_low off_high)
          (join_words off_low off_high + join_words len_low len_high) (found.1.path) (s.files))

  -- the list is changed in place, so a path without locks gets no entry
  unfoldable pub unlock_range : ℕ → ℕ → ℕ → Text → FileState → Action N (Unit {0})
  unlock_range h start stop path s =
      on_option (remove_lock h start stop (locks_of path s)) (fail_stdcall error_not_locked 0 20)
        (λ ls. do
          put_files (record s { file_locks = put path ls s.file_locks })
          return_stdcall 1 20)

  unfoldable pub unlock_file : Action N (Unit {0})
  unlock_file = do
    h_file ← arg 4
    off_low ← arg 8
    off_high ← arg 12
    len_low ← arg 16
    len_high ← arg 20
    s ← get_state
    on_option (entry_at h_file s.files) (fail_stdcall error_invalid_handle 0 20) (λ found.
        unlock_range h_file (join_words off_low off_high)
          (join_words off_low off_high + join_words len_low len_high) (found.1.path) (s.files))
