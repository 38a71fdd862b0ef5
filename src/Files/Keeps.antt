-- ===== src/Files/Keeps.antt =====
-- Rules for LockFile, UnlockFile, CloseHandle and the duplication of handles of tew/api/kernel32_io.py: on
-- the locks of all paths, and on the steps of kernel objects.
use tew.Base.{
  ℕ, ◌≡◌, refl, Bool, Bool-cases, Option, none, some, Option-cases, inl, inr, List, Text, text_key,
  text_same, nat_key, get, put, get-put, subst,
}
use tew.State.{CrtState, FileState, FileLock, FileHandleEntry, ObjectState}
use tew.State.Native.{Native}
use tew.Machine.{put_files, put_objects}
use tew.Machine.Keeps.{Keeps, Keeps-bind, Keeps-on_option, Keeps-with_state, Keeps-arg, keeps_rules}
use tew.Sync.Steps.{
  IsConsistent, From, next, claimed, installed, duplicated, closed, put_objects-Steps,
}
use tew.Sync.Reached.{claim_handle-Steps}
use tew.Files.{entry_at, locks_of, without_handle, lock_range, lock_file, unlock_range, unlock_file}
use tew.Files.Locks.{LocksOk, add_lock-LocksOk, remove_lock-LocksOk, without_handle-LocksOk}
use tew.Files.Handles.{
  dummy_event, drop_locks, close_fd, close_entry, close_file, forget_handle, close_handle,
  add_dummy, duplicate_file, duplicate_object, register_duplicate, close_source,
  duplicate_handle_entry,
}

-- On every path the held locks are compatible.
pub record AllLocksOk (s : CrtState) : Type 0 where
  pub on : (path : Text) → LocksOk (locks_of path s.files)

-- The locks of one path are replaced by compatible ones.
put_locks-Ok :
    (path : Text) (ls : List FileLock) (s : FileState)
    → LocksOk ls
    → ((q : Text) → LocksOk (locks_of q s))
    → (q : Text) → LocksOk (locks_of q (record s { file_locks = put path ls s.file_locks }))
unfolding locks_of
put_locks-Ok path ls s new old q =
    rw (get-put path q ls (s.file_locks))
      (elim (Bool-cases (text_same path q)) [ inl hit ↦ rw hit new | inr miss ↦ rw miss (old q) ])

drop_locks-Ok :
    (h : ℕ) (path : Text) (s : FileState)
    → ((q : Text) → LocksOk (locks_of q s))
    → (q : Text) → LocksOk (locks_of q (drop_locks h path s))
unfolding drop_locks locks_of
drop_locks-Ok h path s old q = elim (Option-cases (get path s.file_locks)) [
  | inl absent ↦ rw (absent, drop_locks) (old q)
  | inr (ls, found) ↦
      let same : locks_of path s ≡ ls = unfold locks_of in rw found refl in
      rw (found, drop_locks)
        (put_locks-Ok path (without_handle h ls) s
          (without_handle-LocksOk h ls (subst LocksOk same (old path))) old q)
]

module _ {N : Type 0} ⦃lib : Native N⦄ where
  put_files-Keeps :
      (f : FileState)
      → ((q : Text) → LocksOk (locks_of q f))
      → Keeps AllLocksOk (put_files {N = N} f)
  unfolding put_files
  put_files-Keeps f ok = record { at = λ w h. record { on = ok } }

  put_objects-Locks : (o : ObjectState) → Keeps AllLocksOk (put_objects {N = N} o)
  unfolding put_objects
  put_objects-Locks o = record { at = λ w h. record { on = h.on } }

  lock_range-Keeps :
      (h start stop : ℕ) (path : Text) (s : FileState)
      → ((q : Text) → LocksOk (locks_of q s))
      → Keeps AllLocksOk (lock_range {N = N} h start stop path s)
  unfolding lock_range
  lock_range-Keeps h start stop path s v =
      Keeps-on_option _ _ _ (λ _. search keeps_rules)
        λ ls e.
          Keeps-bind _ _
            (put_files-Keeps _ (
              put_locks-Ok path ls s (add_lock-LocksOk h start stop (locks_of path s) ls (v path) e)
                v))
            λ _. search keeps_rules

  -- LockFile keeps the locks of different handles apart, on every path.
  pub lock_file-Keeps : Keeps AllLocksOk (lock_file {N = N})
  unfolding lock_file
  lock_file-Keeps = Keeps-bind _ _ (Keeps-arg 4) λ h. Keeps-bind _ _ (Keeps-arg 8) λ a.
      Keeps-bind _ _ (Keeps-arg 12) λ b. Keeps-bind _ _ (Keeps-arg 16) λ c.
        Keeps-bind _ _ (Keeps-arg 20) λ d. Keeps-with_state _ λ s v.
          Keeps-on_option (entry_at h (s.files)) _ _ (λ _. search keeps_rules)
            λ found e. lock_range-Keeps h _ _ _ (s.files) (v.on)

  unlock_range-Keeps :
      (h start stop : ℕ) (path : Text) (s : FileState)
      → ((q : Text) → LocksOk (locks_of q s))
      → Keeps AllLocksOk (unlock_range {N = N} h start stop path s)
  unfolding unlock_range
  unlock_range-Keeps h start stop path s v =
      Keeps-on_option _ _ _ (λ _. search keeps_rules)
        λ ls e.
          Keeps-bind _ _
            (put_files-Keeps _ (
              put_locks-Ok path ls s
                (remove_lock-LocksOk h start stop (locks_of path s) ls (v path) e) v))
            λ _. search keeps_rules

  pub unlock_file-Keeps : Keeps AllLocksOk (unlock_file {N = N})
  unfolding unlock_file
  unlock_file-Keeps = Keeps-bind _ _ (Keeps-arg 4) λ h. Keeps-bind _ _ (Keeps-arg 8) λ a.
      Keeps-bind _ _ (Keeps-arg 12) λ b. Keeps-bind _ _ (Keeps-arg 16) λ c.
        Keeps-bind _ _ (Keeps-arg 20) λ d. Keeps-with_state _ λ s v.
          Keeps-on_option (entry_at h (s.files)) _ _ (λ _. search keeps_rules)
            λ found e. unlock_range-Keeps h _ _ _ (s.files) (v.on)

  close_fd-Keeps : {P : CrtState → Type 0} (fd : Option ℕ) → Keeps P (close_fd {N = N} fd)
  unfolding close_fd
  close_fd-Keeps none = search keeps_rules
  close_fd-Keeps (some fd) = search keeps_rules

  close_entry-Keeps : (h : ℕ) (e : FileHandleEntry) → Keeps AllLocksOk (close_entry {N = N} h e)
  unfolding close_entry
  close_entry-Keeps h e =
      Keeps-bind _ _ (close_fd-Keeps (e.fd))
        λ _. Keeps-with_state _ λ s v. put_files-Keeps _ (drop_locks-Ok h (e.path) (s.files) (v.on))

  close_file-Keeps : (h : ℕ) → Keeps AllLocksOk (close_file {N = N} h)
  unfolding close_file
  close_file-Keeps h = search (keeps_rules, close_entry-Keeps)

  forget_handle-Keeps : (h : ℕ) → Keeps AllLocksOk (forget_handle {N = N} h)
  unfolding forget_handle locks_of
  forget_handle-Keeps h =
      Keeps-with_state {P = AllLocksOk} _
        λ s v. Keeps-bind _ _ (put_files-Keeps _ (λ q. v.on q)) λ _. put_objects-Locks _

  -- So does CloseHandle, which drops the locks of the handle.
  pub close_handle-Keeps : Keeps AllLocksOk (close_handle {N = N})
  unfolding close_handle
  close_handle-Keeps = search (keeps_rules, close_file-Keeps, forget_handle-Keeps)

module _ {N : Type 0} ⦃lib : Native N⦄ {b : Bool} {o : ObjectState} where
  put_files-Steps : (f : FileState) → Keeps (From b o) (put_files {N = N} f)
  unfolding put_files
  put_files-Steps f = record { at = λ w h. h }

  close_entry-Steps : (h : ℕ) (e : FileHandleEntry) → Keeps (From b o) (close_entry {N = N} h e)
  unfolding close_entry
  close_entry-Steps h e = search (keeps_rules, close_fd-Keeps, put_files-Steps)

  close_file-Steps : (h : ℕ) → Keeps (From b o) (close_file {N = N} h)
  unfolding close_file
  close_file-Steps h = search (keeps_rules, close_entry-Steps)

  forget_handle-Steps : (h : ℕ) → Keeps (From b o) (forget_handle {N = N} h)
  unfolding forget_handle
  forget_handle-Steps h =
      Keeps-with_state _
        λ s v. Keeps-bind _ _ (put_files-Steps _) λ _. put_objects-Steps (s.objects) _ v (closed h)

  -- Closing a handle takes no object away from the other handles.
  pub close_handle-Steps : Keeps (From b o) (close_handle {N = N})
  unfolding close_handle
  close_handle-Steps = search (keeps_rules, close_file-Steps, forget_handle-Steps)

  add_dummy-Steps : Keeps (From b o) (add_dummy {N = N})
  unfolding add_dummy
  add_dummy-Steps = Keeps-bind _ _ claim_handle-Steps λ h. Keeps-with_state _ λ s from.
      Keeps-bind _ _
        (put_objects-Steps (s.objects) _ from
          (installed h dummy_event (unfold dummy_event IsConsistent in tt)))
        λ _. search keeps_rules

  duplicate_object-Steps : (h : ℕ) → Keeps (From b o) (duplicate_object {N = N} h)
  unfolding duplicate_object
  duplicate_object-Steps h = Keeps-with_state _ λ s from.
      Keeps-on_option (get h (s.objects.kernel_handle_map)) _ _ (λ _. add_dummy-Steps)
        λ r found.
          Keeps-bind _ _
            (put_objects-Steps _ _ (next from claimed)
              (duplicated h (s.objects.next_kernel_handle) r found))
            λ _. search keeps_rules

  duplicate_file-Steps : (r : ℕ) (f : FileState) → Keeps (From b o) (duplicate_file {N = N} r f)
  unfolding duplicate_file
  duplicate_file-Steps r f = search (keeps_rules, put_files-Steps)

  close_source-Steps : (h : ℕ) → Keeps (From b o) (close_source {N = N} h)
  unfolding close_source
  close_source-Steps h =
      Keeps-with_state _
        λ s v. Keeps-bind _ _ (put_files-Steps _) λ _. put_objects-Steps (s.objects) _ v (closed h)

  register_duplicate-Steps : (h : ℕ) → Keeps (From b o) (register_duplicate {N = N} h)
  unfolding register_duplicate
  register_duplicate-Steps h =
      search (keeps_rules, add_dummy-Steps, duplicate_file-Steps, duplicate_object-Steps)

  -- A duplicate shares the object of its source, or stands for a new dummy event.
  pub duplicate_handle_entry-Steps :
      (h : ℕ) (close : Bool) → Keeps (From b o) (duplicate_handle_entry {N = N} h close)
  unfolding duplicate_handle_entry
  duplicate_handle_entry-Steps h close =
      search (keeps_rules, register_duplicate-Steps, close_source-Steps)
