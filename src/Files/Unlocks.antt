-- ===== src/Files/Unlocks.antt =====
-- What UnlockFile and CloseHandle of tew/api/kernel32_io.py do to the locks of a path.
use tew.Base.{
  ℕ, ◌==◌, if◌then◌else◌, ◌&&◌, ◌≡◌, refl, ap, subst, sym, ◌∙◌, Bool-cases, inl, inr, none, some,
  Option, Option-cases, [], ok, Text, text_same, text_same_iff, text_same_refl, leb, ◌+◌,
  proceed-ok, text_key, nat_key, get_or, ◌>>=◌, pure, arith,
}
use tew.State.{World, FileHandleEntry}
use tew.State.Native.{Native}
use tew.Machine.{get_state, get_native, put_native, put_files, put_objects, arg, return_stdcall}
use tew.Machine.Returns.{arg_read, return_stdcall-Same, fail_stdcall-Same}
use tew.Files.{
  entry_at, locks_of, remove_lock, join_words, unlock_range, unlock_file, error_not_locked,
}
use tew.Files.Keeps.{AllLocksOk, unlock_file-Keeps, close_handle-Keeps}
use tew.Files.Handles.{drop_locks, close_fd, close_entry, close_file, forget_handle, close_handle}
use tew.Files.Removed.{
  held_by, IsUnlocked, lock_of, remove_lock-IsUnlocked, held_by-without_handle, put-locks_of,
  drop_locks-locks_of,
}

module _ {N : Type 0} ⦃lib : Native N⦄ where
  unlock_range-locks_of :
      (h start stop : ℕ) (path q : Text) (w : World N)
      → let s = w.state.files in
        locks_of q (unlock_range h start stop path s w).1.state.files ≡ (
          if text_same path q
          then get_or (remove_lock h start stop (locks_of path s)) (locks_of path s)
          else locks_of q s)
  unfolding unlock_range put_files ◌>>=◌
  unlock_range-locks_of h start stop path q w =
      let s = w.state.files in
      elim (Option-cases (remove_lock h start stop (locks_of path s))) [
        | inl none_there ↦
            rw (none_there, unlock_range)
              (ap (λ u. locks_of q u.files) (fail_stdcall-Same error_not_locked 0 20 w).state
                ∙ elim (Bool-cases (text_same path q)) [
                  | inl e ↦ rw e (ap (λ p. locks_of p s) (sym ((text_same_iff path q).0 e)))
                  | inr e ↦ rw e refl
                ])
        | inr (ls, found) ↦
            rw (found, unlock_range)
              (ap (λ u. locks_of q u.files) (return_stdcall-Same 1 20 _).state
                ∙ put-locks_of path q ls s)
      ]

  unlock_file-IsUnlocked :
      (w : World N) (h off_low off_high len_low len_high : ℕ) (found : ℕ × FileHandleEntry)
      → (arg 4 w).0 ≡ ok h
      → (arg 8 w).0 ≡ ok off_low
      → (arg 12 w).0 ≡ ok off_high
      → (arg 16 w).0 ≡ ok len_low
      → (arg 20 w).0 ≡ ok len_high
      → entry_at h w.state.files ≡ some found
      → let start = join_words off_low off_high in
        let u = (unlock_file w).1.state.files in
        IsUnlocked
          (lock_of h start (start + join_words len_low len_high))
          (locks_of found.1.path w.state.files)
          (locks_of found.1.path u)
        × ((q : Text)
            → locks_of q u ≡ (
                if text_same found.1.path q
                then locks_of found.1.path u
                else locks_of q w.state.files))
  unfolding unlock_file get_state ◌>>=◌
  unlock_file-IsUnlocked w h a b c d found eh ea eb ec ed there =
      let path = found.1.path in
      let start = join_words a b in
      let stop = start + join_words c d in
      rw
        (
          arg_read 4 h w eh,
          arg_read 8 a w ea,
          arg_read 12 b w eb,
          arg_read 16 c w ec,
          arg_read 20 d w ed,
          there,
        )
        (
          subst (IsUnlocked (lock_of h start stop) (locks_of path w.state.files))
              (sym (unlock_range-locks_of h start stop path path w ∙ rw (text_same_refl path) refl))
              (remove_lock-IsUnlocked h start stop (locks_of path w.state.files)),
          λ q. unlock_range-locks_of h start stop path q w ∙ elim (Bool-cases (text_same path q)) [
            | inl e ↦ rw e (
                sym
                  (unlock_range-locks_of h start stop path path w ∙ rw (text_same_refl path) refl))
            | inr e ↦ rw e refl
          ],
        )

  close_fd_lem :
      (fd : Option ℕ) (w : World N)
      → ((close_fd fd w).0 ≡ ok tt) × ((close_fd fd w).1.state ≡ w.state)
  unfolding close_fd get_native put_native pure ◌>>=◌
  close_fd_lem none w = (refl, refl)
  close_fd_lem (some fd) w = elim (Bool-cases (leb 3 fd)) [
    | inl e ↦ elim (Option-cases (lib.close w.native fd)) [
      | inl f ↦ rw (e, f) (refl, refl)
      | inr (n, f) ↦ rw (e, f) (refl, refl)
    ]
    | inr e ↦ rw e (refl, refl)
  ]

  close_entry_lem :
      (h : ℕ) (e : FileHandleEntry) (w : World N)
      → ((close_entry h e w).0 ≡ ok tt)
        × ((close_entry h e w).1.state.files ≡ drop_locks h e.path w.state.files)
  unfolding close_entry get_state put_files ◌>>=◌
  close_entry_lem h e w =
      let c = close_fd_lem e.fd w in
      rw
        (proceed-ok (close_fd e.fd w)
          (λ _. get_state >>= λ s. put_files (drop_locks h e.path s.files)) tt c.0)
        (refl, ap (λ s. drop_locks h e.path s.files) c.1)

  close_file_lem :
      (h : ℕ) (found : ℕ × FileHandleEntry) (w : World N)
      → entry_at h w.state.files ≡ some found
      → ((close_file h w).0 ≡ ok tt)
        × ((close_file h w).1.state.files ≡ drop_locks h found.1.path w.state.files)
  unfolding close_file get_state ◌>>=◌
  close_file_lem h found w there = rw (there, close_file) (close_entry_lem h found.1 w)

  -- forget_handle and the return leave the locks alone.
  forgotten :
      (h : ℕ) (q : Text) (w : World N)
      → locks_of q ((forget_handle h >>= λ _. return_stdcall 1 4) w).1.state.files
        ≡ locks_of q w.state.files
  unfolding forget_handle get_state put_files put_objects ◌>>=◌ locks_of
  forgotten h q w = ap (λ s. locks_of q s.files) (return_stdcall-Same 1 4 _).state

  close_handle-held_by :
      (w : World N) (h : ℕ) (found : ℕ × FileHandleEntry) (g : ℕ) (q : Text)
      → (arg 4 w).0 ≡ ok h
      → entry_at h w.state.files ≡ some found
      → held_by g (locks_of q (close_handle w).1.state.files) ≡ (
          if (g == h) && text_same found.1.path q then [] else held_by g (locks_of q w.state.files))
  unfolding close_handle ◌>>=◌
  close_handle-held_by w h found g q eh there =
      let c = close_file_lem h found w there in
      rw
        (
          arg_read 4 h w eh,
          proceed-ok (close_file h w) (λ _. forget_handle h >>= λ _. return_stdcall 1 4) tt c.0,
        )
        (ap (held_by g) (
            forgotten h q _
            ∙ ap (locks_of q) c.1
            ∙ drop_locks-locks_of h found.1.path q w.state.files)
          ∙ elim (Bool-cases (text_same found.1.path q)) [
            | inl e ↦ rw e (
                held_by-without_handle g h (locks_of found.1.path w.state.files)
                ∙ ap (λ p. if g == h then [] else held_by g (locks_of p w.state.files))
                    ((text_same_iff found.1.path q).0 e)
                ∙ elim (Bool-cases (g == h)) [ inl f ↦ rw f refl | inr f ↦ rw f refl ])
            | inr e ↦ rw e (ground arith)
          ])

  -- For a handle that is open on a path, and arguments on the stack: UnlockFile takes out the first lock of that
  -- handle with that very range, or changes no lock if there is none, and the locks of other paths stay. CloseHandle
  -- takes out all the locks of the handle on its path, and no other lock. After either, the locked ranges of different
  -- handles on one path lie apart, as they did before.
  pub unlocks_lem :
      (w : World N) (h off_low off_high len_low len_high : ℕ) (found : ℕ × FileHandleEntry)
      → AllLocksOk w.state
      → (arg 4 w).0 ≡ ok h
      → (arg 8 w).0 ≡ ok off_low
      → (arg 12 w).0 ≡ ok off_high
      → (arg 16 w).0 ≡ ok len_low
      → (arg 20 w).0 ≡ ok len_high
      → entry_at h w.state.files ≡ some found
      → let start = join_words off_low off_high in
        let u = (unlock_file w).1.state in
        let v = (close_handle w).1.state in
        (IsUnlocked
            (lock_of h start (start + join_words len_low len_high))
            (locks_of found.1.path w.state.files)
            (locks_of found.1.path u.files)
          × ((q : Text)
              → locks_of q u.files ≡ (
                  if text_same found.1.path q
                  then locks_of found.1.path u.files
                  else locks_of q w.state.files)))
        × (((g : ℕ) (q : Text)
              → held_by g (locks_of q v.files) ≡ (
                  if (g == h) && text_same found.1.path q
                  then []
                  else held_by g (locks_of q w.state.files)))
            × (AllLocksOk u × AllLocksOk v))
  unlocks_lem w h a b c d found ok_locks eh ea eb ec ed there = (
    unlock_file-IsUnlocked w h a b c d found eh ea eb ec ed there,
    (
      λ g q. close_handle-held_by w h found g q eh there,
      (unlock_file-Keeps.at w ok_locks, close_handle-Keeps.at w ok_locks),
    ),
  )
