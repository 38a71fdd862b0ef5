-- ===== src/Files/Positions.antt =====
-- Positions of open files, for ReadFile and WriteFile of tew/api/kernel32_io.py.
use tew.Base.{
  ℕ, ◌+◌, ◌==◌, ◌≡◌, subst, true, false, Bool-cases, Option, none, some, Option-cases, inl, inr,
  List, [], ◌∷◌, length, get, nat_key, get_or, arith,
}
use tew.State.{CrtState, FileHandleEntry}
use tew.State.Native.{Native}
use tew.Machine.{put_files}
use tew.Machine.Keeps.{
  Keeps, Keeps-bind, Keeps-if, Keeps-on_option, Keeps-with_state, Keeps-arg, keeps_rules,
}
use tew.Files.{entry_at, set_entry}
use tew.Files.Access.{
  data_at, advance_by, overlapped_position, report, load_data, pread_entry, finish_read, read_entry,
  read_file, write_refused, write_entry, write_file,
}
use tew.Files.Placed.{IsPlaced, writable-IsPlaced, read-IsPlaced}

pub record AllPlaced (s : CrtState) : Type 0 where
  pub at_place : (r : ℕ) → IsPlaced (s.files.entry r)

pub entry_at-IsPlaced :
    (h r : ℕ) (e : FileHandleEntry) (s : CrtState)
    → AllPlaced s
    → entry_at h (s.files) ≡ some (r, e)
    → IsPlaced e
unfolding entry_at
entry_at-IsPlaced h r e s v found = elim (Option-cases (get h s.files.file_handle_map)) [
  | inl absent ↦ ground (arith, absent, found)
  | inr (q, hit) ↦
      let same : s.files.entry q ≡ e = ground (arith, hit, found) in
      subst IsPlaced same (v.at_place q)
]

data_at-IsPlaced :
    (e : FileHandleEntry) (o : Option ℕ) (n : ℕ)
    → e.writable ≡ false
    → IsPlaced e
    → IsPlaced (advance_by o (length (data_at e (get_or o (e.position)) n)) e)
unfolding advance_by
data_at-IsPlaced e none n r v = read-IsPlaced e n v
data_at-IsPlaced e (some p) n r v = v

live-IsPlaced :
    (e : FileHandleEntry) (o : Option ℕ) (n : ℕ)
    → e.writable ≡ true
    → IsPlaced e
    → IsPlaced (advance_by o n e)
unfolding advance_by
live-IsPlaced e none n w v = writable-IsPlaced e (e.position + n) w
live-IsPlaced e (some p) n w v = v

module _ {N : Type 0} ⦃lib : Native N⦄ where
  pub put_entry-Keeps :
      (r : ℕ) (e : FileHandleEntry) (s : CrtState)
      → AllPlaced s
      → IsPlaced e
      → Keeps AllPlaced (put_files {N = N} (set_entry r e s.files))
  unfolding put_files set_entry
  put_entry-Keeps r e s v new = record {
    at = λ w _. record {
      at_place = λ q. elim (Bool-cases (q == r)) [
        | inl hit ↦ rw hit new
        | inr miss ↦ rw miss (v.at_place q)
      ];
    };
  }

  pub load_data-Keeps : (buf : ℕ) (xs : List ℕ) → Keeps AllPlaced (load_data {N = N} buf xs)
  unfolding load_data
  load_data-Keeps buf [] = search keeps_rules
  load_data-Keeps buf (b ∷ bs) = search keeps_rules

  report-Keeps : (lp v : ℕ) → Keeps AllPlaced (report {N = N} lp v)
  unfolding report
  report-Keeps lp v = search keeps_rules

  overlapped-Keeps : (lp : ℕ) → Keeps AllPlaced (overlapped_position {N = N} lp)
  unfolding overlapped_position
  overlapped-Keeps lp = search keeps_rules depth 9

  pub pread-Keeps : (e : FileHandleEntry) (n p : ℕ) → Keeps AllPlaced (pread_entry {N = N} e n p)
  unfolding pread_entry
  pread-Keeps e n p = search keeps_rules

  finish_read-Keeps :
      (r : ℕ) (e : FileHandleEntry) (o : Option ℕ) (buf lp : ℕ) (xs : List ℕ)
      → IsPlaced (advance_by o (length xs) e)
      → Keeps AllPlaced (finish_read {N = N} r e o buf lp xs)
  unfolding finish_read
  finish_read-Keeps r e o buf lp xs new = Keeps-bind _ _ (load_data-Keeps buf xs) λ _.
      Keeps-with_state _
        λ s v. Keeps-bind _ _ (put_entry-Keeps r _ s v new) λ _. search (keeps_rules, report-Keeps)

  read_entry-Keeps :
      (r : ℕ) (e : FileHandleEntry) (o : Option ℕ) (buf n lp : ℕ)
      → IsPlaced e
      → Keeps AllPlaced (read_entry {N = N} r e o buf n lp)
  unfolding read_entry
  read_entry-Keeps r e o buf n lp v =
      Keeps-if e.writable _ _
        (λ w.
          Keeps-if e.readable _ _
            (λ _.
              Keeps-bind _ _ (pread-Keeps e n (get_or o (e.position)))
                λ xs. finish_read-Keeps r e o buf lp xs (live-IsPlaced e o (length xs) w v))
            (λ _. Keeps-bind _ _ (report-Keeps lp 0) λ _. search keeps_rules))
        (λ ro. finish_read-Keeps r e o buf lp _ (data_at-IsPlaced e o n ro v))

  pub read_file-Keeps : Keeps AllPlaced (read_file {N = N})
  unfolding read_file
  read_file-Keeps = Keeps-bind _ _ (Keeps-arg 4) λ h. Keeps-bind _ _ (Keeps-arg 8) λ buf.
      Keeps-bind _ _ (Keeps-arg 12) λ n. Keeps-bind _ _ (Keeps-arg 16) λ lp.
        Keeps-bind _ _ (Keeps-arg 20) λ lo. Keeps-bind _ _ (overlapped-Keeps lo) λ o.
          Keeps-with_state _ λ s v.
            Keeps-bind _ _
              (Keeps-on_option (entry_at h (s.files)) _ _
                (λ _. Keeps-bind _ _ (report-Keeps lp 0) λ _. search keeps_rules)
                λ found e.
                  read_entry-Keeps (found.0) (found.1) o buf n lp
                    (entry_at-IsPlaced h (found.0) (found.1) s v e))
              λ _. search keeps_rules

  refused-Keeps : (lp : ℕ) → Keeps AllPlaced (write_refused {N = N} lp)
  unfolding write_refused
  refused-Keeps lp = search (keeps_rules, report-Keeps)

  write_entry-Keeps :
      (r : ℕ) (e : FileHandleEntry) (fd : ℕ) (o : Option ℕ) (buf n lp : ℕ)
      → e.writable ≡ true
      → IsPlaced e
      → Keeps AllPlaced (write_entry {N = N} r e fd o buf n lp)
  unfolding write_entry
  write_entry-Keeps r e fd o buf n lp w v = Keeps-bind _ _ (search keeps_rules) λ xs.
      Keeps-bind _ _ (search keeps_rules) λ nat. Keeps-bind _ _ (search keeps_rules) λ nat'.
        Keeps-bind _ _ (search keeps_rules) λ _. Keeps-with_state _ λ s u.
          Keeps-bind _ _ (put_entry-Keeps r _ s u (live-IsPlaced e o n w v))
            λ _. search (keeps_rules, report-Keeps)

  pub write_file-Keeps : Keeps AllPlaced (write_file {N = N})
  unfolding write_file
  write_file-Keeps = Keeps-bind _ _ (Keeps-arg 4) λ h. Keeps-bind _ _ (Keeps-arg 8) λ buf.
      Keeps-bind _ _ (Keeps-arg 12) λ n. Keeps-bind _ _ (Keeps-arg 16) λ lp.
        Keeps-bind _ _ (Keeps-arg 20) λ lo. Keeps-bind _ _ (overlapped-Keeps lo) λ o.
          Keeps-with_state _ λ s v.
            Keeps-bind _ _
              (Keeps-on_option (entry_at h (s.files)) _ _ (λ _. refused-Keeps lp)
                λ found e.
                  Keeps-if (found.1.writable) _ _
                    (λ w.
                      Keeps-on_option (found.1.fd) _ _ (λ _. refused-Keeps lp)
                        λ fd _.
                          write_entry-Keeps (found.0) (found.1) fd o buf n lp w
                            (entry_at-IsPlaced h (found.0) (found.1) s v e))
                    (λ _. refused-Keeps lp))
              λ _. search keeps_rules
