-- ===== src/Files/Seeking.antt =====
-- Positions of open files, for _lread, _llseek and SetFilePointer of tew/api/kernel32_io.py.
use tew.Base.{
  ℕ, ◌+◌, ◌&&◌, ◌≡◌, refl, Bool, true, false, Bool-cases, Option, none, some, Option-cases, inl,
  inr, List, length, ◌>>=◌, pure,
}
use tew.State.{World, CrtState, FileHandleEntry}
use tew.State.Native.{Native}
use tew.Machine.{Action, on_option}
use tew.Machine.Keeps.{
  Keeps, Keeps-bind, Keeps-if, Keeps-on_option, Keeps-with_state, Keeps-arg, keeps_rules,
}
use tew.Files.{entry_at}
use tew.Files.Access.{
  move_to, seek_within, seek_from, seek_base, file_entry_size, read_file, write_file,
}
use tew.Files.Seek.{
  set_position, seek_entry, llseek, finish_lread, lread, end_size, move_pointer, set_file_pointer,
}
use tew.Files.Placed.{
  IsPlaced, IsPlacedIn, move_to-IsPlaced, writable-IsPlaced, seek_within_le, read-IsPlaced,
}
use tew.Files.Positions.{
  AllPlaced, entry_at-IsPlaced, put_entry-Keeps, load_data-Keeps, pread-Keeps, read_file-Keeps,
  write_file-Keeps,
}

-- A file that the host holds open may be anywhere.
fd-IsPlaced : (e : FileHandleEntry) (p fd : ℕ) → e.fd ≡ some fd → IsPlaced (move_to p e)
unfolding IsPlaced IsPlacedIn move_to
fd-IsPlaced e p fd f = elim (Bool-cases e.writable) [ inl w ↦ rw w tt | inr r ↦ rw (r, f) tt ]

module _ {N : Type 0} {P : CrtState → Type 0} {B : Type 0} where
  known-Keeps :
      (o : Option ℕ) (size : ℕ) (g : ℕ → Action N ℕ) (f : ℕ → Action N B)
      → o ≡ none
      → Keeps P (f size)
      → Keeps P (on_option o (pure size) g >>= f)
  unfolding ◌>>=◌ pure
  known-Keeps none size g f e k = record { at = λ w h. k.at w h }
  known-Keeps (some fd) size g f e k = cc

module _ {N : Type 0} ⦃lib : Native N⦄ where
  set_position-Keeps :
      (r : ℕ) (e : FileHandleEntry) (p : ℕ)
      → IsPlaced (move_to p e)
      → Keeps AllPlaced (set_position {N = N} r e p)
  unfolding set_position
  set_position-Keeps r e p new =
      Keeps-with_state _ λ s v. Keeps-bind _ _ (put_entry-Keeps r _ s v new) λ _. search keeps_rules

  size-Keeps : (e : FileHandleEntry) → Keeps AllPlaced (file_entry_size {N = N} e)
  unfolding file_entry_size
  size-Keeps e = search keeps_rules

  end_size-Keeps : (method fd : ℕ) → Keeps AllPlaced (end_size {N = N} method fd)
  unfolding end_size
  end_size-Keeps method fd = search keeps_rules

  seek_entry-Keeps :
      (r : ℕ) (e : FileHandleEntry) (offset origin : ℕ)
      → Keeps AllPlaced (seek_entry {N = N} r e offset origin)
  unfolding seek_entry
  seek_entry-Keeps r e offset origin = elim (Option-cases e.fd) [
    | inl closed ↦
        unfold file_entry_size in
        known-Keeps e.fd (length e.contents) _ _ closed (
          set_position-Keeps r e _
            (move_to-IsPlaced e _ (seek_within_le _ offset (length (e.contents)))))
    | inr (fd, opened) ↦ Keeps-bind _ _ (size-Keeps e) λ size.
        set_position-Keeps r e _
          (fd-IsPlaced e (seek_within (seek_base origin e size) offset size) fd opened)
  ]

  pub llseek-Keeps : Keeps AllPlaced (llseek {N = N})
  unfolding llseek
  llseek-Keeps = search (keeps_rules, seek_entry-Keeps) depth 9

  finish_lread-Keeps :
      (r : ℕ) (e : FileHandleEntry) (buf : ℕ) (xs : List ℕ)
      → IsPlaced (move_to (e.position + length xs) e)
      → Keeps AllPlaced (finish_lread {N = N} r e buf xs)
  unfolding finish_lread
  finish_lread-Keeps r e buf xs new = Keeps-bind _ _ (load_data-Keeps buf xs) λ _.
      Keeps-with_state _ λ s v. Keeps-bind _ _ (put_entry-Keeps r _ s v new) λ _. search keeps_rules

  pub lread-Keeps : Keeps AllPlaced (lread {N = N})
  unfolding lread
  lread-Keeps = Keeps-bind _ _ (Keeps-arg 4) λ h. Keeps-bind _ _ (Keeps-arg 8) λ buf.
      Keeps-bind _ _ (Keeps-arg 12) λ n. Keeps-with_state _ λ s v.
        Keeps-bind _ _
          (Keeps-on_option (entry_at h (s.files)) _ _ (λ _. search keeps_rules)
            λ found e.
              Keeps-if (found.1.writable && found.1.readable) _ _
                (λ both. Keeps-bind _ _ (pread-Keeps (found.1) n (found.1.position)) λ xs.
                  finish_lread-Keeps (found.0) (found.1) buf xs
                    (writable-IsPlaced (found.1) (found.1.position + length xs) (first _ _ both)))
                (λ _.
                  finish_lread-Keeps (found.0) (found.1) buf _
                    (read-IsPlaced (found.1) n (entry_at-IsPlaced h (found.0) (found.1) s v e))))
          λ _. search keeps_rules
    where
      first : (a b : Bool) → (a && b) ≡ true → a ≡ true
      first true b e = refl
      first false b e = e

  move_pointer-Keeps :
      (r : ℕ) (e : FileHandleEntry) (distance method : ℕ)
      → Keeps AllPlaced (move_pointer {N = N} r e distance method)
  unfolding move_pointer
  move_pointer-Keeps r e distance method =
      Keeps-if e.writable _ _
        (λ w.
          Keeps-on_option e.fd _ _ (λ _. search keeps_rules)
            λ fd _. Keeps-bind _ _ (end_size-Keeps method fd) λ size.
              set_position-Keeps r e _
                (writable-IsPlaced e (seek_from (seek_base method e size) distance) w))
        (λ _. set_position-Keeps r e _ (
          move_to-IsPlaced e _ (
            seek_within_le (seek_base method e (length e.contents)) distance
              (length (e.contents)))))

  pub set_file_pointer-Keeps : Keeps AllPlaced (set_file_pointer {N = N})
  unfolding set_file_pointer
  set_file_pointer-Keeps = search (keeps_rules, move_pointer-Keeps) depth 9

  -- ReadFile, WriteFile, _lread, _llseek and SetFilePointer, however they end, keep the position of
  -- every open file whose data is held in memory at most at the end of the data.
  pub access-AllPlaced :
      (w : World N)
      → AllPlaced (w.state)
      → AllPlaced ((read_file w).1.state)
        × AllPlaced ((write_file w).1.state)
        × AllPlaced ((lread w).1.state)
        × AllPlaced ((llseek w).1.state)
        × AllPlaced ((set_file_pointer w).1.state)
  access-AllPlaced w v = (
    read_file-Keeps.at w v,
    write_file-Keeps.at w v,
    lread-Keeps.at w v,
    llseek-Keeps.at w v,
    set_file_pointer-Keeps.at w v,
  )
