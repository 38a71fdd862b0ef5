-- ===== src/Pe/Exe/Rounds.antt =====
-- That the loops of tew/pe/base_relocation_table.py, tls_table.py and bound_import_table.py end.
use tew.Base.{
  ℕ, zero, suc, ◌+◌, ◌*◌, ◌<◌, ltb, ◌==◌, ◌&&◌, ◌||◌, ◌≡◌, Bool, true, false, Option, none, some,
  List, [], length, length-drop, drop, Text, arith,
}
use tew.Pe.{unpack16, unpack32, parse_blocks, parse_relocations}
use tew.Pe.Sections.{Bytes, SectionHeader}
use tew.Pe.Tables.{thunk_size}
use tew.Pe.Directories.{
  unpack_pointer, tls_callbacks, callbacks_at, parse_tls_directory, bound_descriptors,
  parse_bound_import_table,
}
use tew.Pe.Finishes.{Finishes, Finishes-pure, Finishes-if, Finishes-bind}

-- A block that is read takes 8 bytes at least.
parse_blocks-Finishes :
    (rounds : ℕ) (bytes : List ℕ) → length bytes < rounds → Finishes (parse_blocks rounds bytes)
unfolding parse_blocks
parse_blocks-Finishes zero bytes h = absurd (omega arith)
parse_blocks-Finishes (suc rounds) bytes h =
    let size = unpack32 (drop 4 bytes) in
    Finishes-if (ltb (length bytes) 8) _ _ (Finishes-pure []) λ long.
      Finishes-if ((size == 0) || ltb size 8) _ _ (Finishes-pure []) λ big.
        Finishes-bind _ _
          (parse_blocks-Finishes rounds (drop size bytes)
            (ground (arith, h, long, big, length-drop size bytes)))
          λ rest. Finishes-pure _

pub parse_relocations-Finishes : (bytes : Bytes) → Finishes (parse_relocations bytes)
unfolding parse_relocations
parse_relocations-Finishes bytes = parse_blocks-Finishes (suc (length bytes)) bytes (omega arith)

tls_callbacks-Finishes :
    (rounds : ℕ) (plus : Bool) (bytes : Bytes)
    → length bytes < rounds
    → Finishes (tls_callbacks rounds plus bytes)
unfolding tls_callbacks
tls_callbacks-Finishes zero plus bytes h = absurd (omega arith)
tls_callbacks-Finishes (suc rounds) plus bytes h =
    Finishes-if (ltb (length bytes) (thunk_size plus) || (unpack_pointer plus bytes == 0)) _ _
      (Finishes-pure [])
      λ there.
        Finishes-bind _ _
          (tls_callbacks-Finishes rounds plus (drop (thunk_size plus) bytes) (shorter plus there))
          λ rest. Finishes-pure _
  where
    shorter :
        (p : Bool)
        → (ltb (length bytes) (thunk_size p) || (unpack_pointer p bytes == 0)) ≡ false
        → length (drop (thunk_size p) bytes) < rounds
    shorter true e = ground (arith, h, e, length-drop 8 bytes)
    shorter false e = ground (arith, h, e, length-drop 4 bytes)

callbacks_at-Finishes :
    (plus : Bool) (image : Bytes) (o : Option ℕ) → Finishes (callbacks_at plus image o)
callbacks_at-Finishes plus image none = Finishes-pure []
callbacks_at-Finishes plus image (some offset) =
    tls_callbacks-Finishes _ plus _ (omega (arith, length-drop offset image))

pub parse_tls_directory-Finishes :
    (bytes image : Bytes) (sections : List SectionHeader) (plus : Bool) (image_base : ℕ)
    → Finishes (parse_tls_directory bytes image sections plus image_base)
unfolding parse_tls_directory
parse_tls_directory-Finishes bytes image sections plus image_base =
    Finishes-if (ltb (length bytes) (4 * thunk_size plus + 8)) _ _ (Finishes-pure none)
      λ _. Finishes-bind _ _ (callbacks_at-Finishes plus image _) λ cs. Finishes-pure _

bound_descriptors-Finishes :
    (decode : Bytes → Text) (bytes : Bytes) (rounds : ℕ) (here : Bytes)
    → length here < rounds
    → Finishes (bound_descriptors decode bytes rounds here)
unfolding bound_descriptors
bound_descriptors-Finishes decode bytes zero here h = absurd (omega arith)
bound_descriptors-Finishes decode bytes (suc rounds) here h =
    let refs = unpack16 (drop 6 here) in
    Finishes-if (ltb (length here) 8 || ((unpack32 here == 0) && (unpack16 (drop 4 here) == 0))) _ _
      (Finishes-pure [])
      λ there.
        Finishes-bind _ _
          (bound_descriptors-Finishes decode bytes rounds (drop (8 + refs * 8) here)
            (shorter refs (unpack32 here == 0) (unpack16 (drop 4 here) == 0) there))
          λ rest. Finishes-pure _
  where
    shorter :
        (refs : ℕ) (a b : Bool)
        → (ltb (length here) 8 || (a && b)) ≡ false
        → length (drop (8 + refs * 8) here) < rounds
    shorter refs a b e = ground (arith, h, e, length-drop (8 + refs * 8) here)

pub parse_bound_import_table-Finishes :
    (decode : Bytes → Text) (bytes : Bytes) → Finishes (parse_bound_import_table decode bytes)
unfolding parse_bound_import_table
parse_bound_import_table-Finishes decode bytes =
    bound_descriptors-Finishes decode bytes (suc (length bytes)) bytes (omega arith)
