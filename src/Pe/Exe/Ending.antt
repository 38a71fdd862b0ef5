-- ===== src/Pe/Exe/Ending.antt =====
-- That parsing an executable ends, for tew/pe/exe_file.py.
use tew.Base.{
  ℕ, zero, suc, ◌+◌, ◌*◌, ◌<◌, ltb, ◌==◌, ◌&&◌, ◌≢◌, Bool, true, false, Option, none, some, List,
  [], map, length, Text, err, out_of_fuel, arith,
}
use tew.Pe.Sections.{Bytes, Parse, SectionHeader, parse_section_header, resolve_section}
use tew.Pe.Headers.{
  CoffFileHeader, parse_coff_file_header, DataDirectory, parse_data_directory, OptionalHeader,
  bases_at, sizes_at, parse_directories, parse_optional_header,
}
use tew.Pe.Directories.{delay_loop, parse_delay_imports}
use tew.Pe.Exe.{parse_sections, parse_with, directory, parse_data_directories, parse_exe}
use tew.Pe.Finishes.{
  finishes_rules, Finishes, Finishes-pure, Finishes-if, Finishes-bind, dword_at-Finishes,
  word_at-Finishes,
}
use tew.Pe.Exe.Rounds.{
  parse_relocations-Finishes, parse_tls_directory-Finishes, parse_bound_import_table-Finishes,
}
use tew.Pe.Tables.Ending.{parse_thunks-Finishes, parse_imports-Finishes, parse_exports-Finishes}

parse_section_header-Finishes : (bytes : Bytes) → Finishes (parse_section_header bytes)
unfolding parse_section_header
parse_section_header-Finishes bytes = search finishes_rules depth 24

parse_coff_file_header-Finishes : (bytes : Bytes) → Finishes (parse_coff_file_header bytes)
unfolding parse_coff_file_header
parse_coff_file_header-Finishes bytes = search finishes_rules depth 20

parse_data_directory-Finishes :
    (bytes : Bytes) (index : ℕ) → Finishes (parse_data_directory bytes index)
unfolding parse_data_directory
parse_data_directory-Finishes bytes index = search finishes_rules depth 8

parse_directories-Finishes :
    (bytes : Bytes) (first count i : ℕ) → Finishes (parse_directories bytes first count i)
unfolding parse_directories
parse_directories-Finishes bytes first zero i = Finishes-pure []
parse_directories-Finishes bytes first (suc count) i =
    Finishes-bind _ _ (parse_data_directory-Finishes _ i) λ d.
      Finishes-bind _ _ (parse_directories-Finishes bytes first count (i + 1)) λ ds. Finishes-pure _

bases_at-Finishes : (bytes : Bytes) (plus : Bool) → Finishes (bases_at bytes plus)
unfolding bases_at
bases_at-Finishes bytes true = search finishes_rules depth 8
bases_at-Finishes bytes false = search finishes_rules depth 8

sizes_at-Finishes : (bytes : Bytes) (plus : Bool) → Finishes (sizes_at bytes plus)
unfolding sizes_at
sizes_at-Finishes bytes true = search finishes_rules depth 16
sizes_at-Finishes bytes false = search finishes_rules depth 16

parse_optional_header-Finishes : (bytes : Bytes) → Finishes (parse_optional_header bytes)
unfolding parse_optional_header
parse_optional_header-Finishes bytes =
    search (finishes_rules, bases_at-Finishes, sizes_at-Finishes, parse_directories-Finishes) depth
      60

parse_sections-Finishes :
    (count : ℕ) (image : Bytes) (start : ℕ) → Finishes (parse_sections count image start)
unfolding parse_sections
parse_sections-Finishes zero image start = Finishes-pure []
parse_sections-Finishes (suc count) image start =
    Finishes-bind _ _ (parse_section_header-Finishes _) λ s.
      Finishes-bind _ _ (parse_sections-Finishes count image (start + 40)) λ rest. Finishes-pure _

parse_with-Finishes :
    {A : Type 0} (d : Option DataDirectory) (f : DataDirectory → Parse A)
    → ((d : DataDirectory) → Finishes (f d))
    → Finishes (parse_with d f)
parse_with-Finishes none f h = Finishes-pure none
parse_with-Finishes (some d) f h = Finishes-bind _ _ (h d) λ a. Finishes-pure _

module _ (decode : Bytes → Text) (image : Bytes) (sections : List SectionHeader) where
  delay_loop-Finishes :
      (rounds : ℕ) (plus : Bool) (bytes : Bytes) (i : ℕ)
      → length bytes < i * 32 + rounds
      → 0 < rounds
      → Finishes (delay_loop decode image sections rounds plus bytes i)
  unfolding delay_loop
  delay_loop-Finishes zero plus bytes i h some_round = absurd (omega arith)
  delay_loop-Finishes (suc rounds) plus bytes i h some_round =
      Finishes-if (ltb (length bytes) (i * 32 + 32)) _ _ (Finishes-pure []) λ passed.
        let next =
          delay_loop-Finishes rounds plus bytes (i + 1) (ground (arith, h, passed))
            (ground (arith, h, passed)) in
        Finishes-bind _ _ (dword_at-Finishes bytes _) λ attributes.
          Finishes-bind _ _ (dword_at-Finishes bytes _) λ name.
            Finishes-bind _ _ (dword_at-Finishes bytes _) λ handle.
              Finishes-bind _ _ (dword_at-Finishes bytes _) λ iat.
                Finishes-bind _ _ (dword_at-Finishes bytes _) λ int.
                  Finishes-bind _ _ (dword_at-Finishes bytes _) λ bound.
                    Finishes-bind _ _ (dword_at-Finishes bytes _) λ unload.
                      Finishes-bind _ _ (dword_at-Finishes bytes _) λ stamp.
                        Finishes-if ((name == 0) && (int == 0) && (iat == 0)) _ _ (Finishes-pure [])
                          λ _.
                            Finishes-bind _ _
                              (parse_thunks-Finishes decode image sections plus int iat)
                              λ entries. Finishes-bind _ _ next λ rest. Finishes-pure _

  parse_delay_imports-Finishes :
      (plus : Bool) (bytes : Bytes)
      → Finishes (parse_delay_imports decode image sections plus bytes)
  unfolding parse_delay_imports
  parse_delay_imports-Finishes plus bytes =
      delay_loop-Finishes (suc (length bytes)) plus bytes 0 (omega arith) (omega arith)

  parse_data_directories-Finishes :
      (coff : CoffFileHeader) (header : OptionalHeader) (dirs : List DataDirectory)
      → Finishes (parse_data_directories decode image coff header sections dirs)
  unfolding parse_data_directories
  parse_data_directories-Finishes coff header dirs =
      Finishes-bind _ _
        (parse_with-Finishes (directory 0 dirs) _
          λ d. parse_exports-Finishes decode image sections _ _ _)
        λ exports.
          Finishes-bind _ _
            (parse_with-Finishes (directory 1 dirs) _
              λ d. parse_imports-Finishes decode image sections _ _)
            λ imports.
              search
                (
                  finishes_rules, parse_with-Finishes, parse_relocations-Finishes,
                  parse_tls_directory-Finishes, parse_bound_import_table-Finishes,
                  parse_delay_imports-Finishes,
                )
                depth 40

-- Whatever bytes a file has, and however its tables overlap or point into one another, parsing it ends
-- within the rounds that its loops are given: with an executable, or with an error of the parser.
pub parse_exe_ends :
    (decode : Bytes → Text) (image : Bytes) → (parse_exe decode image tt).0 ≢ err out_of_fuel
unfolding parse_exe
parse_exe_ends decode image = finished.at
  where
    finished : Finishes (parse_exe decode image)
    finished = Finishes-bind _ _ (word_at-Finishes image 0x3C) λ lfanew.
        Finishes-bind _ _ (parse_coff_file_header-Finishes _) λ coff.
          Finishes-bind _ _ (parse_optional_header-Finishes _) λ header.
            Finishes-bind _ _ (parse_sections-Finishes coff.number_of_sections image _) λ headers.
              parse_data_directories-Finishes decode image (map (resolve_section image) headers)
                coff header _
