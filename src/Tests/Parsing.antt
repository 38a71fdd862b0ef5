-- ===== src/Tests/Parsing.antt =====
-- The theorems on executables at a small file.
use tew.Base.{
  ℕ, ◌≡◌, ◌≢◌, inl, refl, false, some, [], ◌∷◌, ◌++◌, replicate, codes, AllPairs, err, ok,
  out_of_fuel, Result, Bool, true, ◌>>=◌, pure, digits, arith,
}
use tew.Pe.Sections.{
  Bytes, SectionHeader, ApartSections, word_at, at_index, dword_at, read_null_terminated,
  rva_to_offset, rva_to_offset_lem,
}
use tew.Pe.Tables.{parse_imports, descriptor_loop, parse_thunks, thunk_loop, thunk_entry}
use tew.Pe.Headers.{
  parse_coff_file_header, parse_optional_header, bases_at, sizes_at, parse_directories,
}
use tew.Pe.Exe.{parse_exe, parse_sections, parse_data_directories, directory}
use tew.Pe.Exe.Ending.{parse_exe_ends}

abbrev section : ℕ → ℕ → ℕ → SectionHeader
section address size place = record {
  name = [];
  virtual_size = size;
  virtual_address = address;
  size_of_raw_data = size;
  pointer_to_raw_data = place;
  pointer_to_relocations = 0;
  pointer_to_linenumbers = 0;
  number_of_relocations = 0;
  number_of_linenumbers = 0;
  characteristics = 0;
  contents = [];
}

abbrev text_section : SectionHeader
text_section = section 0x1000 0x800 0x400

abbrev idata_section : SectionHeader
idata_section = section 0x2000 40 0

sections-AllApart : AllPairs ApartSections (text_section ∷ idata_section ∷ [])
sections-AllApart = ((inl (omega arith), tt), (tt, tt))

rva_to_offset_lem_example : rva_to_offset 0x2004 (text_section ∷ idata_section ∷ []) ≡ some 4
rva_to_offset_lem_example =
    rva_to_offset_lem 0x2004 (text_section ∷ []) [] idata_section sections-AllApart refl

-- One descriptor of a DLL "k.dll" and its end; the lookup table has ordinal 7.
abbrev import_file : Bytes
import_file =
    (8 ∷ 0 ∷ 0 ∷ 0x80 ∷ [])
    ++ replicate 4 0
    ++ (7 ∷ 0 ∷ 0 ∷ 0x80 ∷ [])
    ++ replicate 4 0
    ++ codes "k.dll"
    ++ replicate 19 0

abbrev import_directory : Bytes
import_directory =
    (8 ∷ 0x20 ∷ 0 ∷ 0 ∷ [])
    ++ replicate 8 0
    ++ (16 ∷ 0x20 ∷ 0 ∷ 0 ∷ [])
    ++ (8 ∷ 0x20 ∷ 0 ∷ 0 ∷ [])
    ++ replicate 20 0

-- What is read: the name of the DLL and that of the import.
import_file_read :
    (parse_imports (λ bytes. bytes) import_file (idata_section ∷ []) false import_directory tt).0
    ≡ ok (
        record {
          dll_name = codes "k.dll";
          entries =
              record {
                ordinal = some 7;
                hint = 0;
                name = codes "Ordinal #7";
                iat_rva = 0x2008;
                iat_file_offset = some 8;
                iat_value = 0x80000007;
              }
              ∷ [];
          original_first_thunk = 0x2008;
          first_thunk = 0x2008;
        }
        ∷ [])
unfolding parse_imports descriptor_loop ◌>>=◌ dword_at pure parse_thunks rva_to_offset thunk_loop
    thunk_entry read_null_terminated digits
import_file_read = refl

-- An i386 executable without sections: the header at 64, of 20 bytes, and an optional header of 96.
abbrev small_exe : Bytes
small_exe =
    replicate 60 0
    ++ (60 ∷ 0 ∷ 0 ∷ 0 ∷ [])
    ++ (0x4C ∷ 0x01 ∷ [])
    ++ replicate 14 0
    ++ (96 ∷ 0 ∷ 0 ∷ 0 ∷ [])
    ++ (0x0B ∷ 0x01 ∷ [])
    ++ replicate 26 0
    ++ (0 ∷ 0 ∷ 0x40 ∷ 0 ∷ [])
    ++ replicate 64 0

parse_exe_ends_example : (parse_exe (λ bytes. bytes) small_exe tt).0 ≢ err out_of_fuel
parse_exe_ends_example = parse_exe_ends (λ bytes. bytes) small_exe

abbrev is_parsed : {A : Type 0} → Result A → Bool
is_parsed (ok a) = true
is_parsed (err e) = false

small_exe_parsed : is_parsed (parse_exe (λ bytes. bytes) small_exe tt).0 ≡ true
unfolding parse_exe ◌>>=◌ word_at pure parse_coff_file_header dword_at parse_optional_header
    at_index bases_at sizes_at parse_directories parse_sections parse_data_directories directory
small_exe_parsed = refl
