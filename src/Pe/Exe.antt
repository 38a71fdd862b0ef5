-- ===== src/Pe/Exe.antt =====
-- A whole executable: tew/pe/exe_file.py.
pub mod Rounds
pub mod Ending
use tew.Base.{
  ℕ, zero, suc, ◌+◌, ◌-◌, ◌*◌, ◌/◌, ltb, leb, ◌==◌, Bool, true, false, ◌&&◌, ◌||◌, if◌then◌else◌,
  Option, none, some, List, [], ◌∷◌, map, length, take, drop, Text, Result, ok, err, ◌>>=◌, pure,
  raise,
}
use tew.Pe.{ExeFile, RelocationBlock, ExportEntry, ImportDescriptor, parse_relocations}
use tew.Pe.Sections.{Bytes, Parse, word_at, SectionHeader, parse_section_header, resolve_section}
use tew.Pe.Headers.{
  CoffFileHeader, parse_coff_file_header, DataDirectory, resolve_directory, OptionalHeader,
  is_pe32_plus, parse_optional_header,
}
use tew.Pe.Tables.{ExportTable, parse_exports, parse_imports}
use tew.Pe.Directories.{
  RuntimeFunction, parse_exception_table, DebugDirectoryEntry, parse_debug_directory, TlsDirectory,
  parse_tls_directory, parse_load_config_directory, BoundImportDescriptor, parse_bound_import_table,
  DelayImportDescriptor, parse_delay_imports,
}

-- An integer from -2 ^ 16 on is held as the number that is larger by 2 ^ 16.
abbrev pub bias : ℕ
bias = 0x10000

-- where a slice's bound falls in so many bytes: a negative one is counted from the end
abbrev pub bound_of : ℕ → ℕ → ℕ
bound_of size b = if leb bias b then b - bias else size - (bias - b)

abbrev pub signed_slice : Bytes → ℕ → ℕ → Bytes
signed_slice bytes start stop =
    let first = bound_of (length bytes) start in
    take (bound_of (length bytes) stop - first) (drop first bytes)

-- A signed 16-bit number, held with the bias.
abbrev pub signed16 : ℕ → ℕ
signed16 v = if ltb v 0x8000 then bias + v else v

unfoldable pub parse_sections : ℕ → Bytes → ℕ → Parse (List SectionHeader)
parse_sections zero image start = pure []
parse_sections (suc count) image start = do
  s ← parse_section_header (signed_slice image start (start + 40))
  rest ← parse_sections count image (start + 40)
  pure (s ∷ rest)

pub record Executable : Type 0 where
  pub coff_file_header : CoffFileHeader
  pub optional_header : OptionalHeader
  pub section_headers : List SectionHeader
  pub export_table : Option ExportTable
  pub import_table : Option (List ImportDescriptor)
  pub exception_table : Option (List RuntimeFunction)
  pub base_relocation_table : Option (List RelocationBlock)
  pub debug_directory : Option (List DebugDirectoryEntry)
  pub tls_directory : Option (Option TlsDirectory)
  pub load_config_directory : Option (List ℕ)
  pub bound_import_table : Option (List BoundImportDescriptor)
  pub delay_import_table : Option (List DelayImportDescriptor)

-- dd(index): the directory, if it is there and has contents
unfoldable pub directory : ℕ → List DataDirectory → Option DataDirectory
directory index [] = none
directory zero (d ∷ ds) = if length d.contents == 0 then none else some d
directory (suc index) (d ∷ ds) = directory index ds

abbrev pub parse_with :
    {A : Type 0} → Option DataDirectory → (DataDirectory → Parse A) → Parse (Option A)
parse_with none f = pure none
parse_with (some d) f = do a ← f d; pure (some a)

-- _parse_data_directories
unfoldable pub parse_data_directories :
    (Bytes → Text)
    → Bytes
    → CoffFileHeader
    → OptionalHeader
    → List SectionHeader
    → List DataDirectory
    → Parse Executable
parse_data_directories decode image coff header sections dirs = do
  let plus = is_pe32_plus header.magic
  exports ←
      parse_with (directory 0 dirs)
        (λ d. parse_exports decode image sections d.contents d.virtual_address d.size)
  imports ← parse_with (directory 1 dirs) (λ d. parse_imports decode image sections plus d.contents)
  exceptions ←
      parse_with (directory 3 dirs)
        (λ d. pure (parse_exception_table (length d.contents / 12) d.contents))
  relocations ← parse_with (directory 5 dirs) (λ d. parse_relocations d.contents)
  debug ←
      parse_with (directory 6 dirs)
        (λ d. pure (parse_debug_directory decode image (length d.contents / 28) d.contents))
  tls ←
      parse_with (directory 9 dirs)
        (λ d. parse_tls_directory d.contents image sections plus header.image_base)
  load_config ←
      parse_with (directory 10 dirs) (λ d. pure (parse_load_config_directory d.contents plus))
  bound ← parse_with (directory 11 dirs) (λ d. parse_bound_import_table decode d.contents)
  delay ←
      parse_with (directory 13 dirs)
        (λ d. parse_delay_imports decode image sections plus d.contents)
  pure (record {
    coff_file_header = coff;
    optional_header = header;
    section_headers = sections;
    export_table = exports;
    import_table = imports;
    exception_table = exceptions;
    base_relocation_table = relocations;
    debug_directory = debug;
    tls_directory = tls;
    load_config_directory = load_config;
    bound_import_table = bound;
    delay_import_table = delay;
  })

-- EXEFile.__init__, from the bytes of the file on
unfoldable pub parse_exe : (Bytes → Text) → Bytes → Parse Executable
parse_exe decode image = do
  lfanew ← word_at image 0x3C
  let coff_start = signed16 lfanew + 4
  coff ← parse_coff_file_header (signed_slice image coff_start (coff_start + 20))
  let opt_start = coff_start + 20
  let table_start = opt_start + coff.size_of_optional_header
  header ← parse_optional_header (signed_slice image opt_start table_start)
  headers ← parse_sections coff.number_of_sections image table_start
  let sections = map (resolve_section image) headers
  parse_data_directories decode image coff header sections
      (map (resolve_directory image sections) header.data_directories)

-- What the loader takes of it; a table that the file does not have is empty.
abbrev pub or_empty : {A : Type 0} → Option (List A) → List A
or_empty none = []
or_empty (some xs) = xs

abbrev pub entries_of : Option ExportTable → List ExportEntry
entries_of none = []
entries_of (some t) = t.entries

unfoldable pub exe_file : Executable → ExeFile
exe_file e = record {
  image_base = e.optional_header.image_base;
  address_of_entry_point = e.optional_header.address_of_entry_point;
  sections = map (λ s. (s.virtual_address, s.contents)) e.section_headers;
  relocation_blocks = or_empty e.base_relocation_table;
  exports = entries_of e.export_table;
  imports = or_empty e.import_table;
}
