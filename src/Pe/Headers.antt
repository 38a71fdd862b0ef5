-- ===== src/Pe/Headers.antt =====
-- The COFF header and the optional header: tew/pe/coff_file_header.py, optional_header.py and
-- data_directory.py.
use tew.Base.{
  ℕ, zero, suc, ◌+◌, ◌*◌, ◌==◌, Bool, ◌||◌, if◌then◌else◌, Option, none, some, List, [], ◌∷◌, ◌>>=◌,
  pure,
}
use tew.Pe.Sections.{
  Bytes, Parse, word_at, dword_at, qword_at, at_index, slice_of, SectionHeader, rva_to_offset,
}

pub record CoffFileHeader : Type 0 where
  pub machine : ℕ
  pub number_of_sections : ℕ
  pub time_date_stamp : ℕ
  pub pointer_to_symbol_table : ℕ
  pub number_of_symbols : ℕ
  pub size_of_optional_header : ℕ
  pub characteristics : ℕ

-- The machine is left as its number.
unfoldable pub parse_coff_file_header : Bytes → Parse CoffFileHeader
parse_coff_file_header bytes = do
  machine ← word_at bytes 0
  number_of_sections ← word_at bytes 2
  time_date_stamp ← dword_at bytes 4
  pointer_to_symbol_table ← dword_at bytes 8
  number_of_symbols ← dword_at bytes 12
  size_of_optional_header ← word_at bytes 16
  characteristics ← word_at bytes 18
  pure (record {
    machine = machine;
    number_of_sections = number_of_sections;
    time_date_stamp = time_date_stamp;
    pointer_to_symbol_table = pointer_to_symbol_table;
    number_of_symbols = number_of_symbols;
    size_of_optional_header = size_of_optional_header;
    characteristics = characteristics;
  })

pub record DataDirectory : Type 0 where
  pub virtual_address : ℕ
  pub size : ℕ
  pub index : ℕ
  pub contents : Bytes

abbrev pub directory_size : ℕ
directory_size = 8

unfoldable pub parse_data_directory : Bytes → ℕ → Parse DataDirectory
parse_data_directory bytes index = do
  virtual_address ← dword_at bytes 0
  size ← dword_at bytes 4
  pure (record { virtual_address = virtual_address; size = size; index = index; contents = [] })

-- The certificate table, of index 4, is at a place in the file.
abbrev pub directory_offset : DataDirectory → List SectionHeader → Option ℕ
directory_offset d sections =
    if d.index == 4 then some d.virtual_address else rva_to_offset d.virtual_address sections

unfoldable pub resolve_directory : Bytes → List SectionHeader → DataDirectory → DataDirectory
resolve_directory image sections d =
    if (d.virtual_address == 0) || (d.size == 0) then d else elim (directory_offset d sections) [
      | none ↦ d
      | some offset ↦ record d { contents = slice_of image offset (offset + d.size) }
    ]

pub record OptionalHeader : Type 0 where
  pub magic : ℕ
  pub linker_version : ℕ × ℕ
  pub code_sizes : ℕ × ℕ × ℕ
  pub address_of_entry_point : ℕ
  pub base_of_code : ℕ
  pub base_of_data : ℕ
  pub image_base : ℕ
  pub section_alignment : ℕ
  pub file_alignment : ℕ
  pub os_version : ℕ × ℕ
  pub image_version : ℕ × ℕ
  pub subsystem_version : ℕ × ℕ
  pub win32_version_value : ℕ
  pub size_of_image : ℕ
  pub size_of_headers : ℕ
  pub check_sum : ℕ
  pub subsystem : ℕ
  pub dll_characteristics : ℕ
  pub stack_sizes : ℕ × ℕ
  pub heap_sizes : ℕ × ℕ
  pub loader_flags : ℕ
  pub number_of_rva_and_sizes : ℕ
  pub data_directories : List DataDirectory

-- magic == 0x20B
abbrev pub is_pe32_plus : ℕ → Bool
is_pe32_plus magic = magic == 0x20B

-- two words one after the other
abbrev pub version_at : Bytes → ℕ → Parse (ℕ × ℕ)
version_at bytes offset = do
  major ← word_at bytes offset
  minor ← word_at bytes (offset + 2)
  pure (major, minor)

-- _base_of_data and _image_base
unfoldable pub bases_at : Bytes → Bool → Parse (ℕ × ℕ)
bases_at bytes plus =
    if plus then (do image_base ← qword_at bytes 24; pure (0, image_base)) else (do
      base_of_data ← dword_at bytes 24
      image_base ← dword_at bytes 28
      pure (base_of_data, image_base))

-- The sizes of the stack and of the heap, the flags and the number of directories.
unfoldable pub sizes_at : Bytes → Bool → Parse ((ℕ × ℕ) × (ℕ × ℕ) × ℕ × ℕ)
sizes_at bytes plus =
    if plus
    then (do
      stack_reserve ← qword_at bytes 72
      stack_commit ← qword_at bytes 80
      heap_reserve ← qword_at bytes 88
      heap_commit ← qword_at bytes 96
      loader_flags ← dword_at bytes 104
      count ← dword_at bytes 108
      pure ((stack_reserve, stack_commit), (heap_reserve, heap_commit), loader_flags, count))
    else (do
      stack_reserve ← dword_at bytes 72
      stack_commit ← dword_at bytes 76
      heap_reserve ← dword_at bytes 80
      heap_commit ← dword_at bytes 84
      loader_flags ← dword_at bytes 88
      count ← dword_at bytes 92
      pure ((stack_reserve, stack_commit), (heap_reserve, heap_commit), loader_flags, count))

unfoldable pub parse_directories : Bytes → ℕ → ℕ → ℕ → Parse (List DataDirectory)
parse_directories bytes first zero i = pure []
parse_directories bytes first (suc count) i = do
  d ←
      parse_data_directory
        (slice_of bytes (first + i * directory_size) (first + i * directory_size + directory_size))
        i
  ds ← parse_directories bytes first count (i + 1)
  pure (d ∷ ds)

unfoldable pub parse_optional_header : Bytes → Parse OptionalHeader
parse_optional_header bytes = do
  magic ← word_at bytes 0
  major_linker ← at_index bytes 2
  minor_linker ← at_index bytes 3
  size_of_code ← dword_at bytes 4
  size_of_initialized_data ← dword_at bytes 8
  size_of_uninitialized_data ← dword_at bytes 12
  address_of_entry_point ← dword_at bytes 16
  base_of_code ← dword_at bytes 20
  bases ← bases_at bytes (is_pe32_plus magic)
  section_alignment ← dword_at bytes 32
  file_alignment ← dword_at bytes 36
  os_version ← version_at bytes 40
  image_version ← version_at bytes 44
  subsystem_version ← version_at bytes 48
  win32_version_value ← dword_at bytes 52
  size_of_image ← dword_at bytes 56
  size_of_headers ← dword_at bytes 60
  check_sum ← dword_at bytes 64
  subsystem ← word_at bytes 68
  dll_characteristics ← word_at bytes 70
  sizes ← sizes_at bytes (is_pe32_plus magic)
  directories ← parse_directories bytes (if is_pe32_plus magic then 112 else 96) sizes.3 0
  pure (record {
    magic = magic;
    linker_version = (major_linker, minor_linker);
    code_sizes = (size_of_code, size_of_initialized_data, size_of_uninitialized_data);
    address_of_entry_point = address_of_entry_point;
    base_of_code = base_of_code;
    base_of_data = bases.0;
    image_base = bases.1;
    section_alignment = section_alignment;
    file_alignment = file_alignment;
    os_version = os_version;
    image_version = image_version;
    subsystem_version = subsystem_version;
    win32_version_value = win32_version_value;
    size_of_image = size_of_image;
    size_of_headers = size_of_headers;
    check_sum = check_sum;
    subsystem = subsystem;
    dll_characteristics = dll_characteristics;
    stack_sizes = sizes.0;
    heap_sizes = sizes.1;
    loader_flags = sizes.2;
    number_of_rva_and_sizes = sizes.3;
    data_directories = directories;
  })
