-- ===== src/Pe/Directories.antt =====
-- The other directories of an executable: tew/pe/exception_table.py, debug_directory.py, tls_table.py,
-- load_config_directory.py, bound_import_table.py and delay_import_table.py.
use tew.Base.{
  ℕ, zero, suc, ◌+◌, ◌-◌, ◌*◌, ltb, leb, ◌==◌, Bool, ◌&&◌, ◌||◌, if◌then◌else◌, Option, none, some,
  List, [], ◌∷◌, ◌++◌, map, length, drop, Text, out_of_fuel, ◌>>=◌, pure, raise,
}
use tew.Pe.{ImportEntry, unpack16, unpack32}
use tew.Pe.Sections.{
  Bytes, Parse, dword_at, slice_of, SectionHeader, rva_to_offset, read_null_terminated,
}
use tew.Pe.Tables.{thunk_size, parse_thunks, dll_name_at}

pub record RuntimeFunction : Type 0 where
  pub begin_address : ℕ
  pub end_address : ℕ
  pub unwind_info_address : ℕ

unfoldable pub parse_exception_table : ℕ → Bytes → List RuntimeFunction
parse_exception_table zero bytes = []
parse_exception_table (suc count) bytes =
    record {
      begin_address = unpack32 bytes;
      end_address = unpack32 (drop 4 bytes);
      unwind_info_address = unpack32 (drop 8 bytes);
    }
    ∷ parse_exception_table count (drop 12 bytes)

-- The path, the GUID's 16 bytes and the age of a PDB.
pub record PdbInfo : Type 0 where
  pub path : Text
  pub guid : Option Bytes
  pub age : ℕ

pub record DebugDirectoryEntry : Type 0 where
  pub characteristics : ℕ
  pub time_date_stamp : ℕ
  pub version : ℕ × ℕ
  pub kind : ℕ
  pub size_of_data : ℕ
  pub address_of_raw_data : ℕ
  pub pointer_to_raw_data : ℕ
  pub pdb : Option PdbInfo

-- Signatures RSDS and NB10; `bytes` are those of the file from the CodeView record on.
abbrev pub pdb_info : (Bytes → Text) → Bytes → Option PdbInfo
pdb_info decode bytes =
    if unpack32 bytes == 0x53445352
    then some (record {
      path = decode (read_null_terminated bytes 24);
      guid = some (slice_of bytes 4 20);
      age = unpack32 (drop 20 bytes);
    })
    else if unpack32 bytes == 0x3031424E
    then some (record {
      path = decode (read_null_terminated bytes 16);
      guid = none;
      age = unpack32 (drop 8 bytes);
    })
    else none

abbrev pub pdb_of : (Bytes → Text) → Bytes → ℕ → ℕ → ℕ → Option PdbInfo
pdb_of decode image kind pointer size =
    if ((kind == 2) && ltb 0 pointer) && (leb 24 size && leb (pointer + size) (length image))
    then pdb_info decode (drop pointer image)
    else none

unfoldable pub parse_debug_directory : (Bytes → Text) → Bytes → ℕ → Bytes → List DebugDirectoryEntry
parse_debug_directory decode image zero bytes = []
parse_debug_directory decode image (suc count) bytes =
    record {
      characteristics = unpack32 bytes;
      time_date_stamp = unpack32 (drop 4 bytes);
      version = (unpack16 (drop 8 bytes), unpack16 (drop 10 bytes));
      kind = unpack32 (drop 12 bytes);
      size_of_data = unpack32 (drop 16 bytes);
      address_of_raw_data = unpack32 (drop 20 bytes);
      pointer_to_raw_data = unpack32 (drop 24 bytes);
      pdb =
          pdb_of decode image (unpack32 (drop 12 bytes)) (unpack32 (drop 24 bytes))
            (unpack32 (drop 16 bytes));
    }
    ∷ parse_debug_directory decode image count (drop 28 bytes)

abbrev pub unpack64 : Bytes → ℕ
unpack64 bytes = unpack32 bytes + 0x100000000 * unpack32 (drop 4 bytes)

abbrev pub unpack_pointer : Bool → Bytes → ℕ
unpack_pointer plus bytes = if plus then unpack64 bytes else unpack32 bytes

pub record TlsDirectory : Type 0 where
  pub start_address_of_raw_data : ℕ
  pub end_address_of_raw_data : ℕ
  pub address_of_index : ℕ
  pub address_of_callbacks : ℕ
  pub size_of_zero_fill : ℕ
  pub characteristics : ℕ
  pub callbacks : List ℕ

-- The callbacks up to a zero or the end of the file. A round takes 4 bytes at least, so as many as there
-- are bytes, and one more, are enough.
unfoldable pub tls_callbacks : ℕ → Bool → Bytes → Parse (List ℕ)
tls_callbacks zero plus bytes = raise out_of_fuel
tls_callbacks (suc rounds) plus bytes =
    if ltb (length bytes) (thunk_size plus) || (unpack_pointer plus bytes == 0) then pure [] else do
      rest ← tls_callbacks rounds plus (drop (thunk_size plus) bytes)
      pure (unpack_pointer plus bytes ∷ rest)

-- An address below the image is in no section.
abbrev pub callbacks_offset : ℕ → ℕ → List SectionHeader → Option ℕ
callbacks_offset address image_base sections =
    if (address == 0) || ltb address image_base
    then none
    else rva_to_offset (address - image_base) sections

abbrev pub callbacks_at : Bool → Bytes → Option ℕ → Parse (List ℕ)
callbacks_at plus image none = pure []
callbacks_at plus image (some offset) = tls_callbacks (suc (length image)) plus (drop offset image)

-- none where the directory is too short: then only the empty list of callbacks is set
unfoldable pub parse_tls_directory :
    Bytes → Bytes → List SectionHeader → Bool → ℕ → Parse (Option TlsDirectory)
parse_tls_directory bytes image sections plus image_base =
    let width = thunk_size plus in
    let address = unpack_pointer plus (drop (3 * width) bytes) in
    if ltb (length bytes) (4 * width + 8) then pure none else do
      callbacks ← callbacks_at plus image (callbacks_offset address image_base sections)
      pure (
          some (record {
            start_address_of_raw_data = unpack_pointer plus bytes;
            end_address_of_raw_data = unpack_pointer plus (drop width bytes);
            address_of_index = unpack_pointer plus (drop (2 * width) bytes);
            address_of_callbacks = address;
            size_of_zero_fill = unpack32 (drop (4 * width) bytes);
            characteristics = unpack32 (drop (4 * width + 4) bytes);
            callbacks = callbacks;
          }))

-- _read16, _read32 and _read64, by the width: 0 where the directory ends before the field does
abbrev pub field_at : Bytes → ℕ × ℕ → ℕ
field_at bytes (width, offset) =
    if ltb (length bytes) (offset + width)
    then 0
    else if width == 2
    then unpack16 (drop offset bytes)
    else if width == 4
    then unpack32 (drop offset bytes)
    else unpack64 (drop offset bytes)

-- The widths and the offsets of the fields, in the order of the code.
abbrev pub common_fields : List (ℕ × ℕ)
common_fields = (4, 0) ∷ (4, 4) ∷ (2, 8) ∷ (2, 10) ∷ (4, 12) ∷ (4, 16) ∷ (4, 20) ∷ []

abbrev pub wide_fields : List (ℕ × ℕ)
wide_fields =
    (8, 24)
    ∷ (8, 32)
    ∷ (8, 40)
    ∷ (8, 48)
    ∷ (8, 56)
    ∷ (8, 64)
    ∷ (4, 72)
    ∷ (2, 76)
    ∷ (2, 78)
    ∷ (8, 80)
    ∷ (8, 88)
    ∷ (8, 96)
    ∷ (8, 104)
    ∷ (8, 112)
    ∷ (8, 120)
    ∷ (8, 128)
    ∷ (8, 136)
    ∷ (4, 144)
    ∷ []

abbrev pub narrow_fields : List (ℕ × ℕ)
narrow_fields =
    (4, 24)
    ∷ (4, 28)
    ∷ (4, 32)
    ∷ (4, 36)
    ∷ (4, 40)
    ∷ (4, 44)
    ∷ (4, 48)
    ∷ (2, 52)
    ∷ (2, 54)
    ∷ (4, 56)
    ∷ (4, 60)
    ∷ (4, 64)
    ∷ (4, 68)
    ∷ (4, 72)
    ∷ (4, 76)
    ∷ (4, 80)
    ∷ (4, 84)
    ∷ (4, 88)
    ∷ []

unfoldable pub parse_load_config_directory : Bytes → Bool → List ℕ
parse_load_config_directory bytes plus =
    map (field_at bytes) (common_fields ++ (if plus then wide_fields else narrow_fields))

pub record BoundForwarderRef : Type 0 where
  pub time_date_stamp : ℕ
  pub module_name : Text

pub record BoundImportDescriptor : Type 0 where
  pub time_date_stamp : ℕ
  pub module_name : Text
  pub forwarder_refs : List BoundForwarderRef

-- `bytes` is the directory, and `here` what is left of it.
unfoldable pub forwarder_refs_at : (Bytes → Text) → Bytes → ℕ → Bytes → List BoundForwarderRef
forwarder_refs_at decode bytes zero here = []
forwarder_refs_at decode bytes (suc count) here =
    let rest = forwarder_refs_at decode bytes count (drop 8 here) in
    if ltb (length here) 8
    then []
    else record {
      time_date_stamp = unpack32 here;
      module_name = decode (read_null_terminated bytes (unpack16 (drop 4 here)));
    }
      ∷ rest

-- A descriptor takes 8 bytes at least, so as many rounds as there are bytes, and one more, are enough.
unfoldable pub bound_descriptors :
    (Bytes → Text) → Bytes → ℕ → Bytes → Parse (List BoundImportDescriptor)
bound_descriptors decode bytes zero here = raise out_of_fuel
bound_descriptors decode bytes (suc rounds) here =
    let refs = unpack16 (drop 6 here) in
    if ltb (length here) 8 || ((unpack32 here == 0) && (unpack16 (drop 4 here) == 0))
    then pure []
    else do
      rest ← bound_descriptors decode bytes rounds (drop (8 + refs * 8) here)
      pure (
          record {
            time_date_stamp = unpack32 here;
            module_name = decode (read_null_terminated bytes (unpack16 (drop 4 here)));
            forwarder_refs = forwarder_refs_at decode bytes refs (drop 8 here);
          }
          ∷ rest)

unfoldable pub parse_bound_import_table :
    (Bytes → Text) → Bytes → Parse (List BoundImportDescriptor)
parse_bound_import_table decode bytes = bound_descriptors decode bytes (suc (length bytes)) bytes

pub record DelayImportDescriptor : Type 0 where
  pub dll_name : Text
  pub attributes : ℕ
  pub module_handle : ℕ
  pub iat : ℕ
  pub int_rva : ℕ
  pub bound_iat : ℕ
  pub unload_iat : ℕ
  pub time_date_stamp : ℕ
  pub entries : List ImportEntry

module _ (decode : Bytes → Text) (image : Bytes) (sections : List SectionHeader) where
  -- The loop over the descriptors, of 32 bytes each. _parse_delay_thunks is _parse_thunks again.
  unfoldable pub delay_loop : ℕ → Bool → Bytes → ℕ → Parse (List DelayImportDescriptor)
  delay_loop zero plus bytes i = raise out_of_fuel
  delay_loop (suc rounds) plus bytes i =
      let next = delay_loop rounds plus bytes (i + 1) in
      if ltb (length bytes) (i * 32 + 32) then pure [] else do
        attributes ← dword_at bytes (i * 32)
        dll_name_rva ← dword_at bytes (i * 32 + 4)
        module_handle ← dword_at bytes (i * 32 + 8)
        iat_rva ← dword_at bytes (i * 32 + 12)
        int_rva ← dword_at bytes (i * 32 + 16)
        bound_iat ← dword_at bytes (i * 32 + 20)
        unload_iat ← dword_at bytes (i * 32 + 24)
        time_date_stamp ← dword_at bytes (i * 32 + 28)
        if (dll_name_rva == 0) && (int_rva == 0) && (iat_rva == 0) then pure [] else do
          entries ← parse_thunks decode image sections plus int_rva iat_rva
          rest ← next
          pure (
              record {
                dll_name = dll_name_at decode image sections dll_name_rva;
                attributes = attributes;
                module_handle = module_handle;
                iat = iat_rva;
                int_rva = int_rva;
                bound_iat = bound_iat;
                unload_iat = unload_iat;
                time_date_stamp = time_date_stamp;
                entries = entries;
              }
              ∷ rest)

  unfoldable pub parse_delay_imports : Bool → Bytes → Parse (List DelayImportDescriptor)
  parse_delay_imports plus bytes = delay_loop (suc (length bytes)) plus bytes 0
