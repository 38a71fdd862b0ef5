-- ===== src/Pe/Tables.antt =====
-- Imports and exports: tew/pe/import_table.py and tew/pe/export_table.py. `decode` is Python's
-- bytes.decode("utf-8", errors="replace").
pub mod Ending
use tew.Base.{
  ℕ, zero, suc, ◌+◌, ◌-◌, ◌*◌, ◌%◌, ◌^◌, ltb, leb, ◌==◌, Bool, true, false, not, ◌&&◌, ◌||◌,
  if◌then◌else◌, Option, none, some, List, [], ◌∷◌, ◌++◌, length, Dict, get, put, nat_key, Text,
  codes, Result, ok, err, out_of_fuel, ◌>>=◌, pure, raise,
}
use tew.Pe.{ExportEntry, ImportEntry, ImportDescriptor, ordinal_key}
use tew.Pe.Sections.{
  Bytes, Parse, word_at, dword_at, qword_at, SectionHeader, rva_to_offset, read_null_terminated,
}

pub record ExportTable : Type 0 where
  pub dll_name : Text
  pub ordinal_base : ℕ
  pub time_date_stamp : ℕ
  pub entries : List ExportEntry

abbrev pub thunk_size : Bool → ℕ
thunk_size plus = if plus then 8 else 4

-- a thunk of either size
abbrev pub thunk_at : Bool → Bytes → ℕ → Parse ℕ
thunk_at plus image offset = if plus then qword_at image offset else dword_at image offset

abbrev pub is_ordinal : Bool → ℕ → Bool
is_ordinal plus thunk = if plus then leb (2 ^ 63) thunk else leb (2 ^ 31) thunk

abbrev shifted : Option ℕ → ℕ → Option ℕ
shifted none n = none
shifted (some a) n = some (a + n)

abbrev iat_value_at : Bool → Bytes → Option ℕ → Parse ℕ
iat_value_at plus image none = pure 0
iat_value_at plus image (some offset) = thunk_at plus image offset

module _ (decode : Bytes → Text) (image : Bytes) (sections : List SectionHeader) where
  -- the text at an address, where the address is in a section
  abbrev pub text_at : ℕ → Option Text
  text_at rva = elim (rva_to_offset rva sections) [
    | none ↦ none
    | some offset ↦ some (decode (read_null_terminated image offset))
  ]

  -- _read_hint_name: the entry at an offset, where there is one
  abbrev pub hint_name_at : ℕ → Option ℕ → ℕ → Option ℕ → Parse (List ImportEntry)
  hint_name_at iat_rva iat_file_offset iat_value none = pure []
  hint_name_at iat_rva iat_file_offset iat_value (some offset) = do
    hint ← word_at image offset
    pure (
        record {
          ordinal = none;
          hint = hint;
          name = decode (read_null_terminated image (offset + 2));
          iat_rva = iat_rva;
          iat_file_offset = iat_file_offset;
          iat_value = iat_value;
        }
        ∷ [])

  unfoldable pub read_hint_name : ℕ → ℕ → Option ℕ → ℕ → Parse (List ImportEntry)
  read_hint_name rva iat_rva iat_file_offset iat_value =
      hint_name_at iat_rva iat_file_offset iat_value (rva_to_offset rva sections)

  unfoldable pub thunk_entry : Bool → ℕ → ℕ → Option ℕ → ℕ → Parse (List ImportEntry)
  thunk_entry plus thunk iat_rva iat_file_offset iat_value =
      if is_ordinal plus thunk
      then pure (
          record {
            ordinal = some (thunk % 2 ^ 16);
            hint = 0;
            name = ordinal_key (thunk % 2 ^ 16);
            iat_rva = iat_rva;
            iat_file_offset = iat_file_offset;
            iat_value = iat_value;
          }
          ∷ [])
      else read_hint_name thunk iat_rva iat_file_offset iat_value

  -- The loop of _parse_thunks from the i-th thunk on. A round passes 4 bytes of the file at least, so one
  -- more than the bytes of the file are enough.
  unfoldable pub thunk_loop : ℕ → Bool → ℕ → ℕ → Option ℕ → ℕ → Parse (List ImportEntry)
  thunk_loop zero plus base first_thunk iat_base i = raise out_of_fuel
  thunk_loop (suc rounds) plus base first_thunk iat_base i =
      let next = thunk_loop rounds plus base first_thunk iat_base (i + 1) in
      if ltb (length image) (base + i * thunk_size plus + thunk_size plus) then pure [] else do
        thunk ← thunk_at plus image (base + i * thunk_size plus)
        if thunk == 0 then pure [] else do
          iat_value ← iat_value_at plus image (shifted iat_base (i * thunk_size plus))
          entry ←
              thunk_entry plus thunk (first_thunk + i * thunk_size plus)
                (shifted iat_base (i * thunk_size plus)) iat_value
          rest ← next
          pure (entry ++ rest)

  -- from the offset of the first thunk on, where there is one
  abbrev pub thunks_from : Bool → ℕ → Option ℕ → Parse (List ImportEntry)
  thunks_from plus first_thunk none = pure []
  thunks_from plus first_thunk (some base) =
      thunk_loop (suc (length image)) plus base first_thunk (rva_to_offset first_thunk sections) 0

  unfoldable pub parse_thunks : Bool → ℕ → ℕ → Parse (List ImportEntry)
  parse_thunks plus thunk_rva first_thunk =
      thunks_from plus first_thunk (rva_to_offset thunk_rva sections)

  abbrev pub dll_name_at : ℕ → Text
  dll_name_at rva = elim (text_at rva) [ none ↦ codes "<unknown>" | some name ↦ name ]

  -- The loop over the descriptors, of 20 bytes each; `bytes` is the directory.
  unfoldable pub descriptor_loop : ℕ → Bool → Bytes → ℕ → Parse (List ImportDescriptor)
  descriptor_loop zero plus bytes i = raise out_of_fuel
  descriptor_loop (suc rounds) plus bytes i =
      let next = descriptor_loop rounds plus bytes (i + 1) in
      if ltb (length bytes) (i * 20 + 20) then pure [] else do
        original_first_thunk ← dword_at bytes (i * 20)
        name_rva ← dword_at bytes (i * 20 + 12)
        first_thunk ← dword_at bytes (i * 20 + 16)
        if (original_first_thunk == 0) && (name_rva == 0) && (first_thunk == 0) then pure [] else do
          entries ←
              parse_thunks plus
                (if original_first_thunk == 0 then first_thunk else original_first_thunk)
                first_thunk
          rest ← next
          pure (
              record {
                dll_name = dll_name_at name_rva;
                entries = entries;
                original_first_thunk = original_first_thunk;
                first_thunk = first_thunk;
              }
              ∷ rest)

  unfoldable pub parse_imports : Bool → Bytes → Parse (List ImportDescriptor)
  parse_imports plus bytes = descriptor_loop (suc (length bytes)) plus bytes 0

  -- ordinal_to_name
  unfoldable pub export_names : ℕ → ℕ → ℕ → ℕ → Dict ℕ Text → Parse (Dict ℕ Text)
  export_names zero names ordinals i found = pure found
  export_names (suc count) names ordinals i found = do
    name_rva ← dword_at image (names + i * 4)
    ordinal_index ← word_at image (ordinals + i * 2)
    export_names count names ordinals (i + 1)
        (elim (text_at name_rva) [ none ↦ found | some name ↦ put ordinal_index name found ])

  -- A function whose address is inside the export directory is forwarded.
  abbrev forwarder_of : ℕ → ℕ → ℕ → Option Text
  forwarder_of dir_rva dir_size rva =
      if leb dir_rva rva && ltb rva (dir_rva + dir_size) then text_at rva else none

  unfoldable pub export_entries : ℕ → ℕ → ℕ → ℕ → Dict ℕ Text → ℕ → ℕ → Parse (List ExportEntry)
  export_entries zero functions ordinal_base i names dir_rva dir_size = pure []
  export_entries (suc count) functions ordinal_base i names dir_rva dir_size = do
    rva ← dword_at image (functions + i * 4)
    rest ← export_entries count functions ordinal_base (i + 1) names dir_rva dir_size
    pure (
        if rva == 0
        then rest
        else record {
          ordinal = ordinal_base + i;
          rva = rva;
          name = get i names;
          forwarder = forwarder_of dir_rva dir_size rva;
        }
          ∷ rest)

  abbrev pub names_table : ℕ → Option ℕ → Option ℕ → Parse (Dict ℕ Text)
  names_table count (some names) (some ordinals) = export_names count names ordinals 0 []
  names_table count (some names) none = pure []
  names_table count none ordinals = pure []

  -- no table where there are no names
  abbrev table_at : ℕ → ℕ → Option ℕ
  table_at count rva = if ltb 0 count then rva_to_offset rva sections else none

  abbrev export_table : Text → ℕ → ℕ → List ExportEntry → ExportTable
  export_table name ordinal_base stamp entries = record {
    dll_name = name;
    ordinal_base = ordinal_base;
    time_date_stamp = stamp;
    entries = entries;
  }

  abbrev name_or_empty : Option Text → Text
  name_or_empty none = []
  name_or_empty (some name) = name

  -- from the offset of the function addresses on, where there is one
  abbrev pub functions_from : Text → ℕ → ℕ → ℕ → ℕ → ℕ → ℕ → ℕ → ℕ → Option ℕ → Parse ExportTable
  functions_from name base stamp functions names names_rva ordinals_rva dir_rva dir_size none =
      pure (export_table name base stamp [])
  functions_from name base stamp functions names names_rva ordinals_rva dir_rva dir_size
        (some eat) =
      do
        found ← names_table names (table_at names names_rva) (table_at names ordinals_rva)
        entries ← export_entries functions eat base 0 found dir_rva dir_size
        pure (export_table name base stamp entries)

  unfoldable pub parse_exports : Bytes → ℕ → ℕ → Parse ExportTable
  parse_exports bytes dir_rva dir_size =
      if ltb (length bytes) 40 then pure (export_table [] 0 0 []) else do
        stamp ← dword_at bytes 4
        name_rva ← dword_at bytes 12
        base ← dword_at bytes 16
        functions ← dword_at bytes 20
        names ← dword_at bytes 24
        functions_rva ← dword_at bytes 28
        names_rva ← dword_at bytes 32
        ordinals_rva ← dword_at bytes 36
        functions_from (name_or_empty (text_at name_rva)) base stamp functions names names_rva
            ordinals_rva dir_rva dir_size (rva_to_offset functions_rva sections)
