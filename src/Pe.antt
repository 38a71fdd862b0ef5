-- ===== src/Pe.antt =====
-- The parts of an executable that the loader uses: tew/pe/base_relocation_table.py, and the data of
-- tew/pe/export_table.py, import_table.py and exe_file.py. A file is the list of its bytes.
pub mod Relocations
pub mod Sections
pub mod Headers
pub mod Tables
pub mod Directories
pub mod Exe
pub mod Finishes
use tew.Base.{
  ℕ, zero, suc, ◌+◌, ◌-◌, ◌*◌, ◌/◌, ◌%◌, ◌^◌, ◌==◌, ltb, leb, Bool, ◌&&◌, ◌||◌, if◌then◌else◌,
  Option, none, some, List, [], ◌∷◌, ◌++◌, length, drop, Text, codes, decimal, Exec, out_of_fuel,
  ◌>>=◌, pure, raise,
}

-- struct.unpack_from, where the bytes are there
abbrev pub byte_at : List ℕ → ℕ
byte_at [] = 0
byte_at (b ∷ bs) = b

abbrev pub unpack16 : List ℕ → ℕ
unpack16 bs = byte_at bs + 256 * byte_at (drop 1 bs)

abbrev pub unpack32 : List ℕ → ℕ
unpack32 bs = unpack16 bs + 65536 * unpack16 (drop 2 bs)

pub record RelocationEntry : Type 0 where
  pub kind : ℕ
  pub offset : ℕ

pub record RelocationBlock : Type 0 where
  pub page_rva : ℕ
  pub entries : List RelocationEntry

-- `bytes` are those from the entry on: data[entry_offset:]. The padding entries, of kind 0, are left out.
unfoldable pub parse_entries : ℕ → List ℕ → List RelocationEntry
parse_entries zero bytes = []
parse_entries (suc count) bytes =
    let rest = parse_entries count (drop 2 bytes) in
    let value = unpack16 bytes in
    if ltb (length bytes) 2
    then []
    else if (value / 2 ^ 12) % 16 == 0
    then rest
    else record { kind = (value / 2 ^ 12) % 16; offset = value % 2 ^ 12 } ∷ rest

-- `bytes` are data[offset:]. A block that is read takes 8 bytes at least, so as many rounds as there are
-- bytes, and one more, are enough.
unfoldable pub parse_blocks : ℕ → List ℕ → Exec (Unit {0}) (List RelocationBlock)
parse_blocks zero bytes = raise out_of_fuel
parse_blocks (suc rounds) bytes =
    let block_size = unpack32 (drop 4 bytes) in
    if ltb (length bytes) 8
    then pure []
    else if (block_size == 0) || ltb block_size 8
    then pure []
    else do
      rest ← parse_blocks rounds (drop block_size bytes)
      pure (
          record {
            page_rva = unpack32 bytes;
            entries = parse_entries ((block_size - 8) / 2) (drop 8 bytes);
          }
          ∷ rest)

unfoldable pub parse_relocations : List ℕ → Exec (Unit {0}) (List RelocationBlock)
parse_relocations bytes = parse_blocks (suc (length bytes)) bytes

-- f"Ordinal #{ordinal}"
abbrev pub ordinal_key : ℕ → Text
ordinal_key n = codes "Ordinal #" ++ decimal n

pub record ExportEntry : Type 0 where
  pub ordinal : ℕ
  pub rva : ℕ
  pub name : Option Text
  pub forwarder : Option Text

-- An offset of -1 is none.
pub record ImportEntry : Type 0 where
  pub ordinal : Option ℕ
  pub hint : ℕ
  pub name : Text
  pub iat_rva : ℕ
  pub iat_file_offset : Option ℕ
  pub iat_value : ℕ

pub record ImportDescriptor : Type 0 where
  pub dll_name : Text
  pub entries : List ImportEntry
  pub original_first_thunk : ℕ
  pub first_thunk : ℕ

-- What the loader takes of an EXEFile. A table that the file does not have is empty.
pub record ExeFile : Type 0 where
  pub image_base : ℕ
  pub address_of_entry_point : ℕ
  pub sections : List (ℕ × List ℕ)
  pub relocation_blocks : List RelocationBlock
  pub exports : List ExportEntry
  pub imports : List ImportDescriptor
