-- ===== src/Pe/Sections.antt =====
-- Section headers (tew/pe/section_header.py) and the helpers of tew/helpers.py. Parsing raises
-- struct.error where the bytes end too early; it changes no state.
use tew.Base.{
  ℕ, ◌+◌, ◌-◌, ◌*◌, ◌^◌, ◌≤◌, ◌==◌, ltb, leb, ◌≡◌, ◌⊎◌, refl, Bool, true, false, ◌&&◌, ◌||◌,
  if◌then◌else◌, Option, none, some, List, [], ◌∷◌, ◌++◌, length, take, drop, min, max, Exec,
  struct_error, index_error, ◌>>=◌, pure, raise, AllPairs, All-middle, arith,
}
use tew.Pe.{unpack16, unpack32, byte_at}

abbrev pub Bytes : Type 0
Bytes = List ℕ

abbrev pub Parse : Type 0 → Type 0
Parse A = Exec (Unit {0}) A

-- struct.unpack_from("<H", data, offset)[0], and "<I" and "<Q"
unfoldable pub word_at : Bytes → ℕ → Parse ℕ
word_at bytes offset =
    if ltb (length bytes) (offset + 2)
    then raise struct_error
    else pure (unpack16 (drop offset bytes))

unfoldable pub dword_at : Bytes → ℕ → Parse ℕ
dword_at bytes offset =
    if ltb (length bytes) (offset + 4)
    then raise struct_error
    else pure (unpack32 (drop offset bytes))

unfoldable pub qword_at : Bytes → ℕ → Parse ℕ
qword_at bytes offset =
    if ltb (length bytes) (offset + 8)
    then raise struct_error
    else pure (unpack32 (drop offset bytes) + 2 ^ 32 * unpack32 (drop (offset + 4) bytes))

-- data[offset]
unfoldable pub at_index : Bytes → ℕ → Parse ℕ
at_index bytes offset =
    if ltb offset (length bytes) then pure (byte_at (drop offset bytes)) else raise index_error

-- data[start:stop]
abbrev pub slice_of : Bytes → ℕ → ℕ → Bytes
slice_of bytes start stop = take (stop - start) (drop start bytes)

pub record SectionHeader : Type 0 where
  pub name : Bytes
  pub virtual_size : ℕ
  pub virtual_address : ℕ
  pub size_of_raw_data : ℕ
  pub pointer_to_raw_data : ℕ
  pub pointer_to_relocations : ℕ
  pub pointer_to_linenumbers : ℕ
  pub number_of_relocations : ℕ
  pub number_of_linenumbers : ℕ
  pub characteristics : ℕ
  pub contents : Bytes

-- rstrip(b"\x00")
unfoldable pub strip_zeros : Bytes → Bytes
strip_zeros [] = []
strip_zeros (b ∷ bs) = elim (strip_zeros bs) [
  | [] ↦ if b == 0 then [] else b ∷ []
  | x ∷ xs ↦ b ∷ x ∷ xs
]

-- The name is left as its bytes.
unfoldable pub parse_section_header : Bytes → Parse SectionHeader
parse_section_header bytes = do
  virtual_size ← dword_at bytes 8
  virtual_address ← dword_at bytes 12
  size_of_raw_data ← dword_at bytes 16
  pointer_to_raw_data ← dword_at bytes 20
  pointer_to_relocations ← dword_at bytes 24
  pointer_to_linenumbers ← dword_at bytes 28
  number_of_relocations ← word_at bytes 32
  number_of_linenumbers ← word_at bytes 34
  characteristics ← dword_at bytes 36
  pure (record {
    name = strip_zeros (take 8 bytes);
    virtual_size = virtual_size;
    virtual_address = virtual_address;
    size_of_raw_data = size_of_raw_data;
    pointer_to_raw_data = pointer_to_raw_data;
    pointer_to_relocations = pointer_to_relocations;
    pointer_to_linenumbers = pointer_to_linenumbers;
    number_of_relocations = number_of_relocations;
    number_of_linenumbers = number_of_linenumbers;
    characteristics = characteristics;
    contents = [];
  })

unfoldable pub resolve_section : Bytes → SectionHeader → SectionHeader
resolve_section image s =
    if (s.pointer_to_raw_data == 0) || (s.size_of_raw_data == 0) then s else record s {
      contents = slice_of image s.pointer_to_raw_data (s.pointer_to_raw_data + s.size_of_raw_data);
    }

abbrev pub effective_size : SectionHeader → ℕ
effective_size s = max s.virtual_size s.size_of_raw_data

abbrev pub contains_rva : ℕ → SectionHeader → Bool
contains_rva rva s = leb s.virtual_address rva && ltb rva (s.virtual_address + effective_size s)

-- The offset -1 is none.
unfoldable pub rva_to_offset : ℕ → List SectionHeader → Option ℕ
rva_to_offset rva [] = none
rva_to_offset rva (s ∷ ss) =
    if contains_rva rva s
    then some (s.pointer_to_raw_data + (rva - s.virtual_address))
    else rva_to_offset rva ss

-- data.find(b"\x00", offset), by what is left of the bytes from the offset on
abbrev pub find_zero : Bytes → ℕ → Option ℕ
find_zero [] at = none
find_zero (b ∷ bs) at = if b == 0 then some at else find_zero bs (at + 1)

-- The bytes of the text, not decoded.
unfoldable pub read_null_terminated : Bytes → ℕ → Bytes
read_null_terminated bytes offset = elim (find_zero (drop offset bytes) offset) [
  | none ↦ slice_of bytes offset (min (offset + 256) (length bytes))
  | some stop ↦ slice_of bytes offset stop
]

-- Sections that share no address.
abbrev pub ApartSections : SectionHeader → SectionHeader → Type 0
ApartSections s u =
    (s.virtual_address + effective_size s ≤ u.virtual_address)
    ⊎ (u.virtual_address + effective_size u ≤ s.virtual_address)

apart_sections :
    (rva : ℕ) (u s : SectionHeader)
    → ApartSections u s
    → contains_rva rva s ≡ true
    → contains_rva rva u ≡ false
apart_sections rva u s apart h = ground (arith, apart, h)

-- Where no two sections share an address, an address in a section is found in that section, at its
-- place there, wherever the section stands in the table.
pub rva_to_offset_lem :
    (rva : ℕ) (before after : List SectionHeader) (s : SectionHeader)
    → AllPairs ApartSections (before ++ s ∷ after)
    → contains_rva rva s ≡ true
    → rva_to_offset rva (before ++ s ∷ after)
      ≡ some (s.pointer_to_raw_data + (rva - s.virtual_address))
unfolding rva_to_offset
rva_to_offset_lem rva [] after s apart h = rw h refl
rva_to_offset_lem rva (u ∷ before) after s apart h =
    rw (apart_sections rva u s (All-middle (ApartSections u) before after s apart.0) h)
      (rva_to_offset_lem rva before after s apart.1 h)
