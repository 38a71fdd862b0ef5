-- ===== src/Pe/Tables/Ending.antt =====
-- That the loops over thunks and descriptors end, for tew/pe/import_table.py.
use tew.Base.{
  ℕ, zero, suc, ◌+◌, ◌*◌, ◌<◌, ltb, ◌==◌, ◌&&◌, ◌≡◌, Bool, true, false, Option, none, some, List,
  [], length, Dict, nat_key, Text, arith,
}
use tew.Pe.Sections.{Bytes, SectionHeader, rva_to_offset}
use tew.Pe.Tables.{
  thunk_size, thunk_at, is_ordinal, iat_value_at, hint_name_at, thunks_from, read_hint_name,
  thunk_entry, thunk_loop, parse_thunks, descriptor_loop, parse_imports, export_names, names_table,
  export_entries, parse_exports, functions_from,
}
use tew.Pe.Finishes.{
  finishes_rules, Finishes, Finishes-pure, Finishes-if, Finishes-bind, word_at-Finishes,
  dword_at-Finishes, qword_at-Finishes,
}

thunk_at-Finishes :
    (plus : Bool) (image : Bytes) (offset : ℕ) → Finishes (thunk_at plus image offset)
thunk_at-Finishes true image offset = qword_at-Finishes image offset
thunk_at-Finishes false image offset = dword_at-Finishes image offset

iat_value_at-Finishes :
    (plus : Bool) (image : Bytes) (o : Option ℕ) → Finishes (iat_value_at plus image o)
iat_value_at-Finishes plus image none = Finishes-pure 0
iat_value_at-Finishes plus image (some offset) = thunk_at-Finishes plus image offset

-- A round of the thunks passes 4 bytes at least.
thunk_passes :
    (plus : Bool) (size base i rounds : ℕ)
    → size < base + i * 4 + suc rounds
    → ltb size (base + i * thunk_size plus + thunk_size plus) ≡ false
    → (size < base + (i + 1) * 4 + rounds) × (0 < rounds)
thunk_passes true size base i rounds h k = ground (arith, h, k)
thunk_passes false size base i rounds h k = ground (arith, h, k)

module _ (decode : Bytes → Text) (image : Bytes) (sections : List SectionHeader) where
  hint_name_at-Finishes :
      (iat_rva : ℕ) (iat : Option ℕ) (v : ℕ) (o : Option ℕ)
      → Finishes (hint_name_at decode image sections iat_rva iat v o)
  hint_name_at-Finishes iat_rva iat v none = Finishes-pure []
  hint_name_at-Finishes iat_rva iat v (some offset) =
      Finishes-bind _ _ (word_at-Finishes image offset) λ hint. Finishes-pure _

  read_hint_name-Finishes :
      (rva iat_rva : ℕ) (iat : Option ℕ) (v : ℕ)
      → Finishes (read_hint_name decode image sections rva iat_rva iat v)
  unfolding read_hint_name
  read_hint_name-Finishes rva iat_rva iat v =
      hint_name_at-Finishes iat_rva iat v (rva_to_offset rva sections)

  thunk_entry-Finishes :
      (plus : Bool) (thunk iat_rva : ℕ) (iat : Option ℕ) (v : ℕ)
      → Finishes (thunk_entry decode image sections plus thunk iat_rva iat v)
  unfolding thunk_entry
  thunk_entry-Finishes plus thunk iat_rva iat v =
      Finishes-if (is_ordinal plus thunk) _ _ (Finishes-pure _)
        λ _. read_hint_name-Finishes thunk iat_rva iat v

  thunk_loop-Finishes :
      (rounds : ℕ) (plus : Bool) (base first : ℕ) (iat : Option ℕ) (i : ℕ)
      → length image < base + i * 4 + rounds
      → 0 < rounds
      → Finishes (thunk_loop decode image sections rounds plus base first iat i)
  unfolding thunk_loop
  thunk_loop-Finishes zero plus base first iat i h some_round = absurd (omega arith)
  thunk_loop-Finishes (suc rounds) plus base first iat i h some_round =
      Finishes-if (ltb (length image) (base + i * thunk_size plus + thunk_size plus)) _ _
        (Finishes-pure [])
        λ passed. Finishes-bind _ _ (thunk_at-Finishes plus image _) λ thunk.
          Finishes-if (thunk == 0) _ _ (Finishes-pure []) λ _.
            Finishes-bind _ _ (iat_value_at-Finishes plus image _) λ v.
              Finishes-bind _ _ (thunk_entry-Finishes plus thunk _ _ v) λ entry.
                Finishes-bind _ _
                  (let left = thunk_passes plus (length image) base i rounds h passed in
                    thunk_loop-Finishes rounds plus base first iat (i + 1) left.0 left.1)
                  λ rest. Finishes-pure _

  thunks_from-Finishes :
      (plus : Bool) (first : ℕ) (o : Option ℕ)
      → Finishes (thunks_from decode image sections plus first o)
  thunks_from-Finishes plus first none = Finishes-pure []
  thunks_from-Finishes plus first (some base) =
      thunk_loop-Finishes (suc (length image)) plus base first _ 0 (omega arith) (omega arith)

  pub parse_thunks-Finishes :
      (plus : Bool) (thunk first : ℕ)
      → Finishes (parse_thunks decode image sections plus thunk first)
  unfolding parse_thunks
  parse_thunks-Finishes plus thunk first =
      thunks_from-Finishes plus first (rva_to_offset thunk sections)

  descriptor_loop-Finishes :
      (rounds : ℕ) (plus : Bool) (bytes : Bytes) (i : ℕ)
      → length bytes < i * 20 + rounds
      → 0 < rounds
      → Finishes (descriptor_loop decode image sections rounds plus bytes i)
  unfolding descriptor_loop
  descriptor_loop-Finishes zero plus bytes i h some_round = absurd (omega arith)
  descriptor_loop-Finishes (suc rounds) plus bytes i h some_round =
      Finishes-if (ltb (length bytes) (i * 20 + 20)) _ _ (Finishes-pure []) λ passed.
        Finishes-bind _ _ (dword_at-Finishes bytes _) λ lookup.
          Finishes-bind _ _ (dword_at-Finishes bytes _) λ name.
            Finishes-bind _ _ (dword_at-Finishes bytes _) λ first.
              Finishes-if ((lookup == 0) && (name == 0) && (first == 0)) _ _ (Finishes-pure []) λ _.
                Finishes-bind _ _ (parse_thunks-Finishes plus _ first) λ entries.
                  Finishes-bind _ _
                    (descriptor_loop-Finishes rounds plus bytes (i + 1) (ground (arith, h, passed))
                      (ground (arith, h, passed)))
                    λ rest. Finishes-pure _

  pub parse_imports-Finishes :
      (plus : Bool) (bytes : Bytes) → Finishes (parse_imports decode image sections plus bytes)
  unfolding parse_imports
  parse_imports-Finishes plus bytes =
      descriptor_loop-Finishes (suc (length bytes)) plus bytes 0 (omega arith) (omega arith)

  text_found-Finishes :
      (count names ordinals i : ℕ) (found : Dict ℕ Text)
      → Finishes (export_names decode image sections count names ordinals i found)
  unfolding export_names
  text_found-Finishes zero names ordinals i found = Finishes-pure found
  text_found-Finishes (suc count) names ordinals i found =
      Finishes-bind _ _ (dword_at-Finishes image _) λ rva.
        Finishes-bind _ _ (word_at-Finishes image _)
          λ index. text_found-Finishes count names ordinals (i + 1) _

  names_table-Finishes :
      (count : ℕ) (names ordinals : Option ℕ)
      → Finishes (names_table decode image sections count names ordinals)
  names_table-Finishes count (some names) (some ordinals) =
      text_found-Finishes count names ordinals 0 []
  names_table-Finishes count (some names) none = Finishes-pure []
  names_table-Finishes count none ordinals = Finishes-pure []

  export_entries-Finishes :
      (count functions ordinal_base i : ℕ) (names : Dict ℕ Text) (rva size : ℕ)
      → Finishes
          (export_entries decode image sections count functions ordinal_base i names rva size)
  unfolding export_entries
  export_entries-Finishes zero functions ordinal_base i names rva size = Finishes-pure []
  export_entries-Finishes (suc count) functions ordinal_base i names rva size =
      Finishes-bind _ _ (dword_at-Finishes image _) λ address.
        Finishes-bind _ _
          (export_entries-Finishes count functions ordinal_base (i + 1) names rva size)
          λ rest. Finishes-pure _

  functions_from-Finishes :
      (name : Text) (base stamp functions names names_rva ordinals_rva rva size : ℕ)
      (eat : Option ℕ)
      → Finishes (
          functions_from decode image sections name base stamp functions names names_rva
            ordinals_rva rva size eat)
  functions_from-Finishes name base stamp functions names names_rva ordinals_rva rva size none =
      Finishes-pure _
  functions_from-Finishes name base stamp functions names names_rva ordinals_rva rva size
        (some eat) =
      Finishes-bind _ _ (names_table-Finishes names _ _) λ found.
        Finishes-bind _ _ (export_entries-Finishes functions eat base 0 found rva size)
          λ entries. Finishes-pure _

  pub parse_exports-Finishes :
      (bytes : Bytes) (rva size : ℕ) → Finishes (parse_exports decode image sections bytes rva size)
  unfolding parse_exports
  parse_exports-Finishes bytes rva size =
      Finishes-if (ltb (length bytes) 40) _ _ (Finishes-pure _)
        λ _. search (finishes_rules, functions_from-Finishes) depth 12
