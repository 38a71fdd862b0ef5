-- ===== src/Pe/Relocations.antt =====
-- The format of base relocation tables, which tew/pe/base_relocation_table.py reads.
use tew.Base.{
  ℕ, zero, suc, ◌+◌, ◌-◌, ◌*◌, ◌/◌, ◌%◌, ◌^◌, ◌≤◌, ◌<◌, ◌≡◌, refl, ap, ◌∙◌, ap₂, Exec, ok, proceed,
  ◌>>=◌, pure, List, [], ◌∷◌, ◌++◌, map, length, length-append, drop, All, arith,
}
use tew.Pe.{
  RelocationEntry, RelocationBlock, unpack32, parse_entries, parse_blocks, parse_relocations,
}

-- A number in two and in four bytes, the lowest first.
abbrev pub pack16 : ℕ → List ℕ
pack16 v = v % 256 ∷ v / 256 ∷ []

abbrev pub pack32 : ℕ → List ℕ
pack32 v = v % 256 ∷ v / 256 % 256 ∷ v / 65536 % 256 ∷ v / 2 ^ 24 ∷ []

pub record IsEntry (e : RelocationEntry) : Type 0 where
  pub nonzero : 0 < e.kind
  pub small : e.kind < 16
  pub within_page : e.offset < 2 ^ 12

-- A block and the number of padding entries after its own.
abbrev pub PaddedBlock : Type 0
PaddedBlock = RelocationBlock × ℕ

unfoldable pub entry_bytes : List RelocationEntry → ℕ → List ℕ
entry_bytes [] zero = []
entry_bytes [] (suc padding) = 0 ∷ 0 ∷ entry_bytes [] padding
entry_bytes (e ∷ es) padding = pack16 (e.kind * 2 ^ 12 + e.offset) ++ entry_bytes es padding

abbrev pub block_size : PaddedBlock → ℕ
block_size (b, padding) = 8 + 2 * (length b.entries + padding)

abbrev pub block_bytes : PaddedBlock → List ℕ
block_bytes (b, padding) =
    pack32 b.page_rva ++ pack32 (block_size (b, padding)) ++ entry_bytes b.entries padding

unfoldable pub table_bytes : List PaddedBlock → List ℕ
table_bytes [] = []
table_bytes (b ∷ bs) = block_bytes b ++ table_bytes bs

pub record IsBlock (p : PaddedBlock) : Type 0 where
  pub page : p.0.page_rva < 2 ^ 32
  pub size : block_size p < 2 ^ 32
  pub each : All IsEntry p.0.entries

-- The number of entries with the padding.
abbrev stored : List RelocationEntry → ℕ → ℕ
stored [] padding = padding
stored (e ∷ es) padding = suc (stored es padding)

length-stored : (es : List RelocationEntry) (padding : ℕ) → stored es padding ≡ length es + padding
length-stored [] padding = omega arith
length-stored (e ∷ es) padding = omega (arith, length-stored es padding)

parse_padding :
    (padding : ℕ) (rest : List ℕ) → parse_entries padding (entry_bytes [] padding ++ rest) ≡ []
unfolding parse_entries entry_bytes
parse_padding zero rest = refl
parse_padding (suc padding) rest = ground (arith, parse_padding padding rest)

parse_entry :
    (kind offset count : ℕ) (rest : List ℕ)
    → 0 < kind
    → kind < 16
    → offset < 2 ^ 12
    → parse_entries (suc count) (pack16 (kind * 2 ^ 12 + offset) ++ rest)
      ≡ record { kind = kind; offset = offset } ∷ parse_entries count rest
unfolding parse_entries
parse_entry kind offset count rest p k o = ground arith

parse_entries_lem :
    (es : List RelocationEntry) (padding : ℕ) (rest : List ℕ)
    → All IsEntry es
    → parse_entries (stored es padding) (entry_bytes es padding ++ rest) ≡ es
unfolding entry_bytes
parse_entries_lem [] padding rest h = parse_padding padding rest
parse_entries_lem (e ∷ es) padding rest h =
    parse_entry e.kind e.offset (stored es padding) (entry_bytes es padding ++ rest) h.0.nonzero
      h.0.small h.0.within_page
    ∙ ap (λ l. e ∷ l) (parse_entries_lem es padding rest h.1)

length-entry_bytes :
    (es : List RelocationEntry) (padding : ℕ)
    → length (entry_bytes es padding) ≡ 2 * (length es + padding)
unfolding entry_bytes
length-entry_bytes [] zero = refl
length-entry_bytes [] (suc padding) = omega (arith, length-entry_bytes [] padding)
length-entry_bytes (e ∷ es) padding = omega (arith, length-entry_bytes es padding)

drop-length : {A : Type 0} (xs ys : List A) → drop (length xs) (xs ++ ys) ≡ ys
drop-length [] ys = refl
drop-length (x ∷ xs) ys = drop-length xs ys

drop_all : {A : Type 0} (xs ys : List A) (n : ℕ) → n ≡ length xs → drop n (xs ++ ys) ≡ ys
drop_all xs ys n e = rw e (drop-length xs ys)

unpack32-pack32 : (v : ℕ) (rest : List ℕ) → v < 2 ^ 32 → unpack32 (pack32 v ++ rest) ≡ v
unpack32-pack32 v rest h = omega arith

-- A block before those that `m` reads.
abbrev before :
    RelocationBlock
    → Exec (Unit {0}) (List RelocationBlock)
    → Exec (Unit {0}) (List RelocationBlock)
before b m = do rest ← m; pure (b ∷ rest)

parse_blocks_step :
    (size rounds : ℕ) (bytes : List ℕ)
    → unpack32 (drop 4 bytes) ≡ size
    → 8 ≤ length bytes
    → 8 ≤ size
    → parse_blocks (suc rounds) bytes
      ≡ before
          (record {
            page_rva = unpack32 bytes;
            entries = parse_entries ((size - 8) / 2) (drop 8 bytes);
          })
          (parse_blocks rounds (drop size bytes))
unfolding parse_blocks
parse_blocks_step size rounds bytes e long big = rw⁻¹ e (ground (arith, e, long, big))

rebuilt :
    (b : RelocationBlock) (page : ℕ) (es : List RelocationEntry)
    (rest rest' : Exec (Unit {0}) (List RelocationBlock))
    → page ≡ b.page_rva
    → es ≡ b.entries
    → rest ≡ rest'
    → before (record { page_rva = page; entries = es }) rest ≡ before b rest'
rebuilt b page es rest rest' p e r =
    let same : record { page_rva = page; entries = es } ≡ b = cc in ap₂ before same r

-- One block, and the rest of the table.
parse_block :
    (b : PaddedBlock) (rounds : ℕ) (rest : List ℕ)
    → IsBlock b
    → parse_blocks (suc rounds) (block_bytes b ++ rest) ≡ before b.0 (parse_blocks rounds rest)
parse_block (b, padding) rounds rest h =
    let size = block_size (b, padding) in
    let bytes = block_bytes (b, padding) ++ rest in
    parse_blocks_step size rounds bytes (omega (arith, h.size)) (omega arith) (omega arith)
    ∙ rebuilt b (unpack32 bytes) _ _ _ (omega (arith, h.page)) entries
        (ap (parse_blocks rounds) (drop_all (block_bytes (b, padding)) rest size same_length))
  where
    count : (block_size (b, padding) - 8) / 2 ≡ stored b.entries padding
    count = omega (arith, length-stored b.entries padding)

    entries :
        parse_entries ((block_size (b, padding) - 8) / 2) (entry_bytes b.entries padding ++ rest)
        ≡ b.entries
    entries =
        ap (λ n. parse_entries n (entry_bytes b.entries padding ++ rest)) count
        ∙ parse_entries_lem b.entries padding rest h.each

    same_length : block_size (b, padding) ≡ length (block_bytes (b, padding))
    same_length = omega (arith, length-entry_bytes b.entries padding)

table_read :
    (bs : List PaddedBlock) (rounds : ℕ)
    → All IsBlock bs
    → length bs < rounds
    → parse_blocks rounds (table_bytes bs) tt ≡ (ok (map (λ p. p.0) bs), tt)
unfolding table_bytes parse_blocks pure ◌>>=◌
table_read [] zero h le = absurd (omega arith)
table_read [] (suc rounds) h le = refl
table_read (b ∷ bs) zero h le = absurd (omega arith)
table_read (b ∷ bs) (suc rounds) h le =
    ap (λ m. m tt) (parse_block b rounds (table_bytes bs) h.0)
    ∙ ap (λ r. proceed r (λ rest. pure (b.0 ∷ rest))) (table_read bs rounds h.1 (omega arith))

blocks-length : (bs : List PaddedBlock) → length bs ≤ length (table_bytes bs)
unfolding table_bytes
blocks-length [] = omega arith
blocks-length (b ∷ bs) =
    omega (arith, length-append (block_bytes b) (table_bytes bs), blocks-length bs)

-- A base relocation table with any padding after the entries of a block is read as its blocks: all of
-- them, in their order, each with its page and its entries.
pub parse_relocations_lem :
    (bs : List PaddedBlock)
    → All IsBlock bs
    → parse_relocations (table_bytes bs) tt ≡ (ok (map (λ p. p.0) bs), tt)
unfolding parse_relocations
parse_relocations_lem bs h =
    table_read bs (suc (length (table_bytes bs))) h (omega (arith, blocks-length bs))
