-- ===== src/Ini.antt =====
-- Profile files: tew/api/ini_file.py. A text is its code points, all below 256, since the files are read
-- and written as latin-1; `lower`, `strip` and `splitlines` are Python's on that range.
pub mod Lines
pub mod Parsed
pub mod Written
pub mod Edited
pub mod Disk
use tew.Base.{
  ℕ, ◌+◌, ltb, leb, ◌==◌, if◌then◌else◌, Bool, true, false, not, ◌&&◌, ◌||◌, Option, none, some,
  List, [], ◌∷◌, ◌++◌, map, Dict, Text, text_key, get, put, pop, get_or,
}

abbrev pub IniData : Type 0
IniData = Dict Text (Dict Text Text)

abbrev in_range : ℕ → ℕ → ℕ → Bool
in_range a b c = leb a c && leb c b

-- str.isspace of one character
unfoldable pub is_space : ℕ → Bool
is_space c = in_range 9 13 c || in_range 28 32 c || (c == 0x85) || (c == 0xA0)

-- the characters that end a line for splitlines
unfoldable pub is_break : ℕ → Bool
is_break c = in_range 10 13 c || in_range 28 30 c || (c == 0x85)

unfoldable pub lower_char : ℕ → ℕ
lower_char c = if in_range 65 90 c || (in_range 0xC0 0xDE c && not (c == 0xD7)) then c + 32 else c

unfoldable pub lower : Text → Text
lower t = map lower_char t

abbrev pub push : ℕ → List Text → List Text
push c [] = (c ∷ []) ∷ []
push c (l ∷ ls) = (c ∷ l) ∷ ls

-- str.splitlines; `after_cr` after a carriage return, whose line feed ends no further line
unfoldable pub split_lines : Bool → Text → List Text
split_lines after_cr [] = []
split_lines after_cr (c ∷ cs) =
    let rest = split_lines false cs in
    let ended = split_lines (c == 13) cs in
    if after_cr && (c == 10) then rest else if is_break c then [] ∷ ended else push c rest

unfoldable pub strip_start : Text → Text
strip_start [] = []
strip_start (c ∷ cs) = let rest = strip_start cs in if is_space c then rest else c ∷ cs

abbrev pub is_empty : Text → Bool
is_empty [] = true
is_empty (c ∷ cs) = false

unfoldable pub strip_end : Text → Text
strip_end [] = []
strip_end (c ∷ cs) = let rest = strip_end cs in if is_empty rest && is_space c then [] else c ∷ rest

unfoldable pub strip : Text → Text
strip t = strip_end (strip_start t)

-- line[:line.index(sep)] and what is after it; `none` where `sep` is not in the line
unfoldable pub split_at : ℕ → Text → Option (Text × Text)
split_at sep [] = none
split_at sep (c ∷ cs) =
    let rest = split_at sep cs in
    if c == sep then some ([], cs) else elim rest [ none ↦ none | some (a, b) ↦ some (c ∷ a, b) ]

-- result[section][key] = value, of a section that is there
unfoldable pub set_value : Text → Text → Text → IniData → IniData
set_value section key value ini = put section (put key value (get_or (get section ini) [])) ini

-- if section not in result: result[section] = {}
unfoldable pub open_section : Text → IniData → IniData
open_section section ini = elim (get section ini) [ none ↦ put section [] ini | some keys ↦ ini ]

abbrev pub starts_with : ℕ → Text → Bool
starts_with c [] = false
starts_with c (x ∷ xs) = x == c

-- the section header, if the line is one
abbrev pub header_of : Text → Option Text
header_of [] = none
header_of (c ∷ cs) =
    if c == 91
    then elim (split_at 93 cs) [ none ↦ none | some (name, rest) ↦ some (lower (strip name)) ]
    else none

-- result[section][key.strip().lower()] = value.strip()
abbrev pub store_pair : Text → IniData → Option (Text × Text) → IniData
store_pair section ini none = ini
store_pair section ini (some (key, value)) = set_value section (lower (strip key)) (strip value) ini

-- a key and its value, inside a section
unfoldable pub parse_pair : Text → IniData → Option Text → IniData
parse_pair line ini none = ini
parse_pair line ini (some section) = store_pair section ini (split_at 61 line)

abbrev pub step_line : Text → IniData → Option Text → IniData × Option Text
step_line line ini current =
    if is_empty line || (starts_with 59 line || starts_with 35 line)
    then (ini, current)
    else elim (header_of line) [
      | none ↦ (parse_pair line ini current, current)
      | some section ↦ (open_section section ini, some section)
    ]

unfoldable pub parse_lines : List Text → IniData → Option Text → IniData × Option Text
parse_lines [] ini current = (ini, current)
parse_lines (l ∷ ls) ini current =
    let next = step_line (strip l) ini current in parse_lines ls next.0 next.1

unfoldable pub parse_ini : Text → IniData
parse_ini text = (parse_lines (split_lines false text) [] none).0

-- sep.join(parts)
unfoldable pub join : ℕ → List Text → Text
join sep [] = []
join sep (l ∷ []) = l
join sep (l ∷ m ∷ ls) = l ++ sep ∷ join sep (m ∷ ls)

unfoldable pub keys : {V : Type 0} → Dict Text V → List Text
keys [] = []
keys ((k, v) ∷ d) = k ∷ keys d

unfoldable pub read_profile_string : IniData → Option Text → Option Text → Text → Text
read_profile_string ini none key default = join 0 (keys ini)
read_profile_string ini (some app) none default = join 0 (keys (get_or (get (lower app) ini) []))
read_profile_string ini (some app) (some key) default =
    get_or (get (lower key) (get_or (get (lower app) ini) [])) default

unfoldable pub pair_line : Text × Text → Text
pair_line (k, v) = k ++ 61 ∷ v

unfoldable pub section_lines : Text × Dict Text Text → List Text
section_lines (section, pairs) = (91 ∷ section ++ 93 ∷ []) ∷ (map pair_line pairs ++ [] ∷ [])

unfoldable pub all_lines : IniData → List Text
all_lines [] = []
all_lines (s ∷ ini) = section_lines s ++ all_lines ini

unfoldable pub serialise_ini : IniData → Text
serialise_ini ini = join 10 (all_lines ini)

-- The part of write_profile_string between the reading and the writing of the file.
unfoldable pub edit_profile : Text → Option Text → Option Text → IniData → IniData
edit_profile app none value ini = pop (lower app) ini
edit_profile app (some key) none ini = elim (get (lower app) ini) [
  | none ↦ ini
  | some pairs ↦ put (lower app) (pop (lower key) pairs) ini
]
edit_profile app (some key) (some value) ini =
    set_value (lower app) (lower key) value (open_section (lower app) ini)

-- write_profile_section, likewise
unfoldable pub edit_section : Text → Dict Text Text → IniData → IniData
edit_section app pairs ini = put (lower app) pairs ini
