-- ===== src/Tests/Profiles.antt =====
-- The theorems on profile files at concrete files.
use tew.Base.{ℕ, ◌≡◌, refl, false, none, some, [], ◌∷◌, Text, if◌then◌else◌, get, put}
use tew.Ini.{
  IniData, parse_ini, serialise_ini, lower, is_break, is_space, strip_end, parse_lines, split_lines,
  strip, strip_start, parse_pair, split_at, set_value, open_section, lower_char,
}
use tew.Ini.Parsed.{IsIni, IsPlain}
use tew.Ini.Written.{parse_ini-serialise_ini}
use tew.Ini.Edited.{IsEdit, covers, new_value}
use tew.Ini.Disk.{
  contents, setting, write_profile_string, read_ini_from_disk, read-write_profile_string,
}

-- [V] / M=3 / ;n / s = a b
abbrev typed_text : Text
typed_text =
    91 ∷ 86 ∷ 93 ∷ 13 ∷ 10 ∷ 77 ∷ 61 ∷ 51 ∷ 13 ∷ 10 ∷ 59 ∷ 110 ∷ 10 ∷ 115 ∷ 32 ∷ 61 ∷ 32 ∷ 97 ∷ 32
    ∷ 98 ∷ []

abbrev video : IniData
video = (118 ∷ [], (109 ∷ [], 51 ∷ []) ∷ (115 ∷ [], 97 ∷ 32 ∷ 98 ∷ []) ∷ []) ∷ []

typed_text_parsed : parse_ini typed_text ≡ video
unfolding parse_ini parse_lines split_lines is_break is_space strip strip_end strip_start parse_pair
    split_at set_value put open_section get lower lower_char
typed_text_parsed = refl

letter-IsPlain : (c : ℕ) → is_break c ≡ false → is_space c ≡ false → IsPlain (c ∷ [])
unfolding strip_end
letter-IsPlain c b s = record {
  trimmed = record { start = s; stop = rw s refl };
  unbroken = (b, tt);
}

phrase-IsPlain : IsPlain (97 ∷ 32 ∷ 98 ∷ [])
unfolding strip_end is_break is_space
phrase-IsPlain = record {
  trimmed = record { start = refl; stop = refl };
  unbroken = (refl, (refl, (refl, tt)));
}

video-IsIni : IsIni video
unfolding is_break is_space lower lower_char
video-IsIni = record {
  sections = (
    record {
      name = record { plain = letter-IsPlain 118 refl refl; small = refl; unclosed = (refl, tt) };
      pairs = (
        (
          record {
            plain = letter-IsPlain 109 refl refl;
            small = refl;
            unequal = (refl, tt);
            opens = refl;
          },
          letter-IsPlain 51 refl refl,
        ),
        (
          (
            record {
              plain = letter-IsPlain 115 refl refl;
              small = refl;
              unequal = (refl, tt);
              opens = refl;
            },
            phrase-IsPlain,
          ),
          tt,
        ),
      );
      distinct = ((refl, tt), (tt, tt));
    },
    tt,
  );
  distinct = (tt, tt);
}

parse_ini-serialise_ini_example : parse_ini (serialise_ini video) ≡ video
parse_ini-serialise_ini_example = parse_ini-serialise_ini video video-IsIni

typed_file-IsIni : IsIni (read_ini_from_disk (contents typed_text))
unfolding read_ini_from_disk
typed_file-IsIni = rw typed_text_parsed video-IsIni

letters-IsEdit : IsEdit (86 ∷ []) (some (77 ∷ [])) (some (97 ∷ 32 ∷ 98 ∷ []))
unfolding is_break is_space lower lower_char
letters-IsEdit = (
  record { plain = letter-IsPlain 118 refl refl; small = refl; unclosed = (refl, tt) },
  record { plain = letter-IsPlain 109 refl refl; small = refl; unequal = (refl, tt); opens = refl },
  phrase-IsPlain,
)

-- the value of M in the file that holds `typed_text`, after it is set to "a b"
read-write_profile_string_example :
    (setting
        (write_profile_string none
          (contents typed_text)
          (some (86 ∷ []))
          (some (77 ∷ []))
          (some (97 ∷ 32 ∷ 98 ∷ []))).1
        (118 ∷ [])
        (109 ∷ [])
        []
      ≡ (if covers (86 ∷ []) (some (77 ∷ [])) (118 ∷ []) (109 ∷ [])
          then new_value (some (77 ∷ [])) (some (97 ∷ 32 ∷ 98 ∷ [])) []
          else setting (contents typed_text) (118 ∷ []) (109 ∷ []) []))
    × IsIni (
        read_ini_from_disk
          (write_profile_string none
            (contents typed_text)
            (some (86 ∷ []))
            (some (77 ∷ []))
            (some (97 ∷ 32 ∷ 98 ∷ []))).1)
read-write_profile_string_example =
    read-write_profile_string (contents typed_text) (86 ∷ []) (some (77 ∷ []))
      (some (97 ∷ 32 ∷ 98 ∷ [])) (118 ∷ []) (109 ∷ []) [] typed_file-IsIni letters-IsEdit
