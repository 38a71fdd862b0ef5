-- ===== src/Ini/Disk.antt =====
-- The file behind the profile data: _read_ini_from_disk, _write_ini_to_disk, write_profile_string and
-- write_profile_section of tew/api/ini_file.py. What the host does to the file is a parameter.
use tew.Base.{◌≡◌, Bool, true, false, Option, none, some, [], Dict, Text, if◌then◌else◌}
use tew.Ini.{IniData, parse_ini, serialise_ini, edit_profile, edit_section, read_profile_string}
use tew.Ini.Parsed.{IsIni}
use tew.Ini.Written.{parse_ini-serialise_ini}
use tew.Ini.Edited.{IsEdit, edit_profile-IsIni, covers, new_value, read-edit_profile}

pub data IniFile : Type 0 where
  absent : IniFile
  unreadable : IniFile
  contents : Text → IniFile

unfoldable pub read_ini_from_disk : IniFile → IniData
read_ini_from_disk absent = []
read_ini_from_disk unreadable = []
read_ini_from_disk (contents text) = parse_ini text

-- `failed` is what a write that fails leaves of the file.
unfoldable pub write_ini_to_disk : Option IniFile → IniData → Bool × IniFile
write_ini_to_disk none ini = (true, contents (serialise_ini ini))
write_ini_to_disk (some left) ini = (false, left)

unfoldable pub write_profile_string :
    Option IniFile → IniFile → Option Text → Option Text → Option Text → Bool × IniFile
write_profile_string failed file none key value = (false, file)
write_profile_string failed file (some app) key value =
    write_ini_to_disk failed (edit_profile app key value (read_ini_from_disk file))

unfoldable pub write_profile_section :
    Option IniFile → IniFile → Option Text → Dict Text Text → Bool × IniFile
write_profile_section failed file none pairs = (false, file)
write_profile_section failed file (some app) pairs =
    write_ini_to_disk failed (edit_section app pairs (read_ini_from_disk file))

-- What a file says of a key of a section.
abbrev pub setting : IniFile → Text → Text → Text → Text
setting file app key default =
    read_profile_string (read_ini_from_disk file) (some app) (some key) default

-- Where a file holds data that can be written as it stands, and the names and the value of a
-- write_profile_string can be too, then after a write that does not fail the file gives, for every
-- section and key: the new value, or the default if it was deleted, where the write is about that
-- key of that section, or about the whole section; and what it gave before everywhere else. The file
-- then holds data that can be written as it stands.
pub read-write_profile_string :
    (file : IniFile) (app : Text) (key value : Option Text) (a k default : Text)
    → IsIni (read_ini_from_disk file)
    → IsEdit app key value
    → (setting (write_profile_string none file (some app) key value).1 a k default
        ≡ (if covers app key a k then new_value key value default else setting file a k default))
      × IsIni (read_ini_from_disk (write_profile_string none file (some app) key value).1)
unfolding write_profile_string write_ini_to_disk read_ini_from_disk
read-write_profile_string file app key value a k default h e =
    let old = read_ini_from_disk file in
    let valid = edit_profile-IsIni app key value old e h in
    let same = parse_ini-serialise_ini (edit_profile app key value old) valid in
    (rw same (read-edit_profile app key value old a k default), rw same valid)
