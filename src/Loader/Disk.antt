-- ===== src/Loader/Disk.antt =====
-- The files that the loader finds, from what the host's file system gives: tew/loader/dll_loader.py with
-- tew/fs.py and
-- the parser of tew/pe/exe_file.py.
use tew.Base.{Option, none, some, Text, Result, ok, err}
use tew.Pe.{ExeFile}
use tew.Pe.Sections.{Bytes}
use tew.Pe.Exe.{Executable, parse_exe, exe_file}
use tew.Fs.{Host, join, find_file_ci}
use tew.Loader.Images.{Files}

abbrev parsed : Result Executable → Option ExeFile
parsed (ok e) = some (exe_file e)
parsed (err e) = none

-- Path.read_bytes, where it does not raise.
abbrev read_exe : (Bytes → Text) → Option Bytes → Option ExeFile
read_exe decode none = none
read_exe decode (some image) = parsed (parse_exe decode image tt).0

-- The search does not raise.
abbrev found : Result (Option Text) → Option Text
found (ok path) = path
found (err e) = none

-- find_file_ci(os.path.join(dir, name))
unfoldable pub located : Host → Text → Text → Option Text
located host dir name = found (find_file_ci host (join dir name))

unfoldable pub disk_files : Host → (Text → Option Bytes) → (Bytes → Text) → Files
disk_files host read_bytes decode = record {
  find_file_ci = located host;
  exe_file = λ path. read_exe decode (read_bytes path);
}
