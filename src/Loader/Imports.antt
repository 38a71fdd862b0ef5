-- ===== src/Loader/Imports.antt =====
-- What a DLL exports and where an import is found, for load_dll of tew/loader/dll_loader.py.
use tew.Base.{
  ℕ, ◌+◌, ◌==◌, Bool, false, not, ◌&&◌, ◌||◌, if◌then◌else◌, Option, none, some, List, [], ◌∷◌,
  Dict, Text, text_key, get, put, text_same, has_prefix, codes,
}
use tew.Ini.{lower}
use tew.Pe.{ExportEntry, ordinal_key}
use tew.Loader.{LoadedDll}

-- if exp.name: exports[exp.name] = ...
abbrev pub export_name : Option Text → ℕ → Dict Text ℕ → Dict Text ℕ
export_name none addr d = d
export_name (some []) addr d = d
export_name (some (c ∷ cs)) addr d = put (c ∷ cs) addr d

unfoldable pub build_exports : ℕ → List ExportEntry → Dict Text ℕ → Dict Text ℕ
build_exports base [] d = d
build_exports base (e ∷ es) d =
    build_exports base es
      (put (ordinal_key e.ordinal) (base + e.rva) (export_name e.name (base + e.rva) d))

abbrev pub forwarding_map : List (Text × List Text)
forwarding_map =
    (codes "api-ms-win-core-rtlsupport", codes "ntdll" ∷ codes "kernel32" ∷ [])
    ∷ (codes "api-ms-win-core-processthreads", codes "kernel32" ∷ codes "ntdll" ∷ [])
    ∷ (codes "api-ms-win-core-synch", codes "kernel32" ∷ codes "ntdll" ∷ [])
    ∷ (codes "api-ms-win-core-file", codes "kernel32" ∷ codes "ntdll" ∷ [])
    ∷ (codes "api-ms-win-core-memory", codes "kernel32" ∷ codes "ntdll" ∷ [])
    ∷ (codes "api-ms-win-core-heap", codes "kernel32" ∷ codes "ntdll" ∷ [])
    ∷ (codes "api-ms-win-core-registry", codes "advapi32" ∷ codes "kernel32" ∷ [])
    ∷ (codes "api-ms-win-core-io", codes "kernel32" ∷ codes "ntdll" ∷ [])
    ∷ (codes "api-ms-win-core-handle", codes "kernel32" ∷ codes "ntdll" ∷ [])
    ∷ (codes "api-ms-win-core-errorhandling", codes "kernel32" ∷ codes "ntdll" ∷ [])
    ∷ (codes "api-ms-win-core-string", codes "kernel32" ∷ codes "ntdll" ∷ [])
    ∷ (codes "api-ms-win-core-localization", codes "kernel32" ∷ codes "ntdll" ∷ [])
    ∷ (codes "api-ms-win-core-sysinfo", codes "kernel32" ∷ codes "ntdll" ∷ [])
    ∷ (codes "api-ms-win-core-datetime", codes "kernel32" ∷ codes "ntdll" ∷ [])
    ∷ (codes "api-ms-win-core-libraryloader", codes "kernel32" ∷ codes "ntdll" ∷ [])
    ∷ (codes "api-ms-win-core-console", codes "kernel32" ∷ [])
    ∷ (codes "api-ms-win-security-", codes "advapi32" ∷ codes "ntdll" ∷ [])
    ∷ (codes "api-ms-win-crt-", codes "msvcrt" ∷ [])
    ∷ (codes "api-ms-win-shell-", codes "shell32" ∷ codes "kernel32" ∷ [])
    ∷ (codes "api-ms-win-mm-", codes "winmm" ∷ codes "kernel32" ∷ [])
    ∷ (codes "api-ms-win-gdi-", codes "gdi32" ∷ codes "kernel32" ∷ [])
    ∷ []

unfoldable pub candidates_in : List (Text × List Text) → Text → List Text
candidates_in [] name = codes "kernel32" ∷ codes "ntdll" ∷ []
candidates_in ((prefix, dlls) ∷ rest) name =
    if has_prefix prefix name then dlls else candidates_in rest name

unfoldable pub forwarding_candidates : Text → List Text
forwarding_candidates name = candidates_in forwarding_map (lower name)

abbrev pub api_set : Text
api_set = codes "api-ms-win-"

-- exports.get(name), where an address of 0 counts as missing
abbrev pub found_address : Option ℕ → Option ℕ
found_address none = none
found_address (some a) = if a == 0 then none else some a

abbrev pub export_of : Text → Option LoadedDll → Option ℕ
export_of name none = none
export_of name (some dll) = found_address (get name dll.exports)

unfoldable pub search_candidates : Text → Dict Text LoadedDll → List Text → Option ℕ
search_candidates name dlls [] = none
search_candidates name dlls (c ∷ cs) = elim (export_of name (get (lower c) dlls)) [
  | none ↦ search_candidates name dlls cs
  | some a ↦ some a
]

unfoldable pub search_loaded : Text → Text → Dict Text LoadedDll → Option ℕ
search_loaded key name [] = none
search_loaded key name ((loaded_name, dll) ∷ dlls) =
    let rest = search_loaded key name dlls in
    if has_prefix api_set loaded_name || text_same loaded_name key
    then rest
    else elim (found_address (get name dll.exports)) [ none ↦ rest | some a ↦ some a ]

abbrev pub own_export : Text → Option LoadedDll → Option ℕ
own_export name none = none
own_export name (some dll) = get name dll.exports

-- import_addr of one entry, in the DLL `key` that imports it from `from_dll`
unfoldable pub resolve_import :
    Text → Text → Text → Option LoadedDll → Dict Text LoadedDll → Option ℕ
resolve_import key from_dll name imported dlls = elim (own_export name imported) [
  | some a ↦ some a
  | none ↦
      if has_prefix api_set from_dll
      then elim (search_candidates name dlls (forwarding_candidates from_dll)) [
        | some a ↦ some a
        | none ↦ search_loaded key name dlls
      ]
      else none
]

abbrev pub should_invoke_dependency_dllmain : Bool → Option LoadedDll → Bool → Bool
should_invoke_dependency_dllmain dep_was_loaded none callback = false
should_invoke_dependency_dllmain dep_was_loaded (some dll) callback =
    not dep_was_loaded && not (dll.entry_point == 0) && callback
