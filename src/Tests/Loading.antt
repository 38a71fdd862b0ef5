-- ===== src/Tests/Loading.antt =====
-- The theorems on the loader at two DLLs that import each other.
use tew.Base.{
  ℕ, ◌<◌, ◌≡◌, ◌≢◌, ◌⊎◌, refl, if◌then◌else◌, Option, none, some, List, [], ◌∷◌, map, Text,
  text_same, codes, digits, ◌>>=◌, or_raise, pure, raise, ok, err, out_of_fuel, get, put, text_key,
  All, arith, subst, has_text, true, Bool-cases, inl, inr,
}
use tew.Ini.{lower, lower_char}
use tew.Pe.{ExeFile, RelocationEntry, parse_relocations}
use tew.Pe.Relocations.{PaddedBlock, IsBlock, table_bytes, parse_relocations_lem}
use tew.Loader.{
  LoaderState, ReservedRange, reserve_range, find_available_base, find_slot,
  is_address_range_available,
}
use tew.Loader.Images.{
  Process, Files, load_dll, get_loader, find_dll_file, attempt, load_image, lift, load_sections,
  apply_base_relocations, relocate_blocks, put_loader, resolve_imports, resolve_entries, add_dll,
  notify,
}
use tew.Loader.Imports.{build_exports}
use tew.Loader.Layout.{IsLaidOut, load_dll-IsLaidOut}
use tew.Loader.Ending.{unloaded, ImportsAmong, load_dll_ends}
use tew.Fs.{Host, split_last, strip_slashes, split, join, find_entry, find_from, find_file_ci}
use tew.Loader.Disk.{located}
use mathlib.Core.Option.{some-injective}
use tew.Loader.Slots.{Usable, SlotResult, find_available_base_lem}
use tew.Tests.Demo.{demo_native, demo_call}

abbrev pub first_dll : Text
first_dll = codes "a.dll"

abbrev second_dll : Text
second_dll = codes "b.dll"

abbrev image : ℕ → Text → ExeFile
image base imported = record {
  image_base = base;
  address_of_entry_point = 0x1000;
  sections = [];
  relocation_blocks = [];
  exports = record { ordinal = 1; rva = 0x1234; name = some (codes "Run"); forwarder = none } ∷ [];
  imports =
      record { dll_name = imported; entries = []; original_first_thunk = 0; first_thunk = 0 } ∷ [];
}

-- A directory with the two files, one under a name in upper case.
abbrev demo_host : Host
demo_host = record {
  exists = λ path. text_same path (codes "/dlls");
  listdir = λ path.
      if text_same path (codes "/dlls") then some (codes "A.DLL" ∷ second_dll ∷ []) else none;
}

abbrev demo_exe : Text → Option ExeFile
demo_exe path =
    if text_same path (codes "/dlls/A.DLL")
    then some (image 0x10000000 second_dll)
    else some (image 0x10000000 first_dll)

abbrev pub demo_dlls : Files
demo_dlls = record { find_file_ci = located demo_host; exe_file = demo_exe }

abbrev pub heap_range : ReservedRange
heap_range = record { label = codes "heap"; base_address = 0x04000000; end_address = 0x0FFFFFFF }

abbrev pub reserved_loader : LoaderState
reserved_loader = record {
  search_paths = codes "/dlls" ∷ [];
  loaded_dlls = [];
  address_mappings = [];
  reserved_ranges = heap_range ∷ [];
  dll_iat_entries = [];
  not_found = [];
  iat_patch_cursor = 0;
}

abbrev loading : Process ℕ
loading = record { loader = reserved_loader; world = demo_call [] }

reserved_loader-IsLaidOut : IsLaidOut reserved_loader
reserved_loader-IsLaidOut = record { apart = tt; clear = tt }

load_dll-IsLaidOut_example :
    IsLaidOut ((load_dll ⦃lib = demo_native⦄ none demo_dlls 3 first_dll loading).1.loader)
load_dll-IsLaidOut_example =
    load_dll-IsLaidOut ⦃lib = demo_native⦄ none demo_dlls 3 first_dll loading (λ f dll q e. cc)
      reserved_loader-IsLaidOut

two_names : ImportsAmong (first_dll ∷ second_dll ∷ []) demo_dlls
unfolding lower lower_char
two_names path exe e = elim (Bool-cases (text_same path (codes "/dlls/A.DLL"))) [
  | inl first ↦ imported second_dll refl (some-injective _ _ (ground (arith, e, first)))
  | inr other ↦ imported first_dll refl (some-injective _ _ (ground (arith, e, other)))
]
  where
    imported :
        (name : Text)
        → has_text (lower name) (first_dll ∷ second_dll ∷ []) ≡ true
        → image 0x10000000 name ≡ exe
        → All (λ d. has_text (lower d.dll_name) (first_dll ∷ second_dll ∷ []) ≡ true) exe.imports
    imported name known same =
        subst
          (λ x.
            All (λ d. has_text (lower d.dll_name) (first_dll ∷ second_dll ∷ []) ≡ true) x.imports)
          same (known, tt)

first_known : has_text (lower first_dll) (first_dll ∷ second_dll ∷ []) ≡ true
unfolding lower lower_char
first_known = refl

two_unloaded : unloaded (first_dll ∷ second_dll ∷ []) [] < 3
unfolding unloaded get
two_unloaded = omega arith

load_dll_ends_example :
    (load_dll ⦃lib = demo_native⦄ none demo_dlls 3 first_dll loading).0 ≢ err out_of_fuel
load_dll_ends_example =
    load_dll_ends ⦃lib = demo_native⦄ none demo_dlls (first_dll ∷ second_dll ∷ []) 3 first_dll
      loading two_names first_known (λ f dll k e. cc) two_unloaded

-- The second DLL wants the place of the first, and gets the next slot.
loaded_bases :
    map
      (λ m. m.base_address)
      ((load_dll ⦃lib = demo_native⦄ none demo_dlls 3 first_dll loading).1.loader.address_mappings)
    ≡ 0x10000000 ∷ 0x11000000 ∷ []
unfolding load_dll ◌>>=◌ get_loader get find_dll_file lower lower_char attempt or_raise load_image
    find_available_base is_address_range_available lift load_sections pure apply_base_relocations
    put_loader resolve_imports raise put digits add_dll notify resolve_entries build_exports
    find_slot relocate_blocks located find_file_ci find_from split split_last strip_slashes join
    find_entry
loaded_bases = refl

find_available_base_lem_example :
    (Usable reserved_loader 0x04000000
      × (find_available_base 0x04000000 reserved_loader ≡ some 0x04000000))
    ⊎ ((¬ Usable reserved_loader 0x04000000)
        × SlotResult reserved_loader 0x10000000 (find_available_base 0x04000000 reserved_loader))
find_available_base_lem_example = find_available_base_lem 0x04000000 reserved_loader

-- The stacks of the threads, beside the heap.
abbrev two_ranges : LoaderState
two_ranges = record reserved_loader {
  reserved_ranges =
      heap_range
      ∷ record { label = codes "stacks"; base_address = 0x02000000; end_address = 0x03FFFFFF }
      ∷ [];
}

reserved_stacks :
    reserve_range (codes "stacks") 0x02000000 0x03FFFFFF reserved_loader ≡ ok two_ranges
unfolding reserve_range
reserved_stacks = refl

-- Two relocations in a page, and one in the next with an entry of padding.
abbrev entry : ℕ → RelocationEntry
entry offset = record { kind = 3; offset = offset }

abbrev demo_blocks : List PaddedBlock
demo_blocks =
    (record { page_rva = 0x1000; entries = entry 4 ∷ entry 0xFF8 ∷ [] }, 0)
    ∷ (record { page_rva = 0x2000; entries = entry 0 ∷ [] }, 1)
    ∷ []

demo_blocks-AllBlocks : All IsBlock demo_blocks
demo_blocks-AllBlocks = omega arith

parse_relocations_lem_example :
    parse_relocations (table_bytes demo_blocks) tt ≡ (ok (map (λ p. p.0) demo_blocks), tt)
parse_relocations_lem_example = parse_relocations_lem demo_blocks demo_blocks-AllBlocks
