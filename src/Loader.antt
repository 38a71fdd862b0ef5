-- ===== src/Loader.antt =====
-- The address space of the loader: DLLLoader of tew/loader/dll_loader.py without the loading itself.
pub mod Images
pub mod Imports
pub mod Meets
pub mod Within
pub mod Loads
pub mod Layout
pub mod Ending
pub mod Slots
pub mod Disk
use tew.Base.{
  ℕ, zero, suc, ◌+◌, ◌-◌, ◌≤◌, ◌<◌, ltb, leb, Bool, true, false, not, ◌&&◌, ◌||◌, if◌then◌else◌,
  Option, none, some, List, [], ◌∷◌, ◌++◌, Dict, Text, get, text_key, has_text, codes, Result, ok,
  err, value_error, runtime_error,
}

pub record LoadedDll : Type 0 where
  pub name : Text
  pub base_address : ℕ
  pub size : ℕ
  pub exports : Dict Text ℕ
  pub entry_point : ℕ

-- Both ends belong to the range.
pub record AddressMapping : Type 0 where
  pub dll_name : Text
  pub base_address : ℕ
  pub end_address : ℕ

pub record ReservedRange : Type 0 where
  pub label : Text
  pub base_address : ℕ
  pub end_address : ℕ

pub record DllIatEntry : Type 0 where
  pub iat_addr : ℕ
  pub dll_name : Text
  pub imported_dll_name : Text
  pub func_name : Text

pub record LoaderState : Type 0 where
  pub search_paths : List Text
  pub loaded_dlls : Dict Text LoadedDll
  pub address_mappings : List AddressMapping
  pub reserved_ranges : List ReservedRange
  pub dll_iat_entries : List DllIatEntry
  pub not_found : List Text
  pub iat_patch_cursor : ℕ

-- 16 MB for each DLL
abbrev pub dll_size : ℕ
dll_size = 0x01000000

abbrev pub max_address : ℕ
max_address = 0x40000000

unfoldable pub add_search_path : Text → LoaderState → LoaderState
add_search_path path s =
    if has_text path s.search_paths
    then s
    else record s { search_paths = s.search_paths ++ path ∷ []; not_found = [] }

-- not (end < b or base > e)
abbrev pub overlaps : ℕ → ℕ → ℕ → ℕ → Bool
overlaps base stop b e = not (ltb stop b || ltb e base)

abbrev pub hits_mapping : ℕ → ℕ → List AddressMapping → Bool
hits_mapping base stop [] = false
hits_mapping base stop (m ∷ ms) =
    overlaps base stop m.base_address m.end_address || hits_mapping base stop ms

abbrev pub hits_reserved : ℕ → ℕ → List ReservedRange → Bool
hits_reserved base stop [] = false
hits_reserved base stop (r ∷ rs) =
    overlaps base stop r.base_address r.end_address || hits_reserved base stop rs

unfoldable pub reserve_range : Text → ℕ → ℕ → LoaderState → Result LoaderState
reserve_range label base stop s =
    if ltb stop base
    then err value_error
    else if hits_mapping base stop s.address_mappings
    then err runtime_error
    else ok (record s {
      reserved_ranges =
          s.reserved_ranges
          ++ record { label = label; base_address = base; end_address = stop } ∷ [];
    })

unfoldable pub is_address_range_available : ℕ → ℕ → LoaderState → Bool
is_address_range_available base size s =
    if hits_mapping base (base + size - 1) s.address_mappings
    then false
    else not (hits_reserved base (base + size - 1) s.reserved_ranges)

-- The loop over the slots of 16 MB, by the slots that are left.
unfoldable pub find_slot : ℕ → ℕ → LoaderState → Option ℕ
find_slot zero base s = none
find_slot (suc rounds) base s =
    let rest = find_slot rounds (base + dll_size) s in
    if ltb base max_address
    then (if is_address_range_available base dll_size s then some base else rest)
    else none

-- There are 48 slots from 0x10000000 to the end. `none` is a RuntimeError.
unfoldable pub find_available_base : ℕ → LoaderState → Option ℕ
find_available_base preferred s =
    if (ltb 0 preferred && ltb preferred max_address)
      && is_address_range_available preferred dll_size s
    then some preferred
    else find_slot 48 0x10000000 s

unfoldable pub mapping_at : ℕ → List AddressMapping → Option AddressMapping
mapping_at address [] = none
mapping_at address (m ∷ ms) =
    if leb m.base_address address && leb address m.end_address
    then some m
    else mapping_at address ms
