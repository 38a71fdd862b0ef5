-- ===== src/Patching.antt =====
-- The patching of import tables and of exported code, by the registered handlers: patch_iat_entry,
-- DLLLoader.patch_dll_iats and patch_dll_exports of tew/loader/dll_loader.py, and ImportResolver of
-- tew/loader/import_resolver.py.
pub mod Keeps
pub mod Imports
pub mod Slots
use tew.Base.{
  ℕ, ◌+◌, ◌-◌, ◌<◌, ltb, leb, ◌==◌, Bool, true, false, not, ◌&&◌, ◌||◌, if◌then◌else◌, Option, none,
  some, List, [], ◌∷◌, ◌++◌, length, drop, Dict, Text, get, put, has_key, text_key, nat_key,
  has_prefix, codes, Exec, Result, ok, err, ◌>>=◌, ◌>>◌, pure, raise,
}
use tew.State.{World}
use tew.State.Native.{Native}
use tew.Machine.{Action, write32}
use tew.Ini.{lower}
use tew.Pe.{ImportEntry, ImportDescriptor}
use tew.Handlers.{
  HandlerEntry, HandlerTable, key_of, Stubs, Stub, get_table, on_world, get_handler_address,
  find_handler_by_func_name, register_handler, patch_address, patch_address_to_guest_code,
}
use tew.Loader.{LoadedDll, DllIatEntry, LoaderState}
use tew.Loader.Imports.{own_export}
use tew.Loader.Images.{Process, Files, Load, load_dll, notify}

-- "handler", "real" or "auto"
pub data Patched : Type 0 where
  by_handler by_real by_auto : Patched

-- x or y
abbrev or_address : Option ℕ → Option ℕ → Option ℕ
or_address none second = second
or_address (some a) second = if a == 0 then second else some a

abbrev legacy_dll_aliases : Dict Text Text
legacy_dll_aliases =
    (codes "msvcrt40.dll", codes "msvcrt.dll")
    ∷ (codes "msvcrt20.dll", codes "msvcrt.dll")
    ∷ (codes "crtdll.dll", codes "msvcrt.dll")
    ∷ []

abbrev alias_address : Option Text → Text → HandlerTable → Option ℕ
alias_address none func_name t = none
alias_address (some alias) func_name t = get_handler_address alias func_name t

-- The stub of a name, by the name of its DLL or with ".dll" behind it.
unfoldable pub stub_address : Text → Text → HandlerTable → Option ℕ
stub_address dll_name func_name t =
    or_address (get_handler_address dll_name func_name t)
      (get_handler_address (dll_name ++ codes ".dll") func_name t)

-- The same, or else the stub of the legacy alias.
unfoldable pub registered_address : Text → Text → Option Text → HandlerTable → Option ℕ
registered_address dll_name func_name alias t = elim (stub_address dll_name func_name t) [
  | none ↦ alias_address alias func_name t
  | some a ↦ some a
]

-- A real address other than 0.
abbrev real_address : Option ℕ → Option ℕ
real_address none = none
real_address (some a) = if a == 0 then none else some a

abbrev outside_stubs : ℕ → Bool
outside_stubs a = not (leb 0x00200000 a && ltb a 0x00210000)

abbrev export_label : Text → Text → Text
export_label dll_name func_name = dll_name ++ 33 ∷ func_name

module _ {N : Type 0} ⦃lib : Native N⦄ where
  unfoldable pub write_slot : ℕ → Option ℕ → Stub N (Unit {0})
  write_slot iat_addr none = pure tt
  write_slot iat_addr (some a) = on_world (write32 iat_addr a)

  -- What an import without handler and without export gets: a stub that halts.
  unfoldable pub write_auto : (Text → Text → ℕ) → ℕ → Text → Text → Stub N Patched
  write_auto unimplemented iat_addr dll_name func_name = do
    register_handler dll_name func_name (unimplemented dll_name func_name)
    t ← get_table
    write_slot iat_addr (stub_address dll_name func_name t)
    pure by_auto

  unfoldable pub write_real : (Text → Text → ℕ) → ℕ → Text → Text → Option ℕ → Stub N Patched
  write_real unimplemented iat_addr dll_name func_name none =
      write_auto unimplemented iat_addr dll_name func_name
  write_real unimplemented iat_addr dll_name func_name (some a) = do
    on_world (write32 iat_addr a)
    pure by_real

  unfoldable pub write_import :
      (Text → Text → ℕ) → ℕ → Text → Text → Option ℕ → Option ℕ → Stub N Patched
  write_import unimplemented iat_addr dll_name func_name real (some a) = do
    on_world (write32 iat_addr a)
    pure by_handler
  write_import unimplemented iat_addr dll_name func_name real none =
      write_real unimplemented iat_addr dll_name func_name (real_address real)

-- `unimplemented` gives the handler that halts at a call of a name: _make_unimplemented_handler.
module _ {N : Type 0} ⦃lib : Native N⦄ (unimplemented : Text → Text → ℕ) where
  unfoldable pub patch_iat_entry : ℕ → Text → Text → Option ℕ → Option Text → Stub N Patched
  patch_iat_entry iat_addr dll_name func_name real alias = do
    t ← get_table
    write_import unimplemented iat_addr dll_name func_name real
        (registered_address dll_name func_name alias t)

  unfoldable pub patch_entries : Dict Text LoadedDll → List DllIatEntry → Stub N (Unit {0})
  patch_entries dlls [] = pure tt
  patch_entries dlls (e ∷ es) = do
    outcome ←
        patch_iat_entry e.iat_addr e.imported_dll_name e.func_name
          (own_export e.func_name (get e.imported_dll_name dlls))
          (get e.imported_dll_name legacy_dll_aliases)
    patch_entries dlls es

  -- patch_dll_iats; its cursor is moved by moved_cursor.
  unfoldable pub patch_dll_iats : LoaderState → Stub N (Unit {0})
  patch_dll_iats s = patch_entries s.loaded_dlls (drop s.iat_patch_cursor s.dll_iat_entries)

  -- One export, whose name may have a handler.
  unfoldable pub patch_export : Text → Text → ℕ → Option HandlerEntry → Stub N (Unit {0})
  patch_export dll_name func_name export_addr none = pure tt
  patch_export dll_name func_name export_addr (some e) =
      if outside_stubs export_addr
      then elim e.handler [
        | none ↦ patch_address_to_guest_code export_addr e.address
        | some h ↦ patch_address export_addr (export_label dll_name func_name) h
      ]
      else pure tt

  unfoldable pub patch_exports : Text → Dict Text ℕ → Stub N (Unit {0})
  patch_exports dll_name [] = pure tt
  patch_exports dll_name ((func_name, export_addr) ∷ exports) = do
    t ← get_table
    if has_prefix (codes "Ordinal #") func_name
        then pure tt
        else patch_export dll_name func_name export_addr (find_handler_by_func_name func_name t)
    patch_exports dll_name exports

  unfoldable pub patch_dll_exports : Dict Text LoadedDll → Stub N (Unit {0})
  patch_dll_exports [] = pure tt
  patch_dll_exports ((dll_name, dll) ∷ dlls) = do
    patch_exports dll_name dll.exports
    patch_dll_exports dlls

abbrev pub moved_cursor : LoaderState → LoaderState
moved_cursor s = record s { iat_patch_cursor = length s.dll_iat_entries }

-- ImportResolver
pub record ImportTarget : Type 0 where
  pub dll_name : Text
  pub function_name : Text
  pub real_addr : Option ℕ

pub record Linker (N : Type 0) : Type 0 where
  pub table : HandlerTable
  pub loader : LoaderState
  pub world : World N
  pub iat_map : Dict ℕ ImportTarget

abbrev target_of : Text → Option LoadedDll → ImportEntry → ImportTarget
target_of dll_name none e = record { dll_name = dll_name; function_name = e.name; real_addr = none }
target_of dll_name (some dll) e = record {
  dll_name = dll_name;
  function_name = e.name;
  real_addr = get e.name dll.exports;
}

abbrev pub Link : Type 0 → Type 0 → Type 0
Link N A = Exec (Linker N) A

module _ {N : Type 0} where
  unfoldable pub get_linker : Link N (Linker N)
  get_linker s = (ok s, s)

  unfoldable pub set_loader : LoaderState → Link N (Unit {0})
  set_loader l s = (ok tt, record s { loader = l })

  unfoldable pub put_target : ℕ → ImportTarget → Link N (Unit {0})
  put_target rva target s = (ok tt, record s { iat_map = put rva target s.iat_map })

  unfoldable pub in_loader : {A : Type 0} → Load N A → Link N A
  in_loader m s =
      let r = m (record { loader = s.loader; world = s.world }) in
      (r.0, record s { loader = r.1.loader; world = r.1.world })

  unfoldable pub in_stubs : {A : Type 0} → Stub N A → Link N A
  in_stubs m s =
      let r = m (record { table = s.table; world = s.world }) in
      (r.0, record s { table = r.1.table; world = r.1.world })

  unfoldable pub map_entries : Text → Option LoadedDll → List ImportEntry → Link N (Unit {0})
  map_entries dll_name dll [] = pure tt
  map_entries dll_name dll (e ∷ es) = do
    put_target e.iat_rva (target_of dll_name dll e)
    map_entries dll_name dll es

module _ {N : Type 0} ⦃lib : Native N⦄ (unimplemented : Text → Text → ℕ) where
  -- build_iat_map, of the descriptors of an import table
  unfoldable pub build_iat_map :
      Option (LoadedDll → Load N (Unit {0})) → Files → ℕ → List ImportDescriptor → Link N (Unit {0})
  build_iat_map callback files rounds [] = pure tt
  build_iat_map callback files rounds (d ∷ ds) = do
    s ← get_linker
    dll ← in_loader (load_dll callback files rounds d.dll_name)
    in_loader (notify callback (has_key (lower d.dll_name) s.loader.loaded_dlls) dll)
    map_entries (lower d.dll_name) dll d.entries
    build_iat_map callback files rounds ds

  unfoldable pub write_target : ℕ → Option ImportTarget → Link N (Unit {0})
  write_target iat_addr none = pure tt
  write_target iat_addr (some target) = do
    outcome ← in_stubs (
        patch_iat_entry unimplemented iat_addr target.dll_name target.function_name target.real_addr
          none)
    pure tt

  unfoldable pub write_targets : ℕ → List ImportEntry → Link N (Unit {0})
  write_targets image_base [] = pure tt
  write_targets image_base (e ∷ es) = do
    s ← get_linker
    write_target (image_base + e.iat_rva) (get e.iat_rva s.iat_map)
    write_targets image_base es

  unfoldable pub write_descriptors : ℕ → List ImportDescriptor → Link N (Unit {0})
  write_descriptors image_base [] = pure tt
  write_descriptors image_base (d ∷ ds) = do
    write_targets image_base d.entries
    write_descriptors image_base ds

  -- write_iat_handlers, with the handlers
  unfoldable pub write_iat_handlers : ℕ → List ImportDescriptor → Link N (Unit {0})
  write_iat_handlers image_base descriptors = do
    write_descriptors image_base descriptors
    s ← get_linker
    set_loader (moved_cursor s.loader)
    in_stubs (patch_dll_iats unimplemented s.loader)
    u ← get_linker
    in_stubs (patch_dll_exports unimplemented u.loader.loaded_dlls)
