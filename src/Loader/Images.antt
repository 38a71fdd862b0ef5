-- ===== src/Loader/Images.antt =====
-- load_dll of tew/loader/dll_loader.py with apply_base_relocations, over the loader's state and the
-- emulator's. Finding and parsing a file, and the guest's DllMain, are parameters.
use tew.Base.{
  ℕ, zero, suc, ◌+◌, ◌-◌, ◌%◌, ◌^◌, ◌==◌, Bool, true, false, if◌then◌else◌, Option, none, some,
  List, [], ◌∷◌, ◌++◌, Text, text_key, get, put, has_key, has_text, add_text, Exec, Result, ok, err,
  fatal_halt_error, out_of_fuel, runtime_error, os_error, ◌>>=◌, ◌>>◌, pure, raise, or_raise,
}
use tew.State.{World}
use tew.State.Native.{Native}
use tew.Machine.{Action, mask32, read32, write32, load}
use tew.Ini.{lower}
use tew.Pe.{RelocationEntry, RelocationBlock, ImportEntry, ImportDescriptor, ExeFile}
use tew.Loader.Imports.{build_exports, resolve_import, should_invoke_dependency_dllmain}
use tew.Loader.{LoadedDll, DllIatEntry, LoaderState, dll_size, find_available_base}

pub record Process (N : Type 0) : Type 0 where
  pub loader : LoaderState
  pub world : World N

-- find_file_ci of a directory and a name, and EXEFile of a path, where it does not raise.
pub record Files : Type 0 where
  pub find_file_ci : Text → Text → Option Text
  pub exe_file : Text → Option ExeFile

abbrev pub Load : Type 0 → Type 0 → Type 0
Load N A = Exec (Process N) A

abbrev pub on_found : {N A B : Type 0} → Option A → Load N B → (A → Load N B) → Load N B
on_found none m f = m
on_found (some a) m f = f a

module _ {N : Type 0} where
  unfoldable pub get_loader : Load N LoaderState
  get_loader p = (ok p.loader, p)

  unfoldable pub put_loader : LoaderState → Load N (Unit {0})
  put_loader s p = (ok tt, record p { loader = s })

  -- What the emulator does, beside the loader.
  unfoldable pub lift : {A : Type 0} → Action N A → Load N A
  lift m p = let r = m p.world in (r.0, record p { world = r.1 })

-- The first directory that has the file.
unfoldable pub find_dll_file : Files → List Text → Text → Option Text
find_dll_file files [] name = none
find_dll_file files (path ∷ paths) name = elim (files.find_file_ci path name) [
  | none ↦ find_dll_file files paths name
  | some resolved ↦ some resolved
]

-- (base - preferred) & 0xFFFFFFFF: `preferred` may have 64 bits
abbrev pub relocation_delta : ℕ → ℕ → ℕ
relocation_delta base preferred = mask32 (base + (2 ^ 32 - preferred % 2 ^ 32))

module _ {N : Type 0} ⦃lib : Native N⦄ where
  unfoldable pub relocate_entries : ℕ → ℕ → ℕ → List RelocationEntry → Action N (Unit {0})
  relocate_entries delta base page [] = pure tt
  relocate_entries delta base page (e ∷ es) =
      if e.kind == 3
      then (do
        current ← read32 (mask32 (base + page + e.offset))
        write32 (mask32 (base + page + e.offset)) (mask32 (current + delta))
        relocate_entries delta base page es)
      else relocate_entries delta base page es

  unfoldable pub relocate_blocks : ℕ → ℕ → List RelocationBlock → Action N (Unit {0})
  relocate_blocks delta base [] = pure tt
  relocate_blocks delta base (b ∷ bs) = do
    relocate_entries delta base b.page_rva b.entries
    relocate_blocks delta base bs

  unfoldable pub apply_base_relocations : List RelocationBlock → ℕ → ℕ → Action N (Unit {0})
  apply_base_relocations blocks base preferred =
      if relocation_delta base preferred == 0
      then pure tt
      else relocate_blocks (relocation_delta base preferred) base blocks

  unfoldable pub load_sections : ℕ → List (ℕ × List ℕ) → Action N (Unit {0})
  load_sections base [] = pure tt
  load_sections base ((address, []) ∷ rest) = load_sections base rest
  load_sections base ((address, b ∷ bs) ∷ rest) = do
    load (base + address) (b ∷ bs)
    load_sections base rest

abbrev pub loaded_dll : Text → ℕ → ExeFile → LoadedDll
loaded_dll name base exe = record {
  name = name;
  base_address = base;
  size = dll_size;
  exports = build_exports base exe.exports [];
  entry_point =
      if exe.address_of_entry_point == 0 then 0 else mask32 (base + exe.address_of_entry_point);
}

-- self._loaded_dlls[key] = dll and the mapping of its 16 MB
unfoldable pub add_dll : Text → LoadedDll → LoaderState → LoaderState
add_dll key dll s = record s {
  loaded_dlls = put key dll s.loaded_dlls;
  address_mappings =
      s.address_mappings
      ++ record {
        dll_name = dll.name;
        base_address = dll.base_address;
        end_address = dll.base_address + dll_size - 1;
      }
        ∷ [];
}

abbrev pub add_iat_entry : DllIatEntry → LoaderState → LoaderState
add_iat_entry e s = record s { dll_iat_entries = s.dll_iat_entries ++ e ∷ [] }

abbrev pub add_missing : Text → LoaderState → LoaderState
add_missing key s = record s { not_found = add_text key s.not_found }

module _ {N : Type 0} where
  -- except FatalHaltError: raise; except Exception: return None
  abbrev pub or_none : {A : Type 0} → Result (Option A) × Process N → Result (Option A) × Process N
  or_none (ok a, p) = (ok a, p)
  or_none (err fatal_halt_error, p) = (err fatal_halt_error, p)
  or_none (err out_of_fuel, p) = (err out_of_fuel, p)
  or_none (err e, p) = (ok none, p)

  unfoldable pub attempt : {A : Type 0} → Load N (Option A) → Load N (Option A)
  attempt m p = or_none (m p)

module _ {N : Type 0} ⦃lib : Native N⦄ where
  unfoldable pub resolve_entries :
      Text → ℕ → Text → Option LoadedDll → List ImportEntry → Load N (Unit {0})
  resolve_entries key base from_dll imported [] = pure tt
  resolve_entries key base from_dll imported (e ∷ es) = do
    s ← get_loader
    on_found (resolve_import key from_dll e.name imported s.loaded_dlls) (pure tt)
        (λ a. lift (write32 (base + e.iat_rva) a))
    put_loader (
        add_iat_entry
          (record {
            iat_addr = base + e.iat_rva;
            dll_name = key;
            imported_dll_name = lower from_dll;
            func_name = e.name;
          })
          s)
    resolve_entries key base from_dll imported es

-- callback is not None
abbrev pub is_given : {A : Type 0} → Option A → Bool
is_given none = false
is_given (some a) = true

module _ {N : Type 0} ⦃lib : Native N⦄ (callback : Option (LoadedDll → Load N (Unit {0}))) where
  -- on_dependency_loaded(dll), if the dependency is new and has an entry point
  unfoldable pub notify : Bool → Option LoadedDll → Load N (Unit {0})
  notify dep_was_loaded imported =
      if should_invoke_dependency_dllmain dep_was_loaded imported (is_given callback)
      then on_found imported (pure tt) (λ dll. on_found callback (pure tt) (λ f. f dll))
      else pure tt

  -- The import descriptors; `load_dependency` is load_dll.
  unfoldable pub resolve_imports :
      (Text → Load N (Option LoadedDll)) → Text → ℕ → List ImportDescriptor → Load N (Unit {0})
  resolve_imports load_dependency key base [] = pure tt
  resolve_imports load_dependency key base (d ∷ ds) = do
    s ← get_loader
    imported ← load_dependency d.dll_name
    notify (has_key (lower d.dll_name) s.loaded_dlls) imported
    resolve_entries key base d.dll_name imported d.entries
    resolve_imports load_dependency key base ds

  -- What the `try` holds, from the file's parse on. `s` is the loader's state, which the file's parse, the
  -- sections and the relocations leave alone.
  unfoldable pub load_image :
      (Text → Load N (Option LoadedDll)) → Text → ExeFile → LoaderState → Load N (Option LoadedDll)
  load_image load_dependency name exe s = do
    base ← or_raise (find_available_base exe.image_base s) runtime_error
    lift (load_sections base exe.sections)
    lift (apply_base_relocations exe.relocation_blocks base exe.image_base)
    let dll = loaded_dll name base exe
    put_loader (add_dll (lower name) dll s)
    resolve_imports load_dependency (lower name) base exe.imports
    pure (some dll)

  -- A nested load that loads is of a name that is imported and not loaded yet, so one round for each name
  -- there is, and one more, are enough.
  unfoldable pub load_dll : Files → ℕ → Text → Load N (Option LoadedDll)
  load_dll files zero name = raise out_of_fuel
  load_dll files (suc rounds) name = do
    s ← get_loader
    on_found (get (lower name) s.loaded_dlls)
        (if has_text (lower name) s.not_found
          then pure none
          else on_found (find_dll_file files s.search_paths name)
              (do put_loader (add_missing (lower name) s); pure none)
              (λ path. attempt (do
                exe ← or_raise (files.exe_file path) os_error
                load_image (load_dll files rounds) name exe s)))
        (λ dll. pure (some dll))
