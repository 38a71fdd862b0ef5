-- ===== src/Patching/Imports.antt =====
-- That the import tables of a whole program leave the handler table safe, for
-- tew/loader/import_resolver.py.
use tew.Base.{ℕ, Option, none, some, List, [], ◌∷◌, Text, Result, ok, err, proceed, ◌>>=◌, pure}
use tew.State.Native.{Native}
use tew.Pe.{ImportEntry, ImportDescriptor}
use tew.Handlers.{Stub}
use tew.Loader.{LoadedDll}
use tew.Loader.Images.{Load, Files}
use tew.Patching.{
  Linker, Link, ImportTarget, get_linker, set_loader, put_target, in_loader, in_stubs, map_entries,
  build_iat_map, write_target, write_targets, write_descriptors, write_iat_handlers,
}
use tew.Patching.Keeps.{
  IsSafe, Safe, patch_iat_entry-Safe, patch_dll_iats-Safe, patch_dll_exports-Safe,
}

record Linked {N A : Type 0} (m : Link N A) : Type 0 where
  at : (s : Linker N) → IsSafe s.table → IsSafe (m s).1.table

module _ {N A : Type 0} where
  Linked-pure : (a : A) → Linked (pure {W = Linker N} a)
  unfolding pure
  Linked-pure a = record { at = λ s h. h }

  Linked-in_stubs : (m : Stub N A) → Safe m → Linked (in_stubs m)
  unfolding in_stubs
  Linked-in_stubs m safe = record {
    at = λ s h. safe.at (record { table = s.table; world = s.world }) h;
  }

  Linked-in_loader : (m : Load N A) → Linked (in_loader m)
  unfolding in_loader
  Linked-in_loader m = record { at = λ s h. h }

module _ {N A B : Type 0} where
  Linked-proceed :
      (r : Result A) (s : Linker N) (next : A → Link N B)
      → IsSafe s.table
      → ((a : A) → Linked (next a))
      → IsSafe (proceed (r, s) next).1.table
  Linked-proceed (ok a) s next h rest = (rest a).at s h
  Linked-proceed (err e) s next h rest = h

  Linked-bind :
      (m : Link N A) (next : A → Link N B)
      → Linked m
      → ((a : A) → Linked (next a))
      → Linked (m >>= next)
  unfolding ◌>>=◌
  Linked-bind m next first rest = record {
    at = λ s h. Linked-proceed (m s).0 (m s).1 next (first.at s h) rest;
  }

module _ {N : Type 0} where
  Linked-get_linker : Linked (get_linker {N = N})
  unfolding get_linker
  Linked-get_linker = record { at = λ s h. h }

  Linked-set_loader : (l : _) → Linked (set_loader {N = N} l)
  unfolding set_loader
  Linked-set_loader l = record { at = λ s h. h }

  Linked-put_target : (rva : ℕ) (target : ImportTarget) → Linked (put_target {N = N} rva target)
  unfolding put_target
  Linked-put_target rva target = record { at = λ s h. h }

  map_entries-Linked :
      (d : Text) (dll : Option LoadedDll) (es : List ImportEntry)
      → Linked (map_entries {N = N} d dll es)
  unfolding map_entries
  map_entries-Linked d dll [] = Linked-pure tt
  map_entries-Linked d dll (e ∷ es) =
      Linked-bind _ _ (Linked-put_target e.iat_rva _) λ u. map_entries-Linked d dll es

module _ {N : Type 0} ⦃lib : Native N⦄ (halting : Text → Text → ℕ) where
  build_iat_map-Linked :
      (callback : Option (LoadedDll → Load N (Unit {0}))) (files : Files) (rounds : ℕ)
      (ds : List ImportDescriptor)
      → Linked (build_iat_map halting callback files rounds ds)
  unfolding build_iat_map
  build_iat_map-Linked callback files rounds [] = Linked-pure tt
  build_iat_map-Linked callback files rounds (d ∷ ds) = Linked-bind _ _ Linked-get_linker λ s.
      Linked-bind _ _ (Linked-in_loader _) λ dll. Linked-bind _ _ (Linked-in_loader _) λ u.
        Linked-bind _ _ (map_entries-Linked _ dll d.entries)
          λ v. build_iat_map-Linked callback files rounds ds

  write_target-Linked :
      (addr : ℕ) (target : Option ImportTarget) → Linked {N = N} (write_target halting addr target)
  unfolding write_target
  write_target-Linked addr none = Linked-pure tt
  write_target-Linked addr (some target) =
      Linked-bind _ _ (Linked-in_stubs _ (patch_iat_entry-Safe halting addr _ _ _ none))
        λ outcome. Linked-pure tt

  write_targets-Linked :
      (base : ℕ) (es : List ImportEntry) → Linked {N = N} (write_targets halting base es)
  unfolding write_targets
  write_targets-Linked base [] = Linked-pure tt
  write_targets-Linked base (e ∷ es) =
      Linked-bind _ _ Linked-get_linker
        λ s. Linked-bind _ _ (write_target-Linked _ _) λ u. write_targets-Linked base es

  write_descriptors-Linked :
      (base : ℕ) (ds : List ImportDescriptor) → Linked {N = N} (write_descriptors halting base ds)
  unfolding write_descriptors
  write_descriptors-Linked base [] = Linked-pure tt
  write_descriptors-Linked base (d ∷ ds) =
      Linked-bind _ _ (write_targets-Linked base d.entries) λ u. write_descriptors-Linked base ds

  write_iat_handlers-Linked :
      (base : ℕ) (ds : List ImportDescriptor) → Linked {N = N} (write_iat_handlers halting base ds)
  unfolding write_iat_handlers
  write_iat_handlers-Linked base ds = Linked-bind _ _ (write_descriptors-Linked base ds) λ u.
      Linked-bind _ _ Linked-get_linker λ s. Linked-bind _ _ (Linked-set_loader _) λ v.
        Linked-bind _ _ (Linked-in_stubs _ (patch_dll_iats-Safe halting _)) λ w.
          Linked-bind _ _ Linked-get_linker
            λ t. Linked-in_stubs _ (patch_dll_exports-Safe halting _)

  -- Mapping the imports of a program, and writing its import tables with those of the loaded DLLs and the patches
  -- of their exports, leave a handler table whose names are reached and whose stubs are below 0x00210000 in that
  -- state, unless the stubs run past 0x00210000; also where they raise.
  pub imports-IsSafe :
      (callback : Option (LoadedDll → Load N (Unit {0}))) (files : Files) (rounds base : ℕ)
      (ds : List ImportDescriptor) (s : Linker N)
      → IsSafe s.table
      → IsSafe (build_iat_map halting callback files rounds ds s).1.table
        × IsSafe (write_iat_handlers halting base ds s).1.table
  imports-IsSafe callback files rounds base ds s h = (
    (build_iat_map-Linked callback files rounds ds).at s h,
    (write_iat_handlers-Linked base ds).at s h,
  )
