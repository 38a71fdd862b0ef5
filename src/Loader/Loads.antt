-- ===== src/Loader/Loads.antt =====
-- What load_dll of tew/loader/dll_loader.py keeps, from what its parts keep.
use tew.Base.{
  ℕ, suc, ◌≡◌, Bool, Option, none, some, List, [], ◌∷◌, Text, text_key, get, has_key, has_text, All,
  Error, value_error, runtime_error, os_error,
}
use tew.State.Native.{Native}
use tew.Ini.{lower}
use tew.Pe.{ImportEntry, ImportDescriptor, ExeFile}
use tew.Loader.{LoadedDll, DllIatEntry, LoaderState, find_available_base}
use tew.Loader.Imports.{resolve_import, should_invoke_dependency_dllmain}
use tew.Loader.Images.{
  Load, Files, notify, is_given, resolve_entries, resolve_imports, load_image, load_dll, add_dll,
  loaded_dll, add_iat_entry, add_missing, find_dll_file,
}
use tew.Loader.Meets.{
  Meets, Meets-pure, Meets-if, Meets-on_found, Meets-bind, Meets-or_raise, Meets-with_loader,
  Meets-put_loader, Meets-or_none, Meets-enter,
}
use tew.Loader.Within.{
  Meets-lift, write32-Within, load_sections-Within, apply_base_relocations-Within,
}

-- An invariant that does not look at the list of IAT entries.
abbrev pub IgnoresEntries : (LoaderState → Type 0) → Type 0
IgnoresEntries P = (e : DllIatEntry) (s : LoaderState) → P s → P (add_iat_entry e s)

module _ {N : Type 0} ⦃lib : Native N⦄ (callback : Option (LoadedDll → Load N (Unit {0})))
    {R : Error → Type 0} (bounds : R value_error) where
  module _ (P : LoaderState → Type 0) (ignores : IgnoresEntries P)
      (calls : (f : LoadedDll → Load N (Unit {0})) (dll : LoadedDll)
        → callback ≡ some f
        → Meets R P (f dll)) where
    notify-Meets :
        (loaded : Bool) (imported : Option LoadedDll) → Meets R P (notify callback loaded imported)
    unfolding notify
    notify-Meets loaded imported =
        Meets-if (should_invoke_dependency_dllmain loaded imported (is_given callback)) _ _
          (λ _.
            Meets-on_found imported _ _ (λ _. Meets-pure tt)
              λ dll _. Meets-on_found callback _ _ (λ _. Meets-pure tt) λ f e. calls f dll e)
          (λ _. Meets-pure tt)

    resolve_entries-Meets :
        (key : Text) (base : ℕ) (from_dll : Text) (imported : Option LoadedDll)
        (es : List ImportEntry)
        → Meets R P (resolve_entries {N = N} key base from_dll imported es)
    unfolding resolve_entries
    resolve_entries-Meets key base from_dll imported [] = Meets-pure tt
    resolve_entries-Meets key base from_dll imported (e ∷ es) = Meets-with_loader _ λ s v.
        Meets-bind _ _
          (Meets-on_found (resolve_import key from_dll e.name imported s.loaded_dlls) _ _
            (λ _. Meets-pure tt) (λ a _. Meets-lift _ P (write32-Within bounds _ a)))
          λ _.
            Meets-bind _ _ (Meets-put_loader _ (ignores _ s v))
              λ _. resolve_entries-Meets key base from_dll imported es

    resolve_imports-Meets :
        (load_dependency : Text → Load N (Option LoadedDll)) (key : Text) (base : ℕ)
        (ds : List ImportDescriptor)
        → All (λ d. Meets R P (load_dependency d.dll_name)) ds
        → Meets R P (resolve_imports callback load_dependency key base ds)
    unfolding resolve_imports
    resolve_imports-Meets load_dependency key base [] h = Meets-pure tt
    resolve_imports-Meets load_dependency key base (d ∷ ds) h = Meets-with_loader _ λ s v.
        Meets-bind _ _ h.0 λ imported.
          Meets-bind _ _ (notify-Meets (has_key (lower d.dll_name) s.loaded_dlls) imported) λ _.
            Meets-bind _ _ (resolve_entries-Meets key base d.dll_name imported d.entries)
              λ _. resolve_imports-Meets load_dependency key base ds h.1

  -- From the choice of the base on: `P` before the DLL is added, and `P'` after it.
  module _ (P P' : LoaderState → Type 0) (ignores : IgnoresEntries P')
      (calls : (f : LoadedDll → Load N (Unit {0})) (dll : LoadedDll)
        → callback ≡ some f
        → Meets R P' (f dll))
      (weaken : (s : LoaderState) → P' s → P s) (no_space : R runtime_error)
      (no_file : R os_error) where
    load_image-Meets :
        (load_dependency : Text → Load N (Option LoadedDll)) (name : Text) (exe : ExeFile)
        (s : LoaderState)
        → All (λ d. Meets R P' (load_dependency d.dll_name)) exe.imports
        → ((base : ℕ)
            → find_available_base exe.image_base s ≡ some base
            → P' (add_dll (lower name) (loaded_dll name base exe) s))
        → Meets R P (load_image callback load_dependency name exe s)
    unfolding load_image
    load_image-Meets load_dependency name exe s h add = Meets-or_raise _ _ _ no_space λ base e.
        Meets-bind _ _ (Meets-lift _ P (load_sections-Within bounds base (exe.sections))) λ _.
          Meets-bind _ _ (Meets-lift _ P (apply_base_relocations-Within bounds _ base _)) λ _.
            Meets-enter P' weaken _ _ (add base e) (
              Meets-bind _ _
                (resolve_imports-Meets P' ignores calls load_dependency (lower name) base
                  (exe.imports) h)
                λ _. Meets-pure _)

    pub load_dll-Meets :
        (files : Files) (rounds : ℕ) (name : Text)
        → ((s : LoaderState) → P s → P (add_missing (lower name) s))
        → ((path : Text) (exe : ExeFile)
            → files.exe_file path ≡ some exe
            → All (λ d. Meets R P' (load_dll callback files rounds d.dll_name)) exe.imports)
        → ((s : LoaderState) (path : Text) (exe : ExeFile) (base : ℕ)
            → P s
            → get (lower name) s.loaded_dlls ≡ none
            → find_dll_file files s.search_paths name ≡ some path
            → find_available_base exe.image_base s ≡ some base
            → P' (add_dll (lower name) (loaded_dll name base exe) s))
        → Meets R P (load_dll callback files (suc rounds) name)
    unfolding load_dll
    load_dll-Meets files rounds name missing h add = Meets-with_loader _ λ s v.
        Meets-on_found (get (lower name) s.loaded_dlls) _ _
          (λ new.
            Meets-if (has_text (lower name) s.not_found) _ _ (λ _. Meets-pure none)
              λ _.
                Meets-on_found (find_dll_file files s.search_paths name) _ _
                  (λ _. Meets-bind _ _ (Meets-put_loader _ (missing s v)) λ _. Meets-pure none)
                  λ path found. Meets-or_none _ (
                    Meets-or_raise (files.exe_file path) os_error _ no_file λ exe parsed.
                      load_image-Meets (load_dll callback files rounds) name exe s
                        (h path exe parsed) (λ base e. add s path exe base v new found e)))
          λ dll _. Meets-pure _
