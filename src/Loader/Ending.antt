-- ===== src/Loader/Ending.antt =====
-- That loading ends, however DLLs import one another, for load_dll of tew/loader/dll_loader.py.
use tew.Base.{
  ℕ, zero, suc, ◌+◌, ◌≤◌, ◌<◌, ◌≡◌, ◌≢◌, sym, subst, true, ◌||◌, Bool-cases, if◌then◌else◌, Option,
  none, some, inl, inr, List, [], ◌∷◌, Dict, Text, text_key, text_same, text_same_refl,
  text_same_iff, has_text, has_key, get, put, get-put, All, All-every, All-imp, Result, ok, err,
  Error, out_of_fuel, arith,
}
use tew.State.Native.{Native}
use tew.Ini.{lower}
use tew.Pe.{ExeFile}
use tew.Loader.{LoadedDll, LoaderState}
use tew.Loader.Images.{Process, Load, Files, load_dll, add_dll, loaded_dll}
use tew.Loader.Meets.{Raises, Meets}
use tew.Loader.Loads.{load_dll-Meets}

-- How many of the names are not loaded.
unfoldable pub unloaded : List Text → Dict Text LoadedDll → ℕ
unloaded [] dlls = 0
unloaded (n ∷ ns) dlls = (if has_key n dlls then 0 else 1) + unloaded ns dlls

-- What any file imports is among these names, in lower case. There are finitely many files.
abbrev pub ImportsAmong : List Text → Files → Type 0
ImportsAmong names files =
    (path : Text) (exe : ExeFile)
    → files.exe_file path ≡ some exe
    → All (λ d. has_text (lower d.dll_name) names ≡ true) exe.imports

has_key-put :
    (k n : Text) (v : LoadedDll) (d : Dict Text LoadedDll)
    → has_key n (put k v d) ≡ (text_same k n || has_key n d)
has_key-put k n v d = ground (arith, get-put k n v d)

unloaded-put_le :
    (names : List Text) (k : Text) (v : LoadedDll) (d : Dict Text LoadedDll)
    → unloaded names (put k v d) ≤ unloaded names d
unfolding unloaded
unloaded-put_le [] k v d = omega arith
unloaded-put_le (n ∷ ns) k v d = ground (arith, has_key-put k n v d, unloaded-put_le ns k v d)

-- A name that was not loaded is loaded now.
unloaded-put :
    (names : List Text) (k : Text) (v : LoadedDll) (d : Dict Text LoadedDll)
    → has_text k names ≡ true
    → get k d ≡ none
    → unloaded names (put k v d) < unloaded names d
unfolding unloaded
unloaded-put [] k v d h new = cc
unloaded-put (n ∷ ns) k v d h new = elim (Bool-cases (text_same n k)) [
  | inl same ↦
      subst
        (λ m.
          (if has_key m (put k v d) then 0 else 1) + unloaded ns (put k v d)
          < (if has_key m d then 0 else 1) + unloaded ns d)
        (sym ((text_same_iff n k).0 same))
        (ground (arith, has_key-put k k v d, text_same_refl k, new, unloaded-put_le ns k v d))
  | inr other ↦
      ground (arith, has_key-put k n v d, unloaded-put ns k v d (ground (arith, h, other)) new)
]

-- Adding a DLL of these names that is not loaded leaves one name fewer.
one_fewer :
    (names : List Text) (name : Text) (dll : LoadedDll) (s : LoaderState)
    → has_text (lower name) names ≡ true
    → get (lower name) s.loaded_dlls ≡ none
    → unloaded names (add_dll (lower name) dll s).loaded_dlls < unloaded names s.loaded_dlls
unfolding add_dll
one_fewer names name dll s among new = unloaded-put names (lower name) dll s.loaded_dlls among new

abbrev pub Counts : List Text → ℕ → LoaderState → Type 0
Counts names k s = unloaded names s.loaded_dlls ≤ k

abbrev pub NotExhausted : Error → Type 0
NotExhausted e = e ≢ out_of_fuel

module _ {N : Type 0} ⦃lib : Native N⦄ where
  ending-Meets :
      (callback : Option (LoadedDll → Load N (Unit {0}))) (files : Files) (names : List Text)
      → ImportsAmong names files
      → ((f : LoadedDll → Load N (Unit {0})) (dll : LoadedDll) (k : ℕ)
          → callback ≡ some f
          → Meets NotExhausted (Counts names k) (f dll))
      → (rounds k : ℕ) (name : Text) → has_text (lower name) names ≡ true
      → k < rounds
      → Meets NotExhausted (Counts names k) (load_dll callback files rounds name)
  ending-Meets callback files names imports calls zero k name among lt = absurd (omega arith)
  ending-Meets callback files names imports calls (suc rounds) zero name among lt =
      load_dll-Meets callback (cc) (Counts names 0) (λ s. ⊥) (λ e s v. v)
        (λ f dll e. record { at = λ p h. absurd h }) (λ s v. absurd v) (cc) (cc) files rounds name
        (λ s v. v) (λ path exe e. All-every _ exe.imports (λ d. record { at = λ p h. absurd h }))
        (λ s path exe base v new found e.
          absurd (omega (arith, one_fewer names name (loaded_dll name base exe) s among new)))
  ending-Meets callback files names imports calls (suc rounds) (suc k) name among lt =
      load_dll-Meets callback (cc) (Counts names (suc k)) (Counts names k) (λ e s v. v)
        (λ f dll e. calls f dll k e) (λ s v. omega arith) (cc) (cc) files rounds name (λ s v. v)
        (λ path exe e.
          All-imp _ _ exe.imports
            (λ d known.
              ending-Meets callback files names imports calls rounds k d.dll_name known
                (omega arith))
            (imports path exe e))
        (λ s path exe base v new found e.
          omega (arith, one_fewer names name (loaded_dll name base exe) s among new))

  -- Loading ends: for a list of lower-case names that has the name of the DLL and all that the files import, a load
  -- with more rounds of nested loads than there are names in it that are not loaded yet does not run out of them,
  -- however files and paths are found and whichever DLLs import one another, a cycle of imports included. The guest's
  -- DllMain, where the caller passes one, is supposed to end too, and to unload nothing.
  pub load_dll_ends :
      (callback : Option (LoadedDll → Load N (Unit {0}))) (files : Files) (names : List Text)
      (rounds : ℕ) (name : Text) (p : Process N)
      → ImportsAmong names files
      → has_text (lower name) names ≡ true
      → ((f : LoadedDll → Load N (Unit {0})) (dll : LoadedDll) (k : ℕ)
          → callback ≡ some f
          → Meets NotExhausted (Counts names k) (f dll))
      → unloaded names p.loader.loaded_dlls < rounds
      → (load_dll callback files rounds name p).0 ≢ err out_of_fuel
  load_dll_ends callback files names rounds name p imports among calls lt e =
      ended ((load_dll callback files rounds name p).0)
        ((ending-Meets callback files names imports calls rounds _ name among lt).at p
          (omega arith)).0
        e
    where
      ended : {A : Type 0} (r : Result A) → Raises NotExhausted r → r ≡ err out_of_fuel → ⊥
      ended (ok a) h e = cc
      ended (err x) h e = h (cc)
