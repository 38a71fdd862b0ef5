-- ===== src/Loader/Layout.antt =====
-- That loaded DLLs share no address with each other or with a reserved range, for
-- tew/loader/dll_loader.py.
use tew.Base.{
  ℕ, zero, suc, ◌+◌, ◌-◌, ◌<◌, ◌≡◌, ◌⊎◌, sym, subst, true, false, Option, some, List, [], ◌∷◌, ◌++◌,
  Text, Result, ok, err, out_of_fuel, All, All-every, All-append, AllPairs, AllPairs-append_one,
  arith,
}
use tew.State.Native.{Native}
use tew.Ini.{lower}
use tew.Loader.{
  LoadedDll, AddressMapping, ReservedRange, LoaderState, dll_size, hits_mapping, hits_reserved,
  reserve_range, is_address_range_available, find_slot, find_available_base,
}
use tew.Loader.Images.{Process, Load, Files, load_dll, add_dll}
use tew.Loader.Meets.{Raises, Meets, Meets-raise}
use tew.Loader.Loads.{load_dll-Meets}

-- Two ranges, with both ends, that share no address.
abbrev pub Apart : ℕ → ℕ → ℕ → ℕ → Type 0
Apart base stop b e = (stop < b) ⊎ (e < base)

abbrev pub ApartMappings : AddressMapping → AddressMapping → Type 0
ApartMappings m n = Apart m.base_address m.end_address n.base_address n.end_address

abbrev pub IsClear : List ReservedRange → AddressMapping → Type 0
IsClear rs m = All (λ r. Apart m.base_address m.end_address r.base_address r.end_address) rs

pub record IsLaidOut (s : LoaderState) : Type 0 where
  pub apart : AllPairs ApartMappings s.address_mappings
  pub clear : All (IsClear s.reserved_ranges) s.address_mappings

misses_mappings :
    (base stop : ℕ) (ms : List AddressMapping)
    → hits_mapping base stop ms ≡ false
    → All (λ m. Apart m.base_address m.end_address base stop) ms
misses_mappings base stop [] h = tt
misses_mappings base stop (m ∷ ms) h = (ground arith, misses_mappings base stop ms (ground arith))

misses_reserved :
    (base stop : ℕ) (rs : List ReservedRange)
    → hits_reserved base stop rs ≡ false
    → All (λ r. Apart base stop r.base_address r.end_address) rs
misses_reserved base stop [] h = tt
misses_reserved base stop (r ∷ rs) h = (ground arith, misses_reserved base stop rs (ground arith))

-- A range of 16 MB that meets no mapping and no reserved range.
pub record IsFreeBase (s : LoaderState) (base : ℕ) : Type 0 where
  pub mappings :
      All (λ m. Apart m.base_address m.end_address base (base + dll_size - 1)) s.address_mappings
  pub reserved :
      All (λ r. Apart base (base + dll_size - 1) r.base_address r.end_address) s.reserved_ranges

available-IsFreeBase :
    (base : ℕ) (s : LoaderState)
    → is_address_range_available base dll_size s ≡ true
    → IsFreeBase s base
unfolding is_address_range_available
available-IsFreeBase base s h = record {
  mappings = misses_mappings base (base + dll_size - 1) (s.address_mappings) (ground (arith, h));
  reserved = misses_reserved base (base + dll_size - 1) (s.reserved_ranges) (ground (arith, h));
}

find_slot_available :
    (rounds base b : ℕ) (s : LoaderState)
    → find_slot rounds base s ≡ some b
    → is_address_range_available b dll_size s ≡ true
unfolding find_slot
find_slot_available zero base b s e = cc
find_slot_available (suc rounds) base b s e =
    ground (arith, e, find_slot_available rounds (base + dll_size) b s)

find_available_base-IsFreeBase :
    (preferred b : ℕ) (s : LoaderState) → find_available_base preferred s ≡ some b → IsFreeBase s b
unfolding find_available_base
find_available_base-IsFreeBase preferred b s e =
    available-IsFreeBase b s (ground (arith, e, find_slot_available 48 0x10000000 b s))

add_dll-IsLaidOut :
    (key : Text) (dll : LoadedDll) (s : LoaderState)
    → IsFreeBase s dll.base_address
    → IsLaidOut s
    → IsLaidOut (add_dll key dll s)
unfolding add_dll
add_dll-IsLaidOut key dll s f v = record {
  apart = AllPairs-append_one ApartMappings s.address_mappings _ v.apart f.mappings;
  clear = All-append _ s.address_mappings _ v.clear (f.reserved, tt);
}

anything : {A : Type 0} (r : Result A) → Raises (λ _. Unit {0}) r
anything (ok a) = tt
anything (err e) = tt

module _ {N : Type 0} ⦃lib : Native N⦄ where
  layout-Meets :
      (callback : Option (LoadedDll → Load N (Unit {0}))) (files : Files) (rounds : ℕ) (name : Text)
      → ((f : LoadedDll → Load N (Unit {0})) (dll : LoadedDll)
          → callback ≡ some f
          → Meets (λ _. Unit {0}) IsLaidOut (f dll))
      → Meets (λ _. Unit {0}) IsLaidOut (load_dll callback files rounds name)
  unfolding load_dll
  layout-Meets callback files zero name calls = Meets-raise out_of_fuel tt
  layout-Meets callback files (suc rounds) name calls =
      load_dll-Meets callback tt IsLaidOut IsLaidOut
        (λ e s v. record { apart = v.apart; clear = v.clear }) calls (λ s v. v) tt tt files rounds
        name (λ s v. record { apart = v.apart; clear = v.clear })
        (λ path exe e.
          All-every _ exe.imports (λ d. layout-Meets callback files rounds d.dll_name calls))
        (λ s path exe base v new found e.
          add_dll-IsLaidOut (lower name) _ s
            (find_available_base-IsFreeBase exe.image_base base s e) v)

  -- Loading a DLL, with all that it imports and however it ends, maps no DLL over another or over a
  -- reserved range, if none was before; the guest's DllMain, which may load more, is supposed to keep
  -- that too.
  pub load_dll-IsLaidOut :
      (callback : Option (LoadedDll → Load N (Unit {0}))) (files : Files) (rounds : ℕ) (name : Text)
      (p : Process N)
      → ((f : LoadedDll → Load N (Unit {0})) (dll : LoadedDll) (q : Process N)
          → callback ≡ some f
          → IsLaidOut q.loader
          → IsLaidOut ((f dll q).1.loader))
      → IsLaidOut p.loader
      → IsLaidOut ((load_dll callback files rounds name p).1.loader)
  load_dll-IsLaidOut callback files rounds name p calls v =
      ((layout-Meets callback files rounds name
          (λ f dll e. record { at = λ q h. (anything _, calls f dll q e h) })).at
        p v).1

-- A reservation that is accepted meets no DLL.
reserved-IsClear :
    (label : Text) (base stop : ℕ) (rs : List ReservedRange) (ms : List AddressMapping)
    → All (λ m. Apart m.base_address m.end_address base stop) ms
    → All (IsClear rs) ms
    → All
        (IsClear (rs ++ record { label = label; base_address = base; end_address = stop } ∷ []))
        ms
reserved-IsClear label base stop rs [] new old = tt
reserved-IsClear label base stop rs (m ∷ ms) new old =
    (All-append _ rs _ old.0 (new.0, tt), reserved-IsClear label base stop rs ms new.1 old.1)

accepted :
    (label : Text) (base stop : ℕ) (s s' : LoaderState)
    → reserve_range label base stop s ≡ ok s'
    → (hits_mapping base stop s.address_mappings ≡ false)
      × (s' ≡ record s {
        reserved_ranges =
            s.reserved_ranges
            ++ record { label = label; base_address = base; end_address = stop } ∷ [];
      })
unfolding reserve_range
accepted label base stop s s' e = ground (arith, e)

-- A reservation of a range that is accepted, which it is only where it meets no DLL, keeps the DLLs
-- apart from each other and from all the reserved ranges, the new one included.
pub reserve_range-IsLaidOut :
    (label : Text) (base stop : ℕ) (s s' : LoaderState)
    → reserve_range label base stop s ≡ ok s'
    → IsLaidOut s
    → IsLaidOut s'
reserve_range-IsLaidOut label base stop s s' e v =
    let done = accepted label base stop s s' e in
    subst IsLaidOut (sym done.1) (record {
      apart = v.apart;
      clear =
          reserved-IsClear label base stop s.reserved_ranges s.address_mappings
            (misses_mappings base stop s.address_mappings done.0) v.clear;
    })
