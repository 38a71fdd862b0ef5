-- ===== src/Patching/Keeps.antt =====
-- That patching keeps the names of the handler table apart from the patched code, for
-- tew/loader/dll_loader.py and tew/loader/import_resolver.py.
use tew.Base.{
  ℕ, ◌≤◌, ◌<◌, ◌≡◌, ◌⊎◌, inl, inr, refl, leb, leb→le, leb-false, Bool, true, false, if◌then◌else◌,
  Bool-cases, Option, none, some, List, [], ◌∷◌, Dict, Text, get, text_key, nat_key, get-put,
  has_prefix, codes, Result, ok, err, proceed, ◌>>=◌, pure, arith,
}
use tew.State.Native.{Native}
use tew.Machine.{Action}
use tew.Handlers.{
  HandlerEntry, HandlerTable, handler_size, Stubs, Stub, get_table, put_table, on_world,
  advance_table, add_entry, new_entry, patch_entry, register_handler, patch_address,
  patch_address_to_guest_code,
}
use tew.Handlers.Table.{TableOk, register_result, add_entry-TableOk, advance_table-TableOk, added}
use tew.Loader.{LoadedDll, DllIatEntry, LoaderState}
use tew.Patching.{
  write_slot, write_auto, write_real, write_import, patch_iat_entry, patch_entries, patch_dll_iats,
  patch_export, patch_exports, patch_dll_exports, outside_stubs,
}

-- A table that reaches its entries, whose names are at 0x00200000 or above, and below 0x00210000; or one whose
-- stubs have run past that.
pub record Guarded (t : HandlerTable) : Type 0 where
  pub table_ok : TableOk t
  pub starts : 0x00200000 ≤ t.next_handler_addr
  pub from_base :
      (key : Text) (e : HandlerEntry) → get key t.handlers ≡ some e → 0x00200000 ≤ e.address

abbrev pub IsSafe : HandlerTable → Type 0
IsSafe t = Guarded t ⊎ (0x00210000 < t.next_handler_addr)

pub record Safe {N A : Type 0} (m : Stub N A) : Type 0 where
  pub at : (p : Stubs N) → IsSafe p.table → IsSafe (m p).1.table

module _ {N A : Type 0} where
  Safe-pure : (a : A) → Safe (pure {W = Stubs N} a)
  unfolding pure
  Safe-pure a = record { at = λ p h. h }

  Safe-on_world : (m : Action N A) → Safe (on_world m)
  unfolding on_world
  Safe-on_world m = record { at = λ p h. h }

  Safe-if :
      (test : Bool) (first second : Stub N A)
      → Safe first
      → (test ≡ false → Safe second)
      → Safe (if test then first else second)
  Safe-if true first second f g = f
  Safe-if false first second f g = g refl

module _ {N A B : Type 0} where
  Safe-proceed :
      (r : Result A) (p : Stubs N) (next : A → Stub N B)
      → IsSafe p.table
      → ((a : A) → Safe (next a))
      → IsSafe (proceed (r, p) next).1.table
  Safe-proceed (ok a) p next h rest = (rest a).at p h
  Safe-proceed (err e) p next h rest = h

  Safe-bind :
      (m : Stub N A) (next : A → Stub N B) → Safe m → ((a : A) → Safe (next a)) → Safe (m >>= next)
  unfolding ◌>>=◌
  Safe-bind m next first rest = record {
    at = λ p h. Safe-proceed (m p).0 (m p).1 next (first.at p h) rest;
  }

module _ {N : Type 0} where
  Safe-get_table : Safe (get_table {N = N})
  unfolding get_table
  Safe-get_table = record { at = λ p h. h }

ruleset safe_rules = (Safe-pure, Safe-on_world, Safe-if, Safe-bind, Safe-get_table)

advanced : (t : HandlerTable) → Guarded t → Guarded (advance_table handler_size t)
advanced t good = record {
  table_ok = advance_table-TableOk t good.table_ok;
  starts = omega (arith, good.starts);
  from_base = good.from_base;
}

entered :
    (e : HandlerEntry) (t : HandlerTable)
    → Guarded t
    → e.address ≡ t.next_handler_addr
    → Guarded (add_entry e (advance_table handler_size t))
unfolding add_entry
entered e t good fits = record {
  table_ok = add_entry-TableOk e t good.table_ok fits;
  starts = omega (arith, good.starts);
  from_base = λ key f at. elim (added e f t key at) [
    | inl new ↦ rw (new, fits) good.starts
    | inr old ↦ good.from_base key f old
  ];
}

grown :
    (e : HandlerEntry) (t : HandlerTable)
    → 0x00210000 < t.next_handler_addr
    → 0x00210000 < (add_entry e (advance_table handler_size t)).next_handler_addr
unfolding add_entry
grown e t past = omega (arith, past)

module _ {N : Type 0} ⦃lib : Native N⦄ where
  register_handler-IsSafe :
      (dll_name func_name : Text) (handler : ℕ) (p : Stubs N)
      → IsSafe p.table
      → IsSafe (register_handler dll_name func_name handler p).1.table
  register_handler-IsSafe dll_name func_name handler p (inl good) =
      elim (register_result dll_name func_name handler p) [
        | inl same ↦ inl (rw same good)
        | inr (inl (fresh, moved)) ↦ inl (rw moved (advanced p.table good))
        | inr (inr (fresh, stored)) ↦
            inl
              (rw stored (entered (new_entry dll_name func_name handler p.table) p.table good refl))
      ]
  register_handler-IsSafe dll_name func_name handler p (inr past) =
      elim (register_result dll_name func_name handler p) [
        | inl same ↦ inr (rw same past)
        | inr (inl (fresh, moved)) ↦ inr (rw moved (omega (arith, past)))
        | inr (inr (fresh, stored)) ↦
            inr (rw stored (grown (new_entry dll_name func_name handler p.table) p.table past))
      ]

  patch_address-IsSafe :
      (addr : ℕ) (name : Text) (handler : ℕ) (p : Stubs N)
      → outside_stubs addr ≡ true
      → IsSafe p.table
      → IsSafe (patch_address addr name handler p).1.table
  unfolding patch_address get_table put_table on_world ◌>>=◌
  patch_address-IsSafe addr name handler p outside (inl good) =
      elim (Bool-cases (leb p.table.next_handler_addr 0x00210000)) [
        | inl inside ↦ inl (record {
          table_ok = record {
            below = good.table_ok.below;
            reached = λ key e h at has.
                let b = good.table_ok.below key e at in
                let f = good.from_base key e at in
                let r = good.table_ok.reached key e h at has in
                let l =
                  get-put addr e.address (patch_entry addr name handler p.table)
                    p.table.handlers_by_addr in
                ground
                  (arith, b, f, r, l, leb→le p.table.next_handler_addr 0x00210000 inside, outside);
          };
          starts = good.starts;
          from_base = good.from_base;
        })
        | inr past ↦ inr (leb-false p.table.next_handler_addr 0x00210000 past)
      ]
  patch_address-IsSafe addr name handler p outside (inr past) = inr past

  register_handler-Safe :
      (dll_name func_name : Text) (handler : ℕ)
      → Safe {N = N} (register_handler dll_name func_name handler)
  register_handler-Safe dll_name func_name handler = record {
    at = λ p h. register_handler-IsSafe dll_name func_name handler p h;
  }

  patch_to_guest-Safe : (addr target : ℕ) → Safe {N = N} (patch_address_to_guest_code addr target)
  unfolding patch_address_to_guest_code
  patch_to_guest-Safe addr target = Safe-on_world _

  write_slot-Safe : (addr : ℕ) (a : Option ℕ) → Safe {N = N} (write_slot addr a)
  unfolding write_slot
  write_slot-Safe addr none = Safe-pure tt
  write_slot-Safe addr (some a) = Safe-on_world _

  write_auto-Safe :
      (halting : Text → Text → ℕ) (addr : ℕ) (d f : Text)
      → Safe {N = N} (write_auto halting addr d f)
  unfolding write_auto
  write_auto-Safe halting addr d f =
      search (safe_rules, register_handler-Safe, write_slot-Safe) depth 12

  write_real-Safe :
      (halting : Text → Text → ℕ) (addr : ℕ) (d f : Text) (real : Option ℕ)
      → Safe {N = N} (write_real halting addr d f real)
  unfolding write_real
  write_real-Safe halting addr d f none = write_auto-Safe halting addr d f
  write_real-Safe halting addr d f (some r) = search safe_rules depth 6

  write_import-Safe :
      (halting : Text → Text → ℕ) (addr : ℕ) (d f : Text) (real a : Option ℕ)
      → Safe {N = N} (write_import halting addr d f real a)
  unfolding write_import
  write_import-Safe halting addr d f real (some a) = search safe_rules depth 6
  write_import-Safe halting addr d f real none = write_real-Safe halting addr d f _

module _ {N : Type 0} ⦃lib : Native N⦄ (halting : Text → Text → ℕ) where
  pub patch_iat_entry-Safe :
      (addr : ℕ) (d f : Text) (real : Option ℕ) (alias : Option Text)
      → Safe {N = N} (patch_iat_entry halting addr d f real alias)
  unfolding patch_iat_entry
  patch_iat_entry-Safe addr d f real alias = search (safe_rules, write_import-Safe) depth 8

  patch_entries-Safe :
      (dlls : Dict Text LoadedDll) (es : List DllIatEntry)
      → Safe {N = N} (patch_entries halting dlls es)
  unfolding patch_entries
  patch_entries-Safe dlls [] = Safe-pure tt
  patch_entries-Safe dlls (e ∷ es) =
      Safe-bind _ _ (patch_iat_entry-Safe e.iat_addr _ e.func_name _ _)
        λ outcome. patch_entries-Safe dlls es

  pub patch_dll_iats-Safe : (s : LoaderState) → Safe {N = N} (patch_dll_iats halting s)
  unfolding patch_dll_iats
  patch_dll_iats-Safe s = patch_entries-Safe s.loaded_dlls _

  patch_found-Safe :
      (d f : Text) (addr : ℕ) (e : HandlerEntry) (h : Option ℕ)
      → outside_stubs addr ≡ true
      → Safe {N = N} (elim h [
        | none ↦ patch_address_to_guest_code addr e.address
        | some k ↦ patch_address addr f k
      ])
  patch_found-Safe d f addr e none outside = patch_to_guest-Safe addr e.address
  patch_found-Safe d f addr e (some k) outside = record {
    at = λ p h. patch_address-IsSafe addr f k p outside h;
  }

  patch_export-Safe :
      (d f : Text) (addr : ℕ) (e : Option HandlerEntry)
      → Safe {N = N} (patch_export halting d f addr e)
  unfolding patch_export
  patch_export-Safe d f addr none = Safe-pure tt
  patch_export-Safe d f addr (some e) = elim (Bool-cases (outside_stubs addr)) [
    | inl outside ↦ rw outside (patch_found-Safe d _ addr e e.handler outside)
    | inr inside ↦ rw inside (Safe-pure tt)
  ]

  patch_exports-Safe :
      (d : Text) (exports : Dict Text ℕ) → Safe {N = N} (patch_exports halting d exports)
  unfolding patch_exports
  patch_exports-Safe d [] = Safe-pure tt
  patch_exports-Safe d ((f, addr) ∷ exports) = Safe-bind _ _ Safe-get_table λ t.
      Safe-bind _ _
        (Safe-if (has_prefix (codes "Ordinal #") f) _ _ (Safe-pure tt)
          (λ named. patch_export-Safe d f addr _))
        λ u. patch_exports-Safe d exports

  pub patch_dll_exports-Safe :
      (dlls : Dict Text LoadedDll) → Safe {N = N} (patch_dll_exports halting dlls)
  unfolding patch_dll_exports
  patch_dll_exports-Safe [] = Safe-pure tt
  patch_dll_exports-Safe ((d, dll) ∷ dlls) =
      Safe-bind _ _ (patch_exports-Safe d dll.exports) λ u. patch_dll_exports-Safe dlls
