-- ===== src/Handlers/Table.antt =====
-- That a call through a stub reaches the handler of its name, for tew/api/win32_handlers.py.
use tew.Base.{
  ℕ, ◌<◌, ◌≡◌, ◌⊎◌, inl, inr, refl, leb, true, false, not, ◌&&◌, Bool-cases, if◌then◌else◌, Option,
  none, some, Option-cases, length, Dict, Text, get, put, has_key, text_key, nat_key, text_same,
  get-put, ◌>>=◌, pure, raise, arith,
}
use std.Option.{some-injective}
use tew.State.Native.{Native}
use tew.Handlers.{
  HandlerEntry, HandlerTable, handler_size, max_handlers, key_of, Stubs, get_table, put_table,
  on_world, advance_table, add_entry, new_entry, register_handler,
}

-- What a call of a name runs: the handler of the entry that INT 0xFE finds at the address of the name, or
-- guest code (none), for a name that has no handler.
pub called : Text → HandlerTable → Option (Option ℕ)
called key t = elim (get key t.handlers) [
  | none ↦ none
  | some e ↦ elim e.handler [
    | none ↦ some none
    | some h ↦ elim (get e.address t.handlers_by_addr) [ none ↦ none | some f ↦ some f.handler ]
  ]
]

-- The address of each name is below the next slot, and the entry of a name with a handler is at its address.
pub record TableOk (t : HandlerTable) : Type 0 where
  pub below :
      (key : Text) (e : HandlerEntry)
      → get key t.handlers ≡ some e
      → e.address < t.next_handler_addr
  pub reached :
      (key : Text) (e : HandlerEntry) (h : ℕ)
      → get key t.handlers ≡ some e
      → e.handler ≡ some h
      → get e.address t.handlers_by_addr ≡ some e

has_key-get : (key : Text) (d : Dict Text HandlerEntry) → has_key key d ≡ false → get key d ≡ none
has_key-get key d absent = elim (Option-cases (get key d)) [
  | inl nothing ↦ nothing
  | inr (e, found) ↦ ground arith
]

pub advance_table-TableOk : (t : HandlerTable) → TableOk t → TableOk (advance_table handler_size t)
advance_table-TableOk t good = record {
  below = λ key e at. let b = good.below key e at in omega (arith, b);
  reached = good.reached;
}

-- The entry that a name has after one is added is the new one, or it is one that was there.
pub added :
    (e f : HandlerEntry) (t : HandlerTable) (key : Text)
    → get key (put e.name e t.handlers) ≡ some f
    → (f ≡ e) ⊎ (get key t.handlers ≡ some f)
added e f t key at = elim (Bool-cases (text_same e.name key)) [
  | inl same ↦ inl let p = get-put e.name key e t.handlers in some-injective (ground (arith, p))
  | inr other ↦ inr let p = get-put e.name key e t.handlers in ground (arith, p)
]

pub add_entry-TableOk :
    (e : HandlerEntry) (t : HandlerTable)
    → TableOk t
    → e.address ≡ t.next_handler_addr
    → TableOk (add_entry e (advance_table handler_size t))
unfolding add_entry
add_entry-TableOk e t good fits = record {
  below = λ key f at. elim (added e f t key at) [
    | inl new ↦ rw (new, fits) (omega arith)
    | inr old ↦ let b = good.below key f old in omega (arith, b)
  ];
  reached = λ key f h at has. elim (added e f t key at) [
    | inl new ↦
        rw new (let p = get-put e.address e.address e t.handlers_by_addr in ground (arith, p))
    | inr old ↦
        let p = get-put e.address f.address e t.handlers_by_addr in
        let b = good.below key f old in
        let r = good.reached key f h old has in ground (arith, p, b, r)
  ];
}

pub register_result :
    {N : Type 0} ⦃lib : Native N⦄ (dll_name func_name : Text) (handler : ℕ) (p : Stubs N)
    → ((register_handler dll_name func_name handler p).1.table ≡ p.table)
      ⊎ ((get (key_of dll_name func_name) p.table.handlers ≡ none)
          × ((register_handler dll_name func_name handler p).1.table
              ≡ advance_table handler_size p.table))
      ⊎ ((get (key_of dll_name func_name) p.table.handlers ≡ none)
          × ((register_handler dll_name func_name handler p).1.table
              ≡ add_entry
                  (new_entry dll_name func_name handler p.table)
                  (advance_table handler_size p.table)))
unfolding register_handler ◌>>=◌ get_table put_table on_world pure raise
register_result dll_name func_name handler p =
    elim (Bool-cases (has_key (key_of dll_name func_name) p.table.handlers)) [
      | inl known ↦ inl (rw known refl)
      | inr fresh ↦ elim (Bool-cases (leb max_handlers (length p.table.handlers_by_id))) [
        | inl full ↦ inr (
            inl (
              has_key-get (key_of dll_name func_name) p.table.handlers fresh,
              rw fresh (rw full refl),
            ))
        | inr room ↦ inr (
            inr (
              has_key-get (key_of dll_name func_name) p.table.handlers fresh,
              rw fresh (rw room refl),
            ))
      ]
    ]

-- Registering keeps the slots of the names apart and their entries reachable.
pub register_handler-TableOk :
    {N : Type 0} ⦃lib : Native N⦄ (dll_name func_name : Text) (handler : ℕ) (p : Stubs N)
    → TableOk p.table
    → TableOk (register_handler dll_name func_name handler p).1.table
register_handler-TableOk dll_name func_name handler p good =
    elim (register_result dll_name func_name handler p) [
      | inl same ↦ rw same good
      | inr (inl (fresh, moved)) ↦ rw moved (advance_table-TableOk p.table good)
      | inr (inr (fresh, stored)) ↦
          rw stored
            (add_entry-TableOk (new_entry dll_name func_name handler p.table) p.table good refl)
    ]

abbrev handler_of : Option HandlerEntry → Option (Option ℕ)
handler_of none = none
handler_of (some e) = some e.handler

called-handler_of :
    (key : Text) (t : HandlerTable) → TableOk t → called key t ≡ handler_of (get key t.handlers)
unfolding called
called-handler_of key t good = elim (Option-cases (get key t.handlers)) [
  | inl nothing ↦ ground (arith, nothing)
  | inr (e, found) ↦ elim (Option-cases e.handler) [
    | inl native ↦ ground (arith, found, native)
    | inr (h, has) ↦ let r = good.reached key e h found has in ground (arith, found, has, r)
  ]
]

registered :
    {N : Type 0} ⦃lib : Native N⦄ (dll_name func_name : Text) (handler : ℕ) (p : Stubs N)
    → has_key (key_of dll_name func_name) p.table.handlers ≡ false
    → leb max_handlers (length p.table.handlers_by_id) ≡ false
    → (register_handler dll_name func_name handler p).1.table
      ≡ add_entry
          (new_entry dll_name func_name handler p.table)
          (advance_table handler_size p.table)
unfolding register_handler ◌>>=◌ get_table put_table on_world pure raise
registered dll_name func_name handler p fresh room = rw fresh (rw room refl)

known_kept :
    {N : Type 0} ⦃lib : Native N⦄ (dll_name func_name : Text) (handler : ℕ) (p : Stubs N)
    → has_key (key_of dll_name func_name) p.table.handlers ≡ true
    → (register_handler dll_name func_name handler p).1.table ≡ p.table
unfolding register_handler ◌>>=◌ get_table pure
known_kept dll_name func_name handler p known = rw known refl

get-add_entry :
    (e : HandlerEntry) (t : HandlerTable) (key : Text)
    → get key (add_entry e t).handlers
      ≡ (if text_same e.name key then some e else get key t.handlers)
unfolding add_entry
get-add_entry e t key = get-put e.name key e t.handlers

called-add_entry :
    (e : HandlerEntry) (t : HandlerTable) (key : Text)
    → TableOk t
    → e.address ≡ t.next_handler_addr
    → called key (add_entry e (advance_table handler_size t))
      ≡ (if text_same e.name key then some e.handler else called key t)
called-add_entry e t key good fits =
    let after =
      called-handler_of key (add_entry e (advance_table handler_size t))
        (add_entry-TableOk e t good fits) in
    let found = get-add_entry e (advance_table handler_size t) key in
    let before = called-handler_of key t good in
    elim (Bool-cases (text_same e.name key)) [
      | inl same ↦ rw (after, found, same) refl
      | inr other ↦ rw (after, found, other, before) refl
    ]

-- While there is room, registering a name gives the call of its stub that handler, unless the name had one,
-- and leaves what a call of any other name runs as it was.
pub called-register_handler :
    {N : Type 0} ⦃lib : Native N⦄ (dll_name func_name : Text) (handler : ℕ) (p : Stubs N)
    → TableOk p.table
    → leb max_handlers (length p.table.handlers_by_id) ≡ false
    → (key : Text)
    → called key (register_handler dll_name func_name handler p).1.table ≡ (
        if not (has_key (key_of dll_name func_name) p.table.handlers)
          && text_same (key_of dll_name func_name) key
        then some (some handler)
        else called key p.table)
called-register_handler dll_name func_name handler p good room key =
    elim (Bool-cases (has_key (key_of dll_name func_name) p.table.handlers)) [
      | inl known ↦ rw (known, known_kept dll_name func_name handler p known) refl
      | inr fresh ↦
          rw (fresh, registered dll_name func_name handler p fresh room)
            (called-add_entry (new_entry dll_name func_name handler p.table) p.table key good refl)
    ]
