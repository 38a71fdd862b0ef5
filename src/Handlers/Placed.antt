-- ===== src/Handlers/Placed.antt =====
-- That exports placed as guest code leave the other names reachable, for register_guest_code of
-- tew/api/win32_handlers.py.
use tew.Base.{
  ℕ, ◌+◌, ◌-◌, ◌*◌, ◌/◌, ◌≤◌, ◌<◌, ◌≡◌, inl, inr, refl, ltb, Bool, true, false, not, ◌||◌,
  Bool-cases, if◌then◌else◌, none, some, List, [], ◌∷◌, length, replicate, Dict, Text, get,
  text_key, nat_key, get-put, Result, ok, err, proceed, ◌>>=◌, ◌>>◌, pure, raise, runtime_error,
  arith,
}
use tew.State.Native.{Native}
use tew.Machine.{Action, load}
use tew.Handlers.{
  HandlerEntry, HandlerTable, handler_size, Stubs, Stub, get_table, put_table, on_world, hooks_fit,
  exports_fit, slot_count, placed_entry, add_export, add_hook, add_exports, add_hooks, max_handlers,
  place_names, pad, register_guest_code, register_handler,
}
use tew.Handlers.Table.{TableOk, added, register_handler-TableOk}

-- A table in which no name with a handler is at or above `base`.
record Reserved (base : ℕ) (top : ℕ) (t : HandlerTable) : Type 0 where
  table_ok : TableOk t
  next_at : t.next_handler_addr ≡ top
  apart :
      (key : Text) (e : HandlerEntry) (h : ℕ)
      → get key t.handlers ≡ some e
      → e.handler ≡ some h
      → e.address < base

reserve :
    (more : ℕ) (t : HandlerTable)
    → TableOk t
    → Reserved t.next_handler_addr
        (t.next_handler_addr + more)
        (record t { next_handler_addr = t.next_handler_addr + more })
reserve more t good = record {
  table_ok = record {
    below = λ key e at. let b = good.below key e at in omega (arith, b);
    reached = good.reached;
  };
  next_at = refl;
  apart = λ key e h at has. good.below key e at;
}

add_export-Reserved :
    (base top : ℕ) (e : HandlerEntry) (t : HandlerTable)
    → Reserved base top t
    → e.handler ≡ none
    → e.address < top
    → Reserved base top (add_export e t)
add_export-Reserved base top e t kept native under = record {
  table_ok = record {
    below = λ key f at. elim (added e f t key at) [
      | inl new ↦ rw (new, kept.next_at) under
      | inr old ↦ kept.table_ok.below key f old
    ];
    reached = λ key f h at has. elim (added e f t key at) [
      | inl new ↦ cc
      | inr old ↦ kept.table_ok.reached key f h old has
    ];
  };
  next_at = kept.next_at;
  apart = λ key f h at has. elim (added e f t key at) [
    | inl new ↦ cc
    | inr old ↦ kept.apart key f h old has
  ];
}

add_hook-Reserved :
    (base top : ℕ) (e : HandlerEntry) (t : HandlerTable)
    → Reserved base top t
    → base ≤ e.address
    → Reserved base top (add_hook e t)
add_hook-Reserved base top e t kept over = record {
  table_ok = record {
    below = kept.table_ok.below;
    reached = λ key f h at has.
        let p = get-put e.address f.address e t.handlers_by_addr in
        let b = kept.apart key f h at has in
        let r = kept.table_ok.reached key f h at has in ground (arith, p, b, r, over);
  };
  next_at = kept.next_at;
  apart = kept.apart;
}

add_hooks-Reserved :
    (dll_name : Text) (base top : ℕ) (hooks : Dict ℕ (Text × ℕ)) (t : HandlerTable)
    → Reserved base top t
    → Reserved base top (add_hooks dll_name base hooks t)
add_hooks-Reserved dll_name base top [] t kept = kept
add_hooks-Reserved dll_name base top ((offset, hook) ∷ hooks) t kept =
    add_hooks-Reserved dll_name base top hooks
      (add_hook (placed_entry dll_name hook.0 (base + offset) (some hook.1) t) t)
      (add_hook-Reserved base top (placed_entry dll_name hook.0 (base + offset) (some hook.1) t) t
        kept (omega arith))

add_exports-Reserved :
    (dll_name : Text) (base top size : ℕ) (exports : Dict Text ℕ) (known t : HandlerTable)
    → Reserved base top t
    → exports_fit dll_name size exports known ≡ true
    → base + size ≤ top
    → Reserved base top (add_exports dll_name base exports t)
add_exports-Reserved dll_name base top size [] known t kept fits room = kept
add_exports-Reserved dll_name base top size ((func_name, offset) ∷ exports) known t kept fits room =
    add_exports-Reserved dll_name base top size exports known
      (add_export (placed_entry dll_name func_name (base + offset) none t) t)
      (add_export-Reserved base top (placed_entry dll_name func_name (base + offset) none t) t kept
        refl (ground arith))
      (ground arith) room

size_below : (size : ℕ) → size ≤ (size + handler_size - 1) / handler_size * handler_size
size_below size = omega arith

both_fit : (first second : Bool) → not first || not second ≡ false → second ≡ true
both_fit first second fit = ground arith

module _ {N : Type 0} ⦃lib : Native N⦄ where
  after :
      {A B : Type 0} (base top : ℕ) (r : Result A) (q : Stubs N) (k : A → Stub N B)
      → Reserved base top q.table
      → ((a : A) (q' : Stubs N) → Reserved base top q'.table → TableOk ((k a q').1.table))
      → TableOk ((proceed (r, q) k).1.table)
  after base top (ok a) q k kept rest = rest a q kept
  after base top (err e) q k kept rest = kept.table_ok

  after_world :
      {B : Type 0} (base top : ℕ) (m : Action N (Unit {0})) (rest : Stub N B) (q : Stubs N)
      → Reserved base top q.table
      → ((q' : Stubs N) → Reserved base top q'.table → TableOk ((rest q').1.table))
      → TableOk ((on_world m >> rest) q).1.table
  unfolding on_world ◌>>=◌
  after_world base top m rest q kept then_ok =
      after base top (m q.world).0 (record q { world = (m q.world).1 }) (λ u. rest) kept
        (λ u q' k. then_ok q' k)

  last :
      (test : Bool) (base : ℕ) (q : Stubs N)
      → TableOk q.table
      → TableOk ((if test then raise runtime_error else pure {W = Stubs N} base) q).1.table
  unfolding raise pure
  last true base q good = good
  last false base q good = good

  place_names-TableOk :
      (dll_name : Text) (base top size : ℕ) (exports : Dict Text ℕ) (hooks : Dict ℕ (Text × ℕ))
      (known : HandlerTable)
      → exports_fit dll_name size exports known ≡ true
      → base + size ≤ top
      → (q : Stubs N) → Reserved base top q.table
      → TableOk (place_names dll_name base exports hooks q).1.table
  unfolding place_names ◌>>=◌ get_table put_table
  place_names-TableOk dll_name base top size exports hooks known fits room q kept =
      let placed =
        add_exports-Reserved dll_name base top size exports known q.table kept fits room in
      let hooked =
        add_hooks-Reserved dll_name base top hooks (add_exports dll_name base exports q.table)
          placed in
      last
        (ltb max_handlers (
          length
            (add_hooks dll_name base hooks
              (add_exports dll_name base exports q.table)).handlers_by_id))
        base
        (record q {
          table = add_hooks dll_name base hooks (add_exports dll_name base exports q.table);
        })
        hooked.table_ok

  -- Placing guest code keeps the names reachable, however it ends.
  pub register_guest_code-TableOk :
      (dll_name : Text) (code : List ℕ) (exports : Dict Text ℕ) (hooks : Dict ℕ (Text × ℕ))
      (p : Stubs N)
      → TableOk p.table
      → TableOk (register_guest_code dll_name code exports hooks p).1.table
  unfolding register_guest_code ◌>>=◌ get_table put_table on_world raise
  register_guest_code-TableOk dll_name code exports hooks p good =
      elim (Bool-cases
        (not (hooks_fit code hooks) || not (exports_fit dll_name (length code) exports p.table))) [
          | inl bad ↦ rw bad good
          | inr fit ↦ rw fit (
              let base = p.table.next_handler_addr in
              let taken = slot_count code * handler_size in
              let kept = reserve taken p.table good in
              let fits =
                both_fit (hooks_fit code hooks) (exports_fit dll_name (length code) exports p.table)
                  fit in
              let room = size_below (length code) in
              let names = place_names dll_name base exports hooks in
              let padding = pad (base + length code) (replicate (taken - length code) 0xCC) in
              after_world base (base + taken) (load base code) (on_world padding >> names)
                (record p { table = record p.table { next_handler_addr = base + taken } }) kept
                (λ q kept'. after_world base (base + taken) padding names q kept' (
                  place_names-TableOk dll_name base (base + taken) (length code) exports hooks
                    p.table fits (omega (arith, room)))))
        ]

  -- The address of every name stays below the next slot, and a name that has a handler keeps its own entry
  -- at its address, when a handler is registered and when guest code is placed, also where these raise.
  pub table-TableOk :
      (dll_name func_name : Text) (handler : ℕ) (code : List ℕ) (exports : Dict Text ℕ)
      (hooks : Dict ℕ (Text × ℕ)) (p : Stubs N)
      → TableOk p.table
      → TableOk (register_handler dll_name func_name handler p).1.table
        × TableOk (register_guest_code dll_name code exports hooks p).1.table
  table-TableOk dll_name func_name handler code exports hooks p good = (
    register_handler-TableOk dll_name func_name handler p good,
    register_guest_code-TableOk dll_name code exports hooks p good,
  )
