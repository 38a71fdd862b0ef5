-- ===== src/Tests/Calls.antt =====
-- The theorem on the handler table at a table with one name.
use tew.Base.{
  ℕ, ◌≡◌, ◌∷◌, [], List, inl, none, ok, or_raise, refl, not, ◌&&◌, if◌then◌else◌, some, codes,
  text_same, get, put, length, leb, false, ◌>>=◌, pure, raise, has_key, text_key, arith,
}
use tew.Handlers.{
  Stubs, HandlerEntry, new_entry, write_bytes, empty_table, key_of, register_handler,
  register_guest_code, get_table, put_table, on_world, add_entry, max_handlers,
}
use tew.Handlers.Table.{TableOk, called, called-register_handler, register_handler-TableOk}
use tew.Handlers.Placed.{table-TableOk}
use tew.Handlers.Calls.{handle_api_int}
use tew.Machine.{set_eax, write8, get_memory, put_memory}
use tew.Ini.{lower, lower_char}
use tew.Pe.{ImportDescriptor}
use tew.Patching.{Linker, by_handler, patch_iat_entry, build_iat_map, write_iat_handlers}
use tew.Patching.Keeps.{IsSafe}
use tew.Patching.Imports.{imports-IsSafe}
use tew.Patching.Slots.{import_call}
use tew.Tests.Loading.{first_dll, demo_dlls, reserved_loader}
use tew.Tests.Words.{demo_laws}
use tew.Tests.Demo.{demo_native, demo_call}

abbrev started : Stubs ℕ
started = record { table = empty_table; world = demo_call [] }

started-TableOk : TableOk started.table
unfolding get
started-TableOk = record {
  below = λ key e at. ground arith;
  reached = λ key e h at has. ground arith;
}

-- RegisterHandler of kernel32.dll!Sleep
abbrev one_name : Stubs ℕ
one_name = (register_handler (codes "KERNEL32.dll") (codes "Sleep") 7 started).1

one_name_room : leb max_handlers (length one_name.table.handlers_by_id) ≡ false
unfolding register_handler ◌>>=◌ get_table put_table on_world add_entry pure raise get put
one_name_room = refl

called-register_handler_example :
    called
      (codes "user32.dll!Beep")
      (register_handler (codes "USER32.dll") (codes "Beep") 8 one_name).1.table
    ≡ (if not (has_key (key_of (codes "USER32.dll") (codes "Beep")) one_name.table.handlers)
          && text_same (key_of (codes "USER32.dll") (codes "Beep")) (codes "user32.dll!Beep")
        then some (some 8)
        else called (codes "user32.dll!Beep") one_name.table)
called-register_handler_example =
    called-register_handler (codes "USER32.dll") (codes "Beep") 8 one_name
      (register_handler-TableOk (codes "KERNEL32.dll") (codes "Sleep") 7 started started-TableOk)
      one_name_room (codes "user32.dll!Beep")

-- INT 0xFE; RET, exported as Enter with a hook at its start, and a new name beside it
table-TableOk_example :
    TableOk (register_handler (codes "kernel32.dll") (codes "Beep") 8 started).1.table
    × TableOk
        (register_guest_code
          (codes "kernel32.dll")
          (0xCD ∷ 0xFE ∷ 0xC3 ∷ [])
          ((codes "Enter", 0) ∷ [])
          ((0, (codes "EnterHook", 9)) ∷ [])
          started).1.table
table-TableOk_example =
    table-TableOk (codes "kernel32.dll") (codes "Beep") 8 (0xCD ∷ 0xFE ∷ 0xC3 ∷ [])
      ((codes "Enter", 0) ∷ []) ((0, (codes "EnterHook", 9)) ∷ []) started started-TableOk

started-IsSafe : IsSafe started.table
unfolding get
started-IsSafe = inl (record {
  table_ok = started-TableOk;
  starts = omega arith;
  from_base = λ key e at. ground arith;
})

-- The program imports a.dll, which imports b.dll.
abbrev linking : Linker ℕ
linking = record {
  table = empty_table;
  loader = reserved_loader;
  world = demo_call [];
  iat_map = [];
}

abbrev program_imports : List ImportDescriptor
program_imports =
    record {
      dll_name = first_dll;
      entries =
          record {
            name = codes "Run";
            ordinal = none;
            hint = 0;
            iat_rva = 0x2000;
            iat_file_offset = none;
            iat_value = 0;
          }
          ∷ [];
      original_first_thunk = 0;
      first_thunk = 0x2000;
    }
    ∷ []

imports-IsSafe_example :
    IsSafe
      (build_iat_map ⦃lib = demo_native⦄
        (λ d f. 99)
        none
        demo_dlls
        3
        program_imports
        linking).1.table
    × IsSafe
        (write_iat_handlers ⦃lib = demo_native⦄
          (λ d f. 99)
          0x00400000
          program_imports
          linking).1.table
imports-IsSafe_example =
    imports-IsSafe ⦃lib = demo_native⦄ (λ d f. 99) none demo_dlls 3 0x00400000 program_imports
      linking started-IsSafe

-- A call of the stub of Sleep.
abbrev calling : Stubs ℕ
calling = record one_name {
  world = record (one_name.world) { cpu = record (one_name.world.cpu) { eip = 0x00200002 } };
}

abbrev sleep_entry : HandlerEntry
sleep_entry = new_entry (codes "KERNEL32.dll") (codes "Sleep") 7 empty_table

sleep_named :
    get (key_of (codes "kernel32.dll") (codes "Sleep")) one_name.table.handlers ≡ some sleep_entry
unfolding register_handler ◌>>=◌ get_table put_table on_world add_entry pure raise get put key_of
    lower lower_char
sleep_named = refl

one_name_size : one_name.world.memory.size ≡ 0x10000000
unfolding register_handler ◌>>=◌ get_table put_table on_world add_entry pure raise get write_bytes
    write8 or_raise get_memory put_memory
one_name_size = refl

import_call_example :
    ((patch_iat_entry
        (λ d f. 99)
        0x2000
        (codes "kernel32.dll")
        (codes "Sleep")
        (some 0x7C000000)
        none
        one_name).0
      ≡ ok by_handler)
    × ((patch_iat_entry
          (λ d f. 99)
          0x2000
          (codes "kernel32.dll")
          (codes "Sleep")
          (some 0x7C000000)
          none
          one_name).1.table
        ≡ one_name.table)
    × (demo_native.mem_read32
          (patch_iat_entry
            (λ d f. 99)
            0x2000
            (codes "kernel32.dll")
            (codes "Sleep")
            (some 0x7C000000)
            none
            one_name).1.world.memory
          0x2000
        ≡ some 0x00200000)
    × (handle_api_int (λ h. set_eax h) calling ≡ on_world (set_eax 7) calling)
import_call_example =
    import_call demo_laws (λ d f. 99) (λ h. set_eax h) 0x2000 (codes "kernel32.dll") (codes "Sleep")
      (some 0x7C000000) none one_name calling sleep_entry 7
      (register_handler-TableOk (codes "KERNEL32.dll") (codes "Sleep") 7 started started-TableOk)
      sleep_named refl (omega arith) (omega (arith, one_name_size)) refl refl
