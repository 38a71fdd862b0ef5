-- ===== src/Handlers/Calls.antt =====
-- The interrupt of a stub, and what looks a name or an address of a stub up: Win32Handlers of
-- tew/api/win32_handlers.py.
use tew.Base.{
  ℕ, ◌+◌, ◌-◌, ◌^◌, ◌<◌, ◌≡◌, ◌==◌, refl, Bool, if◌then◌else◌, Option, none, some, List, [], ◌∷◌,
  ◌++◌, Text, get, has_key, text_key, nat_key, text_same, has_suffix, codes, runtime_error,
  type_error, raise, arith,
}
use tew.Machine.{Action, mask32}
use tew.Ini.{lower}
use tew.Handlers.{HandlerEntry, HandlerTable, key_of, Stubs, Stub, on_world, get_handler_address}
use tew.Handlers.Table.{TableOk}

unfoldable pub has_handler : Text → Text → HandlerTable → Bool
has_handler dll_name func_name t = has_key (key_of dll_name func_name) t.handlers

unfoldable pub lookup_handler_address : Text → Text → HandlerTable → ℕ
lookup_handler_address dll_name func_name t = elim (get_handler_address dll_name func_name t) [
  | none ↦ 0
  | some a ↦ a
]

-- norm, with ".dll" at its end
abbrev with_dll : Text → Text
with_dll name =
    if has_suffix (codes ".dll") (lower name) then lower name else lower name ++ codes ".dll"

abbrev first_of_dll : Text → List HandlerEntry → Option ℕ
first_of_dll name [] = none
first_of_dll name (e ∷ es) =
    if text_same e.dll_name name then some e.address else first_of_dll name es

unfoldable pub get_stub_dll_handle : Text → HandlerTable → Option ℕ
get_stub_dll_handle dll_name t = first_of_dll (with_dll dll_name) t.handlers_by_id

abbrev dll_at : ℕ → List HandlerEntry → Option Text
dll_at handle [] = none
dll_at handle (e ∷ es) = if e.address == handle then some e.dll_name else dll_at handle es

unfoldable pub get_dll_name_for_stub_handle : ℕ → HandlerTable → Option Text
get_dll_name_for_stub_handle handle t = dll_at handle t.handlers_by_id

module _ {N : Type 0} (run : ℕ → Action N (Unit {0})) where
  -- entry.handler(cpu); None cannot be called
  unfoldable pub call_entry : Option HandlerEntry → Stub N (Unit {0})
  call_entry none = raise runtime_error
  call_entry (some e) = elim e.handler [ none ↦ raise type_error | some h ↦ on_world (run h) ]

  -- EIP is past the two bytes of INT 0xFE.
  unfoldable pub handle_api_int : Stub N (Unit {0})
  handle_api_int p =
      call_entry (get (mask32 (p.world.cpu.eip + 2 ^ 32 - 2)) p.table.handlers_by_addr) p

-- In a table whose entries are reachable, INT 0xFE at the address of a name that has a handler runs just that
-- handler.
pub handle_api_int_lem :
    {N : Type 0} (run : ℕ → Action N (Unit {0})) (p : Stubs N) (key : Text) (e : HandlerEntry)
    (h : ℕ)
    → TableOk p.table
    → get key p.table.handlers ≡ some e
    → e.handler ≡ some h
    → e.address < 2 ^ 32
    → p.world.cpu.eip ≡ e.address + 2
    → handle_api_int run p ≡ on_world (run h) p
unfolding handle_api_int call_entry
handle_api_int_lem run p key e h good named has low at_stub =
    let back : mask32 (p.world.cpu.eip + 2 ^ 32 - 2) ≡ e.address = omega arith in
    rw (back, good.reached key e h named has, has) refl
