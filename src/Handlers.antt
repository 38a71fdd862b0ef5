-- ===== src/Handlers.antt =====
-- The table of API handlers and its stubs in guest memory: Win32Handlers of tew/api/win32_handlers.py. A
-- Python function is a number that stands for it.
pub mod Table
pub mod Placed
pub mod Calls
use tew.Base.{
  ℕ, zero, suc, ◌+◌, ◌-◌, ◌*◌, ◌/◌, ◌%◌, ◌^◌, ltb, leb, ◌==◌, Bool, true, false, not, ◌&&◌, ◌||◌,
  if◌then◌else◌, Option, none, some, List, [], ◌∷◌, ◌++◌, length, take, drop, replicate, Dict, Text,
  get, put, has_key, text_key, nat_key, text_same, codes, Exec, Result, ok, err, runtime_error,
  value_error, ◌>>=◌, ◌>>◌, pure, raise,
}
use tew.State.{World}
use tew.State.Native.{Native}
use tew.Machine.{Action, mask32, write8, load}
use tew.Ini.{lower}

pub record HandlerEntry : Type 0 where
  pub name : Text
  pub dll_name : Text
  pub func_name : Text
  pub address : ℕ
  pub handler_id : ℕ
  pub handler : Option ℕ

pub record HandlerTable : Type 0 where
  pub handlers : Dict Text HandlerEntry
  pub handlers_by_id : List HandlerEntry
  pub handlers_by_addr : Dict ℕ HandlerEntry
  pub next_handler_addr : ℕ

abbrev pub handler_base : ℕ
handler_base = 0x00200000

abbrev pub handler_size : ℕ
handler_size = 32

abbrev pub max_handlers : ℕ
max_handlers = 4096

-- Win32Handlers.__init__
abbrev pub empty_table : HandlerTable
empty_table = record {
  handlers = [];
  handlers_by_id = [];
  handlers_by_addr = [];
  next_handler_addr = handler_base;
}

abbrev pub stub_int : ℕ
stub_int = 0xFE

-- f"{dll_name.lower()}!{func_name}"
unfoldable pub key_of : Text → Text → Text
key_of dll_name func_name = lower dll_name ++ 33 ∷ func_name

pub record Stubs (N : Type 0) : Type 0 where
  pub table : HandlerTable
  pub world : World N

abbrev pub Stub : Type 0 → Type 0 → Type 0
Stub N A = Exec (Stubs N) A

module _ {N : Type 0} where
  unfoldable pub get_table : Stub N HandlerTable
  get_table p = (ok p.table, p)

  unfoldable pub put_table : HandlerTable → Stub N (Unit {0})
  put_table t p = (ok tt, record p { table = t })

  -- what the emulator does, beside the table
  unfoldable pub on_world : {A : Type 0} → Action N A → Stub N A
  on_world m p = let r = m p.world in (r.0, record p { world = r.1 })

-- INT 0xFE; RET, and the padding of a slot
abbrev pub stub_code : List ℕ
stub_code = 0xCD ∷ stub_int ∷ 0xC3 ∷ []

abbrev pub stub_bytes : List ℕ
stub_bytes = stub_code ++ replicate (handler_size - 3) 0xCC

abbrev pub advance_table : ℕ → HandlerTable → HandlerTable
advance_table n t = record t { next_handler_addr = t.next_handler_addr + n }

unfoldable pub add_entry : HandlerEntry → HandlerTable → HandlerTable
add_entry e t = record t {
  handlers = put e.name e t.handlers;
  handlers_by_id = t.handlers_by_id ++ e ∷ [];
  handlers_by_addr = put e.address e t.handlers_by_addr;
}

abbrev pub new_entry : Text → Text → ℕ → HandlerTable → HandlerEntry
new_entry dll_name func_name handler t = record {
  name = key_of dll_name func_name;
  dll_name = lower dll_name;
  func_name = func_name;
  address = t.next_handler_addr;
  handler_id = length t.handlers_by_id;
  handler = some handler;
}

unfoldable pub get_handler_address : Text → Text → HandlerTable → Option ℕ
get_handler_address dll_name func_name t = elim (get (key_of dll_name func_name) t.handlers) [
  | none ↦ none
  | some e ↦ some e.address
]

abbrev find_func : Text → List HandlerEntry → Option HandlerEntry
find_func func_name [] = none
find_func func_name (e ∷ es) =
    if text_same e.func_name func_name then some e else find_func func_name es

unfoldable pub find_handler_by_func_name : Text → HandlerTable → Option HandlerEntry
find_handler_by_func_name func_name t = find_func func_name t.handlers_by_id

abbrev pub patch_entry : ℕ → Text → ℕ → HandlerTable → HandlerEntry
patch_entry addr name handler t = record {
  name = codes "patch:" ++ name;
  dll_name = codes "patch";
  func_name = name;
  address = addr;
  handler_id = length t.handlers_by_id;
  handler = some handler;
}

-- code[offset : offset + 2] is INT 0xFE
abbrev hooks_fit : List ℕ → Dict ℕ (Text × ℕ) → Bool
hooks_fit code [] = true
hooks_fit code ((offset, hook) ∷ hooks) =
    text_same (take 2 (drop offset code)) (0xCD ∷ stub_int ∷ []) && hooks_fit code hooks

abbrev pub exports_fit : Text → ℕ → Dict Text ℕ → HandlerTable → Bool
exports_fit dll_name size [] t = true
exports_fit dll_name size ((func_name, offset) ∷ exports) t =
    ltb offset size
    && not (has_key (key_of dll_name func_name) t.handlers)
    && exports_fit dll_name size exports t

-- -(-len(code) // HANDLER_SIZE)
abbrev pub slot_count : List ℕ → ℕ
slot_count code = (length code + handler_size - 1) / handler_size

abbrev pub placed_entry : Text → Text → ℕ → Option ℕ → HandlerTable → HandlerEntry
placed_entry dll_name func_name address handler t = record {
  name = key_of dll_name func_name;
  dll_name = lower dll_name;
  func_name = func_name;
  address = address;
  handler_id = length t.handlers_by_id;
  handler = handler;
}

abbrev pub add_export : HandlerEntry → HandlerTable → HandlerTable
add_export e t = record t {
  handlers = put e.name e t.handlers;
  handlers_by_id = t.handlers_by_id ++ e ∷ [];
}

abbrev pub add_hook : HandlerEntry → HandlerTable → HandlerTable
add_hook e t = record t {
  handlers_by_id = t.handlers_by_id ++ e ∷ [];
  handlers_by_addr = put e.address e t.handlers_by_addr;
}

abbrev pub add_exports : Text → ℕ → Dict Text ℕ → HandlerTable → HandlerTable
add_exports dll_name base [] t = t
add_exports dll_name base ((func_name, offset) ∷ exports) t =
    add_exports dll_name base exports
      (add_export (placed_entry dll_name func_name (base + offset) none t) t)

abbrev pub add_hooks : Text → ℕ → Dict ℕ (Text × ℕ) → HandlerTable → HandlerTable
add_hooks dll_name base [] t = t
add_hooks dll_name base ((offset, hook) ∷ hooks) t =
    add_hooks dll_name base hooks
      (add_hook (placed_entry dll_name hook.0 (base + offset) (some hook.1) t) t)

-- n.to_bytes(4, "little")
abbrev to_bytes4 : ℕ → List ℕ
to_bytes4 n = n % 256 ∷ n / 256 % 256 ∷ n / 65536 % 256 ∷ n / 2 ^ 24 % 256 ∷ []

module _ {N : Type 0} ⦃lib : Native N⦄ where
  -- memory.write8 of the bytes, one after the other
  unfoldable pub write_bytes : ℕ → List ℕ → Action N (Unit {0})
  write_bytes addr [] = pure tt
  write_bytes addr (b ∷ bs) = do write8 addr b; write_bytes (addr + 1) bs

  -- A name that is registered keeps its handler.
  unfoldable pub register_handler : Text → Text → ℕ → Stub N (Unit {0})
  register_handler dll_name func_name handler = do
    t ← get_table
    if has_key (key_of dll_name func_name) t.handlers then pure tt else do
      put_table (advance_table handler_size t)
      if leb max_handlers (length t.handlers_by_id) then raise runtime_error else do
        put_table
            (add_entry (new_entry dll_name func_name handler t) (advance_table handler_size t))
        on_world (write_bytes t.next_handler_addr stub_bytes)

  unfoldable pub patch_address : ℕ → Text → ℕ → Stub N (Unit {0})
  patch_address addr name handler = do
    t ← get_table
    put_table (record t {
      handlers_by_id = t.handlers_by_id ++ patch_entry addr name handler t ∷ [];
      handlers_by_addr = put addr (patch_entry addr name handler t) t.handlers_by_addr;
    })
    on_world (write_bytes addr stub_code)

  -- JMP target
  unfoldable pub patch_address_to_guest_code : ℕ → ℕ → Stub N (Unit {0})
  patch_address_to_guest_code addr target =
      on_world (load addr (0xE9 ∷ to_bytes4 (mask32 (target + 2 ^ 33 - (addr + 5)))))

  -- memory.load, for bytes there are
  unfoldable pub pad : ℕ → List ℕ → Action N (Unit {0})
  pad addr [] = pure tt
  pad addr (b ∷ bs) = load addr (b ∷ bs)

  -- The names of the placed code.
  unfoldable pub place_names : Text → ℕ → Dict Text ℕ → Dict ℕ (Text × ℕ) → Stub N ℕ
  place_names dll_name base exports hooks = do
    t ← get_table
    put_table (add_hooks dll_name base hooks (add_exports dll_name base exports t))
    u ← get_table
    if ltb max_handlers (length u.handlers_by_id) then raise runtime_error else pure base

  -- dll_name, code, exports with their offsets, and hooks by their offsets
  unfoldable pub register_guest_code : Text → List ℕ → Dict Text ℕ → Dict ℕ (Text × ℕ) → Stub N ℕ
  register_guest_code dll_name code exports hooks = do
    t ← get_table
    if not (hooks_fit code hooks) || not (exports_fit dll_name (length code) exports t)
        then raise value_error
        else do
          put_table (record t {
            next_handler_addr = t.next_handler_addr + slot_count code * handler_size;
          })
          on_world (load t.next_handler_addr code)
          on_world (
              pad (t.next_handler_addr + length code)
                (replicate (slot_count code * handler_size - length code) 0xCC))
          place_names dll_name t.next_handler_addr exports hooks
