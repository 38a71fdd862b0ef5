-- ===== src/Patching/Slots.antt =====
-- What a call through a slot of an import table runs, for tew/loader/dll_loader.py.
use tew.Base.{
  ℕ, ◌+◌, ◌^◌, ◌≤◌, ◌<◌, ◌≡◌, ◌==◌, refl, false, Option, some, Text, get, text_key, nat_key, ok,
  or_raise, ◌>>=◌, pure, arith,
}
use tew.State.Native.{Native}
use tew.Machine.{Action, mask32, write32, get_memory, put_memory}
use tew.Handlers.{
  HandlerEntry, HandlerTable, key_of, Stubs, Stub, get_table, on_world, get_handler_address,
}
use tew.Handlers.Table.{TableOk}
use tew.Handlers.Calls.{handle_api_int, handle_api_int_lem}
use tew.Seh.Cells.{IsWordMemory}
use tew.Patching.{by_handler, stub_address, registered_address, write_import, patch_iat_entry}

-- The state after a call of a patched import, at the stub that the slot has.
module _ {N : Type 0} ⦃lib : Native N⦄ (laws : IsWordMemory lib) (halting : Text → Text → ℕ) where
  open laws use {read_written, written}

  slot_written :
      (addr a : ℕ) (p : Stubs N)
      → addr + 4 ≤ p.world.memory.size
      → p.world.memory.size ≤ 2 ^ 32
      → a < 2 ^ 32
      → ((on_world (write32 addr a) p).0 ≡ ok tt)
        × ((on_world (write32 addr a) p).1.table ≡ p.table)
        × (lib.mem_read32 (on_world (write32 addr a) p).1.world.memory addr ≡ some a)
  unfolding on_world write32 get_memory put_memory or_raise ◌>>=◌
  slot_written addr a p room small word =
      let w = written p.world.memory addr a room in
      let plain : mask32 addr ≡ addr = omega arith in
      let value : mask32 a ≡ a = omega arith in
      rw (plain, value, w.1) (refl, refl, read_written p.world.memory w.0 addr a word w.1)

  stub_found :
      (d f : Text) (alias : Option Text) (t : HandlerTable) (e : HandlerEntry)
      → get (key_of d f) t.handlers ≡ some e
      → 0 < e.address
      → registered_address d f alias t ≡ some e.address
  unfolding registered_address stub_address get_handler_address
  stub_found d f alias t e named positive =
      let nonzero : (e.address == 0) ≡ false = ground arith in ground (arith, named, nonzero)

  slot_patched :
      (addr a : ℕ) (d f : Text) (real : Option ℕ) (alias : Option Text) (p : Stubs N)
      → registered_address d f alias p.table ≡ some a
      → patch_iat_entry halting addr d f real alias p
        ≡ (on_world (write32 addr a) >>= λ u. pure by_handler) p
  unfolding patch_iat_entry get_table ◌>>=◌ write_import
  slot_patched addr a d f real alias p found = rw found refl

  answered :
      {A : Type 0} (m : Stub N (Unit {0})) (x : A) (p : Stubs N)
      → (m p).0 ≡ ok tt
      → (m >>= λ u. pure x) p ≡ (ok x, (m p).1)
  unfolding ◌>>=◌ pure
  answered m x p e = rw e refl

  -- An import with a registered handler gets the stub of its name, whether or not the DLL exports the name: in
  -- memory that has the slot, the patch answers by_handler, leaves the address of the stub in the slot and the
  -- table as it was, and a thread that has run INT 0xFE at that address runs that handler.
  pub import_call :
      (run : ℕ → Action N (Unit {0})) (addr : ℕ) (d f : Text) (real : Option ℕ)
      (alias : Option Text) (p q : Stubs N) (e : HandlerEntry) (h : ℕ)
      → TableOk p.table
      → get (key_of d f) p.table.handlers ≡ some e
      → e.handler ≡ some h
      → (0 < e.address) × (e.address < 2 ^ 32)
      → (addr + 4 ≤ p.world.memory.size) × (p.world.memory.size ≤ 2 ^ 32)
      → q.table ≡ p.table
      → q.world.cpu.eip ≡ e.address + 2
      → ((patch_iat_entry halting addr d f real alias p).0 ≡ ok by_handler)
        × ((patch_iat_entry halting addr d f real alias p).1.table ≡ p.table)
        × (lib.mem_read32 (patch_iat_entry halting addr d f real alias p).1.world.memory addr
            ≡ some e.address)
        × (handle_api_int run q ≡ on_world (run h) q)
  import_call run addr d f real alias p q e h good named has range room same at_stub =
      let found = stub_found d f alias p.table e named range.0 in
      let patched = slot_patched addr e.address d f real alias p found in
      let slot = slot_written addr e.address p room.0 room.1 range.1 in
      let called =
        handle_api_int_lem run q (key_of d f) e h (rw same good) (rw same named) has range.1
          at_stub in
      rw (patched, answered (on_world (write32 addr e.address)) by_handler p slot.0)
        (refl, slot.1, slot.2, called)
