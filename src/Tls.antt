-- ===== src/Tls.antt =====
-- Thread-local storage: TlsAlloc, TlsSetValue, TlsGetValue and TlsFree of tew/api/kernel32_sync.py, and
-- tls_thread_store of tew/api/_state.py.
pub mod Slots
use tew.Base.{
  ℕ, ◌+◌, ◌*◌, ◌%◌, leb, ◌==◌, if◌then◌else◌, Bool, true, false, Option, none, some, List, [], ◌∷◌,
  Dict, get, put, pop, get_or, nat_key, ◌>>=◌, ◌>>◌, pure,
}
use tew.State.{TlsState, teb_base}
use tew.State.Native.{Native}
use tew.Machine.{
  Action, get_state, get_native, put_native, put_tls, set_eax, arg, write32, return_stdcall,
  current_thread_id,
}

abbrev tls_out_of_indexes : ℕ
tls_out_of_indexes = 0xFFFFFFFF

-- tls_thread_store(tid), which makes an empty store for a thread that has none
unfoldable pub thread_store : ℕ → Dict ℕ (Dict ℕ ℕ) → Dict ℕ ℕ
thread_store tid stores = get_or (get tid stores) []

-- tls_thread_store(tid)[idx] = val
unfoldable pub store_value : ℕ → ℕ → ℕ → Dict ℕ (Dict ℕ ℕ) → Dict ℕ (Dict ℕ ℕ)
store_value tid idx val stores = put tid (put idx val (thread_store tid stores)) stores

-- tls_thread_store(tid).get(idx, 0)
unfoldable pub slot_value : ℕ → ℕ → Dict ℕ (Dict ℕ ℕ) → ℕ
slot_value tid idx stores = get_or (get idx (thread_store tid stores)) 0

-- for store in tls_store.values(): store.pop(idx, None)
unfoldable pub clear_slot : ℕ → Dict ℕ (Dict ℕ ℕ) → Dict ℕ (Dict ℕ ℕ)
clear_slot idx [] = []
clear_slot idx ((tid, store) ∷ stores) = (tid, pop idx store) ∷ clear_slot idx stores

module _ {N : Type 0} ⦃lib : Native N⦄ where
  -- scheduler.tls_slot_allocated, which takes the low byte of the index
  unfoldable pub slot_allocated : ℕ → Action N Bool
  slot_allocated idx = do n ← get_native; pure (lib.tls_slot_allocated n (idx % 256))

  unfoldable pub tls_alloc : Action N (Unit {0})
  tls_alloc = do
    s ← get_state
    if leb s.tls.tls_max_slots s.tls.next_tls_slot then set_eax tls_out_of_indexes else do
      put_tls (record (s.tls) { next_tls_slot = s.tls.next_tls_slot + 1 })
      n ← get_native
      put_native (lib.tls_alloc_slot n (s.tls.next_tls_slot % 256))
      set_eax (s.tls.next_tls_slot)

  unfoldable pub tls_set_value : Action N (Unit {0})
  tls_set_value = do
    idx ← arg 4
    val ← arg 8
    valid ← slot_allocated idx
    if valid
        then (do
          write32 (teb_base + 0xE0 + idx * 4) val
          tid ← current_thread_id
          s ← get_state
          put_tls (record (s.tls) { tls_store = store_value tid idx val s.tls.tls_store })
          return_stdcall 1 8)
        else return_stdcall 0 8

  unfoldable pub tls_get_value : Action N (Unit {0})
  tls_get_value = do
    idx ← arg 4
    valid ← slot_allocated idx
    if valid
        then (do
          tid ← current_thread_id
          s ← get_state
          put_tls (record (s.tls) {
            tls_store = elim (get tid s.tls.tls_store) [
              | none ↦ put tid [] s.tls.tls_store
              | some d ↦ s.tls.tls_store
            ];
          })
          return_stdcall (slot_value tid idx s.tls.tls_store) 4)
        else return_stdcall 0 4

  unfoldable pub tls_free : Action N (Unit {0})
  tls_free = do
    idx ← arg 4
    valid ← slot_allocated idx
    if valid
        then (do
          n ← get_native
          put_native (lib.tls_free_slot n (idx % 256))
          s ← get_state
          put_tls (record (s.tls) { tls_store = clear_slot idx s.tls.tls_store })
          write32 (teb_base + 0xE0 + idx * 4) 0
          return_stdcall 1 4)
        else return_stdcall 0 4
