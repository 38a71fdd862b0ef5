-- ===== src/Kernel.antt =====
-- tew/kernel/kernel.py: network events of host sockets become window messages and signalled events;
-- and the blocking call of tew/hardware/scheduler_zig.py that polls them.
pub mod Keeps
use tew.Base.{
  ℕ, ◌+◌, bit_and, bit_or, ltb, ◌==◌, if◌then◌else◌, Bool, true, false, not, ◌&&◌, Option, none,
  some, List, [], ◌∷◌, ◌++◌, Dict, contains, add_to_set, get, put, pop, has_key, get_or, nat_key,
  ◌>>=◌, ◌>>◌, pure,
}
use tew.State.{
  KernelState, AsyncSelectReg, EventSelectReg, KernelHandle, EventHandle, ObjectState, Message,
  WindowState, mutex, event,
}
use tew.State.Native.{Native}
use tew.Machine.{
  Action, mask32, on_option, when, get_state, get_native, put_native, get_cpu, put_cpu, get_memory,
  put_memory, put_objects, put_kernel, put_windows, unblock_handle,
}

abbrev pub fd_read : ℕ
fd_read = 0x01

abbrev pub fd_write : ℕ
fd_write = 0x02

abbrev pub fd_connect : ℕ
fd_connect = 0x10

abbrev pub fd_close : ℕ
fd_close = 0x20

unfoldable pub register_async_select : ℕ → ℕ → ℕ → ℕ → KernelState → KernelState
register_async_select socket hwnd msg events k = record k {
  async_select =
      if events == 0
      then pop socket k.async_select
      else put socket (record { hwnd = hwnd; msg = msg; events = events }) k.async_select;
}

unfoldable pub register_event_select : ℕ → ℕ → ℕ → KernelState → KernelState
register_event_select socket event_handle events k = record k {
  event_select =
      if events == 0
      then pop socket k.event_select
      else put socket (record { event_handle = event_handle; events = events }) k.event_select;
}

-- set.discard
unfoldable pub discard : ℕ → List ℕ → List ℕ
discard a [] = []
discard a (x ∷ xs) = let rest = discard a xs in if x == a then rest else x ∷ rest

unfoldable pub unregister_socket : ℕ → KernelState → KernelState
unregister_socket socket k = record k {
  async_select = pop socket k.async_select;
  event_select = pop socket k.event_select;
  connect_fired = discard socket k.connect_fired;
}

-- The events that a socket is registered for, by either call.
unfoldable pub event_mask : ℕ → KernelState → ℕ
event_mask sh k =
    bit_or (elim (get sh k.async_select) [ none ↦ 0 | some r ↦ r.events ])
      (elim (get sh k.event_select) [ none ↦ 0 | some r ↦ r.events ])

-- set(_async_select) | set(_event_select)
unfoldable pub sockets_from : {V : Type 0} → Dict ℕ V → List ℕ → List ℕ
sockets_from [] seen = seen
sockets_from ((sh, r) ∷ d) seen = sockets_from d (add_to_set sh seen)

unfoldable pub all_sockets : KernelState → List ℕ
all_sockets k = sockets_from k.event_select (sockets_from k.async_select [])

-- The (guest, host) sockets whose mask has one of the bits.
unfoldable pub pairs_for : ℕ → KernelState → List ℕ → List (ℕ × ℕ)
unfolding event_mask
pairs_for bits k [] = []
pairs_for bits k (sh ∷ rest) =
    let others = pairs_for bits k rest in
    elim (get_or (get sh k.socket_map) none) [
      | none ↦ others
      | some sock ↦ if ltb 0 (bit_and (event_mask sh k) bits) then (sh, sock) ∷ others else others
    ]

unfoldable pub host_sockets : List (ℕ × ℕ) → List ℕ
host_sockets [] = []
host_sockets ((sh, sock) ∷ rest) = sock ∷ host_sockets rest

module _ {N : Type 0} where
  -- WindowManager.post_message
  unfoldable pub post_message : ℕ → ℕ → ℕ → ℕ → Action N Bool
  post_message hwnd msg wparam lparam = do
    s ← get_state
    if not (contains hwnd s.windows.windows) then pure false else do
      put_windows (record (s.windows) {
        message_queue =
            s.windows.message_queue
            ++ record { hwnd = hwnd; msg = msg; wparam = wparam; lparam = lparam } ∷ [];
      })
      pure true

-- The object store with one object changed.
unfoldable pub set_object : ℕ → KernelHandle → ObjectState → ObjectState
set_object r o s = record s { object = λ q. if q == r then o else s.object q }

-- kernel_handle_map.get(h)
unfoldable pub object_at : ℕ → ObjectState → Option (ℕ × KernelHandle)
object_at h s = elim (get h s.kernel_handle_map) [ none ↦ none | some r ↦ some (r, s.object r) ]

module _ {N : Type 0} ⦃lib : Native N⦄ where
  -- `if isinstance(obj, EventHandle)`: obj.signaled = True; scheduler.unblock_handle(h)
  unfoldable pub signal_object : ℕ → ℕ → KernelHandle → ObjectState → Action N (Unit {0})
  signal_object h r (mutex m) s = pure tt
  signal_object h r (event e) s = do
    put_objects (set_object r (event (record e { signaled = true })) s)
    n ← unblock_handle h
    pure tt

  unfoldable pub signal_event : ℕ → Action N (Unit {0})
  signal_event h = do
    s ← get_state
    on_option (object_at h s.objects) (pure tt) (λ found. signal_object h found.0 found.1 s.objects)

  -- the message part of _deliver; lParam has the event as its low word and no error above it
  unfoldable pub deliver_message : ℕ → ℕ → Action N (Unit {0})
  deliver_message socket event_bit = do
    s ← get_state
    on_option (get socket s.kernel.async_select) (pure tt) (λ reg.
        when (ltb 0 (bit_and reg.events event_bit))
          (do posted ← post_message reg.hwnd reg.msg socket event_bit; pure tt))

  unfoldable pub deliver : ℕ → ℕ → Action N (Unit {0})
  deliver socket event_bit = do
    deliver_message socket event_bit
    s ← get_state
    on_option (get socket s.kernel.event_select) (pure tt)
        (λ reg. when (ltb 0 (bit_and reg.events event_bit)) (signal_event reg.event_handle))

  unfoldable pub deliver_reads : List ℕ → List (ℕ × ℕ) → Action N (Unit {0})
  deliver_reads ready [] = pure tt
  deliver_reads ready ((sh, sock) ∷ rest) = do
    when (contains sock ready) (deliver sh fd_read)
    deliver_reads ready rest

  -- one writable socket: the connection is reported once, and room to write after that
  unfoldable pub deliver_write : ℕ → Action N (Unit {0})
  deliver_write sh = do
    s ← get_state
    if ltb 0 (bit_and (event_mask sh s.kernel) fd_connect)
          && not (contains sh s.kernel.connect_fired)
        then (do
          deliver sh fd_connect
          t ← get_state
          put_kernel (record (t.kernel) { connect_fired = add_to_set sh t.kernel.connect_fired }))
        else when (ltb 0 (bit_and (event_mask sh s.kernel) fd_write)) (deliver sh fd_write)

  unfoldable pub deliver_writes : List ℕ → List (ℕ × ℕ) → Action N (Unit {0})
  deliver_writes ready [] = pure tt
  deliver_writes ready ((sh, sock) ∷ rest) = do
    when (contains sock ready) (deliver_write sh)
    deliver_writes ready rest

  -- the part of tick() that follows the collection of the sockets
  unfoldable pub poll_sockets : List (ℕ × ℕ) → List (ℕ × ℕ) → Action N (Unit {0})
  poll_sockets [] [] = pure tt
  poll_sockets rd wr = do
    n ← get_native
    on_option (lib.select n (host_sockets rd) (host_sockets wr)) (pure tt)
        (λ ready. do deliver_reads ready.0 rd; deliver_writes ready.1 wr)

  unfoldable pub tick : Action N (Unit {0})
  tick = do
    s ← get_state
    let all = all_sockets s.kernel
    poll_sockets (pairs_for (fd_read + fd_close) s.kernel all)
        (pairs_for (fd_connect + fd_write) s.kernel all)

  unfoldable pub pick_next_ready : Action N (Option ℕ)
  pick_next_ready = do n ← get_native; let r = lib.pick_next_ready n; put_native r.1; pure r.0

  unfoldable pub resolve_next_idx : Action N (Option ℕ)
  resolve_next_idx = do
    next ← pick_next_ready
    on_option next (do tick; pick_next_ready) (λ idx. pure (some idx))

  -- scheduler_complete_block_on_handles
  unfoldable pub complete_block : List ℕ → ℕ → Option ℕ → Option ℕ → Action N (Unit {0})
  complete_block handles retry_eip deadline next = do
    n ← get_native
    c ← get_cpu
    b ← get_memory
    let r = lib.complete_block_on_handles n c b handles retry_eip deadline next
    put_native r.0
    put_cpu r.1
    put_memory r.2

  unfoldable pub block_current_on_handles : List ℕ → ℕ → Option ℕ → Action N (Unit {0})
  block_current_on_handles handles retry_eip deadline = do
    c ← get_cpu
    n ← get_native
    if c.fatal_halt
        then pure tt
        else if ltb 0 (lib.reentrant_depth n)
        then complete_block handles (mask32 retry_eip) deadline none
        else do next ← resolve_next_idx; complete_block handles (mask32 retry_eip) deadline next
