-- ===== src/Kernel/Keeps.antt =====
-- Rules for the poll of tew/kernel/kernel.py and for blocking, on predicates that do not read what these
-- change: the message queue, the reported connections and the signals of events.
use tew.Base.{ℕ, ◌≡◌, refl, true, Option, none, some, List, [], ◌∷◌, get, nat_key, ◌>>=◌, pure}
use tew.State.{World, CrtState, KernelState, WindowState, KernelHandle, EventHandle, mutex, event}
use tew.State.Native.{Native}
use tew.Machine.{put_windows, put_kernel, put_objects, get_state, on_option, unblock_handle}
use tew.Machine.Keeps.{Keeps, Keeps-bind, keeps_rules}
use tew.Kernel.{
  post_message, set_object, object_at, signal_object, signal_event, deliver_message, deliver,
  deliver_reads, deliver_write, deliver_writes, poll_sockets, tick, pick_next_ready,
  resolve_next_idx, complete_block, block_current_on_handles,
}

-- What a predicate must be closed under to hold across a poll.
pub record Unmoved (P : CrtState → Type 0) : Type 0 where
  pub by_windows : (s : CrtState) (v : WindowState) → P s → P (record s { windows = v })
  pub by_kernel : (s : CrtState) (k : KernelState) → P s → P (record s { kernel = k })
  pub by_signal :
      (s : CrtState) (r : ℕ) (e : EventHandle)
      → s.objects.object r ≡ event e
      → P s
      → P (record s { objects = set_object r (event (record e { signaled = true })) s.objects })

module _ {N : Type 0} ⦃lib : Native N⦄ {P : CrtState → Type 0} (u : Unmoved P) where
  put_windows-Keeps : (v : WindowState) → Keeps P (put_windows {N = N} v)
  unfolding put_windows
  put_windows-Keeps v = record { at = λ w h. u.by_windows w.state v h }

  put_kernel-Keeps : (k : KernelState) → Keeps P (put_kernel {N = N} k)
  unfolding put_kernel
  put_kernel-Keeps k = record { at = λ w h. u.by_kernel w.state k h }

  unblocked-Keeps : (h : ℕ) → Keeps P (unblock_handle {N = N} h >>= λ _. pure tt)
  unblocked-Keeps h = search keeps_rules

  signal_object-keeps :
      (h r : ℕ) (o : KernelHandle) (w : World N)
      → w.state.objects.object r ≡ o
      → P w.state
      → P (signal_object h r o w.state.objects w).1.state
  unfolding signal_object pure
  signal_object-keeps h r (mutex m) w e p = p
  signal_object-keeps h r (event v) w e p =
      unfold ◌>>=◌ put_objects in (unblocked-Keeps h).at _ (u.by_signal w.state r v e p)

  pub signal_event-Keeps : (h : ℕ) → Keeps P (signal_event {N = N} h)
  unfolding signal_event
  signal_event-Keeps h = record {
    at = λ w p. signalled w (get h w.state.objects.kernel_handle_map) refl p;
  }
    where
      signalled :
          (w : World N) (o : Option ℕ)
          → get h w.state.objects.kernel_handle_map ≡ o
          → P w.state
          → P (signal_event {N = N} h w).1.state
      signalled w none e p = unfold ◌>>=◌ get_state pure object_at in rw (e, on_option) p
      signalled w (some r) e p =
          unfold ◌>>=◌ get_state object_at in
          rw (e, on_option) (signal_object-keeps h r (w.state.objects.object r) w refl p)

  deliver_message-Keeps : (sh bit : ℕ) → Keeps P (deliver_message {N = N} sh bit)
  unfolding deliver_message post_message
  deliver_message-Keeps sh bit = search (keeps_rules, put_windows-Keeps) depth 9

  pub deliver-Keeps : (sh bit : ℕ) → Keeps P (deliver {N = N} sh bit)
  unfolding deliver
  deliver-Keeps sh bit = search (keeps_rules, deliver_message-Keeps, signal_event-Keeps) depth 9

  deliver_reads-Keeps :
      (ready : List ℕ) (rd : List (ℕ × ℕ)) → Keeps P (deliver_reads {N = N} ready rd)
  unfolding deliver_reads
  deliver_reads-Keeps ready [] = search keeps_rules
  deliver_reads-Keeps ready ((sh, sock) ∷ rest) =
      Keeps-bind _ _ (search (keeps_rules, deliver-Keeps)) λ _. deliver_reads-Keeps ready rest

  deliver_write-Keeps : (sh : ℕ) → Keeps P (deliver_write {N = N} sh)
  unfolding deliver_write
  deliver_write-Keeps sh = search (keeps_rules, deliver-Keeps, put_kernel-Keeps) depth 9

  deliver_writes-Keeps :
      (ready : List ℕ) (wr : List (ℕ × ℕ)) → Keeps P (deliver_writes {N = N} ready wr)
  unfolding deliver_writes
  deliver_writes-Keeps ready [] = search keeps_rules
  deliver_writes-Keeps ready ((sh, sock) ∷ rest) =
      Keeps-bind _ _ (search (keeps_rules, deliver_write-Keeps))
        λ _. deliver_writes-Keeps ready rest

  poll_sockets-Keeps : (rd wr : List (ℕ × ℕ)) → Keeps P (poll_sockets {N = N} rd wr)
  unfolding poll_sockets
  poll_sockets-Keeps [] [] = search keeps_rules
  poll_sockets-Keeps [] (p ∷ wr) =
      search (keeps_rules, deliver_reads-Keeps, deliver_writes-Keeps) depth 8
  poll_sockets-Keeps (p ∷ rd) wr =
      search (keeps_rules, deliver_reads-Keeps, deliver_writes-Keeps) depth 8

  -- A poll keeps every such predicate.
  pub tick-Keeps : Keeps P (tick {N = N})
  unfolding tick
  tick-Keeps = search (keeps_rules, poll_sockets-Keeps)

  resolve_next_idx-Keeps : Keeps P (resolve_next_idx {N = N})
  unfolding resolve_next_idx pick_next_ready
  resolve_next_idx-Keeps = search (keeps_rules, tick-Keeps) depth 9

  -- So does blocking, which may poll.
  pub block_current_on_handles-Keeps :
      (handles : List ℕ) (retry_eip : ℕ) (deadline : Option ℕ)
      → Keeps P (block_current_on_handles {N = N} handles retry_eip deadline)
  unfolding block_current_on_handles complete_block
  block_current_on_handles-Keeps handles retry_eip deadline =
      search (keeps_rules, resolve_next_idx-Keeps) depth 12
