-- ===== src/Heap/Api.antt =====
-- The heap handlers of tew/api/kernel32_memory.py. A handler first reads its arguments from the
-- guest stack; `…_with` is the rest of it, at the arguments that were read.
use tew.Base.{
  ℕ, ◌+◌, ◌-◌, min, bit_and, ltb, ◌==◌, if◌then◌else◌, Bool, not, ◌&&◌, replicate, contains,
  add_to_set, has_key, nat_key, get, put, ◌>>=◌, ◌>>◌,
}
use tew.State.{HeapState}
use tew.State.Native.{Native}
use tew.Machine.{
  Action, mask32, on_option, when, get_state, put_heap, load, read_bytes, set_eax, fatal_halt, arg,
  return_stdcall,
}
use tew.Heap.{simple_alloc, simple_free}

-- flags & ~known, of a 32-bit number
abbrev pub unknown_flags : ℕ → ℕ → ℕ
unknown_flags flags known = bit_and flags (0xFFFFFFFF - known)

abbrev pub heap_no_serialize : ℕ
heap_no_serialize = 1

abbrev pub heap_zero_memory : ℕ
heap_zero_memory = 8

abbrev pub heap_realloc_in_place_only : ℕ
heap_realloc_in_place_only = 16

abbrev pub has_flag : ℕ → ℕ → Bool
has_flag flags f = ltb 0 (bit_and flags f)

-- x or 1
abbrev pub or_one : ℕ → ℕ
or_one n = if n == 0 then 1 else n

unfoldable pub set_owner : ℕ → ℕ → HeapState → HeapState
set_owner addr owner h = record h { heap_alloc_owner = put addr owner h.heap_alloc_owner }

module _ {N : Type 0} ⦃lib : Native N⦄ where
  unfoldable pub heap_create : Action N (Unit {0})
  heap_create = do
    fl ← arg 4
    if ltb 0 (unknown_flags fl heap_no_serialize) then fatal_halt else do
      s ← get_state
      let h = s.heap.next_heap_handle
      put_heap (record (s.heap) {
        next_heap_handle = h + 1;
        heap_handles = add_to_set h s.heap.heap_handles;
      })
      return_stdcall h 12

  unfoldable pub get_process_heap : Action N (Unit {0})
  get_process_heap = do s ← get_state; set_eax s.heap.process_heap

  -- the allocation, once the arguments are accepted
  unfoldable pub heap_hand_out : ℕ → ℕ → ℕ → Action N (Unit {0})
  heap_hand_out h_heap dw_flags size = do
    addr ← simple_alloc size 0xCD
    t ← get_state
    put_heap (set_owner addr h_heap t.heap)
    when (has_flag dw_flags heap_zero_memory) (load addr (replicate size 0))
    return_stdcall addr 12

  unfoldable pub heap_alloc_with : ℕ → ℕ → ℕ → Action N (Unit {0})
  heap_alloc_with h_heap dw_flags dw_bytes = do
    s ← get_state
    if not (contains h_heap s.heap.heap_handles)
        then fatal_halt
        else if ltb 0 (unknown_flags dw_flags (heap_no_serialize + heap_zero_memory))
        then fatal_halt
        else heap_hand_out h_heap dw_flags (or_one dw_bytes)

  unfoldable pub heap_alloc : Action N (Unit {0})
  heap_alloc = do
    caller ← arg 0
    h_heap ← arg 4
    dw_flags ← arg 8
    dw_bytes ← arg 12
    heap_alloc_with h_heap dw_flags dw_bytes

  unfoldable pub heap_free_with : ℕ → ℕ → ℕ → Action N (Unit {0})
  heap_free_with h_heap dw_flags lp_mem = do
    s ← get_state
    if not (contains h_heap s.heap.heap_handles)
        then fatal_halt
        else if ltb 0 (unknown_flags dw_flags heap_no_serialize)
        then fatal_halt
        else if lp_mem == 0
        then return_stdcall 1 12
        else if not (has_key lp_mem s.heap.heap_alloc_sizes)
        then fatal_halt
        else do simple_free lp_mem; return_stdcall 1 12

  unfoldable pub heap_free : Action N (Unit {0})
  heap_free = do
    h_heap ← arg 4
    dw_flags ← arg 8
    lp_mem ← arg 12
    heap_free_with h_heap dw_flags lp_mem

  -- the move to a new block, once the arguments are accepted
  unfoldable pub heap_move : ℕ → ℕ → ℕ → ℕ → ℕ → Action N (Unit {0})
  heap_move h_heap dw_flags lp_mem old_size new_size = do
    new_addr ← simple_alloc new_size 0xCD
    t ← get_state
    put_heap (set_owner new_addr h_heap t.heap)
    when (ltb 0 (min old_size new_size))
        (do bytes ← read_bytes (mask32 lp_mem) (min old_size new_size); load new_addr bytes)
    when (has_flag dw_flags heap_zero_memory && ltb old_size new_size)
        (load (new_addr + old_size) (replicate (new_size - old_size) 0))
    simple_free lp_mem
    return_stdcall new_addr 16

  unfoldable pub heap_realloc_with : ℕ → ℕ → ℕ → ℕ → Action N (Unit {0})
  heap_realloc_with h_heap dw_flags lp_mem dw_bytes = do
    s ← get_state
    if not (contains h_heap s.heap.heap_handles)
        then fatal_halt
        else if ltb 0 (
            unknown_flags dw_flags
              (heap_no_serialize + heap_zero_memory + heap_realloc_in_place_only))
        then fatal_halt
        else if has_flag dw_flags heap_realloc_in_place_only
        then return_stdcall 0 16
        else if lp_mem == 0
        then heap_move h_heap dw_flags lp_mem 0 (or_one dw_bytes)
        else on_option (get lp_mem s.heap.heap_alloc_sizes) fatal_halt
            (λ old_size. heap_move h_heap dw_flags lp_mem old_size (or_one dw_bytes))

  unfoldable pub heap_realloc : Action N (Unit {0})
  heap_realloc = do
    h_heap ← arg 4
    dw_flags ← arg 8
    lp_mem ← arg 12
    dw_bytes ← arg 16
    heap_realloc_with h_heap dw_flags lp_mem dw_bytes

  unfoldable pub heap_size : Action N (Unit {0})
  heap_size = do
    h_heap ← arg 4
    dw_flags ← arg 8
    lp_mem ← arg 12
    s ← get_state
    if not (contains h_heap s.heap.heap_handles)
        then fatal_halt
        else if ltb 0 (unknown_flags dw_flags heap_no_serialize)
        then fatal_halt
        else on_option (get lp_mem s.heap.heap_alloc_sizes) (return_stdcall 0xFFFFFFFF 12)
            (λ size. return_stdcall size 12)

  unfoldable pub heap_validate : Action N (Unit {0})
  heap_validate = do
    h_heap ← arg 4
    s ← get_state
    if not (contains h_heap s.heap.heap_handles) then fatal_halt else return_stdcall 1 12
