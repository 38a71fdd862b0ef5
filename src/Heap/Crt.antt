-- ===== src/Heap/Crt.antt =====
-- malloc, calloc, realloc and free of tew/api/msvcrt_handlers.py, and LocalAlloc, LocalFree and
-- GlobalAlloc of tew/api/kernel32_io.py, over the same blocks. The C functions are cdecl: the caller pops
-- the arguments. operator new and _malloc_crt have the body of malloc, operator delete that of free.
use tew.Base.{
  ℕ, zero, suc, ◌+◌, ◌*◌, ◌<◌, ltb, ◌==◌, min, if◌then◌else◌, get, get_or, put, pop, nat_key, arith,
  ◌>>=◌, ◌>>◌, pure, ltb→lt,
}
use tew.State.{World}
use tew.State.Native.{Native}
use tew.Machine.{
  Action, mask32, when, get_state, get_cpu, put_heap, set_eax, arg, read32, read_bytes, load,
  write8, return_stdcall,
}
use tew.Machine.Keeps.{Keeps, Keeps-bind, Keeps-if, Keeps-with_state, keeps_rules}
use tew.Heap.{simple_alloc, simple_free}
use tew.Heap.Api.{has_flag}
use tew.Heap.Invariant.{HeapInv, BumpRounds}
use tew.Heap.Keeps.{HeapOk, IsModest, simple_alloc-Keeps, simple_free-Keeps, put_heap-Keeps}

abbrev zero_init : ℕ
zero_init = 0x0040

module _ {N : Type 0} ⦃lib : Native N⦄ where
  -- the log's return address
  unfoldable pub caller : Action N ℕ
  caller = do c ← get_cpu; read32 (mask32 c.esp)

  -- state.simple_alloc(size, fill) if size > 0 else 0
  unfoldable pub alloc_or_null : ℕ → ℕ → Action N ℕ
  alloc_or_null size fill = if ltb 0 size then simple_alloc size fill else pure 0

  unfoldable pub malloc_with : ℕ → Action N (Unit {0})
  malloc_with size = do addr ← alloc_or_null size 0xCD; set_eax addr

  unfoldable pub malloc : Action N (Unit {0})
  malloc = do from ← caller; size ← arg 4; malloc_with size

  unfoldable pub calloc_with : ℕ → ℕ → Action N (Unit {0})
  calloc_with num size = do addr ← alloc_or_null (mask32 (num * size)) 0; set_eax addr

  unfoldable pub calloc : Action N (Unit {0})
  calloc = do from ← caller; num ← arg 4; size ← arg 8; calloc_with num size

  -- the copy to a new block; the old block stays allocated
  unfoldable pub realloc_copy : ℕ → ℕ → Action N (Unit {0})
  realloc_copy ptr size = do
    new_ptr ← simple_alloc size 0xCD
    s ← get_state
    let copy_len = min (get_or (get ptr s.heap.heap_alloc_sizes) 0) size
    when (ltb 0 copy_len) (do bytes ← read_bytes (mask32 ptr) copy_len; load (mask32 new_ptr) bytes)
    set_eax new_ptr

  unfoldable pub realloc_with : ℕ → ℕ → Action N (Unit {0})
  realloc_with ptr size =
      if ptr == 0 then malloc_with size else if size == 0 then set_eax 0 else realloc_copy ptr size

  unfoldable pub realloc : Action N (Unit {0})
  realloc = do from ← caller; ptr ← arg 4; size ← arg 8; realloc_with ptr size

  unfoldable pub free : Action N (Unit {0})
  free = do ptr ← arg 4; simple_free ptr

  -- for i in range(n_bytes): memory.write8(addr + i, 0)
  unfoldable pub zero_bytes : ℕ → ℕ → ℕ → Action N (Unit {0})
  zero_bytes addr zero i = pure tt
  zero_bytes addr (suc n) i = do write8 (addr + i) 0; zero_bytes addr n (i + 1)

  unfoldable pub local_alloc : Action N (Unit {0})
  local_alloc = do
    flags ← arg 4
    n_bytes ← arg 8
    addr ← simple_alloc n_bytes 0xCD
    s ← get_state
    put_heap (record (s.heap) { local_alloc_map = put addr n_bytes s.heap.local_alloc_map })
    when (has_flag flags zero_init) (zero_bytes addr n_bytes 0)
    return_stdcall addr 8

  -- The block itself is not given back.
  unfoldable pub local_free : Action N (Unit {0})
  local_free = do
    addr ← arg 4
    s ← get_state
    put_heap (record (s.heap) { local_alloc_map = pop addr s.heap.local_alloc_map })
    return_stdcall 0 4

  unfoldable pub global_alloc : Action N (Unit {0})
  global_alloc = do
    flags ← arg 4
    n_bytes ← arg 8
    addr ← simple_alloc n_bytes 0xCD
    when (has_flag flags zero_init) (zero_bytes addr n_bytes 0)
    return_stdcall addr 8

  free-Keeps : Keeps HeapOk free
  unfolding free
  free-Keeps = search (keeps_rules, simple_free-Keeps)

  local_free-Keeps : Keeps HeapOk local_free
  unfolding local_free
  local_free-Keeps = Keeps-bind _ _ (search keeps_rules) λ addr. Keeps-with_state _ λ s v.
      Keeps-bind _ _
        (put_heap-Keeps _
          (record { aligned = v.aligned; above = v.above; below = v.below; blocks = v.blocks }))
        λ _. search keeps_rules

module _ {N : Type 0} ⦃lib : Native N⦄ (law : BumpRounds (lib.bump_alloc_next)) where
  alloc_or_null-Keeps :
      (size fill : ℕ) → IsModest size → Keeps HeapOk (alloc_or_null {N = N} size fill)
  unfolding alloc_or_null
  alloc_or_null-Keeps size fill small =
      Keeps-if (ltb 0 size) _ _
        (λ some_bytes. simple_alloc-Keeps law size fill (ltb→lt 0 size some_bytes) small)
        (λ _. search keeps_rules)

  malloc_with-Keeps : (size : ℕ) → IsModest size → Keeps HeapOk (malloc_with {N = N} size)
  unfolding malloc_with
  malloc_with-Keeps size small =
      Keeps-bind _ _ (alloc_or_null-Keeps size 0xCD small) λ _. search keeps_rules

  realloc_copy-Keeps :
      (ptr size : ℕ) → 0 < size → IsModest size → Keeps HeapOk (realloc_copy {N = N} ptr size)
  unfolding realloc_copy
  realloc_copy-Keeps ptr size pos small =
      Keeps-bind _ _ (simple_alloc-Keeps law size 0xCD pos small) λ a. search keeps_rules depth 9

  realloc_with-Keeps : (ptr size : ℕ) → IsModest size → Keeps HeapOk (realloc_with {N = N} ptr size)
  unfolding realloc_with
  realloc_with-Keeps ptr size small =
      Keeps-if (ptr == 0) _ _ (λ _. malloc_with-Keeps size small)
        (λ _.
          Keeps-if (size == 0) _ _ (λ _. search keeps_rules)
            (λ some_bytes. realloc_copy-Keeps ptr size (ground (arith, some_bytes)) small))

  -- malloc, calloc and realloc of any size, zero included, that does not carry the cursor past 32
  -- bits, and free and LocalFree, keep the allocator's invariant however they end; the product that
  -- calloc takes wraps at 32 bits, and bump_alloc_next is supposed to round the end of a block up to
  -- 16 bytes.
  pub crt-HeapInv :
      (ptr num size : ℕ) (w : World N)
      → IsModest size
      → IsModest (mask32 (num * size))
      → HeapInv (w.state.heap)
      → HeapInv ((malloc_with size w).1.state.heap)
        × HeapInv ((calloc_with num size w).1.state.heap)
        × HeapInv ((realloc_with ptr size w).1.state.heap)
        × HeapInv ((free w).1.state.heap)
        × HeapInv ((local_free w).1.state.heap)
  unfolding calloc_with
  crt-HeapInv ptr num size w small small_product v = (
    (malloc_with-Keeps size small).at w v,
    (Keeps-bind _ _ (alloc_or_null-Keeps (mask32 (num * size)) 0 small_product)
          λ _. search keeps_rules).at
        w v,
    (realloc_with-Keeps ptr size small).at w v,
    free-Keeps.at w v,
    local_free-Keeps.at w v,
  )
