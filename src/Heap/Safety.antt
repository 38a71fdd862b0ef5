-- ===== src/Heap/Safety.antt =====
-- The heap handlers of tew/api/kernel32_memory.py and the invariant of Heap/Invariant.
use tew.Base.{ℕ}
use tew.State.{World}
use tew.State.Native.{Native}
use tew.Heap.Api.{heap_create, heap_alloc_with, heap_realloc_with, heap_free}
use tew.Heap.Invariant.{HeapInv, BumpRounds}
use tew.Heap.Keeps.{
  IsModest, heap_create-Keeps, heap_alloc_with-Keeps, heap_realloc_with-Keeps, heap_free-Keeps,
}

module _ {N : Type 0} ⦃lib : Native N⦄ where
  -- HeapAlloc of any size that does not carry the cursor past 32 bits, HeapFree and HeapCreate keep the
  -- allocator's invariant, however they end: the free and the live blocks are aligned, lie below the cursor
  -- in the arena, and no two of them overlap. bump_alloc_next is supposed to round the end of a block up to
  -- 16 bytes.
  pub heap_calls-HeapInv :
      BumpRounds (lib.bump_alloc_next)
      → (h_heap dw_flags dw_bytes : ℕ) (w : World N) → IsModest dw_bytes
      → HeapInv (w.state.heap)
      → HeapInv ((heap_alloc_with h_heap dw_flags dw_bytes w).1.state.heap)
        × HeapInv ((heap_free w).1.state.heap)
        × HeapInv ((heap_create w).1.state.heap)
  heap_calls-HeapInv law h_heap dw_flags dw_bytes w small v = (
    (heap_alloc_with-Keeps law h_heap dw_flags dw_bytes small).at w v,
    heap_free-Keeps.at w v,
    heap_create-Keeps.at w v,
  )

  -- HeapReAlloc of any size that does not carry the cursor past 32 bits keeps the allocator's
  -- invariant on every way out, the move to a new block included; bump_alloc_next is supposed to
  -- round the end of a block up to 16 bytes.
  pub heap_realloc_with-HeapInv :
      BumpRounds (lib.bump_alloc_next)
      → (h_heap dw_flags lp_mem dw_bytes : ℕ) (w : World N) → IsModest dw_bytes
      → HeapInv (w.state.heap)
      → HeapInv ((heap_realloc_with h_heap dw_flags lp_mem dw_bytes w).1.state.heap)
  heap_realloc_with-HeapInv law h_heap dw_flags lp_mem dw_bytes w small v =
      (heap_realloc_with-Keeps law h_heap dw_flags lp_mem dw_bytes small).at w v
