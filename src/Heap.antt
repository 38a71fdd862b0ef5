-- ===== src/Heap.antt =====
-- The guest heap: CRTState.simple_alloc and simple_free (tew/api/_state.py). A block that is handed
-- out or free takes its size rounded up to 16 bytes, as bump_alloc_next rounds.
pub mod Blocks
pub mod Invariant
pub mod Api
pub mod Safety
pub mod Crt
pub mod Keeps
use tew.Base.{
  ℕ, ◌+◌, ◌-◌, ◌*◌, ◌/◌, ltb, leb, ◌==◌, if◌then◌else◌, true, false, nat_key, Option, none, some,
  List, [], ◌∷◌, ◌++◌, replicate, get, put, pop, ◌>>=◌, ◌>>◌, pure, or_raise, runtime_error,
}
use tew.State.{Block, HeapState, thread_stack_base}
use tew.State.Native.{Native}
use tew.Machine.{Action, mask32, when, get_state, put_heap, load}

-- (n + 15) & ~15
abbrev pub align16 : ℕ → ℕ
align16 n = (n + 15) / 16 * 16

-- The first free block that is large enough, and the list without it.
unfoldable pub take_fit : ℕ → List Block → Option (Block × List Block)
take_fit size [] = none
take_fit size ((a, s) ∷ free) = elim (leb size s) [
  | true ↦ some ((a, s), free)
  | false ↦ elim (take_fit size free) [ none ↦ none | some (f, rest) ↦ some (f, (a, s) ∷ rest) ]
]

-- What is left behind a reused block: `[]` or one block.
unfoldable pub remainder : ℕ → Block → List Block
remainder size (a, s) =
    if ltb (align16 size) s then (a + align16 size, s - align16 size) ∷ [] else []

unfoldable pub reuse : HeapState → ℕ → Block → List Block → HeapState
unfolding remainder
reuse h size f rest = record h {
  heap_free_list = rest ++ remainder size f;
  heap_alloc_sizes = put (f.0) size h.heap_alloc_sizes;
}

unfoldable pub bump : HeapState → ℕ → ℕ → HeapState
bump h size cursor = record h {
  next_heap_alloc = cursor;
  heap_alloc_sizes = put h.next_heap_alloc size h.heap_alloc_sizes;
}

-- The address, and the bookkeeping after; `none` where simple_alloc raises RuntimeError.
unfoldable pub alloc_block : (ℕ → ℕ → ℕ) → ℕ → HeapState → Option (ℕ × HeapState)
unfolding take_fit reuse bump
alloc_block next size h = elim (take_fit size h.heap_free_list) [
  | some (f, rest) ↦ some (f.0, reuse h size f rest)
  | none ↦
      let cursor = next (mask32 h.next_heap_alloc) (mask32 size) in
      if ltb thread_stack_base cursor then none else some (h.next_heap_alloc, bump h size cursor)
]

-- The size of a block that is given back, and the bookkeeping without it; `none` where simple_free
-- raises RuntimeError.
unfoldable pub untrack : ℕ → HeapState → Option (ℕ × HeapState)
untrack addr h = elim (get addr h.heap_alloc_sizes) [
  | none ↦ none
  | some size ↦ some (
    size,
    record h {
      heap_alloc_sizes = pop addr h.heap_alloc_sizes;
      heap_alloc_owner = pop addr h.heap_alloc_owner;
    },
  )
]

unfoldable pub recycle : ℕ → ℕ → HeapState → HeapState
recycle addr size h = record h { heap_free_list = h.heap_free_list ++ (addr, size) ∷ [] }

module _ {N : Type 0} ⦃lib : Native N⦄ where
  -- _fill_memory (the memory is set before any handler runs)
  unfoldable pub fill_memory : ℕ → ℕ → ℕ → Action N (Unit {0})
  fill_memory addr size byte = when (ltb 0 size) (load (mask32 addr) (replicate size byte))

  unfoldable pub simple_alloc : ℕ → ℕ → Action N ℕ
  simple_alloc size fill = do
    s ← get_state
    r ← or_raise (alloc_block lib.bump_alloc_next size s.heap) runtime_error
    put_heap r.1
    fill_memory r.0 size fill
    pure r.0

  unfoldable pub simple_free : ℕ → Action N (Unit {0})
  simple_free addr = if addr == 0 then pure tt else do
    s ← get_state
    r ← or_raise (untrack addr s.heap) runtime_error
    put_heap r.1
    fill_memory addr r.0 0xDD
    put_heap (recycle addr r.0 r.1)
