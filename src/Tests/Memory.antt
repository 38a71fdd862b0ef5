-- ===== src/Tests/Memory.antt =====
-- The theorems on the heap and the reserved ranges at the demonstration states.
use tew.Base.{
  ℕ, ◌+◌, ◌%◌, ◌<◌, ◌≤◌, ◌≡◌, ◌↔◌, refl, none, some, List, [], ◌∷◌, All, arith, inl, inr, ok,
}
use tew.State.{World, HeapState, thread_stack_base}
use tew.Heap.{align16, alloc_block, take_fit, untrack, bump}
use tew.Heap.Api.{heap_create, heap_alloc_with, heap_realloc_with, heap_free}
use tew.Heap.Invariant.{HeapInv, BumpRounds, Handed, alloc_block-Handed, alloc_block_fails}
use tew.Heap.Safety.{heap_calls-HeapInv, heap_realloc_with-HeapInv}
use tew.Heap.Crt.{malloc_with, calloc_with, realloc_with, free, local_free, crt-HeapInv}
use tew.Virtual.{virtual_alloc, virtual_free, find_free_range}
use tew.Virtual.Ranges.{IsFree, find_free_range-IsFree}
use tew.Virtual.Keeps.{VirtualInv}
use tew.Virtual.Safety.{virtual_alloc-VirtualInv}
use tew.Virtual.Released.{Freed, virtual_free-Freed}
use tew.Machine.{arg}
use tew.Tests.Demo.{demo_native, demo_heap, demo_virtual, demo_call}

demo_rounds : BumpRounds (λ c size. align16 (c + size))
demo_rounds = record { rounds = λ c size small. refl }

demo_heap-HeapInv : HeapInv demo_heap
demo_heap-HeapInv = record {
  aligned = refl;
  above = omega arith;
  below = omega arith;
  blocks = record {
    free_apart = (tt, tt);
    live_apart = (tt, tt);
    cross_apart = ((inr (omega arith), tt), tt);
    free_fits = ((refl, omega arith, omega arith, omega arith), tt);
    live_fits = ((refl, omega arith, omega arith, omega arith), tt);
  };
}

demo_virtual-VirtualInv : VirtualInv demo_virtual
demo_virtual-VirtualInv = record {
  floor = omega arith;
  apart = ((inl (omega arith), tt), (tt, tt));
  in_user = ((omega arith, omega arith), ((omega arith, omega arith), tt));
}

abbrev heap_after_20 : HeapState
heap_after_20 = bump demo_heap 20 0x04000040

-- the free block is too small for 20 bytes
alloc_20 :
    alloc_block (λ c size. align16 (c + size)) 20 demo_heap ≡ some (0x04000020, heap_after_20)
unfolding alloc_block bump take_fit
alloc_20 = refl

alloc_block-Handed_example : Handed demo_heap 20 0x04000020 heap_after_20
alloc_block-Handed_example =
    alloc_block-Handed (λ c size. align16 (c + size)) 20 demo_heap 0x04000020 heap_after_20
      demo_rounds demo_heap-HeapInv (omega arith) (omega arith) alloc_20

abbrev heap_after_free : HeapState
heap_after_free = record demo_heap { heap_alloc_sizes = []; heap_alloc_owner = [] }

free_first : untrack 0x04000000 demo_heap ≡ some (10, heap_after_free)
unfolding untrack tew.Base.get tew.Base.pop
free_first = refl

alloc_block_fails_example : (alloc_block (λ c size. align16 (c + size)) 20 demo_heap ≡ none) ↔ (
    All (λ b. b.1 < 20) (demo_heap.heap_free_list)
    × (thread_stack_base < align16 (demo_heap.next_heap_alloc + 20)))
alloc_block_fails_example =
    alloc_block_fails (λ c size. align16 (c + size)) 20 demo_heap demo_rounds demo_heap-HeapInv
      (omega arith)

heap_calls-HeapInv_example :
    HeapInv ((heap_alloc_with 1 0 12 (demo_call (0 ∷ 1 ∷ 0 ∷ 0x04000000 ∷ []))).1.state.heap)
    × HeapInv ((heap_free (demo_call (0 ∷ 1 ∷ 0 ∷ 0x04000000 ∷ []))).1.state.heap)
    × HeapInv ((heap_create (demo_call (0 ∷ 1 ∷ 0 ∷ 0x04000000 ∷ []))).1.state.heap)
heap_calls-HeapInv_example =
    heap_calls-HeapInv demo_rounds 1 0 12 (demo_call (0 ∷ 1 ∷ 0 ∷ 0x04000000 ∷ [])) (omega arith)
      demo_heap-HeapInv

heap_realloc_with-HeapInv_example :
    HeapInv ((heap_realloc_with 1 0 0x04000000 100 (demo_call [])).1.state.heap)
heap_realloc_with-HeapInv_example =
    heap_realloc_with-HeapInv demo_rounds 1 0 0x04000000 100 (demo_call []) (omega arith)
      demo_heap-HeapInv

find_gap : find_free_range 0x70000000 0x10000 demo_virtual ≡ some 0x20010000
unfolding find_free_range tew.Virtual.gap_from tew.Virtual.next_gap tew.Virtual.sorted
    tew.Virtual.insert_range
find_gap = refl

find_free_range-IsFree_example : IsFree 0x70000000 0x10000 demo_virtual 0x20010000
find_free_range-IsFree_example =
    find_free_range-IsFree 0x70000000 0x10000 demo_virtual 0x20010000 find_gap

virtual_alloc-VirtualInv_example :
    VirtualInv ((virtual_alloc (demo_call (0 ∷ 0 ∷ 0x10000 ∷ 0x3000 ∷ 4 ∷ []))).1.state.virtual)
virtual_alloc-VirtualInv_example =
    virtual_alloc-VirtualInv (demo_call (0 ∷ 0 ∷ 0x10000 ∷ 0x3000 ∷ 4 ∷ [])) demo_virtual-VirtualInv

-- The first reservation is released.
abbrev free_call : World ℕ
free_call = demo_call (0 ∷ 0x20000000 ∷ 0 ∷ 0x8000 ∷ [])

free_call-args :
    ((arg 4 free_call).0 ≡ ok 0x20000000)
    × ((arg 8 free_call).0 ≡ ok 0)
    × ((arg 12 free_call).0 ≡ ok 0x8000)
unfolding arg tew.Machine.get_cpu tew.Machine.read32 tew.Machine.get_memory tew.Base.or_raise
    tew.Base.◌>>=◌
free_call-args = (refl, refl, refl)

virtual_free-Freed_example :
    Freed 0x20000000 0 0x8000 demo_virtual (virtual_free free_call).1.state.virtual
    × VirtualInv (virtual_free free_call).1.state.virtual
virtual_free-Freed_example =
    let a = free_call-args in
    virtual_free-Freed free_call 0x20000000 0 0x8000 demo_virtual-VirtualInv a.0 a.1 a.2

crt-HeapInv_example :
    HeapInv ((malloc_with 30 (demo_call (0 ∷ 0x04000000 ∷ []))).1.state.heap)
    × HeapInv ((calloc_with 3 30 (demo_call (0 ∷ 0x04000000 ∷ []))).1.state.heap)
    × HeapInv ((realloc_with 0x04000000 30 (demo_call (0 ∷ 0x04000000 ∷ []))).1.state.heap)
    × HeapInv ((free (demo_call (0 ∷ 0x04000000 ∷ []))).1.state.heap)
    × HeapInv ((local_free (demo_call (0 ∷ 0x04000000 ∷ []))).1.state.heap)
crt-HeapInv_example =
    crt-HeapInv demo_rounds 0x04000000 3 30 (demo_call (0 ∷ 0x04000000 ∷ [])) (omega arith)
      (omega arith) demo_heap-HeapInv
