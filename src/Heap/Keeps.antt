-- ===== src/Heap/Keeps.antt =====
-- Rules on the allocator's invariant for the heap handlers of tew/api/kernel32_memory.py.
use tew.Base.{ℕ, ◌+◌, ◌≡◌, ◌<◌, some, nat_key, arith, List}
use tew.State.{HeapState, CrtState, thread_stack_base, u32}
use tew.State.Native.{Native}
use tew.Machine.{put_heap}
use tew.Machine.Keeps.{Keeps, keeps_rules, Keeps-with_state, Keeps-bind}
use tew.Heap.{alloc_block, untrack, recycle, fill_memory, simple_alloc, simple_free}
use tew.Heap.Invariant.{HeapInv, BumpRounds, alloc_block-Handed, untrack-HeapInv}
use tew.Heap.Api.{
  or_one, set_owner, heap_create, heap_hand_out, heap_alloc_with, heap_free, heap_free_with,
  heap_move, heap_realloc_with,
}

abbrev pub HeapOk : CrtState → Type 0
HeapOk s = HeapInv s.heap

pub put_heap-Keeps : {N : Type 0} (h : HeapState) → HeapInv h → Keeps HeapOk (put_heap {N = N} h)
unfolding put_heap
put_heap-Keeps h v = record { at = λ w _. v }

set_owner-HeapInv : (a o : ℕ) (h : HeapState) → HeapInv h → HeapInv (set_owner a o h)
unfolding set_owner
set_owner-HeapInv a o h v = record {
  aligned = v.aligned;
  above = v.above;
  below = v.below;
  blocks = v.blocks;
}

owned-Keeps :
    {N : Type 0} (h : HeapState) (a o : ℕ)
    → HeapInv h
    → Keeps HeapOk (put_heap {N = N} (set_owner a o h))
owned-Keeps h a o v = put_heap-Keeps (set_owner a o h) (set_owner-HeapInv a o h v)

-- A block that is asked for is small enough for the cursor to stay below 32 bits.
abbrev pub IsModest : ℕ → Type 0
IsModest size = thread_stack_base + size + 15 < u32

or_one_pos : (n : ℕ) → 0 < or_one n
or_one_pos n = ground arith

or_one-IsModest : (n : ℕ) → IsModest n → IsModest (or_one n)
or_one-IsModest n h = ground arith

module _ {N : Type 0} ⦃lib : Native N⦄ where
  fill_memory-Keeps : (a n b : ℕ) → Keeps HeapOk (fill_memory {N = N} a n b)
  unfolding fill_memory
  fill_memory-Keeps a n b = search keeps_rules

  pub simple_free-Keeps : (addr : ℕ) → Keeps HeapOk (simple_free {N = N} addr)
  unfolding simple_free
  simple_free-Keeps addr = search (keeps_rules, fill_memory-Keeps, untracked, freed) depth 12
    where
      untracked :
          (s : CrtState) (r : ℕ × HeapState)
          → HeapOk s
          → untrack addr s.heap ≡ some r
          → Keeps HeapOk (put_heap {N = N} r.1)
      untracked s (size, h) v e = put_heap-Keeps h (untrack-HeapInv addr size s.heap h v e).0

      freed :
          (s : CrtState) (r : ℕ × HeapState)
          → HeapOk s
          → untrack addr s.heap ≡ some r
          → Keeps HeapOk (put_heap {N = N} (recycle addr r.0 r.1))
      freed s (size, h) v e =
          put_heap-Keeps (recycle addr size h) (untrack-HeapInv addr size s.heap h v e).1

module _ {N : Type 0} ⦃lib : Native N⦄ (law : BumpRounds lib.bump_alloc_next) where
  pub simple_alloc-Keeps :
      (size fill : ℕ) → 0 < size → IsModest size → Keeps HeapOk (simple_alloc {N = N} size fill)
  unfolding simple_alloc
  simple_alloc-Keeps size fill pos small = search (keeps_rules, fill_memory-Keeps, allocated)
    where
      allocated :
          (s : CrtState) (r : ℕ × HeapState)
          → HeapOk s
          → alloc_block lib.bump_alloc_next size s.heap ≡ some r
          → Keeps HeapOk (put_heap {N = N} r.1)
      allocated s (addr, h) v e =
          put_heap-Keeps h
            (alloc_block-Handed lib.bump_alloc_next size s.heap addr h law v pos small e).inv

  heap_hand_out-Keeps :
      (h_heap dw_flags size : ℕ)
      → 0 < size
      → IsModest size
      → Keeps HeapOk (heap_hand_out {N = N} h_heap dw_flags size)
  unfolding heap_hand_out
  heap_hand_out-Keeps h_heap dw_flags size pos small =
      Keeps-bind _ _ (simple_alloc-Keeps size 0xCD pos small) λ a.
        Keeps-with_state _
          λ s v. Keeps-bind _ _ (owned-Keeps (s.heap) a h_heap v) λ _. search keeps_rules

  pub heap_alloc_with-Keeps :
      (h_heap dw_flags dw_bytes : ℕ)
      → IsModest dw_bytes
      → Keeps HeapOk (heap_alloc_with {N = N} h_heap dw_flags dw_bytes)
  unfolding heap_alloc_with
  heap_alloc_with-Keeps h_heap dw_flags dw_bytes small = search (keeps_rules, hand_out)
    where
      hand_out : Keeps HeapOk (heap_hand_out {N = N} h_heap dw_flags (or_one dw_bytes))
      hand_out =
          heap_hand_out-Keeps h_heap dw_flags (or_one dw_bytes) (or_one_pos dw_bytes)
            (or_one-IsModest dw_bytes small)

  heap_move-Keeps :
      (h_heap dw_flags lp_mem old_size new_size : ℕ)
      → 0 < new_size
      → IsModest new_size
      → Keeps HeapOk (heap_move {N = N} h_heap dw_flags lp_mem old_size new_size)
  unfolding heap_move
  heap_move-Keeps h_heap dw_flags lp_mem old_size new_size pos small =
      Keeps-bind _ _ (simple_alloc-Keeps new_size 0xCD pos small) λ a. Keeps-with_state _ λ s v.
        Keeps-bind _ _ (owned-Keeps (s.heap) a h_heap v) λ _.
          Keeps-bind _ _ (search keeps_rules)
            λ _. Keeps-bind _ _ (search keeps_rules) λ _. search (keeps_rules, simple_free-Keeps)

  pub heap_realloc_with-Keeps :
      (h_heap dw_flags lp_mem dw_bytes : ℕ)
      → IsModest dw_bytes
      → Keeps HeapOk (heap_realloc_with {N = N} h_heap dw_flags lp_mem dw_bytes)
  unfolding heap_realloc_with
  heap_realloc_with-Keeps h_heap dw_flags lp_mem dw_bytes small = search (keeps_rules, move) depth 9
    where
      move :
          (old_size : ℕ)
          → Keeps HeapOk (heap_move {N = N} h_heap dw_flags lp_mem old_size (or_one dw_bytes))
      move old_size =
          heap_move-Keeps h_heap dw_flags lp_mem old_size (or_one dw_bytes) (or_one_pos dw_bytes)
            (or_one-IsModest dw_bytes small)

module _ {N : Type 0} ⦃lib : Native N⦄ where
  heap_free_with-Keeps :
      (h_heap dw_flags lp_mem : ℕ) → Keeps HeapOk (heap_free_with {N = N} h_heap dw_flags lp_mem)
  unfolding heap_free_with
  heap_free_with-Keeps h_heap dw_flags lp_mem = search (keeps_rules, simple_free-Keeps) depth 9

  pub heap_free-Keeps : Keeps HeapOk (heap_free {N = N})
  unfolding heap_free
  heap_free-Keeps = search (keeps_rules, heap_free_with-Keeps)

  -- Handing out a heap handle touches no block.
  fresh_heap-Keeps :
      (s : CrtState) (h : ℕ) (hs : List ℕ)
      → HeapOk s
      → Keeps HeapOk
          (put_heap {N = N} (record (s.heap) { next_heap_handle = h; heap_handles = hs }))
  fresh_heap-Keeps s h hs v =
      put_heap-Keeps _
        (record { aligned = v.aligned; above = v.above; below = v.below; blocks = v.blocks })

  pub heap_create-Keeps : Keeps HeapOk (heap_create {N = N})
  unfolding heap_create
  heap_create-Keeps = search (keeps_rules, fresh_heap-Keeps) depth 8
