-- ===== src/Heap/Invariant.antt =====
-- The allocator's invariant, for simple_alloc and simple_free of tew/api/_state.py, and lemmas on it.
use tew.Base.{
  ℕ, ◌+◌, ◌%◌, ◌≡◌, ◌≤◌, ◌<◌, ◌∙◌, ◌↔◌, ◌⊎◌, inl, inr, none, some, List, All, pop, get, nat_key,
  arith, get-put_self, Option-cases, All-get, AllPairs-popped,
}
use tew.State.{Block, HeapState, heap_base, thread_stack_base, u32}
use tew.Machine.{mask32}
use tew.Heap.Blocks.{
  Apart-sym, InArena, Apart, Blocks, fits-Apart, raise_cursor, add_live, add_free, drop_live,
  cross-popped, reused-Apart, reuse-Blocks, take_fit-none,
}
use tew.Heap.{align16, take_fit, reuse, bump, alloc_block, untrack, recycle}

pub record HeapInv (h : HeapState) : Type 0 where
  pub aligned : h.next_heap_alloc % 16 ≡ 0
  pub above : heap_base ≤ h.next_heap_alloc
  pub below : h.next_heap_alloc ≤ thread_stack_base
  pub blocks : Blocks h.next_heap_alloc h.heap_free_list h.heap_alloc_sizes

-- What the allocator relies on: bump_alloc_next rounds the end of the new block up to 16 bytes,
-- where that does not pass 32 bits.
pub record BumpRounds (next : ℕ → ℕ → ℕ) : Type 0 where
  pub rounds : (c size : ℕ) → c + size + 15 < u32 → next c size ≡ align16 (c + size)

bump-HeapInv :
    (h : HeapState) (size cursor : ℕ)
    → HeapInv h
    → 0 < size
    → cursor ≡ align16 (h.next_heap_alloc + size)
    → cursor ≤ thread_stack_base
    → HeapInv (bump h size cursor)
unfolding bump
bump-HeapInv h size cursor v pos is_end fits = record {
  aligned = omega arith;
  above = omega (arith, v.above);
  below = fits;
  blocks =
      add_live (raise_cursor v.blocks cursor (omega arith)) (c, size)
        (fits-Apart c size h.heap_free_list v.blocks.free_fits)
        (fits-Apart c size h.heap_alloc_sizes v.blocks.live_fits)
        (omega (arith, v.aligned, v.above));
}
  where
    c : ℕ
    c = h.next_heap_alloc

reuse-HeapInv :
    (h : HeapState) (size a s : ℕ) (rest : List Block)
    → HeapInv h
    → 0 < size
    → take_fit size h.heap_free_list ≡ some ((a, s), rest)
    → HeapInv (reuse h size (a, s) rest)
unfolding reuse
reuse-HeapInv h size a s rest v pos found = record {
  aligned = v.aligned;
  above = v.above;
  below = v.below;
  blocks = reuse-Blocks v.blocks size a s rest found pos;
}

-- What simple_alloc hands out: the block is recorded with its size, takes no byte of a block that
-- was live, and the invariant holds after.
pub record Handed (h : HeapState) (size addr : ℕ) (h' : HeapState) : Type 0 where
  pub inv : HeapInv h'
  pub recorded : get addr h'.heap_alloc_sizes ≡ some size
  pub fresh : All (Apart (addr, size)) h.heap_alloc_sizes

alloc_block-cases :
    (next : ℕ → ℕ → ℕ) (size : ℕ) (h : HeapState) (addr : ℕ) (h' : HeapState)
    → alloc_block next size h ≡ some (addr, h')
    → ((a s : ℕ) × (rest : List Block) × (take_fit size h.heap_free_list ≡ some ((a, s), rest))
        × (addr ≡ a)
        × (h' ≡ reuse h size (a, s) rest))
      ⊎ ((addr ≡ h.next_heap_alloc)
          × (next (mask32 h.next_heap_alloc) (mask32 size) ≤ thread_stack_base)
          × (h' ≡ bump h size (next (mask32 h.next_heap_alloc) (mask32 size))))
unfolding alloc_block
alloc_block-cases next size h addr h' e = elim (Option-cases (take_fit size h.heap_free_list)) [
  | inl empty ↦ inr (ground arith, ground arith, ground arith)
  | inr (((a, s), rest), found) ↦ inl (a, s, rest, found, ground arith, ground arith)
]

-- A block of a positive size that simple_alloc hands out from a heap that satisfies the invariant is
-- recorded with its size and overlaps no live block, and the invariant holds after; the size does not
-- carry the cursor past 32 bits, and bump_alloc_next is supposed to round ends up to 16 bytes.
pub alloc_block-Handed :
    (next : ℕ → ℕ → ℕ) (size : ℕ) (h : HeapState) (addr : ℕ) (h' : HeapState)
    → BumpRounds next
    → HeapInv h
    → 0 < size
    → thread_stack_base + size + 15 < u32
    → alloc_block next size h ≡ some (addr, h')
    → Handed h size addr h'
unfolding reuse bump
alloc_block-Handed next size h addr h' law v pos small e =
    elim (alloc_block-cases next size h addr h' e) [
      | inl (a, s, rest, found, is_addr, is_state) ↦
          rw (is_addr, is_state)
            (record {
              inv = reuse-HeapInv h size a s rest v pos found;
              recorded = get-put_self a size h.heap_alloc_sizes;
              fresh = reused-Apart v.blocks size a s rest found pos;
            })
      | inr (is_addr, fits, is_state) ↦
          rw (is_addr, is_state)
            (record {
              inv =
                  bump-HeapInv h size _ v pos
                    (law.rounds _ _ (omega (arith, v.below)) ∙ omega (arith, v.below)) fits;
              recorded = get-put_self h.next_heap_alloc size h.heap_alloc_sizes;
              fresh = fits-Apart h.next_heap_alloc size h.heap_alloc_sizes v.blocks.live_fits;
            })
    ]

-- The heap without a block that was handed out.
abbrev without : ℕ → HeapState → HeapState
without addr h = record h {
  heap_alloc_sizes = pop addr h.heap_alloc_sizes;
  heap_alloc_owner = pop addr h.heap_alloc_owner;
}

without-HeapInv : (addr : ℕ) (h : HeapState) → HeapInv h → HeapInv (without addr h)
without-HeapInv addr h v = record {
  aligned = v.aligned;
  above = v.above;
  below = v.below;
  blocks = drop_live v.blocks addr;
}

recycle-HeapInv :
    (addr size : ℕ) (h : HeapState)
    → HeapInv h
    → get addr h.heap_alloc_sizes ≡ some size
    → HeapInv (recycle addr size (without addr h))
unfolding recycle
recycle-HeapInv addr size h v found = record {
  aligned = v.aligned;
  above = v.above;
  below = v.below;
  blocks =
      add_free (drop_live v.blocks addr) (addr, size)
        (cross-popped addr size h.heap_free_list h.heap_alloc_sizes v.blocks.cross_apart found)
        (AllPairs-popped Apart addr size h.heap_alloc_sizes Apart-sym v.blocks.live_apart found)
        (All-get (InArena h.next_heap_alloc) addr size h.heap_alloc_sizes v.blocks.live_fits found);
}

-- Taking a live block out of a heap that satisfies the invariant leaves it satisfied, before the block
-- is put on the free list and after.
pub untrack-HeapInv :
    (addr size : ℕ) (h h' : HeapState)
    → HeapInv h
    → untrack addr h ≡ some (size, h')
    → HeapInv h' × HeapInv (recycle addr size h')
unfolding untrack
untrack-HeapInv addr size h h' v e = elim (Option-cases (get addr h.heap_alloc_sizes)) [
  | inl missing ↦ absurd (ground arith)
  | inr (n, found) ↦
      let is_size : n ≡ size = ground arith in
      let is_state : without addr h ≡ h' = ground arith in
      rw (← is_state, ← is_size) (without-HeapInv addr h v, recycle-HeapInv addr n h v found)
]

-- In a heap that satisfies the invariant, an allocation fails exactly when every free block is too
-- small and the new cursor would pass the start of the thread stacks; the size does not carry the
-- cursor past 32 bits, and bump_alloc_next is supposed to round ends up to 16 bytes.
pub alloc_block_fails :
    (next : ℕ → ℕ → ℕ) (size : ℕ) (h : HeapState)
    → BumpRounds next
    → HeapInv h
    → thread_stack_base + size + 15 < u32
    → (alloc_block next size h ≡ none) ↔ (
        All (λ b. b.1 < size) h.heap_free_list
        × (thread_stack_base < align16 (h.next_heap_alloc + size)))
unfolding alloc_block
alloc_block_fails next size h law v small = elim (Option-cases (take_fit size h.heap_free_list)) [
  | inl empty ↦ (λ e. (none_fits.0 empty, ground (arith, is_end)), λ g. ground (arith, is_end, g.1))
  | inr ((f, rest), found) ↦
      (λ e. absurd (ground arith), λ g. absurd (ground (arith, none_fits.1 g.0)))
]
  where
    none_fits : (take_fit size h.heap_free_list ≡ none) ↔ All (λ b. b.1 < size) h.heap_free_list
    none_fits = take_fit-none size h.heap_free_list

    is_end : next (mask32 h.next_heap_alloc) (mask32 size) ≡ align16 (h.next_heap_alloc + size)
    is_end =
        law.rounds (mask32 h.next_heap_alloc) (mask32 size) (omega (arith, v.below))
        ∙ omega (arith, v.below)
