-- ===== src/Virtual.antt =====
-- VirtualAlloc, VirtualFree and VirtualQuery of tew/api/kernel32_memory.py.
pub mod Ranges
pub mod Keeps
pub mod Released
pub mod Safety
use tew.Base.{
  ℕ, ◌+◌, ◌-◌, ◌*◌, ◌/◌, min, max, bit_and, ltb, leb, ◌==◌, if◌then◌else◌, Bool, true, false, not,
  ◌&&◌, ◌||◌, get_or, Option, none, some, List, [], ◌∷◌, Dict, has_key, nat_key, get, put, pop,
  ◌>>=◌, ◌>>◌,
}
use tew.State.{Block, VirtualState}
use tew.State.Native.{Native}
use tew.Machine.{
  Action, mask32, on_option, get_state, get_memory, put_virtual, write32, fatal_halt, arg,
  return_stdcall, fail_stdcall,
}
use tew.Heap.Api.{unknown_flags, has_flag}

abbrev pub mem_commit : ℕ
mem_commit = 0x1000

abbrev pub mem_reserve : ℕ
mem_reserve = 0x2000

abbrev pub user_va_start : ℕ
user_va_start = 0x00010000

abbrev pub user_va_end : ℕ
user_va_end = 0x7FFF0000

-- (n + 4095) & ~4095
abbrev pub page_align : ℕ → ℕ
page_align n = (n + 4095) / 4096 * 4096

abbrev pub va_end : ℕ → ℕ
va_end memory_size = min user_va_end memory_size

unfoldable pub overlaps_reserved : ℕ → ℕ → Dict ℕ ℕ → Bool
overlaps_reserved addr size [] = false
overlaps_reserved addr size ((base, sz) ∷ d) =
    (ltb addr (base + sz) && ltb base (addr + size)) || overlaps_reserved addr size d

-- sorted(items): the bases of a dict are distinct, so they decide
unfoldable pub insert_range : Block → List Block → List Block
insert_range p [] = p ∷ []
insert_range p (q ∷ l) = let rest = insert_range p l in if leb p.0 q.0 then p ∷ q ∷ l else q ∷ rest

unfoldable pub sorted : List Block → List Block
unfolding insert_range
sorted [] = []
sorted (p ∷ l) = insert_range p (sorted l)

-- the inner loop of _find_free_range: the candidate when the loop ends
unfoldable pub next_gap : ℕ → ℕ → List Block → ℕ
next_gap cand size [] = cand
next_gap cand size ((base, sz) ∷ ranges) = elim (leb (base + sz) cand) [
  | true ↦ next_gap cand size ranges
  | false ↦ elim (leb (cand + size) base) [
    | true ↦ cand
    | false ↦ next_gap (page_align (base + sz)) size ranges
  ]
]

unfoldable pub gap_from : ℕ → ℕ → ℕ → VirtualState → Option ℕ
unfolding next_gap sorted
gap_from end size start v =
    let cand = next_gap (max start v.virtual_alloc_floor) size (sorted v.virtual_reserved) in
    if leb (cand + size) end then some cand else none

unfoldable pub find_free_range : ℕ → ℕ → VirtualState → Option ℕ
unfolding gap_from
find_free_range end size v = elim (gap_from end size v.next_virtual_alloc v) [
  | some addr ↦ some addr
  | none ↦ gap_from end size v.virtual_alloc_floor v
]

-- the cursor after _take_free_range
unfoldable pub advance : ℕ → ℕ → VirtualState → VirtualState
advance addr size v = record v { next_virtual_alloc = mask32 (addr + size) }

-- the cursor after a request for an address
unfoldable pub advance_past : ℕ → ℕ → VirtualState → VirtualState
advance_past addr size v =
    if ltb v.next_virtual_alloc (page_align (addr + size))
    then record v { next_virtual_alloc = mask32 (page_align (addr + size)) }
    else v

-- the entries that a successful call writes
unfoldable pub place : ℕ → ℕ → ℕ → ℕ → VirtualState → VirtualState
place addr size fl_type fl_prot v = record v {
  virtual_reserved =
      if has_flag fl_type mem_reserve then put addr size v.virtual_reserved else v.virtual_reserved;
  virtual_committed =
      if has_flag fl_type mem_commit
      then put addr size v.virtual_committed
      else v.virtual_committed;
  virtual_protect =
      if has_flag fl_type (mem_reserve + mem_commit)
      then put addr fl_prot v.virtual_protect
      else v.virtual_protect;
}

-- any(base <= addr < base + sz): the first region that holds the address
unfoldable pub region_of : ℕ → Dict ℕ ℕ → Option Block
region_of addr [] = none
region_of addr ((base, sz) ∷ d) =
    if leb base addr && ltb addr (base + sz) then some (base, sz) else region_of addr d

module _ {N : Type 0} ⦃lib : Native N⦄ where
  -- _fail
  abbrev pub virtual_fail : ℕ → Action N (Unit {0})
  virtual_fail error = fail_stdcall error 0 16

  -- _take_free_range, and what the caller does with the address
  unfoldable pub take_free_range :
      ℕ → (ℕ → VirtualState → Action N (Unit {0})) → Action N (Unit {0})
  take_free_range size next = do
    s ← get_state
    b ← get_memory
    on_option (find_free_range (va_end b.size) size s.virtual) (virtual_fail 8)
        (λ addr. next addr (advance addr size s.virtual))

  -- the end of VirtualAlloc: the entries, and the address as the result
  unfoldable pub finish_alloc : ℕ → ℕ → ℕ → ℕ → VirtualState → Action N (Unit {0})
  finish_alloc size fl_type fl_prot addr v = do
    put_virtual (place addr size fl_type fl_prot v)
    return_stdcall addr 16

  -- MEM_COMMIT without MEM_RESERVE
  unfoldable pub commit_pages : ℕ → ℕ → ℕ → Action N (Unit {0})
  commit_pages lp_addr page_size fl_prot = do
    s ← get_state
    if lp_addr == 0
        then take_free_range page_size (finish_alloc page_size (mem_reserve + mem_commit) fl_prot)
        else on_option (region_of lp_addr s.virtual.virtual_reserved) fatal_halt
            (λ region. finish_alloc page_size mem_commit fl_prot lp_addr s.virtual)

  -- the other requests
  unfoldable pub reserve_pages : ℕ → ℕ → ℕ → ℕ → Action N (Unit {0})
  reserve_pages lp_addr page_size fl_type fl_prot = do
    s ← get_state
    b ← get_memory
    if lp_addr == 0
        then take_free_range page_size (finish_alloc page_size fl_type fl_prot)
        else if ltb lp_addr user_va_start || ltb (va_end b.size) (lp_addr + page_size)
        then virtual_fail 487
        else if has_flag fl_type mem_reserve
            && overlaps_reserved lp_addr page_size s.virtual.virtual_reserved
        then virtual_fail 487
        else finish_alloc page_size fl_type fl_prot lp_addr
            (advance_past lp_addr page_size s.virtual)

  unfoldable pub virtual_alloc_with : ℕ → ℕ → ℕ → ℕ → Action N (Unit {0})
  virtual_alloc_with lp_addr dw_size fl_type fl_prot =
      if ltb 0 (unknown_flags fl_type (mem_commit + mem_reserve))
      then fatal_halt
      else if ltb 0 (unknown_flags fl_prot 0x45)
      then fatal_halt
      else if has_flag fl_type mem_commit && not (has_flag fl_type mem_reserve)
      then commit_pages lp_addr (mask32 (page_align dw_size)) fl_prot
      else reserve_pages lp_addr (mask32 (page_align dw_size)) fl_type fl_prot

  unfoldable pub virtual_alloc : Action N (Unit {0})
  virtual_alloc = do
    lp_addr ← arg 4
    dw_size ← arg 8
    fl_type ← arg 12
    fl_prot ← arg 16
    virtual_alloc_with lp_addr dw_size fl_type fl_prot

  unfoldable pub virtual_query : Action N (Unit {0})
  virtual_query = do
    lp_address ← arg 4
    lp_buffer ← arg 8
    dw_length ← arg 12
    s ← get_state
    if ltb dw_length 28
        then fatal_halt
        else on_option (region_of lp_address s.virtual.virtual_reserved) fatal_halt (λ region. do
          let protect = get_or (get region.0 s.virtual.virtual_protect) 0x04
          let committed = has_key region.0 s.virtual.virtual_committed
          write32 lp_buffer region.0
          write32 (lp_buffer + 4) region.0
          write32 (lp_buffer + 8) protect
          write32 (lp_buffer + 12) region.1
          write32 (lp_buffer + 16) (if committed then mem_commit else mem_reserve)
          write32 (lp_buffer + 20) (if committed then protect else 0x01)
          write32 (lp_buffer + 24) 0x00020000
          return_stdcall 28 12)

  -- MEM_RELEASE
  unfoldable pub release_region : ℕ → ℕ → VirtualState → Action N (Unit {0})
  release_region lp_addr dw_size v =
      if not (dw_size == 0)
      then fatal_halt
      else if not (has_key lp_addr v.virtual_reserved)
      then fatal_halt
      else do
        put_virtual (record v {
          virtual_reserved = pop lp_addr v.virtual_reserved;
          virtual_committed = pop lp_addr v.virtual_committed;
        })
        return_stdcall 1 12

  -- MEM_DECOMMIT
  unfoldable pub decommit_region : ℕ → VirtualState → Action N (Unit {0})
  decommit_region lp_addr v = do
    put_virtual (record v { virtual_committed = pop lp_addr v.virtual_committed })
    return_stdcall 1 12

  unfoldable pub virtual_free : Action N (Unit {0})
  virtual_free = do
    lp_addr ← arg 4
    dw_size ← arg 8
    dw_type ← arg 12
    s ← get_state
    if dw_type == 0x8000
        then release_region lp_addr dw_size s.virtual
        else if dw_type == 0x4000
        then decommit_region lp_addr s.virtual
        else fatal_halt
