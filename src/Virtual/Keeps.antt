-- ===== src/Virtual/Keeps.antt =====
-- The conditions on reservations, and rules for VirtualAlloc, VirtualFree and VirtualQuery of
-- tew/api/kernel32_memory.py.
use tew.Base.{
  ℕ, ◌+◌, ◌≡◌, ◌≤◌, true, false, some, ◌||◌, All, AllPairs, inl, inr, Bool-cases, ◌&&◌, pop,
  nat_key, All-put, All-pop, AllPairs-put, AllPairs-pop, ltb, arith,
}
use tew.State.{Block, VirtualState, CrtState}
use tew.State.Native.{Native}
use tew.Machine.{put_virtual}
use tew.Machine.Keeps.{Keeps, keeps_rules, Keeps-bind}
use tew.Heap.Api.{has_flag}
use tew.Virtual.{
  user_va_start, user_va_end, va_end, mem_commit, mem_reserve, find_free_range, overlaps_reserved,
  advance, advance_past, place, take_free_range, finish_alloc, commit_pages, reserve_pages,
  virtual_alloc_with, virtual_alloc, virtual_query, release_region, decommit_region, virtual_free,
}
use tew.Virtual.Ranges.{Clear, Clear-sym, find_free_range-IsFree, overlaps_reserved-Clear}

abbrev InUser : Block → Type 0
InUser p = (user_va_start ≤ p.0) × (p.0 + p.1 ≤ user_va_end)

pub record VirtualInv (v : VirtualState) : Type 0 where
  pub floor : user_va_start ≤ v.virtual_alloc_floor
  pub apart : AllPairs Clear v.virtual_reserved
  pub in_user : All InUser v.virtual_reserved

abbrev pub VirtualOk : CrtState → Type 0
VirtualOk s = VirtualInv s.virtual

-- An address that a reservation may start at.
record MayReserve (addr size : ℕ) (v : VirtualState) : Type 0 where
  clear : All (Clear (addr, size)) v.virtual_reserved
  user : InUser (addr, size)

put_virtual-Keeps :
    {N : Type 0} (v : VirtualState) → VirtualInv v → Keeps VirtualOk (put_virtual {N = N} v)
unfolding put_virtual
put_virtual-Keeps v inv = record { at = λ w _. inv }

advance_past-reserved :
    (addr size : ℕ) (v : VirtualState)
    → ((advance_past addr size v).virtual_reserved ≡ v.virtual_reserved)
      × ((advance_past addr size v).virtual_alloc_floor ≡ v.virtual_alloc_floor)
unfolding advance_past
advance_past-reserved addr size v = ground arith

place-VirtualInv :
    (addr size fl_type fl_prot : ℕ) (v : VirtualState)
    → VirtualInv v
    → (has_flag fl_type mem_reserve ≡ true → MayReserve addr size v)
    → VirtualInv (place addr size fl_type fl_prot v)
unfolding place
place-VirtualInv addr size fl_type fl_prot v inv may =
    elim (Bool-cases (has_flag fl_type mem_reserve)) [
      | inl reserves ↦ record {
        floor = inv.floor;
        apart = rw reserves (
            AllPairs-put Clear addr size v.virtual_reserved Clear-sym (may reserves).clear
              inv.apart);
        in_user =
            rw reserves
              (All-put InUser addr size v.virtual_reserved (may reserves).user inv.in_user);
      }
      | inr keeps ↦ record {
        floor = inv.floor;
        apart = rw keeps inv.apart;
        in_user = rw keeps inv.in_user;
      }
    ]

module _ {N : Type 0} ⦃lib : Native N⦄ where
  finish_alloc-Keeps :
      (size fl_type fl_prot addr : ℕ) (v : VirtualState)
      → VirtualInv v
      → (has_flag fl_type mem_reserve ≡ true → MayReserve addr size v)
      → Keeps VirtualOk (finish_alloc {N = N} size fl_type fl_prot addr v)
  unfolding finish_alloc
  finish_alloc-Keeps size fl_type fl_prot addr v inv may =
      Keeps-bind _ _ (put_virtual-Keeps _ (place-VirtualInv addr size fl_type fl_prot v inv may))
        λ _. search keeps_rules

  take_free_range-Keeps :
      (size fl_type fl_prot : ℕ)
      → Keeps VirtualOk (take_free_range {N = N} size (finish_alloc size fl_type fl_prot))
  unfolding take_free_range
  take_free_range-Keeps size fl_type fl_prot = search (keeps_rules, found)
    where
      found :
          (s : CrtState) (b addr : ℕ)
          → VirtualOk s
          → find_free_range (va_end b) size s.virtual ≡ some addr
          → Keeps VirtualOk
              (finish_alloc {N = N} size fl_type fl_prot addr (advance addr size s.virtual))
      found s b addr inv e =
          let free = find_free_range-IsFree (va_end b) size s.virtual addr e in
          finish_alloc-Keeps size fl_type fl_prot addr (advance addr size s.virtual)
            (unfold advance in
              record { floor = inv.floor; apart = inv.apart; in_user = inv.in_user })
            (λ _. unfold advance in record { clear = free.0; user = omega (arith, inv.floor) })

  reserve_pages-Keeps :
      (lp_addr page_size fl_type fl_prot : ℕ)
      → Keeps VirtualOk (reserve_pages {N = N} lp_addr page_size fl_type fl_prot)
  unfolding reserve_pages
  reserve_pages-Keeps lp_addr page_size fl_type fl_prot =
      search (keeps_rules, take_free_range-Keeps, requested) depth 8
    where
      requested :
          (s : CrtState) (b : ℕ)
          → VirtualOk s
          → (ltb lp_addr user_va_start || ltb (va_end b) (lp_addr + page_size)) ≡ false
          → (has_flag fl_type mem_reserve
              && overlaps_reserved lp_addr page_size s.virtual.virtual_reserved)
            ≡ false
          → Keeps VirtualOk (
              finish_alloc {N = N} page_size fl_type fl_prot lp_addr
                (advance_past lp_addr page_size s.virtual))
      requested s b inv inside apart =
          let same = advance_past-reserved lp_addr page_size s.virtual in
          finish_alloc-Keeps page_size fl_type fl_prot lp_addr _
            (record {
              floor = rw (same.1) inv.floor;
              apart = rw (same.0) inv.apart;
              in_user = rw (same.0) inv.in_user;
            })
            (λ reserves. record {
              clear = rw (same.0) (
                  overlaps_reserved-Clear lp_addr page_size s.virtual.virtual_reserved
                    (ground (arith, apart, reserves)));
              user = ground (arith, inside);
            })

  commit_pages-Keeps :
      (lp_addr page_size fl_prot : ℕ)
      → Keeps VirtualOk (commit_pages {N = N} lp_addr page_size fl_prot)
  unfolding commit_pages
  commit_pages-Keeps lp_addr page_size fl_prot =
      search (keeps_rules, take_free_range-Keeps, committed) depth 8
    where
      committed :
          (s : CrtState)
          → VirtualOk s
          → Keeps VirtualOk (finish_alloc {N = N} page_size mem_commit fl_prot lp_addr s.virtual)
      committed s inv =
          finish_alloc-Keeps page_size mem_commit fl_prot lp_addr s.virtual inv (λ e. cc e)

  virtual_alloc_with-Keeps :
      (lp_addr dw_size fl_type fl_prot : ℕ)
      → Keeps VirtualOk (virtual_alloc_with {N = N} lp_addr dw_size fl_type fl_prot)
  unfolding virtual_alloc_with
  virtual_alloc_with-Keeps lp_addr dw_size fl_type fl_prot =
      search (keeps_rules, reserve_pages-Keeps, commit_pages-Keeps)

  pub virtual_alloc-Keeps : Keeps VirtualOk (virtual_alloc {N = N})
  unfolding virtual_alloc
  virtual_alloc-Keeps = search (keeps_rules, virtual_alloc_with-Keeps) depth 8

  pub virtual_query-Keeps : Keeps VirtualOk (virtual_query {N = N})
  unfolding virtual_query
  virtual_query-Keeps = search keeps_rules depth 20

  pub virtual_free-Keeps : Keeps VirtualOk (virtual_free {N = N})
  unfolding virtual_free release_region decommit_region
  virtual_free-Keeps = search (keeps_rules, released, decommitted) depth 12
    where
      released :
          (s : CrtState) (a : ℕ)
          → VirtualOk s
          → Keeps VirtualOk (
              put_virtual {N = N} (record (s.virtual) {
                virtual_reserved = pop a s.virtual.virtual_reserved;
                virtual_committed = pop a s.virtual.virtual_committed;
              }))
      released s a inv = put_virtual-Keeps _ (record {
        floor = inv.floor;
        apart = AllPairs-pop Clear a s.virtual.virtual_reserved inv.apart;
        in_user = All-pop InUser a s.virtual.virtual_reserved inv.in_user;
      })

      decommitted :
          (s : CrtState) (a : ℕ)
          → VirtualOk s
          → Keeps VirtualOk (
              put_virtual {N = N}
                (record (s.virtual) { virtual_committed = pop a s.virtual.virtual_committed }))
      decommitted s a inv =
          put_virtual-Keeps _
            (record { floor = inv.floor; apart = inv.apart; in_user = inv.in_user })
