-- ===== src/Virtual/Ranges.antt =====
-- The search for free address space of tew/api/kernel32_memory.py.
use tew.Base.{
  ℕ, ◌+◌, ◌≡◌, refl, sym, subst, ◌≤◌, max, ◌⊎◌, inl, inr, true, false, some, List, [], ◌∷◌, All,
  Bool-cases, Option-cases, Dict, leb, leb→le, leb-false, arith,
}
use tew.State.{Block, VirtualState}
use tew.Virtual.{
  overlaps_reserved, insert_range, sorted, next_gap, gap_from, find_free_range, page_align,
}

-- Two ranges have no address in common.
abbrev pub Clear : Block → Block → Type 0
Clear p q = (p.0 + p.1 ≤ q.0) ⊎ (q.0 + q.1 ≤ p.0)

pub Clear-sym : (p q : Block) → Clear p q → Clear q p
Clear-sym p q (inl h) = inr h
Clear-sym p q (inr h) = inl h

-- Every range starts at the bound or after, in order.
abbrev IsAscending : ℕ → List Block → Type 0
IsAscending lo [] = Unit
IsAscending lo (p ∷ l) = (lo ≤ p.0) × IsAscending p.0 l

IsAscending-mono : (lo hi : ℕ) (l : List Block) → lo ≤ hi → IsAscending hi l → IsAscending lo l
IsAscending-mono lo hi [] h a = tt
IsAscending-mono lo hi (p ∷ l) h a = (omega arith, a.1)

insert_range-IsAscending :
    (lo : ℕ) (p : Block) (l : List Block)
    → lo ≤ p.0
    → IsAscending lo l
    → IsAscending lo (insert_range p l)
unfolding insert_range
insert_range-IsAscending lo p [] h a = (h, tt)
insert_range-IsAscending lo p (q ∷ l) h a = elim (Bool-cases (leb p.0 q.0)) [
  | inl before ↦ rw before (h, (leb→le p.0 q.0 before, a.1))
  | inr after ↦
      rw after (a.0, insert_range-IsAscending q.0 p l (omega (arith, leb-false p.0 q.0 after)) a.1)
]

sorted-IsAscending : (l : List Block) → IsAscending 0 (sorted l)
unfolding sorted
sorted-IsAscending [] = tt
sorted-IsAscending (p ∷ l) =
    insert_range-IsAscending 0 p (sorted l) (omega arith) (sorted-IsAscending l)

insert_range-All :
    (P : Block → Type 0) (p : Block) (l : List Block) → All P (insert_range p l) → P p × All P l
unfolding insert_range
insert_range-All P p [] h = (h.0, tt)
insert_range-All P p (q ∷ l) h = elim (Bool-cases (leb p.0 q.0)) [
  | inl before ↦ let k : All P (p ∷ q ∷ l) = rw before at h in (k.0, k.1)
  | inr after ↦
      let k : All P (q ∷ insert_range p l) = rw after at h in
      let ih = insert_range-All P p l k.1 in (ih.0, (k.0, ih.1))
]

-- What holds of every sorted range holds of every range.
sorted-All : (P : Block → Type 0) (l : List Block) → All P (sorted l) → All P l
unfolding sorted
sorted-All P [] h = tt
sorted-All P (p ∷ l) h = let k = insert_range-All P p (sorted l) h in (k.0, sorted-All P l k.1)

next_gap-ge : (cand size : ℕ) (l : List Block) → cand ≤ next_gap cand size l
unfolding next_gap
next_gap-ge cand size [] = omega arith
next_gap-ge cand size ((base, sz) ∷ l) =
    ground (arith, next_gap-ge cand size l, next_gap-ge (page_align (base + sz)) size l)

ascending-Clear :
    (c size lo : ℕ) (l : List Block) → c + size ≤ lo → IsAscending lo l → All (Clear (c, size)) l
ascending-Clear c size lo [] h a = tt
ascending-Clear c size lo (p ∷ l) h a =
    (inl (omega arith), ascending-Clear c size p.0 l (omega arith) a.1)

module _ (cand size base sz : ℕ) (l : List Block) where
  next_gap-passed :
      leb (base + sz) cand ≡ true → next_gap cand size ((base, sz) ∷ l) ≡ next_gap cand size l
  unfolding next_gap
  next_gap-passed h = rw (h, next_gap)

  next_gap-fits :
      leb (base + sz) cand ≡ false
      → leb (cand + size) base ≡ true
      → next_gap cand size ((base, sz) ∷ l) ≡ cand
  unfolding next_gap
  next_gap-fits h k = rw (h, k, next_gap)

  next_gap-blocked :
      leb (base + sz) cand ≡ false
      → leb (cand + size) base ≡ false
      → next_gap cand size ((base, sz) ∷ l) ≡ next_gap (page_align (base + sz)) size l
  unfolding next_gap
  next_gap-blocked h k = rw (h, k, next_gap)

next_gap-Clear :
    (cand size lo : ℕ) (l : List Block)
    → IsAscending lo l
    → All (Clear (next_gap cand size l, size)) l
next_gap-Clear cand size lo [] a = tt
next_gap-Clear cand size lo ((base, sz) ∷ l) a = elim (Bool-cases (leb (base + sz) cand)) [
  | inl passed ↦ subst at_gap (sym (next_gap-passed cand size base sz l passed)) (
    inr (omega (arith, leb→le (base + sz) cand passed, next_gap-ge cand size l)),
    next_gap-Clear cand size base l a.1,
  )
  | inr ahead ↦ elim (Bool-cases (leb (cand + size) base)) [
    | inl fits ↦
        let before = leb→le (cand + size) base fits in
        subst at_gap (sym (next_gap-fits cand size base sz l ahead fits))
          (inl before, ascending-Clear cand size base l before a.1)
    | inr blocked ↦ subst at_gap (sym (next_gap-blocked cand size base sz l ahead blocked)) (
      inr (omega (arith, next_gap-ge (page_align (base + sz)) size l)),
      next_gap-Clear (page_align (base + sz)) size base l a.1,
    )
  ]
]
  where
    at_gap : ℕ → Type 0
    at_gap c = All (Clear (c, size)) ((base, sz) ∷ l)

-- A range that was found touches no reservation, lies at the floor or above, and ends in time.
abbrev pub IsFree : ℕ → ℕ → VirtualState → ℕ → Type 0
IsFree end size v addr =
    All (Clear (addr, size)) v.virtual_reserved
    × (v.virtual_alloc_floor ≤ addr)
    × (addr + size ≤ end)

gap_from-IsFree :
    (end size start : ℕ) (v : VirtualState) (addr : ℕ)
    → gap_from end size start v ≡ some addr
    → IsFree end size v addr
unfolding gap_from
gap_from-IsFree end size start v addr e =
    elim (Bool-cases (leb (next_gap from size ranges + size) end)) [
      | inl fits ↦
          let is_addr : next_gap from size ranges ≡ addr = ground (arith, e, fits) in
          rw (← is_addr) (
            sorted-All (Clear (next_gap from size ranges, size)) v.virtual_reserved
                (next_gap-Clear from size 0 ranges (sorted-IsAscending v.virtual_reserved)),
            omega (arith, next_gap-ge from size ranges),
            leb→le _ end fits,
          )
      | inr over ↦ absurd (ground (arith, e, over))
    ]
  where
    from : ℕ
    from = max start v.virtual_alloc_floor

    ranges : List Block
    ranges = sorted v.virtual_reserved

-- A range that the search finds touches no reservation, starts at the floor or above it, and ends
-- where it has to.
pub find_free_range-IsFree :
    (end size : ℕ) (v : VirtualState) (addr : ℕ)
    → find_free_range end size v ≡ some addr
    → IsFree end size v addr
unfolding find_free_range
find_free_range-IsFree end size v addr e =
    elim (Option-cases (gap_from end size v.next_virtual_alloc v)) [
      | inl full ↦ gap_from-IsFree end size v.virtual_alloc_floor v addr (ground (arith, e, full))
      | inr (a, found) ↦
          gap_from-IsFree end size v.next_virtual_alloc v addr (ground (arith, e, found))
    ]

-- The overlap test passes exactly the ranges that touch no reservation.
pub overlaps_reserved-Clear :
    (addr size : ℕ) (d : Dict ℕ ℕ)
    → overlaps_reserved addr size d ≡ false
    → All (Clear (addr, size)) d
unfolding overlaps_reserved
overlaps_reserved-Clear addr size [] h = tt
overlaps_reserved-Clear addr size ((base, sz) ∷ d) h =
    (ground arith, overlaps_reserved-Clear addr size d (ground arith))

pub Clear-overlaps_reserved :
    (addr size : ℕ) (d : Dict ℕ ℕ)
    → All (Clear (addr, size)) d
    → overlaps_reserved addr size d ≡ false
unfolding overlaps_reserved
Clear-overlaps_reserved addr size [] h = refl
Clear-overlaps_reserved addr size ((base, sz) ∷ d) (inl below, rest) =
    ground (arith, below, Clear-overlaps_reserved addr size d rest)
Clear-overlaps_reserved addr size ((base, sz) ∷ d) (inr above, rest) =
    ground (arith, above, Clear-overlaps_reserved addr size d rest)
