-- ===== src/Loader/Slots.antt =====
-- The base address that _find_available_base of tew/loader/dll_loader.py chooses.
use tew.Base.{
  ℕ, zero, suc, ◌+◌, ◌*◌, ◌≤◌, ◌<◌, ◌≡◌, ◌⊎◌, inl, inr, refl, subst, true, false, ◌&&◌, ltb,
  Bool-cases, Option, none, some, arith,
}
use tew.Loader.{
  LoaderState, dll_size, max_address, is_address_range_available, find_slot, find_available_base,
}

-- The i-th slot from a base.
abbrev pub slot : ℕ → ℕ → ℕ
slot base i = base + i * dll_size

abbrev pub Taken : LoaderState → ℕ → Type 0
Taken s b = is_address_range_available b dll_size s ≡ false

-- The first slot that is available, below the end of the loader's space.
pub record IsFirstSlot (s : LoaderState) (base b : ℕ) : Type 0 where
  pub index : ℕ
  pub at_slot : b ≡ slot base index
  pub below : b < max_address
  pub available : is_address_range_available b dll_size s ≡ true
  pub taken_before : (i : ℕ) → i < index → Taken s (slot base i)

-- What the outcome says of the slots.
abbrev pub SlotResult : LoaderState → ℕ → Option ℕ → Type 0
SlotResult s base none = (i : ℕ) → slot base i < max_address → Taken s (slot base i)
SlotResult s base (some b) = IsFirstSlot s base b

later_slot :
    (s : LoaderState) (base : ℕ)
    → Taken s base
    → (bound : ℕ) → ((i : ℕ) → i < bound → Taken s (slot (base + dll_size) i))
    → (i : ℕ) → i < suc bound
    → Taken s (slot base i)
later_slot s base here bound h zero lt = subst (Taken s) (omega arith) here
later_slot s base here bound h (suc i) lt = subst (Taken s) (omega arith) (h i (omega arith))

none_later :
    (s : LoaderState) (base : ℕ)
    → Taken s base
    → SlotResult s (base + dll_size) none
    → SlotResult s base none
none_later s base here h = λ i. later i
  where
    later : (i : ℕ) → slot base i < max_address → Taken s (slot base i)
    later zero lt = subst (Taken s) (omega arith) here
    later (suc i) lt = subst (Taken s) (omega arith) (h i (omega arith))

next_result :
    (s : LoaderState) (base : ℕ) (o : Option ℕ)
    → Taken s base
    → SlotResult s (base + dll_size) o
    → SlotResult s base o
next_result s base none here h = none_later s base here h
next_result s base (some b) here h = record {
  index = suc h.index;
  at_slot = omega (arith, h.at_slot);
  below = h.below;
  available = h.available;
  taken_before = later_slot s base here (h.index) (h.taken_before);
}

find_slot_result :
    (rounds base : ℕ) (s : LoaderState)
    → max_address ≤ slot base rounds
    → SlotResult s base (find_slot rounds base s)
unfolding find_slot
find_slot_result zero base s enough = λ i lt. absurd (omega arith)
find_slot_result (suc rounds) base s enough =
    let rest = find_slot_result rounds (base + dll_size) s (omega arith) in
    elim (Bool-cases (ltb base max_address)) [
      | inl inside ↦ elim (Bool-cases (is_address_range_available base dll_size s)) [
        | inl free ↦
            rw (inside, free)
              (record {
                index = 0;
                at_slot = omega arith;
                below = ground (arith, inside);
                available = free;
                taken_before = λ i lt. absurd (omega arith);
              })
        | inr taken ↦ rw (inside, taken) (next_result s base _ taken rest)
      ]
      | inr outside ↦ rw outside (λ i lt. absurd (ground (arith, outside, lt)))
    ]

abbrev pub Usable : LoaderState → ℕ → Type 0
Usable s b = (0 < b) × (b < max_address) × (is_address_range_available b dll_size s ≡ true)

-- The preferred base where it is usable; if not, the first of the slots of 16 MB from 0x10000000 that
-- is available, or none if none below 0x40000000 is: the 48 rounds reach them all.
pub find_available_base_lem :
    (preferred : ℕ) (s : LoaderState)
    → (Usable s preferred × (find_available_base preferred s ≡ some preferred))
      ⊎ ((¬ Usable s preferred) × SlotResult s 0x10000000 (find_available_base preferred s))
unfolding find_available_base
find_available_base_lem preferred s =
    let slots = find_slot_result 48 0x10000000 s (omega arith) in
    elim (Bool-cases (
      (ltb 0 preferred && ltb preferred max_address)
      && is_address_range_available preferred dll_size s)) [
        | inl usable ↦ inl (ground (arith, usable), rw usable refl)
        | inr unusable ↦ inr ((λ u. ground (arith, unusable, u)), rw unusable slots)
      ]
