-- ===== src/Tls/Slots.antt =====
-- What the threads read from their slots.
use tew.Base.{
  ℕ, ◌==◌, ==_iff, ◌≡◌, refl, ap, ◌&&◌, Bool-cases, inl, inr, if◌then◌else◌, [], ◌∷◌, Dict, get,
  put, get-put, get-pop, get_or, nat_key,
}
use tew.Tls.{thread_store, store_value, slot_value, clear_slot}

-- A value that a thread stores in a slot is what that thread reads there, and changes no other slot
-- and no slot of another thread.
pub slot_value-store_value :
    (tid idx val by at : ℕ) (stores : Dict ℕ (Dict ℕ ℕ))
    → slot_value by at (store_value tid idx val stores)
      ≡ (if (tid == by) && (idx == at) then val else slot_value by at stores)
unfolding slot_value store_value thread_store
slot_value-store_value tid idx val by at stores =
    rw (get-put tid by (put idx val (get_or (get tid stores) [])) stores)
      (elim (Bool-cases (tid == by)) [
        | inl same ↦ rw same (
            rw (get-put idx at val (get_or (get tid stores) [])) (elim (Bool-cases (idx == at)) [
              | inl hit ↦ rw hit refl
              | inr miss ↦ rw miss (ap (λ t. slot_value t at stores) ((==_iff tid by).0 same))
            ]))
        | inr other ↦ rw other refl
      ])

-- After a slot is freed every thread reads 0 from it, and what it read before from the others.
slot_value-clear_slot :
    (idx tid at : ℕ) (stores : Dict ℕ (Dict ℕ ℕ))
    → slot_value tid at (clear_slot idx stores)
      ≡ (if idx == at then 0 else slot_value tid at stores)
unfolding slot_value clear_slot thread_store get
slot_value-clear_slot idx tid at [] = elim (Bool-cases (idx == at)) [
  | inl hit ↦ rw hit refl
  | inr miss ↦ rw miss refl
]
slot_value-clear_slot idx tid at ((by, store) ∷ stores) = elim (Bool-cases (by == tid)) [
  | inl same ↦ rw same (
      rw (get-pop idx at store)
        (elim (Bool-cases (idx == at)) [ inl hit ↦ rw hit refl | inr miss ↦ rw miss refl ]))
  | inr other ↦ rw other (slot_value-clear_slot idx tid at stores)
]
