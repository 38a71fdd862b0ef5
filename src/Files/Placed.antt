-- ===== src/Files/Placed.antt =====
-- The place of a position in the data of a file, for the arithmetic of the seeks and reads of
-- tew/api/kernel32_io.py.
use tew.Base.{
  ℕ, zero, suc, ◌+◌, ◌-◌, ◌≤◌, ◌<◌, ◌^◌, min, ◌≡◌, refl, sym, ap, ◌∙◌, subst, Bool, true, false,
  Bool-cases, Option, none, some, Option-cases, inl, inr, List, [], ◌∷◌, ◌++◌, take, drop, length,
  length-take, length-drop, arith,
}
use tew.State.{FileHandleEntry}
use tew.Files.Access.{move_to, seek_within, data_at}

unfoldable pub IsPlacedIn : Bool → Option ℕ → FileHandleEntry → Type 0
IsPlacedIn true fd e = Unit
IsPlacedIn false (some fd) e = Unit
IsPlacedIn false none e = e.position ≤ length e.contents

-- In a file whose data is held by the entry, the position is at most the end.
unfoldable pub IsPlaced : FileHandleEntry → Type 0
IsPlaced e = IsPlacedIn e.writable e.fd e

-- A seek to `p` with no further check is fine where `p` is.
pub move_to-IsPlaced :
    (e : FileHandleEntry) (p : ℕ) → p ≤ length (e.contents) → IsPlaced (move_to p e)
unfolding IsPlaced IsPlacedIn move_to
move_to-IsPlaced e p h = elim (Bool-cases e.writable) [
  | inl w ↦ rw w tt
  | inr r ↦ rw r (elim (Option-cases e.fd) [ inl n ↦ rw n h | inr (fd, f) ↦ rw f tt ])
]

pub writable-IsPlaced : (e : FileHandleEntry) (p : ℕ) → e.writable ≡ true → IsPlaced (move_to p e)
unfolding IsPlaced IsPlacedIn move_to
writable-IsPlaced e p w = rw w tt

pub seek_within_le : (base word size : ℕ) → seek_within base word size ≤ size
unfolding seek_within
seek_within_le base word size = ground arith

length-data_at :
    (e : FileHandleEntry) (p n : ℕ) → length (data_at e p n) ≡ min n (length (e.contents) - p)
unfolding data_at
length-data_at e p n = length-take (min n (length e.contents - p)) (drop p (e.contents)) ∙ cut
  where
    cut :
        min (min n (length e.contents - p)) (length (drop p (e.contents)))
        ≡ min n (length e.contents - p)
    cut = omega (arith, length-drop p (e.contents))

-- Reading moves the position by what was read.
pub read-IsPlaced :
    (e : FileHandleEntry) (n : ℕ)
    → IsPlaced e
    → IsPlaced (move_to (e.position + length (data_at e (e.position) n)) e)
unfolding IsPlaced IsPlacedIn move_to data_at
read-IsPlaced e n h = elim (Bool-cases e.writable) [
  | inl w ↦ rw w tt
  | inr r ↦ elim (Option-cases e.fd) [
    | inl closed ↦
        let here : e.position ≤ length e.contents =
          subst (λ o. IsPlacedIn false o e) closed (subst (λ b. IsPlacedIn b e.fd e) r h) in
        rw (r, closed) (omega (arith, here, length-data_at e (e.position) n))
    | inr (fd, f) ↦ rw (r, f) tt
  ]
]

-- A seek forward and the same distance back ends at the position where it began, where both stay
-- inside the file; the way back is the 32-bit two's complement of the distance.
pub seek_within_back :
    (p k size : ℕ)
    → 0 < k
    → k < 2 ^ 31
    → p + k ≤ size
    → seek_within (seek_within p k size) (2 ^ 32 - k) size ≡ p
unfolding seek_within
seek_within_back p k size pos small fits = ground arith

drop_nil : (k : ℕ) → drop {A = ℕ} k [] ≡ []
drop_nil zero = refl
drop_nil (suc k) = refl

drop_add : (p a : ℕ) (xs : List ℕ) → drop (p + a) xs ≡ drop a (drop p xs)
drop_add zero a xs = let same : 0 + a ≡ a = omega arith in rw same refl
drop_add (suc p) a [] = drop_nil (suc p + a) ∙ sym (drop_nil a)
drop_add (suc p) a (x ∷ xs) =
    let next : suc p + a ≡ suc (p + a) = omega arith in rw next (drop_add p a xs)

take_add : (a b : ℕ) (xs : List ℕ) → take a xs ++ take b (drop a xs) ≡ take (a + b) xs
take_add zero b xs = let same : 0 + b ≡ b = omega arith in rw same refl
take_add (suc a) zero [] = let same : suc a + 0 ≡ suc a = omega arith in rw same refl
take_add (suc a) (suc b) [] =
    let next : suc a + suc b ≡ suc (a + suc b) = omega arith in rw next refl
take_add (suc a) b (x ∷ xs) =
    let next : suc a + b ≡ suc (a + b) = omega arith in rw next (ap (λ l. x ∷ l) (take_add a b xs))

-- Two reads in a row give the same bytes as one read of both lengths.
pub data_at-append :
    (e : FileHandleEntry) (p n m : ℕ)
    → data_at e p n ++ data_at e (p + length (data_at e p n)) m ≡ data_at e p (n + m)
unfolding data_at
data_at-append e p n m =
    ap (λ l. data_at e p n ++ data_at e (p + l) m) (length-data_at e p n)
    ∙ (rw (drop_add p a (e.contents))
        (take_add a b (drop p (e.contents)) ∙ ap (λ k. take k (drop p (e.contents))) total))
  where
    a : ℕ
    a = min n (length e.contents - p)

    b : ℕ
    b = min m (length e.contents - (p + a))

    total : a + b ≡ min (n + m) (length e.contents - p)
    total = omega arith
