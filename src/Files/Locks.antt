-- ===== src/Files/Locks.antt =====
-- Conditions on the locks of one path, for LockFile, UnlockFile and CloseHandle of
-- tew/api/kernel32_io.py.
use tew.Base.{
  ℕ, ◌≤◌, ◌==◌, ==_iff, ◌≡◌, refl, sym, true, false, Bool-cases, none, some, Option-cases, ◌⊎◌, inl,
  inr, List, [], ◌∷◌, ◌++◌, All, AllPairs, AllPairs-append_one, arith,
}
use tew.State.{FileLock}
use tew.Files.{conflicts, has_conflict, is_lock, remove_lock, add_lock, without_handle}

-- Two locks of one handle may overlap, those of two handles may not.
abbrev pub Compatible : FileLock → FileLock → Type 0
Compatible k l = (k.handle ≡ l.handle) ⊎ ((k.stop ≤ l.start) ⊎ (l.stop ≤ k.start))

abbrev pub LocksOk : List FileLock → Type 0
LocksOk ls = AllPairs Compatible ls

no_conflict :
    (h start stop : ℕ) (l : FileLock)
    → conflicts h start stop l ≡ false
    → Compatible l (record { start = start; stop = stop; handle = h })
unfolding conflicts
no_conflict h start stop l e = ground (arith, e)

has_conflict-All :
    (h start stop : ℕ) (ls : List FileLock)
    → has_conflict h start stop ls ≡ false
    → All (λ l. Compatible l (record { start = start; stop = stop; handle = h })) ls
unfolding has_conflict
has_conflict-All h start stop [] e = tt
has_conflict-All h start stop (l ∷ ls) e = elim (Bool-cases (conflicts h start stop l)) [
  | inl hit ↦ ground (arith, hit, e)
  | inr miss ↦
      (no_conflict h start stop l miss, has_conflict-All h start stop ls (ground (arith, miss, e)))
]

-- Among locks of which no two of different handles overlap, LockFile grants a range only if that stays
-- so with the new lock.
pub add_lock-LocksOk :
    (h start stop : ℕ) (ls left : List FileLock)
    → LocksOk ls
    → add_lock h start stop ls ≡ some left
    → LocksOk left
unfolding add_lock
add_lock-LocksOk h start stop ls left v e = elim (Bool-cases (has_conflict h start stop ls)) [
  | inl hit ↦ ground (arith, hit, e)
  | inr miss ↦
      let same : (ls ++ record { start = start; stop = stop; handle = h } ∷ []) ≡ left =
        ground (arith, miss, e) in
      rw (sym same) (AllPairs-append_one Compatible ls _ v (has_conflict-All h start stop ls miss))
]

remove_lock-All :
    (P : FileLock → Type 0) (h start stop : ℕ) (ls left : List FileLock)
    → All P ls
    → remove_lock h start stop ls ≡ some left
    → All P left
unfolding remove_lock
remove_lock-All P h start stop [] left v e = cc
remove_lock-All P h start stop (l ∷ ls) left v e = elim (Bool-cases (is_lock h start stop l)) [
  | inl hit ↦ let same : ls ≡ left = ground (arith, hit, e) in rw (sym same) (v.1)
  | inr miss ↦ elim (Option-cases (remove_lock h start stop ls)) [
    | inl gone ↦ ground (arith, miss, gone, e)
    | inr (rest, found) ↦
        let same : l ∷ rest ≡ left = ground (arith, miss, found, e) in
        rw (sym same) (v.0, remove_lock-All P h start stop ls rest v.1 found)
  ]
]

pub remove_lock-LocksOk :
    (h start stop : ℕ) (ls left : List FileLock)
    → LocksOk ls
    → remove_lock h start stop ls ≡ some left
    → LocksOk left
unfolding remove_lock
remove_lock-LocksOk h start stop [] left v e = cc
remove_lock-LocksOk h start stop (l ∷ ls) left v e = elim (Bool-cases (is_lock h start stop l)) [
  | inl hit ↦ let same : ls ≡ left = ground (arith, hit, e) in rw (sym same) (v.1)
  | inr miss ↦ elim (Option-cases (remove_lock h start stop ls)) [
    | inl gone ↦ ground (arith, miss, gone, e)
    | inr (rest, found) ↦
        let same : l ∷ rest ≡ left = ground (arith, miss, found, e) in
        rw (sym same) (
          remove_lock-All (Compatible l) h start stop ls rest v.0 found,
          remove_lock-LocksOk h start stop ls rest v.1 found,
        )
  ]
]

without_handle-All :
    (P : FileLock → Type 0) (h : ℕ) (ls : List FileLock) → All P ls → All P (without_handle h ls)
unfolding without_handle
without_handle-All P h [] v = tt
without_handle-All P h (l ∷ ls) v = elim (Bool-cases (l.handle == h)) [
  | inl hit ↦ rw hit (without_handle-All P h ls v.1)
  | inr miss ↦ rw miss (v.0, without_handle-All P h ls v.1)
]

pub without_handle-LocksOk :
    (h : ℕ) (ls : List FileLock) → LocksOk ls → LocksOk (without_handle h ls)
unfolding without_handle
without_handle-LocksOk h [] v = tt
without_handle-LocksOk h (l ∷ ls) v = elim (Bool-cases (l.handle == h)) [
  | inl hit ↦ rw hit (without_handle-LocksOk h ls v.1)
  | inr miss ↦ rw miss (without_handle-All (Compatible l) h ls v.0, without_handle-LocksOk h ls v.1)
]

has_conflict-append_own :
    (h start stop : ℕ) (ls : List FileLock) (l : FileLock)
    → l.handle ≡ h
    → has_conflict h start stop (ls ++ l ∷ []) ≡ has_conflict h start stop ls
unfolding has_conflict conflicts
has_conflict-append_own h start stop [] l e = rw ((==_iff (l.handle) h).1 e) refl
has_conflict-append_own h start stop (k ∷ ls) l e =
    rw (has_conflict-append_own h start stop ls l e) refl

pub is_lock_self :
    (h start stop : ℕ)
    → is_lock h start stop (record { start = start; stop = stop; handle = h }) ≡ true
unfolding is_lock
is_lock_self h start stop =
    ground (arith, (==_iff h h).1 refl, (==_iff start start).1 refl, (==_iff stop stop).1 refl)

-- UnlockFile after a granted LockFile of the same range by the same handle, which had not locked that
-- range before, gives back the locks as they were.
pub remove_lock-add_lock :
    (h start stop : ℕ) (ls left : List FileLock)
    → remove_lock h start stop ls ≡ none
    → add_lock h start stop ls ≡ some left
    → remove_lock h start stop left ≡ some ls
unfolding add_lock remove_lock
remove_lock-add_lock h start stop ls left absent e =
    elim (Bool-cases (has_conflict h start stop ls)) [
      | inl hit ↦ ground (arith, hit, e)
      | inr miss ↦
          let same : (ls ++ record { start = start; stop = stop; handle = h } ∷ []) ≡ left =
            ground (arith, miss, e) in
          rw (sym same) (remove_last ls absent)
    ]
  where
    remove_last :
        (ks : List FileLock)
        → remove_lock h start stop ks ≡ none
        → remove_lock h start stop (ks ++ record { start = start; stop = stop; handle = h } ∷ [])
          ≡ some ks
    remove_last [] none_there = rw (is_lock_self h start stop) refl
    remove_last (k ∷ ks) none_there = elim (Bool-cases (is_lock h start stop k)) [
      | inl hit ↦ ground (arith, hit, none_there)
      | inr miss_k ↦ elim (Option-cases (remove_lock h start stop ks)) [
        | inl gone ↦ rw (miss_k, remove_last ks gone) refl
        | inr (rest, found) ↦ ground (arith, miss_k, found, none_there)
      ]
    ]
