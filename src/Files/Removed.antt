-- ===== src/Files/Removed.antt =====
-- What UnlockFile and CloseHandle of tew/api/kernel32_io.py leave of a list of locks.
use tew.Base.{
  ℕ, ◌==◌, if◌then◌else◌, ◌⊎◌, ◌≡◌, ◌≢◌, refl, ap, subst, sym, ◌∙◌, true, false, Bool-cases, inl,
  inr, none, some, Option, Option-cases, List, [], ◌∷◌, ◌++◌, Text, text_same, text_same_iff,
  text_key, nat_key, get, put, get-put, get_or, All, arith,
}
use tew.State.{FileLock, FileState}
use tew.Files.{locks_of, is_lock, remove_lock, without_handle}
use tew.Files.Locks.{is_lock_self}
use tew.Files.Handles.{drop_locks}

-- The locks that a handle holds, in order.
unfoldable pub held_by : ℕ → List FileLock → List FileLock
held_by g [] = []
held_by g (l ∷ ls) = if l.handle == g then l ∷ held_by g ls else held_by g ls

-- The first lock `k` was taken out, or there was none.
abbrev pub IsUnlocked : FileLock → List FileLock → List FileLock → Type 0
IsUnlocked k before after =
    ((front : List FileLock) × ((back : List FileLock) × ((before ≡ front ++ k ∷ back)
          × ((after ≡ front ++ back) × All (λ l. l ≢ k) front))))
    ⊎ (All (λ l. l ≢ k) before × (after ≡ before))

abbrev pub lock_of : ℕ → ℕ → ℕ → FileLock
lock_of h start stop = record { start = start; stop = stop; handle = h }

is_lock-same :
    (h start stop : ℕ) (l : FileLock) → is_lock h start stop l ≡ true → l ≡ lock_of h start stop
unfolding is_lock
is_lock-same h start stop l e =
    let a : l.handle ≡ h = ground (arith, e) in
    let b : l.start ≡ start = ground (arith, e) in let c : l.stop ≡ stop = ground (arith, e) in cc

is_lock-other :
    (h start stop : ℕ) (l : FileLock) → is_lock h start stop l ≡ false → l ≢ lock_of h start stop
is_lock-other h start stop l e same = let own = is_lock_self h start stop in cc

cons_left :
    (l : FileLock) (ls : List FileLock) (o : Option (List FileLock))
    → get_or
        (elim o as (λ _. Option (List FileLock)) [ none ↦ none | some left ↦ some (l ∷ left) ])
        (l ∷ ls)
      ≡ l ∷ get_or o ls
cons_left l ls none = refl
cons_left l ls (some left) = refl

IsUnlocked-later :
    (k l : FileLock) (before after : List FileLock)
    → l ≢ k
    → IsUnlocked k before after
    → IsUnlocked k (l ∷ before) (l ∷ after)
IsUnlocked-later k l before after other (inl (front, (back, (e, (e', none_before))))) =
    inl (l ∷ front, (back, (ap (λ x. l ∷ x) e, (ap (λ x. l ∷ x) e', (other, none_before)))))
IsUnlocked-later k l before after other (inr (none_there, e)) =
    inr ((other, none_there), ap (λ x. l ∷ x) e)

-- The list that is left is the old one, if there is no such lock.
pub remove_lock-IsUnlocked :
    (h start stop : ℕ) (ls : List FileLock)
    → IsUnlocked (lock_of h start stop) ls (get_or (remove_lock h start stop ls) ls)
unfolding remove_lock
remove_lock-IsUnlocked h start stop [] = inr (tt, refl)
remove_lock-IsUnlocked h start stop (l ∷ ls) = elim (Bool-cases (is_lock h start stop l)) [
  | inl hit ↦
      rw hit (inl ([], (ls, (ap (λ k. k ∷ ls) (is_lock-same h start stop l hit), (refl, tt)))))
  | inr miss ↦ rw miss (
      subst (IsUnlocked (lock_of h start stop) (l ∷ ls))
        (sym (cons_left l ls (remove_lock h start stop ls)))
        (IsUnlocked-later _ l ls _ (is_lock-other h start stop l miss)
          (remove_lock-IsUnlocked h start stop ls)))
]

pub held_by-without_handle :
    (g h : ℕ) (ls : List FileLock)
    → held_by g (without_handle h ls) ≡ (if g == h then [] else held_by g ls)
unfolding held_by without_handle
held_by-without_handle g h [] = ground arith
held_by-without_handle g h (l ∷ ls) = ground (arith, held_by-without_handle g h ls)

-- One path's locks are replaced.
pub put-locks_of :
    (path q : Text) (ls : List FileLock) (s : FileState)
    → locks_of q (record s { file_locks = put path ls s.file_locks })
      ≡ (if text_same path q then ls else locks_of q s)
unfolding locks_of
put-locks_of path q ls s =
    rw (get-put path q ls s.file_locks)
      (elim (Bool-cases (text_same path q)) [ inl e ↦ rw e refl | inr e ↦ rw e refl ])

pub drop_locks-locks_of :
    (h : ℕ) (path q : Text) (s : FileState)
    → locks_of q (drop_locks h path s)
      ≡ (if text_same path q then without_handle h (locks_of path s) else locks_of q s)
unfolding drop_locks
drop_locks-locks_of h path q s = elim (Option-cases (get path s.file_locks)) [
  | inl absent ↦
      let empty : locks_of path s ≡ [] = unfold locks_of in rw absent refl in
      rw (absent, drop_locks)
        (elim (Bool-cases (text_same path q)) [
          | inl e ↦
              rw (e, empty)
                (unfold without_handle in
                  ap (λ p. locks_of p s) (sym ((text_same_iff path q).0 e)) ∙ empty)
          | inr e ↦ rw e refl
        ])
  | inr (ls, found) ↦
      let same : locks_of path s ≡ ls = unfold locks_of in rw found refl in
      rw (found, drop_locks, same) (put-locks_of path q (without_handle h ls) s)
]
