-- ===== src/Sync/Counting.antt =====
-- A mutex as a counter, for the waits and releases of tew/api/kernel32_io.py.
use tew.Base.{
  ℕ, zero, suc, ◌+◌, ◌-◌, leb, ◌==◌, ==_iff, ◌≡◌, ◌≢◌, refl, true, false, Bool-cases, none, some,
  inl, inr, [], ◌∷◌, ◌>>◌, pure, arith,
}
use tew.State.{ObjectState, MutexHandle, mutex}
use tew.State.Native.{Native}
use tew.Machine.{put_objects, return_stdcall}
use tew.Kernel.{set_object}
use tew.Sync.{is_ready, is_owner, acquire, reenter, release}
use tew.Sync.Wait.{suspend, wait_on}

-- The mutex `m` while `tid` has taken it `n` times more than it has released it.
unfoldable pub held : ℕ → ℕ → MutexHandle → MutexHandle
held tid zero m = record m { locked = false; owner_tid = none; recursion_count = 0 }
held tid (suc n) m = record m { locked = true; owner_tid = some tid; recursion_count = suc n }

-- A release undoes the last wait of the owner, and answers whether the mutex has become free.
pub release-held :
    (tid n : ℕ) (m : MutexHandle) → release (held tid (suc n) m) ≡ (held tid n m, n == 0)
unfolding release held
release-held tid zero m = refl
release-held tid (suc n) m =
    let more : leb (suc (suc n)) 1 ≡ false = ground arith in
    let one_less : suc (suc n) - 1 ≡ suc n = omega arith in
    let some_left : (suc n == 0) ≡ false = ground arith in rw (more, one_less, some_left) refl

module _ {N : Type 0} ⦃lib : Native N⦄ where
  -- A wait of the thread that holds a mutex, or on a free mutex, takes it once more.
  pub wait_on-held :
      (timeout tid h r n : ℕ) (m : MutexHandle) (s : ObjectState)
      → wait_on {N = N} timeout tid h r (mutex (held tid n m)) s
        ≡ (put_objects (set_object r (mutex (held tid (suc n) m)) s) >> return_stdcall 0 8)
  unfolding wait_on held is_owner is_ready acquire reenter
  wait_on-held timeout tid h r zero m s = refl
  wait_on-held timeout tid h r (suc n) m s =
      let again : suc n + 1 ≡ suc (suc n) = omega arith in rw ((==_iff tid tid).1 refl, again) refl

  -- A wait of another thread changes no object: it times out or blocks.
  pub wait_on-other :
      (timeout tid by h r n : ℕ) (m : MutexHandle) (s : ObjectState)
      → by ≢ tid
      → wait_on {N = N} timeout by h r (mutex (held tid (suc n) m)) s
        ≡ suspend (pure (h ∷ [])) timeout 8
  unfolding wait_on held is_owner is_ready
  wait_on-other timeout tid by h r n m s other = elim (Bool-cases (tid == by)) [
    | inl same ↦ absurd (other (ground (arith, (==_iff tid by).0 same)))
    | inr differ ↦ rw differ refl
  ]
