-- ===== src/Sync/Releases.antt =====
-- ReleaseMutex of tew/api/kernel32_io.py on a mutex as a counter.
use tew.Base.{
  ℕ, suc, ◌==◌, if◌then◌else◌, ◌≡◌, refl, Bool, Bool-cases, inl, inr, some, ok, ◌>>=◌, pure,
}
use tew.State.{World, MutexHandle, mutex}
use tew.State.Native.{Native}
use tew.Machine.{mask32, get_state, get_native, put_native, put_objects, arg, unblock_handle}
use tew.Machine.Returns.{arg_read, return_stdcall-Same}
use tew.Kernel.{object_at, set_object}
use tew.Sync.{release_object, release_mutex}
use tew.Sync.Counting.{held, release-held}

module _ {N : Type 0} ⦃lib : Native N⦄ where
  -- The world after a mutex was released.
  abbrev released : ℕ → ℕ → MutexHandle → Bool → World N → World N
  released h r m free w = record w {
    state = record (w.state) { objects = set_object r (mutex m) w.state.objects };
    native = if free then (lib.unblock_handle w.native (mask32 h)).1 else w.native;
  }

  release_object-held :
      (h r tid n : ℕ) (m : MutexHandle) (w : World N)
      → release_object h r (mutex (held tid (suc n) m)) w.state.objects w
        ≡ (ok tt, released h r (held tid n m) (n == 0) w)
  unfolding release_object put_objects unblock_handle get_native put_native pure ◌>>=◌
  release_object-held h r tid n m w =
      rw (release-held tid n m)
        (elim (Bool-cases (n == 0)) [ inl e ↦ rw e refl | inr e ↦ rw e refl ])

  -- ReleaseMutex, whichever thread calls it, on a handle of a mutex that a thread has taken once more than `n` times leaves it taken `n` times,
  -- by that thread unless it is free now, changes no other object, and has the scheduler wake the threads that wait
  -- for the handle exactly when the mutex becomes free.
  pub release_mutex-held :
      (w : World N) (h r tid n : ℕ) (m : MutexHandle)
      → (arg 4 w).0 ≡ ok h
      → object_at h w.state.objects ≡ some (r, mutex (held tid (suc n) m))
      → let u = (release_mutex w).1 in
        (u.state
          ≡ record (w.state) { objects = set_object r (mutex (held tid n m)) w.state.objects })
        × (u.native ≡ (if n == 0 then (lib.unblock_handle w.native (mask32 h)).1 else w.native))
  unfolding release_mutex get_state ◌>>=◌
  release_mutex-held w h r tid n m given there =
      let s = return_stdcall-Same 1 4 (released h r (held tid n m) (n == 0) w) in
      rw (arg_read 4 h w given, there, release_object-held h r tid n m w) (s.state, s.native)
