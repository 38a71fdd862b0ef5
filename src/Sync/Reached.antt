-- ===== src/Sync/Reached.antt =====
-- The creation of objects, ReleaseMutex and WaitForMultipleObjects of tew/api/kernel32_io.py as
-- sequences of the steps of Sync/Steps.
use tew.Base.{ℕ, zero, suc, ◌+◌, ◌≡◌, refl, Bool, true, false, List, add_to_set, Text, arith}
use tew.State.{ObjectState, KernelHandle, EventHandle, mutex, event}
use tew.State.Native.{Native}
use tew.Machine.Keeps.{
  Keeps, Keeps-bind, Keeps-if, Keeps-on_option, Keeps-with_state, Keeps-pure, Keeps-arg,
  Keeps-read32, keeps_rules,
}
use tew.Sync.{
  is_ready, read_cstring, read_name, claim_handle, install, free_mutex, owned_mutex, create_mutex_a,
  open_mutex_a, release_object, release_mutex, create_event_a,
}
use tew.Sync.Wait.{scan, acquire_all, read_handles, wait_for_multiple_common}
use tew.Sync.Steps.{
  IsConsistent, Reach, From, claimed, installed, released, acquired, taken, object_at-eq,
  put_objects-Steps, suspend-Steps,
}

module _ {N : Type 0} ⦃lib : Native N⦄ {b : Bool} {o : ObjectState} where
  pub read_name-Steps : (ptr : ℕ) → Keeps (From b o) (read_name {N = N} ptr)
  unfolding read_name read_cstring
  read_name-Steps ptr = search keeps_rules depth 9

  pub claim_handle-Steps : Keeps (From b o) (claim_handle {N = N})
  unfolding claim_handle
  claim_handle-Steps = Keeps-with_state _ λ s from.
      Keeps-bind _ _ (put_objects-Steps (s.objects) _ from claimed) λ _. search keeps_rules

  pub install-Steps :
      (h : ℕ) (k : KernelHandle) (n : ℕ) → IsConsistent k → Keeps (From b o) (install {N = N} h k n)
  unfolding install
  install-Steps h k n ok = Keeps-with_state _ λ s from.
      Keeps-bind _ _ (put_objects-Steps (s.objects) _ from (installed h k ok))
        λ _. search keeps_rules

  install_mutex-Steps :
      (h : ℕ) (name : Text) → Keeps (From b o) (install {N = N} h (free_mutex name) 12)
  unfolding free_mutex
  install_mutex-Steps h name = install-Steps h _ 12 (unfold IsConsistent in (refl, refl))

  install_owned-Steps :
      (h tid : ℕ) (name : Text) → Keeps (From b o) (install {N = N} h (owned_mutex name tid) 12)
  unfolding owned_mutex
  install_owned-Steps h tid name = install-Steps h _ 12 (unfold IsConsistent in (refl, omega arith))

  pub create_mutex_a-Steps : Keeps (From b o) (create_mutex_a {N = N})
  unfolding create_mutex_a
  create_mutex_a-Steps =
      search
        (keeps_rules, read_name-Steps, claim_handle-Steps, install_mutex-Steps, install_owned-Steps)
        depth 12

  pub open_mutex_a-Steps : Keeps (From b o) (open_mutex_a {N = N})
  unfolding open_mutex_a
  open_mutex_a-Steps = search (keeps_rules, read_name-Steps) depth 9

  pub create_event_a-Steps : Keeps (From b o) (create_event_a {N = N})
  unfolding create_event_a
  create_event_a-Steps =
      search (keeps_rules, read_name-Steps, claim_handle-Steps, new_event) depth 12
    where
      new_event : (h : ℕ) (e : EventHandle) → Keeps (From b o) (install {N = N} h (event e) 16)
      new_event h e = install-Steps h (event e) 16 (unfold IsConsistent in tt)

  pub scan-Steps :
      (tid lp : ℕ) (wait_all : Bool) (k i : ℕ) (all_ready : Bool)
      → Keeps (From b o) (scan {N = N} tid lp wait_all k i all_ready)
  unfolding scan
  scan-Steps tid lp wait_all zero i all_ready = search keeps_rules
  scan-Steps tid lp wait_all (suc k) i all_ready = Keeps-bind _ _ (Keeps-read32 _) λ h.
      Keeps-with_state _ λ s from.
        Keeps-on_option _ _ _
          (λ _.
            Keeps-if wait_all _ _ (λ _. scan-Steps tid lp wait_all k (i + 1) all_ready)
              (λ _. Keeps-pure _))
          λ found e.
            Keeps-if (is_ready (found.1)) _ _
              (λ free.
                Keeps-if wait_all _ _ (λ _. scan-Steps tid lp wait_all k (i + 1) all_ready)
                  λ _.
                    Keeps-bind _ _
                      (put_objects-Steps (s.objects) _ from (
                        acquired tid (found.0) (found.1)
                          (object_at-eq h (found.0) (found.1) (s.objects) e).1 free))
                      λ _. Keeps-pure _)
              λ _.
                Keeps-if wait_all _ _ (λ _. Keeps-pure _)
                  (λ _. scan-Steps tid lp wait_all k (i + 1) false)

  pub read_handles-Steps :
      (lp k i : ℕ) (seen : List ℕ) → Keeps (From b o) (read_handles {N = N} lp k i seen)
  unfolding read_handles
  read_handles-Steps lp zero i seen = search keeps_rules
  read_handles-Steps lp (suc k) i seen =
      Keeps-bind _ _ (Keeps-read32 _) λ h. read_handles-Steps lp k (i + 1) (add_to_set h seen)

module _ {N : Type 0} ⦃lib : Native N⦄ {o : ObjectState} where
  acquire_all-Steps : (tid lp k i : ℕ) → Keeps (From true o) (acquire_all {N = N} tid lp k i)
  unfolding acquire_all
  acquire_all-Steps tid lp zero i = search keeps_rules
  acquire_all-Steps tid lp (suc k) i = Keeps-bind _ _ (Keeps-read32 _) λ h.
      Keeps-with_state _ λ s from.
        Keeps-bind _ _
          (Keeps-on_option _ _ _ (λ _. search keeps_rules)
            λ found e.
              put_objects-Steps (s.objects) _ from (
                taken tid (found.0) (found.1) (object_at-eq h (found.0) (found.1) (s.objects) e).1))
          λ _. acquire_all-Steps tid lp k (i + 1)

  pub wait_for_multiple-Steps : (n : ℕ) → Keeps (From true o) (wait_for_multiple_common {N = N} n)
  unfolding wait_for_multiple_common
  wait_for_multiple-Steps n =
      search (keeps_rules, scan-Steps, acquire_all-Steps, suspend-Steps, read_handles-Steps) depth
        12

  release_object-Steps :
      (h r : ℕ) (k : KernelHandle) (s : ObjectState)
      → Reach true o s
      → s.object r ≡ k
      → Keeps (From true o) (release_object {N = N} h r k s)
  unfolding release_object
  release_object-Steps h r (event e) s from at = search keeps_rules
  release_object-Steps h r (mutex m) s from at =
      Keeps-bind _ _ (put_objects-Steps s _ from (released r m at)) λ _. search keeps_rules

  pub release_mutex-Steps : Keeps (From true o) (release_mutex {N = N})
  unfolding release_mutex
  release_mutex-Steps = Keeps-bind _ _ (Keeps-arg 4) λ h. Keeps-with_state _ λ s from.
      Keeps-bind _ _
        (Keeps-on_option _ _ _ (λ _. search keeps_rules)
          λ found e.
            release_object-Steps h (found.0) (found.1) (s.objects) from
              (object_at-eq h (found.0) (found.1) (s.objects) e).1)
        λ _. search keeps_rules
