-- ===== src/Tests/Objects.antt =====
-- The theorems on kernel objects and file locks at the demonstration states.
use tew.Base.{
  ℕ, ◌==◌, ◌≡◌, ◌≢◌, refl, true, false, Bool-cases, none, some, [], ◌∷◌, inl, inr, ◌>>◌, text_same,
  get, text_key, nat_key, arith, ok, ◌>>=◌, ◌+◌, ◌&&◌, if◌then◌else◌, Text,
}
use tew.State.{World, FileLock, FileHandleEntry, mutex}
use tew.Machine.{put_objects, return_stdcall, arg, mask32}
use tew.Kernel.{object_at, set_object, tick}
use tew.Sync.{is_owner, create_mutex_a, create_event_a, release_mutex, set_event, reset_event}
use tew.Sync.Wait.{wait_on, wait_for_single, wait_for_multiple_common}
use tew.Sync.Steps.{IsConsistent}
use tew.Sync.Mutex.{ObjectsOk, HeldBy}
use tew.Sync.Counting.{held, wait_on-held}
use tew.Sync.Releases.{release_mutex-held}
use tew.Sync.Safety.{wait_for_single-HeldBy, handles-HeldBy, waits-ObjectsOk, handles-ObjectsOk}
use tew.Files.{entry_at, join_words, locks_of, add_lock, remove_lock, lock_file, unlock_file}
use tew.Files.Handles.{close_handle, duplicate_handle_entry}
use tew.Files.Locks.{remove_lock-add_lock}
use tew.Files.Keeps.{AllLocksOk}
use tew.Files.Safety.{lock_file-AllLocksOk}
use tew.Files.Removed.{held_by, IsUnlocked, lock_of}
use tew.Files.Unlocks.{unlocks_lem}
use tew.Threads.{create_thread}
use tew.Threads.Fresh.{ThreadsOk, create_thread-ThreadsOk}
use tew.Tests.Demo.{
  demo_native, demo_name, demo_lock, demo_objects, demo_files, demo_state, demo_call, owned,
}

demo_objects-HeldBy : HeldBy 0 2 demo_objects
unfolding is_owner
demo_objects-HeldBy = record { in_use = omega arith; owner = refl }

demo_objects-ObjectsOk : ObjectsOk demo_objects
unfolding IsConsistent
demo_objects-ObjectsOk = record {
  consistent = λ r. elim (Bool-cases (r == 0)) [
    | inl first ↦ rw first (refl, omega arith)
    | inr other ↦ rw other tt
  ];
  in_use = (omega arith, (omega arith, tt));
}

-- thread 1 waits for the mutex of thread 2, and for both objects
abbrev wait_call : World ℕ
wait_call = demo_call (0 ∷ 0x200 ∷ 0xFFFFFFFF ∷ [])

abbrev close_call : World ℕ
close_call = demo_call (0 ∷ 0x200 ∷ [])

wait_for_single-HeldBy_example : HeldBy 0 2 ((wait_for_single wait_call).1.state.objects)
wait_for_single-HeldBy_example = wait_for_single-HeldBy 0 2 wait_call demo_objects-HeldBy

handles-HeldBy_example :
    HeldBy 0 2 ((create_mutex_a close_call).1.state.objects)
    × HeldBy 0 2 ((close_handle close_call).1.state.objects)
    × HeldBy 0 2 ((duplicate_handle_entry 0x200 true close_call).1.state.objects)
    × HeldBy 0 2 ((tick close_call).1.state.objects)
handles-HeldBy_example = handles-HeldBy 0 2 0x200 true close_call demo_objects-HeldBy

waits-ObjectsOk_example :
    ObjectsOk ((wait_for_single wait_call).1.state.objects)
    × ObjectsOk ((wait_for_multiple_common 16 wait_call).1.state.objects)
    × ObjectsOk ((release_mutex wait_call).1.state.objects)
waits-ObjectsOk_example = waits-ObjectsOk 16 wait_call demo_objects-ObjectsOk

handles-ObjectsOk_example :
    ObjectsOk ((create_mutex_a close_call).1.state.objects)
    × ObjectsOk ((create_event_a close_call).1.state.objects)
    × ObjectsOk ((set_event close_call).1.state.objects)
    × ObjectsOk ((reset_event close_call).1.state.objects)
    × ObjectsOk ((close_handle close_call).1.state.objects)
    × ObjectsOk ((duplicate_handle_entry 0x200 true close_call).1.state.objects)
    × ObjectsOk ((tick close_call).1.state.objects)
handles-ObjectsOk_example = handles-ObjectsOk 0x200 true close_call demo_objects-ObjectsOk

abbrev release_call : World ℕ
release_call = demo_call (0 ∷ 0x200 ∷ [])

release_call-handle : (arg 4 release_call).0 ≡ ok 0x200
unfolding arg tew.Machine.get_cpu tew.Machine.read32 tew.Machine.get_memory tew.Base.or_raise ◌>>=◌
release_call-handle = refl

held_once : object_at 0x200 demo_objects ≡ some (0, mutex (held 2 1 owned))
unfolding object_at get held
held_once = refl

release_mutex-held_example :
    let u = (release_mutex release_call).1 in
    (u.state ≡ record demo_state { objects = set_object 0 (mutex (held 2 0 owned)) demo_objects })
    × (u.native ≡ (if 0 == 0 then (demo_native.unblock_handle 100 (mask32 0x200)).1 else 100))
release_mutex-held_example =
    release_mutex-held release_call 0x200 0 2 0 owned release_call-handle held_once

wait_on-held_example :
    wait_on {N = ℕ} 50 2 0x200 0 (mutex (held 2 1 owned)) demo_objects
    ≡ (put_objects (set_object 0 (mutex (held 2 2 owned)) demo_objects) >> return_stdcall 0 8)
wait_on-held_example = wait_on-held 50 2 0x200 0 1 owned demo_objects

two_is_not_one : ◌≢◌ {A = ℕ} 1 2
two_is_not_one = omega arith

demo_state-AllLocksOk : AllLocksOk demo_state
unfolding locks_of get
demo_state-AllLocksOk = record {
  on = λ path. elim (Bool-cases (text_same demo_name path)) [
    | inl hit ↦ rw hit (tt, tt)
    | inr miss ↦ rw miss tt
  ];
}

abbrev new_lock : FileLock
new_lock = record { start = 8; stop = 16; handle = 0x301 }

lock_granted : add_lock 0x301 8 16 (demo_lock ∷ []) ≡ some (demo_lock ∷ new_lock ∷ [])
unfolding add_lock tew.Files.has_conflict tew.Files.conflicts
lock_granted = refl

not_locked : remove_lock 0x301 8 16 (demo_lock ∷ []) ≡ none
unfolding remove_lock tew.Files.is_lock
not_locked = refl

remove_lock-add_lock_example :
    remove_lock 0x301 8 16 (demo_lock ∷ new_lock ∷ []) ≡ some (demo_lock ∷ [])
remove_lock-add_lock_example =
    remove_lock-add_lock 0x301 8 16 (demo_lock ∷ []) (demo_lock ∷ new_lock ∷ []) not_locked
      lock_granted

abbrev lock_call : World ℕ
lock_call = demo_call (0 ∷ 0x301 ∷ 4 ∷ 0 ∷ 8 ∷ 0 ∷ [])

lock_file-AllLocksOk_example : AllLocksOk ((lock_file lock_call).1.state)
lock_file-AllLocksOk_example = lock_file-AllLocksOk lock_call demo_state-AllLocksOk

-- The handle that has the lock unlocks it.
abbrev unlock_call : World ℕ
unlock_call = demo_call (0 ∷ 0x300 ∷ 0 ∷ 0 ∷ 8 ∷ 0 ∷ [])

unlock_call-args :
    ((arg 4 unlock_call).0 ≡ ok 0x300)
    × ((arg 8 unlock_call).0 ≡ ok 0)
    × ((arg 12 unlock_call).0 ≡ ok 0)
    × ((arg 16 unlock_call).0 ≡ ok 8)
    × ((arg 20 unlock_call).0 ≡ ok 0)
unfolding arg tew.Machine.get_cpu tew.Machine.read32 tew.Machine.get_memory tew.Base.or_raise ◌>>=◌
unlock_call-args = (refl, refl, refl, refl, refl)

abbrev open_file : ℕ × FileHandleEntry
open_file = (0, demo_files.entry 0)

file_open : entry_at 0x300 demo_files ≡ some open_file
unfolding entry_at get
file_open = refl

unlocks_lem_example :
    let start = join_words 0 0 in
    let u = (unlock_file unlock_call).1.state in
    let v = (close_handle unlock_call).1.state in
    (IsUnlocked
        (lock_of 0x300 start (start + join_words 8 0))
        (locks_of demo_name demo_files)
        (locks_of demo_name u.files)
      × ((q : Text)
          → locks_of q u.files ≡ (
              if text_same demo_name q then locks_of demo_name u.files else locks_of q demo_files)))
    × (((g : ℕ) (q : Text)
          → held_by g (locks_of q v.files) ≡ (
              if (g == 0x300) && text_same demo_name q
              then []
              else held_by g (locks_of q demo_files)))
        × (AllLocksOk u × AllLocksOk v))
unlocks_lem_example =
    let a = unlock_call-args in
    unlocks_lem unlock_call 0x300 0 0 8 0 open_file demo_state-AllLocksOk a.0 a.1 a.2 a.3 a.4
      file_open

demo_threads-ThreadsOk : ThreadsOk (demo_state.threads)
demo_threads-ThreadsOk = record { below = (omega arith, tt); distinct = (tt, tt) }

create_thread-ThreadsOk_example : ThreadsOk ((create_thread wait_call).1.state.threads)
create_thread-ThreadsOk_example = create_thread-ThreadsOk wait_call demo_threads-ThreadsOk
