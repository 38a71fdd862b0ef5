-- ===== src/Sync/Safety.antt =====
-- The handlers of tew/api/kernel32_io.py over kernel objects, and the poll of tew/kernel/kernel.py, with
-- the conditions of Sync/Mutex.
use tew.Base.{ℕ, Bool, true}
use tew.State.{World}
use tew.State.Native.{Native}
use tew.Kernel.{tick}
use tew.Sync.{create_mutex_a, create_event_a, release_mutex, set_event, reset_event}
use tew.Sync.Wait.{wait_for_single, wait_for_multiple_common}
use tew.Sync.Steps.{here, tick-Steps, wait_for_single-Steps, set_event-Steps, reset_event-Steps}
use tew.Sync.Reached.{
  create_mutex_a-Steps, create_event_a-Steps, wait_for_multiple-Steps, release_mutex-Steps,
}
use tew.Sync.Mutex.{ObjectsOk, HeldBy, Reach-ObjectsOk, Reach-HeldBy}
use tew.Files.Handles.{close_handle, duplicate_handle_entry}
use tew.Files.Keeps.{close_handle-Steps, duplicate_handle_entry-Steps}

module _ {N : Type 0} ⦃lib : Native N⦄ where
  -- Mutual exclusion: a mutex that a thread owns is still its own after WaitForSingleObject on any
  -- handle by any thread, whether the wait is satisfied, times out, blocks or raises.
  pub wait_for_single-HeldBy :
      (r tid : ℕ) (w : World N)
      → HeldBy r tid (w.state.objects)
      → HeldBy r tid ((wait_for_single w).1.state.objects)
  wait_for_single-HeldBy r tid w v = Reach-HeldBy r tid (wait_for_single-Steps.at w here) v

  -- CreateMutexA, CloseHandle, DuplicateHandle's table entry, and a poll of the sockets with all that it
  -- delivers, take no mutex from its owner: a closed handle of an owned mutex leaves the mutex owned, and a
  -- new object takes an unused place.
  pub handles-HeldBy :
      (r tid h : ℕ) (close : Bool) (w : World N)
      → HeldBy r tid (w.state.objects)
      → HeldBy r tid ((create_mutex_a w).1.state.objects)
        × HeldBy r tid ((close_handle w).1.state.objects)
        × HeldBy r tid ((duplicate_handle_entry h close w).1.state.objects)
        × HeldBy r tid ((tick w).1.state.objects)
  handles-HeldBy r tid h close w v = (
    Reach-HeldBy r tid (create_mutex_a-Steps.at w here) v,
    Reach-HeldBy r tid (close_handle-Steps.at w here) v,
    Reach-HeldBy r tid ((duplicate_handle_entry-Steps h close).at w here) v,
    Reach-HeldBy r tid (tick-Steps.at w here) v,
  )

  -- WaitForSingleObject, WaitForMultipleObjects and ReleaseMutex, however they end, keep every
  -- mutex locked, and counted at least once, exactly when it has an owner, and every handle on an
  -- object that exists.
  pub waits-ObjectsOk :
      (arg_bytes : ℕ) (w : World N)
      → ObjectsOk (w.state.objects)
      → ObjectsOk ((wait_for_single w).1.state.objects)
        × ObjectsOk ((wait_for_multiple_common arg_bytes w).1.state.objects)
        × ObjectsOk ((release_mutex w).1.state.objects)
  waits-ObjectsOk arg_bytes w v = (
    Reach-ObjectsOk {b = true} (wait_for_single-Steps.at w here) v,
    Reach-ObjectsOk ((wait_for_multiple-Steps arg_bytes).at w here) v,
    Reach-ObjectsOk (release_mutex-Steps.at w here) v,
  )

  -- CreateMutexA, CreateEventA, SetEvent, ResetEvent, CloseHandle, DuplicateHandle's table entry and
  -- the poll, however they end, keep every mutex locked, and counted at least once, exactly when it
  -- has an owner, and every handle on an object that exists.
  pub handles-ObjectsOk :
      (h : ℕ) (close : Bool) (w : World N)
      → ObjectsOk (w.state.objects)
      → ObjectsOk ((create_mutex_a w).1.state.objects)
        × ObjectsOk ((create_event_a w).1.state.objects)
        × ObjectsOk ((set_event w).1.state.objects)
        × ObjectsOk ((reset_event w).1.state.objects)
        × ObjectsOk ((close_handle w).1.state.objects)
        × ObjectsOk ((duplicate_handle_entry h close w).1.state.objects)
        × ObjectsOk ((tick w).1.state.objects)
  handles-ObjectsOk h close w v = (
    Reach-ObjectsOk {b = true} (create_mutex_a-Steps.at w here) v,
    Reach-ObjectsOk {b = true} (create_event_a-Steps.at w here) v,
    Reach-ObjectsOk {b = true} (set_event-Steps.at w here) v,
    Reach-ObjectsOk {b = true} (reset_event-Steps.at w here) v,
    Reach-ObjectsOk {b = true} (close_handle-Steps.at w here) v,
    Reach-ObjectsOk {b = true} ((duplicate_handle_entry-Steps h close).at w here) v,
    Reach-ObjectsOk {b = true} (tick-Steps.at w here) v,
  )
