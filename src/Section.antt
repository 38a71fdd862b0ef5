-- ===== src/Section.antt =====
-- The guest code of Enter-, Leave- and TryEnterCriticalSection (_CS_GUEST_CODE of
-- tew/api/kernel32_sync.py), one instruction that touches the section at a time, with the two hooks of
-- Python as instructions of their own. Register moves and jumps are merged with the instruction before.
pub mod Invariant
pub mod Exclusion
pub mod Hooks
use tew.Base.{
  ℕ, ◌+◌, ◌-◌, ◌%◌, ◌^◌, ◌<◌, ◌≡◌, ltb, ◌==◌, if◌then◌else◌, Bool, true, false, ◌&&◌, List, [], ◌∷◌,
  ◌++◌,
}

-- The fields of RTL_CRITICAL_SECTION that the code uses, and the signal of its LockSemaphore.
pub record Shared : Type 0 where
  pub lock_count : ℕ
  pub recursion : ℕ
  pub owner : ℕ
  pub signaled : Bool

-- The next instruction of a thread; `outside` is guest code that is not part of the section's.
pub data Pc : Type 0 where
  outside : Pc
  enter_inc own_owner own_recursion busy enter_again wait : Pc
  leave_dec leave_owner leave_lock nested wake : Pc
  try_swap try_owner try_recursion try_busy try_lock try_again : Pc

-- `depth` is the number of calls of Enter that have returned, less those of Leave: the code itself does
-- not store it by thread.
pub record Thread : Type 0 where
  pub tid : ℕ
  pub pc : Pc
  pub depth : ℕ

-- inc and dec of a 32-bit word
abbrev pub inc32 : ℕ → ℕ
inc32 x = (x + 1) % 2 ^ 32

abbrev pub dec32 : ℕ → ℕ
dec32 x = (x + (2 ^ 32 - 1)) % 2 ^ 32

abbrev pub go : Pc → Thread → Thread
go pc t = record t { pc = pc }

-- jge after `dec` of the word: the word before it is positive as a signed number
abbrev pub was_positive : ℕ → Bool
was_positive x = ltb 0 x && ltb x (2 ^ 31)

-- One instruction of one thread. A thread that waits for a signal that is not there stays where it is.
unfoldable pub execute_at : Pc → Shared → Thread → Shared × Thread
execute_at outside s t = (s, t)
execute_at enter_inc s t = (
  record s { lock_count = inc32 s.lock_count },
  go (if inc32 s.lock_count == 0 then own_owner else busy) t,
)
execute_at own_owner s t = (record s { owner = t.tid }, go own_recursion t)
execute_at own_recursion s t =
    (record s { recursion = 1 }, record t { pc = outside; depth = t.depth + 1 })
execute_at busy s t = (s, go (if s.owner == t.tid then enter_again else wait) t)
execute_at enter_again s t =
    (record s { recursion = inc32 s.recursion }, record t { pc = outside; depth = t.depth + 1 })
execute_at wait s t = if s.signaled then (record s { signaled = false }, go own_owner t) else (s, t)
execute_at leave_dec s t = (
  record s { recursion = dec32 s.recursion },
  record t { pc = if dec32 s.recursion == 0 then leave_owner else nested; depth = t.depth - 1 },
)
execute_at leave_owner s t = (record s { owner = 0 }, go leave_lock t)
execute_at leave_lock s t = (
  record s { lock_count = dec32 s.lock_count },
  go (if was_positive s.lock_count then wake else outside) t,
)
execute_at nested s t = (record s { lock_count = dec32 s.lock_count }, go outside t)
execute_at wake s t = (record s { signaled = true }, go outside t)
execute_at try_swap s t =
    if s.lock_count == 2 ^ 32 - 1
    then (record s { lock_count = 0 }, go try_owner t)
    else (s, go try_busy t)
execute_at try_owner s t = (record s { owner = t.tid }, go try_recursion t)
execute_at try_recursion s t =
    (record s { recursion = 1 }, record t { pc = outside; depth = t.depth + 1 })
execute_at try_busy s t = (s, go (if s.owner == t.tid then try_lock else outside) t)
execute_at try_lock s t = (record s { lock_count = inc32 s.lock_count }, go try_again t)
execute_at try_again s t =
    (record s { recursion = inc32 s.recursion }, record t { pc = outside; depth = t.depth + 1 })

unfoldable pub execute : Shared → Thread → Shared × Thread
execute s t = execute_at t.pc s t

pub record System : Type 0 where
  pub shared : Shared
  pub threads : List Thread

-- What the threads do, in any order: one instruction of the code, or a call of one of the three
-- functions. Leave is called only by a thread that is inside.
pub data Turn : System → System → Type 0 where
  instruction :
      (s : Shared) (before after : List Thread) (t : Thread)
      → Turn
          (record { shared = s; threads = before ++ t ∷ after })
          (record { shared = (execute s t).0; threads = before ++ (execute s t).1 ∷ after })
  call_enter :
      (s : Shared) (before after : List Thread) (t : Thread)
      → t.pc ≡ outside
      → Turn
          (record { shared = s; threads = before ++ t ∷ after })
          (record { shared = s; threads = before ++ go enter_inc t ∷ after })
  call_leave :
      (s : Shared) (before after : List Thread) (t : Thread)
      → t.pc ≡ outside
      → 0 < t.depth
      → Turn
          (record { shared = s; threads = before ++ t ∷ after })
          (record { shared = s; threads = before ++ go leave_dec t ∷ after })
  call_try :
      (s : Shared) (before after : List Thread) (t : Thread)
      → t.pc ≡ outside
      → Turn
          (record { shared = s; threads = before ++ t ∷ after })
          (record { shared = s; threads = before ++ go try_swap t ∷ after })
