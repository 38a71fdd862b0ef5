-- ===== src/Section/Invariant.antt =====
-- What holds of a critical section between any two instructions, for the guest code of
-- tew/api/kernel32_sync.py: the lock count, the one token that gives the right to own, and the owner field.
use tew.Base.{
  ℕ, ◌+◌, ◌-◌, ◌%◌, ◌^◌, ◌≤◌, ◌<◌, ltb, ◌==◌, ◌≡◌, ◌≢◌, Bool, true, false, ◌||◌, ◌⊎◌, if◌then◌else◌,
  List, [], ◌∷◌, All, AllPairs, arith,
}
use tew.Section.{
  Shared, Thread, Pc, System, execute_at, outside, enter_inc, own_owner, own_recursion, busy,
  enter_again, wait, leave_dec, leave_owner, leave_lock, nested, wake, try_swap, try_owner,
  try_recursion, try_busy, try_lock, try_again,
}

-- Counted in LockCount, but not (or no longer) in the depth.
unfoldable pub pending : Pc → ℕ
pending own_owner = 1
pending own_recursion = 1
pending busy = 1
pending enter_again = 1
pending wait = 1
pending leave_owner = 1
pending leave_lock = 1
pending nested = 1
pending try_owner = 1
pending try_recursion = 1
pending try_again = 1
pending _ = 0

-- The right to own, held by a thread that is not inside.
unfoldable pub token : Pc → ℕ
token own_owner = 1
token own_recursion = 1
token leave_owner = 1
token leave_lock = 1
token wake = 1
token try_owner = 1
token try_recursion = 1
token _ = 0

-- The owner field names the thread, although its depth is 0.
unfoldable pub named : Pc → Bool
named own_recursion = true
named leave_owner = true
named try_recursion = true
named _ = false

-- The depths that a thread may have at an instruction.
unfoldable pub Fits : Pc → ℕ → Type 0
Fits own_owner d = d ≡ 0
Fits own_recursion d = d ≡ 0
Fits wait d = d ≡ 0
Fits enter_again d = 0 < d
Fits leave_dec d = 0 < d
Fits leave_owner d = d ≡ 0
Fits leave_lock d = d ≡ 0
Fits nested d = 0 < d
Fits wake d = d ≡ 0
Fits try_owner d = d ≡ 0
Fits try_recursion d = d ≡ 0
Fits try_lock d = 0 < d
Fits try_again d = 0 < d
Fits _ d = Unit

abbrev pub entries_of : Thread → ℕ
entries_of t = t.depth + pending t.pc

abbrev pub token_of : Thread → ℕ
token_of t = if t.depth == 0 then token t.pc else 1

abbrev pub total : (Thread → ℕ) → List Thread → ℕ
total f [] = 0
total f (t ∷ ts) = f t + total f ts

abbrev pub signal : Shared → ℕ
signal s = if s.signaled then 1 else 0

-- The fields and one thread.
pub record ThreadOk (s : Shared) (t : Thread) : Type 0 where
  pub fits : Fits t.pc t.depth
  pub owner : (s.owner == t.tid) ≡ (ltb 0 t.depth || named t.pc)
  pub recursion : (t.depth ≡ 0) ⊎ (s.recursion ≡ t.depth)
  pub real : 0 < t.tid

-- The lock count, and that there is one token exactly while there are entries: `e` and `k` are the
-- entries and the tokens of all threads.
pub record CountsOk (s : Shared) (e k : ℕ) : Type 0 where
  pub lock : s.lock_count ≡ (e + (2 ^ 32 - 1)) % 2 ^ 32
  pub unique : ((e ≡ 0) × (k + signal s ≡ 0)) ⊎ ((0 < e) × (k + signal s ≡ 1))

pub record SystemOk (s : System) : Type 0 where
  pub counts : CountsOk s.shared (total entries_of s.threads) (total token_of s.threads)
  pub each : All (ThreadOk s.shared) s.threads
  pub distinct : AllPairs (λ t u. t.tid ≢ u.tid) s.threads

abbrev pub thread : ℕ → Pc → ℕ → Thread
thread tid pc depth = record { tid = tid; pc = pc; depth = depth }

-- The counts, as an instruction of one thread leaves them where the others have `e` entries and `k`
-- tokens.
pub execute-CountsOk :
    (pc : Pc) (s : Shared) (tid d e k : ℕ)
    → e + (d + pending pc) < 2 ^ 31
    → ThreadOk s (thread tid pc d)
    → CountsOk s (e + (d + pending pc)) (k + token_of (thread tid pc d))
    → CountsOk
        (execute_at pc s (thread tid pc d)).0
        (e + entries_of ((execute_at pc s (thread tid pc d)).1))
        (k + token_of ((execute_at pc s (thread tid pc d)).1))
unfolding execute_at pending token Fits named
execute-CountsOk outside s tid d e k small ok c = ground arith
execute-CountsOk enter_inc s tid d e k small ok c = ground arith
execute-CountsOk own_owner s tid d e k small ok c = ground arith
execute-CountsOk own_recursion s tid d e k small ok c = ground arith
execute-CountsOk busy s tid d e k small ok c = ground arith
execute-CountsOk enter_again s tid d e k small ok c = ground arith
execute-CountsOk wait s tid d e k small ok c = ground arith
execute-CountsOk leave_dec s tid d e k small ok c = ground arith
execute-CountsOk leave_owner s tid d e k small ok c = ground arith
execute-CountsOk leave_lock s tid d e k small ok c = ground arith
execute-CountsOk nested s tid d e k small ok c = ground arith
execute-CountsOk wake s tid d e k small ok c = ground arith
execute-CountsOk try_swap s tid d e k small ok c = ground arith
execute-CountsOk try_owner s tid d e k small ok c = ground arith
execute-CountsOk try_recursion s tid d e k small ok c = ground arith
execute-CountsOk try_busy s tid d e k small ok c = ground arith
execute-CountsOk try_lock s tid d e k small ok c = ground arith
execute-CountsOk try_again s tid d e k small ok c = ground arith

-- The thread itself, after its instruction.
pub execute-ThreadOk :
    (pc : Pc) (s : Shared) (tid d e k : ℕ)
    → e + (d + pending pc) < 2 ^ 31
    → ThreadOk s (thread tid pc d)
    → CountsOk s (e + (d + pending pc)) (k + token_of (thread tid pc d))
    → ThreadOk (execute_at pc s (thread tid pc d)).0 (execute_at pc s (thread tid pc d)).1
unfolding execute_at pending token Fits named
execute-ThreadOk outside s tid d e k small ok c = ground arith
execute-ThreadOk enter_inc s tid d e k small ok c = ground arith
execute-ThreadOk own_owner s tid d e k small ok c = ground arith
execute-ThreadOk own_recursion s tid d e k small ok c = ground arith
execute-ThreadOk busy s tid d e k small ok c = ground arith
execute-ThreadOk enter_again s tid d e k small ok c = ground arith
execute-ThreadOk wait s tid d e k small ok c = ground arith
execute-ThreadOk leave_dec s tid d e k small ok c = ground arith
execute-ThreadOk leave_owner s tid d e k small ok c = ground arith
execute-ThreadOk leave_lock s tid d e k small ok c = ground arith
execute-ThreadOk nested s tid d e k small ok c = ground arith
execute-ThreadOk wake s tid d e k small ok c = ground arith
execute-ThreadOk try_swap s tid d e k small ok c = ground arith
execute-ThreadOk try_owner s tid d e k small ok c = ground arith
execute-ThreadOk try_recursion s tid d e k small ok c = ground arith
execute-ThreadOk try_busy s tid d e k small ok c = ground arith
execute-ThreadOk try_lock s tid d e k small ok c = ground arith
execute-ThreadOk try_again s tid d e k small ok c = ground arith

unnamed : (pc : Pc) → token pc ≡ 0 → named pc ≡ false
unfolding token named
unnamed outside e = ground arith
unnamed enter_inc e = ground arith
unnamed own_owner e = ground arith
unnamed own_recursion e = ground arith
unnamed busy e = ground arith
unnamed enter_again e = ground arith
unnamed wait e = ground arith
unnamed leave_dec e = ground arith
unnamed leave_owner e = ground arith
unnamed leave_lock e = ground arith
unnamed nested e = ground arith
unnamed wake e = ground arith
unnamed try_swap e = ground arith
unnamed try_owner e = ground arith
unnamed try_recursion e = ground arith
unnamed try_busy e = ground arith
unnamed try_lock e = ground arith
unnamed try_again e = ground arith

-- Another thread, which holds no token while this one does.
pub others-ThreadOk :
    (pc : Pc) (s : Shared) (tid d : ℕ) (u : Thread)
    → tid ≢ u.tid
    → token_of (thread tid pc d) + token_of u ≤ 1
    → ThreadOk s (thread tid pc d)
    → ThreadOk s u
    → ThreadOk (execute_at pc s (thread tid pc d)).0 u
unfolding execute_at token Fits named
others-ThreadOk outside s tid d u differ one ok other = ground (arith, unnamed (u.pc))
others-ThreadOk enter_inc s tid d u differ one ok other = ground (arith, unnamed (u.pc))
others-ThreadOk own_owner s tid d u differ one ok other = ground (arith, unnamed (u.pc))
others-ThreadOk own_recursion s tid d u differ one ok other = ground (arith, unnamed (u.pc))
others-ThreadOk busy s tid d u differ one ok other = ground (arith, unnamed (u.pc))
others-ThreadOk enter_again s tid d u differ one ok other = ground (arith, unnamed (u.pc))
others-ThreadOk wait s tid d u differ one ok other = ground (arith, unnamed (u.pc))
others-ThreadOk leave_dec s tid d u differ one ok other = ground (arith, unnamed (u.pc))
others-ThreadOk leave_owner s tid d u differ one ok other = ground (arith, unnamed (u.pc))
others-ThreadOk leave_lock s tid d u differ one ok other = ground (arith, unnamed (u.pc))
others-ThreadOk nested s tid d u differ one ok other = ground (arith, unnamed (u.pc))
others-ThreadOk wake s tid d u differ one ok other = ground (arith, unnamed (u.pc))
others-ThreadOk try_swap s tid d u differ one ok other = ground (arith, unnamed (u.pc))
others-ThreadOk try_owner s tid d u differ one ok other = ground (arith, unnamed (u.pc))
others-ThreadOk try_recursion s tid d u differ one ok other = ground (arith, unnamed (u.pc))
others-ThreadOk try_busy s tid d u differ one ok other = ground (arith, unnamed (u.pc))
others-ThreadOk try_lock s tid d u differ one ok other = ground (arith, unnamed (u.pc))
others-ThreadOk try_again s tid d u differ one ok other = ground (arith, unnamed (u.pc))
