-- ===== src/Tests/Sections.antt =====
-- The theorems on critical sections at a run of two threads, of which the first enters and the second
-- finds the section busy.
use tew.Base.{ℕ, ◌+◌, ◌≤◌, ◌<◌, ◌^◌, ◌-◌, ◌≡◌, ◌⊎◌, refl, false, [], ◌∷◌, arith}
use tew.Section.{
  Shared, Thread, System, instruction, call_enter, outside, enter_inc, own_owner, own_recursion,
  busy, wait, execute, execute_at,
}
use tew.Section.Invariant.{thread, total, entries_of, token_of, signal, pending}
use tew.Section.Exclusion.{Run, start, turn, fresh, IsFresh, inside, exclusion, handoff}

abbrev system : Shared → Thread → Thread → System
system s a b = record { shared = s; threads = a ∷ b ∷ [] }

abbrev idle_pair : System
idle_pair = system fresh (thread 1 outside 0) (thread 2 outside 0)

abbrev counted : ℕ → Shared
counted n = record fresh { lock_count = n }

abbrev owned : Shared
owned = record { lock_count = 1; recursion = 1; owner = 1; signaled = false }

abbrev contended : System
contended = system owned (thread 1 outside 1) (thread 2 wait 0)

idle_pair-IsFresh : IsFresh idle_pair
idle_pair-IsFresh = record {
  unowned = refl;
  idle = ((refl, refl, omega arith), ((refl, refl, omega arith), tt));
  distinct = omega arith;
}

-- The calls of both, and the instructions of both up to the wait.
contended-Run : Run idle_pair contended
unfolding execute execute_at pending
contended-Run =
    turn
      (turn
        (turn
          (turn
            (turn
              (turn
                (turn start (omega arith)
                  (call_enter fresh [] (thread 2 outside 0 ∷ []) (thread 1 outside 0) refl))
                (omega arith)
                (call_enter fresh (thread 1 enter_inc 0 ∷ []) [] (thread 2 outside 0) refl))
              (omega arith)
              (instruction fresh [] (thread 2 enter_inc 0 ∷ []) (thread 1 enter_inc 0)))
            (omega arith)
            (instruction (counted 0) (thread 1 own_owner 0 ∷ []) [] (thread 2 enter_inc 0)))
          (omega arith) (instruction (counted 1) (thread 1 own_owner 0 ∷ []) [] (thread 2 busy 0)))
        (omega arith) (instruction (counted 1) [] (thread 2 wait 0 ∷ []) (thread 1 own_owner 0)))
      (omega arith)
      (instruction (record (counted 1) { owner = 1 }) [] (thread 2 wait 0 ∷ [])
        (thread 1 own_recursion 0))

exclusion_example : total inside contended.threads ≤ 1
exclusion_example = exclusion idle_pair contended contended-Run idle_pair-IsFresh

handoff_example :
    ((total entries_of contended.threads ≡ 0)
      × (total token_of contended.threads + signal contended.shared ≡ 0)
      × (contended.shared.lock_count ≡ 2 ^ 32 - 1))
    ⊎ ((0 < total entries_of contended.threads)
        × (total token_of contended.threads + signal contended.shared ≡ 1))
handoff_example = handoff idle_pair contended contended-Run idle_pair-IsFresh
