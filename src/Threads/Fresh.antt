-- ===== src/Threads/Fresh.antt =====
-- Conditions on thread handles, for CreateThread of tew/api/kernel32_io.py.
use tew.Base.{ℕ, ◌<◌, ◌≢◌, [], ◌∷◌, All, AllPairs, All-append, All-imp, AllPairs-append_one, arith}
use tew.State.{World, CrtState, ThreadState}
use tew.State.Native.{Native}
use tew.Machine.{put_threads}
use tew.Machine.Keeps.{
  Keeps, Keeps-bind, Keeps-with_state, Keeps-arg, Keeps-get_cpu, Keeps-read32, Keeps-get_native,
  Keeps-put_native, keeps_rules,
}
use tew.Threads.{claim_thread, add_pending, start_thread, create_thread}

-- The handles given out are different from one another and below the next one.
pub record ThreadsOk (t : ThreadState) : Type 0 where
  pub below : All (λ h. h < t.next_thread_handle) t.pending_threads
  pub distinct : AllPairs (λ g h. g ≢ h) t.pending_threads

claim_thread-ThreadsOk : (t : ThreadState) → ThreadsOk t → ThreadsOk (claim_thread t)
unfolding claim_thread
claim_thread-ThreadsOk t v = record {
  below = All-imp _ _ t.pending_threads (λ h lt. omega (arith, lt)) v.below;
  distinct = v.distinct;
}

add_pending-ThreadsOk :
    (t : ThreadState)
    → ThreadsOk t
    → ThreadsOk (add_pending (t.next_thread_handle) (claim_thread t))
unfolding claim_thread add_pending
add_pending-ThreadsOk t v = record {
  below =
      All-append _ t.pending_threads (t.next_thread_handle ∷ [])
        (All-imp _ _ t.pending_threads (λ h lt. omega (arith, lt)) v.below) (omega arith, tt);
  distinct =
      AllPairs-append_one _ t.pending_threads (t.next_thread_handle) v.distinct
        (All-imp _ _ t.pending_threads (λ h lt. omega (arith, lt)) v.below);
}

abbrev OkThreads : CrtState → Type 0
OkThreads s = ThreadsOk s.threads

module _ {N : Type 0} ⦃lib : Native N⦄ where
  put_threads-Keeps : (t : ThreadState) → ThreadsOk t → Keeps OkThreads (put_threads {N = N} t)
  unfolding put_threads
  put_threads-Keeps t v = record { at = λ w _. v }

  start_thread-Keeps :
      (lp_start lp_param dw_flags lp_tid : ℕ) (t : ThreadState)
      → ThreadsOk t
      → Keeps OkThreads (start_thread {N = N} lp_start lp_param dw_flags lp_tid t)
  unfolding start_thread
  start_thread-Keeps lp_start lp_param dw_flags lp_tid t v = Keeps-bind _ _ claimed λ _.
      Keeps-bind _ _ Keeps-get_cpu λ c. Keeps-bind _ _ (Keeps-read32 _) λ ret.
        Keeps-bind _ _ Keeps-get_native
          λ n. Keeps-bind _ _ (Keeps-put_native _) λ _. Keeps-bind _ _ added λ _. search keeps_rules
    where
      claimed : Keeps OkThreads (put_threads {N = N} (claim_thread t))
      claimed = put_threads-Keeps _ (claim_thread-ThreadsOk t v)

      added :
          Keeps OkThreads
            (put_threads {N = N} (add_pending (t.next_thread_handle) (claim_thread t)))
      added = put_threads-Keeps _ (add_pending-ThreadsOk t v)

  create_thread-Keeps : Keeps OkThreads (create_thread {N = N})
  unfolding create_thread
  create_thread-Keeps = Keeps-bind _ _ (Keeps-arg 12) λ a. Keeps-bind _ _ (Keeps-arg 16) λ b.
      Keeps-bind _ _ (Keeps-arg 20) λ c.
        Keeps-bind _ _ (Keeps-arg 24)
          λ d. Keeps-with_state _ λ s v. start_thread-Keeps a b c d (s.threads) v

  -- CreateThread, however it ends, keeps the handles of the threads that exist different from one
  -- another and from the handle that it gives out next.
  pub create_thread-ThreadsOk :
      (w : World N) → ThreadsOk (w.state.threads) → ThreadsOk ((create_thread w).1.state.threads)
  create_thread-ThreadsOk w v = create_thread-Keeps.at w v
