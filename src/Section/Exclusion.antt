-- ===== src/Section/Exclusion.antt =====
-- Any interleaving of the guest code of critical sections, of tew/api/kernel32_sync.py.
use tew.Base.{
  ℕ, ◌+◌, ◌-◌, ◌≤◌, ◌<◌, ◌^◌, ◌==◌, ◌≡◌, ◌≢◌, refl, sym, subst, ap, ◌∙◌, false, ◌⊎◌, inl,
  if◌then◌else◌, List, [], ◌∷◌, ◌++◌, All, AllPairs, All-append, All-imp, arith,
}
use tew.Section.{
  Shared, Thread, Pc, System, Turn, instruction, call_enter, call_leave, call_try, go, execute,
  execute_at, outside, enter_inc, own_owner, own_recursion, busy, enter_again, wait, leave_dec,
  leave_owner, leave_lock, nested, wake, try_swap, try_owner, try_recursion, try_busy, try_lock,
  try_again,
}
use tew.Section.Invariant.{
  pending, token, named, Fits, entries_of, token_of, total, signal, ThreadOk, CountsOk, SystemOk,
  execute-CountsOk, execute-ThreadOk, others-ThreadOk,
}

total-append :
    (f : Thread → ℕ) (xs ys : List Thread) (t : Thread)
    → total f (xs ++ t ∷ ys) ≡ (total f xs + total f ys) + f t
total-append f [] ys t = omega arith
total-append f (x ∷ xs) ys t = omega (arith, total-append f xs ys t)

total_member : (f : Thread → ℕ) (xs : List Thread) → All (λ u. f u ≤ total f xs) xs
total_member f [] = tt
total_member f (x ∷ xs) =
    (omega arith, All-imp _ _ xs (λ u le. omega (arith, le)) (total_member f xs))

module _ (P : Thread → Type 0) where
  All-before : (xs ys : List Thread) → All P (xs ++ ys) → All P xs
  All-before [] ys h = tt
  All-before (x ∷ xs) ys h = (h.0, All-before xs ys h.1)

  All-after : (xs ys : List Thread) → All P (xs ++ ys) → All P ys
  All-after [] ys h = h
  All-after (x ∷ xs) ys h = All-after xs ys h.1

abbrev Differ : Thread → Thread → Type 0
Differ t u = t.tid ≢ u.tid

Differ-before :
    (xs ys : List Thread) (t : Thread) → AllPairs Differ (xs ++ t ∷ ys) → All (Differ t) xs
Differ-before [] ys t h = tt
Differ-before (x ∷ xs) ys t h =
    ((λ e. (All-after (Differ x) xs (t ∷ ys) h.0).0 (sym e)), Differ-before xs ys t h.1)

Differ-after :
    (xs ys : List Thread) (t : Thread) → AllPairs Differ (xs ++ t ∷ ys) → All (Differ t) ys
Differ-after [] ys t h = h.0
Differ-after (x ∷ xs) ys t h = Differ-after xs ys t h.1

-- A thread in the middle is replaced by one with the same number.
Differ-replaced :
    (xs ys : List Thread) (t t' : Thread)
    → t'.tid ≡ t.tid
    → AllPairs Differ (xs ++ t ∷ ys)
    → AllPairs Differ (xs ++ t' ∷ ys)
Differ-replaced [] ys t t' e h = (All-imp _ _ ys (λ u d s. d (sym e ∙ s)) h.0, h.1)
Differ-replaced (x ∷ xs) ys t t' e h = (
  All-append (Differ x) xs (t' ∷ ys) (All-before (Differ x) xs (t ∷ ys) h.0) (
    (λ s. (All-after (Differ x) xs (t ∷ ys) h.0).0 (s ∙ e)),
    (All-after (Differ x) xs (t ∷ ys) h.0).1,
  ),
  Differ-replaced xs ys t t' e h.1,
)

module _ (s s' : Shared) (t : Thread) where
  survivors :
      (xs : List Thread) (k : ℕ)
      → token_of t + total token_of xs ≤ k
      → k ≤ 1
      → All (Differ t) xs
      → All (ThreadOk s) xs
      → ((u : Thread) → t.tid ≢ u.tid → token_of t + token_of u ≤ 1 → ThreadOk s u → ThreadOk s' u)
      → All (ThreadOk s') xs
  survivors [] k le one d v f = tt
  survivors (x ∷ xs) k le one d v f =
      (f x d.0 (omega arith) v.0, survivors xs k (omega arith) one d.1 v.1 f)

-- One thread changes, and the fields with it, in a way that the others can bear.
replaced-SystemOk :
    (s s' : Shared) (before after : List Thread) (t t' : Thread)
    → t'.tid ≡ t.tid
    → SystemOk (record { shared = s; threads = before ++ t ∷ after })
    → ((e k : ℕ)
        → total entries_of (before ++ t ∷ after) ≡ e + entries_of t
        → CountsOk s (e + entries_of t) (k + token_of t)
        → CountsOk s' (e + entries_of t') (k + token_of t') × ThreadOk s' t')
    → ((u : Thread) → t.tid ≢ u.tid → token_of t + token_of u ≤ 1 → ThreadOk s u → ThreadOk s' u)
    → SystemOk (record { shared = s'; threads = before ++ t' ∷ after })
replaced-SystemOk s s' before after t t' same v self others = record {
  counts =
      rw (total-append entries_of before after t', total-append token_of before after t')
        (result.0);
  each =
      All-append (ThreadOk s') before (t' ∷ after)
        (survivors s s' t before k (omega (arith, split)) (omega arith)
          (Differ-before before after t v.distinct)
          (All-before (ThreadOk s) before (t ∷ after) v.each) others)
        (
          result.1,
          survivors s s' t after k (omega (arith, split)) (omega arith)
              (Differ-after before after t v.distinct)
              (All-after (ThreadOk s) before (t ∷ after) v.each).1 others,
        );
  distinct = Differ-replaced before after t t' same v.distinct;
}
  where
    e : ℕ
    e = total entries_of before + total entries_of after

    k0 : ℕ
    k0 = total token_of before + total token_of after

    k : ℕ
    k = total token_of (before ++ t ∷ after)

    split : k ≡ k0 + token_of t
    split = total-append token_of before after t

    counted : CountsOk s (e + entries_of t) (k0 + token_of t)
    counted = rw⁻¹ (total-append entries_of before after t, split) (v.counts)

    result : CountsOk s' (e + entries_of t') (k0 + token_of t') × ThreadOk s' t'
    result = self e k0 (total-append entries_of before after t) counted

execute_at_tid : (pc : Pc) (s : Shared) (t : Thread) → (execute_at pc s t).1.tid ≡ t.tid
unfolding execute_at
execute_at_tid outside s t = refl
execute_at_tid enter_inc s t = refl
execute_at_tid own_owner s t = refl
execute_at_tid own_recursion s t = refl
execute_at_tid busy s t = refl
execute_at_tid enter_again s t = refl
execute_at_tid wait s t = ground arith
execute_at_tid leave_dec s t = refl
execute_at_tid leave_owner s t = refl
execute_at_tid leave_lock s t = refl
execute_at_tid nested s t = refl
execute_at_tid wake s t = refl
execute_at_tid try_swap s t = ground arith
execute_at_tid try_owner s t = refl
execute_at_tid try_recursion s t = refl
execute_at_tid try_busy s t = refl
execute_at_tid try_lock s t = refl
execute_at_tid try_again s t = refl

-- A call only moves the thread: nothing is counted yet.
called-SystemOk :
    (pc : Pc) (s : Shared) (before after : List Thread) (t : Thread)
    → t.pc ≡ outside
    → pending pc ≡ 0
    → token pc ≡ 0
    → named pc ≡ false
    → Fits pc t.depth
    → SystemOk (record { shared = s; threads = before ++ t ∷ after })
    → SystemOk (record { shared = s; threads = before ++ go pc t ∷ after })
unfolding pending token named
called-SystemOk pc s before after t at p k n f v =
    replaced-SystemOk s s before after t (go pc t) refl v
      (λ e j all c. (rw (same_entries, same_token) c, moved)) (λ u differ one ok. ok)
  where
    mine : ThreadOk s t
    mine = (All-after (ThreadOk s) before (t ∷ after) (v.each)).0

    same_entries : entries_of (go pc t) ≡ entries_of t
    same_entries = ground (arith, p, ap pending at)

    same_token : token_of (go pc t) ≡ token_of t
    same_token = ground (arith, k, ap token at)

    moved : ThreadOk s (go pc t)
    moved = record {
      fits = f;
      owner = ground (arith, mine, n, ap named at);
      recursion = mine.recursion;
      real = mine.real;
    }

-- Every turn keeps the invariant, while the entries of all threads stay below 2 ^ 31.
Turn-SystemOk :
    {s u : System} → Turn s u → total entries_of s.threads < 2 ^ 31 → SystemOk s → SystemOk u
unfolding pending token named Fits
Turn-SystemOk (instruction s before after t) small v =
    unfold execute in
    replaced-SystemOk s _ before after t _ (execute_at_tid t.pc s t) v
      (λ e k all c. (
        execute-CountsOk t.pc s t.tid t.depth e k (subst (λ n. n < 2 ^ 31) all small)
            (mine before v) c,
        execute-ThreadOk t.pc s t.tid t.depth e k (subst (λ n. n < 2 ^ 31) all small)
            (mine before v) c,
      ))
      (λ u differ one ok. others-ThreadOk t.pc s t.tid t.depth u differ one (mine before v) ok)
  where
    mine :
        (xs : List Thread)
        → SystemOk (record { shared = s; threads = xs ++ t ∷ after })
        → ThreadOk s t
    mine xs w = (All-after (ThreadOk s) xs (t ∷ after) (w.each)).0
Turn-SystemOk (call_enter s before after t at) small v =
    called-SystemOk enter_inc s before after t at refl refl refl tt v
Turn-SystemOk (call_leave s before after t at inside) small v =
    called-SystemOk leave_dec s before after t at refl refl refl inside v
Turn-SystemOk (call_try s before after t at) small v =
    called-SystemOk try_swap s before after t at refl refl refl tt v

-- Turns one after the other, with fewer than 2 ^ 31 entries before each of them.
pub data Run (s : System) : System → Type 0 where
  start : Run s s
  turn : {t u : System} → Run s t → total entries_of t.threads < 2 ^ 31 → Turn t u → Run s u

Run-SystemOk : {s u : System} → Run s u → SystemOk s → SystemOk u
Run-SystemOk start v = v
Run-SystemOk (turn r small st) v = Turn-SystemOk st small (Run-SystemOk r v)

abbrev pub inside : Thread → ℕ
inside t = if t.depth == 0 then 0 else 1

inside_le : (ts : List Thread) → total inside ts ≤ total token_of ts
inside_le [] = omega arith
inside_le (t ∷ ts) = ground (arith, inside_le ts)

-- A section that nobody has entered, and threads with different numbers that are at no instruction
-- of the section's code.
abbrev pub fresh : Shared
fresh = record { lock_count = 2 ^ 32 - 1; recursion = 0; owner = 0; signaled = false }

pub record IsFresh (s : System) : Type 0 where
  pub unowned : s.shared ≡ fresh
  pub idle : All (λ t. (t.pc ≡ outside) × (t.depth ≡ 0) × (0 < t.tid)) s.threads
  pub distinct : AllPairs (λ t u. t.tid ≢ u.tid) s.threads

idle_total :
    (ts : List Thread)
    → All (λ t. (t.pc ≡ outside) × (t.depth ≡ 0) × (0 < t.tid)) ts
    → (total entries_of ts ≡ 0) × (total token_of ts ≡ 0) × All (ThreadOk fresh) ts
unfolding pending token named Fits
idle_total [] h = (refl, refl, tt)
idle_total (t ∷ ts) h =
    let rest = idle_total ts h.1 in
    (
      ground (arith, rest, h.0, ap pending h.0.0),
      ground (arith, rest, h.0, ap token h.0.0),
      (
        record {
          fits = rw h.0.0 tt;
          owner = ground (arith, h.0, ap named h.0.0);
          recursion = inl h.0.1;
          real = h.0.2;
        },
        rest.2,
      ),
    )

fresh-SystemOk : (s : System) → IsFresh s → SystemOk s
fresh-SystemOk s f =
    let idle = idle_total s.threads f.idle in
    record {
      counts = rw (f.unowned, idle.0, idle.1) (record { lock = refl; unique = inl (refl, refl) });
      each = rw f.unowned (idle.2);
      distinct = f.distinct;
    }

-- Mutual exclusion: however the instructions of any number of threads interleave, from a fresh
-- section and with fewer than 2 ^ 31 entries at a time, at most one thread is inside.
pub exclusion : (s u : System) → Run s u → IsFresh s → total inside u.threads ≤ 1
exclusion s u r f =
    let v = Run-SystemOk r (fresh-SystemOk s f) in ground (arith, v.counts, inside_le (u.threads))

-- No wakeup is lost: however the instructions interleave, from a fresh section and with fewer than
-- 2 ^ 31 entries at a time, while some thread has entries (a thread that waits has one) exactly one
-- thread has the right to own or the semaphore is signalled; and once no thread has entries, none does
-- and the section is free again.
pub handoff :
    (s u : System)
    → Run s u
    → IsFresh s
    → ((total entries_of u.threads ≡ 0)
        × (total token_of u.threads + signal u.shared ≡ 0)
        × (u.shared.lock_count ≡ 2 ^ 32 - 1))
      ⊎ ((0 < total entries_of u.threads) × (total token_of u.threads + signal u.shared ≡ 1))
handoff s u r f = let v = Run-SystemOk r (fresh-SystemOk s f) in ground (arith, v.counts)
