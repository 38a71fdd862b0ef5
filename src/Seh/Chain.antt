-- ===== src/Seh/Chain.antt =====
-- The head of the registration chain after an unwind, for tew/kernel/seh.py.
use tew.Base.{
  ℕ, zero, suc, ◌^◌, ◌<◌, ◌≡◌, Bool, true, false, ◌||◌, if◌then◌else◌, Option-cases, inl, inr, some,
  List, [], ◌∷◌, Result, ok, err, ◌>>=◌, ◌>>◌, pure, raise, proceed, or_raise, arith,
}
use tew.State.{Buffer}
use tew.State.Native.{Native}
use tew.Machine.{mask32, read32, write32, get_memory, put_memory}
use tew.Seh.{GuestThread, Core, Seh, in_world, load32, store32}
use tew.Seh.Dispatch.{member}
use tew.Seh.Unwind.{at_target, unwind_walk, pop_head, unwind_chain}
use tew.Seh.Cells.{IsWordMemory}

-- FS:[0]
abbrev pub Head : {N : Type 0} → Native N → ℕ → ℕ → GuestThread N → Type 0
Head lib fs_base frame t = lib.mem_read32 t.world.memory (mask32 fs_base) ≡ some frame

abbrev pub Ended : {N : Type 0} → Native N → ℕ → Result ℕ → GuestThread N → Type 0
Ended lib fs_base (ok frame) t = Head lib fs_base frame t
Ended lib fs_base (err e) t = Unit

module _ {N : Type 0} ⦃lib : Native N⦄ (laws : IsWordMemory lib)
    (words : (b : Buffer) (a v : ℕ) → lib.mem_read32 b a ≡ some v → v < 2 ^ 32) (core : Core N)
    (fs_base : ℕ) where
  open laws use {read_written}

  -- After the store of a word at FS:[0].
  after_store :
      (frame : ℕ) (next : Seh N ℕ) (t : GuestThread N)
      → frame < 2 ^ 32
      → ((u : GuestThread N) → Head lib fs_base frame u → Ended lib fs_base (next u).0 (next u).1)
      → Ended lib fs_base
          ((store32 fs_base frame >> next) t).0
          ((store32 fs_base frame >> next) t).1
  unfolding store32 in_world write32 get_memory put_memory or_raise ◌>>=◌
  after_store frame next t word rest =
      elim (Option-cases (lib.mem_write32 t.world.memory (mask32 fs_base) (mask32 frame))) [
        | inl e ↦ rw e tt
        | inr (b, e) ↦
            let same : mask32 frame ≡ frame = omega (arith, word) in
            let stored =
              read_written t.world.memory b (mask32 fs_base) (mask32 frame) (omega arith) e in
            rw e (rest (record t { world = record (t.world) { memory = b } }) (rw same at stored))
      ]

  after_load :
      (addr : ℕ) (next : ℕ → Seh N ℕ) (t : GuestThread N)
      → ((v : ℕ)
          → lib.mem_read32 t.world.memory (mask32 addr) ≡ some v
          → Ended lib fs_base (next v t).0 (next v t).1)
      → Ended lib fs_base ((load32 addr >>= next) t).0 ((load32 addr >>= next) t).1
  unfolding load32 in_world read32 get_memory or_raise ◌>>=◌
  after_load addr next t rest = elim (Option-cases (lib.mem_read32 t.world.memory (mask32 addr))) [
    | inl e ↦ rw e tt
    | inr (v, e) ↦ rw e (rest v e)
  ]

  after_any :
      {A : Type 0} (m : Seh N A) (next : A → Seh N ℕ) (t : GuestThread N)
      → ((a : A) (u : GuestThread N) → Ended lib fs_base (next a u).0 (next a u).1)
      → Ended lib fs_base ((m >>= next) t).0 ((m >>= next) t).1
  unfolding ◌>>=◌
  after_any m next t rest = go (m t).0 (m t).1
    where
      go :
          (r : Result _) (u : GuestThread N)
          → Ended lib fs_base (proceed (r, u) next).0 (proceed (r, u) next).1
      go (ok a) u = rest a u
      go (err e) u = tt

  after_test :
      (test : Bool) (frame : ℕ) (more : Seh N ℕ) (t : GuestThread N)
      → Head lib fs_base frame t
      → Ended lib fs_base (more t).0 (more t).1
      → Ended lib fs_base
          ((if test then pure frame else more) t).0
          ((if test then pure frame else more) t).1
  unfolding pure
  after_test true frame more t head rest = head
  after_test false frame more t head rest = rest

  unwind_walk-Ended :
      (fuel target record_at : ℕ) (visited : List ℕ) (frame : ℕ) (t : GuestThread N)
      → Head lib fs_base frame t
      → Ended lib fs_base
          (unwind_walk core fuel fs_base target record_at visited frame t).0
          (unwind_walk core fuel fs_base target record_at visited frame t).1
  unfolding unwind_walk raise
  unwind_walk-Ended zero target record_at visited frame t head = tt
  unwind_walk-Ended (suc fuel) target record_at visited frame t head =
      after_test (at_target target frame || member frame visited) frame _ t head (
        after_load frame _ t λ next read. after_any _ _ _ λ handler u. after_any _ _ _ λ w u1.
          after_store next _ u1 (words _ _ next read)
            λ u2 head'. unwind_walk-Ended fuel target record_at (frame ∷ visited) next u2 head')

  after_pop :
      (m : Seh N ℕ) (next : ℕ → Seh N ℕ) (t : GuestThread N)
      → Ended lib fs_base (m t).0 (m t).1
      → ((frame : ℕ) (u : GuestThread N)
          → Head lib fs_base frame u
          → Ended lib fs_base (next frame u).0 (next frame u).1)
      → Ended lib fs_base ((m >>= next) t).0 ((m >>= next) t).1
  unfolding ◌>>=◌
  after_pop m next t ended rest = go (m t).0 (m t).1 ended
    where
      go :
          (r : Result ℕ) (u : GuestThread N)
          → Ended lib fs_base r u
          → Ended lib fs_base (proceed (r, u) next).0 (proceed (r, u) next).1
      go (ok a) u h = rest a u h
      go (err e) u h = tt

  returns :
      (frame : ℕ) (u : GuestThread N)
      → Head lib fs_base frame u
      → Ended lib fs_base (pure {W = GuestThread N} frame u).0 (pure {W = GuestThread N} frame u).1
  unfolding pure
  returns frame u head = head

  pop_head-Ended :
      (target : ℕ) (t : GuestThread N)
      → Ended lib fs_base (pop_head core fs_base target t).0 (pop_head core fs_base target t).1
  unfolding pop_head
  pop_head-Ended target t = after_load fs_base _ t λ frame head.
      after_test (at_target target frame) frame _ t head (
        after_load frame _ t λ next read. after_store next _ t (words _ _ next read) (returns next))

  -- When the frames below the target of an unwind have been taken out, however their handlers changed the
  -- thread and its memory, FS:[0] has the frame at which the walk ended.
  pub unwind_chain-Ended :
      (target record_at : ℕ) (t : GuestThread N)
      → Ended lib fs_base
          (unwind_chain core fs_base target record_at t).0
          (unwind_chain core fs_base target record_at t).1
  unfolding unwind_chain
  unwind_chain-Ended target record_at t =
      after_pop (pop_head core fs_base target) _ t (pop_head-Ended target t)
        λ frame u head. unwind_walk-Ended _ target record_at [] frame u head
