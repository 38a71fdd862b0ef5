-- ===== src/Virtual/Released.antt =====
-- What VirtualFree of tew/api/kernel32_memory.py takes away, and what it leaves.
use tew.Base.{
  ℕ, ◌==◌, ==_iff, if◌then◌else◌, ◌&&◌, ◌||◌, ◌≡◌, refl, subst, sym, ◌∙◌, Bool, true, false,
  Bool-cases, inl, inr, none, get_or, Option-cases, ok, nat_key, get, pop, get-pop, has_key,
  AllPairs-popped, ◌>>=◌, arith,
}
use tew.State.{World, VirtualState}
use tew.State.Native.{Native}
use tew.Machine.{get_state, put_virtual, fatal_halt, arg, return_stdcall}
use tew.Machine.Returns.{arg_read, return_stdcall-Same}
use tew.Virtual.{overlaps_reserved, release_region, decommit_region, virtual_free}
use tew.Virtual.Ranges.{Clear, Clear-sym, Clear-overlaps_reserved}
use tew.Virtual.Keeps.{VirtualInv, virtual_free-Keeps}

-- A MEM_RELEASE of a whole reservation, and a MEM_DECOMMIT.
abbrev pub releases : ℕ → ℕ → ℕ → VirtualState → Bool
releases a size kind v = (kind == 0x8000) && ((size == 0) && has_key a v.virtual_reserved)

abbrev pub decommits : ℕ → Bool
decommits kind = kind == 0x4000

-- From `v` to `u` VirtualFree of the address `a` has taken away the entries that it should.
pub record Freed (a size kind : ℕ) (v u : VirtualState) : Type 0 where
  pub reserved :
      (b : ℕ)
      → get b u.virtual_reserved
        ≡ (if (a == b) && releases a size kind v then none else get b v.virtual_reserved)
  pub committed :
      (b : ℕ)
      → get b u.virtual_committed ≡ (
          if (a == b) && (releases a size kind v || decommits kind)
          then none
          else get b v.virtual_committed)
  pub protect : u.virtual_protect ≡ v.virtual_protect
  pub reusable :
      (releases a size kind v
        && overlaps_reserved a (get_or (get a v.virtual_reserved) 0) u.virtual_reserved)
      ≡ false

-- Nothing was taken away.
untouched :
    (a size kind : ℕ) (v : VirtualState)
    → releases a size kind v ≡ false
    → decommits kind ≡ false
    → Freed a size kind v v
untouched a size kind v kept committed = record {
  reserved = λ b. elim (Bool-cases (a == b)) [ inl e ↦ rw (e, kept) refl | inr e ↦ rw e refl ];
  committed =
      λ b. elim (Bool-cases (a == b)) [ inl e ↦ rw (e, kept, committed) refl | inr e ↦ rw e refl ];
  protect = refl;
  reusable = rw kept refl;
}

taken :
    (a size kind : ℕ) (v : VirtualState)
    → VirtualInv v
    → releases a size kind v ≡ true
    → Freed a size kind v (record v {
      virtual_reserved = pop a v.virtual_reserved;
      virtual_committed = pop a v.virtual_committed;
    })
taken a size kind v inv released = record {
  reserved = λ b.
      get-pop a b v.virtual_reserved
      ∙ elim (Bool-cases (a == b)) [ inl e ↦ rw (e, released) refl | inr e ↦ rw e refl ];
  committed = λ b.
      get-pop a b v.virtual_committed
      ∙ elim (Bool-cases (a == b)) [ inl e ↦ rw (e, released) refl | inr e ↦ rw e refl ];
  protect = refl;
  reusable = elim (Option-cases (get a v.virtual_reserved)) [
    | inl absent ↦ ground (arith, absent, released)
    | inr (n, found) ↦
        rw (released, found)
          (Clear-overlaps_reserved a n (pop a v.virtual_reserved)
            (AllPairs-popped Clear a n v.virtual_reserved Clear-sym inv.apart found))
  ];
}

decommitted :
    (a size : ℕ) (v : VirtualState)
    → Freed a size 0x4000 v (record v { virtual_committed = pop a v.virtual_committed })
decommitted a size v = record {
  reserved = λ b. elim (Bool-cases (a == b)) [ inl e ↦ rw e refl | inr e ↦ rw e refl ];
  committed = λ b.
      get-pop a b v.virtual_committed
      ∙ elim (Bool-cases (a == b)) [ inl e ↦ rw e refl | inr e ↦ rw e refl ];
  protect = refl;
  reusable = refl;
}

module _ {N : Type 0} ⦃lib : Native N⦄ where
  -- The return of the handler leaves it so.
  returned :
      {a size kind : ℕ} {v : VirtualState} (x : ℕ) (u : World N)
      → Freed a size kind v u.state.virtual
      → Freed a size kind v (return_stdcall x 12 u).1.state.virtual
  returned {a = a} {size = size} {kind = kind} {v = v} x u f =
      subst (λ s. Freed a size kind v s.virtual) (sym (return_stdcall-Same x 12 u).state) f

  release_region-Freed :
      (a size : ℕ) (w : World N)
      → VirtualInv w.state.virtual
      → Freed a size 0x8000 w.state.virtual
          (release_region a size w.state.virtual w).1.state.virtual
  unfolding release_region put_virtual fatal_halt ◌>>=◌
  release_region-Freed a size w inv = elim (Bool-cases (size == 0)) [
    | inl whole ↦ elim (Bool-cases (has_key a w.state.virtual.virtual_reserved)) [
      | inl there ↦
          rw (whole, there)
            (returned 1 _ (taken a size 0x8000 w.state.virtual inv (rw (whole, there) refl)))
      | inr missing ↦
          rw (whole, missing)
            (untouched a size 0x8000 w.state.virtual (rw (whole, missing) refl) refl)
    ]
    | inr part ↦ rw part (untouched a size 0x8000 w.state.virtual (rw part refl) refl)
  ]

  decommit_region-Freed :
      (a size : ℕ) (w : World N)
      → Freed a size 0x4000 w.state.virtual (decommit_region a w.state.virtual w).1.state.virtual
  unfolding decommit_region put_virtual ◌>>=◌
  decommit_region-Freed a size w = returned 1 _ (decommitted a size w.state.virtual)

  freed_by :
      (w : World N) (a size kind : ℕ)
      → VirtualInv w.state.virtual
      → (arg 4 w).0 ≡ ok a
      → (arg 8 w).0 ≡ ok size
      → (arg 12 w).0 ≡ ok kind
      → Freed a size kind w.state.virtual (virtual_free w).1.state.virtual
  unfolding virtual_free get_state ◌>>=◌ fatal_halt
  freed_by w a size kind inv ha hs hk =
      rw (arg_read 4 a w ha, arg_read 8 size w hs, arg_read 12 kind w hk)
        (elim (Bool-cases (kind == 0x8000)) [
          | inl release ↦ at_kind 0x8000 release (release_region-Freed a size w inv)
          | inr other ↦ elim (Bool-cases (kind == 0x4000)) [
            | inl decommit ↦ at_kind 0x4000 decommit (decommit_region-Freed a size w)
            | inr none_of_them ↦
                rw (other, none_of_them)
                  (untouched a size kind w.state.virtual (rw other refl) none_of_them)
          ]
        ])
    where
      left : ℕ → VirtualState
      left k =
          ((if k == 0x8000
              then release_region a size w.state.virtual
              else if k == 0x4000
              then decommit_region a w.state.virtual
              else fatal_halt)
            w).1.state.virtual

      at_kind :
          (k : ℕ)
          → (kind == k) ≡ true
          → Freed a size k w.state.virtual (left k)
          → Freed a size kind w.state.virtual (left kind)
      at_kind k e f =
          subst (λ x. Freed a size x w.state.virtual (left x)) (sym ((==_iff kind k).0 e)) f

  -- VirtualFree of an address with a size and a type, among reservations that lie apart inside the user part: MEM_RELEASE with size 0 of an
  -- address that is reserved takes the reservation and the commitment there away, MEM_DECOMMIT the commitment only,
  -- and any other call neither; entries at other addresses and the protections stay, a released range is clear of all
  -- the reservations that are left, and these still lie apart and inside the user part of the address space.
  pub virtual_free-Freed :
      (w : World N) (a size kind : ℕ)
      → VirtualInv w.state.virtual
      → (arg 4 w).0 ≡ ok a
      → (arg 8 w).0 ≡ ok size
      → (arg 12 w).0 ≡ ok kind
      → Freed a size kind w.state.virtual (virtual_free w).1.state.virtual
        × VirtualInv (virtual_free w).1.state.virtual
  virtual_free-Freed w a size kind inv ha hs hk =
      (freed_by w a size kind inv ha hs hk, virtual_free-Keeps.at w inv)
